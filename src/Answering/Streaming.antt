-- ===== src/Answering/Streaming.antt =====
-- The answer service: the numbers of its citations, and its streams with what they record.
use rag_knowledge_platform_f.Prelude.{
  ℕ, ◌+◌, ◌<◌, none, some, List, [], ◌∷◌, ◌++◌, ◌≡◌, refl, sym, ap, ◌∙◌, All, arith, append-nil,
  append_assoc,
}
use rag_knowledge_platform_f.Text.{Text, codes}
use rag_knowledge_platform_f.Retrieval.{RetrievedChunk}
use rag_knowledge_platform_f.Answering.Citations.Members.{IsAscending}
use rag_knowledge_platform_f.Answering.Citations.Cited.{markers}
use rag_knowledge_platform_f.Answering.{
  StreamEvent, Prices, UsageRecord, PreparedAnswer, AnswerService, SseEvent, number_citations,
  record_usage, stream_event, stream_events, stream,
}

module _ {F : Type 0} where
  number_above :
      (k m : ℕ) (chunks : List (RetrievedChunk F))
      → k < m
      → All (λ y. k < y) (markers (number_citations m chunks))
  unfolding number_citations
  number_above k m [] h = tt
  number_above k m (c ∷ chunks) h = (h, number_above k (m + 1) chunks (omega arith))

  -- The citations that `prepare` makes are in ascending order of their markers.
  pub number_citations-IsAscending :
      (m : ℕ) (chunks : List (RetrievedChunk F)) → IsAscending (markers (number_citations m chunks))
  unfolding number_citations
  number_citations-IsAscending m [] = tt
  number_citations-IsAscending m (c ∷ chunks) =
      (number_above m (m + 1) chunks (omega arith), number_citations-IsAscending (m + 1) chunks)

-- The text that a client puts together, and the text that the provider sent.
abbrev pub streamed_text : {F : Type 0} → List (SseEvent F) → Text
streamed_text [] = []
streamed_text (SseEvent.delta_event text ∷ events) = text ++ streamed_text events
streamed_text (SseEvent.citations_event _ ∷ events) = streamed_text events
streamed_text (SseEvent.done_event _ _ _ ∷ events) = streamed_text events
streamed_text (SseEvent.null_done_event ∷ events) = streamed_text events

abbrev pub sent_text : List StreamEvent → Text
sent_text [] = []
sent_text (StreamEvent.text_delta text ∷ events) = text ++ sent_text events
sent_text (StreamEvent.stream_end _ _ ∷ events) = sent_text events

module _ {V F D : Type 0} (prices : Prices F D) (service : AnswerService V F) (tenant_id : ℕ) where
  -- The rows that stand for the `done` events, with what these say.
  abbrev pub bills : List (SseEvent F) → List (UsageRecord D)
  bills [] = []
  bills (SseEvent.done_event model usage cost ∷ events) =
      record {
        tenant_id = tenant_id;
        operation = codes "answer";
        model = model;
        input_tokens = usage.input_tokens;
        output_tokens = usage.output_tokens;
        cost_usd = elim cost [ none ↦ none | some c ↦ some (prices.to_decimal c) ];
      }
      ∷ bills events
  bills (SseEvent.citations_event _ ∷ events) = bills events
  bills (SseEvent.delta_event _ ∷ events) = bills events
  bills (SseEvent.null_done_event ∷ events) = bills events

  stream_events-bills :
      (events : List StreamEvent) (rows : List (UsageRecord D))
      → (stream_events prices service tenant_id events rows).1
        ≡ rows ++ bills (stream_events prices service tenant_id events rows).0
  unfolding stream_events stream_event record_usage
  stream_events-bills [] rows = sym (append-nil rows)
  stream_events-bills (StreamEvent.text_delta text ∷ events) rows = stream_events-bills events rows
  stream_events-bills (StreamEvent.stream_end usage model ∷ events) rows =
      stream_events-bills events _ ∙ append_assoc rows (_ ∷ []) _

  stream_events_text :
      (events : List StreamEvent) (rows : List (UsageRecord D))
      → streamed_text (stream_events prices service tenant_id events rows).0 ≡ sent_text events
  unfolding stream_events stream_event
  stream_events_text [] rows = refl
  stream_events_text (StreamEvent.text_delta text ∷ events) rows =
      ap (λ t. text ++ t) (stream_events_text events rows)
  stream_events_text (StreamEvent.stream_end usage model ∷ events) rows =
      stream_events_text events _

  -- A stream passes on the provider's text unchanged, and adds to the usage rows exactly one for each
  -- `done` event, with the tenant, model, tokens and cost that it reports, whatever the provider sends.
  pub stream-bills :
      (prepared : PreparedAnswer) (rows : List (UsageRecord D))
      → ((stream prices service prepared tenant_id rows).1
          ≡ rows ++ bills (stream prices service prepared tenant_id rows).0.0)
        × (streamed_text (stream prices service prepared tenant_id rows).0.0
            ≡ sent_text (service.llm.stream prepared.system prepared.user service.max_tokens).0)
  unfolding stream
  stream-bills prepared rows = (stream_events-bills _ rows, stream_events_text _ rows)
