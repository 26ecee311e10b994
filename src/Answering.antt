-- ===== src/Answering.antt =====
-- services/answering.py, with the events and results of llm/base.py. A method that meters returns its
-- outcome beside the rows of `usage_records` that it leaves, the newest last.
pub mod Citations
pub mod Streaming
pub mod Metering
use rag_knowledge_platform_f.Prelude.{
  ℕ, ◌+◌, Bool, true, false, Option, none, some, List, [], ◌∷◌, ◌++◌, map, take, is_empty,
  if◌then◌else◌,
}
use rag_knowledge_platform_f.Text.{Text, codes, join}
use rag_knowledge_platform_f.Text.Decimal.{decimal}
use rag_knowledge_platform_f.Errors.{Exc, Result, ok, err, ◌>>=◌}
use rag_knowledge_platform_f.Database.{Db}
use rag_knowledge_platform_f.Retrieval.Repository.{Floats, Engine}
use rag_knowledge_platform_f.Retrieval.{Mode, RetrievalService, RetrievedChunk, search}
use rag_knowledge_platform_f.Answering.Citations.{Citation, format_location, cited_only}

-- `LLMUsage`.
pub record LlmUsage : Type 0 where
  pub input_tokens : ℕ
  pub output_tokens : ℕ

-- `LLMResult`.
pub record LlmResult : Type 0 where
  pub text : Text
  pub usage : LlmUsage
  pub model : Text

-- `StreamEvent`.
pub data StreamEvent : Type 0 where
  text_delta : Text → StreamEvent
  stream_end : LlmUsage → Text → StreamEvent

-- `LLMProvider`. A stream is what it yields, and the exception that ends it, if one does.
pub record LlmProvider : Type 0 where
  pub generate : (system user : Text) → (max_tokens : ℕ) → Result LlmResult
  pub stream : (system user : Text) → (max_tokens : ℕ) → List StreamEvent × Option Exc

-- The arithmetic on prices: `tokens * price`, `+`, `/ 1_000_000`, and `Decimal(str(round(x, 6)))`.
pub record Prices (F D : Type 0) : Type 0 where
  pub times : ℕ → F → F
  pub plus : F → F → F
  pub per_million : F → F
  pub to_decimal : F → D

-- `UsageRecord`, without the columns that the database fills.
pub record UsageRecord (D : Type 0) : Type 0 where
  pub tenant_id : ℕ
  pub operation : Text
  pub model : Text
  pub input_tokens : ℕ
  pub output_tokens : ℕ
  pub cost_usd : Option D

-- `PreparedAnswer`.
pub record PreparedAnswer : Type 0 where
  pub system : Text
  pub user : Text
  pub citations : List Citation

-- `AnswerResult`.
pub record AnswerResult (F : Type 0) : Type 0 where
  pub answer : Text
  pub citations : List Citation
  pub model : Option Text
  pub usage : Option LlmUsage
  pub cost_usd : Option F

-- The fields of `AnswerService`.
pub record AnswerService (V F : Type 0) : Type 0 where
  pub retrieval : RetrievalService V F
  pub llm : LlmProvider
  pub max_tokens : ℕ
  pub price_in : Option F
  pub price_out : Option F

-- What `stream` yields: the event, with the entries of its payload. The last is the `done` of the
-- route `answer` without a model, whose entries are all null.
pub data SseEvent (F : Type 0) : Type 0 where
  citations_event : List Citation → SseEvent F
  delta_event : Text → SseEvent F
  done_event : Text → LlmUsage → Option F → SseEvent F
  null_done_event : SseEvent F

system_prompt : Text
system_prompt =
    codes "You answer questions strictly from the provided context passages.\n"
    ++ codes "Rules:\n"
    ++ codes "- Use ONLY information present in the context. No outside knowledge.\n"
    ++ codes "- Cite every claim with the bracketed marker of the passage that supports it, "
    ++ codes "e.g. [1] or [2][3].\n"
    ++ codes "- If the context does not contain the answer, say so plainly instead of guessing.\n"
    ++ codes "- Be concise."

source_of : Text → Option Text → Text
source_of filename none = filename
source_of filename (some location) =
    if is_empty location then filename else filename ++ codes " — " ++ location

module _ {F : Type 0} where
  -- The citations of `prepare`, numbered from `marker` on.
  pub number_citations : (marker : ℕ) → List (RetrievedChunk F) → List Citation
  number_citations marker [] = []
  number_citations marker (c ∷ chunks) =
      record {
        marker = marker;
        chunk_id = c.chunk_id;
        document_id = c.document_id;
        filename = c.filename;
        location = format_location c.meta;
        snippet = take 200 c.content;
      }
      ∷ number_citations (marker + 1) chunks

  passages : ℕ → List (RetrievedChunk F) → List Text
  passages i [] = []
  passages i (chunk ∷ chunks) =
      (codes "["
        ++ decimal i
        ++ codes "] ("
        ++ source_of chunk.filename (format_location chunk.meta)
        ++ codes ")\n"
        ++ chunk.content)
      ∷ passages (i + 1) chunks

  pub build_user_prompt : List (RetrievedChunk F) → Text → Text
  build_user_prompt chunks query =
      join (codes "\n\n")
        (codes "Context passages:" ∷ (passages 1 chunks ++ (codes "Question: " ++ query) ∷ []))

  -- The rest of `prepare` after the search.
  pub prepare_from : Text → List (RetrievedChunk F) → Option PreparedAnswer
  prepare_from query [] = none
  prepare_from query (c ∷ chunks) = some (record {
    system = system_prompt;
    user = build_user_prompt (c ∷ chunks) query;
    citations = number_citations 1 (c ∷ chunks);
  })

module _ {V F : Type 0} where
  pub prepare :
      Floats F
      → Engine V F
      → AnswerService V F
      → (tenant_id : ℕ) → Text
      → (top_n : ℕ) → Db V
      → Result (Option PreparedAnswer)
  prepare floats engine service tenant_id query top_n db = do
    chunks ← search floats engine service.retrieval tenant_id query Mode.hybrid (some top_n) db
    ok (prepare_from query chunks)

module _ {V F D : Type 0} (prices : Prices F D) (service : AnswerService V F) where
  cost_from : Option F → Option F → LlmUsage → Option F
  cost_from (some price_in) (some price_out) usage = some (
      prices.per_million (
        prices.plus (prices.times usage.input_tokens price_in)
          (prices.times usage.output_tokens price_out)))
  cost_from _ _ usage = none

  -- `_cost`.
  pub cost : LlmUsage → Option F
  unfolding cost_from
  cost usage = cost_from service.price_in service.price_out usage

  -- `_record_usage`, with its commit.
  pub record_usage :
      (tenant_id : ℕ) → Text → LlmUsage → Option F → List (UsageRecord D) → List (UsageRecord D)
  record_usage tenant_id model usage cost rows =
      rows
      ++ record {
        tenant_id = tenant_id;
        operation = codes "answer";
        model = model;
        input_tokens = usage.input_tokens;
        output_tokens = usage.output_tokens;
        cost_usd = elim cost [ none ↦ none | some c ↦ some (prices.to_decimal c) ];
      }
        ∷ []

  finish_complete :
      (tenant_id : ℕ)
      → LlmResult
      → Result (List Citation)
      → List (UsageRecord D)
      → Result (AnswerResult F) × List (UsageRecord D)
  finish_complete tenant_id result (err e) rows = (err e, rows)
  finish_complete tenant_id result (ok cited) rows =
      let cost_usd = cost result.usage in
      (
        ok (record {
          answer = result.text;
          citations = cited;
          model = some result.model;
          usage = some result.usage;
          cost_usd = cost_usd;
        }),
        record_usage tenant_id result.model result.usage cost_usd rows,
      )

  pub complete :
      (ℕ → Option ℕ)
      → PreparedAnswer
      → (tenant_id : ℕ) → List (UsageRecord D)
      → Result (AnswerResult F) × List (UsageRecord D)
  unfolding finish_complete
  complete digit_value prepared tenant_id rows =
      elim (service.llm.generate prepared.system prepared.user service.max_tokens) [
        | err e ↦ (err e, rows)
        | ok result ↦
            finish_complete tenant_id result (cited_only digit_value result.text prepared.citations)
              rows
      ]

  -- One event of the provider's stream: what is yielded, after what is recorded.
  pub stream_event :
      (tenant_id : ℕ) → StreamEvent → List (UsageRecord D) → SseEvent F × List (UsageRecord D)
  stream_event tenant_id (text_delta text) rows = (delta_event text, rows)
  stream_event tenant_id (stream_end usage model) rows =
      let cost_usd = cost usage in
      (done_event model usage cost_usd, record_usage tenant_id model usage cost_usd rows)

  pub stream_events :
      (tenant_id : ℕ)
      → List StreamEvent
      → List (UsageRecord D)
      → List (SseEvent F) × List (UsageRecord D)
  stream_events tenant_id [] rows = ([], rows)
  stream_events tenant_id (event ∷ events) rows =
      let (yielded, rows') = stream_event tenant_id event rows in
      let (rest, rows'') = stream_events tenant_id events rows' in (yielded ∷ rest, rows'')

  -- `AnswerService.stream`, for a client that reads it to its end.
  pub stream :
      PreparedAnswer
      → (tenant_id : ℕ) → List (UsageRecord D)
      → (List (SseEvent F) × Option Exc) × List (UsageRecord D)
  stream prepared tenant_id rows =
      let (events, ended) = service.llm.stream prepared.system prepared.user service.max_tokens in
      let (yielded, rows') = stream_events tenant_id events rows in
      ((citations_event prepared.citations ∷ yielded, ended), rows')
