-- ===== src/Answering/Metering.antt =====
-- The usage rows of an answer that is not streamed.
use rag_knowledge_platform_f.Prelude.{
  ℕ, Option, none, some, List, [], ◌∷◌, ◌++◌, ◌≡◌, refl, sym, append-nil,
}
use rag_knowledge_platform_f.Text.{Text, codes}
use rag_knowledge_platform_f.Errors.{Result, ok, err}
use rag_knowledge_platform_f.Answering.Citations.{Citation, cited_only}
use rag_knowledge_platform_f.Answering.{
  LlmUsage, LlmResult, Prices, UsageRecord, PreparedAnswer, AnswerResult, AnswerService,
  record_usage, finish_complete, complete,
}

module _ {F D : Type 0} (prices : Prices F D) (tenant_id : ℕ) where
  -- The row of a call that used these tokens.
  abbrev pub bill : Text → LlmUsage → Option F → UsageRecord D
  bill model usage cost = record {
    tenant_id = tenant_id;
    operation = codes "answer";
    model = model;
    input_tokens = usage.input_tokens;
    output_tokens = usage.output_tokens;
    cost_usd = elim cost [ none ↦ none | some c ↦ some (prices.to_decimal c) ];
  }

  -- The rows that an answer with this model, usage and cost stands for: one if it has them.
  abbrev pub bill_if : Option Text → Option LlmUsage → Option F → List (UsageRecord D)
  bill_if (some model) (some usage) cost = bill model usage cost ∷ []
  bill_if _ _ cost = []

  abbrev pub result_bills : Result (AnswerResult F) → List (UsageRecord D)
  result_bills (err e) = []
  result_bills (ok r) = bill_if r.model r.usage r.cost_usd

module _ {V F D : Type 0} (prices : Prices F D) (service : AnswerService V F) (tenant_id : ℕ) where
  finish-bills :
      (result : LlmResult) (cited : Result (List Citation)) (rows : List (UsageRecord D))
      → (finish_complete prices service tenant_id result cited rows).1
        ≡ rows
          ++ result_bills prices tenant_id
              (finish_complete prices service tenant_id result cited rows).0
  unfolding finish_complete record_usage
  finish-bills result (err e) rows = sym (append-nil rows)
  finish-bills result (ok cited) rows = refl

  generated-bills :
      (digit_value : ℕ → Option ℕ) (prepared : PreparedAnswer) (generated : Result LlmResult)
      (rows : List (UsageRecord D))
      → let outcome : Result (AnswerResult F) × List (UsageRecord D) = elim generated [
        | err e ↦ (err e, rows)
        | ok result ↦
            finish_complete prices service tenant_id result
              (cited_only digit_value result.text prepared.citations)
              rows
      ] in
        outcome.1 ≡ rows ++ result_bills prices tenant_id outcome.0
  generated-bills digit_value prepared (err e) rows = sym (append-nil rows)
  generated-bills digit_value prepared (ok result) rows = finish-bills result _ rows

  -- `complete` adds one row for what it returns, with the model, tokens and cost of it, and none if it
  -- raises.
  pub complete-bills :
      (digit_value : ℕ → Option ℕ) (prepared : PreparedAnswer) (rows : List (UsageRecord D))
      → (complete prices service digit_value prepared tenant_id rows).1
        ≡ rows
          ++ result_bills prices tenant_id
              (complete prices service digit_value prepared tenant_id rows).0
  unfolding complete
  complete-bills digit_value prepared rows =
      generated-bills digit_value prepared
        (service.llm.generate prepared.system prepared.user service.max_tokens) rows
