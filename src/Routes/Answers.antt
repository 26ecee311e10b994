-- ===== src/Routes/Answers.antt =====
-- What a request for an answer costs.
use rag_knowledge_platform_f.Prelude.{
  ℕ, Option, none, some, List, [], ◌++◌, ◌≡◌, sym, append-nil, inl, inr, Bool-cases,
}
use rag_knowledge_platform_f.Errors.{Result, ok, err}
use rag_knowledge_platform_f.Database.{Db}
use rag_knowledge_platform_f.Retrieval.Repository.{Floats, Engine}
use rag_knowledge_platform_f.Answering.Metering.{bill_if, result_bills, complete-bills}
use rag_knowledge_platform_f.Answering.Streaming.{bills, stream-bills}
use rag_knowledge_platform_f.Answering.{
  Prices, UsageRecord, PreparedAnswer, AnswerResult, AnswerService,
}
use rag_knowledge_platform_f.Security.{TokenClaims}
use rag_knowledge_platform_f.Routes.{
  AnswerRequest, Answered, answer_response, no_context, completed, streaming, answer_prepared,
  answer_route,
}

module _ {V F D : Type 0} (floats : Floats F) (engine : Engine V F) (prices : Prices F D)
    (digit_value : ℕ → Option ℕ) (service : AnswerService V F) where
  -- The rows that stand for an answer: for its usage, or for the `done` events of its stream.
  abbrev pub answer_bills : ℕ → Result (Answered F) → List (UsageRecord D)
  answer_bills tenant_id (err e) = []
  answer_bills tenant_id (ok (Answered.response r)) =
      bill_if prices tenant_id r.model r.usage r.cost_usd
  answer_bills tenant_id (ok (Answered.streamed (events, ended))) =
      bills prices service tenant_id events

  completed-bills :
      (tenant_id : ℕ) (outcome : Result (AnswerResult F) × List (UsageRecord D))
      (rows : List (UsageRecord D))
      → outcome.1 ≡ rows ++ result_bills prices tenant_id outcome.0
      → let r = completed floats engine prices digit_value service outcome in
        r.1 ≡ rows ++ answer_bills tenant_id r.0
  unfolding completed answer_response
  completed-bills tenant_id (err e, rows') rows h = h
  completed-bills tenant_id (ok result, rows') rows h = h

  prepared-bills :
      (prepared : Result (Option PreparedAnswer)) (body : AnswerRequest) (tenant : TokenClaims)
      (rows : List (UsageRecord D))
      → let r =
          answer_prepared floats engine prices digit_value service prepared body tenant rows in
        r.1 ≡ rows ++ answer_bills tenant.tenant_id r.0
  unfolding answer_prepared no_context streaming
  prepared-bills (err e) body tenant rows = sym (append-nil rows)
  prepared-bills (ok none) body tenant rows = elim (Bool-cases body.stream) [
    | inl streams ↦ rw streams (sym (append-nil rows))
    | inr whole ↦ rw whole (sym (append-nil rows))
  ]
  prepared-bills (ok (some prepared)) body tenant rows = elim (Bool-cases body.stream) [
    | inl streams ↦ rw streams (stream-bills prices service tenant.tenant_id prepared rows).0
    | inr whole ↦ rw whole (
        completed-bills tenant.tenant_id _ rows
          (complete-bills prices service tenant.tenant_id digit_value prepared rows))
  ]

  -- Whatever comes of a request for an answer, streamed or not, with context or without, the usage rows
  -- that it adds are those that its answer reports, in the name of the tenant, and an error adds none.
  pub answer_route-bills :
      (body : AnswerRequest) (tenant : TokenClaims) (db : Db V) (rows : List (UsageRecord D))
      → let r = answer_route floats engine prices digit_value service body tenant db rows in
        r.1 ≡ rows ++ answer_bills tenant.tenant_id r.0
  unfolding answer_route
  answer_route-bills body tenant db rows = prepared-bills _ body tenant rows
