-- ===== src/Routes.antt =====
-- The routes of the data plane: api/routes/search.py and api/routes/answers.py with the requests and
-- responses of api/schemas.py, and the error handler of main.py.
pub mod Searching
pub mod Answers
use rag_knowledge_platform_f.Prelude.{
  ℕ, Bool, ◌&&◌, Option, none, some, List, [], ◌∷◌, ◌++◌, map, length, leb, ◌==◌, if◌then◌else◌,
}
use rag_knowledge_platform_f.Text.{Text, codes}
use rag_knowledge_platform_f.Errors.{
  Result, ok, err, RagError, Exc, status_code, detail, headers, ◌>>=◌,
}
use rag_knowledge_platform_f.Database.{Db}
use rag_knowledge_platform_f.Retrieval.Repository.{Floats, Engine}
use rag_knowledge_platform_f.Retrieval.{Mode, Scores, RetrievedChunk, RetrievalService, search}
use rag_knowledge_platform_f.Answering.Citations.{Citation, format_location}
use rag_knowledge_platform_f.Answering.{
  LlmUsage, Prices, UsageRecord, PreparedAnswer, AnswerResult, AnswerService, SseEvent, prepare,
  complete, stream,
}
use rag_knowledge_platform_f.Security.{TokenClaims}

-- `handle_app_error`: the status, the detail and the headers of its response.
pub record ErrorResponse : Type 0 where
  pub status : ℕ
  pub detail : Text
  pub headers : List (Text × Text)

pub handle_app_error : RagError → ErrorResponse
unfolding status_code headers
handle_app_error e = record {
  status = status_code e;
  detail = detail e;
  headers =
      if status_code e == 401
      then headers e ++ (codes "WWW-Authenticate", codes "Bearer") ∷ []
      else headers e;
}

-- `SearchRequest`, with the bounds of its fields.
pub record SearchRequest : Type 0 where
  pub query : Text
  pub mode : Mode
  pub top_n : ℕ

unfoldable pub is_valid_search : SearchRequest → Bool
is_valid_search body =
    leb 1 (length body.query)
    && (leb (length body.query) 2000 && (leb 1 body.top_n && leb body.top_n 50))

-- `SearchResultOut`.
pub record SearchResultOut (F : Type 0) : Type 0 where
  pub chunk_id : ℕ
  pub document_id : ℕ
  pub filename : Text
  pub chunk_index : ℕ
  pub content : Text
  pub location : Option Text
  pub scores : Scores F

abbrev pub search_result_out : {F : Type 0} → RetrievedChunk F → SearchResultOut F
search_result_out r = record {
  chunk_id = r.chunk_id;
  document_id = r.document_id;
  filename = r.filename;
  chunk_index = r.chunk_index;
  content = r.content;
  location = format_location r.meta;
  scores = r.scores;
}

module _ {V F : Type 0} (floats : Floats F) (engine : Engine V F) where
  -- The route `search`; it writes nothing.
  pub search_route :
      RetrievalService V F
      → SearchRequest
      → TokenClaims
      → Db V
      → Result (List (SearchResultOut F)) × Db V
  search_route service body tenant db = (
    search floats engine service tenant.tenant_id body.query body.mode (some body.top_n) db
        >>= (λ results. ok (map search_result_out results)),
    db,
  )

-- `AnswerRequest`, whose bounds are those of `SearchRequest` but for `top_n`, 20 at most.
pub record AnswerRequest : Type 0 where
  pub query : Text
  pub top_n : ℕ
  pub stream : Bool

-- `CitationOut` has the fields of `Citation`, and `UsageOut` those of `LLMUsage`.
pub record AnswerResponse (F : Type 0) : Type 0 where
  pub answer : Text
  pub citations : List Citation
  pub model : Option Text
  pub usage : Option LlmUsage
  pub cost_usd : Option F

-- What `answer` returns: a response, or the events of a stream with the exception that ends it.
pub data Answered (F : Type 0) : Type 0 where
  response : AnswerResponse F → Answered F
  streamed : List (SseEvent F) × Option Exc → Answered F

unfoldable pub no_context_answer : Text
no_context_answer =
    codes "I couldn't find anything in your documents relevant to this question, "
    ++ codes "so I can't give a grounded answer."

module _ {F : Type 0} where
  -- The response of a result, field by field.
  answer_response : AnswerResult F → AnswerResponse F
  answer_response result = record {
    answer = result.answer;
    citations = result.citations;
    model = result.model;
    usage = result.usage;
    cost_usd = result.cost_usd;
  }

  -- The answer without context; its stream has the events of a real one.
  no_context : (streams : Bool) → Answered F
  no_context streams =
      if streams
      then Answered.streamed (
        SseEvent.citations_event []
            ∷ SseEvent.delta_event no_context_answer
            ∷ SseEvent.null_done_event
            ∷ [],
        none,
      )
      else Answered.response (record {
        answer = no_context_answer;
        citations = [];
        model = none;
        usage = none;
        cost_usd = none;
      })

module _ {V F D : Type 0} (floats : Floats F) (engine : Engine V F) (prices : Prices F D)
    (digit_value : ℕ → Option ℕ) (service : AnswerService V F) where
  completed :
      Result (AnswerResult F) × List (UsageRecord D) → Result (Answered F) × List (UsageRecord D)
  completed (r, rows) = (r >>= (λ result. ok (Answered.response (answer_response result))), rows)

  streaming :
      (List (SseEvent F) × Option Exc) × List (UsageRecord D)
      → Result (Answered F) × List (UsageRecord D)
  streaming (events, rows) = (ok (Answered.streamed events), rows)

  -- `answer`, after `prepare`.
  pub answer_prepared :
      Result (Option PreparedAnswer)
      → AnswerRequest
      → TokenClaims
      → List (UsageRecord D)
      → Result (Answered F) × List (UsageRecord D)
  unfolding no_context completed streaming
  answer_prepared (err e) body tenant rows = (err e, rows)
  answer_prepared (ok none) body tenant rows = (ok (no_context body.stream), rows)
  answer_prepared (ok (some prepared)) body tenant rows =
      if body.stream
      then streaming (stream prices service prepared tenant.tenant_id rows)
      else completed (complete prices service digit_value prepared tenant.tenant_id rows)

  -- The route `answer`; it writes only usage rows.
  pub answer_route :
      AnswerRequest
      → TokenClaims
      → Db V
      → List (UsageRecord D)
      → Result (Answered F) × List (UsageRecord D)
  answer_route body tenant db rows =
      answer_prepared (prepare floats engine service tenant.tenant_id body.query body.top_n db) body
        tenant rows
