-- ===== src/Documents/Events.antt =====
-- `document_events` of api/routes/documents.py: the stream of the status of a document. Poll `k` reads
-- the row `row k` at the time `time k`, in milliseconds; the client may have left by then.
pub mod Protocol
use rag_knowledge_platform_f.Prelude.{
  ℕ, zero, suc, ◌+◌, Bool, true, false, not, Option, none, some, List, [], ◌∷◌, ltb, ◌==◌,
  if◌then◌else◌,
}
use rag_knowledge_platform_f.Text.{Text}
use rag_knowledge_platform_f.Errors.{Result, ok, ◌>>=◌}
use rag_knowledge_platform_f.Database.{Status, Document, Db}
use rag_knowledge_platform_f.Security.{TokenClaims}
use rag_knowledge_platform_f.Documents.Owned.{get_owned}
use rag_knowledge_platform_f.Worker.Attempt.{is_terminal}

-- The events that the stream yields.
pub data StatusEvent : Type 0 where
  error : StatusEvent
  status : Status → (chunk_count : Option ℕ) → (error_message : Option Text) → StatusEvent
  done : Status → StatusEvent
  timeout : Status → (poll_after : ℕ) → StatusEvent

unfoldable pub same_status : Status → Status → Bool
same_status Status.pending Status.pending = true
same_status Status.processing Status.processing = true
same_status Status.completed Status.completed = true
same_status Status.failed Status.failed = true
same_status s t = false

unfoldable pub is_last : Status → Option Status → Bool
is_last s none = false
is_last s (some t) = same_status s t

-- The `status` event of a row, if its status is new.
pub news : Document → Option Status → List StatusEvent → List StatusEvent
news d last events =
    if is_last d.status last
    then events
    else StatusEvent.status d.status d.chunk_count d.error_message ∷ events

abbrev pub map_events :
    (List StatusEvent → List StatusEvent) → Option (List StatusEvent) → Option (List StatusEvent)
map_events f none = none
map_events f (some events) = some (f events)

module _ (row : ℕ → Option Document) (time : ℕ → ℕ) (left : ℕ → Bool) (tenant_id deadline : ℕ) where
  -- What follows the `status` event of poll `k`; `more` is the rest of the loop.
  after_status : ℕ → Document → Option (List StatusEvent) → Option (List StatusEvent)
  after_status k d more =
      if is_terminal d.status
      then some (StatusEvent.done d.status ∷ [])
      else if ltb deadline (time k)
      then some (StatusEvent.timeout d.status 2 ∷ [])
      else if left k
      then some []
      else more

  on_row :
      ℕ → Option Status → Option Document → Option (List StatusEvent) → Option (List StatusEvent)
  unfolding after_status
  on_row k last none more = some (StatusEvent.error ∷ [])
  on_row k last (some d) more =
      if not (d.tenant_id == tenant_id)
      then some (StatusEvent.error ∷ [])
      else map_events (news d last) (after_status k d more)

  status_of : Option Document → Option Status
  status_of none = none
  status_of (some d) = some d.status

  -- The `while` loop from poll `k` on, whose events are `none` if the fuel runs out.
  pub stream_from : (fuel k : ℕ) → Option Status → Option (List StatusEvent)
  unfolding on_row status_of
  stream_from zero k last = none
  stream_from (suc fuel) k last =
      on_row k last (row k) (stream_from fuel (k + 1) (status_of (row k)))

-- The stream, which gives up 300 seconds after it began.
pub event_stream :
    (row : ℕ → Option Document)
    → (time : ℕ → ℕ) → (left : ℕ → Bool) → (tenant_id began fuel : ℕ) → Option (List StatusEvent)
event_stream row time left tenant_id began fuel =
    stream_from row time left tenant_id (began + 300000) fuel 0 none

-- `document_events`: the stream of a document that the tenant owns when it asks.
pub document_events :
    {V : Type 0}
    → (uuid_str : ℕ → Text) → (document_id : ℕ) → TokenClaims
    → Db V
    → (row : ℕ → Option Document) → (time : ℕ → ℕ) → (left : ℕ → Bool) → (began fuel : ℕ)
    → Result (Option (List StatusEvent))
document_events uuid_str document_id tenant db row time left began fuel =
    get_owned uuid_str document_id tenant db
    >>= (λ d. ok (event_stream row time left tenant.tenant_id began fuel))
