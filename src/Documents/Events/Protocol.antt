-- ===== src/Documents/Events/Protocol.antt =====
-- The stream of a document's status from its first poll to its end.
use rag_knowledge_platform_f.Prelude.{
  ℕ, zero, suc, ◌+◌, ◌*◌, ◌≤◌, ◌<◌, Bool, true, false, Option, none, some, List, [], ◌∷◌, ◌≡◌, refl,
  ap, subst, inl, inr, ltb, ltb→le, ◌==◌, Bool-cases, arith,
}
use rag_knowledge_platform_f.Database.{Status, Document}
use rag_knowledge_platform_f.Worker.Attempt.{is_terminal}
use rag_knowledge_platform_f.Documents.Events.{
  StatusEvent, same_status, is_last, news, map_events, after_status, on_row, status_of, stream_from,
  event_stream,
}

-- A stream after the status event `last`, if there was one: no status is reported twice in a row; the
-- stream closes with `error`, with `done` for the status last reported, which is a terminal one, with
-- `timeout` for the status last reported, which is none, or because the client has left; and nothing
-- stands after the close.
abbrev pub IsStream : Option Status → List StatusEvent → Type 0
IsStream last [] = Unit
IsStream last (StatusEvent.error ∷ events) = events ≡ []
IsStream last (StatusEvent.status s n m ∷ events) =
    (is_last s last ≡ false) × IsStream (some s) events
IsStream last (StatusEvent.done s ∷ events) =
    (is_last s last ≡ true) × (is_terminal s ≡ true) × (events ≡ [])
IsStream last (StatusEvent.timeout s n ∷ events) =
    (is_last s last ≡ true) × (is_terminal s ≡ false) × (events ≡ [])

-- The loop has returned, and its events are a stream.
abbrev pub Ends : Option Status → Option (List StatusEvent) → Type 0
Ends last o = (events : List StatusEvent) × (o ≡ some events) × IsStream last events

same_status_refl : (s : Status) → same_status s s ≡ true
unfolding same_status
same_status_refl Status.pending = refl
same_status_refl Status.processing = refl
same_status_refl Status.completed = refl
same_status_refl Status.failed = refl

same_status_eq : (s t : Status) → same_status s t ≡ true → s ≡ t
unfolding same_status
same_status_eq Status.pending Status.pending h = refl
same_status_eq Status.processing Status.processing h = refl
same_status_eq Status.completed Status.completed h = refl
same_status_eq Status.failed Status.failed h = refl
same_status_eq Status.pending Status.processing h = cc
same_status_eq s t h = cc

is_last_eq : (s : Status) (last : Option Status) → is_last s last ≡ true → some s ≡ last
unfolding is_last
is_last_eq s none h = cc
is_last_eq s (some t) h = ap some (same_status_eq s t h)

module _ (row : ℕ → Option Document) (time : ℕ → ℕ) (left : ℕ → Bool) (tenant_id deadline : ℕ) where
  after-Ends :
      (k : ℕ) (d : Document) (more : Option (List StatusEvent))
      → (ltb deadline (time k) ≡ false → Ends (some d.status) more)
      → Ends (some d.status) (after_status row time left tenant_id deadline k d more)
  unfolding after_status is_last
  after-Ends k d more h = elim (Bool-cases (is_terminal d.status)) [
    | inl settled ↦
        rw settled
          (StatusEvent.done d.status ∷ [], refl, (same_status_refl d.status, settled, refl))
    | inr open_still ↦ rw open_still (elim (Bool-cases (ltb deadline (time k))) [
      | inl late ↦
          rw late (
            StatusEvent.timeout d.status 2 ∷ [],
            refl,
            (same_status_refl d.status, open_still, refl),
          )
      | inr early ↦ rw early (elim (Bool-cases (left k)) [
        | inl gone ↦ rw gone ([], refl, tt)
        | inr here ↦ rw here (h early)
      ])
    ])
  ]

  news-Ends :
      (d : Document) (last : Option Status) (o : Option (List StatusEvent))
      → Ends (some d.status) o
      → Ends last (map_events (news d last) o)
  unfolding news
  news-Ends d last o (events, e, stream) = elim (Bool-cases (is_last d.status last)) [
    | inl old ↦ rw e (
        rw old (events, refl, subst (λ l. IsStream l events) (is_last_eq d.status last old) stream))
    | inr new ↦ rw e (
        rw new
          (StatusEvent.status d.status d.chunk_count d.error_message ∷ events, refl, (new, stream)))
  ]

  on_row-Ends :
      (k : ℕ) (last : Option Status) (o : Option Document) (more : Option (List StatusEvent))
      → (ltb deadline (time k) ≡ false → Ends (status_of row time left tenant_id deadline o) more)
      → Ends last (on_row row time left tenant_id deadline k last o more)
  unfolding on_row status_of
  on_row-Ends k last none more h = (StatusEvent.error ∷ [], refl, refl)
  on_row-Ends k last (some d) more h = elim (Bool-cases (d.tenant_id == tenant_id)) [
    | inl own ↦ rw own (news-Ends d last _ (after-Ends k d more h))
    | inr other ↦ rw other (StatusEvent.error ∷ [], refl, refl)
  ]

  -- Enough fuel for the time left takes the loop to its end.
  stream_from-Ends :
      (fuel k began : ℕ) (last : Option Status)
      → ((j : ℕ) → began + 2000 * j ≤ time j)
      → deadline + 2000 < began + 2000 * (k + fuel)
      → 0 < fuel
      → Ends last (stream_from row time left tenant_id deadline fuel k last)
  unfolding stream_from
  stream_from-Ends zero k began last grows enough pos = absurd (omega arith)
  stream_from-Ends (suc zero) k began last grows enough pos =
      on_row-Ends k last (row k) _
        (λ early. absurd (omega (arith, ltb→le deadline (time k) early, grows k, enough)))
  stream_from-Ends (suc (suc fuel)) k began last grows enough pos =
      on_row-Ends k last (row k) _ (λ early.
        stream_from-Ends (suc fuel) (k + 1) began _ grows (omega (arith, enough)) (omega arith))

-- If a sleep of the loop takes two seconds or more, the stream of a document ends after 152 polls at
-- the most, whatever is stored and whenever the client leaves, and it is a stream as `IsStream` says.
pub event_stream-Ends :
    (row : ℕ → Option Document) (time : ℕ → ℕ) (left : ℕ → Bool) (tenant_id began : ℕ)
    → ((j : ℕ) → began + 2000 * j ≤ time j)
    → Ends none (event_stream row time left tenant_id began 152)
unfolding event_stream
event_stream-Ends row time left tenant_id began grows =
    stream_from-Ends row time left tenant_id (began + 300000) 152 0 began none grows (omega arith)
      (omega arith)
