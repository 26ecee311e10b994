-- ===== src/Worker/Attempt.antt =====
-- One delivery of the task: it ends with its row in a terminal state, or asks for a retry.
use rag_knowledge_platform_f.Prelude.{
  ℕ, ◌*◌, ◌^◌, ◌<◌, Bool, true, false, some, List, ◌≡◌, refl, ap, inl, inr, leb, Bool-cases, leb→lt,
  ◌≢◌, length,
}
use rag_knowledge_platform_f.Errors.{Exc, Result, ok, err, rag, not_found, parse_error}
use rag_knowledge_platform_f.Text.{Text}
use rag_knowledge_platform_f.Chunking.Packing.{ChunkDraft}
use rag_knowledge_platform_f.Database.{Status, Document, Db, find_document, is_completed}
use rag_knowledge_platform_f.Ingestion.{
  Ports, IngestionService, build_rows, fail, complete, begin_processing,
}
use rag_knowledge_platform_f.Ingestion.Process.{
  Settles, after_error, process-Settles, mark_failed_lem,
}
use rag_knowledge_platform_f.Ingestion.Redelivery.{process_completed}
use rag_knowledge_platform_f.Worker.{
  RetryPolicy, Delivery, finished, retry, exhausted_message, handle_outcome, ingest_document,
}

-- `_TERMINAL` of api/routes/documents.py.
abbrev pub is_terminal : Status → Bool
is_terminal Status.completed = true
is_terminal Status.failed = true
is_terminal _ = false

completed-terminal : (status : Status) → is_completed status ≡ true → is_terminal status ≡ true
completed-terminal Status.completed h = refl
completed-terminal Status.pending h = cc
completed-terminal Status.processing h = cc
completed-terminal Status.failed h = cc

module _ {V : Type 0} where
  -- The row is stored, with the payload of the upload.
  abbrev pub Holds : ℕ → List ℕ → Db V → Type 0
  Holds id raw db =
      (d : Document) × (find_document id db.documents ≡ some d) × (d.raw_content ≡ some raw)

  abbrev pub IsTerminal : ℕ → Db V → Type 0
  IsTerminal id db =
      (d : Document) × (find_document id db.documents ≡ some d) × (is_terminal d.status ≡ true)

  -- What one delivery does to the row: it ends with the row in a terminal state, or asks for a
  -- retry below the limit, and the row is there for it.
  abbrev pub Progresses : RetryPolicy → ℕ → ℕ → List ℕ → Delivery × Db V → Type 0
  Progresses policy retries id raw (finished, db) = IsTerminal id db
  Progresses policy retries id raw (retry countdown, db) =
      (retries < policy.worker_max_retries)
      × (countdown ≡ policy.worker_retry_backoff_seconds * 2 ^ retries)
      × Holds id raw db

  -- The steps of `process` are not expected to raise `NotFoundError`.
  settled_err :
      (policy : RetryPolicy) (retries : ℕ) (d : Document) (raw : List ℕ) (e : Exc) (db : Db V)
      → d.raw_content ≡ some raw
      → ((message : Text) → e ≢ rag (not_found message))
      → find_document d.id db.documents ≡ some (after_error e d)
      → Progresses policy retries d.id raw (handle_outcome policy retries d.id (err e, db))
  unfolding handle_outcome
  settled_err policy retries d raw (rag (parse_error message)) db payload known h =
      (fail message d, h, refl)
  settled_err policy retries d raw (rag (not_found message)) db payload known h =
      absurd (known message refl)
  settled_err policy retries d raw e db payload known h =
      elim (Bool-cases (leb policy.worker_max_retries retries)) [
        | inl out ↦ rw out (
          fail (exhausted_message policy) (begin_processing d),
          (mark_failed_lem d.id (begin_processing d) (exhausted_message policy) db h).0,
          refl,
        )
        | inr left ↦ rw left (leb→lt _ _ left, refl, (begin_processing d, h, payload))
      ]

  settled :
      (policy : RetryPolicy) (retries : ℕ) (d : Document) (raw : List ℕ) (db : Db V)
      (built : Result (List (ChunkDraft × V))) (r : Result Document × Db V)
      → d.raw_content ≡ some raw
      → ((message : Text) → built ≢ err (rag (not_found message)))
      → Settles db d built r
      → Progresses policy retries d.id raw (handle_outcome policy retries d.id r)
  settled policy retries d raw db (ok rows) (ok d', db') payload known h =
      unfold handle_outcome in (complete (length rows) d, h.1, refl)
  settled policy retries d raw db (ok rows) (err e, db') payload known h = cc h.0
  settled policy retries d raw db (err e) (ok d', db') payload known h = cc h.0
  settled policy retries d raw db (err e) (err e', db') payload known h =
      let same : e' ≡ e = cc h.0 in
      rw same (settled_err policy retries d raw e db' payload (λ m eq. known m (ap err eq)) h.1)

  -- Every delivery for a stored upload makes progress, whatever the embedder does at it.
  pub ingest_document-Progresses :
      (ports : Ports) (service : IngestionService V) (policy : RetryPolicy) (retries : ℕ)
      (d : Document) (raw : List ℕ) (db : Db V)
      → find_document d.id db.documents ≡ some d
      → d.raw_content ≡ some raw
      → ((message : Text)
          → build_rows ports service raw d.source_type ≢ err (rag (not_found message)))
      → Progresses policy retries d.id raw (ingest_document ports service policy retries d.id db)
  unfolding ingest_document
  ingest_document-Progresses ports service policy retries d raw db found payload known =
      elim (Bool-cases (is_completed d.status)) [
        | inl done ↦
            let skipped = process_completed ports service d db found done in
            rw skipped (unfold handle_outcome in (d, found, completed-terminal d.status done))
        | inr todo ↦
            settled policy retries d raw db (build_rows ports service raw d.source_type) _ payload
              known (process-Settles ports service db d raw found todo payload)
      ]
