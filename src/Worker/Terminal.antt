-- ===== src/Worker/Terminal.antt =====
-- A task ends, and leaves its document in a terminal state.
use rag_knowledge_platform_f.Prelude.{
  ℕ, zero, suc, ◌+◌, ◌*◌, ◌^◌, ◌≤◌, ◌<◌, Option, some, List, [], ◌∷◌, ◌≡◌, refl, arith, subst, sym,
}
use rag_knowledge_platform_f.Text.{Text}
use rag_knowledge_platform_f.Database.{SourceType, Db, find_document}
use rag_knowledge_platform_f.Database.Queries.{find_document-id}
use rag_knowledge_platform_f.Ingestion.{Ports, IngestionService}
use rag_knowledge_platform_f.Ingestion.Raises.{
  NeverNotFound, NeverNotFound-ne, build_rows-NeverNotFound,
}
use rag_knowledge_platform_f.Worker.{
  RetryPolicy, Delivery, finished, retry, ingest_document, after_delivery, deliver,
}
use rag_knowledge_platform_f.Worker.Attempt.{
  Holds, IsTerminal, Progresses, ingest_document-Progresses,
}

-- The seconds that a task waits from its counter `retries` on, if it retries `n` times.
abbrev pub backoffs : ℕ → ℕ → ℕ → List ℕ
backoffs base retries zero = []
backoffs base retries (suc n) = base * 2 ^ retries ∷ backoffs base (retries + 1) n

module _ {V : Type 0} where
  module _ (ports : Ports) (services : ℕ → IngestionService V) (policy : RetryPolicy)
      (parser : (raw : List ℕ) (source_type : SourceType)
        → NeverNotFound (ports.parse_document raw source_type))
      (embedder : (k : ℕ) (texts : List Text)
        → NeverNotFound ((services k).embed_documents texts)) where
    progresses :
        (retries id : ℕ) (raw : List ℕ) (db : Db V)
        → Holds id raw db
        → Progresses policy retries id raw
            (ingest_document ports (services retries) policy retries id db)
    progresses retries id raw db (d, found, payload) =
        let key = find_document-id id db.documents d found in
        subst
          (λ (i : ℕ).
            Progresses policy retries i raw
              (ingest_document ports (services retries) policy retries i db))
          key
          (ingest_document-Progresses ports (services retries) policy retries d raw db
            (subst (λ (i : ℕ). find_document i db.documents ≡ some d) (sym key) found) payload
            (NeverNotFound-ne _ (
              build_rows-NeverNotFound ports (services retries) parser (embedder retries) raw
                d.source_type)))

    -- The end of a task from its counter `retries` on.
    abbrev pub Ends : ℕ → ℕ → Option (List ℕ × Db V) → Type 0
    Ends retries id outcome =
        (n : ℕ) × (db' : Db V) × (retries + n ≤ policy.worker_max_retries)
        × (outcome ≡ some (backoffs policy.worker_retry_backoff_seconds retries n, db'))
        × IsTerminal id db'

    after_delivery-Ends :
        (again : ℕ → Db V → Option (List ℕ × Db V)) (retries id : ℕ) (raw : List ℕ)
        (r : Delivery × Db V)
        → retries ≤ policy.worker_max_retries
        → Progresses policy retries id raw r
        → ((db : Db V)
            → retries < policy.worker_max_retries
            → Holds id raw db
            → Ends (retries + 1) id (again (retries + 1) db))
        → Ends retries id (after_delivery again retries r)
    unfolding after_delivery
    after_delivery-Ends again retries id raw (finished, db) le h ih = (0, db, omega arith, refl, h)
    after_delivery-Ends again retries id raw (retry countdown, db) le h ih =
        let (n, db', bound, runs, terminal) = ih db h.0 h.2 in
        (suc n, db', omega arith, rw (runs, after_delivery) (rw (h.1) refl), terminal)

    deliver-Ends :
        (fuel retries id : ℕ) (raw : List ℕ) (db : Db V)
        → policy.worker_max_retries < fuel + retries
        → retries ≤ policy.worker_max_retries
        → Holds id raw db
        → Ends retries id (deliver fuel ports services policy id retries db)
    unfolding deliver
    deliver-Ends zero retries id raw db enough le h = absurd (omega arith)
    deliver-Ends (suc fuel) retries id raw db enough le h =
        after_delivery-Ends (deliver fuel ports services policy id) retries id raw _ le
          (progresses retries id raw db h)
          (λ db' lt h'. deliver-Ends fuel (retries + 1) id raw db' (omega arith) (omega arith) h')

    -- An upload that is stored with its payload reaches a terminal state: whatever the embedder does
    -- at each delivery, the task ends after at most `worker_max_retries` retries, its waits are the
    -- backoff doubled from one to the next, and the row is then COMPLETED or FAILED. Assumed: neither
    -- the parser nor the embedder raises `NotFoundError`, which the task takes for a deleted row.
    pub ingest_document_terminates :
        (id : ℕ) (raw : List ℕ) (db : Db V)
        → Holds id raw db
        → Ends 0 id (deliver (policy.worker_max_retries + 1) ports services policy id 0 db)
    ingest_document_terminates id raw db h =
        deliver-Ends (policy.worker_max_retries + 1) 0 id raw db (omega arith) (omega arith) h
