-- ===== src/Worker.antt =====
-- worker/tasks.py: the ingestion task and its retries. `_process` and `_mark_failed` only open a
-- session for the methods of the service. A retry is a new delivery of the task with its counter
-- raised by one, which is what `Task.retry` of Celery does below `max_retries`.
pub mod Attempt
pub mod Terminal
use rag_knowledge_platform_f.Prelude.{
  ℕ, zero, suc, ◌+◌, ◌*◌, ◌^◌, Option, none, some, List, [], ◌∷◌, ◌++◌, leb, if◌then◌else◌,
}
use rag_knowledge_platform_f.Text.{Text, codes}
use rag_knowledge_platform_f.Text.Decimal.{decimal}
use rag_knowledge_platform_f.Errors.{Exc, Result, ok, err, rag, not_found, parse_error}
use rag_knowledge_platform_f.Database.{Document, Db}
use rag_knowledge_platform_f.Ingestion.{Ports, IngestionService, process, mark_failed}

-- The settings that the task reads.
pub record RetryPolicy : Type 0 where
  pub worker_max_retries : ℕ
  pub worker_retry_backoff_seconds : ℕ

-- How a delivery of the task ends: for good, or with a retry after some seconds.
pub data Delivery : Type 0 where
  finished : Delivery
  retry : (countdown : ℕ) → Delivery

pub exhausted_message : RetryPolicy → Text
exhausted_message policy =
    codes "ingestion failed after " ++ (decimal policy.worker_max_retries ++ codes " retries")

module _ {V : Type 0} where
  -- The `except` clauses of `ingest_document`, on what `_process` did.
  pub handle_outcome : RetryPolicy → ℕ → ℕ → Result Document × Db V → Delivery × Db V
  handle_outcome policy retries id (ok document, db) = (finished, db)
  handle_outcome policy retries id (err (rag (parse_error message)), db) = (finished, db)
  handle_outcome policy retries id (err (rag (not_found message)), db) = (finished, db)
  handle_outcome policy retries id (err e, db) =
      if leb policy.worker_max_retries retries
      then (finished, mark_failed id (exhausted_message policy) db)
      else (retry (policy.worker_retry_backoff_seconds * 2 ^ retries), db)

  -- One delivery of the task, `retries` being `self.request.retries`.
  unfoldable pub ingest_document :
      Ports → IngestionService V → RetryPolicy → ℕ → ℕ → Db V → Delivery × Db V
  unfolding handle_outcome
  ingest_document ports service policy retries id db =
      handle_outcome policy retries id (process ports service id db)

  -- A task with its retries: the countdowns that it waited for, and the database at its end. The
  -- embedder may behave otherwise at each delivery, so there is a service for each. Without fuel
  -- for another delivery there is no result.
  after_delivery :
      (ℕ → Db V → Option (List ℕ × Db V)) → ℕ → Delivery × Db V → Option (List ℕ × Db V)
  after_delivery again retries (finished, db) = some ([], db)
  after_delivery again retries (retry countdown, db) = elim (again (retries + 1) db) [
    | none ↦ none
    | some (countdowns, db') ↦ some (countdown ∷ countdowns, db')
  ]

  unfoldable pub deliver :
      ℕ → Ports → (ℕ → IngestionService V) → RetryPolicy → ℕ → ℕ → Db V → Option (List ℕ × Db V)
  unfolding after_delivery
  deliver zero ports services policy id retries db = none
  deliver (suc fuel) ports services policy id retries db =
      after_delivery (deliver fuel ports services policy id) retries
        (ingest_document ports (services retries) policy retries id db)
