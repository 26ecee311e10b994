-- ===== src/Tests/Lives.antt =====
-- The life of a database with one tenant: an upload, a run of `process`, a late failure, a deletion.
use rag_knowledge_platform_f.Prelude.{ℕ}
use rag_knowledge_platform_f.Text.{codes}
use rag_knowledge_platform_f.Database.{SourceType, Db, find_document, chunks_of}
use rag_knowledge_platform_f.Ingestion.{register, process, mark_failed}
use rag_knowledge_platform_f.Documents.Owned.{delete_document}
use rag_knowledge_platform_f.Lifecycle.{Step, Steps}
use rag_knowledge_platform_f.Lifecycle.Fits.{FitsAt}
use rag_knowledge_platform_f.Lifecycle.Integrity.{Steps-FitsAt}
use rag_knowledge_platform_f.Tests.Pipeline.{ports, service, db}
use rag_knowledge_platform_f.Tests.Requests.{tenant}

-- The row 7 is pending, and the row 8 comes.
abbrev uploaded : Db ℕ
uploaded = (register ports service 8 5 1 (codes "b.md") (codes "Eight.") SourceType.markdown db).1

abbrev processed : Db ℕ
processed = (process ports service 7 uploaded).1

abbrev failed : Db ℕ
failed = mark_failed 7 (codes "late") processed

abbrev deleted : Db ℕ
deleted = (delete_document ports.uuid_str 8 tenant failed).1

abbrev steps : Steps db deleted
steps =
    Steps.step db failed deleted
      (Steps.step db processed failed
        (Steps.step db uploaded processed
          (Steps.step db db uploaded (Steps.none db) (
            Step.registers ports service 8 5 1 (codes "b.md") (codes "Eight.") SourceType.markdown
              db))
          (Step.processes ports service 7 uploaded))
        (Step.fails 7 (codes "late") processed))
      (Step.deletes ports.uuid_str 8 tenant failed)

pending-FitsAt : FitsAt 7 db
unfolding find_document chunks_of
pending-FitsAt = (tt, tt)

Steps-FitsAt_example : FitsAt 7 deleted
Steps-FitsAt_example = Steps-FitsAt 7 db deleted steps pending-FitsAt
