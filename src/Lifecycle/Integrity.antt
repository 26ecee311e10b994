-- ===== src/Lifecycle/Integrity.antt =====
-- Documents and their chunks along the steps of a database.
use rag_knowledge_platform_f.Prelude.{ℕ, ◌+◌, ◌≡◌, refl, arith}
use rag_knowledge_platform_f.Errors.{Result, ok, err}
use rag_knowledge_platform_f.Database.{Db, find_document, chunks_of}
use rag_knowledge_platform_f.Ingestion.{mark_failed, process, register}
use rag_knowledge_platform_f.Ingestion.Redelivery.{process_others}
use rag_knowledge_platform_f.Ingestion.Register.{register-Registered}
use rag_knowledge_platform_f.Security.{TokenClaims}
use rag_knowledge_platform_f.Documents.Owned.{delete_document}
use rag_knowledge_platform_f.Documents.Owned.Deleting.{Deletes, delete_document-Deletes}
use rag_knowledge_platform_f.Lifecycle.{Step, Steps}
use rag_knowledge_platform_f.Lifecycle.Fits.{FitsAt, at_one}
use rag_knowledge_platform_f.Lifecycle.Processing.{processed_self, failed_self, failed_others}
use rag_knowledge_platform_f.Lifecycle.Registering.{registered}

module _ {V : Type 0} where
  deleted_self :
      (id : ℕ) (tenant : TokenClaims) (db : Db V) (r : Result (Unit {0}) × Db V)
      → Deletes id (id + 1) tenant db r
      → FitsAt id db
      → FitsAt id r.1
  deleted_self id tenant db (ok tt, db') (_, gone, empty, _, _) h = rw (gone, empty) refl
  deleted_self id tenant db (err e, db') (_, same) h = rw same h

  deleted_others :
      (id j : ℕ) (tenant : TokenClaims) (db : Db V) (r : Result (Unit {0}) × Db V)
      → Deletes id j tenant db r
      → (chunks_of j r.1.chunks ≡ chunks_of j db.chunks)
        × (find_document j r.1.documents ≡ find_document j db.documents)
  deleted_others id j tenant db (ok tt, db') (_, _, _, row, chunks) = (chunks, row)
  deleted_others id j tenant db (err e, db') (_, same) = rw same (refl, refl)

  Step-FitsAt : (j : ℕ) (db db' : Db V) → Step db db' → FitsAt j db → FitsAt j db'
  Step-FitsAt j _ _
        (Step.registers ports service id created_at tenant_id filename raw source_type db) h =
      registered ports service id created_at tenant_id filename raw source_type j db
        (register ports service id created_at tenant_id filename raw source_type db)
        (register-Registered ports service id created_at tenant_id filename raw source_type db) h
  Step-FitsAt j _ _ (Step.processes ports service id db) h =
      at_one id j db (process ports service id db).1 (processed_self ports service id db)
        (process_others ports service id j db) h
  Step-FitsAt j _ _ (Step.fails id message db) h =
      at_one id j db (mark_failed id message db) (failed_self id message db)
        (failed_others id j message db) h
  Step-FitsAt j _ _ (Step.deletes uuid_str id tenant db) h =
      at_one id j db (delete_document uuid_str id tenant db).1
        (deleted_self id tenant db (delete_document uuid_str id tenant db)
          (delete_document-Deletes id (id + 1) tenant db uuid_str (λ e. absurd (omega (arith, e)))))
        (λ ne.
          deleted_others id j tenant db (delete_document uuid_str id tenant db)
            (delete_document-Deletes id j tenant db uuid_str ne))
        h

  -- Whatever uploads, runs of `process`, failures and deletions follow one another, in every database
  -- that they lead to, the chunks of a document belong to a stored row and to its tenant, and a
  -- COMPLETED row counts its chunks, which are numbered from 0, if all this holds at first.
  pub Steps-FitsAt : (j : ℕ) (db db' : Db V) → Steps db db' → FitsAt j db → FitsAt j db'
  Steps-FitsAt j _ _ (Steps.none db) h = h
  Steps-FitsAt j _ _ (Steps.step db before db' steps last) h =
      Step-FitsAt j before db' last (Steps-FitsAt j db before steps h)
