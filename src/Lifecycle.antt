-- ===== src/Lifecycle.antt =====
-- The life of the database: what the routes of documents, the worker and the command line do to it.
pub mod Integrity
pub mod Fits
pub mod Processing
pub mod Registering
use rag_knowledge_platform_f.Prelude.{ℕ, List}
use rag_knowledge_platform_f.Text.{Text}
use rag_knowledge_platform_f.Database.{SourceType, Db}
use rag_knowledge_platform_f.Ingestion.{Ports, IngestionService, register, process, mark_failed}
use rag_knowledge_platform_f.Security.{TokenClaims}
use rag_knowledge_platform_f.Documents.Owned.{delete_document}

-- A committed change: an upload that registers a document, a run of `process`, whatever parsing and
-- embedding do in it, a row that is marked as failed, and a request to delete a document. They come
-- in any order and with any arguments.
pub data Step {V : Type 0} : Db V → Db V → Type 1 where
  registers :
      (ports : Ports) (service : IngestionService V) (id created_at tenant_id : ℕ) (filename : Text)
      (raw : List ℕ) (source_type : SourceType) (db : Db V)
      → Step db (register ports service id created_at tenant_id filename raw source_type db).1
  processes :
      (ports : Ports) (service : IngestionService V) (id : ℕ) (db : Db V)
      → Step db (process ports service id db).1
  fails : (id : ℕ) (message : Text) (db : Db V) → Step db (mark_failed id message db)
  deletes :
      (uuid_str : ℕ → Text) (id : ℕ) (tenant : TokenClaims) (db : Db V)
      → Step db (delete_document uuid_str id tenant db).1

pub data Steps {V : Type 0} : Db V → Db V → Type 1 where
  none : (db : Db V) → Steps db db
  step : (db db' db'' : Db V) → Steps db db' → Step db' db'' → Steps db db''
