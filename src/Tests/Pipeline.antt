-- ===== src/Tests/Pipeline.antt =====
-- Ingestion and its task, at a small database. An embedding is a number here.
use rag_knowledge_platform_f.Prelude.{
  ℕ, zero, suc, ◌+◌, ◌≤◌, none, some, List, [], ◌∷◌, ◌≡◌, refl, map, length, arith,
}
use rag_knowledge_platform_f.Text.{Text, codes}
use rag_knowledge_platform_f.Text.Decimal.{decimal}
use rag_knowledge_platform_f.Errors.{ok, err, foreign}
use rag_knowledge_platform_f.Database.{SourceType, Status, Document, Db, find_document, chunks_of}
use rag_knowledge_platform_f.Ingestion.{Ports, IngestionService, process, register}
use rag_knowledge_platform_f.Ingestion.Redelivery.{process_others, process_idempotent}
use rag_knowledge_platform_f.Ingestion.Raises.{NeverNotFound}
use rag_knowledge_platform_f.Ingestion.Register.{IsKeyed, IsStored, bytes_held, register-IsStored}
use rag_knowledge_platform_f.Worker.{RetryPolicy, deliver}
use rag_knowledge_platform_f.Worker.Attempt.{IsTerminal}
use rag_knowledge_platform_f.Worker.Terminal.{backoffs, ingest_document_terminates}

abbrev pub ports : Ports
ports = record {
  uuid_str = decimal;
  sha256 = λ raw. raw;
  parse_document = λ raw source_type.
      ok (record { text = raw; meta = record { page = none; headings = none } } ∷ []);
}

abbrev pub service : IngestionService ℕ
service = record {
  embed_documents = λ texts. ok (map length texts);
  target = 6;
  overlap = 3;
  batch_size = 2;
  max_tenant_storage = 100;
}

-- The embedder is down at the first two deliveries.
abbrev services : ℕ → IngestionService ℕ
services zero = record service { embed_documents = λ texts. err (foreign 1) }
services (suc zero) = record service { embed_documents = λ texts. err (foreign 2) }
services (suc (suc k)) = service

abbrev pub raw : List ℕ
raw = codes "One two. Three four! Five six seven."

abbrev document : Document
document = record {
  id = 7;
  tenant_id = 1;
  filename = codes "a.md";
  source_type = SourceType.markdown;
  content_sha256 = raw;
  size_bytes = 36;
  status = Status.pending;
  raw_content = some raw;
  error_message = none;
  chunk_count = none;
  created_at = 0;
}

abbrev pub db : Db ℕ
db = record {
  tenants = record { id = 1; name = codes "Acme"; slug = codes "acme" } ∷ [];
  documents = document ∷ [];
  chunks = [];
  next_chunk_id = 1;
}

process_others_example :
    (chunks_of 8 (process ports service 7 db).1.chunks ≡ [])
    × (find_document 8 (process ports service 7 db).1.documents ≡ none)
unfolding chunks_of find_document
process_others_example = process_others ports service 7 8 db (omega arith)

-- A COMPLETED row, for which the first run returns too.
abbrev stored : Document
stored = record document { status = Status.completed; chunk_count = some 0 }

abbrev db_done : Db ℕ
db_done = record db { documents = stored ∷ [] }

returns_stored : (process ports service 7 db_done).0 ≡ ok stored
unfolding process find_document
returns_stored = refl

process_idempotent_example :
    process ports (services 0) 7 (process ports service 7 db_done).1
    ≡ (ok stored, (process ports service 7 db_done).1)
process_idempotent_example =
    process_idempotent ports service (services 0) 7 stored db_done returns_stored

document-IsStored : IsKeyed (document ∷ []) × ((t : ℕ) → bytes_held t (document ∷ []) ≤ 100)
document-IsStored = ((tt, tt), λ t. ground arith)

-- Another upload of 3 bytes, where the quota of 100 leaves 64.
register-IsStored_example :
    IsStored ports service 8 5 1
      (codes "b.md")
      (codes "abc")
      SourceType.markdown
      db
      (register ports service 8 5 1 (codes "b.md") (codes "abc") SourceType.markdown db).1.documents
register-IsStored_example =
    register-IsStored ports service 8 5 1 (codes "b.md") (codes "abc") SourceType.markdown db
      document-IsStored

abbrev policy : RetryPolicy
policy = record { worker_max_retries = 3; worker_retry_backoff_seconds = 10 }

services-NeverNotFound :
    (k : ℕ) (texts : List Text) → NeverNotFound ((services k).embed_documents texts)
services-NeverNotFound zero texts = λ m e. cc e
services-NeverNotFound (suc zero) texts = λ m e. cc e
services-NeverNotFound (suc (suc k)) texts = tt

ingest_document_terminates_example :
    (n : ℕ) × (db' : Db ℕ) × (0 + n ≤ 3)
    × (deliver 4 ports services policy 7 0 db ≡ some (backoffs 10 0 n, db'))
    × IsTerminal 7 db'
unfolding find_document
ingest_document_terminates_example =
    ingest_document_terminates ports services policy (λ r t. tt) services-NeverNotFound 7 raw db
      (document, refl, refl)
