-- ===== src/Ingestion.antt =====
-- services/ingestion.py. Each method takes the committed database, and returns what it returns or
-- raises beside the database that it leaves committed.
pub mod Process
pub mod Raises
pub mod Redelivery
pub mod Register
use rag_knowledge_platform_f.Prelude.{
  ℕ, ◌+◌, ◌<◌, Bool, true, false, ◌&&◌, ◌||◌, Option, none, some, List, [], ◌∷◌, ◌++◌, map, length,
  take, slices, ltb, ◌==◌, if◌then◌else◌,
}
use rag_knowledge_platform_f.Text.{Text, codes}
use rag_knowledge_platform_f.Errors.{
  Exc, RagError, Result, ok, err, rag, not_found, parse_error, duplicate_document,
  storage_quota_exceeded, value_error, ◌>>=◌,
}
use rag_knowledge_platform_f.Chunking.Sentences.{Block}
use rag_knowledge_platform_f.Chunking.Packing.{ChunkDraft, chunk_blocks}
use rag_knowledge_platform_f.Database.{
  SourceType, Status, Document, Chunk, Db, find_tenant, find_document, update_document,
  any_conflict, used_bytes, delete_chunks, is_completed,
}

-- What the service calls: `str(uuid)` and `hashlib.sha256(raw).hexdigest()` of Python, and
-- `parse_document` of ingestion/parsers.py.
pub record Ports : Type 0 where
  pub uuid_str : ℕ → Text
  pub sha256 : List ℕ → Text
  pub parse_document : List ℕ → SourceType → Result (List Block)

-- The fields of `IngestionService`, the embedder by its method. `V` is the type of embeddings.
pub record IngestionService (V : Type 0) : Type 0 where
  pub embed_documents : List Text → Result (List V)
  pub target : ℕ
  pub overlap : ℕ
  pub batch_size : ℕ
  pub max_tenant_storage : ℕ

-- `zip(xs, ys, strict=True)`.
unfoldable pub zip_strict : {A B : Type 0} → List A → List B → Result (List (A × B))
zip_strict [] [] = ok []
zip_strict [] (y ∷ ys) = err value_error
zip_strict (x ∷ xs) [] = err value_error
zip_strict (x ∷ xs) (y ∷ ys) = do rest ← zip_strict xs ys; ok ((x, y) ∷ rest)

abbrev pub complete : ℕ → Document → Document
complete count d = record d {
  status = Status.completed;
  chunk_count = some count;
  error_message = none;
}

abbrev pub begin_processing : Document → Document
begin_processing d = record d { status = Status.processing }

abbrev pub fail : Text → Document → Document
fail message d = record d { status = Status.failed; error_message = some (take 500 message) }

pub no_payload : Text
no_payload = codes "no stored payload for this document (uploaded pre-async-pipeline)"

-- The row that `register` adds: `id` and `created_at` are the defaults that the database fills in.
unfoldable pub new_document :
    Ports → (id created_at tenant_id : ℕ) → Text → List ℕ → SourceType → Document
new_document ports id created_at tenant_id filename raw source_type = record {
  id = id;
  tenant_id = tenant_id;
  filename = filename;
  source_type = source_type;
  content_sha256 = ports.sha256 raw;
  size_bytes = length raw;
  status = Status.pending;
  raw_content = some raw;
  error_message = none;
  chunk_count = none;
  created_at = created_at;
}

module _ {V : Type 0} where
  -- The loop of `_embed_all` over its batches.
  pub embed_batches : IngestionService V → List (List ChunkDraft) → Result (List V)
  embed_batches service [] = ok []
  embed_batches service (batch ∷ batches) = do
    embeddings ← service.embed_documents (map (λ d. d.text) batch)
    rest ← embed_batches service batches
    ok (embeddings ++ rest)

  -- `range` refuses a step of 0.
  pub embed_all : IngestionService V → List ChunkDraft → Result (List V)
  unfolding embed_batches
  embed_all service drafts =
      if service.batch_size == 0
      then err value_error
      else embed_batches service (slices (length drafts) service.batch_size drafts)

  pub parse_and_chunk : Ports → IngestionService V → List ℕ → SourceType → Result (List ChunkDraft)
  parse_and_chunk ports service raw source_type = do
    blocks ← ports.parse_document raw source_type
    chunk_blocks blocks service.target service.overlap

  -- The generator of rows in `process`, from `enumerate` at `index`; the database numbers the rows.
  unfoldable pub chunk_rows : Document → ℕ → ℕ → List (ChunkDraft × V) → List (Chunk V)
  chunk_rows document index id [] = []
  chunk_rows document index id ((draft, embedding) ∷ rows) =
      record {
        id = id;
        document_id = document.id;
        tenant_id = document.tenant_id;
        chunk_index = index;
        content = draft.text;
        token_count = draft.token_count;
        embedding = embedding;
        meta = draft.meta;
      }
      ∷ chunk_rows document (index + 1) (id + 1) rows

  -- The two steps of the `try` in `process` that can raise, and the pairs that `zip` makes of them.
  pub build_rows : Ports → IngestionService V → List ℕ → SourceType → Result (List (ChunkDraft × V))
  unfolding parse_and_chunk embed_all zip_strict
  build_rows ports service raw source_type = do
    drafts ← parse_and_chunk ports service raw source_type
    embeddings ← embed_all service drafts
    zip_strict drafts embeddings

  -- The transaction that ends `process`.
  pub store_rows : Document → List (ChunkDraft × V) → Db V → Db V
  unfolding chunk_rows
  store_rows document rows db = record db {
    documents = update_document document.id (complete (length rows)) db.documents;
    chunks = delete_chunks document.id db.chunks ++ chunk_rows document 0 db.next_chunk_id rows;
    next_chunk_id = db.next_chunk_id + length rows;
  }

  unfoldable pub mark_failed : ℕ → Text → Db V → Db V
  mark_failed document_id message db = elim (find_document document_id db.documents) [
    | none ↦ db
    | some d ↦ record db { documents = update_document document_id (fail message) db.documents }
  ]

  -- What follows the commit of PROCESSING: the `try` and its handlers.
  pub finish_process : Document → Result (List (ChunkDraft × V)) → Db V → Result Document × Db V
  finish_process document (ok rows) db =
      (ok (complete (length rows) document), store_rows document rows db)
  finish_process document (err (rag (parse_error message))) db =
      (err (rag (parse_error message)), mark_failed document.id message db)
  finish_process document (err e) db = (err e, db)

  -- `process` on a row that is not COMPLETED.
  unfoldable pub process_row :
      Ports → IngestionService V → Document → Option (List ℕ) → Db V → Result Document × Db V
  unfolding build_rows finish_process no_payload
  process_row ports service document none db = (err (rag (parse_error no_payload)), db)
  process_row ports service document (some raw) db =
      let db' = record db {
        documents = update_document document.id begin_processing db.documents;
      } in
      finish_process (begin_processing document) (build_rows ports service raw document.source_type)
        db'

  unfoldable pub process : Ports → IngestionService V → ℕ → Db V → Result Document × Db V
  unfolding process_row
  process ports service document_id db = elim (find_document document_id db.documents) [
    | none ↦ (
      err (
          rag
            (not_found (codes "document " ++ (ports.uuid_str document_id ++ codes " not found")))),
      db,
    )
    | some d ↦
        if is_completed d.status then (ok d, db) else process_row ports service d d.raw_content db
  ]

  unfoldable pub over_quota : IngestionService V → ℕ → ℕ → Bool
  over_quota service used incoming =
      ltb 0 service.max_tenant_storage && ltb service.max_tenant_storage (used + incoming)

  unfoldable pub register :
      Ports
      → IngestionService V
      → (id created_at tenant_id : ℕ) → Text
      → List ℕ
      → SourceType
      → Db V
      → Result Document × Db V
  register ports service id created_at tenant_id filename raw source_type db =
      elim (find_tenant tenant_id db.tenants) [
        | none ↦ (
          err (
              rag
                (not_found (codes "tenant " ++ (ports.uuid_str tenant_id ++ codes " not found")))),
          db,
        )
        | some tenant ↦
            let used = used_bytes tenant_id db.documents in
            let document = new_document ports id created_at tenant_id filename raw source_type in
            if over_quota service used (length raw)
            then (
              err (rag (storage_quota_exceeded used service.max_tenant_storage (length raw))),
              db,
            )
            else if any_conflict document db.documents
            then (err (rag duplicate_document), db)
            else (ok document, record db { documents = db.documents ++ document ∷ [] })
      ]

  -- The result of `register` decides whether `ingest` goes on.
  ingest_registered : Ports → IngestionService V → Result Document × Db V → Result Document × Db V
  ingest_registered ports service (ok document, db) = process ports service document.id db
  ingest_registered ports service (err e, db) = (err e, db)

  unfoldable pub ingest :
      Ports
      → IngestionService V
      → (id created_at tenant_id : ℕ) → Text
      → List ℕ
      → SourceType
      → Db V
      → Result Document × Db V
  unfolding ingest_registered
  ingest ports service id created_at tenant_id filename raw source_type db =
      ingest_registered ports service
        (register ports service id created_at tenant_id filename raw source_type db)
