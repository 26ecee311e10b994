-- ===== src/Database.antt =====
-- The tables of models.py that the pipeline reads and writes, with the constraints that the models
-- declare, and the queries of the services on them. A committed database is a value; a session that
-- rolls back leaves the value that it began with. UUIDs and times are numbers.
pub mod Queries
pub mod Where
use rag_knowledge_platform_f.Prelude.{
  ℕ, ◌+◌, Bool, true, false, ◌&&◌, ◌||◌, not, Option, none, some, List, [], ◌∷◌, ◌++◌, ◌==◌,
  if◌then◌else◌,
}
use rag_knowledge_platform_f.Text.{Text, text_eq}
use rag_knowledge_platform_f.Chunking.Packing.{ChunkMeta}

-- `DocumentSourceType`.
pub data SourceType : Type 0 where
  pdf markdown html : SourceType

-- `DocumentStatus`.
pub data Status : Type 0 where
  pending processing completed failed : Status

abbrev pub is_completed : Status → Bool
is_completed Status.completed = true
is_completed _ = false

pub record Tenant : Type 0 where
  pub id : ℕ
  pub name : Text
  pub slug : Text

-- `raw_content` is the bytes of the upload. `updated_at` is never read, and is left out.
pub record Document : Type 0 where
  pub id : ℕ
  pub tenant_id : ℕ
  pub filename : Text
  pub source_type : SourceType
  pub content_sha256 : Text
  pub size_bytes : ℕ
  pub status : Status
  pub raw_content : Option (List ℕ)
  pub error_message : Option Text
  pub chunk_count : Option ℕ
  pub created_at : ℕ

-- A row of `chunks`; `V` is the type of embeddings. `tsv` is generated from `content` by the
-- database, and `created_at` is never read.
pub record Chunk (V : Type 0) : Type 0 where
  pub id : ℕ
  pub document_id : ℕ
  pub tenant_id : ℕ
  pub chunk_index : ℕ
  pub content : Text
  pub token_count : ℕ
  pub embedding : V
  pub meta : ChunkMeta

-- `next_chunk_id` is the state of the identity column of `chunks`.
pub record Db (V : Type 0) : Type 0 where
  pub tenants : List Tenant
  pub documents : List Document
  pub chunks : List (Chunk V)
  pub next_chunk_id : ℕ

unfoldable pub find_tenant : ℕ → List Tenant → Option Tenant
find_tenant id [] = none
find_tenant id (t ∷ ts) = if t.id == id then some t else find_tenant id ts

-- `session.get(Document, id)`.
unfoldable pub find_document : ℕ → List Document → Option Document
find_document id [] = none
find_document id (d ∷ ds) = if d.id == id then some d else find_document id ds

-- An UPDATE of the row with this id.
unfoldable pub update_document : ℕ → (Document → Document) → List Document → List Document
update_document id f [] = []
update_document id f (d ∷ ds) = (if d.id == id then f d else d) ∷ update_document id f ds

-- The primary key, and `UniqueConstraint("tenant_id", "content_sha256")`, of a row and a new one.
unfoldable pub conflicts : Document → Document → Bool
conflicts d e =
    d.id == e.id || (d.tenant_id == e.tenant_id && text_eq d.content_sha256 e.content_sha256)

unfoldable pub any_conflict : Document → List Document → Bool
any_conflict e [] = false
any_conflict e (d ∷ ds) = conflicts d e || any_conflict e ds

-- `coalesce(sum(size_bytes), 0)` over the documents of a tenant.
unfoldable pub used_bytes : ℕ → List Document → ℕ
used_bytes tenant_id [] = 0
used_bytes tenant_id (d ∷ ds) =
    (if d.tenant_id == tenant_id then d.size_bytes else 0) + used_bytes tenant_id ds

module _ {V : Type 0} where
  -- `delete(Chunk).where(Chunk.document_id == id)`.
  unfoldable pub delete_chunks : ℕ → List (Chunk V) → List (Chunk V)
  delete_chunks id [] = []
  delete_chunks id (c ∷ cs) =
      let rest = delete_chunks id cs in if c.document_id == id then rest else c ∷ rest

  -- The chunks of a document.
  unfoldable pub chunks_of : ℕ → List (Chunk V) → List (Chunk V)
  chunks_of id [] = []
  chunks_of id (c ∷ cs) =
      let rest = chunks_of id cs in if c.document_id == id then c ∷ rest else rest
