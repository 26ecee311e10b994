-- ===== src/Retrieval/Repository.antt =====
-- retrieval/repository.py: the two queries, each for one tenant. What PostgreSQL and its extensions
-- compute is a parameter: the cosine distance of two vectors, the match and the rank of a text for a
-- query, and the rows that a scan of the approximate vector index visits.
pub mod Isolation
use rag_knowledge_platform_f.Prelude.{
  ℕ, Bool, true, false, ◌&&◌, Option, none, some, List, [], ◌∷◌, ◌++◌, take, ltb, ◌==◌,
  if◌then◌else◌,
}
use rag_knowledge_platform_f.Text.{Text}
use rag_knowledge_platform_f.Chunking.Packing.{ChunkMeta}
use rag_knowledge_platform_f.Database.{Document, Chunk, Db, find_document}
use rag_knowledge_platform_f.Sorting.{sorted}

-- What the program does with floats: 0.0, `+`, `1.0 / n`, `1 - x`, `<` and `==`.
pub record Floats (F : Type 0) : Type 0 where
  pub zero_score : F
  pub plus : F → F → F
  pub reciprocal : ℕ → F
  pub one_minus : F → F
  pub below : F → F → Bool
  pub same : F → F → Bool

-- `ChunkHit`.
pub record ChunkHit (F : Type 0) : Type 0 where
  pub chunk_id : ℕ
  pub document_id : ℕ
  pub filename : Text
  pub chunk_index : ℕ
  pub content : Text
  pub meta : ChunkMeta
  pub score : F

pub record Engine (V F : Type 0) : Type 0 where
  pub cosine_distance : V → V → F
  pub matches : Text → Text → Bool
  pub ts_rank_cd : Text → Text → F
  pub scan : V → List (Chunk V) → List (Chunk V)

module _ {V : Type 0} where
  -- `.where(...)`, on the chunks that a scan visits.
  pub where_chunk : (Chunk V → Bool) → List (Chunk V) → List (Chunk V)
  where_chunk test [] = []
  where_chunk test (c ∷ cs) = let rest = where_chunk test cs in if test c then c ∷ rest else rest

module _ {V F : Type 0} where
  -- `_to_hits` of one row, joined with its document.
  pub to_hit : Chunk V → Document → F → ChunkHit F
  to_hit c d score = record {
    chunk_id = c.id;
    document_id = c.document_id;
    filename = d.filename;
    chunk_index = c.chunk_index;
    content = c.content;
    meta = c.meta;
    score = score;
  }

  -- `.join(Document, Chunk.document_id == Document.id)`, with the selected columns.
  pub join_documents : List Document → (Chunk V → F) → List (Chunk V) → List (ChunkHit F)
  unfolding to_hit
  join_documents documents score [] = []
  join_documents documents score (c ∷ cs) =
      let rest = join_documents documents score cs in
      elim (find_document c.document_id documents) [
        | none ↦ rest
        | some d ↦ to_hit c d (score c) ∷ rest
      ]

module _ {V F : Type 0} (floats : Floats F) (engine : Engine V F) where
  -- The rows are ordered by their distance, from which `1 - distance` is selected as the score.
  pub nearer : V → Chunk V → Chunk V → Bool
  nearer query c d =
      floats.below (engine.cosine_distance c.embedding query)
        (engine.cosine_distance d.embedding query)

  unfoldable pub dense_search : (tenant_id : ℕ) → V → (k : ℕ) → Db V → List (ChunkHit F)
  dense_search tenant_id query k db =
      let visited = where_chunk (λ c. c.tenant_id == tenant_id) (engine.scan query db.chunks) in
      take k (
        join_documents db.documents
          (λ c. floats.one_minus (engine.cosine_distance c.embedding query))
          (sorted (nearer query) visited))

  -- `rank.desc(), Chunk.id`.
  pub ranks_before : Text → Chunk V → Chunk V → Bool
  ranks_before query c d =
      let r = engine.ts_rank_cd c.content query in
      let s = engine.ts_rank_cd d.content query in
      if floats.same r s then ltb c.id d.id else floats.below s r

  unfoldable pub keyword_search : (tenant_id : ℕ) → Text → (k : ℕ) → Db V → List (ChunkHit F)
  keyword_search tenant_id query k db =
      let matching =
        where_chunk (λ c. c.tenant_id == tenant_id && engine.matches c.content query) db.chunks in
      take k (
        join_documents db.documents (λ c. engine.ts_rank_cd c.content query)
          (sorted (ranks_before query) matching))
