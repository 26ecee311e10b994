-- ===== src/Ingestion/Raises.antt =====
-- What the steps of `process` can raise.
use rag_knowledge_platform_f.Prelude.{
  ℕ, ◌≢◌, List, [], ◌∷◌, ◌==◌, inl, inr, map, length, slices, leb, leb→le, leb→lt, Bool-cases,
}
use rag_knowledge_platform_f.Text.{Text}
use rag_knowledge_platform_f.Errors.{Result, ok, err, rag, not_found, ◌>>=◌}
use rag_knowledge_platform_f.Chunking.Sentences.{Block}
use rag_knowledge_platform_f.Chunking.Packing.{ChunkDraft, chunk_blocks}
use rag_knowledge_platform_f.Chunking.Contract.{chunk_blocks-Packed, chunk_blocks_refused}
use rag_knowledge_platform_f.Database.{SourceType}
use rag_knowledge_platform_f.Ingestion.{
  Ports, IngestionService, zip_strict, embed_batches, embed_all, parse_and_chunk, build_rows,
}

-- A call that never raises `NotFoundError`.
abbrev pub NeverNotFound : {A : Type 0} → Result A → Type 0
NeverNotFound (ok a) = Unit
NeverNotFound (err e) = (message : Text) → e ≢ rag (not_found message)

pub NeverNotFound-ne :
    {A : Type 0} (r : Result A)
    → NeverNotFound r
    → (message : Text) → r ≢ err (rag (not_found message))
NeverNotFound-ne (ok a) h message eq = cc eq
NeverNotFound-ne (err e) h message eq = h message (cc eq)

bind-NeverNotFound :
    {A B : Type 0} (r : Result A) (f : A → Result B)
    → NeverNotFound r
    → ((a : A) → NeverNotFound (f a))
    → NeverNotFound (r >>= f)
bind-NeverNotFound (ok a) f h k = k a
bind-NeverNotFound (err e) f h k = h

chunk_blocks-NeverNotFound :
    (blocks : List Block) (target overlap : ℕ) → NeverNotFound (chunk_blocks blocks target overlap)
chunk_blocks-NeverNotFound blocks target overlap = elim (Bool-cases (leb target overlap)) [
  | inl refused ↦ rw (chunk_blocks_refused blocks target overlap (leb→le _ _ refused)) (λ m e. cc e)
  | inr allowed ↦
      let (ds, runs, packed) = chunk_blocks-Packed blocks target overlap (leb→lt _ _ allowed) in
      rw runs tt
]

zip_strict-NeverNotFound :
    {A B : Type 0} (xs : List A) (ys : List B) → NeverNotFound (zip_strict xs ys)
unfolding zip_strict
zip_strict-NeverNotFound [] [] = tt
zip_strict-NeverNotFound [] (y ∷ ys) = λ m e. cc e
zip_strict-NeverNotFound (x ∷ xs) [] = λ m e. cc e
zip_strict-NeverNotFound (x ∷ xs) (y ∷ ys) =
    bind-NeverNotFound (zip_strict xs ys) _ (zip_strict-NeverNotFound xs ys) (λ a. tt)

module _ {V : Type 0} (ports : Ports) (service : IngestionService V)
    (parser : (raw : List ℕ) (source_type : SourceType)
      → NeverNotFound (ports.parse_document raw source_type))
    (embedder : (texts : List Text) → NeverNotFound (service.embed_documents texts)) where
  embed_batches-NeverNotFound :
      (batches : List (List ChunkDraft)) → NeverNotFound (embed_batches service batches)
  unfolding embed_batches
  embed_batches-NeverNotFound [] = tt
  embed_batches-NeverNotFound (batch ∷ batches) =
      bind-NeverNotFound (service.embed_documents (map (λ d. d.text) batch)) _ (embedder _) (λ a.
        bind-NeverNotFound (embed_batches service batches) _ (embed_batches-NeverNotFound batches)
          (λ b. tt))

  embed_all-NeverNotFound : (drafts : List ChunkDraft) → NeverNotFound (embed_all service drafts)
  unfolding embed_all
  embed_all-NeverNotFound drafts = elim (Bool-cases (service.batch_size == 0)) [
    | inl none_left ↦ rw none_left (λ m e. cc e)
    | inr some_left ↦
        rw some_left
          (embed_batches-NeverNotFound (slices (length drafts) service.batch_size drafts))
  ]

  -- If the parser and the embedder never raise it, neither does what `process` does with them.
  pub build_rows-NeverNotFound :
      (raw : List ℕ) (source_type : SourceType)
      → NeverNotFound (build_rows ports service raw source_type)
  unfolding build_rows
  build_rows-NeverNotFound raw source_type =
      bind-NeverNotFound (parse_and_chunk ports service raw source_type) _
        (unfold parse_and_chunk in
          bind-NeverNotFound (ports.parse_document raw source_type) _ (parser raw source_type)
            (λ blocks. chunk_blocks-NeverNotFound blocks service.target service.overlap))
        (λ drafts.
          bind-NeverNotFound (embed_all service drafts) _ (embed_all-NeverNotFound drafts)
            (λ embeddings. zip_strict-NeverNotFound drafts embeddings))
