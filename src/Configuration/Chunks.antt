-- ===== src/Configuration/Chunks.antt =====
-- The chunk sizes of the services: when chunking refuses them.
use rag_knowledge_platform_f.Prelude.{
  ℕ, not, ◌&&◌, ◌||◌, Option, List, ◌≡◌, refl, sym, ◌∙◌, leb, ◌==◌, leb→le, leb→lt, arith,
  Bool-cases, inl, inr,
}
use rag_knowledge_platform_f.Chunking.Sentences.{Block}
use rag_knowledge_platform_f.Chunking.Packing.{chunk_blocks}
use rag_knowledge_platform_f.Chunking.Contract.{chunk_blocks-Packed, chunk_blocks_refused}
use rag_knowledge_platform_f.Auth.Revoked.{is_ok}
use rag_knowledge_platform_f.Evals.{prepared_overlap}
use rag_knowledge_platform_f.Configuration.{
  Settings, Embedder, validate_chunking, get_ingestion_service, evaluation_target,
  evaluation_service,
}

chunk_blocks_ok :
    (blocks : List Block) (target overlap : ℕ)
    → is_ok (chunk_blocks blocks target overlap) ≡ not (leb target overlap)
chunk_blocks_ok blocks target overlap = elim (Bool-cases (leb target overlap)) [
  | inl refused ↦ rw (refused, chunk_blocks_refused blocks target overlap (leb→le _ _ refused)) refl
  | inr allowed ↦
      let (ds, runs, packed) = chunk_blocks-Packed blocks target overlap (leb→lt _ _ allowed) in
      rw (allowed, runs) refl
]

validate_chunking_ok :
    (settings : Settings)
    → is_ok (validate_chunking settings)
      ≡ not (leb settings.chunk_target_tokens settings.chunk_overlap_tokens)
unfolding validate_chunking
validate_chunking_ok settings =
    elim (Bool-cases (leb settings.chunk_target_tokens settings.chunk_overlap_tokens)) [
      | inl refused ↦ rw refused refl
      | inr allowed ↦ rw allowed refl
    ]

prepared_lem :
    (configured target : ℕ)
    → not (leb target (prepared_overlap configured target))
      ≡ (leb 2 target || (target == 1 && configured == 0))
unfolding prepared_overlap
prepared_lem configured target = ground arith

module _ {V : Type 0} (embedder : Embedder V) (settings : Settings) (blocks : List Block) where
  -- The validator of the settings accepts them exactly if the service that is made of them chunks
  -- every document without an error. The service of the evaluation does so if its target is 2 at
  -- least, and for a target of 1 only if the configured overlap is 0.
  pub chunk_blocks_validated :
      (chunk_target_tokens : Option ℕ)
      → let service = get_ingestion_service embedder settings in
        let evaluated = evaluation_service embedder chunk_target_tokens settings in
        (is_ok (chunk_blocks blocks service.target service.overlap)
          ≡ is_ok (validate_chunking settings))
        × (is_ok (chunk_blocks blocks evaluated.target evaluated.overlap) ≡ (
            leb 2 evaluated.target
            || (evaluated.target == 1 && settings.chunk_overlap_tokens == 0)))
  unfolding get_ingestion_service evaluation_service
  chunk_blocks_validated chunk_target_tokens =
      let target = evaluation_target chunk_target_tokens settings in
      (
        chunk_blocks_ok blocks settings.chunk_target_tokens settings.chunk_overlap_tokens
            ∙ sym (validate_chunking_ok settings),
        chunk_blocks_ok blocks target (prepared_overlap settings.chunk_overlap_tokens target)
            ∙ prepared_lem settings.chunk_overlap_tokens target,
      )
