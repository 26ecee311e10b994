-- ===== src/Retrieval.antt =====
-- retrieval/service.py: the search over the hits of the repository. Dicts are association lists in
-- the order of insertion.
pub mod Repository
pub mod Dicts
pub mod Answers
pub mod Isolation
pub mod Fusion
use rag_knowledge_platform_f.Prelude.{
  ℕ, zero, suc, ◌+◌, Bool, true, false, not, Option, none, some, List, [], ◌∷◌, ◌++◌, map, take,
  is_empty, ltb, ◌==◌, if◌then◌else◌,
}
use rag_knowledge_platform_f.Text.{Text, strip}
use rag_knowledge_platform_f.Errors.{Result, ok, err, rag, invalid_query, key_error, ◌>>=◌}
use rag_knowledge_platform_f.Sorting.{sorted}
use rag_knowledge_platform_f.Ingestion.{zip_strict}
use rag_knowledge_platform_f.Database.{Db}
use rag_knowledge_platform_f.Chunking.Packing.{ChunkMeta}
use rag_knowledge_platform_f.Retrieval.Repository.{
  Floats, ChunkHit, Engine, dense_search, keyword_search,
}

-- `SearchMode`.
pub data Mode : Type 0 where
  hybrid dense keyword : Mode

-- The inner dicts of `scores`, with the keys that the service writes.
pub record Scores (F : Type 0) : Type 0 where
  pub dense_cosine_sim : Option F
  pub keyword_ts_rank : Option F
  pub rrf : Option F
  pub rerank : Option F

-- `RetrievedChunk`.
pub record RetrievedChunk (F : Type 0) : Type 0 where
  pub chunk_id : ℕ
  pub document_id : ℕ
  pub filename : Text
  pub chunk_index : ℕ
  pub content : Text
  pub meta : ChunkMeta
  pub scores : Scores F

-- The fields of `RetrievalService`, the embedder and the reranker by their methods.
pub record RetrievalService (V F : Type 0) : Type 0 where
  pub embed_query : Text → Result V
  pub reranker : Option (Text → List Text → Result (List F))
  pub k_dense : ℕ
  pub k_keyword : ℕ
  pub rrf_k : ℕ
  pub top_n : ℕ

module _ {A : Type 0} where
  -- `d.get(k)`.
  unfoldable pub get : ℕ → List (ℕ × A) → Option A
  get k [] = none
  get k ((j, v) ∷ d) = if j == k then some v else get k d

  -- `d[k]`.
  pub get_item : ℕ → List (ℕ × A) → Result A
  get_item k d = elim (get k d) [ none ↦ err key_error | some v ↦ ok v ]

  -- `d[k] = f(d.get(k, default))`.
  unfoldable pub update : ℕ → A → (A → A) → List (ℕ × A) → List (ℕ × A)
  update k default f [] = (k, f default) ∷ []
  update k default f ((j, v) ∷ d) = if j == k then (j, f v) ∷ d else (j, v) ∷ update k default f d

-- The dicts `hits` and `scores`.
pub record Found (F : Type 0) : Type 0 where
  pub hits : List (ℕ × ChunkHit F)
  pub scores : List (ℕ × Scores F)

module _ {F : Type 0} where
  pub no_scores : Scores F
  no_scores = record { dense_cosine_sim = none; keyword_ts_rank = none; rrf = none; rerank = none }

  -- `_register`, with the assignment of the source's score for `score_name`. It returns the ids of
  -- the hits, which is `hit_ids` here.
  pub register : (F → Scores F → Scores F) → List (ChunkHit F) → Found F → Found F
  register set_score [] found = found
  register set_score (hit ∷ result) found = register set_score result (record {
    hits = update hit.chunk_id hit (λ h. h) found.hits;
    scores = update hit.chunk_id no_scores (set_score hit.score) found.scores;
  })

  pub hit_ids : List (ChunkHit F) → List ℕ
  hit_ids result = map (λ hit. hit.chunk_id) result

  -- The assignments of `scores[chunk_id]["rrf"]` and `["rerank"]` in a loop.
  pub set_scores :
      (F → Scores F → Scores F) → List (ℕ × F) → List (ℕ × Scores F) → Result (List (ℕ × Scores F))
  set_scores set_score [] scores = ok scores
  set_scores set_score ((chunk_id, score) ∷ pairs) scores = do
    s ← get_item chunk_id scores
    set_scores set_score pairs (update chunk_id s (set_score score) scores)

  pub contents : List (ℕ × ChunkHit F) → List ℕ → Result (List Text)
  contents hits [] = ok []
  contents hits (cid ∷ ordered) = do
    hit ← get_item cid hits
    rest ← contents hits ordered
    ok (hit.content ∷ rest)

  pub rerank_of : Scores F → Result F
  rerank_of s = elim s.rerank [ none ↦ err key_error | some x ↦ ok x ]

  -- The ids with the scores that the last sort reads.
  pub rerank_keys : List (ℕ × Scores F) → List ℕ → Result (List (ℕ × F))
  rerank_keys scores [] = ok []
  rerank_keys scores (cid ∷ ordered) = do
    s ← get_item cid scores
    score ← rerank_of s
    rest ← rerank_keys scores ordered
    ok ((cid, score) ∷ rest)

  -- `RetrievedChunk(...)`.
  abbrev pub to_retrieved : ℕ → ChunkHit F → Scores F → RetrievedChunk F
  to_retrieved cid hit scores = record {
    chunk_id = cid;
    document_id = hit.document_id;
    filename = hit.filename;
    chunk_index = hit.chunk_index;
    content = hit.content;
    meta = hit.meta;
    scores = scores;
  }

  -- The list that `search` returns.
  pub retrieved : Found F → List ℕ → Result (List (RetrievedChunk F))
  retrieved found [] = ok []
  retrieved found (cid ∷ ordered) = do
    hit ← get_item cid found.hits
    scores ← get_item cid found.scores
    rest ← retrieved found ordered
    ok (to_retrieved cid hit scores ∷ rest)

module _ {F : Type 0} (floats : Floats F) where
  -- The inner loop of the fusion, from `rank` on.
  pub fuse_list : (rrf_k rank : ℕ) → List ℕ → List (ℕ × F) → List (ℕ × F)
  fuse_list rrf_k rank [] fused = fused
  fuse_list rrf_k rank (cid ∷ ids) fused = fuse_list rrf_k (rank + 1) ids (
      update cid floats.zero_score (λ x. floats.plus x (floats.reciprocal (rrf_k + rank + 1)))
        fused)

  pub fuse : (rrf_k : ℕ) → List (List ℕ) → List (ℕ × F) → List (ℕ × F)
  unfolding fuse_list
  fuse rrf_k [] fused = fused
  fuse rrf_k (ids ∷ rank_lists) fused = fuse rrf_k rank_lists (fuse_list rrf_k 0 ids fused)

  -- The key `(-score, cid)` of both sorts.
  pub ranked_before : ℕ × F → ℕ × F → Bool
  ranked_before (i, x) (j, y) = if floats.same x y then ltb i j else floats.below y x

  pub order_by_score : List (ℕ × F) → List ℕ
  unfolding ranked_before
  order_by_score pairs = map (λ p. p.0) (sorted ranked_before pairs)

  -- The last step before the result: reranking, if it is on and there is something to rerank.
  pub rerank_step :
      Option (Text → List Text → Result (List F))
      → Text
      → Found F
      → List ℕ
      → Result (Found F × List ℕ)
  rerank_step none query found ordered = ok (found, ordered)
  rerank_step (some rerank) query found [] = ok (found, [])
  rerank_step (some rerank) query found (cid ∷ cids) = do
    texts ← contents found.hits (cid ∷ cids)
    rerank_scores ← rerank query texts
    pairs ← zip_strict (cid ∷ cids) rerank_scores
    scores ← set_scores (λ x s. record s { rerank = some x }) pairs found.scores
    keys ← rerank_keys scores (cid ∷ cids)
    ok (record { hits = found.hits; scores = scores }, order_by_score keys)

-- `top_n or self._top_n`.
unfoldable pub effective_top_n : Option ℕ → ℕ → ℕ
effective_top_n none default = default
effective_top_n (some zero) default = default
effective_top_n (some (suc n)) default = suc n

module _ {V F : Type 0} (floats : Floats F) (engine : Engine V F)
    (service : RetrievalService V F) where
  -- What each mode puts into `hits`, `scores` and `ordered`.
  pub rank_step : (tenant_id : ℕ) → Text → Mode → Db V → Result (Found F × List ℕ)
  rank_step tenant_id query Mode.dense db = do
    embedding ← service.embed_query query
    let result = dense_search floats engine tenant_id embedding service.k_dense db
    ok (
      register (λ x s. record s { dense_cosine_sim = some x }) result
          (record { hits = []; scores = [] }),
      hit_ids result,
    )
  rank_step tenant_id query Mode.keyword db =
      let result = keyword_search floats engine tenant_id query service.k_keyword db in
      ok (
        register (λ x s. record s { keyword_ts_rank = some x }) result
            (record { hits = []; scores = [] }),
        hit_ids result,
      )
  rank_step tenant_id query Mode.hybrid db = do
    embedding ← service.embed_query query
    let nearest = dense_search floats engine tenant_id embedding service.k_dense db
    let matching = keyword_search floats engine tenant_id query service.k_keyword db
    let first =
        register (λ x s. record s { dense_cosine_sim = some x }) nearest
          (record { hits = []; scores = [] })
    let found = register (λ x s. record s { keyword_ts_rank = some x }) matching first
    let fused = fuse floats service.rrf_k (hit_ids nearest ∷ hit_ids matching ∷ []) []
    scores ← set_scores (λ x s. record s { rrf = some x }) fused found.scores
    ok (record { hits = found.hits; scores = scores }, order_by_score floats fused)

  -- `RetrievalService.search`.
  pub search : (tenant_id : ℕ) → Text → Mode → Option ℕ → Db V → Result (List (RetrievedChunk F))
  search tenant_id query mode top_n db =
      if is_empty (strip query) then err (rag invalid_query) else (do
        (found, ordered) ← rank_step tenant_id query mode db
        (found', ordered') ← rerank_step floats service.reranker query found ordered
        retrieved found' (take (effective_top_n top_n service.top_n) ordered'))
