-- ===== src/Retrieval/Isolation.antt =====
-- A search as a whole: it answers, and only with stored chunks of the tenant that asks.
use rag_knowledge_platform_f.Prelude.{
  ℕ, ◌≤◌, false, Option, none, some, List, [], ◌∷◌, ◌≡◌, refl, ◌∙◌, length, length-take, take, All,
  All-take, All-imply, is_empty, arith,
}
use rag_knowledge_platform_f.Text.{Text, strip}
use rag_knowledge_platform_f.Errors.{Result, ok, ◌>>=◌}
use rag_knowledge_platform_f.Database.{Chunk, Db}
use rag_knowledge_platform_f.Retrieval.Dicts.{Has, Any}
use rag_knowledge_platform_f.Retrieval.Answers.{
  Returns, zip-Returns, Known, AreHits, register-AreHits, register_keeps, register-Known,
  set_scores-Returns, contents-Returns, Reranked, rerank_keys-Returns, retrieved-Returns,
  fuse_list-All, order_by_score-All,
}
use rag_knowledge_platform_f.Retrieval.Repository.{Floats, ChunkHit, Engine}
use rag_knowledge_platform_f.Retrieval.Repository.Isolation.{
  In, IsScan, FromTenant, dense_search-FromTenant, keyword_search-FromTenant,
}
use rag_knowledge_platform_f.Retrieval.{
  Mode, Scores, RetrievedChunk, RetrievalService, Found, register, hit_ids, set_scores, fuse,
  order_by_score, rerank_step, effective_top_n, rank_step, search,
}

-- The query is embedded, and the reranker, if there is one, gives a score to each text.
pub record IsAnswering {V F : Type 0} (service : RetrievalService V F) (query : Text) : Type 0 where
  pub embeds : Returns Any (service.embed_query query)
  pub reranks :
      (rerank : Text → List Text → Result (List F))
      → service.reranker ≡ some rerank
      → (texts : List Text) → Returns (λ xs. length texts ≡ length xs) (rerank query texts)

-- The result is a stored chunk of the tenant.
abbrev pub IsOwn : {V F : Type 0} → ℕ → Db V → RetrievedChunk F → Type 0
IsOwn {V} tenant_id db r =
    (c : Chunk V) × In c db.chunks
    × (c.tenant_id ≡ tenant_id)
    × (r.chunk_id ≡ c.id)
    × (r.document_id ≡ c.document_id)
    × (r.content ≡ c.content)

hit_IsOwn :
    {V F : Type 0} (tenant_id : ℕ) (db : Db V) (hit : ChunkHit F) (r : RetrievedChunk F)
    → FromTenant tenant_id db hit
    → r.chunk_id ≡ hit.chunk_id
    → r.document_id ≡ hit.document_id
    → r.content ≡ hit.content
    → IsOwn tenant_id db r
hit_IsOwn tenant_id db hit r h chunk doc text =
    let (c, stored, tenant, i, d, t) = h in (c, stored, tenant, chunk ∙ i, doc ∙ d, text ∙ t)

-- What a step passes on: hits that satisfy `P`, and an order of ids that are known.
abbrev IsStep : {F : Type 0} → (ChunkHit F → Type 0) → Found F × List ℕ → Type 0
IsStep P step = AreHits P step.0 × All (Known step.0) step.1

module _ {F : Type 0} (floats : Floats F) (P : ChunkHit F → Type 0) where
  rerank_step-Returns :
      (reranker : Option (Text → List Text → Result (List F))) (query : Text) (found : Found F)
      (ordered : List ℕ)
      → ((rerank : Text → List Text → Result (List F))
          → reranker ≡ some rerank
          → (texts : List Text) → Returns (λ xs. length texts ≡ length xs) (rerank query texts))
      → IsStep P (found, ordered)
      → Returns (IsStep P) (rerank_step floats reranker query found ordered)
  unfolding rerank_step
  rerank_step-Returns none query found ordered reranks h = ((found, ordered), refl, h)
  rerank_step-Returns (some rerank) query found [] reranks h = ((found, []), refl, (h.0, tt))
  rerank_step-Returns (some rerank) query found (cid ∷ cids) reranks h =
      let known = h.1 in
      let (texts, e_texts, same) =
        contents-Returns found.hits (cid ∷ cids) (All-imply _ _ (cid ∷ cids) (λ c k. k.0) known) in
      let (xs, e_xs, counts) = reranks rerank refl texts in
      let (pairs, e_pairs, (all, back)) =
        zip-Returns (λ c. Has Any c found.scores) (cid ∷ cids) xs (omega (arith, same, counts))
          (All-imply _ _ (cid ∷ cids) (λ c k. k.1) known) in
      let (scores, e_scores, (any, keep, reranked)) =
        set_scores-Returns Reranked (λ x s. record s { rerank = some x }) (λ x s. (x, refl)) pairs
          found.scores all in
      let known' : All (Known (record { hits = found.hits; scores = scores })) (cid ∷ cids) =
        All-imply _ _ (cid ∷ cids) (λ c k. (k.0, any c k.1)) known in
      let (keys, e_keys, all_keys) =
        rerank_keys-Returns (Known (record { hits = found.hits; scores = scores })) scores
          (cid ∷ cids) (back (λ c. Has Reranked c scores) reranked) known' in
      (
        (record { hits = found.hits; scores = scores }, order_by_score floats keys),
        rw (e_texts, e_xs, e_pairs, e_scores, e_keys) refl,
        (h.0, order_by_score-All floats _ keys all_keys),
      )

module _ {F : Type 0} (floats : Floats F) where
  fuse-Known :
      (Q : ℕ → Type 0) (rrf_k : ℕ) (first second : List ℕ)
      → All Q first
      → All Q second
      → All (λ (p : ℕ × F). Q p.0) (fuse floats rrf_k (first ∷ second ∷ []) [])
  unfolding fuse
  fuse-Known Q rrf_k first second h k =
      fuse_list-All floats Q rrf_k 0 second _ k (fuse_list-All floats Q rrf_k 0 first [] h tt)

module _ {F : Type 0} (P : ChunkHit F → Type 0) where
  abbrev empty : Found F
  empty = record { hits = []; scores = [] }

  one_source :
      (set_score : F → Scores F → Scores F) (result : List (ChunkHit F))
      → All P result
      → IsStep P (register set_score result empty, hit_ids result)
  one_source set_score result h =
      (register-AreHits P set_score result empty h tt, register-Known set_score result empty)

  -- Both sources, and the order of the fused scores.
  two_sources :
      (floats : Floats F) (rrf_k : ℕ) (set_first set_second set_rrf : F → Scores F → Scores F)
      (first second : List (ChunkHit F))
      → All P first
      → All P second
      → Returns (IsStep P) (do
        let found = register set_second second (register set_first first empty)
        let fused = fuse floats rrf_k (hit_ids first ∷ hit_ids second ∷ []) []
        scores ← set_scores set_rrf fused found.scores
        ok (record { hits = found.hits; scores = scores }, order_by_score floats fused))
  two_sources floats rrf_k set_first set_second set_rrf first second h k =
      let found = register set_second second (register set_first first empty) in
      let fused = fuse floats rrf_k (hit_ids first ∷ hit_ids second ∷ []) [] in
      let known : All (λ (p : ℕ × F). Known found p.0) fused =
        fuse-Known floats (Known found) rrf_k (hit_ids first) (hit_ids second)
          (All-imply _ _ (hit_ids first) (λ c q. register_keeps set_second second _ c q)
            (register-Known set_first first empty))
          (register-Known set_second second _) in
      let (scores, e, (any, keep, all)) =
        set_scores-Returns Any set_rrf (λ x s. tt) fused found.scores
          (All-imply _ _ fused (λ p q. q.1) known) in
      (
        (record { hits = found.hits; scores = scores }, order_by_score floats fused),
        rw e refl,
        (
          register-AreHits P set_second second _ k (register-AreHits P set_first first empty h tt),
          order_by_score-All floats _ fused (All-imply _ _ fused (λ p q. (q.0, any p.0 q.1)) known),
        ),
      )

module _ {V F : Type 0} (floats : Floats F) (engine : Engine V F) (is_scan : IsScan engine)
    (service : RetrievalService V F) (tenant_id : ℕ) (query : Text) (db : Db V)
    (answers : IsAnswering service query) where
  rank_step-Returns :
      (mode : Mode)
      → Returns
          (IsStep (FromTenant tenant_id db))
          (rank_step floats engine service tenant_id query mode db)
  unfolding rank_step
  rank_step-Returns Mode.dense =
      let (embedding, e, _) = answers.embeds in
      rw e (
        _,
        refl,
        one_source (FromTenant tenant_id db) _ _
            (dense_search-FromTenant floats engine tenant_id service.k_dense db embedding
              is_scan).0,
      )
  rank_step-Returns Mode.keyword = (
    _,
    refl,
    one_source (FromTenant tenant_id db) _ _
        (keyword_search-FromTenant floats engine tenant_id service.k_keyword db query).0,
  )
  rank_step-Returns Mode.hybrid =
      let (embedding, e, _) = answers.embeds in
      rw e (
        two_sources (FromTenant tenant_id db) floats service.rrf_k _ _ _ _ _
          (dense_search-FromTenant floats engine tenant_id service.k_dense db embedding is_scan).0
          (keyword_search-FromTenant floats engine tenant_id service.k_keyword db query).0)

  -- A query that is not blank is answered in every mode, by at most as many results as asked for (or
  -- the service's default), each a stored chunk of the tenant, if the index scan visits stored rows,
  -- the query is embedded, and the reranker, if any, returns one score for each text.
  pub search-IsOwn :
      (mode : Mode) (top_n : Option ℕ)
      → is_empty (strip query) ≡ false
      → Returns
          (λ results.
            All (IsOwn tenant_id db) results
            × (length results ≤ effective_top_n top_n service.top_n))
          (search floats engine service tenant_id query mode top_n db)
  unfolding search
  search-IsOwn mode top_n blank =
      let n = effective_top_n top_n service.top_n in
      let ((found, ordered), e, step) = rank_step-Returns mode in
      let ((found', ordered'), e', step') =
        rerank_step-Returns floats (FromTenant tenant_id db) service.reranker query found ordered
          answers.reranks step in
      let (results, e'', (own, same)) =
        retrieved-Returns (FromTenant tenant_id db) (IsOwn tenant_id db) found'
          (hit_IsOwn tenant_id db) step'.0 (take n ordered')
          (All-take (Known found') n ordered' step'.1) in
      (results, rw (blank, e, e', e'') refl, (own, omega (arith, same, length-take n ordered')))
