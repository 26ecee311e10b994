-- ===== src/Retrieval/Answers.antt =====
-- The steps of a search return, given a provider that does, and pass on only what the queries found.
use rag_knowledge_platform_f.Prelude.{
  ℕ, ◌+◌, some, List, [], ◌∷◌, ◌≡◌, refl, sym, map, length, All, All-imply, arith,
}
use rag_knowledge_platform_f.Errors.{Result, ok}
use rag_knowledge_platform_f.Ingestion.{zip_strict}
use rag_knowledge_platform_f.Sorting.{sorted, sorted-All}
use rag_knowledge_platform_f.Retrieval.Dicts.{
  Has, Any, Has-update, Has-update_self, get-All, update-All, get_item-some,
}
use rag_knowledge_platform_f.Retrieval.Repository.{Floats, ChunkHit}
use rag_knowledge_platform_f.Retrieval.{
  update, Found, Scores, no_scores, register, hit_ids, set_scores, contents, rerank_keys, rerank_of,
  rerank_of, to_retrieved, retrieved, RetrievedChunk, fuse_list, ranked_before, order_by_score,
}

-- The call returns a value, which satisfies `P`.
abbrev pub Returns {ℓ} : {A : Type 0} → (A → Type ℓ) → Result A → Type ℓ
Returns {A} P r = (a : A) × (r ≡ ok a) × P a

module _ {A B : Type 0} where
  pub zip-Returns :
      (P : A → Type 0) (xs : List A) (ys : List B)
      → length xs ≡ length ys
      → All P xs
      → Returns
          (λ pairs. All (λ p. P p.0) pairs × ((Q : A → Type 0) → All (λ p. Q p.0) pairs → All Q xs))
          (zip_strict xs ys)
  unfolding zip_strict
  zip-Returns P [] [] e h = ([], refl, (tt, λ Q k. tt))
  zip-Returns P [] (y ∷ ys) e h = absurd (omega arith)
  zip-Returns P (x ∷ xs) [] e h = absurd (omega arith)
  zip-Returns P (x ∷ xs) (y ∷ ys) e h =
      let (pairs, returns, (all, back)) = zip-Returns P xs ys (omega arith) h.1 in
      ((x, y) ∷ pairs, rw returns refl, ((h.0, all), λ Q k. (k.0, back Q k.1)))

module _ {F : Type 0} where
  -- The chunk has a hit and scores.
  abbrev pub Known : Found F → ℕ → Type 0
  Known found cid = Has Any cid found.hits × Has Any cid found.scores

  -- The hits stand under their own ids, and satisfy `P`.
  abbrev pub AreHits : (ChunkHit F → Type 0) → Found F → Type 0
  AreHits P found = All (λ (p : ℕ × ChunkHit F). P p.1 × (p.1.chunk_id ≡ p.0)) found.hits

  pub register-AreHits :
      (P : ChunkHit F → Type 0) (set_score : F → Scores F → Scores F) (result : List (ChunkHit F))
      (found : Found F)
      → All P result
      → AreHits P found
      → AreHits P (register set_score result found)
  unfolding register
  register-AreHits P set_score [] found h k = k
  register-AreHits P set_score (hit ∷ result) found h k =
      register-AreHits P set_score result _ h.1 (
        update-All (λ (p : ℕ × ChunkHit F). P p.1 × (p.1.chunk_id ≡ p.0)) hit.chunk_id hit (λ h. h)
          found.hits (h.0, refl) (λ j v q. q) k)

  pub register_keeps :
      (set_score : F → Scores F → Scores F) (result : List (ChunkHit F)) (found : Found F) (cid : ℕ)
      → Known found cid
      → Known (register set_score result found) cid
  unfolding register
  register_keeps set_score [] found cid h = h
  register_keeps set_score (hit ∷ result) found cid h = register_keeps set_score result _ cid (
    Has-update Any cid hit.chunk_id hit (λ h. h) found.hits (λ v. tt) h.0,
    Has-update Any cid hit.chunk_id no_scores (set_score hit.score) found.scores (λ v. tt) h.1,
  )

  pub register-Known :
      (set_score : F → Scores F → Scores F) (result : List (ChunkHit F)) (found : Found F)
      → All (Known (register set_score result found)) (hit_ids result)
  unfolding register hit_ids
  register-Known set_score [] found = tt
  register-Known set_score (hit ∷ result) found = (
    register_keeps set_score result _ hit.chunk_id (
      Has-update_self Any hit.chunk_id hit (λ h. h) found.hits (λ v. tt),
      Has-update_self Any hit.chunk_id no_scores (set_score hit.score) found.scores (λ v. tt),
    ),
    register-Known set_score result _,
  )

  -- The scores that a loop of assignments leaves, if the assignment establishes `R`.
  abbrev pub Assigns :
      (Scores F → Type 0) → List (ℕ × F) → List (ℕ × Scores F) → List (ℕ × Scores F) → Type 0
  Assigns R pairs before after =
      ((cid : ℕ) → Has Any cid before → Has Any cid after)
      × ((cid : ℕ) → Has R cid before → Has R cid after)
      × All (λ (p : ℕ × F). Has R p.0 after) pairs

  pub set_scores-Returns :
      (R : Scores F → Type 0) (set_score : F → Scores F → Scores F)
      → ((x : F) (s : Scores F) → R (set_score x s))
      → (pairs : List (ℕ × F)) (scores : List (ℕ × Scores F))
      → All (λ (p : ℕ × F). Has Any p.0 scores) pairs
      → Returns (Assigns R pairs scores) (set_scores set_score pairs scores)
  unfolding set_scores
  set_scores-Returns R set_score establishes [] scores h =
      (scores, refl, ((λ cid k. k), (λ cid k. k), tt))
  set_scores-Returns R set_score establishes ((cid, x) ∷ pairs) scores h =
      let (s, found, _) = h.0 in
      let (after, returns, (any, keep, all)) =
        set_scores-Returns R set_score establishes pairs (update cid s (set_score x) scores) (
          All-imply _ _ pairs (λ p k. Has-update Any p.0 cid s (set_score x) scores (λ v. tt) k)
            h.1) in
      (
        after,
        rw (get_item-some cid scores s found) returns,
        (
          (λ c k. any c (Has-update Any c cid s (set_score x) scores (λ v. tt) k)),
          (λ c k. keep c (Has-update R c cid s (set_score x) scores (establishes x) k)),
          (keep cid (Has-update_self R cid s (set_score x) scores (establishes x)), all),
        ),
      )

  pub contents-Returns :
      (hits : List (ℕ × ChunkHit F)) (ordered : List ℕ)
      → All (λ cid. Has Any cid hits) ordered
      → Returns (λ texts. length texts ≡ length ordered) (contents hits ordered)
  unfolding contents
  contents-Returns hits [] h = ([], refl, refl)
  contents-Returns hits (cid ∷ ordered) h =
      let (hit, found, _) = h.0 in
      let (texts, returns, same) = contents-Returns hits ordered h.1 in
      (
        hit.content ∷ texts,
        rw (get_item-some cid hits hit found, returns) refl,
        omega (arith, same),
      )

  -- The scores have one of the reranker.
  abbrev pub Reranked : Scores F → Type 0
  Reranked s = (x : F) × (s.rerank ≡ some x)

  rerank_of-some : (s : Scores F) (x : F) → s.rerank ≡ some x → rerank_of s ≡ ok x
  unfolding rerank_of
  rerank_of-some s x e = rw (e, rerank_of) refl

  pub rerank_keys-Returns :
      (P : ℕ → Type 0) (scores : List (ℕ × Scores F)) (ordered : List ℕ)
      → All (λ cid. Has Reranked cid scores) ordered
      → All P ordered
      → Returns (λ keys. All (λ (p : ℕ × F). P p.0) keys) (rerank_keys scores ordered)
  unfolding rerank_keys
  rerank_keys-Returns P scores [] h k = ([], refl, tt)
  rerank_keys-Returns P scores (cid ∷ ordered) h k =
      let (s, found, (x, e)) = h.0 in
      let (keys, returns, all) = rerank_keys-Returns P scores ordered h.1 k.1 in
      (
        (cid, x) ∷ keys,
        rw (get_item-some cid scores s found, rerank_of-some s x e, returns) refl,
        (k.0, all),
      )

  -- What `search` returns of the hits.
  pub retrieved-Returns :
      (P : ChunkHit F → Type 0) (Q : RetrievedChunk F → Type 0) (found : Found F)
      → ((hit : ChunkHit F) (r : RetrievedChunk F)
          → P hit
          → r.chunk_id ≡ hit.chunk_id
          → r.document_id ≡ hit.document_id
          → r.content ≡ hit.content
          → Q r)
      → AreHits P found
      → (ordered : List ℕ) → All (Known found) ordered
      → Returns (λ rs. All Q rs × (length rs ≡ length ordered)) (retrieved found ordered)
  unfolding retrieved
  retrieved-Returns P Q found pass are_hits [] h = ([], refl, (tt, refl))
  retrieved-Returns P Q found pass are_hits (cid ∷ ordered) h =
      let (hit, e, _) = h.0.0 in
      let (scores, e', _) = h.0.1 in
      let (rs, returns, (all, same)) = retrieved-Returns P Q found pass are_hits ordered h.1 in
      let own =
        get-All (λ (p : ℕ × ChunkHit F). P p.1 × (p.1.chunk_id ≡ p.0)) cid hit found.hits are_hits
          e in
      (
        to_retrieved cid hit scores ∷ rs,
        rw (get_item-some cid found.hits hit e, get_item-some cid found.scores scores e', returns)
            refl,
        ((pass hit _ own.0 (sym own.1) refl refl, all), omega (arith, same)),
      )

module _ {F : Type 0} (floats : Floats F) where
  pub fuse_list-All :
      (P : ℕ → Type 0) (rrf_k rank : ℕ) (ids : List ℕ) (fused : List (ℕ × F))
      → All P ids
      → All (λ (p : ℕ × F). P p.0) fused
      → All (λ (p : ℕ × F). P p.0) (fuse_list floats rrf_k rank ids fused)
  unfolding fuse_list
  fuse_list-All P rrf_k rank [] fused h k = k
  fuse_list-All P rrf_k rank (cid ∷ ids) fused h k =
      fuse_list-All P rrf_k (rank + 1) ids _ h.1
        (update-All (λ (p : ℕ × F). P p.0) cid floats.zero_score _ fused h.0 (λ j v q. q) k)

  pub order_by_score-All :
      (P : ℕ → Type 0) (pairs : List (ℕ × F))
      → All (λ (p : ℕ × F). P p.0) pairs
      → All P (order_by_score floats pairs)
  unfolding order_by_score
  order_by_score-All P pairs h =
      go (sorted (ranked_before floats) pairs)
        (sorted-All (ranked_before floats) (λ (p : ℕ × F). P p.0) pairs h)
    where
      go : (ps : List (ℕ × F)) → All (λ (p : ℕ × F). P p.0) ps → All P (map (λ p. p.0) ps)
      go [] h = tt
      go (p ∷ ps) h = (h.0, go ps h.1)
