-- ===== src/Retrieval/Fusion.antt =====
-- Reciprocal rank fusion against a reference: the sum of the reciprocals of a chunk's ranks.
use rag_knowledge_platform_f.Prelude.{
  ℕ, ◌+◌, Option, none, some, List, [], ◌∷◌, ◌++◌, ◌≡◌, refl, sym, ap, ◌∙◌, ◌==◌, if◌then◌else◌,
  inl, inr, Bool-cases, eqb→eq,
}
use rag_knowledge_platform_f.Retrieval.Repository.{Floats}
use rag_knowledge_platform_f.Retrieval.Dicts.{value_or, get-update}
use rag_knowledge_platform_f.Retrieval.{get, fuse_list, fuse}

module _ {F : Type 0} (floats : Floats F) where
  -- The terms that a ranked list, from `rank` on, adds for a chunk: one for each place that it has,
  -- the reciprocal of the constant plus the place counted from 1.
  pub terms : (rrf_k cid rank : ℕ) → List ℕ → List F
  terms rrf_k cid rank [] = []
  terms rrf_k cid rank (c ∷ ids) =
      let rest = terms rrf_k cid (rank + 1) ids in
      if c == cid then floats.reciprocal (rrf_k + rank + 1) ∷ rest else rest

  pub all_terms : (rrf_k cid : ℕ) → List (List ℕ) → List F
  all_terms rrf_k cid [] = []
  all_terms rrf_k cid (ids ∷ lists) = terms rrf_k cid 0 ids ++ all_terms rrf_k cid lists

  -- The sum from the left, and nothing at all for no terms.
  pub sum_terms : Option F → List F → Option F
  sum_terms total [] = total
  sum_terms total (x ∷ xs) = sum_terms (some (floats.plus (value_or floats.zero_score total) x)) xs

  sum_terms-append :
      (total : Option F) (xs ys : List F)
      → sum_terms total (xs ++ ys) ≡ sum_terms (sum_terms total xs) ys
  unfolding sum_terms
  sum_terms-append total [] ys = refl
  sum_terms-append total (x ∷ xs) ys =
      sum_terms-append (some (floats.plus (value_or floats.zero_score total) x)) xs ys

  get-fuse_list :
      (rrf_k cid rank : ℕ) (ids : List ℕ) (fused : List (ℕ × F))
      → get cid (fuse_list floats rrf_k rank ids fused)
        ≡ sum_terms (get cid fused) (terms rrf_k cid rank ids)
  unfolding fuse_list terms sum_terms
  get-fuse_list rrf_k cid rank [] fused = refl
  get-fuse_list rrf_k cid rank (c ∷ ids) fused =
      get-fuse_list rrf_k cid (rank + 1) ids _ ∙ elim (Bool-cases (c == cid)) [
        | inl own ↦ rw (get-update cid c floats.zero_score _ fused, own, eqb→eq c cid own) refl
        | inr other ↦ rw (get-update cid c floats.zero_score _ fused, other) refl
      ]

  get-fuse_from :
      (rrf_k cid : ℕ) (lists : List (List ℕ)) (fused : List (ℕ × F))
      → get cid (fuse floats rrf_k lists fused)
        ≡ sum_terms (get cid fused) (all_terms rrf_k cid lists)
  unfolding fuse all_terms
  get-fuse_from rrf_k cid [] fused = unfold sum_terms in refl
  get-fuse_from rrf_k cid (ids ∷ lists) fused =
      get-fuse_from rrf_k cid lists (fuse_list floats rrf_k 0 ids fused)
      ∙ ap (λ total. sum_terms total (all_terms rrf_k cid lists))
          (get-fuse_list rrf_k cid 0 ids fused)
      ∙ sym (sum_terms-append (get cid fused) (terms rrf_k cid 0 ids) (all_terms rrf_k cid lists))

  -- The fused score of a chunk is the sum, in the order of the lists, of 1 / (rrf_k + r) over its
  -- ranks r counted from 1, and it has none where it has no rank.
  pub get-fuse :
      (rrf_k cid : ℕ) (lists : List (List ℕ))
      → get cid (fuse floats rrf_k lists []) ≡ sum_terms none (all_terms rrf_k cid lists)
  get-fuse rrf_k cid lists = unfold get in get-fuse_from rrf_k cid lists []
