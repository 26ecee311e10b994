-- ===== src/Chunking/Packing/Progress.antt =====
-- The loop of `chunk_blocks` yields the windows that `Packed` describes, and never raises.
use rag_knowledge_platform_f.Prelude.{
  ℕ, ◌+◌, ◌≤◌, true, false, List, [], ◌∷◌, ◌++◌, ◌≡◌, refl, sym, ap, ◌∙◌, inl, inr, is_empty,
  is_empty-append, All, ltb, ltb→lt, ltb→le, arith, Bool-cases, append_assoc,
}
use rag_knowledge_platform_f.Errors.{Result, ok, ◌>>=◌}
use rag_knowledge_platform_f.Chunking.Sentences.{Sentence}
use rag_knowledge_platform_f.Chunking.Sentences.Bounds.{IsFitting}
use rag_knowledge_platform_f.Chunking.Packing.{
  ChunkDraft, sum_tokens, Packer, carry_over, pack_sentence, append_sentence, pack, finish, start,
}
use rag_knowledge_platform_f.Chunking.Packing.Promise.{IsDraft, Fits, Packed, done, chunk}
use rag_knowledge_platform_f.Chunking.Packing.Windows.{
  sum_tokens-append, carry_over-IsCarried, carry_over-IsLongest, filling, emit_lem,
  pack_sentence_fits, pack_sentence_emits,
}

-- What is left to do, from the state in which the window `w` is being filled.
abbrev run : ℕ → ℕ → List Sentence → Packer → Result (List ChunkDraft)
run target overlap ss p = pack target overlap ss p >>= finish overlap

run-finish :
    (target overlap : ℕ) (chunks : List ChunkDraft) (w : List Sentence)
    → is_empty w ≡ false
    → (d : ChunkDraft) × IsDraft w d
      × (run target overlap [] (filling chunks w) ≡ ok (chunks ++ d ∷ []))
unfolding pack finish
run-finish target overlap chunks w h =
    let (d, draft, emitted) = emit_lem false overlap chunks w h in (d, draft, rw emitted)

run-step :
    (target overlap : ℕ) (s : Sentence) (ss : List Sentence) (p q : Packer)
    → pack_sentence target overlap s p ≡ ok q
    → run target overlap (s ∷ ss) p ≡ run target overlap ss q
unfolding pack
run-step target overlap s ss p q e = rw e

-- A sentence behind the overlap alone.
Fits-single :
    (target overlap : ℕ) (carried : List Sentence) (s : Sentence)
    → s.tokens ≤ target
    → sum_tokens carried ≤ overlap
    → Fits target overlap carried (s ∷ [])
Fits-single target overlap carried s fits within =
    inr (refl, rw (sum_tokens-append carried (s ∷ [])) (unfold sum_tokens in omega arith))

sum_tokens-snoc :
    (carried new : List Sentence) (s : Sentence)
    → sum_tokens (carried ++ (new ++ s ∷ [])) ≡ sum_tokens (carried ++ new) + s.tokens
sum_tokens-snoc carried new s =
    ap sum_tokens (sym (append_assoc carried new (s ∷ [])))
    ∙ sum_tokens-append (carried ++ new) (s ∷ [])
    ∙ unfold sum_tokens in omega arith

module _ (target overlap : ℕ) where
  abbrev Packs : List Sentence → List Sentence → List Sentence → List ChunkDraft → Type 0
  Packs ss carried new chunks =
      (ds : List ChunkDraft) × (run target overlap ss (filling chunks (carried ++ new))
        ≡ ok (chunks ++ ds))
      × Packed target overlap carried (new ++ ss) ds

  packs :
      (ss carried new : List Sentence) (chunks : List ChunkDraft)
      → is_empty new ≡ false
      → Fits target overlap carried new
      → All (IsFitting target) ss
      → Packs ss carried new chunks
  packs [] carried new chunks some_new fits h =
      let w_full = is_empty-append carried new some_new in
      let (d, draft, runs) = run-finish target overlap chunks (carried ++ new) w_full in
      (
        d ∷ [],
        runs,
        chunk new [] (carry_over false overlap (carried ++ new)) d refl some_new draft fits tt
            (carry_over-IsCarried false overlap (carried ++ new) w_full) (unfold carry_over in refl)
            done,
      )
  packs (s ∷ ss) carried new chunks some_new fits h =
      elim (Bool-cases (ltb target (sum_tokens (carried ++ new) + s.tokens))) [
        | inl over ↦
            let w = carried ++ new in
            let w_full = is_empty-append carried new some_new in
            let next = carry_over true overlap w in
            let is_carried = carry_over-IsCarried true overlap w w_full in
            let (d, draft, step) =
              pack_sentence_emits target overlap s chunks w w_full (ltb→lt _ _ over) in
            let (ds, runs, packed) =
              packs ss next (s ∷ []) (chunks ++ d ∷ []) refl
                (Fits-single target overlap next s h.0.1 is_carried.within) h.1 in
            (
              d ∷ ds,
              run-step target overlap s ss _ _ step
                  ∙ runs
                  ∙ ap ok (append_assoc chunks (d ∷ []) ds),
              chunk new (s ∷ ss) next d refl some_new draft fits (ltb→lt _ _ over) is_carried
                  (carry_over-IsLongest overlap w ss s) packed,
            )
        | inr below ↦
            let step =
              pack_sentence_fits target overlap s chunks (carried ++ new)
                (inr (ltb→le _ _ below)) in
            let (ds, runs, packed) =
              packs ss carried (new ++ s ∷ []) chunks (is_empty-append new (s ∷ []) refl)
                (inl (rw (sum_tokens-snoc carried new s) (ltb→le _ _ below))) h.1 in
            (
              ds,
              run-step target overlap s ss _ _ step
                  ∙ ap (λ w. run target overlap ss (filling chunks w))
                      (append_assoc carried new (s ∷ []))
                  ∙ runs,
              rw (append_assoc new (s ∷ []) ss) at packed,
            )
      ]

-- The first sentence opens the first window.
first_step :
    (target overlap : ℕ) (s : Sentence)
    → pack_sentence target overlap s start ≡ ok (filling [] (s ∷ []))
first_step target overlap s =
    unfold pack_sentence start append_sentence sum_tokens in
    ap (λ n. ok (record { chunks = []; current = s ∷ []; current_tokens = n; has_new = true }))
      (omega arith)

pub packs_start :
    (target overlap : ℕ) (ss : List Sentence)
    → All (IsFitting target) ss
    → (ds : List ChunkDraft) × (run target overlap ss start ≡ ok ds)
      × Packed target overlap [] ss ds
packs_start target overlap [] h = ([], unfold pack finish start in refl, done)
packs_start target overlap (s ∷ ss) h =
    let first_fits : Fits target overlap [] (s ∷ []) =
      inl (unfold sum_tokens in omega (arith, h.0.1)) in
    let (ds, runs, packed) = packs target overlap ss [] (s ∷ []) [] refl first_fits h.1 in
    (ds, run-step target overlap s ss start _ (first_step target overlap s) ∙ runs, packed)
