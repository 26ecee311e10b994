-- ===== src/Chunking/Sentences/Bounds.antt =====
-- The token counts of sentences: a sentence that is over the limit is cut until it fits.
use rag_knowledge_platform_f.Prelude.{
  ℕ, ◌≤◌, ◌<◌, false, List, [], ◌∷◌, ◌≡◌, inl, inr, map, length, leb, is_empty, slices, slices-le,
  All, All-append, All-slices, refl, arith, tests, Bool-cases,
}
use rag_knowledge_platform_f.Text.{Text, split, join}
use rag_knowledge_platform_f.Text.SplitJoin.{IsWord, split-join, split-IsWord}
use rag_knowledge_platform_f.Chunking.Sentences.{
  Meta, Block, Sentence, estimate_tokens, make_sentence, hard_step, split_hard, pieces_sentences,
  block_sentences, sentences, split_sentences, Scan,
}

-- A sentence is measured by `estimate_tokens`, and within the limit.
abbrev pub IsFitting : ℕ → Sentence → Type 0
IsFitting limit s = (s.tokens ≡ estimate_tokens s.text) × (s.tokens ≤ limit)

estimate_tokens-join :
    (limit : ℕ) (words : List Text)
    → 0 < limit
    → All IsWord words
    → length words ≤ hard_step limit
    → estimate_tokens (join (32 ∷ []) words) ≤ limit
unfolding estimate_tokens hard_step
estimate_tokens-join limit words pos h le = rw (split-join words h) (omega arith)

pieces-IsFitting :
    (limit : ℕ) (meta : Meta) (pieces : List (List Text))
    → 0 < limit
    → All (All IsWord) pieces
    → All (λ p. length p ≤ hard_step limit) pieces
    → All (IsFitting limit) (map (λ piece. make_sentence meta (join (32 ∷ []) piece)) pieces)
unfolding make_sentence
pieces-IsFitting limit meta [] pos h le = tt
pieces-IsFitting limit meta (p ∷ pieces) pos h le = (
  (refl, estimate_tokens-join limit p pos h.0 le.0),
  pieces-IsFitting limit meta pieces pos h.1 le.1,
)

split_hard-IsFitting :
    (limit : ℕ) (meta : Meta) (raw : Text)
    → 0 < limit
    → All (IsFitting limit) (split_hard limit meta raw)
unfolding split_hard
split_hard-IsFitting limit meta raw pos = elim (Bool-cases (is_empty raw)) [
  | inl e ↦ rw e tt
  | inr e ↦ rw e (elim (Bool-cases (leb (estimate_tokens raw) limit)) [
    | inl fits ↦ rw fits ((refl, omega tests), tt)
    | inr over ↦ rw over (
        pieces-IsFitting limit meta (slices (length (split raw)) (hard_step limit) (split raw)) pos
          (All-slices IsWord (length (split raw)) (hard_step limit) (split raw) (split-IsWord raw))
          (slices-le (length (split raw)) (hard_step limit) (split raw)))
  ])
]

pieces_sentences-IsFitting :
    (limit : ℕ) (meta : Meta) (pieces : List Text)
    → 0 < limit
    → All (IsFitting limit) (pieces_sentences limit meta pieces)
unfolding pieces_sentences
pieces_sentences-IsFitting limit meta [] pos = tt
pieces_sentences-IsFitting limit meta (raw ∷ pieces) pos =
    All-append (IsFitting limit) (split_hard limit meta (join (32 ∷ []) (split raw)))
      (pieces_sentences limit meta pieces)
      (split_hard-IsFitting limit meta (join (32 ∷ []) (split raw)) pos)
      (pieces_sentences-IsFitting limit meta pieces pos)

-- With a limit of at least 1, every sentence carries the estimate of its own text, and no sentence
-- is over the limit, whatever the text.
pub sentences-IsFitting :
    (limit : ℕ) (blocks : List Block) → 0 < limit → All (IsFitting limit) (sentences limit blocks)
unfolding sentences
sentences-IsFitting limit [] pos = tt
sentences-IsFitting limit (block ∷ blocks) pos =
    All-append (IsFitting limit) (block_sentences limit block) (sentences limit blocks)
      (unfold block_sentences in
        pieces_sentences-IsFitting limit block.meta
          (split_sentences Scan.outside false [] block.text) pos)
      (sentences-IsFitting limit blocks pos)
