-- ===== src/Chunking/Contract.antt =====
-- What `chunk_blocks` promises for every document and every setting.
use rag_knowledge_platform_f.Prelude.{
  ℕ, ◌+◌, ◌≤◌, ◌<◌, true, false, List, [], ◌∷◌, ◌++◌, ◌≡◌, refl, sym, ap, ◌∙◌, ◌⊎◌, inl, inr, map,
  length, length-append, All, leb, leb→le, leb→lt, Bool-cases, arith, append-nil,
}
use rag_knowledge_platform_f.Text.{Text, split, join}
use rag_knowledge_platform_f.Text.SplitJoin.{space-is_space, split-append_space}
use rag_knowledge_platform_f.Errors.{ok, err, value_error}
use rag_knowledge_platform_f.Chunking.Sentences.{Block, Sentence, sentences}
use rag_knowledge_platform_f.Chunking.Sentences.Bounds.{sentences-IsFitting}
use rag_knowledge_platform_f.Chunking.Sentences.Coverage.{
  words_of, words_of-append, block_words, words_of-sentences,
}
use rag_knowledge_platform_f.Chunking.Packing.{ChunkDraft, chunk_blocks}
use rag_knowledge_platform_f.Chunking.Packing.Promise.{Packed, done, chunk}
use rag_knowledge_platform_f.Chunking.Packing.Progress.{packs_start}

-- With an overlap below the target, `chunk_blocks` returns, and its chunks are windows of the
-- sentences of the blocks: each chunk is the draft of the carried sentences and at least one new
-- one, all sentences are new in one chunk, in order, a window ends only before a sentence that does
-- not fit the target or at the end, it is over the target only if it is one new sentence behind the
-- overlap. The next window begins with the longest end of it that is within the overlap, or with
-- nothing of it if the whole window is.
pub chunk_blocks-Packed :
    (blocks : List Block) (target overlap : ℕ)
    → overlap < target
    → (ds : List ChunkDraft) × (chunk_blocks blocks target overlap ≡ ok ds)
      × Packed target overlap [] (sentences target blocks) ds
unfolding chunk_blocks
chunk_blocks-Packed blocks target overlap h =
    let fits = sentences-IsFitting target blocks (omega arith) in
    let allowed : leb target overlap ≡ false = ground arith in
    let (ds, runs, packed) = packs_start target overlap (sentences target blocks) fits in
    (ds, rw allowed runs, packed)

-- An overlap that is not below the target is refused.
pub chunk_blocks_refused :
    (blocks : List Block) (target overlap : ℕ)
    → target ≤ overlap
    → chunk_blocks blocks target overlap ≡ err value_error
unfolding chunk_blocks
chunk_blocks_refused blocks target overlap h =
    let refused : leb target overlap ≡ true = ground arith in rw refused

fits-le :
    (target overlap n : ℕ) {k : ℕ}
    → (n ≤ target) ⊎ ((k ≡ 1) × (n ≤ target + overlap))
    → n ≤ target + overlap
fits-le target overlap n h = omega arith

Packed-bounded :
    (target overlap : ℕ) {carried ss : List Sentence} {ds : List ChunkDraft}
    → Packed target overlap carried ss ds
    → All (λ d. d.token_count ≤ target + overlap) ds
Packed-bounded target overlap done = tt
Packed-bounded target overlap
      (chunk new rest carried' d e some_new draft fits full is_carried longest packed) =
    (rw (draft.1) (fits-le target overlap _ fits), Packed-bounded target overlap packed)

-- The drafts are no more than the sentences that are new in them.
Packed-length :
    (target overlap : ℕ) {carried ss : List Sentence} {ds : List ChunkDraft}
    → Packed target overlap carried ss ds
    → length ds ≤ length ss
Packed-length target overlap done = omega arith
Packed-length target overlap
      (chunk [] rest carried' d e some_new draft fits full is_carried longest packed) =
    cc
Packed-length target overlap
      (chunk (n ∷ new) rest carried' d e some_new draft fits full is_carried longest packed) =
    rw e (omega (arith, Packed-length target overlap packed, length-append new rest))

-- No chunk is longer, in estimated tokens, than the target and the overlap together, and there are
-- no more chunks than sentences.
pub chunk_blocks_bounded :
    (blocks : List Block) (target overlap : ℕ) (ds : List ChunkDraft)
    → chunk_blocks blocks target overlap ≡ ok ds
    → All (λ d. d.token_count ≤ target + overlap) ds
      × (length ds ≤ length (sentences target blocks))
chunk_blocks_bounded blocks target overlap ds h = elim (Bool-cases (leb target overlap)) [
  | inl refused ↦ cc (chunk_blocks_refused blocks target overlap (leb→le _ _ refused))
  | inr allowed ↦
      let (ds', runs, packed) = chunk_blocks-Packed blocks target overlap (leb→lt _ _ allowed) in
      let same : ds' ≡ ds = cc in
      rw (← same) (Packed-bounded target overlap packed, Packed-length target overlap packed)
]

-- The words of the chunks: each chunk has the last words of the chunk before it, and behind them the
-- next words of the document.
pub data WordCover : (previous todo : List Text) → List ChunkDraft → Type 0 where
  no_more : {previous : List Text} → WordCover previous [] []
  next :
      {previous todo : List Text} {ds : List ChunkDraft} {d : ChunkDraft}
      (dropped repeated fresh rest : List Text)
      → previous ≡ dropped ++ repeated
      → split d.text ≡ repeated ++ fresh
      → todo ≡ fresh ++ rest
      → WordCover (split d.text) rest ds
      → WordCover previous todo (d ∷ ds)

split-join_texts : (w : List Sentence) → split (join (32 ∷ []) (map (λ s. s.text) w)) ≡ words_of w
unfolding join
split-join_texts [] = unfold split in refl
split-join_texts (s ∷ []) = sym (append-nil (split s.text))
split-join_texts (s ∷ t ∷ w) =
    split-append_space s.text 32 (join (32 ∷ []) (map (λ (r : Sentence). r.text) (t ∷ w)))
      space-is_space
    ∙ ap (λ ws. split s.text ++ ws) (split-join_texts (t ∷ w))

Packed-WordCover :
    (target overlap : ℕ) {carried ss : List Sentence} {ds : List ChunkDraft}
    (previous dropped : List Text)
    → previous ≡ dropped ++ words_of carried
    → Packed target overlap carried ss ds
    → WordCover previous (words_of ss) ds
Packed-WordCover target overlap previous dropped e done = no_more
Packed-WordCover target overlap {carried} previous dropped e
      (chunk new rest carried' d parts some_new draft fits full is_carried longest packed) =
    let words : split d.text ≡ words_of carried ++ words_of new =
      ap split draft.0 ∙ split-join_texts (carried ++ new) ∙ words_of-append carried new in
    let tail : split d.text ≡ words_of is_carried.dropped ++ words_of carried' =
      ap split draft.0
      ∙ split-join_texts (carried ++ new)
      ∙ ap words_of (sym is_carried.suffix)
      ∙ words_of-append is_carried.dropped carried' in
    next dropped (words_of carried) (words_of new) (words_of rest) e words
      (ap words_of parts ∙ words_of-append new rest)
      (Packed-WordCover target overlap (split d.text) (words_of is_carried.dropped) tail packed)

-- The chunks hold every word of the blocks, in order and uncut: a chunk is some last words of the
-- chunk before it, followed by the words that come next in the document.
pub chunk_blocks-WordCover :
    (blocks : List Block) (target overlap : ℕ) (ds : List ChunkDraft)
    → chunk_blocks blocks target overlap ≡ ok ds
    → WordCover [] (block_words blocks) ds
chunk_blocks-WordCover blocks target overlap ds h = elim (Bool-cases (leb target overlap)) [
  | inl refused ↦ cc (chunk_blocks_refused blocks target overlap (leb→le _ _ refused))
  | inr allowed ↦
      let (ds', runs, packed) = chunk_blocks-Packed blocks target overlap (leb→lt _ _ allowed) in
      let same : ds' ≡ ds = cc in
      rw (← same, ← words_of-sentences target blocks)
        (Packed-WordCover target overlap [] [] refl packed)
]
