-- ===== src/Chunking/Sentences/Coverage.antt =====
-- Splitting loses, repeats and moves no word.
use rag_knowledge_platform_f.Prelude.{
  ℕ, ◌<◌, Bool, true, false, ◌&&◌, ◌==◌, eqb→eq, sym, if◌then◌else◌, List, [], ◌∷◌, ◌++◌, ◌≡◌, refl,
  ap, ◌∙◌, inl, inr, map, length, leb, slices, concat, concat-slices, All, All-slices, arith,
  Bool-cases, append_assoc, append-nil,
}
use rag_knowledge_platform_f.Text.{Text, is_space, split, join}
use rag_knowledge_platform_f.Text.SplitJoin.{
  IsWord, split-join, split-IsWord, split-append_space, split_space,
}
use rag_knowledge_platform_f.Chunking.Sentences.{
  Meta, Block, Sentence, estimate_tokens, make_sentence, hard_step, split_hard, pieces_sentences,
  block_sentences, sentences, split_sentences, Scan, next_scan, begins_match, extend_piece,
  ends_sentence, starts_newline,
}

-- The words of a list of sentences, in order.
abbrev pub words_of : List Sentence → List Text
words_of [] = []
words_of (s ∷ ss) = split s.text ++ words_of ss

-- The words of a list of texts, in order.
abbrev pub text_words : List Text → List Text
text_words [] = []
text_words (t ∷ ts) = split t ++ text_words ts

pub words_of-append : (ss ts : List Sentence) → words_of (ss ++ ts) ≡ words_of ss ++ words_of ts
words_of-append [] ts = refl
words_of-append (s ∷ ss) ts = rw (words_of-append ss ts) (sym (append_assoc (split s.text) _ _))

words_of-pieces :
    (meta : Meta) (pieces : List (List Text))
    → All (All IsWord) pieces
    → words_of (map (λ piece. make_sentence meta (join (32 ∷ []) piece)) pieces) ≡ concat pieces
unfolding make_sentence
words_of-pieces meta [] h = refl
words_of-pieces meta (p ∷ pieces) h = rw (split-join p h.0, words_of-pieces meta pieces h.1)

hard_step-pos : (limit : ℕ) → 0 < hard_step limit
unfolding hard_step
hard_step-pos limit = omega arith

words_of-split_hard :
    (limit : ℕ) (meta : Meta) (raw : Text) → words_of (split_hard limit meta raw) ≡ split raw
unfolding split_hard
words_of-split_hard limit meta [] = unfold split in refl
words_of-split_hard limit meta (c ∷ raw) =
    elim (Bool-cases (leb (estimate_tokens (c ∷ raw)) limit)) [
      | inl fits ↦ rw fits (append-nil (split (c ∷ raw)))
      | inr over ↦
          let words = split (c ∷ raw) in
          rw over (
            words_of-pieces meta (slices (length words) (hard_step limit) words)
              (All-slices IsWord (length words) (hard_step limit) words (split-IsWord (c ∷ raw)))
            ∙ concat-slices (length words) (hard_step limit) words (omega arith)
                (hard_step-pos limit))
    ]

words_of-pieces_sentences :
    (limit : ℕ) (meta : Meta) (pieces : List Text)
    → words_of (pieces_sentences limit meta pieces) ≡ text_words pieces
unfolding pieces_sentences
words_of-pieces_sentences limit meta [] = refl
words_of-pieces_sentences limit meta (raw ∷ pieces) =
    words_of-append (split_hard limit meta (join (32 ∷ []) (split raw)))
      (pieces_sentences limit meta pieces)
    ∙ rw (
      words_of-split_hard limit meta (join (32 ∷ []) (split raw)),
      split-join (split raw) (split-IsWord raw),
      words_of-pieces_sentences limit meta pieces,
    )

newline-is_space : (c : ℕ) → (c == 10) ≡ true → is_space c ≡ true
unfolding is_space
newline-is_space c h = rw (eqb→eq c 10 h)

-- A scan that moves into a match has read whitespace.
abbrev Moves : Scan → ℕ → Type 0
Moves Scan.outside c = Unit
Moves Scan.in_spaces c = is_space c ≡ true
Moves Scan.in_newlines c = is_space c ≡ true

next_scan-Moves :
    (scan : Scan) (after_end : Bool) (c : ℕ) (text : Text)
    → Moves (next_scan scan after_end c text) c
unfolding next_scan
next_scan-Moves Scan.in_spaces after_end c text = elim (Bool-cases (is_space c)) [
  | inl space ↦ rw space space
  | inr letter ↦ rw letter tt
]
next_scan-Moves Scan.in_newlines after_end c text = elim (Bool-cases (c == 10)) [
  | inl newline ↦ rw newline (newline-is_space c newline)
  | inr other ↦ rw other tt
]
next_scan-Moves Scan.outside after_end c text = elim (Bool-cases (after_end && is_space c)) [
  | inl matched ↦ rw matched (ground arith)
  | inr unmatched ↦ rw unmatched (elim (Bool-cases (c == 10 && starts_newline text)) [
    | inl newlines ↦ rw newlines (newline-is_space c (ground arith))
    | inr other ↦ rw other tt
  ])
]

-- Inside a match no piece is being read.
abbrev IsAt : Scan → Text → Type 0
IsAt Scan.outside piece = Unit
IsAt Scan.in_spaces piece = piece ≡ []
IsAt Scan.in_newlines piece = piece ≡ []

abbrev Covers : Scan → Bool → Text → Text → Type 0
Covers scan after_end piece text =
    text_words (split_sentences scan after_end piece text) ≡ split (piece ++ text)

-- One character, when the scan moves to the mode `scan'`.
scan_step :
    (scan scan' : Scan) (piece : Text) (c : ℕ) (text : Text)
    → IsAt scan piece
    → Moves scan' c
    → ((p : Text) → IsAt scan' p → Covers scan' (ends_sentence c) p text)
    → text_words (
        let rest = split_sentences scan' (ends_sentence c) (extend_piece scan' piece c) text in
        if begins_match scan scan' then piece ∷ rest else rest)
      ≡ split (piece ++ c ∷ text)
unfolding begins_match extend_piece
scan_step Scan.outside Scan.outside piece c text at mv ih =
    ih (piece ++ c ∷ []) tt ∙ ap split (append_assoc piece (c ∷ []) text)
scan_step Scan.outside Scan.in_spaces piece c text at mv ih =
    rw (ih [] refl) (sym (split-append_space piece c text mv))
scan_step Scan.outside Scan.in_newlines piece c text at mv ih =
    rw (ih [] refl) (sym (split-append_space piece c text mv))
scan_step Scan.in_spaces Scan.outside piece c text at mv ih = rw at (ih (c ∷ []) tt)
scan_step Scan.in_newlines Scan.outside piece c text at mv ih = rw at (ih (c ∷ []) tt)
scan_step Scan.in_spaces Scan.in_spaces piece c text at mv ih =
    rw at (ih [] refl ∙ sym (split_space c text mv))
scan_step Scan.in_spaces Scan.in_newlines piece c text at mv ih =
    rw at (ih [] refl ∙ sym (split_space c text mv))
scan_step Scan.in_newlines Scan.in_spaces piece c text at mv ih =
    rw at (ih [] refl ∙ sym (split_space c text mv))
scan_step Scan.in_newlines Scan.in_newlines piece c text at mv ih =
    rw at (ih [] refl ∙ sym (split_space c text mv))

text_words-split_sentences :
    (scan : Scan) (after_end : Bool) (piece text : Text)
    → IsAt scan piece
    → Covers scan after_end piece text
unfolding split_sentences
text_words-split_sentences scan after_end piece [] at =
    append-nil (split piece) ∙ ap split (sym (append-nil piece))
text_words-split_sentences scan after_end piece (c ∷ text) at =
    scan_step scan (next_scan scan after_end c text) piece c text at
      (next_scan-Moves scan after_end c text)
      (λ p at'.
        text_words-split_sentences (next_scan scan after_end c text) (ends_sentence c) p text at')

words_of-block_sentences :
    (limit : ℕ) (block : Block) → words_of (block_sentences limit block) ≡ split block.text
unfolding block_sentences
words_of-block_sentences limit block =
    words_of-pieces_sentences limit block.meta (split_sentences Scan.outside false [] block.text)
    ∙ text_words-split_sentences Scan.outside false [] block.text tt

-- The words of the blocks, in order.
abbrev pub block_words : List Block → List Text
block_words [] = []
block_words (block ∷ blocks) = split block.text ++ block_words blocks

-- Whatever the blocks and the limit, the words of the sentences, one sentence after the other, are
-- the words of the blocks: no word is lost, repeated, cut or moved.
pub words_of-sentences :
    (limit : ℕ) (blocks : List Block) → words_of (sentences limit blocks) ≡ block_words blocks
unfolding sentences
words_of-sentences limit [] = refl
words_of-sentences limit (block ∷ blocks) =
    words_of-append (block_sentences limit block) (sentences limit blocks)
    ∙ rw (words_of-block_sentences limit block, words_of-sentences limit blocks)
