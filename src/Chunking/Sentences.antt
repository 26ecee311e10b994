-- ===== src/Chunking/Sentences.antt =====
-- `_sentences`, `estimate_tokens` and the expression `_SENTENCE_SPLIT_RE` of ingestion/chunking.py.
pub mod Bounds
pub mod Coverage
use rag_knowledge_platform_f.Prelude.{
  ℕ, ◌+◌, ◌*◌, ◌/◌, max, Bool, true, false, ◌&&◌, ◌||◌, not, Option, List, [], ◌∷◌, ◌++◌, map,
  length, ltb, leb, ◌==◌, if◌then◌else◌, is_empty, slices,
}
use rag_knowledge_platform_f.Text.{Text, is_space, split, join}

-- `Block.meta`: a dict with the keys `page` and `headings`, either of which may be missing.
pub record Meta : Type 0 where
  pub page : Option ℕ
  pub headings : Option (List Text)

-- `Block` of ingestion/parsers.py.
pub record Block : Type 0 where
  pub text : Text
  pub meta : Meta

-- `_Sentence`.
pub record Sentence : Type 0 where
  pub text : Text
  pub tokens : ℕ
  pub meta : Meta

-- Where a scan for `(?<=[.!?])\s+|\n{2,}` stands: outside a match, or in one of its two forms.
pub data Scan : Type 0 where
  outside in_spaces in_newlines : Scan

ends_sentence : ℕ → Bool
ends_sentence c = c == b'.' || c == b'!' || c == b'?'

starts_newline : Text → Bool
starts_newline [] = false
starts_newline (c ∷ text) = c == 10

-- The mode at `c`, when the mode before it, the look-behind and the rest of the text are known.
-- Both repetitions are greedy; after either no new match can begin at once.
next_scan : Scan → Bool → ℕ → Text → Scan
next_scan Scan.in_spaces after_end c text = if is_space c then Scan.in_spaces else Scan.outside
next_scan Scan.in_newlines after_end c text = if c == 10 then Scan.in_newlines else Scan.outside
next_scan Scan.outside after_end c text =
    if after_end && is_space c
    then Scan.in_spaces
    else if c == 10 && starts_newline text
    then Scan.in_newlines
    else Scan.outside

-- A match begins here, so the piece before it ends.
begins_match : Scan → Scan → Bool
begins_match Scan.outside Scan.in_spaces = true
begins_match Scan.outside Scan.in_newlines = true
begins_match _ _ = false

extend_piece : Scan → Text → ℕ → Text
extend_piece Scan.outside piece c = piece ++ c ∷ []
extend_piece _ piece c = []

-- `_SENTENCE_SPLIT_RE.split(text)`.
split_sentences : Scan → Bool → Text → Text → List Text
split_sentences scan after_end piece [] = piece ∷ []
split_sentences scan after_end piece (c ∷ text) =
    let scan' = next_scan scan after_end c text in
    let rest = split_sentences scan' (ends_sentence c) (extend_piece scan' piece c) text in
    if begins_match scan scan' then piece ∷ rest else rest

-- `max(1, round(len(text.split()) / 0.75))`: n / 0.75 is 4n/3, which is never half way between two
-- integers, so it is rounded by (8n + 3) / 6.
pub estimate_tokens : Text → ℕ
estimate_tokens text = max 1 ((8 * length (split text) + 3) / 6)

make_sentence : Meta → Text → Sentence
unfolding estimate_tokens
make_sentence meta text = record { text = text; tokens = estimate_tokens text; meta = meta }

-- `max(1, int(hard_limit * 0.75))`.
hard_step : ℕ → ℕ
hard_step hard_limit = max 1 (3 * hard_limit / 4)

-- The body of the loop over the pieces of a block, on `raw` with its whitespace collapsed.
pub split_hard : ℕ → Meta → Text → List Sentence
unfolding make_sentence hard_step slices
split_hard hard_limit meta raw =
    if is_empty raw
    then []
    else if leb (estimate_tokens raw) hard_limit
    then make_sentence meta raw ∷ []
    else let words = split raw in
      map (λ piece. make_sentence meta (join (32 ∷ []) piece))
        (slices (length words) (hard_step hard_limit) words)

pieces_sentences : ℕ → Meta → List Text → List Sentence
unfolding split_hard
pieces_sentences hard_limit meta [] = []
pieces_sentences hard_limit meta (raw ∷ pieces) =
    split_hard hard_limit meta (join (32 ∷ []) (split raw))
    ++ pieces_sentences hard_limit meta pieces

pub block_sentences : ℕ → Block → List Sentence
unfolding pieces_sentences split_sentences next_scan begins_match extend_piece ends_sentence
    starts_newline
block_sentences hard_limit block =
    pieces_sentences hard_limit block.meta (split_sentences Scan.outside false [] block.text)

unfoldable pub sentences : ℕ → List Block → List Sentence
unfolding block_sentences
sentences hard_limit [] = []
sentences hard_limit (block ∷ blocks) =
    block_sentences hard_limit block ++ sentences hard_limit blocks
