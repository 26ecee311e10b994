-- ===== src/Parsers.antt =====
-- ingestion/parsers.py: the scanner of markdown. UTF-8 is a parameter.
pub mod Markdown
pub mod Formats
pub mod Headings
pub mod Outline
pub mod Extracts
use rag_knowledge_platform_f.Prelude.{
  ℕ, zero, suc, ◌+◌, Bool, true, false, ◌&&◌, ◌||◌, not, Option, none, some, List, [], ◌∷◌, ◌++◌,
  map, reverse, length, is_empty, ltb, leb, ◌==◌, if◌then◌else◌,
}
use rag_knowledge_platform_f.Text.{Text, codes, is_space, join, lstrip, strip, text_eq}
use rag_knowledge_platform_f.Errors.{Result, ok, err, rag, parse_error, ◌>>=◌}
use rag_knowledge_platform_f.Chunking.Sentences.{Block}

-- The characters that end a line for `str.splitlines`; a CR and a LF after it end it together.
pub ends_line : ℕ → Bool
ends_line c = (leb 10 c && leb c 13) || (leb 28 c && leb c 30) || c == 133 || c == 8232 || c == 8233

starts_lf : Text → Bool
starts_lf [] = false
starts_lf (c ∷ text) = c == 10

-- `str.splitlines()`, where `line` is the line being read; the text behind the last end of a line is
-- a line if there is any. The CR of a CR LF is passed over, and the LF ends the line.
pub splitlines_from : Text → Text → List Text
unfolding starts_lf
splitlines_from line [] = if is_empty line then [] else line ∷ []
splitlines_from line (c ∷ text) =
    let same = splitlines_from line text in
    let next = splitlines_from [] text in
    let more = splitlines_from (line ++ c ∷ []) text in
    if c == 13 && starts_lf text then same else if ends_line c then line ∷ next else more

pub splitlines : Text → List Text
splitlines text = splitlines_from [] text

-- `_FENCE_RE.match`.
pub is_fence : Text → Bool
is_fence (a ∷ b ∷ c ∷ line) =
    (a == b'`' && b == b'`' && c == b'`') || (a == b'~' && b == b'~' && c == b'~')
is_fence _ = false

-- `#*\s*$` here, and `\s*#*\s*$`.
drop_hashes : Text → Text
drop_hashes [] = []
drop_hashes (c ∷ text) = let rest = drop_hashes text in if c == b'#' then rest else c ∷ text

closes : Text → Bool
unfolding drop_hashes
closes text = is_empty (lstrip (drop_hashes (lstrip text)))

-- `(.+?)\s*#*\s*$` on a text that is not empty: the shortest beginning behind which the rest matches.
lazy_title : Text → Text
unfolding closes
lazy_title [] = []
lazy_title (c ∷ text) = let rest = lazy_title text in if closes text then c ∷ [] else c ∷ rest

-- `\s+(.+?)\s*#*\s*$`, with the title stripped. Of whitespace alone all but one character is matched
-- by `\s+`, if there are two, and the title is empty.
title_after : Text → Option Text
unfolding lazy_title
title_after [] = none
title_after (c ∷ text) =
    if is_space c
    then elim (lstrip text) [
      | [] ↦ if is_empty text then none else some []
      | d ∷ rest ↦ some (strip (lazy_title (d ∷ rest)))
    ]
    else none

-- `_HEADING_RE.match`, with the level and the title of the match; `hashes` counts those read so far.
heading_from : ℕ → Text → Option (ℕ × Text)
unfolding title_after
heading_from hashes [] = none
heading_from hashes (c ∷ line) =
    let more = heading_from (hashes + 1) line in
    if c == b'#'
    then more
    else if leb 1 hashes && leb hashes 6
    then elim (title_after (c ∷ line)) [ none ↦ none | some title ↦ some (hashes, title) ]
    else none

pub heading_of : Text → Option (ℕ × Text)
unfolding heading_from
heading_of line = heading_from 0 line

-- The local state of `_parse_markdown`; the top of the stack comes first.
pub record Scanner : Type 0 where
  pub blocks : List Block
  pub heading_stack : List (ℕ × Text)
  pub buf : List Text
  pub in_fence : Bool

-- The `while` loop on the stack.
pub pop_to : ℕ → List (ℕ × Text) → List (ℕ × Text)
pop_to level [] = []
pop_to level ((n, title) ∷ stack) =
    let rest = pop_to level stack in if leb level n then rest else (n, title) ∷ stack

pub path_of : List (ℕ × Text) → List Text
path_of stack = reverse (map (λ h. h.1) stack)

pub flush : Scanner → Scanner
flush s =
    let text = strip (join (codes "\n") s.buf) in
    if is_empty text then record s { buf = [] } else record s {
      buf = [];
      blocks =
          s.blocks
          ++ record {
            text = text;
            meta = record { page = none; headings = some (path_of s.heading_stack) };
          }
            ∷ [];
    }

pub push_heading : ℕ × Text → Scanner → Scanner
push_heading (level, title) s = record s {
  heading_stack = (level, title) ∷ pop_to level s.heading_stack;
}

pub append_line : Text → Scanner → Scanner
append_line line s = record s { buf = s.buf ++ line ∷ [] }

-- The `match` of a line, which is not looked for in a fence.
pub heading_at : Bool → Text → Option (ℕ × Text)
heading_at in_fence line = if in_fence then none else heading_of line

-- The body of the loop.
pub scan_line : Text → Scanner → Scanner
scan_line line s =
    if is_fence line
    then append_line line (record s { in_fence = not s.in_fence })
    else elim (heading_at s.in_fence line) [
      | none ↦ append_line line s
      | some heading ↦ push_heading heading (flush s)
    ]

pub scan_lines : List Text → Scanner → Scanner
scan_lines [] s = flush s
scan_lines (line ∷ lines) s = scan_lines lines (scan_line line s)

pub initial : Scanner
initial = record { blocks = []; heading_stack = []; buf = []; in_fence = false }

pub no_body : Text
no_body = codes "markdown has no body text (headings alone are not content)"

pub some_blocks : List Block → Result (List Block)
some_blocks [] = err (rag (parse_error no_body))
some_blocks (b ∷ blocks) = ok (b ∷ blocks)

pub decode : (List ℕ → Option Text) → List ℕ → Result Text
decode utf8 raw = elim (utf8 raw) [
  | none ↦ err (rag (parse_error (codes "file is not valid UTF-8 text")))
  | some text ↦ ok text
]

pub parse_markdown : (List ℕ → Option Text) → List ℕ → Result (List Block)
parse_markdown utf8 raw = do
  text ← decode utf8 raw
  let scanned = scan_lines (splitlines text) initial
  some_blocks scanned.blocks
