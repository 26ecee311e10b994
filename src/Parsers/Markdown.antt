-- ===== src/Parsers/Markdown.antt =====
-- The words of a markdown file: what the blocks hold of it.
use rag_knowledge_platform_f.Prelude.{
  ℕ, Bool, true, false, not, Option, none, some, List, [], ◌∷◌, ◌++◌, ◌≡◌, refl, sym, ap, ◌∙◌,
  is_empty, append_assoc, append-nil, subst, arith, Bool-cases, inl, inr, if◌then◌else◌,
}
use rag_knowledge_platform_f.Text.{Text, codes, split, join, strip}
use rag_knowledge_platform_f.Text.Stripped.{split-strip, line_words, split-join_lines, split_nil}
use rag_knowledge_platform_f.Errors.{Result, ◌>>=◌, ok, err, rag, parse_error}
use rag_knowledge_platform_f.Chunking.Sentences.{Block}
use rag_knowledge_platform_f.Parsers.{
  splitlines, is_fence, heading_at, Scanner, flush, push_heading, append_line, scan_line,
  scan_lines, initial, parse_markdown, decode, some_blocks, no_body,
}

-- The lines that are not headings; a line that looks like one is none in a fence.
abbrev pub body_lines : Bool → List Text → List Text
body_lines in_fence [] = []
body_lines in_fence (line ∷ lines) =
    let toggled = body_lines (not in_fence) lines in
    let rest = body_lines in_fence lines in
    if is_fence line
    then line ∷ toggled
    else elim (heading_at in_fence line) [ none ↦ line ∷ rest | some heading ↦ rest ]

abbrev pub block_words : List Block → List Text
block_words [] = []
block_words (b ∷ blocks) = split b.text ++ block_words blocks

block_words-append :
    (xs ys : List Block) → block_words (xs ++ ys) ≡ block_words xs ++ block_words ys
block_words-append [] ys = refl
block_words-append (a ∷ xs) ys =
    ap (λ ws. split a.text ++ ws) (block_words-append xs ys)
    ∙ sym (append_assoc (split a.text) (block_words xs) (block_words ys))

line_words-append : (xs ys : List Text) → line_words (xs ++ ys) ≡ line_words xs ++ line_words ys
line_words-append [] ys = refl
line_words-append (a ∷ xs) ys =
    ap (λ ws. split a ++ ws) (line_words-append xs ys)
    ∙ sym (append_assoc (split a) (line_words xs) (line_words ys))

-- The words that the scanner has read so far.
abbrev words : Scanner → List Text
words s = block_words s.blocks ++ line_words s.buf

buf_words : (s : Scanner) → split (strip (join (codes "\n") s.buf)) ≡ line_words s.buf
buf_words s = split-strip (join (codes "\n") s.buf) ∙ split-join_lines s.buf

blank_words : (text : Text) → is_empty text ≡ true → split text ≡ []
blank_words [] h = split_nil
blank_words (c ∷ text) h = absurd (ground arith)

words-flush : (s : Scanner) → block_words (flush s).blocks ≡ words s
unfolding flush
words-flush s = elim (Bool-cases (is_empty (strip (join (codes "\n") s.buf)))) [
  | inl blank ↦ rw blank (
      sym (append-nil (block_words s.blocks))
      ∙ ap (λ ws. block_words s.blocks ++ ws) (sym (blank_words _ blank) ∙ buf_words s))
  | inr text ↦ rw text (
      block_words-append s.blocks _
      ∙ ap (λ ws. block_words s.blocks ++ ws) (append-nil _ ∙ buf_words s))
]

words-append_line : (line : Text) (s : Scanner) → words (append_line line s) ≡ words s ++ split line
unfolding append_line
words-append_line line s =
    ap (λ ws. block_words s.blocks ++ ws)
      (line_words-append s.buf (line ∷ [])
        ∙ ap (λ ws. line_words s.buf ++ ws) (append-nil (split line)))
    ∙ sym (append_assoc (block_words s.blocks) (line_words s.buf) (split line))

flush_empties : (s : Scanner) → ((flush s).buf ≡ []) × ((flush s).in_fence ≡ s.in_fence)
unfolding flush
flush_empties s = elim (Bool-cases (is_empty (strip (join (codes "\n") s.buf)))) [
  | inl blank ↦ rw blank (refl, refl)
  | inr text ↦ rw text (refl, refl)
]

heading_words :
    (heading : ℕ × Text) (s : Scanner)
    → (words (push_heading heading (flush s)) ≡ words s)
      × ((push_heading heading (flush s)).in_fence ≡ s.in_fence)
unfolding push_heading
heading_words (level, title) s = (
  ap (λ b. block_words (flush s).blocks ++ line_words b) (flush_empties s).0
      ∙ append-nil (block_words (flush s).blocks)
      ∙ words-flush s,
  (flush_empties s).1,
)

-- What a line adds to the words read, and what is left to read behind it.
abbrev Steps : Text → List Text → Scanner → Type 0
Steps line lines s =
    words (scan_line line s) ++ line_words (body_lines (scan_line line s).in_fence lines)
    ≡ words s ++ line_words (body_lines s.in_fence (line ∷ lines))

plain_step :
    (line : Text) (lines : List Text) (s : Scanner) (in_fence : Bool)
    → words (append_line line s) ++ line_words (body_lines in_fence lines)
      ≡ words s ++ (split line ++ line_words (body_lines in_fence lines))
plain_step line lines s in_fence =
    ap (λ ws. ws ++ line_words (body_lines in_fence lines)) (words-append_line line s)
    ∙ append_assoc (words s) (split line) (line_words (body_lines in_fence lines))

unfenced_step :
    (line : Text) (lines : List Text) (s : Scanner) (o : Option (ℕ × Text))
    → is_fence line ≡ false
    → heading_at s.in_fence line ≡ o
    → Steps line lines s
unfolding scan_line append_line
unfenced_step line lines s none h e = rw (h, e) (plain_step line lines s s.in_fence)
unfenced_step line lines s (some heading) h e =
    rw (h, e)
      (let (same, fence) = heading_words heading s in
        ap (λ ws. ws ++ line_words (body_lines (push_heading heading (flush s)).in_fence lines))
          same
        ∙ ap (λ b. words s ++ line_words (body_lines b lines)) fence)

line_step : (line : Text) (lines : List Text) (s : Scanner) → Steps line lines s
line_step line lines s = elim (Bool-cases (is_fence line)) [
  | inl fence ↦
      unfold scan_line append_line in
      rw fence (plain_step line lines (record s { in_fence = not s.in_fence }) (not s.in_fence))
  | inr plain ↦ unfenced_step line lines s (heading_at s.in_fence line) plain refl
]

words-scan_lines :
    (lines : List Text) (s : Scanner)
    → block_words (scan_lines lines s).blocks ≡ words s ++ line_words (body_lines s.in_fence lines)
unfolding scan_lines
words-scan_lines [] s = words-flush s ∙ sym (append-nil (words s))
words-scan_lines (line ∷ lines) s =
    words-scan_lines lines (scan_line line s) ∙ line_step line lines s

-- What comes of a text: blocks with some words, or the error.
abbrev pub Parsed : List Text → Result (List Block) → Type 0
Parsed ws (ok blocks) = block_words blocks ≡ ws
Parsed ws (err e) = (e ≡ rag (parse_error no_body)) × (ws ≡ [])

some_blocks-Parsed :
    (ws : List Text) (blocks : List Block)
    → block_words blocks ≡ ws
    → Parsed ws (some_blocks blocks)
unfolding some_blocks
some_blocks-Parsed ws [] h = (refl, sym h)
some_blocks-Parsed ws (b ∷ blocks) h = h

decode-some :
    (utf8 : List ℕ → Option Text) (raw : List ℕ) (text : Text)
    → utf8 raw ≡ some text
    → decode utf8 raw ≡ ok text
unfolding decode
decode-some utf8 raw text e = rw (e, decode) refl

parse_decoded :
    (utf8 : List ℕ → Option Text) (raw : List ℕ) (text : Text)
    → utf8 raw ≡ some text
    → parse_markdown utf8 raw ≡ some_blocks (scan_lines (splitlines text) initial).blocks
unfolding parse_markdown
parse_decoded utf8 raw text e =
    ap (λ (r : Result Text). r >>= (λ t. some_blocks (scan_lines (splitlines t) initial).blocks))
      (decode-some utf8 raw text e)

-- The blocks of a markdown file hold exactly the words of its lines that are not headings, in order,
-- and it is refused only if those lines have no words.
pub parse_markdown-Parsed :
    (utf8 : List ℕ → Option Text) (raw : List ℕ) (text : Text)
    → utf8 raw ≡ some text
    → Parsed (line_words (body_lines false (splitlines text))) (parse_markdown utf8 raw)
unfolding initial
parse_markdown-Parsed utf8 raw text e =
    let ws = line_words (body_lines false (splitlines text)) in
    subst (Parsed ws) (sym (parse_decoded utf8 raw text e)) (
      some_blocks-Parsed ws (scan_lines (splitlines text) initial).blocks
        (words-scan_lines (splitlines text) initial))
