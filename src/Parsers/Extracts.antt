-- ===== src/Parsers/Extracts.antt =====
-- What the parsers give: blocks, or an exception.
use rag_knowledge_platform_f.Prelude.{
  ℕ, ◌+◌, false, Option, none, some, List, [], ◌∷◌, ◌≡◌, refl, ap, ◌∙◌, subst, is_empty, All,
  All-append, if◌then◌else◌, Bool-cases, inl, inr, Option-cases,
}
use rag_knowledge_platform_f.Text.{Text, codes, strip, join}
use rag_knowledge_platform_f.Text.Stripped.{HasLetter, strip-HasLetter}
use rag_knowledge_platform_f.Errors.{Result, ok, err, Exc, rag, parse_error, ◌>>=◌}
use rag_knowledge_platform_f.Chunking.Sentences.{Block}
use rag_knowledge_platform_f.Database.{SourceType}
use rag_knowledge_platform_f.Parsers.{
  Scanner, flush, append_line, push_heading, heading_at, scan_line, scan_lines, initial,
  some_blocks, decode, parse_markdown, splitlines, is_fence, no_body,
}
use rag_knowledge_platform_f.Parsers.Formats.{
  HtmlParser, heading_tags, text_tags, is_in, html_blocks, some_html, soup_or, parse_html,
  pdf_blocks, pdf_error, some_pdf, parse_pdf, parse_document,
}

-- The texts of the blocks are not blank: each has a character that is not a space.
abbrev pub HaveText : List Block → Type 0
HaveText blocks = All (λ b. HasLetter b.text) blocks

abbrev pub IsParseError : Exc → Type 0
IsParseError e = (message : Text) × (e ≡ rag (parse_error message))

-- Some blocks with text, or a `ParseError`.
abbrev pub Extracts : Result (List Block) → Type 0
Extracts (ok blocks) = (is_empty blocks ≡ false) × HaveText blocks
Extracts (err e) = IsParseError e

flush-HaveText : (s : Scanner) → HaveText s.blocks → HaveText (flush s).blocks
unfolding flush
flush-HaveText s h = elim (Bool-cases (is_empty (strip (join (codes "\n") s.buf)))) [
  | inl blank ↦ rw blank h
  | inr text ↦ rw text (
      All-append (λ b. HasLetter b.text) s.blocks _ h
        (strip-HasLetter (join (codes "\n") s.buf) text, tt))
]

scan_line-HaveText :
    (line : Text) (s : Scanner) → HaveText s.blocks → HaveText (scan_line line s).blocks
unfolding scan_line append_line push_heading
scan_line-HaveText line s h = elim (Bool-cases (is_fence line)) [
  | inl fence ↦ rw fence h
  | inr other ↦ elim (Option-cases (heading_at s.in_fence line)) [
    | inl body ↦ rw (other, body) h
    | inr (heading, found) ↦ rw (other, found) (flush-HaveText s h)
  ]
]

scan_lines-HaveText :
    (lines : List Text) (s : Scanner) → HaveText s.blocks → HaveText (scan_lines lines s).blocks
unfolding scan_lines
scan_lines-HaveText [] s h = flush-HaveText s h
scan_lines-HaveText (line ∷ lines) s h =
    scan_lines-HaveText lines (scan_line line s) (scan_line-HaveText line s h)

some_blocks-Extracts : (blocks : List Block) → HaveText blocks → Extracts (some_blocks blocks)
unfolding some_blocks
some_blocks-Extracts [] h = (no_body, refl)
some_blocks-Extracts (b ∷ blocks) h = (refl, h)

-- A call that a parser begins with, whose exceptions are `ParseError`s.
abbrev pub Reads : {A : Type 0} → Result A → Type 0
Reads (ok a) = Unit
Reads (err e) = IsParseError e

bind-Extracts :
    {A : Type 0} (r : Result A) (k : A → Result (List Block))
    → Reads r
    → ((a : A) → Extracts (k a))
    → Extracts (r >>= k)
bind-Extracts (ok a) k h next = next a
bind-Extracts (err e) k h next = h

decode-Reads : (utf8 : List ℕ → Option Text) (raw : List ℕ) → Reads (decode utf8 raw)
unfolding decode
decode-Reads utf8 raw =
    elim (utf8 raw)
      as (λ o. Reads (elim o as (λ x. Result Text) [
        | none ↦ err (rag (parse_error (codes "file is not valid UTF-8 text")))
        | some text ↦ ok text
      ])) [ none ↦ (_, refl) | some text ↦ tt ]

markdown-Extracts :
    (utf8 : List ℕ → Option Text) (raw : List ℕ) → Extracts (parse_markdown utf8 raw)
unfolding parse_markdown initial
markdown-Extracts utf8 raw =
    bind-Extracts (decode utf8 raw) _ (decode-Reads utf8 raw)
      (λ text. some_blocks-Extracts _ (scan_lines-HaveText (splitlines text) initial tt))

-- `get_text` of Beautiful Soup with `strip=True` has no space at its ends.
abbrev pub IsStripping : {Soup Tag : Type 0} → HtmlParser Soup Tag → Type 0
IsStripping {Soup} {Tag} html = (el : Tag) → strip (html.get_text el) ≡ html.get_text el

module _ {Soup Tag : Type 0} (html : HtmlParser Soup Tag) (strips : IsStripping html) where
  get_text-HasLetter :
      (el : Tag) → is_empty (html.get_text el) ≡ false → HasLetter (html.get_text el)
  get_text-HasLetter el h =
      subst HasLetter (strips el) (strip-HasLetter (html.get_text el) (ap is_empty (strips el) ∙ h))

  html_blocks-HaveText :
      (els : List Tag) (stack : List (ℕ × Text)) → HaveText (html_blocks html stack els)
  unfolding html_blocks
  html_blocks-HaveText [] stack = tt
  html_blocks-HaveText (el ∷ els) stack = elim (Bool-cases (is_in (html.name el) heading_tags)) [
    | inl heading ↦ elim (Bool-cases (is_empty (html.get_text el))) [
      | inl blank ↦ rw (heading, blank) (html_blocks-HaveText els stack)
      | inr titled ↦ rw (heading, titled) (html_blocks-HaveText els _)
    ]
    | inr other ↦ elim (Bool-cases (html.has_parent text_tags el)) [
      | inl nested ↦ rw (other, nested) (html_blocks-HaveText els stack)
      | inr outer ↦ elim (Bool-cases (is_empty (html.get_text el))) [
        | inl blank ↦ rw (other, outer, blank) (html_blocks-HaveText els stack)
        | inr text ↦
            rw (other, outer, text) (get_text-HasLetter el text, html_blocks-HaveText els stack)
      ]
    ]
  ]

  some_html-Extracts : (blocks : List Block) → HaveText blocks → Extracts (some_html html blocks)
  unfolding some_html
  some_html-Extracts [] h = (_, refl)
  some_html-Extracts (b ∷ blocks) h = (refl, h)

  soup_or-Reads : (str : Exc → Text) (r : Result Soup) → Reads (soup_or html str r)
  unfolding soup_or
  soup_or-Reads str (ok soup) = tt
  soup_or-Reads str (err e) = (_, refl)

  html-Extracts : (str : Exc → Text) (raw : List ℕ) → Extracts (parse_html html str raw)
  unfolding parse_html
  html-Extracts str raw =
      bind-Extracts (soup_or html str (html.soup raw)) _ (soup_or-Reads str (html.soup raw))
        (λ soup. some_html-Extracts _ (html_blocks-HaveText _ []))

-- What the loop over the pages has made so far.
abbrev pub Collects : Result (List Block) → Type 0
Collects (ok blocks) = HaveText blocks
Collects (err e) = Unit

page-Collects :
    (page_no : ℕ) (t : Text) (r : Result (List Block))
    → Collects r
    → Collects (
        r >>= (λ blocks. ok (
          if is_empty (strip t)
          then blocks
          else record { text = strip t; meta = record { page = some page_no; headings = none } }
            ∷ blocks)))
page-Collects page_no t (err e) h = tt
page-Collects page_no t (ok blocks) h = elim (Bool-cases (is_empty (strip t))) [
  | inl blank ↦ rw blank h
  | inr text ↦ rw text (strip-HasLetter t text, h)
]

pdf_blocks-Collects :
    (page_no : ℕ) (pages : List (Result (Option Text))) → Collects (pdf_blocks page_no pages)
unfolding pdf_blocks
pdf_blocks-Collects page_no [] = tt
pdf_blocks-Collects page_no (err e ∷ pages) = tt
pdf_blocks-Collects page_no (ok none ∷ pages) = pdf_blocks-Collects (page_no + 1) pages
pdf_blocks-Collects page_no (ok (some t) ∷ pages) =
    page-Collects page_no t (pdf_blocks (page_no + 1) pages)
      (pdf_blocks-Collects (page_no + 1) pages)

bind-Collects :
    {A : Type 0} (r : Result A) (k : A → Result (List Block))
    → ((a : A) → Collects (k a))
    → Collects (r >>= k)
bind-Collects (ok a) k h = h a
bind-Collects (err e) k h = tt

pdf_error-IsParseError : (str : Exc → Text) (e : Exc) → IsParseError (pdf_error str e)
unfolding pdf_error
pdf_error-IsParseError str (rag (parse_error message)) = (message, refl)
pdf_error-IsParseError str e = (_, refl)

some_pdf-Extracts :
    (str : Exc → Text) (r : Result (List Block)) → Collects r → Extracts (some_pdf str r)
unfolding some_pdf
some_pdf-Extracts str (err e) h = pdf_error-IsParseError str e
some_pdf-Extracts str (ok []) h = (_, refl)
some_pdf-Extracts str (ok (b ∷ blocks)) h = (refl, h)

-- Whatever the bytes and whatever the libraries make of them, if only `get_text` strips what it
-- returns, `parse_document` returns one block at least, and no block whose text is blank, or it raises
-- a `ParseError`, and no other exception.
pub parse_document-Extracts :
    {Soup Tag : Type 0} (html : HtmlParser Soup Tag)
    (read : List ℕ → Result (List (Result (Option Text)))) (utf8 : List ℕ → Option Text)
    (str : Exc → Text) (raw : List ℕ) (source_type : SourceType)
    → IsStripping html
    → Extracts (parse_document html read utf8 str raw source_type)
unfolding parse_document parse_pdf
parse_document-Extracts html read utf8 str raw SourceType.pdf strips =
    some_pdf-Extracts str _ (
      bind-Collects (read raw) (λ pages. pdf_blocks 1 pages) (λ pages. pdf_blocks-Collects 1 pages))
parse_document-Extracts html read utf8 str raw SourceType.markdown strips =
    markdown-Extracts utf8 raw
parse_document-Extracts html read utf8 str raw SourceType.html strips =
    html-Extracts html strips str raw
