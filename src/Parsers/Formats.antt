-- ===== src/Parsers/Formats.antt =====
-- ingestion/parsers.py: PDF and HTML, and `parse_document`. What pypdf and Beautiful Soup do is a
-- parameter.
use rag_knowledge_platform_f.Prelude.{
  ℕ, ◌+◌, ◌-◌, Bool, false, ◌||◌, Option, none, some, List, [], ◌∷◌, ◌++◌, is_empty, if◌then◌else◌,
}
use rag_knowledge_platform_f.Text.{Text, codes, strip, text_eq}
use rag_knowledge_platform_f.Errors.{Result, ok, err, Exc, rag, parse_error, ◌>>=◌}
use rag_knowledge_platform_f.Chunking.Sentences.{Block}
use rag_knowledge_platform_f.Database.{SourceType}
use rag_knowledge_platform_f.Parsers.{pop_to, path_of, parse_markdown}

-- Beautiful Soup: the document of some bytes, `tag.decompose()` for all tags of some names,
-- `find_all`, the name and the stripped text of a tag, and whether `find_parent` finds one.
pub record HtmlParser (Soup Tag : Type 0) : Type 0 where
  pub soup : List ℕ → Result Soup
  pub decompose : List Text → Soup → Soup
  pub find_all : List Text → Soup → List Tag
  pub name : Tag → Text
  pub get_text : Tag → Text
  pub has_parent : List Text → Tag → Bool

abbrev pub text_tags : List Text
text_tags = codes "p" ∷ codes "li" ∷ codes "pre" ∷ codes "blockquote" ∷ codes "td" ∷ codes "th" ∷ []

abbrev pub heading_tags : List Text
heading_tags = codes "h1" ∷ codes "h2" ∷ codes "h3" ∷ codes "h4" ∷ codes "h5" ∷ codes "h6" ∷ []

abbrev pub dropped_tags : List Text
dropped_tags = codes "script" ∷ codes "style" ∷ codes "noscript" ∷ codes "template" ∷ []

-- `name in names`.
pub is_in : Text → List Text → Bool
is_in name [] = false
is_in name (n ∷ names) = text_eq name n || is_in name names

-- `int(el.name[1])`, for one of the heading tags.
pub level_of : Text → ℕ
level_of (h ∷ digit ∷ name) = digit - 48
level_of name = 0

module _ {Soup Tag : Type 0} (html : HtmlParser Soup Tag) where
  -- The loop over the elements, with the stack of headings, whose top comes first.
  unfoldable pub html_blocks : List (ℕ × Text) → List Tag → List Block
  html_blocks stack [] = []
  html_blocks stack (el ∷ els) =
      let text = html.get_text el in
      let level = level_of (html.name el) in
      let same = html_blocks stack els in
      let deeper = html_blocks ((level, text) ∷ pop_to level stack) els in
      if is_in (html.name el) heading_tags
      then (if is_empty text then same else deeper)
      else if html.has_parent text_tags el
      then same
      else if is_empty text
      then same
      else record { text = text; meta = record { page = none; headings = some (path_of stack) } }
        ∷ same

  unfoldable pub no_html_text : Text
  no_html_text = codes "HTML has no extractable text content"

  unfoldable pub some_html : List Block → Result (List Block)
  unfolding no_html_text
  some_html [] = err (rag (parse_error no_html_text))
  some_html (b ∷ blocks) = ok (b ∷ blocks)

  unfoldable pub soup_or : (str : Exc → Text) → Result Soup → Result Soup
  soup_or str (err e) = err (rag (parse_error (codes "invalid HTML: " ++ str e)))
  soup_or str (ok soup) = ok soup

  -- `_parse_html`; `str` is that of an exception.
  unfoldable pub parse_html : (str : Exc → Text) → List ℕ → Result (List Block)
  unfolding html_blocks some_html soup_or
  parse_html str raw = do
    soup ← soup_or str (html.soup raw)
    some_html (
        html_blocks []
          (html.find_all (heading_tags ++ text_tags) (html.decompose dropped_tags soup)))

-- The loop over the pages from number `page_no` on, each with what its `extract_text` does.
unfoldable pub pdf_blocks : (page_no : ℕ) → List (Result (Option Text)) → Result (List Block)
pdf_blocks page_no [] = ok []
pdf_blocks page_no (err e ∷ pages) = err e
pdf_blocks page_no (ok none ∷ pages) = pdf_blocks (page_no + 1) pages
pdf_blocks page_no (ok (some t) ∷ pages) = do
  blocks ← pdf_blocks (page_no + 1) pages
  ok (
      if is_empty (strip t)
      then blocks
      else record { text = strip t; meta = record { page = some page_no; headings = none } }
        ∷ blocks)

-- The handlers around the loop.
unfoldable pub pdf_error : (str : Exc → Text) → Exc → Exc
pdf_error str (rag (parse_error message)) = rag (parse_error message)
pdf_error str e = rag (parse_error (codes "invalid PDF: " ++ str e))

unfoldable pub no_pdf_text : Text
no_pdf_text = codes "PDF has no extractable text (scanned image without OCR?)"

unfoldable pub some_pdf : (str : Exc → Text) → Result (List Block) → Result (List Block)
unfolding pdf_error no_pdf_text
some_pdf str (err e) = err (pdf_error str e)
some_pdf str (ok []) = err (rag (parse_error no_pdf_text))
some_pdf str (ok (b ∷ blocks)) = ok (b ∷ blocks)

-- `_parse_pdf`; `read` is the pages of `PdfReader`, with what `extract_text` of each does.
unfoldable pub parse_pdf :
    (read : List ℕ → Result (List (Result (Option Text))))
    → (str : Exc → Text) → List ℕ
    → Result (List Block)
unfolding some_pdf
parse_pdf read str raw = some_pdf str (do pages ← read raw; pdf_blocks 1 pages)

-- `parse_document`.
unfoldable pub parse_document :
    {Soup Tag : Type 0}
    → HtmlParser Soup Tag
    → (read : List ℕ → Result (List (Result (Option Text)))) → (utf8 : List ℕ → Option Text)
    → (str : Exc → Text) → List ℕ
    → SourceType
    → Result (List Block)
parse_document html read utf8 str raw SourceType.pdf = parse_pdf read str raw
parse_document html read utf8 str raw SourceType.markdown = parse_markdown utf8 raw
parse_document html read utf8 str raw SourceType.html = parse_html html str raw
