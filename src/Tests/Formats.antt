-- ===== src/Tests/Formats.antt =====
-- A page of HTML as the list of its elements, and a PDF of three pages.
use rag_knowledge_platform_f.Prelude.{
  ℕ, Bool, true, false, Option, none, some, List, [], ◌∷◌, ◌++◌, ◌≡◌, refl, if◌then◌else◌,
}
use rag_knowledge_platform_f.Text.{Text, codes, strip}
use rag_knowledge_platform_f.Errors.{Result, ok, err, foreign}
use rag_knowledge_platform_f.Database.{SourceType}
use rag_knowledge_platform_f.Parsers.Formats.{
  HtmlParser, heading_tags, text_tags, dropped_tags, is_in, parse_html, parse_document,
}
use rag_knowledge_platform_f.Parsers.Outline.{outline, Outlined, parse_html-Outlined}
use rag_knowledge_platform_f.Parsers.Extracts.{Extracts, parse_document-Extracts}

record Element : Type 0 where
  name : Text
  text : Text
  nested : Bool
  stripped : strip text ≡ text

abbrev named : List Text → List Element → List Element
named names [] = []
named names (e ∷ es) = let rest = named names es in if is_in e.name names then e ∷ rest else rest

abbrev unnamed : List Text → List Element → List Element
unnamed names [] = []
unnamed names (e ∷ es) =
    let rest = unnamed names es in if is_in e.name names then rest else e ∷ rest

abbrev element : Text → (text : Text) → Bool → strip text ≡ text → Element
element name text nested stripped = record {
  name = name;
  text = text;
  nested = nested;
  stripped = stripped;
}

abbrev page : List Element
unfolding strip
page =
    element (codes "p") (codes "Welcome.") false refl
    ∷ element (codes "h1") (codes "Guide") false refl
    ∷ element (codes "h3") (codes "Setup") false refl
    ∷ element (codes "li") (codes "Install it.") false refl
    ∷ element (codes "p") (codes "Install it.") true refl
    ∷ element (codes "script") (codes "x") false refl
    ∷ element (codes "h2") (codes "Use") false refl
    ∷ element (codes "p") (codes "Run it.") false refl
    ∷ []

abbrev html : HtmlParser (List Element) Element
html = record {
  soup = λ raw. ok page;
  decompose = unnamed;
  find_all = named;
  name = λ e. e.name;
  get_text = λ e. e.text;
  has_parent = λ names e. e.nested;
}

abbrev elements : List Element
elements = named (heading_tags ++ text_tags) (unnamed dropped_tags page)

parse_html-Outlined_example :
    Outlined html (outline html [] elements) (parse_html html (λ e. []) (codes "<p>"))
parse_html-Outlined_example = parse_html-Outlined html (λ e. []) (codes "<p>") page refl

abbrev pages : List ℕ → Result (List (Result (Option Text)))
pages raw = ok (ok (some (codes " One. ")) ∷ ok none ∷ err (foreign 3) ∷ [])

parse_document-Extracts_example : Extracts (
    parse_document html pages
      (λ raw. some raw)
      (λ e. codes "damaged")
      (codes "%PDF")
      SourceType.pdf)
parse_document-Extracts_example =
    parse_document-Extracts html pages (λ raw. some raw) (λ e. codes "damaged") (codes "%PDF")
      SourceType.pdf (λ e. e.stripped)
