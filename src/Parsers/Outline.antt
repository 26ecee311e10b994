-- ===== src/Parsers/Outline.antt =====
-- HTML: which text a document's blocks hold, and the headings that each stands under.
use rag_knowledge_platform_f.Prelude.{
  ℕ, Bool, not, ◌&&◌, List, [], ◌∷◌, ◌++◌, ◌≡◌, refl, sym, ap, subst, ◌∙◌, is_empty, if◌then◌else◌,
  Bool-cases, inl, inr, some, none,
}
use rag_knowledge_platform_f.Text.{Text, codes}
use rag_knowledge_platform_f.Errors.{Result, ok, err, Exc, rag, parse_error}
use rag_knowledge_platform_f.Chunking.Sentences.{Block}
use rag_knowledge_platform_f.Parsers.{path_of}
use rag_knowledge_platform_f.Parsers.Headings.{open_headings, pop_to-open_headings}
use rag_knowledge_platform_f.Parsers.Formats.{
  HtmlParser, heading_tags, text_tags, is_in, level_of, html_blocks, dropped_tags, some_html,
  no_html_text, soup_or, parse_html,
}

module _ {Soup Tag : Type 0} (html : HtmlParser Soup Tag) where
  -- Whether an element is a heading with a title, and whether it is an outermost element with text.
  abbrev pub is_heading : Tag → Bool
  is_heading el = is_in (html.name el) heading_tags && not (is_empty (html.get_text el))

  abbrev pub is_content : Tag → Bool
  is_content el =
      not (is_in (html.name el) heading_tags)
      && (not (html.has_parent text_tags el) && not (is_empty (html.get_text el)))

  -- The headings of a document before some place, the last one first.
  abbrev pub headings_of : List Tag → List (ℕ × Text)
  headings_of [] = []
  headings_of (el ∷ before) =
      if is_heading el
      then (level_of (html.name el), html.get_text el) ∷ headings_of before
      else headings_of before

  abbrev pub block_at : (before : List Tag) → Tag → Block
  block_at before el = record {
    text = html.get_text el;
    meta = record {
      page = none;
      headings = some (path_of (open_headings [] (headings_of before)));
    };
  }

  -- The outline of a document behind the elements `before`, the last one first: its content, each
  -- element under the headings whose sections are open where it stands.
  abbrev pub outline : (before els : List Tag) → List Block
  outline before [] = []
  outline before (el ∷ els) =
      let rest = outline (el ∷ before) els in
      if is_content el then block_at before el ∷ rest else rest

  html_blocks-outline :
      (before els : List Tag)
      → html_blocks html (open_headings [] (headings_of before)) els ≡ outline before els
  unfolding html_blocks
  html_blocks-outline before [] = refl
  html_blocks-outline before (el ∷ els) =
      let behind : (hs : List (ℕ × Text))
          → headings_of (el ∷ before) ≡ hs
          → html_blocks html (open_headings [] hs) els ≡ outline (el ∷ before) els =
        λ hs same.
          ap (λ hs. html_blocks html (open_headings [] hs) els) (sym same)
          ∙ html_blocks-outline (el ∷ before) els in
      elim (Bool-cases (is_in (html.name el) heading_tags)) [
        | inl heading ↦ elim (Bool-cases (is_empty (html.get_text el))) [
          | inl blank ↦ rw (heading, blank) (behind (headings_of before) (rw (heading, blank) refl))
          | inr titled ↦
              rw (heading, titled)
                (ap
                    (λ stack.
                      html_blocks html ((level_of (html.name el), html.get_text el) ∷ stack) els)
                    (pop_to-open_headings (level_of (html.name el)) [] (headings_of before))
                  ∙ behind ((level_of (html.name el), html.get_text el) ∷ headings_of before)
                      (rw (heading, titled) refl))
        ]
        | inr other ↦ elim (Bool-cases (html.has_parent text_tags el)) [
          | inl nested ↦ rw (other, nested) (behind (headings_of before) (rw other refl))
          | inr outer ↦ elim (Bool-cases (is_empty (html.get_text el))) [
            | inl blank ↦ rw (other, outer, blank) (behind (headings_of before) (rw other refl))
            | inr content ↦
                rw (other, outer, content)
                  (ap (λ rest. block_at before el ∷ rest)
                    (behind (headings_of before) (rw other refl)))
          ]
        ]
      ]

  -- The blocks as a result.
  abbrev pub Outlined : List Block → Result (List Block) → Type 0
  Outlined [] r = r ≡ err (rag (parse_error (codes "HTML has no extractable text content")))
  Outlined (b ∷ blocks) r = r ≡ ok (b ∷ blocks)

  some_html-Outlined : (blocks : List Block) → Outlined blocks (some_html html blocks)
  unfolding some_html no_html_text
  some_html-Outlined [] = refl
  some_html-Outlined (b ∷ blocks) = refl

  -- If Beautiful Soup reads some bytes, their blocks are the texts of the outermost text elements that
  -- are not blank, in order, each under the titles of the headings before it whose sections are open
  -- where it stands: a section ends at the next heading of its own level or of a lower number. Without
  -- any such element there is a `ParseError`.
  pub parse_html-Outlined :
      (str : Exc → Text) (raw : List ℕ) (soup : Soup)
      → html.soup raw ≡ ok soup
      → Outlined
          (outline []
            (html.find_all (heading_tags ++ text_tags) (html.decompose dropped_tags soup)))
          (parse_html html str raw)
  unfolding parse_html soup_or
  parse_html-Outlined str raw soup read =
      let els = html.find_all (heading_tags ++ text_tags) (html.decompose dropped_tags soup) in
      rw read (
        subst (λ blocks. Outlined (outline [] els) (some_html html blocks))
          (sym (html_blocks-outline [] els)) (some_html-Outlined (outline [] els)))
