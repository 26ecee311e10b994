-- ===== src/Answering/Citations.antt =====
-- services/answering.py: the places that citations name, and the markers of an answer.
pub mod Members
pub mod Seen
pub mod Cited
use rag_knowledge_platform_f.Prelude.{
  ℕ, zero, suc, ◌+◌, ◌*◌, ◌≤◌, Bool, true, false, ◌&&◌, ◌||◌, not, Option, none, some, List, [],
  ◌∷◌, ◌++◌, map, take, reverse, length, is_empty, ltb, ◌==◌, if◌then◌else◌,
}
use rag_knowledge_platform_f.Text.{Text, codes, join}
use rag_knowledge_platform_f.Text.Decimal.{decimal}
use rag_knowledge_platform_f.Errors.{Result, ok, err, value_error, ◌>>=◌}
use rag_knowledge_platform_f.Sorting.{sorted}
use rag_knowledge_platform_f.Chunking.Packing.{ChunkMeta}
use rag_knowledge_platform_f.Retrieval.{get, get_item, update}

-- The location of a page range, whose end is formatted as `None` if it is missing.
pages_location : ℕ → Option ℕ → Text
pages_location start none = codes "pp. " ++ decimal start ++ codes "-None"
pages_location start (some end) =
    if start == end
    then codes "p. " ++ decimal start
    else codes "pp. " ++ decimal start ++ codes "-" ++ decimal end

page_location : Option ℕ → Option ℕ → Option Text
unfolding pages_location
page_location none end = none
page_location (some start) end = some (pages_location start end)

headings_location : Option (List Text) → Option Text → Option Text
headings_location (some (h ∷ headings)) other =
    some (codes "§ " ++ join (codes " > ") (h ∷ headings))
headings_location _ other = other

unfoldable pub format_location : ChunkMeta → Option Text
unfolding page_location headings_location
format_location meta = headings_location meta.headings (page_location meta.page_start meta.page_end)

-- `Citation`.
pub record Citation : Type 0 where
  pub marker : ℕ
  pub chunk_id : ℕ
  pub document_id : ℕ
  pub filename : Text
  pub location : Option Text
  pub snippet : Text

-- The digits that a scan for `\[(\d+)\]` has read since a bracket, if it stands after one; the last
-- digit comes first.
module _ (digit_value : ℕ → Option ℕ) where
  -- `\[(\d+)\]` from here on, with the values of the digits of each group. A digit is what the
  -- Unicode database says is one, with its value.
  unfoldable pub find_markers : Option (List ℕ) → Text → List (List ℕ)
  find_markers state [] = []
  find_markers none (c ∷ text) =
      let outside = find_markers none text in
      let inside = find_markers (some []) text in if c == b'[' then inside else outside
  find_markers (some ds) (c ∷ text) =
      let outside = find_markers none text in
      let inside = find_markers (some []) text in
      elim (digit_value c) [
        | some d ↦ find_markers (some (d ∷ ds)) text
        | none ↦
            if c == b'['
            then inside
            else if c == b']' && not (is_empty ds)
            then reverse ds ∷ outside
            else outside
      ]

-- `int` of the digits with these values, which refuses more than the interpreter's limit of 4300.
unfoldable pub from_digits : ℕ → List ℕ → ℕ
from_digits value [] = value
from_digits value (d ∷ ds) = from_digits (value * 10 + d) ds

unfoldable pub int_of : List ℕ → Result ℕ
unfolding from_digits
int_of digits = if ltb 4300 (length digits) then err value_error else ok (from_digits 0 digits)

-- `{c.marker: c for c in citations}`.
pub available_of : List Citation → List (ℕ × Citation) → List (ℕ × Citation)
available_of [] d = d
available_of (c ∷ citations) d = available_of citations (update c.marker c (λ _. c) d)

pub contains : ℕ → List ℕ → Bool
contains m [] = false
contains m (n ∷ ns) = n == m || contains m ns

-- One round of the loop over the markers.
pub see : List (ℕ × Citation) → ℕ → List ℕ → List ℕ
see available marker seen = elim (get marker available) [
  | none ↦ seen
  | some c ↦ if contains marker seen then seen else seen ++ marker ∷ []
]

pub see_all : List (ℕ × Citation) → List (Result ℕ) → List ℕ → Result (List ℕ)
see_all available [] seen = ok seen
see_all available (r ∷ raws) seen = do
  marker ← r
  see_all available raws (see available marker seen)

pub citations_of : List (ℕ × Citation) → List ℕ → Result (List Citation)
citations_of available [] = ok []
citations_of available (m ∷ ms) = do
  c ← get_item m available
  rest ← citations_of available ms
  ok (c ∷ rest)

pub cited_only : (ℕ → Option ℕ) → Text → List Citation → Result (List Citation)
cited_only digit_value answer citations = do
  let available = available_of citations []
  seen ← see_all available (map int_of (find_markers digit_value none answer)) []
  citations_of available (sorted ltb seen)
