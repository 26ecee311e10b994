-- ===== src/Answering/Citations/Cited.antt =====
-- The citations of an answer against a reference: the given ones that it has a marker of.
use rag_knowledge_platform_f.Prelude.{
  ℕ, ◌<◌, false, ◌&&◌, Option, none, some, List, [], ◌∷◌, ◌++◌, ◌≡◌, refl, sym, ap, ◌∙◌, inl, inr,
  map, All, All-append, append-nil, arith, ltb, ◌==◌, eqb→eq, eqb_refl, if◌then◌else◌, Bool-cases,
  append_assoc,
}
use rag_knowledge_platform_f.Text.{Text}
use rag_knowledge_platform_f.Errors.{ok}
use rag_knowledge_platform_f.Sorting.{sorted}
use rag_knowledge_platform_f.Retrieval.{get, update}
use rag_knowledge_platform_f.Retrieval.Dicts.{get_item-some}
use rag_knowledge_platform_f.Answering.Citations.{
  Citation, find_markers, int_of, available_of, contains, citations_of, cited_only,
}
use rag_knowledge_platform_f.Answering.Citations.Seen.{is_some, see_all-Returns}
use rag_knowledge_platform_f.Answering.Citations.Members.{
  IsAscending, contains-sorted, sorted-IsAscending, ascending_ext,
}

-- The citations that one of the numbers is the marker of.
abbrev pub cites : List ℕ → List Citation → List Citation
cites numbers [] = []
cites numbers (c ∷ citations) =
    let rest = cites numbers citations in if contains c.marker numbers then c ∷ rest else rest

abbrev pub markers : List Citation → List ℕ
markers citations = map (λ (c : Citation). c.marker) citations

-- The dict of the citations, in their order.
abbrev entries : List Citation → List (ℕ × Citation)
entries citations = map (λ (c : Citation). (c.marker, c)) citations

update-absent :
    (k : ℕ) (c : Citation) (d : List (ℕ × Citation))
    → All (λ p. (p.0 == k) ≡ false) d
    → update k c (λ _. c) d ≡ d ++ (k, c) ∷ []
unfolding update
update-absent k c [] h = refl
update-absent k c ((j, v) ∷ d) h = rw (h.0, update-absent k c d h.1) refl

-- No entry of the dict is for the citation.
abbrev IsApart : List (ℕ × Citation) → Citation → Type 0
IsApart d c = All (λ (p : ℕ × Citation). (p.0 == c.marker) ≡ false) d

eqb_above : (a b : ℕ) → a < b → (a == b) ≡ false
eqb_above a b h = ground arith

IsApart-append :
    (c : Citation) (d : List (ℕ × Citation)) (citations : List Citation)
    → All (λ y. c.marker < y) (markers citations)
    → All (IsApart d) citations
    → All (IsApart (d ++ (c.marker, c) ∷ [])) citations
IsApart-append c d [] h k = tt
IsApart-append c d (c' ∷ citations) h k = (
  All-append (λ (p : ℕ × Citation). (p.0 == c'.marker) ≡ false) d ((c.marker, c) ∷ []) k.0
      (eqb_above c.marker c'.marker h.0, tt),
  IsApart-append c d citations h.1 k.1,
)

-- The dict of citations whose markers ascend.
available_from :
    (citations : List Citation) (d : List (ℕ × Citation))
    → IsAscending (markers citations)
    → All (IsApart d) citations
    → available_of citations d ≡ d ++ entries citations
unfolding available_of
available_from [] d h k = sym (append-nil d)
available_from (c ∷ citations) d h k =
    ap (available_of citations) (update-absent c.marker c d k.0)
    ∙ available_from citations (d ++ (c.marker, c) ∷ []) h.1 (IsApart-append c d citations h.0 k.1)
    ∙ append_assoc d ((c.marker, c) ∷ []) (entries citations)

contains-cites :
    (m : ℕ) (numbers : List ℕ) (citations : List Citation)
    → contains m (markers (cites numbers citations))
      ≡ (contains m numbers && is_some (get m (entries citations)))
unfolding contains get
contains-cites m numbers [] = ground arith
contains-cites m numbers (c ∷ citations) =
    let rest = contains-cites m numbers citations in
    elim (Bool-cases (c.marker == m)) [
      | inl own ↦
          let same = ap (λ n. contains n numbers) (eqb→eq c.marker m own) in
          elim (Bool-cases (contains c.marker numbers)) [
            | inl cited ↦ rw (cited, own) (ground (arith, sym same ∙ cited))
            | inr uncited ↦ rw (uncited, own) (ground (arith, rest, sym same ∙ uncited))
          ]
      | inr other ↦ elim (Bool-cases (contains c.marker numbers)) [
        | inl cited ↦ rw (cited, other) rest
        | inr uncited ↦ rw (uncited, other) rest
      ]
    ]

cites-All :
    (P : Citation → Type 0) (numbers : List ℕ) (citations : List Citation)
    → All P citations
    → All P (cites numbers citations)
cites-All P numbers [] h = tt
cites-All P numbers (c ∷ citations) h = elim (Bool-cases (contains c.marker numbers)) [
  | inl cited ↦ rw cited (h.0, cites-All P numbers citations h.1)
  | inr uncited ↦ rw uncited (cites-All P numbers citations h.1)
]

markers-cites-All :
    (P : ℕ → Type 0) (numbers : List ℕ) (citations : List Citation)
    → All P (markers citations)
    → All P (markers (cites numbers citations))
markers-cites-All P numbers [] h = tt
markers-cites-All P numbers (c ∷ citations) h = elim (Bool-cases (contains c.marker numbers)) [
  | inl cited ↦ rw cited (h.0, markers-cites-All P numbers citations h.1)
  | inr uncited ↦ rw uncited (markers-cites-All P numbers citations h.1)
]

cites-IsAscending :
    (numbers : List ℕ) (citations : List Citation)
    → IsAscending (markers citations)
    → IsAscending (markers (cites numbers citations))
cites-IsAscending numbers [] h = tt
cites-IsAscending numbers (c ∷ citations) h = elim (Bool-cases (contains c.marker numbers)) [
  | inl cited ↦ rw cited (
    markers-cites-All (λ y. c.marker < y) numbers citations h.0,
    cites-IsAscending numbers citations h.1,
  )
  | inr uncited ↦ rw uncited (cites-IsAscending numbers citations h.1)
]

citations_of-Returns :
    (available : List (ℕ × Citation)) (cited : List Citation)
    → All (λ (c : Citation). get c.marker available ≡ some c) cited
    → citations_of available (markers cited) ≡ ok cited
unfolding citations_of
citations_of-Returns available [] h = refl
citations_of-Returns available (c ∷ cited) h =
    rw (get_item-some c.marker available c h.0, citations_of-Returns available cited h.1) refl

IsApart-nil : (citations : List Citation) → All (IsApart []) citations
IsApart-nil [] = tt
IsApart-nil (c ∷ citations) = (tt, IsApart-nil citations)

-- The citation's own entry is the one that a lookup finds.
abbrev IsEntry : List (ℕ × Citation) → Citation → Type 0
IsEntry d c = get c.marker d ≡ some c

later_entries :
    (c : Citation) (d : List (ℕ × Citation)) (citations : List Citation)
    → All (λ y. c.marker < y) (markers citations)
    → All (IsEntry d) citations
    → All (IsEntry ((c.marker, c) ∷ d)) citations
unfolding get
later_entries c d [] h k = tt
later_entries c d (c' ∷ citations) h k =
    (rw (eqb_above c.marker c'.marker h.0) k.0, later_entries c d citations h.1 k.1)

get-entries :
    (citations : List Citation)
    → IsAscending (markers citations)
    → All (IsEntry (entries citations)) citations
unfolding get
get-entries [] h = tt
get-entries (c ∷ citations) h = (
  rw (eqb_refl c.marker) refl,
  later_entries c (entries citations) citations h.0 (get-entries citations h.1),
)

-- The citations of an answer are those of the given ones, in their order, that a marker of the answer
-- names, each once, if the given ones are in ascending order of their markers and each marker of the
-- answer is read as a number.
pub cited_only-cites :
    (digit_value : ℕ → Option ℕ) (answer : Text) (citations : List Citation) (numbers : List ℕ)
    → IsAscending (markers citations)
    → map int_of (find_markers digit_value none answer) ≡ map ok numbers
    → cited_only digit_value answer citations ≡ ok (cites numbers citations)
unfolding cited_only contains
cited_only-cites digit_value answer citations numbers h read =
    let d = entries citations in
    let (seen, e, (distinct, members)) = see_all-Returns d numbers [] tt in
    let available : available_of citations [] ≡ d =
      available_from citations [] h (IsApart-nil citations) in
    let order : sorted ltb seen ≡ markers (cites numbers citations) =
      ascending_ext (sorted ltb seen) (markers (cites numbers citations))
        (sorted-IsAscending seen distinct) (cites-IsAscending numbers citations h)
        (λ m. contains-sorted m seen ∙ members m ∙ sym (contains-cites m numbers citations)) in
    rw (read, available, e, order)
      (citations_of-Returns d (cites numbers citations)
        (cites-All (IsEntry d) numbers citations (get-entries citations h)))
