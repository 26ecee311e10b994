-- ===== src/Answering/Citations/Seen.antt =====
-- The loop over the markers of an answer: what `seen` contains after it.
use rag_knowledge_platform_f.Prelude.{
  ℕ, subst, Bool, true, false, ◌&&◌, ◌||◌, Option, none, some, List, [], ◌∷◌, ◌++◌, ◌≡◌, refl, ◌∙◌,
  inl, inr, map, arith, ◌==◌, eqb→eq, eqb_refl, if◌then◌else◌, Bool-cases,
}
use rag_knowledge_platform_f.Errors.{ok}
use rag_knowledge_platform_f.Retrieval.{get}
use rag_knowledge_platform_f.Retrieval.Answers.{Returns}
use rag_knowledge_platform_f.Answering.Citations.{Citation, contains, see, see_all}
use rag_knowledge_platform_f.Answering.Citations.Members.{
  IsDistinct, contains-tail, contains-append,
}

abbrev pub is_some : Option Citation → Bool
is_some none = false
is_some (some c) = true

contains_self :
    (k : ℕ) (seen : List ℕ) (o : Option Citation)
    → contains k
        (elim o [ none ↦ seen | some c ↦ if contains k seen then seen else seen ++ k ∷ [] ])
      ≡ (contains k seen || (k == k && is_some o))
contains_self k seen none = ground arith
contains_self k seen (some c) = elim (Bool-cases (contains k seen)) [
  | inl old ↦ rw old old
  | inr new ↦ rw (new, eqb_refl k) (contains-append k k seen ∙ rw (new, eqb_refl k) refl)
]

contains_other :
    (m k : ℕ) (seen : List ℕ) (o : Option Citation)
    → (k == m) ≡ false
    → contains m
        (elim o [ none ↦ seen | some c ↦ if contains k seen then seen else seen ++ k ∷ [] ])
      ≡ contains m seen
contains_other m k seen none h = refl
contains_other m k seen (some c) h = elim (Bool-cases (contains k seen)) [
  | inl old ↦ rw old refl
  | inr new ↦ rw new (contains-append m k seen ∙ ground (arith, h))
]

-- A round adds its marker if it is available.
contains-see :
    (m k : ℕ) (available : List (ℕ × Citation)) (seen : List ℕ)
    → contains m (see available k seen) ≡ (contains m seen || (k == m && is_some (get m available)))
unfolding see
contains-see m k available seen = elim (Bool-cases (k == m)) [
  | inl own ↦
      subst
        (λ n.
          contains n (see available k seen)
          ≡ (contains n seen || (k == n && is_some (get n available))))
        (eqb→eq k m own) (contains_self k seen (get k available))
  | inr other ↦ rw other (contains_other m k seen (get k available) other ∙ ground arith)
]

IsDistinct-snoc :
    (k : ℕ) (seen : List ℕ)
    → contains k seen ≡ false
    → IsDistinct seen
    → IsDistinct (seen ++ k ∷ [])
unfolding contains
IsDistinct-snoc k [] h d = (refl, tt)
IsDistinct-snoc k (x ∷ seen) h d = (
  ground (arith, h, d.0, contains-append x k seen),
  IsDistinct-snoc k seen (contains-tail k x seen h) d.1,
)

see-IsDistinct :
    (k : ℕ) (available : List (ℕ × Citation)) (seen : List ℕ)
    → IsDistinct seen
    → IsDistinct (see available k seen)
see-IsDistinct k available seen h = unfold see in go (get k available)
  where
    go :
        (o : Option Citation)
        → IsDistinct
            (elim o [ none ↦ seen | some c ↦ if contains k seen then seen else seen ++ k ∷ [] ])
    go none = h
    go (some c) = elim (Bool-cases (contains k seen)) [
      | inl old ↦ rw old h
      | inr new ↦ rw new (IsDistinct-snoc k seen new h)
    ]

pub see_all-Returns :
    (available : List (ℕ × Citation)) (numbers seen : List ℕ)
    → IsDistinct seen
    → Returns
        (λ seen'.
          IsDistinct seen'
          × ((m : ℕ)
              → contains m seen'
                ≡ (contains m seen || (contains m numbers && is_some (get m available)))))
        (see_all available (map ok numbers) seen)
unfolding see_all contains
see_all-Returns available [] seen d = (seen, refl, (d, λ m. ground arith))
see_all-Returns available (k ∷ numbers) seen d =
    let (seen', e, (d', members)) =
      see_all-Returns available numbers (see available k seen)
        (see-IsDistinct k available seen d) in
    (seen', e, (d', λ m. ground (arith, members m, contains-see m k available seen)))
