-- ===== src/Parsers/Headings.antt =====
-- The stack of headings, and the sections that are open.
use rag_knowledge_platform_f.Prelude.{
  ℕ, ◌<◌, Bool, true, false, ◌&&◌, List, [], ◌∷◌, ◌≡◌, refl, ap, ◌∙◌, ltb, leb, if◌then◌else◌,
  Bool-cases, inl, inr, arith, ltb→lt, lt→ltb, leb→le, leb→lt, ◌≤◌,
}
use rag_knowledge_platform_f.Text.{Text}
use rag_knowledge_platform_f.Parsers.{pop_to}

-- Whether a section of this level is open after headings of the other levels: all are deeper.
abbrev pub is_open : ℕ → List ℕ → Bool
is_open level [] = true
is_open level (n ∷ later) = ltb level n && is_open level later

-- Of the headings, the last one first, those whose sections are open behind all of them; the levels of
-- the headings that came later are known.
abbrev pub open_headings : List ℕ → List (ℕ × Text) → List (ℕ × Text)
open_headings later [] = []
open_headings later ((level, title) ∷ headings) =
    let rest = open_headings (level ∷ later) headings in
    if is_open level later then (level, title) ∷ rest else rest

open_headings_cong :
    (a b : List ℕ) (headings : List (ℕ × Text))
    → ((n : ℕ) → is_open n a ≡ is_open n b)
    → open_headings a headings ≡ open_headings b headings
open_headings_cong a b [] same = refl
open_headings_cong a b ((level, title) ∷ headings) same =
    rw
      (
        same level,
        open_headings_cong (level ∷ a) (level ∷ b) headings
            (λ n. ap (λ t. ltb n level && t) (same n)),
      )
      refl

and_swap : (a b c : Bool) → (a && (b && c)) ≡ (b && (a && c))
and_swap true b c = refl
and_swap false true c = refl
and_swap false false c = refl

and_false : (b : Bool) → (b && false) ≡ false
and_false true = refl
and_false false = refl

not_below : (n level : ℕ) → level ≤ n → ltb n level ≡ false
not_below n level h = ground arith

-- A level below `n` is below a level that `n` is below.
still_open :
    (later : List ℕ) {n level : ℕ}
    → n < level
    → (m : ℕ) → is_open m (n ∷ later) ≡ is_open m (n ∷ level ∷ later)
still_open later {n} {level} h m = elim (Bool-cases (ltb m n)) [
  | inl below ↦ rw (below, lt→ltb m level (omega (arith, h, ltb→lt m n below))) refl
  | inr above ↦ rw above refl
]

-- What is left of the open sections when a heading comes.
pub pop_to-open_headings :
    (level : ℕ) (later : List ℕ) (headings : List (ℕ × Text))
    → pop_to level (open_headings later headings) ≡ open_headings (level ∷ later) headings
unfolding pop_to
pop_to-open_headings level later [] = refl
pop_to-open_headings level later ((n, title) ∷ headings) =
    let rest = pop_to-open_headings level (n ∷ later) headings in
    let swapped =
      open_headings_cong (level ∷ n ∷ later) (n ∷ level ∷ later) headings
        (λ m. and_swap (ltb m level) (ltb m n) (is_open m later)) in
    elim (Bool-cases (is_open n later)) [
      | inl kept ↦ elim (Bool-cases (leb level n)) [
        | inl closed ↦ rw (kept, closed, not_below n level (leb→le level n closed)) (rest ∙ swapped)
        | inr deeper ↦
            rw (kept, deeper, lt→ltb n level (leb→lt level n deeper))
              (ap (λ hs. (n, title) ∷ hs)
                (open_headings_cong (n ∷ later) (n ∷ level ∷ later) headings
                  (still_open later (leb→lt level n deeper))))
      ]
      | inr shut ↦ rw (shut, and_false (ltb n level)) (rest ∙ swapped)
    ]
