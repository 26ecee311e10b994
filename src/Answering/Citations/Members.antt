-- ===== src/Answering/Citations/Members.antt =====
-- Lists of markers: what they contain, in ascending order and without repetition.
use rag_knowledge_platform_f.Prelude.{
  ℕ, ◌<◌, ◌≤◌, subst, Bool, true, false, ◌||◌, List, [], ◌∷◌, ◌++◌, ◌≡◌, refl, sym, ap, ◌∙◌, inl,
  inr, All, All-imply, arith, ltb, ltb→lt, ltb→le, ◌==◌, eqb→eq, eqb_refl, Bool-cases,
}
use rag_knowledge_platform_f.Sorting.{insert, sorted}
use rag_knowledge_platform_f.Answering.Citations.{contains}

-- Each number is below those after it.
abbrev pub IsAscending : List ℕ → Type 0
IsAscending [] = Unit
IsAscending (x ∷ xs) = All (λ y. x < y) xs × IsAscending xs

-- No number stands twice.
abbrev pub IsDistinct : List ℕ → Type 0
IsDistinct [] = Unit
IsDistinct (x ∷ xs) = (contains x xs ≡ false) × IsDistinct xs

contains-above : (m : ℕ) (xs : List ℕ) → All (λ y. m < y) xs → contains m xs ≡ false
unfolding contains
contains-above m [] h = refl
contains-above m (x ∷ xs) h = ground (arith, h.0, contains-above m xs h.1)

pub contains-append :
    (m k : ℕ) (xs : List ℕ) → contains m (xs ++ k ∷ []) ≡ (contains m xs || k == m)
unfolding contains
contains-append m k [] = ground arith
contains-append m k (x ∷ xs) = ground (arith, contains-append m k xs)

contains-insert : (m x : ℕ) (xs : List ℕ) → contains m (insert ltb x xs) ≡ (x == m || contains m xs)
unfolding contains insert
contains-insert m x [] = refl
contains-insert m x (y ∷ ys) = ground (arith, contains-insert m x ys)

pub contains-sorted : (m : ℕ) (xs : List ℕ) → contains m (sorted ltb xs) ≡ contains m xs
unfolding contains sorted
contains-sorted m [] = refl
contains-sorted m (x ∷ xs) =
    ground (arith, contains-insert m x (sorted ltb xs), contains-sorted m xs)

insert-All-below :
    (z x : ℕ) (xs : List ℕ) → z < x → All (λ y. z < y) xs → All (λ y. z < y) (insert ltb x xs)
unfolding insert
insert-All-below z x [] h k = (h, tt)
insert-All-below z x (y ∷ ys) h k = elim (Bool-cases (ltb y x)) [
  | inl below ↦ rw below (k.0, insert-All-below z x ys h k.1)
  | inr above ↦ rw above (h, k)
]

or_right : (a b : Bool) → (a || b) ≡ false → b ≡ false
or_right a b h = ground arith

or_left : (a b : Bool) → (a || b) ≡ false → a ≡ false
or_left a b h = ground arith

pub contains-tail : (x y : ℕ) (ys : List ℕ) → contains x (y ∷ ys) ≡ false → contains x ys ≡ false
unfolding contains
contains-tail x y ys h = or_right (y == x) (contains x ys) h

eqb_ltb_lt : (x y : ℕ) → (y == x) ≡ false → ltb y x ≡ false → x < y
eqb_ltb_lt x y h k = ground arith

above_lt : (x y : ℕ) (ys : List ℕ) → contains x (y ∷ ys) ≡ false → ltb y x ≡ false → x < y
unfolding contains
above_lt x y ys h above = eqb_ltb_lt x y (or_left (y == x) (contains x ys) h) above

insert-IsAscending :
    (x : ℕ) (xs : List ℕ) → contains x xs ≡ false → IsAscending xs → IsAscending (insert ltb x xs)
unfolding insert
insert-IsAscending x [] h k = (tt, tt)
insert-IsAscending x (y ∷ ys) h k = elim (Bool-cases (ltb y x)) [
  | inl below ↦ rw below (
    insert-All-below y x ys (ltb→lt y x below) k.0,
    insert-IsAscending x ys (contains-tail x y ys h) k.1,
  )
  | inr above ↦ rw above (
    (
      above_lt x y ys h above,
      All-imply _ _ ys (λ z q. omega (arith, above_lt x y ys h above, q)) k.0,
    ),
    k,
  )
]

pub sorted-IsAscending : (xs : List ℕ) → IsDistinct xs → IsAscending (sorted ltb xs)
unfolding sorted
sorted-IsAscending [] h = tt
sorted-IsAscending (x ∷ xs) h =
    insert-IsAscending x (sorted ltb xs) (contains-sorted x xs ∙ h.0) (sorted-IsAscending xs h.1)

-- Ascending lists with the same members are the same.
contains-head : (x : ℕ) (xs : List ℕ) → contains x (x ∷ xs) ≡ true
unfolding contains
contains-head x xs = rw (eqb_refl x) refl

head_le : (x y : ℕ) (ys : List ℕ) → IsAscending (y ∷ ys) → contains x (y ∷ ys) ≡ true → y ≤ x
unfolding contains
head_le x y ys asc h = elim (Bool-cases (ltb x y)) [
  | inl below ↦ absurd (
      ground (
        arith,
        contains-above x ys (All-imply _ _ ys (λ z q. omega (arith, ltb→lt x y below, q)) asc.0),
      ))
  | inr above ↦ ltb→le x y above
]

same_tail :
    (x : ℕ) (xs ys : List ℕ)
    → IsAscending (x ∷ xs)
    → IsAscending (x ∷ ys)
    → ((m : ℕ) → contains m (x ∷ xs) ≡ contains m (x ∷ ys))
    → (m : ℕ) → contains m xs ≡ contains m ys
unfolding contains
same_tail x xs ys asc asc' h m = elim (Bool-cases (x == m)) [
  | inl own ↦
      let e = eqb→eq x m own in
      subst (λ n. contains n xs ≡ contains n ys) e
        (contains-above x xs asc.0 ∙ sym (contains-above x ys asc'.0))
  | inr other ↦ ground (arith, h m)
]

pub ascending_ext :
    (xs ys : List ℕ)
    → IsAscending xs
    → IsAscending ys
    → ((m : ℕ) → contains m xs ≡ contains m ys)
    → xs ≡ ys
unfolding contains
ascending_ext [] [] asc asc' h = refl
ascending_ext [] (y ∷ ys) asc asc' h = absurd (ground (arith, h y, contains-head y ys))
ascending_ext (x ∷ xs) [] asc asc' h = absurd (ground (arith, h x, contains-head x xs))
ascending_ext (x ∷ xs) (y ∷ ys) asc asc' h =
    let e : x ≡ y = omega (
      arith,
      head_le y x xs asc (h y ∙ contains-head y ys),
      head_le x y ys asc' (sym (h x) ∙ contains-head x xs),
    ) in
    let asc'' = subst (λ z. IsAscending (z ∷ ys)) (sym e) asc' in
    let h' = λ (m : ℕ). subst (λ z. contains m (x ∷ xs) ≡ contains m (z ∷ ys)) (sym e) (h m) in
    subst (λ z. (x ∷ xs) ≡ (z ∷ ys)) e
      (ap (λ zs. x ∷ zs) (ascending_ext xs ys asc.1 asc'.1 (same_tail x xs ys asc asc'' h')))
