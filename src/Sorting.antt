-- ===== src/Sorting.antt =====
-- Python's `sorted` by a key: stable, and it only asks whether one key is below another.
use rag_knowledge_platform_f.Prelude.{
  ◌+◌, Bool, true, false, List, [], ◌∷◌, ◌≡◌, refl, inl, inr, All, length, arith, if◌then◌else◌,
  Bool-cases,
}
use mathlib.Core.List.{Perm}
use mathlib.Core.List.Perm

module _ {A : Type 0} (before : A → A → Bool) where
  -- `x` stands before the items that it came before, so it passes only what is below it.
  unfoldable pub insert : A → List A → List A
  insert x [] = x ∷ []
  insert x (y ∷ ys) = if before y x then y ∷ insert x ys else x ∷ y ∷ ys

  unfoldable pub sorted : List A → List A
  unfolding insert
  sorted [] = []
  sorted (x ∷ xs) = insert x (sorted xs)

  -- Nothing that stands later is below what stands earlier.
  abbrev pub IsSorted : List A → Type 0
  IsSorted [] = Unit
  IsSorted (x ∷ xs) = All (λ y. before y x ≡ false) xs × IsSorted xs

  insert-perm : (x : A) (ys : List A) → Perm (insert x ys) (x ∷ ys)
  unfolding insert
  insert-perm x [] = Perm.refl (x ∷ [])
  insert-perm x (y ∷ ys) = elim (Bool-cases (before y x)) [
    | inl below ↦ rw below (Perm.trans (Perm.cons y (insert-perm x ys)) (Perm.swap x y ys))
    | inr above ↦ rw above (Perm.refl (x ∷ y ∷ ys))
  ]

  -- Sorting only reorders.
  pub sorted-perm : (xs : List A) → Perm (sorted xs) xs
  unfolding sorted
  sorted-perm [] = Perm.refl []
  sorted-perm (x ∷ xs) = Perm.trans (insert-perm x (sorted xs)) (Perm.cons x (sorted-perm xs))

  length-insert : (x : A) (ys : List A) → length (insert x ys) ≡ length ys + 1
  unfolding insert
  length-insert x [] = refl
  length-insert x (y ∷ ys) = elim (Bool-cases (before y x)) [
    | inl below ↦ rw below (omega (arith, length-insert x ys))
    | inr above ↦ rw above (omega arith)
  ]

  pub length-sorted : (xs : List A) → length (sorted xs) ≡ length xs
  unfolding sorted
  length-sorted [] = refl
  length-sorted (x ∷ xs) = omega (arith, length-insert x (sorted xs), length-sorted xs)

  insert-All : (P : A → Type 0) (x : A) (ys : List A) → P x → All P ys → All P (insert x ys)
  unfolding insert
  insert-All P x [] h k = (h, tt)
  insert-All P x (y ∷ ys) h k = elim (Bool-cases (before y x)) [
    | inl below ↦ rw below (k.0, insert-All P x ys h k.1)
    | inr above ↦ rw above (h, k)
  ]

  pub sorted-All : (P : A → Type 0) (xs : List A) → All P xs → All P (sorted xs)
  unfolding sorted
  sorted-All P [] h = tt
  sorted-All P (x ∷ xs) h = insert-All P x (sorted xs) h.0 (sorted-All P xs h.1)

-- What a key's comparison has to be for the result to be sorted.
pub record IsWeakOrder {A : Type 0} (before : A → A → Bool) : Type 0 where
  pub asym : (x y : A) → before x y ≡ true → before y x ≡ false
  pub co_trans : (x y z : A) → before z y ≡ false → before y x ≡ false → before z x ≡ false

module _ {A : Type 0} (before : A → A → Bool) (order : IsWeakOrder before) where
  All-above :
      (x y : A) (ys : List A)
      → before y x ≡ false
      → All (λ z. before z y ≡ false) ys
      → All (λ z. before z x ≡ false) ys
  All-above x y [] h k = tt
  All-above x y (z ∷ ys) h k = (order.co_trans x y z k.0 h, All-above x y ys h k.1)

  insert-IsSorted :
      (x : A) (ys : List A) → IsSorted before ys → IsSorted before (insert before x ys)
  unfolding insert
  insert-IsSorted x [] h = (tt, tt)
  insert-IsSorted x (y ∷ ys) h = elim (Bool-cases (before y x)) [
    | inl below ↦ rw below (
      insert-All before (λ z. before z y ≡ false) x ys (order.asym y x below) h.0,
      insert-IsSorted x ys h.1,
    )
    | inr above ↦ rw above ((above, All-above x y ys above h.0), h)
  ]

  pub sorted-IsSorted : (xs : List A) → IsSorted before (sorted before xs)
  unfolding sorted
  sorted-IsSorted [] = tt
  sorted-IsSorted (x ∷ xs) = insert-IsSorted x (sorted before xs) (sorted-IsSorted xs)
