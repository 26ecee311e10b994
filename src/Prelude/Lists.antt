-- ===== src/Prelude/Lists.antt =====
-- Lists measured and cut by native numbers, under the library's names.
use Prim.Native.Nat.{ℕ, zero, suc, ◌+◌, ◌-◌, ◌≤◌, ◌<◌}
use mathlib.Core.Path.{◌≡◌, refl}
use mathlib.Core.Bool.{Bool, true, false}
use mathlib.Core.List.{List, [], ◌∷◌, ◌++◌, reverse, reverse-append}
use native.Mathlib.Omega.{arith}

module _ {ℓ} {A : Type ℓ} where
  abbrev pub length : List A → ℕ
  length [] = 0
  length (x ∷ xs) = suc (length xs)

  abbrev pub take : ℕ → List A → List A
  take zero xs = []
  take (suc n) [] = []
  take (suc n) (x ∷ xs) = x ∷ take n xs

  abbrev pub drop : ℕ → List A → List A
  drop zero xs = xs
  drop (suc n) [] = []
  drop (suc n) (x ∷ xs) = drop n xs

  -- `not xs` of a Python list.
  abbrev pub is_empty : List A → Bool
  is_empty [] = true
  is_empty (x ∷ xs) = false

  -- A predicate that holds of every item.
  abbrev pub All {κ} : (A → Type κ) → List A → Type κ
  All P [] = Unit
  All P (x ∷ xs) = P x × All P xs

  abbrev pub concat : List (List A) → List A
  concat [] = []
  concat (xs ∷ xss) = xs ++ concat xss

  -- `[xs[i : i + step] for i in range(0, len(xs), step)]`, the fuel being at least `len(xs)`.
  unfoldable pub slices : ℕ → ℕ → List A → List (List A)
  slices zero step xs = []
  slices (suc fuel) step [] = []
  slices (suc fuel) step (x ∷ xs) = take step (x ∷ xs) ∷ slices fuel step (drop step (x ∷ xs))

  pub length-append : (xs ys : List A) → length (xs ++ ys) ≡ length xs + length ys
  length-append [] ys = omega arith
  length-append (x ∷ xs) ys = omega (arith, length-append xs ys)

  pub take-append-drop : (n : ℕ) (xs : List A) → take n xs ++ drop n xs ≡ xs
  take-append-drop zero xs = refl
  take-append-drop (suc n) [] = refl
  take-append-drop (suc n) (x ∷ xs) = rw (take-append-drop n xs)

  pub length-take : (n : ℕ) (xs : List A) → length (take n xs) ≤ n
  length-take zero xs = omega arith
  length-take (suc n) [] = omega arith
  length-take (suc n) (x ∷ xs) = omega (arith, length-take n xs)

  pub length-drop : (n : ℕ) (xs : List A) → length (drop n xs) ≡ length xs - n
  length-drop zero xs = omega arith
  length-drop (suc n) [] = omega arith
  length-drop (suc n) (x ∷ xs) = omega (arith, length-drop n xs)

module _ {ℓ} {A : Type ℓ} where
  pub is_empty-append : (xs ys : List A) → is_empty ys ≡ false → is_empty (xs ++ ys) ≡ false
  is_empty-append [] ys h = h
  is_empty-append (x ∷ xs) ys h = refl

  pub reverse_snoc : (x : A) (xs : List A) → reverse (x ∷ xs) ≡ reverse xs ++ x ∷ []
  reverse_snoc x xs = reverse-append (x ∷ []) xs

module _ {ℓ κ} {A : Type ℓ} (P : A → Type κ) where
  pub All-append : (xs ys : List A) → All P xs → All P ys → All P (xs ++ ys)
  All-append [] ys h k = k
  All-append (x ∷ xs) ys h k = (h.0, All-append xs ys h.1 k)

  pub All-take : (n : ℕ) (xs : List A) → All P xs → All P (take n xs)
  All-take zero xs h = tt
  All-take (suc n) [] h = tt
  All-take (suc n) (x ∷ xs) h = (h.0, All-take n xs h.1)

  pub All-drop : (n : ℕ) (xs : List A) → All P xs → All P (drop n xs)
  All-drop zero xs h = h
  All-drop (suc n) [] h = tt
  All-drop (suc n) (x ∷ xs) h = All-drop n xs h.1

module _ {ℓ} {A : Type ℓ} where
  -- The slices put together are the list: none is lost, repeated or moved.
  pub concat-slices :
      (fuel step : ℕ) (xs : List A)
      → length xs ≤ fuel
      → 0 < step
      → concat (slices fuel step xs) ≡ xs
  unfolding slices
  concat-slices zero step [] h pos = refl
  concat-slices zero step (x ∷ xs) h pos = absurd (omega arith)
  concat-slices (suc fuel) step [] h pos = refl
  concat-slices (suc fuel) step (x ∷ xs) h pos =
      rw
        (concat-slices fuel step (drop step (x ∷ xs)) (omega (arith, length-drop step (x ∷ xs)))
          pos)
        (take-append-drop step (x ∷ xs))

  -- Every slice has at most `step` items.
  pub slices-le : (fuel step : ℕ) (xs : List A) → All (λ s. length s ≤ step) (slices fuel step xs)
  unfolding slices
  slices-le zero step xs = tt
  slices-le (suc fuel) step [] = tt
  slices-le (suc fuel) step (x ∷ xs) =
      (length-take step (x ∷ xs), slices-le fuel step (drop step (x ∷ xs)))

module _ {ℓ κ} {A : Type ℓ} (P : A → Type κ) where
  pub All-slices : (fuel step : ℕ) (xs : List A) → All P xs → All (All P) (slices fuel step xs)
  unfolding slices
  All-slices zero step xs h = tt
  All-slices (suc fuel) step [] h = tt
  All-slices (suc fuel) step (x ∷ xs) h = (
    All-take P step (x ∷ xs) h,
    All-slices fuel step (drop step (x ∷ xs)) (All-drop P step (x ∷ xs) h),
  )

pub All-imply {ℓ κ μ} :
    {A : Type ℓ} (P : A → Type κ) (Q : A → Type μ) (xs : List A)
    → ((x : A) → P x → Q x)
    → All P xs
    → All Q xs
All-imply P Q [] f h = tt
All-imply P Q (x ∷ xs) f h = (f x h.0, All-imply P Q xs f h.1)
