-- ===== src/Retrieval/Dicts.antt =====
-- The dicts of a search: what an update keeps and what a lookup finds.
use rag_knowledge_platform_f.Prelude.{
  ℕ, true, false, Option, none, some, List, [], ◌∷◌, ◌≡◌, refl, sym, ◌∙◌, inl, inr, All, arith,
  ◌==◌, eqb→eq, eqb_refl, ap, if◌then◌else◌, Bool-cases, subst,
}
use rag_knowledge_platform_f.Errors.{ok}
use rag_knowledge_platform_f.Retrieval.{get, get_item, update}

-- The value that an update finds, or the default.
abbrev pub value_or : {A : Type 0} → A → Option A → A
value_or default none = default
value_or default (some v) = v

module _ {A : Type 0} where
  pub get-update :
      (j k : ℕ) (default : A) (f : A → A) (d : List (ℕ × A))
      → get j (update k default f d)
        ≡ (if k == j then some (f (value_or default (get k d))) else get j d)
  unfolding get update
  get-update j k default f [] = refl
  get-update j k default f ((i, v) ∷ d) = ground (arith, get-update j k default f d)

  pub get_item-some : (k : ℕ) (d : List (ℕ × A)) (v : A) → get k d ≡ some v → get_item k d ≡ ok v
  unfolding get_item
  get_item-some k d v e = rw (e, get_item) refl

  pub update-All :
      (P : ℕ × A → Type 0) (k : ℕ) (default : A) (f : A → A) (d : List (ℕ × A))
      → P (k, f default)
      → ((j : ℕ) (v : A) → P (j, v) → P (j, f v))
      → All P d
      → All P (update k default f d)
  unfolding update
  update-All P k default f [] first step h = (first, tt)
  update-All P k default f ((j, v) ∷ d) first step h = elim (Bool-cases (j == k)) [
    | inl same ↦ rw same (step j v h.0, h.1)
    | inr other ↦ rw other (h.0, update-All P k default f d first step h.1)
  ]

  get_own : (j k : ℕ) (u : A) (d : List (ℕ × A)) → (j == k) ≡ true → get k ((j, u) ∷ d) ≡ some u
  unfolding get
  get_own j k u d own = rw own refl

  get_other : (j k : ℕ) (u : A) (d : List (ℕ × A)) → (j == k) ≡ false → get k ((j, u) ∷ d) ≡ get k d
  unfolding get
  get_other j k u d other = rw other refl

  pub get-All :
      (P : ℕ × A → Type 0) (k : ℕ) (v : A) (d : List (ℕ × A))
      → All P d
      → get k d ≡ some v
      → P (k, v)
  unfolding get
  get-All P k v [] h e = absurd (ground arith)
  get-All P k v ((j, u) ∷ d) h e = elim (Bool-cases (j == k)) [
    | inl own ↦
        let same : u ≡ v = ap (value_or v) (sym (get_own j k u d own) ∙ e) in
        subst (λ x. P (k, x)) same (subst (λ i. P (i, u)) (eqb→eq j k own) h.0)
    | inr other ↦ get-All P k v d h.1 (sym (get_other j k u d other) ∙ e)
  ]

-- The key has a value, which satisfies `R`.
abbrev pub Has : {A : Type 0} → (A → Type 0) → ℕ → List (ℕ × A) → Type 0
Has {A} R k d = (v : A) × (get k d ≡ some v) × R v

-- A value, of which nothing is said.
abbrev pub Any : {A : Type 0} → A → Type 0
Any v = Unit

module _ {A : Type 0} (R : A → Type 0) where
  pub Has-update :
      (j k : ℕ) (default : A) (f : A → A) (d : List (ℕ × A))
      → ((v : A) → R (f v))
      → Has R j d
      → Has R j (update k default f d)
  Has-update j k default f d established h = elim (Bool-cases (k == j)) [
    | inl own ↦
        (f (value_or default (get k d)), rw (get-update j k default f d, own) refl, established _)
    | inr other ↦ let (v, e, r) = h in (v, rw (get-update j k default f d, other) e, r)
  ]

  pub Has-update_self :
      (k : ℕ) (default : A) (f : A → A) (d : List (ℕ × A))
      → ((v : A) → R (f v))
      → Has R k (update k default f d)
  Has-update_self k default f d established = (
    f (value_or default (get k d)),
    rw (get-update k k default f d, eqb_refl k) refl,
    established _,
  )
