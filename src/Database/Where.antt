-- ===== src/Database/Where.antt =====
-- What a WHERE clause picks from the rows of a table.
use rag_knowledge_platform_f.Prelude.{Bool, List, [], ◌∷◌, ◌++◌, All}
use rag_knowledge_platform_f.Sorting.{sorted, sorted-perm, sorted-All}
use mathlib.Core.List.{Perm, perm_middle}
use mathlib.Core.List.Perm

module _ {A : Type 0} (P : A → Type 0) where
  -- Rows that satisfy a condition, each as often as the table has it: with rows that do not, they
  -- are the table, in another order.
  abbrev pub Picks : (picked rows : List A) → Type 0
  Picks picked rows =
      (others : List A) × All P picked × All (λ x. ¬ P x) others × Perm (picked ++ others) rows

  pub nil-Picks : Picks [] []
  nil-Picks = ([], tt, tt, Perm.refl [])

  pub cons-Picks :
      (x : A) (picked rows : List A) → P x → Picks picked rows → Picks (x ∷ picked) (x ∷ rows)
  cons-Picks x picked rows h (others, chosen, left, same) =
      (others, (h, chosen), left, Perm.cons x same)

  pub skip-Picks :
      (x : A) (picked rows : List A) → (¬ P x) → Picks picked rows → Picks picked (x ∷ rows)
  skip-Picks x picked rows h (others, chosen, left, same) =
      (x ∷ others, chosen, (h, left), Perm.trans (perm_middle picked others) (Perm.cons x same))

  pub sorted-Picks :
      (before : A → A → Bool) (picked rows : List A)
      → Picks picked rows
      → Picks (sorted before picked) rows
  sorted-Picks before picked rows (others, chosen, left, same) = (
    others,
    sorted-All before P picked chosen,
    left,
    Perm.trans (Perm.append_right others (sorted-perm before picked)) same,
  )
