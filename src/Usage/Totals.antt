-- ===== src/Usage/Totals.antt =====
-- The totals of the rollup and those of the rows.
use rag_knowledge_platform_f.Prelude.{
  ℕ, ◌+◌, ◌*◌, ◌≤◌, ◌==◌, leb, Bool, true, not, List, [], ◌∷◌, ◌≡◌, refl, sym, ap, ◌∙◌, map, length,
  ltb, ltb→lt, ltb→le, lt→ltb, ◌&&◌, Option-cases, arith, Bool-cases, inl, inr,
}
use rag_knowledge_platform_f.Text.{Text, text_eq}
use rag_knowledge_platform_f.Sorting.{sorted, insert}
use rag_knowledge_platform_f.Database.Where.{Picks, nil-Picks, cons-Picks, skip-Picks}
use rag_knowledge_platform_f.Security.{TokenClaims}
use rag_knowledge_platform_f.Auth.{is_some}
use rag_knowledge_platform_f.Usage.{
  UsageRow, UsageByModelOut, UsageSummaryOut, Costs, sum_of, uncosted_row, selected, add_row,
  group_by_model, usage_of, any_uncosted, summary, usage_summary,
}

sum_of-insert :
    {A : Type 0} (before : A → A → Bool) (f : A → ℕ) (x : A) (ys : List A)
    → sum_of f (insert before x ys) ≡ f x + sum_of f ys
unfolding sum_of insert
sum_of-insert before f x [] = refl
sum_of-insert before f x (y ∷ ys) = elim (Bool-cases (before y x)) [
  | inl below ↦ rw below (omega (arith, sum_of-insert before f x ys))
  | inr above ↦ rw above refl
]

sum_of-sorted :
    {A : Type 0} (before : A → A → Bool) (f : A → ℕ) (xs : List A)
    → sum_of f (sorted before xs) ≡ sum_of f xs
unfolding sum_of sorted
sum_of-sorted before f [] = refl
sum_of-sorted before f (x ∷ xs) =
    sum_of-insert before f x (sorted before xs) ∙ ap (λ n. f x + n) (sum_of-sorted before f xs)

sum_of-map :
    {A B : Type 0} (f : B → ℕ) (g : A → B) (xs : List A)
    → sum_of f (map g xs) ≡ sum_of (λ x. f (g x)) xs
unfolding sum_of
sum_of-map f g [] = refl
sum_of-map f g (x ∷ xs) = ap (λ n. f (g x) + n) (sum_of-map f g xs)

sum_of_cong :
    {A : Type 0} (f g : A → ℕ) → ((x : A) → f x ≡ g x) → (xs : List A) → sum_of f xs ≡ sum_of g xs
unfolding sum_of
sum_of_cong f g same [] = refl
sum_of_cong f g same (x ∷ xs) = rw (same x, sum_of_cong f g same xs) refl

sum_of_one : {A : Type 0} (xs : List A) → sum_of (λ x. 1) xs ≡ length xs
unfolding sum_of
sum_of_one [] = refl
sum_of_one (x ∷ xs) = omega (arith, sum_of_one xs)

module _ {F D : Type 0} (costs : Costs F D) (f : UsageRow D → ℕ) where
  sum_of-add_row :
      (r : UsageRow D) (groups : List (Text × List (UsageRow D)))
      → sum_of (λ (g : Text × List (UsageRow D)). sum_of f g.1) (add_row costs r groups)
        ≡ f r + sum_of (λ (g : Text × List (UsageRow D)). sum_of f g.1) groups
  unfolding sum_of add_row
  sum_of-add_row r [] = omega arith
  sum_of-add_row r ((model, rows) ∷ groups) = elim (Bool-cases (text_eq model r.row.model)) [
    | inl same ↦ rw same (omega arith)
    | inr other ↦ rw other (omega (arith, sum_of-add_row r groups))
  ]

  sum_of-group_by_model :
      (rows : List (UsageRow D))
      → sum_of (λ (g : Text × List (UsageRow D)). sum_of f g.1) (group_by_model costs rows)
        ≡ sum_of f rows
  unfolding sum_of group_by_model
  sum_of-group_by_model [] = refl
  sum_of-group_by_model (r ∷ rows) =
      sum_of-add_row r (group_by_model costs rows) ∙ ap (λ n. f r + n) (sum_of-group_by_model rows)

  -- A number that each group adds up is in the end the sum over the rows.
  total :
      (out : UsageByModelOut F → ℕ) (rows : List (UsageRow D))
      → ((g : Text × List (UsageRow D)) → out (usage_of costs g) ≡ sum_of f g.1)
      → sum_of out (
          map
            (usage_of costs)
            (sorted (λ a b. costs.text_before a.0 b.0) (group_by_model costs rows)))
        ≡ sum_of f rows
  total out rows each =
      sum_of-map out (usage_of costs)
        (sorted (λ a b. costs.text_before a.0 b.0) (group_by_model costs rows))
      ∙ sum_of_cong _ _ each (sorted (λ a b. costs.text_before a.0 b.0) (group_by_model costs rows))
      ∙ sum_of-sorted (λ a b. costs.text_before a.0 b.0)
          (λ (g : Text × List (UsageRow D)). sum_of f g.1) (group_by_model costs rows)
      ∙ sum_of-group_by_model rows

-- Whether every row has a cost.
abbrev pub all_costed : {D : Type 0} → List (UsageRow D) → Bool
all_costed [] = true
all_costed (r ∷ rows) = is_some r.row.cost_usd && all_costed rows

all_costed_lem :
    {D : Type 0} (rows : List (UsageRow D))
    → not (ltb 0 (sum_of uncosted_row rows)) ≡ all_costed rows
unfolding sum_of
all_costed_lem [] = refl
all_costed_lem (r ∷ rows) = elim (Option-cases r.row.cost_usd) [
  | inl missing ↦ rw missing (ap not (lt→ltb 0 _ (omega arith)))
  | inr (c, known) ↦ rw known (ap (λ n. not (ltb 0 n)) (omega arith) ∙ all_costed_lem rows)
]

module _ {F D : Type 0} (costs : Costs F D) where
  any_uncosted_lem :
      (groups : List (Text × List (UsageRow D)))
      → any_uncosted costs (map (usage_of costs) groups)
        ≡ ltb 0 (sum_of (λ (g : Text × List (UsageRow D)). sum_of uncosted_row g.1) groups)
  unfolding any_uncosted usage_of sum_of
  any_uncosted_lem [] = refl
  any_uncosted_lem ((model, rows) ∷ groups) = elim (Bool-cases (ltb 0 (sum_of uncosted_row rows))) [
    | inl lacking ↦ rw lacking (sym (lt→ltb 0 _ (omega (arith, ltb→lt 0 _ lacking))))
    | inr complete ↦
        rw complete (any_uncosted_lem groups ∙ ap (ltb 0) (omega (arith, ltb→le 0 _ complete)))
  ]

  cost_of :
      (days : ℕ) (ms : List (UsageByModelOut F))
      → is_some (summary costs days ms).total_cost_usd ≡ not (any_uncosted costs ms)
  unfolding summary
  cost_of days ms = elim (Bool-cases (any_uncosted costs ms)) [
    | inl lacking ↦ rw lacking refl
    | inr complete ↦ rw complete refl
  ]

  -- The totals are those of the rows: the number of calls and the tokens, and there is a total cost
  -- exactly if each row has a cost.
  abbrev pub IsTotal : UsageSummaryOut F → List (UsageRow D) → Type 0
  IsTotal s rows =
      (s.total_calls ≡ length rows)
      × (s.total_input_tokens ≡ sum_of (λ r. r.row.input_tokens) rows)
      × (s.total_output_tokens ≡ sum_of (λ r. r.row.output_tokens) rows)
      × (is_some s.total_cost_usd ≡ all_costed rows)

  selected-IsTotal :
      (now days : ℕ) (tenant : TokenClaims) (rows : List (UsageRow D))
      → IsTotal (usage_summary costs now days tenant rows) (selected costs now days tenant rows)
  unfolding usage_summary summary usage_of
  selected-IsTotal now days tenant rows =
      let chosen = selected costs now days tenant rows in
      let groups = sorted (λ a b. costs.text_before a.0 b.0) (group_by_model costs chosen) in
      (
        total costs (λ r. 1) (λ m. m.calls) chosen (λ g. sym (sum_of_one g.1)) ∙ sum_of_one chosen,
        total costs (λ r. r.row.input_tokens) (λ m. m.input_tokens) chosen (λ g. refl),
        total costs (λ r. r.row.output_tokens) (λ m. m.output_tokens) chosen (λ g. refl),
        cost_of days (map (usage_of costs) groups)
            ∙ ap not (
                any_uncosted_lem groups
                ∙ ap (ltb 0) (
                    sum_of-sorted _ (λ (g : Text × List (UsageRow D)). sum_of uncosted_row g.1)
                      (group_by_model costs chosen)
                    ∙ sum_of-group_by_model costs uncosted_row chosen))
            ∙ all_costed_lem chosen,
      )

  -- A row of the tenant, from the last `days` days.
  abbrev pub InPeriod : (now days : ℕ) → TokenClaims → UsageRow D → Type 0
  InPeriod now days tenant r =
      (r.row.tenant_id ≡ tenant.tenant_id) × (now ≤ r.created_at + days * 86400)

  selected-Picks :
      (now days : ℕ) (tenant : TokenClaims) (rows : List (UsageRow D))
      → Picks (InPeriod now days tenant) (selected costs now days tenant rows) rows
  unfolding selected
  selected-Picks now days tenant [] = nil-Picks _
  selected-Picks now days tenant (r ∷ rows) =
      elim (Bool-cases
        (r.row.tenant_id == tenant.tenant_id && leb now (r.created_at + days * 86400))) [
          | inl within ↦ rw within (
              cons-Picks _ r _ rows (ground (arith, within), ground (arith, within))
                (selected-Picks now days tenant rows))
          | inr without ↦ rw without (
              skip-Picks _ r _ rows (λ h. ground (arith, without, h.0, h.1))
                (selected-Picks now days tenant rows))
        ]

  -- The totals of the rollup are those of some rows of the table, namely of those that are the
  -- tenant's and not older than the days that are asked for, each as often as the table has it and no
  -- others: the number of calls, the input tokens and the output tokens. There is a total cost exactly
  -- if each of these rows has a cost.
  pub usage_summary-IsTotal :
      (now days : ℕ) (tenant : TokenClaims) (rows : List (UsageRow D))
      → (chosen : List (UsageRow D)) × Picks (InPeriod now days tenant) chosen rows
        × IsTotal (usage_summary costs now days tenant rows) chosen
  usage_summary-IsTotal now days tenant rows = (
    selected costs now days tenant rows,
    selected-Picks now days tenant rows,
    selected-IsTotal now days tenant rows,
  )
