-- ===== src/Usage.antt =====
-- api/routes/usage.py: the rollup of a tenant's usage rows.
pub mod Totals
use rag_knowledge_platform_f.Prelude.{
  ℕ, ◌+◌, ◌*◌, Bool, true, false, ◌&&◌, ◌||◌, Option, none, some, List, [], ◌∷◌, map, length, leb,
  ltb, ◌==◌, if◌then◌else◌,
}
use rag_knowledge_platform_f.Text.{Text, text_eq}
use rag_knowledge_platform_f.Sorting.{sorted}
use rag_knowledge_platform_f.Security.{TokenClaims}
use rag_knowledge_platform_f.Answering.{UsageRecord}

-- A usage row with its `created_at`, in seconds.
pub record UsageRow (D : Type 0) : Type 0 where
  pub row : UsageRecord D
  pub created_at : ℕ

-- `UsageByModelOut` and `UsageSummaryOut`.
pub record UsageByModelOut (F : Type 0) : Type 0 where
  pub model : Text
  pub calls : ℕ
  pub input_tokens : ℕ
  pub output_tokens : ℕ
  pub cost_usd : Option F

pub record UsageSummaryOut (F : Type 0) : Type 0 where
  pub days : ℕ
  pub total_calls : ℕ
  pub total_input_tokens : ℕ
  pub total_output_tokens : ℕ
  pub total_cost_usd : Option F
  pub by_model : List (UsageByModelOut F)

-- `func.sum` of costs, of those that are not NULL, `float`, the sum of floats, and the order of texts of
-- the database.
pub record Costs (F D : Type 0) : Type 0 where
  pub sum_decimals : List D → D
  pub float : D → F
  pub zero_float : F
  pub plus : F → F → F
  pub text_before : Text → Text → Bool

unfoldable pub sum_of : {A : Type 0} → (A → ℕ) → List A → ℕ
sum_of f [] = 0
sum_of f (x ∷ xs) = f x + sum_of f xs

abbrev pub uncosted_row : {D : Type 0} → UsageRow D → ℕ
uncosted_row r = elim r.row.cost_usd [ none ↦ 1 | some c ↦ 0 ]

module _ {F D : Type 0} (costs : Costs F D) where
  -- The rows of the tenant since `days` days before `now`.
  unfoldable pub selected : (now days : ℕ) → TokenClaims → List (UsageRow D) → List (UsageRow D)
  selected now days tenant [] = []
  selected now days tenant (r ∷ rows) =
      let rest = selected now days tenant rows in
      if r.row.tenant_id == tenant.tenant_id && leb now (r.created_at + days * 86400)
      then r ∷ rest
      else rest

  -- `group_by(UsageRecord.model)`.
  unfoldable pub add_row :
      UsageRow D → List (Text × List (UsageRow D)) → List (Text × List (UsageRow D))
  add_row r [] = (r.row.model, r ∷ []) ∷ []
  add_row r ((model, rows) ∷ groups) =
      let rest = add_row r groups in
      if text_eq model r.row.model then (model, r ∷ rows) ∷ groups else (model, rows) ∷ rest

  unfoldable pub group_by_model : List (UsageRow D) → List (Text × List (UsageRow D))
  unfolding add_row
  group_by_model [] = []
  group_by_model (r ∷ rows) = add_row r (group_by_model rows)

  -- The costs that are not NULL.
  unfoldable pub known_costs : List (UsageRow D) → List D
  known_costs [] = []
  known_costs (r ∷ rows) =
      let rest = known_costs rows in elim r.row.cost_usd [ none ↦ rest | some c ↦ c ∷ rest ]

  -- The row of a group, as `UsageByModelOut`.
  unfoldable pub usage_of : Text × List (UsageRow D) → UsageByModelOut F
  unfolding known_costs sum_of
  usage_of (model, rows) = record {
    model = model;
    calls = length rows;
    input_tokens = sum_of (λ r. r.row.input_tokens) rows;
    output_tokens = sum_of (λ r. r.row.output_tokens) rows;
    cost_usd =
        if ltb 0 (sum_of uncosted_row rows)
        then none
        else some (costs.float (costs.sum_decimals (known_costs rows)));
  }

  unfoldable pub any_uncosted : List (UsageByModelOut F) → Bool
  any_uncosted [] = false
  any_uncosted (m ∷ ms) = elim m.cost_usd [ none ↦ true | some c ↦ any_uncosted ms ]

  -- `sum` of the costs that are there, from 0.
  unfoldable pub sum_costs : F → List (UsageByModelOut F) → F
  sum_costs total [] = total
  sum_costs total (m ∷ ms) = elim m.cost_usd [
    | none ↦ sum_costs total ms
    | some c ↦ sum_costs (costs.plus total c) ms
  ]

  unfoldable pub summary : ℕ → List (UsageByModelOut F) → UsageSummaryOut F
  unfolding any_uncosted sum_costs sum_of
  summary days by_model = record {
    days = days;
    total_calls = sum_of (λ m. m.calls) by_model;
    total_input_tokens = sum_of (λ m. m.input_tokens) by_model;
    total_output_tokens = sum_of (λ m. m.output_tokens) by_model;
    total_cost_usd =
        if any_uncosted by_model then none else some (sum_costs costs.zero_float by_model);
    by_model = by_model;
  }

  -- `usage_summary`, at the time `now`.
  unfoldable pub usage_summary :
      (now days : ℕ) → TokenClaims → List (UsageRow D) → UsageSummaryOut F
  unfolding selected group_by_model usage_of summary
  usage_summary now days tenant rows =
      let groups =
        sorted (λ a b. costs.text_before a.0 b.0)
          (group_by_model (selected now days tenant rows)) in
      summary days (map usage_of groups)
