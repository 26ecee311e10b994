-- ===== src/Tests/Rollup.antt =====
-- Usage rows of two tenants and two models, one of them without a cost.
use rag_knowledge_platform_f.Prelude.{ℕ, ◌+◌, Option, none, some, List, [], ◌∷◌, length, ltb}
use rag_knowledge_platform_f.Text.{Text, codes}
use rag_knowledge_platform_f.Database.Where.{Picks}
use rag_knowledge_platform_f.Usage.{UsageRow, Costs, sum_of, usage_summary}
use rag_knowledge_platform_f.Usage.Totals.{IsTotal, InPeriod, usage_summary-IsTotal}
use rag_knowledge_platform_f.Tests.Requests.{tenant}

abbrev costs : Costs ℕ ℕ
costs = record {
  sum_decimals = sum_of (λ c. c);
  float = λ c. c;
  zero_float = 0;
  plus = λ a b. a + b;
  text_before = λ a b. ltb (length a) (length b);
}

abbrev used : (tenant_id created_at : ℕ) → Text → Option ℕ → UsageRow ℕ
used tenant_id created_at model cost = record {
  row = record {
    tenant_id = tenant_id;
    operation = codes "answer";
    model = model;
    input_tokens = 100;
    output_tokens = 20;
    cost_usd = cost;
  };
  created_at = created_at;
}

-- The third row is another tenant's, and the fourth one is too old.
abbrev rows : List (UsageRow ℕ)
rows =
    used 1 900000 (codes "sonnet") (some 3)
    ∷ used 1 950000 (codes "opus") none
    ∷ used 2 950000 (codes "opus") (some 9)
    ∷ used 1 10 (codes "opus") (some 9)
    ∷ used 1 960000 (codes "sonnet") (some 4)
    ∷ []

usage_summary-IsTotal_example :
    (chosen : List (UsageRow ℕ)) × Picks (InPeriod costs 1000000 7 tenant) chosen rows
    × IsTotal costs (usage_summary costs 1000000 7 tenant rows) chosen
usage_summary-IsTotal_example = usage_summary-IsTotal costs 1000000 7 tenant rows
