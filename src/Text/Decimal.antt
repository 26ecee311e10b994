-- ===== src/Text/Decimal.antt =====
-- `str(n)` of a number that is not negative, in ASCII digits.
use rag_knowledge_platform_f.Prelude.{
  ℕ, zero, suc, ◌+◌, ◌/◌, ◌%◌, [], ◌∷◌, ◌++◌, ltb, if◌then◌else◌, ◌≡◌, refl,
}
use rag_knowledge_platform_f.Text.{Text, codes}

-- The fuel is at least the number of digits.
digits_from : ℕ → ℕ → Text
digits_from zero n = []
digits_from (suc fuel) n =
    let more = digits_from fuel (n / 10) in
    if ltb n 10 then (48 + n) ∷ [] else more ++ (48 + n % 10) ∷ []

-- A number has at most as many digits as its successor counts.
unfoldable pub decimal : ℕ → Text
unfolding digits_from
decimal n = digits_from (suc n) n

decimal_runs : decimal 1207 ≡ codes "1207"
unfolding decimal
decimal_runs = refl
