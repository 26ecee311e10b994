-- ===== src/Evals/Tallies.antt =====
-- What the loop over the questions counts.
use rag_knowledge_platform_f.Prelude.{
  ℕ, ◌+◌, ◌⊎◌, All, is_empty, false, none, some, List, [], ◌∷◌, ◌≡◌, refl, sym, subst, arith,
  if◌then◌else◌, Option-cases, inl, inr,
}
use rag_knowledge_platform_f.Text.{Text}
use rag_knowledge_platform_f.Errors.{Exc, Result, ok, err, ◌>>=◌}
use rag_knowledge_platform_f.Database.{Db}
use rag_knowledge_platform_f.Retrieval.Repository.{Floats, Engine}
use rag_knowledge_platform_f.Retrieval.{Mode, RetrievedChunk, RetrievalService, search}
use rag_knowledge_platform_f.Evals.{Question, fact_of, any_holds, count_facts, count_supported}
use rag_knowledge_platform_f.Evals.Parts.{Holds, Supports, any_holds_cases}

module _ {V F : Type 0} (floats : Floats F) (engine : Engine V F) (service : RetrievalService V F)
    (tenant_id top_n : ℕ) (db : Db V) (lower : Text → Text) (rate : ℕ → ℕ → F) where
  abbrev answer_to : Question → Result (List (RetrievedChunk F))
  answer_to q = search floats engine service tenant_id q.question Mode.hybrid (some top_n) db

  -- No fact is expected, or an empty one.
  abbrev pub HasNoFact : Question → Type 0
  HasNoFact q = (q.expected_fact ≡ none) ⊎ (q.expected_fact ≡ some [])

  -- The fact that is expected, which is not empty.
  abbrev pub Expects : Question → Text → Type 0
  Expects q fact = (q.expected_fact ≡ some fact) × (is_empty fact ≡ false)

  -- How many questions have a fact, and for how many of these a result of their search has the fact
  -- in its content.
  pub data Tallied : List Question → (given held : ℕ) → Type 0 where
    no_more : Tallied [] 0 0
    no_fact :
        {questions : List Question} {n s : ℕ}
        → (q : Question) → HasNoFact q
        → Tallied questions n s
        → Tallied (q ∷ questions) n s
    supported :
        {questions : List Question} {n s : ℕ}
        → (q : Question) (fact : Text) (results : List (RetrievedChunk F)) → Expects q fact
        → answer_to q ≡ ok results
        → Supports lower fact results
        → Tallied questions n s
        → Tallied (q ∷ questions) (1 + n) (1 + s)
    unsupported :
        {questions : List Question} {n s : ℕ}
        → (q : Question) (fact : Text) (results : List (RetrievedChunk F)) → Expects q fact
        → answer_to q ≡ ok results
        → All (λ r. ¬ Holds lower fact r) results
        → Tallied questions n s
        → Tallied (q ∷ questions) (1 + n) s

  -- The exception that the search of the first question with a fact raises that fails.
  pub data Raised : List Question → Exc → Type 0 where
    here :
        {questions : List Question}
        → (q : Question) (fact : Text) (e : Exc) → Expects q fact
        → answer_to q ≡ err e
        → Raised (q ∷ questions) e
    without :
        {questions : List Question} {e : Exc}
        → (q : Question) → HasNoFact q
        → Raised questions e
        → Raised (q ∷ questions) e
    later :
        {questions : List Question} {e : Exc}
        → (q : Question) (results : List (RetrievedChunk F)) → answer_to q ≡ ok results
        → Raised questions e
        → Raised (q ∷ questions) e

  -- What the loop adds to the number that it begins with.
  abbrev pub Adds : List Question → ℕ → Result ℕ → Type 0
  Adds questions before (ok n) =
      (s : ℕ) × (n ≡ before + s) × Tallied questions (count_facts questions) s
  Adds questions before (err e) = Raised questions e

  abbrev counted : List Question → ℕ → Result ℕ
  counted questions before =
      count_supported floats engine service tenant_id top_n db lower rate questions before

  fact_of_cases :
      (q : Question)
      → ((fact_of q ≡ none) × HasNoFact q)
        ⊎ ((fact : Text) × (fact_of q ≡ some fact) × Expects q fact)
  unfolding fact_of
  fact_of_cases q = elim (Option-cases q.expected_fact) [
    | inl missing ↦ inl (rw missing refl, inl missing)
    | inr ([], given) ↦ inl (rw given refl, inr given)
    | inr (c ∷ fact, given) ↦ inr (c ∷ fact, rw given refl, (given, refl))
  ]

  count_missing :
      (q : Question) (questions : List Question) (before : ℕ)
      → fact_of q ≡ none
      → counted (q ∷ questions) before ≡ counted questions before
  unfolding count_supported
  count_missing q questions before missing = rw (missing, count_supported) refl

  count_given :
      (q : Question) (fact : Text) (questions : List Question) (before : ℕ)
      → fact_of q ≡ some fact
      → counted (q ∷ questions) before ≡ (
          answer_to q >>= (λ retrieved.
            counted questions (if any_holds lower fact retrieved then before + 1 else before)))
  unfolding count_supported
  count_given q fact questions before given = rw (given, count_supported) refl

  count_facts_missing :
      (q : Question) (questions : List Question)
      → fact_of q ≡ none
      → count_facts questions ≡ count_facts (q ∷ questions)
  unfolding count_facts
  count_facts_missing q questions missing = rw missing (omega arith)

  missing-Adds :
      (q : Question) (questions : List Question) (before : ℕ) (r : Result ℕ)
      → fact_of q ≡ none
      → HasNoFact q
      → Adds questions before r
      → Adds (q ∷ questions) before r
  missing-Adds q questions before (err e) missing h k = Raised.without q h k
  missing-Adds q questions before (ok n) missing h (s, sum, tallied) = (
    s,
    sum,
    subst (λ n. Tallied (q ∷ questions) n s) (count_facts_missing q questions missing)
        (Tallied.no_fact q h tallied),
  )

  held-Adds :
      (q : Question) (fact : Text) (results : List (RetrievedChunk F)) (questions : List Question)
      (before : ℕ) (r : Result ℕ)
      → fact_of q ≡ some fact
      → Expects q fact
      → answer_to q ≡ ok results
      → Supports lower fact results
      → Adds questions (before + 1) r
      → Adds (q ∷ questions) before r
  unfolding count_facts
  held-Adds q fact results questions before (err e) given h found holds k =
      Raised.later q results found k
  held-Adds q fact results questions before (ok n) given h found holds (s, sum, tallied) =
      (1 + s, omega (arith, sum), rw given (Tallied.supported q fact results h found holds tallied))

  lacked-Adds :
      (q : Question) (fact : Text) (results : List (RetrievedChunk F)) (questions : List Question)
      (before : ℕ) (r : Result ℕ)
      → fact_of q ≡ some fact
      → Expects q fact
      → answer_to q ≡ ok results
      → All (λ r. ¬ Holds lower fact r) results
      → Adds questions before r
      → Adds (q ∷ questions) before r
  unfolding count_facts
  lacked-Adds q fact results questions before (err e) given h found lacks k =
      Raised.later q results found k
  lacked-Adds q fact results questions before (ok n) given h found lacks (s, sum, tallied) =
      (s, sum, rw given (Tallied.unsupported q fact results h found lacks tallied))

  answered-Adds :
      (q : Question) (fact : Text) (questions : List Question) (before : ℕ)
      (answer : Result (List (RetrievedChunk F)))
      → fact_of q ≡ some fact
      → Expects q fact
      → answer_to q ≡ answer
      → ((n : ℕ) → Adds questions n (counted questions n))
      → Adds (q ∷ questions) before (
          answer >>= (λ retrieved.
            counted questions (if any_holds lower fact retrieved then before + 1 else before)))
  answered-Adds q fact questions before (err e) given h raised rest = Raised.here q fact e h raised
  answered-Adds q fact questions before (ok results) given h found rest =
      elim (any_holds_cases lower fact results) [
        | inl (held, holds) ↦
            rw held
              (held-Adds q fact results questions before _ given h found holds (rest (before + 1)))
        | inr (none_held, lacks) ↦
            rw none_held
              (lacked-Adds q fact results questions before _ given h found lacks (rest before))
      ]

  pub count_supported-Adds :
      (questions : List Question) (before : ℕ) → Adds questions before (counted questions before)
  unfolding count_supported count_facts
  count_supported-Adds [] before = (0, omega arith, Tallied.no_more)
  count_supported-Adds (q ∷ questions) before = elim (fact_of_cases q) [
    | inl (missing, h) ↦
        subst (Adds (q ∷ questions) before) (sym (count_missing q questions before missing))
          (missing-Adds q questions before _ missing h (count_supported-Adds questions before))
    | inr (fact, given, h) ↦
        subst (Adds (q ∷ questions) before) (sym (count_given q fact questions before given)) (
          answered-Adds q fact questions before (answer_to q) given h refl
            (λ n. count_supported-Adds questions n))
  ]
