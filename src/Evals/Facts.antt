-- ===== src/Evals/Facts.antt =====
-- What the answer quality counts.
use rag_knowledge_platform_f.Prelude.{
  ℕ, zero, suc, false, Option, none, some, List, ◌≡◌, refl, subst, ◌==◌, arith,
}
use rag_knowledge_platform_f.Text.{Text}
use rag_knowledge_platform_f.Errors.{Result, ok, err, ◌>>=◌}
use rag_knowledge_platform_f.Database.{Db}
use rag_knowledge_platform_f.Retrieval.Repository.{Floats, Engine}
use rag_knowledge_platform_f.Retrieval.{RetrievalService}
use rag_knowledge_platform_f.Evals.{
  Question, AnswerQuality, count_facts, quality_of, score_answer_quality,
}
use rag_knowledge_platform_f.Evals.Tallies.{Tallied, Raised, Adds, count_supported-Adds}

module _ {V F : Type 0} (floats : Floats F) (engine : Engine V F) (service : RetrievalService V F)
    (tenant_id top_n : ℕ) (db : Db V) (lower : Text → Text) (rate : ℕ → ℕ → F) where
  -- The rate of `s` out of `n`, of which there is none if `n` is 0.
  abbrev pub IsRate : (n s : ℕ) → Option F → Type 0
  IsRate zero s r = r ≡ none
  IsRate (suc n) s r = r ≡ some (rate s (suc n))

  -- What is returned, or the exception that is raised.
  abbrev pub IsQuality : List Question → Result (AnswerQuality F) → Type 0
  IsQuality questions (ok q) =
      Tallied floats engine service tenant_id top_n db lower rate questions q.questions_with_fact
        q.fact_in_retrieved_context
      × IsRate q.questions_with_fact q.fact_in_retrieved_context q.context_support_rate
  IsQuality questions (err e) =
      Raised floats engine service tenant_id top_n db lower rate questions e

  suc_nonzero : (n : ℕ) → (suc n == 0) ≡ false
  suc_nonzero n = ground arith

  quality_of-IsRate :
      (n s : ℕ)
      → IsRate n s
          (quality_of floats engine service tenant_id top_n db lower rate n s).context_support_rate
  unfolding quality_of
  quality_of-IsRate zero s = refl
  quality_of-IsRate (suc n) s = rw (suc_nonzero n) refl

  quality_of-IsQuality :
      (questions : List Question) (r : Result ℕ)
      → Adds floats engine service tenant_id top_n db lower rate questions 0 r
      → IsQuality questions (
          r >>= (λ held. ok (
            quality_of floats engine service tenant_id top_n db lower rate
              (count_facts questions)
              held)))
  unfolding quality_of
  quality_of-IsQuality questions (err e) h = h
  quality_of-IsQuality questions (ok n) (s, sum, tallied) =
      let whole : s ≡ n = omega (arith, sum) in
      (
        subst
            (Tallied floats engine service tenant_id top_n db lower rate questions
              (count_facts questions))
            whole tallied,
        quality_of-IsRate (count_facts questions) n,
      )

  -- The answer quality counts the questions that expect a fact that is not empty, and those of them
  -- for which a result of the hybrid search has this fact in its content, whatever the case; the rate
  -- is that of the two numbers, and missing if there is no such question. Otherwise it raises the
  -- first exception of a search of such a question.
  pub score_answer_quality-IsQuality :
      (questions : List Question)
      → IsQuality questions
          (score_answer_quality floats engine service tenant_id top_n db lower rate questions)
  unfolding score_answer_quality
  score_answer_quality-IsQuality questions =
      quality_of-IsQuality questions _
        (count_supported-Adds floats engine service tenant_id top_n db lower rate questions 0)
