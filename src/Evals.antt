-- ===== src/Evals.antt =====
-- evals/run_eval.py: the retrieval evaluation. A rate is `round(a / n, 3)`, and `lower` is `str.lower`.
pub mod Hits
pub mod Facts
pub mod Parts
pub mod Tallies
use rag_knowledge_platform_f.Prelude.{
  ℕ, ◌+◌, ◌/◌, max, Bool, true, false, ◌||◌, Option, none, some, List, [], ◌∷◌, ◌++◌, length,
  is_empty, ltb, leb, ◌==◌, if◌then◌else◌,
}
use rag_knowledge_platform_f.Text.{Text, text_eq}
use rag_knowledge_platform_f.Errors.{Result, ok, err, foreign, ◌>>=◌}
use rag_knowledge_platform_f.Auth.{starts_with}
use rag_knowledge_platform_f.Database.{Db}
use rag_knowledge_platform_f.Retrieval.Repository.{Floats, Engine}
use rag_knowledge_platform_f.Retrieval.{Mode, RetrievedChunk, RetrievalService, search}

-- A line of questions.jsonl.
pub record Question : Type 0 where
  pub question : Text
  pub expected_file : Text
  pub expected_fact : Option Text

-- The overlap that `_prepare_tenant` takes for a target.
unfoldable pub prepared_overlap : (configured target : ℕ) → ℕ
prepared_overlap configured target =
    let bound = max (target / 8) 1 in if leb configured bound then configured else bound

-- What `_score_modes` counts for a mode.
pub record Tally (F : Type 0) : Type 0 where
  pub reciprocal_ranks : List F
  pub hits_1 : ℕ
  pub hits_3 : ℕ
  pub hits_5 : ℕ

-- The entry of a mode.
pub record ModeScores (F : Type 0) : Type 0 where
  pub hit_1 : F
  pub hit_3 : F
  pub hit_5 : F
  pub mrr_5 : F

-- What `_score_answer_quality` returns.
pub record AnswerQuality (F : Type 0) : Type 0 where
  pub questions_with_fact : ℕ
  pub fact_in_retrieved_context : ℕ
  pub context_support_rate : Option F

-- The rank of the first result from a file, from `rank` on.
unfoldable pub rank_of : {F : Type 0} → Text → (rank : ℕ) → List (RetrievedChunk F) → Option ℕ
rank_of file rank [] = none
rank_of file rank (r ∷ results) =
    let later = rank_of file (rank + 1) results in
    if text_eq r.filename file then some rank else later

unfoldable pub add_hit : (k : ℕ) → Option ℕ → ℕ → ℕ
add_hit k none n = n
add_hit k (some rank) n = if leb rank k then n + 1 else n

module _ {V F : Type 0} (floats : Floats F) (engine : Engine V F) where
  -- The inner loop, over the questions.
  unfoldable pub tally_rank : Option ℕ → Tally F → Tally F
  unfolding add_hit
  tally_rank rank t = record {
    reciprocal_ranks =
        t.reciprocal_ranks
        ++ (elim rank [ none ↦ floats.zero_score | some n ↦ floats.reciprocal n ]) ∷ [];
    hits_1 = add_hit 1 rank t.hits_1;
    hits_3 = add_hit 3 rank t.hits_3;
    hits_5 = add_hit 5 rank t.hits_5;
  }

  module _ (service : RetrievalService V F) (tenant_id top_n : ℕ) (db : Db V) where
    unfoldable pub score_questions : Mode → List Question → Tally F → Result (Tally F)
    unfolding tally_rank rank_of
    score_questions mode [] t = ok t
    score_questions mode (q ∷ questions) t = do
      retrieved ← search floats engine service tenant_id q.question mode (some top_n) db
      score_questions mode questions (tally_rank (rank_of q.expected_file 1 retrieved) t)

    module _ (rate : ℕ → ℕ → F) (mean : List F → ℕ → F) where
      -- A division by no questions is an error.
      mode_scores : ℕ → Tally F → Result (ModeScores F)
      mode_scores n t =
          if n == 0
          then err (foreign 2)
          else ok (record {
            hit_1 = rate t.hits_1 n;
            hit_3 = rate t.hits_3 n;
            hit_5 = rate t.hits_5 n;
            mrr_5 = mean t.reciprocal_ranks n;
          })

      -- `_score_modes`, for modes of which no two are the same.
      pub score_modes : List Question → List Mode → Result (List (Mode × ModeScores F))
      unfolding mode_scores
      score_modes questions [] = ok []
      score_modes questions (mode ∷ modes) = do
        tally ←
            score_questions mode questions
              (record { reciprocal_ranks = []; hits_1 = 0; hits_3 = 0; hits_5 = 0 })
        scores ← mode_scores (length questions) tally
        rest ← score_modes questions modes
        ok ((mode, scores) ∷ rest)

-- `part in text`.
unfoldable pub is_part : Text → Text → Bool
is_part part [] = is_empty part
is_part part (c ∷ text) = starts_with part (c ∷ text) || is_part part text

-- A fact that is missing or empty is none.
unfoldable pub fact_of : Question → Option Text
fact_of q = elim q.expected_fact [
  | none ↦ none
  | some fact ↦ if is_empty fact then none else some fact
]

unfoldable pub any_holds :
    {F : Type 0} → (lower : Text → Text) → Text → List (RetrievedChunk F) → Bool
any_holds lower fact [] = false
any_holds lower fact (r ∷ results) =
    is_part (lower fact) (lower r.content) || any_holds lower fact results

unfoldable pub count_facts : List Question → ℕ
count_facts [] = 0
count_facts (q ∷ questions) =
    (elim (fact_of q) [ none ↦ 0 | some fact ↦ 1 ]) + count_facts questions

module _ {V F : Type 0} (floats : Floats F) (engine : Engine V F) (service : RetrievalService V F)
    (tenant_id top_n : ℕ) (db : Db V) (lower : Text → Text) (rate : ℕ → ℕ → F) where
  -- The loop, with the number of questions that are supported so far.
  unfoldable pub count_supported : List Question → (supported : ℕ) → Result ℕ
  count_supported [] supported = ok supported
  count_supported (q ∷ questions) supported = elim (fact_of q) [
    | none ↦ count_supported questions supported
    | some fact ↦
        search floats engine service tenant_id q.question Mode.hybrid (some top_n) db
        >>= (λ retrieved.
            count_supported questions
              (if any_holds lower fact retrieved then supported + 1 else supported))
  ]

  quality_of : (n supported : ℕ) → AnswerQuality F
  quality_of n supported = record {
    questions_with_fact = n;
    fact_in_retrieved_context = supported;
    context_support_rate = if n == 0 then none else some (rate supported n);
  }

  -- `_score_answer_quality`.
  unfoldable pub score_answer_quality : List Question → Result (AnswerQuality F)
  unfolding count_supported quality_of count_facts
  score_answer_quality questions =
      count_supported questions 0
      >>= (λ supported. ok (quality_of (count_facts questions) supported))
