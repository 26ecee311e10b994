-- ===== src/Evals/Hits.antt =====
-- What the hits of the retrieval evaluation count.
use rag_knowledge_platform_f.Prelude.{
  ℕ, zero, suc, ◌+◌, ◌<◌, Bool, false, ◌||◌, Option, none, some, List, [], ◌∷◌, ◌≡◌, refl, sym, ap,
  ◌∙◌, subst, arith, if◌then◌else◌, Bool-cases, inl, inr,
}
use rag_knowledge_platform_f.Text.{Text, text_eq}
use rag_knowledge_platform_f.Errors.{Result, ok, err, Exc, ◌>>=◌, Result-cases}
use rag_knowledge_platform_f.Database.{Db}
use rag_knowledge_platform_f.Retrieval.Repository.{Floats, Engine}
use rag_knowledge_platform_f.Retrieval.{Mode, RetrievedChunk, RetrievalService, search}
use rag_knowledge_platform_f.Usage.{sum_of}
use rag_knowledge_platform_f.Evals.{Question, Tally, rank_of, add_hit, tally_rank, score_questions}

-- Whether one of the first `k` results is from a file.
abbrev pub is_within : {F : Type 0} → ℕ → Text → List (RetrievedChunk F) → Bool
is_within zero file results = false
is_within (suc k) file [] = false
is_within (suc k) file (r ∷ results) = text_eq r.filename file || is_within k file results

abbrev pub one_if : Bool → ℕ
one_if b = if b then 1 else 0

module _ {F : Type 0} where
  add_hit_late :
      (file : Text) (j rank n : ℕ) (results : List (RetrievedChunk F))
      → j < rank
      → add_hit j (rank_of file rank results) n ≡ n
  unfolding add_hit rank_of
  add_hit_late file j rank n [] late = refl
  add_hit_late file j rank n (r ∷ results) late = elim (Bool-cases (text_eq r.filename file)) [
    | inl found ↦ rw found (ground (arith, late))
    | inr other ↦ rw other (add_hit_late file j (rank + 1) n results (omega (arith, late)))
  ]

  add_hit-rank_of :
      (file : Text) (m j n : ℕ) (results : List (RetrievedChunk F))
      → add_hit (j + m) (rank_of file (j + 1) results) n ≡ n + one_if (is_within m file results)
  unfolding add_hit rank_of
  add_hit-rank_of file zero j n results =
      let none_left : j + 0 ≡ j = omega arith in
      let unchanged : n ≡ n + 0 = omega arith in
      ap (λ k. add_hit k (rank_of file (j + 1) results) n) none_left
      ∙ add_hit_late file j (j + 1) n results (omega arith)
      ∙ unchanged
  add_hit-rank_of file (suc m) j n [] = omega arith
  add_hit-rank_of file (suc m) j n (r ∷ results) = elim (Bool-cases (text_eq r.filename file)) [
    | inl found ↦ rw found (ground arith)
    | inr other ↦ rw other (
        let further : j + suc m ≡ j + 1 + m = omega arith in
        ap (λ k. add_hit k (rank_of file (j + 1 + 1) results) n) further
        ∙ add_hit-rank_of file m (j + 1) n results)
  ]

  add_hit-within :
      (k : ℕ) (file : Text) (n : ℕ) (results : List (RetrievedChunk F))
      → add_hit k (rank_of file 1 results) n ≡ n + one_if (is_within k file results)
  add_hit-within k file n results =
      let from_0 : k ≡ 0 + k = omega arith in
      ap (λ j. add_hit j (rank_of file 1 results) n) from_0 ∙ add_hit-rank_of file k 0 n results

module _ {V F : Type 0} (floats : Floats F) (engine : Engine V F) (service : RetrievalService V F)
    (tenant_id top_n : ℕ) (db : Db V) (mode : Mode) where
  abbrev pub answer_to : Question → Result (List (RetrievedChunk F))
  answer_to q = search floats engine service tenant_id q.question mode (some top_n) db

  -- 1 if the expected file is among the first `k` results of the question.
  abbrev pub hit_in : ℕ → Text → Result (List (RetrievedChunk F)) → ℕ
  hit_in k file (ok results) = one_if (is_within k file results)
  hit_in k file (err e) = 0

  abbrev pub hit_at : ℕ → Question → ℕ
  hit_at k q = hit_in k q.expected_file (answer_to q)

  -- The exception of the first search that raises one.
  abbrev pub error_or : Result (List (RetrievedChunk F)) → Option Exc → Option Exc
  error_or (ok results) later = later
  error_or (err e) later = some e

  abbrev pub first_error : List Question → Option Exc
  first_error [] = none
  first_error (q ∷ questions) = error_or (answer_to q) (first_error questions)

  -- What the scores are, counted from `t` on.
  abbrev pub Scores : List Question → Tally F → Result (Tally F) → Type 0
  Scores questions t (ok t') =
      (first_error questions ≡ none)
      × (t'.hits_1 ≡ t.hits_1 + sum_of (hit_at 1) questions)
      × (t'.hits_3 ≡ t.hits_3 + sum_of (hit_at 3) questions)
      × (t'.hits_5 ≡ t.hits_5 + sum_of (hit_at 5) questions)
  Scores questions t (err e) = first_error questions ≡ some e

  scored :
      (q : Question) (questions : List Question) (t : Tally F) (results : List (RetrievedChunk F))
      (r : Result (Tally F))
      → answer_to q ≡ ok results
      → Scores questions (tally_rank floats engine (rank_of q.expected_file 1 results) t) r
      → Scores (q ∷ questions) t r
  unfolding sum_of tally_rank
  scored q questions t results (err e) found h = rw found h
  scored q questions t results (ok t') found (none_raises, first, third, fifth) =
      let file = q.expected_file in
      rw found (
        none_raises,
        first
            ∙ ap (λ n. n + sum_of (hit_at 1) questions) (add_hit-within 1 file t.hits_1 results)
            ∙ omega arith,
        third
            ∙ ap (λ n. n + sum_of (hit_at 3) questions) (add_hit-within 3 file t.hits_3 results)
            ∙ omega arith,
        fifth
            ∙ ap (λ n. n + sum_of (hit_at 5) questions) (add_hit-within 5 file t.hits_5 results)
            ∙ omega arith,
      )

  -- The evaluation of a mode raises exactly the exception of the first search that raises one, and if
  -- none does, its hits at 1, 3 and 5 count the questions whose expected file is among the files of as
  -- many first results.
  pub score_questions-Scores :
      (questions : List Question) (t : Tally F)
      → Scores questions t
          (score_questions floats engine service tenant_id top_n db mode questions t)
  unfolding score_questions sum_of
  score_questions-Scores [] t = (refl, omega arith, omega arith, omega arith)
  score_questions-Scores (q ∷ questions) t = elim (Result-cases (answer_to q)) [
    | inl (e, raised) ↦ rw (raised, raised) refl
    | inr (results, found) ↦
        subst
          (λ r. Scores (q ∷ questions) t (
            r >>= (λ retrieved.
              score_questions floats engine service tenant_id top_n db mode questions
                (tally_rank floats engine (rank_of q.expected_file 1 retrieved) t))))
          (sym found)
          (scored q questions t results _ found (
            score_questions-Scores questions
              (tally_rank floats engine (rank_of q.expected_file 1 results) t)))
  ]
