-- ===== src/Evals/Parts.antt =====
-- `fact in text`, and the results whose content has the fact in it.
use rag_knowledge_platform_f.Prelude.{
  ℕ, true, false, List, [], ◌∷◌, ◌++◌, ◌≡◌, ◌⊎◌, refl, sym, ap, ◌∙◌, All, arith, Bool-cases, inl,
  inr, eqb→eq, eqb_refl,
}
use rag_knowledge_platform_f.Text.{Text}
use rag_knowledge_platform_f.Auth.{starts_with}
use rag_knowledge_platform_f.Retrieval.{RetrievedChunk}
use rag_knowledge_platform_f.Evals.{is_part, any_holds}

-- The text is `part` with something before and something after it.
abbrev pub Contains : (part text : Text) → Type 0
Contains part text = (before after : Text) × (text ≡ before ++ part ++ after)

starts_with_lem :
    (prefix text : Text)
    → starts_with prefix text ≡ true
    → (after : Text) × (text ≡ prefix ++ after)
unfolding starts_with
starts_with_lem [] text h = (text, refl)
starts_with_lem (c ∷ prefix) [] h = absurd (cc)
starts_with_lem (c ∷ prefix) (d ∷ text) h =
    let (after, rest) = starts_with_lem prefix text (ground (arith, h)) in
    let same : c ≡ d = eqb→eq c d (ground (arith, h)) in
    (after, ap (λ x. x ∷ text) (sym same) ∙ ap (λ t. c ∷ t) rest)

starts_with-append : (prefix after : Text) → starts_with prefix (prefix ++ after) ≡ true
unfolding starts_with
starts_with-append [] after = refl
starts_with-append (c ∷ prefix) after = rw (eqb_refl c) (starts_with-append prefix after)

starts_with-Contains :
    (c : ℕ) (part text : Text) → starts_with part (c ∷ text) ≡ true → Contains part (c ∷ text)
starts_with-Contains c part text h =
    let (after, same) = starts_with_lem part (c ∷ text) h in ([], after, same)

is_part-Contains : (part text : Text) → is_part part text ≡ true → Contains part text
unfolding is_part
is_part-Contains [] [] h = ([], [], refl)
is_part-Contains (p ∷ part) [] h = absurd (cc)
is_part-Contains part (c ∷ text) h = elim (Bool-cases (starts_with part (c ∷ text))) [
  | inl here ↦ starts_with-Contains c part text here
  | inr other ↦
      let (before, after, same) = is_part-Contains part text (ground (arith, h, other)) in
      (c ∷ before, after, ap (λ t. c ∷ t) same)
]

starts_with-is_part : (part text : Text) → starts_with part text ≡ true → is_part part text ≡ true
unfolding is_part starts_with
starts_with-is_part [] [] h = refl
starts_with-is_part (p ∷ part) [] h = absurd (cc)
starts_with-is_part part (c ∷ text) h = ground (arith, h)

is_part-append : (part before after : Text) → is_part part (before ++ part ++ after) ≡ true
unfolding is_part
is_part-append part [] after =
    starts_with-is_part part (part ++ after) (starts_with-append part after)
is_part-append part (c ∷ before) after = ground (arith, is_part-append part before after)

not-Contains : (part text : Text) → is_part part text ≡ false → ¬ Contains part text
not-Contains part text h (before, after, same) =
    let found : is_part part text ≡ true =
      ap (is_part part) same ∙ is_part-append part before after in
    let clash : true ≡ false = sym found ∙ h in cc

module _ {F : Type 0} (lower : Text → Text) (fact : Text) where
  -- The content of a result has the fact in it, whatever the case.
  abbrev pub Holds : RetrievedChunk F → Type 0
  Holds r = Contains (lower fact) (lower r.content)

  -- One of the results has the fact in it.
  abbrev pub Supports : List (RetrievedChunk F) → Type 0
  Supports results =
      (earlier later : List (RetrievedChunk F)) × (r : RetrievedChunk F) × (results
        ≡ earlier ++ r ∷ later)
      × Holds r

  pub any_holds_cases :
      (results : List (RetrievedChunk F))
      → ((any_holds lower fact results ≡ true) × Supports results)
        ⊎ ((any_holds lower fact results ≡ false) × All (λ r. ¬ Holds r) results)
  unfolding any_holds
  any_holds_cases [] = inr (refl, tt)
  any_holds_cases (r ∷ results) = elim (Bool-cases (is_part (lower fact) (lower r.content))) [
    | inl found ↦
        rw found (
          inl (refl, ([], results, r, refl, is_part-Contains (lower fact) (lower r.content) found)))
    | inr lacks ↦ rw lacks (elim (any_holds_cases results) [
      | inl (held, (earlier, later, s, split, holds)) ↦
          inl (held, (r ∷ earlier, later, s, ap (λ l. r ∷ l) split, holds))
      | inr (none_holds, all) ↦
          inr (none_holds, (not-Contains (lower fact) (lower r.content) lacks, all))
    ])
  ]
