-- ===== src/Providers/Fakes.antt =====
-- The fake providers and the contracts of the interfaces that they stand for.
use rag_knowledge_platform_f.Prelude.{
  ℕ, suc, ◌≤◌, false, Option, none, some, List, [], ◌∷◌, ◌++◌, ◌≡◌, refl, sym, ap, ◌∙◌, map, length,
  is_empty, All, arith, ◌==◌, eqb→eq, Bool-cases, inl, inr, subst,
}
use mathlib.Core.Bool.{true≢false}
use rag_knowledge_platform_f.Text.{Text, codes, strip}
use rag_knowledge_platform_f.Database.{Db}
use rag_knowledge_platform_f.Answering.{StreamEvent, LlmUsage}
use rag_knowledge_platform_f.Answering.Streaming.{sent_text}
use rag_knowledge_platform_f.Retrieval.{Mode, search, effective_top_n}
use rag_knowledge_platform_f.Retrieval.Answers.{Returns}
use rag_knowledge_platform_f.Retrieval.Dicts.{Any}
use rag_knowledge_platform_f.Retrieval.Isolation.{IsAnswering, IsOwn, search-IsOwn}
use rag_knowledge_platform_f.Retrieval.Repository.{Floats, Engine}
use rag_knowledge_platform_f.Retrieval.Repository.Isolation.{IsScan}
use rag_knowledge_platform_f.Configuration.{Settings, get_retrieval_service}
use rag_knowledge_platform_f.Providers.{
  Texts, Vectors, add_char, split_at, deltas, fake_generate, fake_llm, fake_rerank, zeros,
  add_vector, add_tokens, normalized, embed_one, fake_embedder, words_from,
}

add_char_some : (c : ℕ) (pieces : List Text) → is_empty (add_char c pieces) ≡ false
unfolding add_char
add_char_some c [] = refl
add_char_some c (piece ∷ pieces) = refl

is_empty-split_at : (sep : ℕ) (text : Text) → is_empty (split_at sep text) ≡ false
unfolding split_at
is_empty-split_at sep [] = refl
is_empty-split_at sep (c ∷ text) = elim (Bool-cases (c == sep)) [
  | inl here ↦ rw here refl
  | inr other ↦ rw other (add_char_some c (split_at sep text))
]

-- The text of the deltas for some pieces.
sent_add_char :
    (c : ℕ) (pieces : List Text) (usage : LlmUsage) (model : Text)
    → is_empty pieces ≡ false
    → sent_text (deltas (add_char c pieces) (StreamEvent.stream_end usage model))
      ≡ c ∷ sent_text (deltas pieces (StreamEvent.stream_end usage model))
unfolding deltas add_char
sent_add_char c [] usage model h = absurd (true≢false h)
sent_add_char c (piece ∷ pieces) usage model h = refl

sent_split :
    (text : Text) (usage : LlmUsage) (model : Text)
    → sent_text (deltas (split_at 32 text) (StreamEvent.stream_end usage model)) ≡ text ++ codes " "
unfolding split_at deltas
sent_split [] usage model = refl
sent_split (c ∷ text) usage model = elim (Bool-cases (c == 32)) [
  | inl space ↦ rw space (
      ap (λ t. 32 ∷ t) (sent_split text usage model)
      ∙ ap (λ d. d ∷ (text ++ codes " ")) (sym (eqb→eq c 32 space)))
  | inr other ↦ rw other (
      sent_add_char c (split_at 32 text) usage model (is_empty-split_at 32 text)
      ∙ ap (λ t. c ∷ t) (sent_split text usage model))
]

module _ (texts : Texts) where
  -- The stream of the fake LLM sends the text that it generates, with a space behind it, and ends
  -- without an exception.
  pub sent_text-fake_llm :
      (system user : Text) (max_tokens : ℕ)
      → let r = (fake_llm texts).stream system user max_tokens in
        (sent_text r.0 ≡ (fake_generate texts system user).text ++ codes " ") × (r.1 ≡ none)
  unfolding fake_llm
  sent_text-fake_llm system user max_tokens = (
    sent_split (fake_generate texts system user).text (fake_generate texts system user).usage
        (codes "fake-llm"),
    refl,
  )

  module _ {F : Type 0} (vectors : Vectors F) where
    length-map : {A B : Type 0} (f : A → B) (xs : List A) → length xs ≡ length (map f xs)
    length-map f [] = refl
    length-map f (x ∷ xs) = omega (arith, length-map f xs)

    reranks_all :
        (query : Text) (texts' : List Text)
        → Returns (λ xs. length texts' ≡ length xs) (fake_rerank texts vectors query texts')
    unfolding fake_rerank
    reranks_all query texts' = (_, refl, length-map _ texts')

    is_empty-add_vector :
        (token : Text) (i : ℕ) (acc : List F)
        → is_empty acc ≡ false
        → is_empty (add_vector texts vectors token i acc) ≡ false
    unfolding add_vector
    is_empty-add_vector token i [] h = h
    is_empty-add_vector token i (x ∷ acc) h = refl

    is_empty-add_tokens :
        (tokens : List Text) (acc : List F)
        → is_empty acc ≡ false
        → is_empty (add_tokens texts vectors tokens acc) ≡ false
    unfolding add_tokens
    is_empty-add_tokens [] acc h = h
    is_empty-add_tokens (token ∷ tokens) acc h =
        is_empty-add_tokens tokens _ (is_empty-add_vector token 0 acc h)

    normalized-Returns :
        (acc : List F) → is_empty acc ≡ false → Returns Any (normalized texts vectors acc)
    unfolding normalized
    normalized-Returns [] h = absurd (true≢false h)
    normalized-Returns (x ∷ acc) h = elim (Bool-cases (vectors.is_zero (vectors.norm (x ∷ acc)))) [
      | inl none_left ↦ rw none_left (_, refl, tt)
      | inr some_left ↦ rw some_left (_, refl, tt)
    ]

    fakes-IsAnswering :
        (dim : ℕ) (settings : Settings) (query : Text)
        → IsAnswering
            (get_retrieval_service
              (fake_embedder texts vectors (suc dim))
              (some (fake_rerank texts vectors))
              settings)
            query
    unfolding get_retrieval_service fake_embedder embed_one zeros
    fakes-IsAnswering dim settings query = record {
      embeds = normalized-Returns _ (
          is_empty-add_tokens (words_from texts [] (texts.lower query))
            (zeros texts vectors (suc dim)) refl);
      reranks = λ rerank e ts.
          subst
            (λ o. elim o as (λ x. Type 0) [
              | none ↦ Unit
              | some r ↦ Returns (λ xs. length ts ≡ length xs) (r query ts)
            ])
            e (reranks_all query ts);
    }

    -- With the fake embedder of a positive dimension and the fake reranker, the service that is made of
    -- any settings answers every query that is not blank, with chunks of the tenant only, and no more
    -- than asked for, if the index scan visits stored rows.
    pub search-fakes :
        (floats : Floats F) (engine : Engine (List F) F) (is_scan : IsScan engine) (dim : ℕ)
        (settings : Settings) (tenant_id : ℕ) (query : Text) (mode : Mode) (top_n : Option ℕ)
        (db : Db (List F))
        → is_empty (strip query) ≡ false
        → let service =
            get_retrieval_service
              (fake_embedder texts vectors (suc dim))
              (some (fake_rerank texts vectors))
              settings in
          Returns
            (λ results.
              All (IsOwn tenant_id db) results
              × (length results ≤ effective_top_n top_n service.top_n))
            (search floats engine service tenant_id query mode top_n db)
    search-fakes floats engine is_scan dim settings tenant_id query mode top_n db given =
        search-IsOwn floats engine is_scan _ tenant_id query db
          (fakes-IsAnswering dim settings query) mode top_n given
