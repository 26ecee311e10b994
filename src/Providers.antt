-- ===== src/Providers.antt =====
-- llm/fake.py: the providers for tests. What `\w` matches, `str.lower`, the digest of a prompt, the value
-- of a digit, the random vector of a token and the arithmetic on floats are parameters.
pub mod Fakes
use rag_knowledge_platform_f.Prelude.{
  ℕ, zero, suc, ◌+◌, max, Bool, true, false, ◌||◌, Option, none, some, List, [], ◌∷◌, ◌++◌, map,
  length, take, ◌-◌, is_empty, ◌==◌, if◌then◌else◌,
}
use rag_knowledge_platform_f.Text.{Text, codes, split, text_eq}
use rag_knowledge_platform_f.Text.Decimal.{decimal}
use rag_knowledge_platform_f.Errors.{Result, ok, err, Exc, index_error, ◌>>=◌}
use rag_knowledge_platform_f.Answering.{StreamEvent, LlmUsage, LlmResult, LlmProvider}
use rag_knowledge_platform_f.Configuration.{Embedder}

-- `is_word` is `\w`, `lower` is `str.lower`, and `digest` the first 12 digits of the hash of a text.
pub record Texts : Type 0 where
  pub is_word : ℕ → Bool
  pub lower : Text → Text
  pub digest : Text → Text
  pub digit_value : ℕ → Option ℕ

-- The arithmetic: entry `i` of the vector of a token, `sum(v * v) ** 0.5` and what else is computed.
pub record Vectors (F : Type 0) : Type 0 where
  pub token_vector : Text → (i : ℕ) → F
  pub zero_float : F
  pub one_float : F
  pub plus : F → F → F
  pub norm : List F → F
  pub is_zero : F → Bool
  pub divide : F → F → F
  pub ratio : ℕ → ℕ → F

-- `_estimate_tokens`.
unfoldable pub count_words : Text → ℕ
count_words text = max 1 (length (split text))

-- `text.split(c)` for one character: never without a piece.
unfoldable pub add_char : ℕ → List Text → List Text
add_char c [] = (c ∷ []) ∷ []
add_char c (piece ∷ pieces) = (c ∷ piece) ∷ pieces

unfoldable pub split_at : ℕ → Text → List Text
split_at sep [] = [] ∷ []
split_at sep (c ∷ text) =
    let rest = split_at sep text in if c == sep then [] ∷ rest else add_char c rest

unfoldable pub cites_of : List Text → Text
cites_of [] = []
cites_of (m ∷ markers) = codes "[" ++ (m ++ (codes "]" ++ cites_of markers))

unfoldable pub deltas : List Text → StreamEvent → List StreamEvent
deltas [] last = last ∷ []
deltas (word ∷ words) last = StreamEvent.text_delta (word ++ codes " ") ∷ deltas words last

-- A word of a list, and the words of a list without repetition, as of a set.
unfoldable pub has_word : Text → List Text → Bool
has_word w [] = false
has_word w (v ∷ words) = text_eq v w || has_word w words

unfoldable pub distinct : List Text → List Text
unfolding has_word
distinct [] = []
distinct (w ∷ words) = let rest = distinct words in if has_word w rest then rest else w ∷ rest

unfoldable pub count_in : List Text → List Text → ℕ
unfolding has_word
count_in words [] = 0
count_in words (w ∷ ws) = (if has_word w words then 1 else 0) + count_in words ws

module _ (texts : Texts) where
  -- `_WORD_RE.findall`, where `word` is the one being read.
  unfoldable pub words_from : Text → Text → List Text
  words_from word [] = if is_empty word then [] else word ∷ []
  words_from word (c ∷ text) =
      let more = words_from (word ++ c ∷ []) text in
      let next = words_from [] text in
      if texts.is_word c then more else if is_empty word then next else word ∷ next

  -- The digits up to a `]`, of which there is one at least.
  unfoldable pub marker_from : (digits : Text) → Text → Option Text
  marker_from digits [] = none
  marker_from digits (c ∷ line) =
      let more = marker_from (digits ++ c ∷ []) line in
      elim (texts.digit_value c) [
        | some n ↦ more
        | none ↦ if c == b']' then (if is_empty digits then none else some digits) else none
      ]

  unfoldable pub line_marker : Text → Option Text
  unfolding marker_from
  line_marker [] = none
  line_marker (c ∷ line) = if c == b'[' then marker_from [] line else none

  -- `re.findall(r"^\[(\d+)\]", user, flags=re.MULTILINE)`.
  unfoldable pub markers_in : List Text → List Text
  unfolding line_marker
  markers_in [] = []
  markers_in (line ∷ lines) =
      let rest = markers_in lines in elim (line_marker line) [ none ↦ rest | some m ↦ m ∷ rest ]

  -- `_answer`.
  unfoldable pub fake_answer : Text → Text
  unfolding markers_in cites_of count_words
  fake_answer user =
      codes "FAKE_ANSWER"
      ++ (cites_of (take 2 (markers_in (split_at 10 user)))
          ++ (codes " (prompt_sha="
              ++ (texts.digest user
                  ++ (codes ", prompt_words=" ++ (decimal (count_words user) ++ codes ")")))))

  unfoldable pub fake_generate : (system user : Text) → LlmResult
  unfolding fake_answer
  fake_generate system user = record {
    text = fake_answer user;
    usage = record {
      input_tokens = count_words system + count_words user;
      output_tokens = count_words (fake_answer user);
    };
    model = codes "fake-llm";
  }

  -- `FakeLLMProvider`.
  unfoldable pub fake_llm : LlmProvider
  unfolding fake_generate deltas split_at
  fake_llm = record {
    generate = λ system user max_tokens. ok (fake_generate system user);
    stream = λ system user max_tokens. (
      deltas (split_at 32 (fake_generate system user).text)
          (StreamEvent.stream_end (fake_generate system user).usage (codes "fake-llm")),
      none,
    );
  }

  unfoldable pub word_set : Text → List Text
  unfolding distinct words_from
  word_set text = distinct (words_from [] (texts.lower text))

  module _ {F : Type 0} (vectors : Vectors F) where
    -- The score of a text: what both sets have, by what one of them has.
    unfoldable pub overlap_score : List Text → List Text → F
    unfolding count_in
    overlap_score q words =
        let both = count_in words q in
        let union = length q + length words - both in
        if union == 0 then vectors.zero_float else vectors.ratio both union

    -- `FakeReranker.rerank`.
    unfoldable pub fake_rerank : Text → List Text → Result (List F)
    unfolding overlap_score word_set
    fake_rerank query texts' =
        ok (map (λ text. overlap_score (word_set query) (word_set text)) texts')

    unfoldable pub zeros : (dim : ℕ) → List F
    zeros zero = []
    zeros (suc dim) = vectors.zero_float ∷ zeros dim

    -- `acc[i] += vec[i]` from `i` on.
    unfoldable pub add_vector : Text → (i : ℕ) → List F → List F
    add_vector token i [] = []
    add_vector token i (x ∷ acc) =
        vectors.plus x (vectors.token_vector token i) ∷ add_vector token (i + 1) acc

    unfoldable pub add_tokens : List Text → List F → List F
    unfolding add_vector
    add_tokens [] acc = acc
    add_tokens (token ∷ tokens) acc = add_tokens tokens (add_vector token 0 acc)

    unfoldable pub normalized : List F → Result (List F)
    normalized [] = if vectors.is_zero (vectors.norm []) then err index_error else ok []
    normalized (x ∷ acc) =
        if vectors.is_zero (vectors.norm (x ∷ acc))
        then ok (vectors.one_float ∷ acc)
        else ok (map (λ v. vectors.divide v (vectors.norm (x ∷ acc))) (x ∷ acc))

    -- `_embed_one`.
    unfoldable pub embed_one : (dim : ℕ) → Text → Result (List F)
    unfolding add_tokens zeros normalized words_from
    embed_one dim text = normalized (add_tokens (words_from [] (texts.lower text)) (zeros dim))

    unfoldable pub embed_each : (dim : ℕ) → List Text → Result (List (List F))
    unfolding embed_one
    embed_each dim [] = ok []
    embed_each dim (text ∷ rest) = do v ← embed_one dim text; vs ← embed_each dim rest; ok (v ∷ vs)

    -- `FakeEmbeddingProvider`.
    unfoldable pub fake_embedder : (dim : ℕ) → Embedder (List F)
    unfolding embed_each
    fake_embedder dim = record { embed_documents = embed_each dim; embed_query = embed_one dim }
