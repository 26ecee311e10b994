-- ===== src/Tests/Answers.antt =====
-- Answers over two chunks. Prices and costs are numbers.
use rag_knowledge_platform_f.Prelude.{
  ℕ, ◌+◌, ◌-◌, ◌*◌, ◌/◌, Option, none, some, List, [], ◌∷◌, ◌++◌, ◌≡◌, refl, map, ltb,
  if◌then◌else◌,
}
use rag_knowledge_platform_f.Text.{Text, codes}
use rag_knowledge_platform_f.Errors.{ok, err, foreign}
use rag_knowledge_platform_f.Retrieval.{RetrievedChunk}
use rag_knowledge_platform_f.Answering.Citations.{Citation, find_markers, int_of, cited_only}
use rag_knowledge_platform_f.Answering.Citations.Cited.{cites, cited_only-cites}
use rag_knowledge_platform_f.Answering.Streaming.{
  number_citations-IsAscending, bills, streamed_text, sent_text, stream-bills,
}
use rag_knowledge_platform_f.Answering.{
  StreamEvent, LlmUsage, LlmProvider, Prices, PreparedAnswer, AnswerService, number_citations,
  stream,
}
use rag_knowledge_platform_f.Tests.Search.{service}

abbrev pub digit_value : ℕ → Option ℕ
digit_value c = if ltb c 48 then none else if ltb 57 c then none else some (c - 48)

abbrev result : ℕ → Text → RetrievedChunk ℕ
result id content = record {
  chunk_id = id;
  document_id = 7;
  filename = codes "a.md";
  chunk_index = 0;
  content = content;
  meta = record { page_start = some 3; page_end = some 4; headings = none };
  scores = record { dense_cosine_sim = none; keyword_ts_rank = none; rrf = some 1; rerank = none };
}

abbrev citations : List Citation
citations =
    number_citations 1
      (result 3 (codes "one") ∷ result 1 (codes "two") ∷ result 8 (codes "three") ∷ [])

-- The third passage is cited before the first, the first twice, and there is no ninth.
abbrev answer : Text
answer = codes "So [3] and [[1] but [9], [x] and [1]."

markers_read : map int_of (find_markers digit_value none answer) ≡ map ok (3 ∷ 1 ∷ 9 ∷ 1 ∷ [])
unfolding find_markers int_of
markers_read = refl

cited_only-cites_example :
    cited_only digit_value answer citations ≡ ok (cites (3 ∷ 1 ∷ 9 ∷ 1 ∷ []) citations)
cited_only-cites_example =
    cited_only-cites digit_value answer citations (3 ∷ 1 ∷ 9 ∷ 1 ∷ [])
      (number_citations-IsAscending 1 _) markers_read

abbrev pub prices : Prices ℕ ℕ
prices = record {
  times = λ n x. n * x;
  plus = λ x y. x + y;
  per_million = λ x. x / 1000000;
  to_decimal = λ x. x;
}

abbrev usage : LlmUsage
usage = record { input_tokens = 1000000; output_tokens = 500000 }

abbrev llm : LlmProvider
llm = record {
  generate = λ system user max_tokens. err (foreign 0);
  stream = λ system user max_tokens. (
    StreamEvent.text_delta (codes "So ")
        ∷ StreamEvent.text_delta (codes "[1].")
        ∷ StreamEvent.stream_end usage (codes "m")
        ∷ [],
    none,
  );
}

abbrev pub answers : AnswerService ℕ ℕ
answers = record {
  retrieval = service;
  llm = llm;
  max_tokens = 100;
  price_in = some 3;
  price_out = some 4;
}

abbrev prepared : PreparedAnswer
prepared = record { system = []; user = codes "Question"; citations = citations }

stream-bills_example :
    ((stream prices answers prepared 1 []).1
      ≡ [] ++ bills prices answers 1 (stream prices answers prepared 1 []).0.0)
    × (streamed_text (stream prices answers prepared 1 []).0.0
        ≡ sent_text (llm.stream [] (codes "Question") 100).0)
stream-bills_example = stream-bills prices answers 1 prepared []
