-- ===== src/Tests/Fakes.antt =====
-- The fake providers over vectors of numbers, at a table with one chunk.
use rag_knowledge_platform_f.Prelude.{
  ℕ, ◌+◌, ◌-◌, ◌/◌, ◌≤◌, ◌≡◌, ◌++◌, true, false, none, some, List, [], refl, take, length, All,
  All-take, is_empty, leb, ◌==◌,
}
use rag_knowledge_platform_f.Text.{codes, strip}
use rag_knowledge_platform_f.Database.{Db}
use rag_knowledge_platform_f.Answering.Streaming.{sent_text}
use rag_knowledge_platform_f.Retrieval.{Mode, search, effective_top_n}
use rag_knowledge_platform_f.Retrieval.Answers.{Returns}
use rag_knowledge_platform_f.Retrieval.Isolation.{IsOwn}
use rag_knowledge_platform_f.Retrieval.Repository.{Engine}
use rag_knowledge_platform_f.Retrieval.Repository.Isolation.{In, All-In, IsScan}
use rag_knowledge_platform_f.Configuration.{get_retrieval_service}
use rag_knowledge_platform_f.Providers.{
  Texts, Vectors, fake_llm, fake_generate, fake_embedder, fake_rerank,
}
use rag_knowledge_platform_f.Providers.Fakes.{sent_text-fake_llm, search-fakes}
use rag_knowledge_platform_f.Tests.Search.{floats}
use rag_knowledge_platform_f.Tests.Answers.{digit_value}
use rag_knowledge_platform_f.Tests.Access.{lower}
use rag_knowledge_platform_f.Tests.Evaluation.{settings}

abbrev texts : Texts
texts = record {
  is_word = λ c. leb 97 c;
  lower = lower;
  digest = λ t. take 12 t;
  digit_value = digit_value;
}

abbrev vectors : Vectors ℕ
vectors = record {
  token_vector = λ token i. length token + i;
  zero_float = 0;
  one_float = 1;
  plus = λ a b. a + b;
  norm = length;
  is_zero = λ x. x == 0;
  divide = λ a b. a / b;
  ratio = λ a b. 1000 + a - b;
}

abbrev engine : Engine (List ℕ) ℕ
engine = record {
  cosine_distance = λ x y. length x - length y;
  matches = λ content query. true;
  ts_rank_cd = λ content query. length content;
  scan = λ query cs. take 3 cs;
}

engine-IsScan : IsScan engine
engine-IsScan = record { visits = λ query cs. All-take (λ c. In c cs) 3 cs (All-In cs) }

abbrev no_rows : Db (List ℕ)
no_rows = record { tenants = []; documents = []; chunks = []; next_chunk_id = 1 }

given : is_empty (strip (codes "two words")) ≡ false
unfolding strip
given = refl

search-fakes_example :
    Returns
      (λ results. All (IsOwn 1 no_rows) results × (length results ≤ effective_top_n (some 2) 8))
      (search floats engine
        (get_retrieval_service
          (fake_embedder texts vectors 3)
          (some (fake_rerank texts vectors))
          settings)
        1
        (codes "two words")
        Mode.hybrid
        (some 2)
        no_rows)
unfolding get_retrieval_service
search-fakes_example =
    search-fakes texts vectors floats engine engine-IsScan 2 settings 1 (codes "two words")
      Mode.hybrid (some 2) no_rows given

sent_text-fake_llm_example :
    let r = (fake_llm texts).stream (codes "Be brief.") (codes "[1] One.\nQuestion") 100 in
    (sent_text r.0
      ≡ (fake_generate texts (codes "Be brief.") (codes "[1] One.\nQuestion")).text ++ codes " ")
    × (r.1 ≡ none)
sent_text-fake_llm_example =
    sent_text-fake_llm texts (codes "Be brief.") (codes "[1] One.\nQuestion") 100
