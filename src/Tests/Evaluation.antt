-- ===== src/Tests/Evaluation.antt =====
-- The evaluation at two questions, and the chunk sizes of some settings.
use rag_knowledge_platform_f.Prelude.{ℕ, ◌≡◌, ◌||◌, ◌&&◌, leb, ◌==◌, none, some, List, [], ◌∷◌}
use rag_knowledge_platform_f.Text.{codes}
use rag_knowledge_platform_f.Errors.{ok}
use rag_knowledge_platform_f.Chunking.Sentences.{Block}
use rag_knowledge_platform_f.Chunking.Packing.{chunk_blocks}
use rag_knowledge_platform_f.Auth.Revoked.{is_ok}
use rag_knowledge_platform_f.Retrieval.{Mode}
use rag_knowledge_platform_f.Evals.{
  Question, Tally, score_questions, prepared_overlap, score_answer_quality,
}
use rag_knowledge_platform_f.Evals.Hits.{Scores, score_questions-Scores}
use rag_knowledge_platform_f.Evals.Facts.{IsQuality, score_answer_quality-IsQuality}
use rag_knowledge_platform_f.Configuration.{
  LlmChoice, EmbeddingChoice, RerankerChoice, Settings, Embedder, validate_chunking,
  get_ingestion_service, evaluation_service, evaluation_target,
}
use rag_knowledge_platform_f.Configuration.Chunks.{chunk_blocks_validated}
use rag_knowledge_platform_f.Tests.Search.{floats, engine, service, db}

abbrev questions : List Question
questions =
    record { question = codes "one"; expected_file = codes "a.md"; expected_fact = none }
    ∷ record {
      question = codes "two";
      expected_file = codes "b.md";
      expected_fact = some (codes "fact");
    }
    ∷ []

abbrev nothing_yet : Tally ℕ
nothing_yet = record { reciprocal_ranks = []; hits_1 = 0; hits_3 = 0; hits_5 = 0 }

score_questions-Scores_example :
    Scores floats engine service 1 5 db Mode.hybrid questions nothing_yet
      (score_questions floats engine service 1 5 db Mode.hybrid questions nothing_yet)
score_questions-Scores_example =
    score_questions-Scores floats engine service 1 5 db Mode.hybrid questions nothing_yet

score_answer_quality-IsQuality_example :
    IsQuality floats engine service 1 5 db
      (λ t. t)
      (λ a n. a)
      questions
      (score_answer_quality floats engine service 1 5 db (λ t. t) (λ a n. a) questions)
score_answer_quality-IsQuality_example =
    score_answer_quality-IsQuality floats engine service 1 5 db (λ t. t) (λ a n. a) questions

abbrev pub settings : Settings
settings = record {
  max_tenant_storage_bytes = 1000;
  llm_max_retries = 3;
  llm_provider = LlmChoice.fake;
  anthropic_api_key = none;
  anthropic_model = codes "claude";
  embedding_provider = EmbeddingChoice.fake;
  embedding_model_name = codes "bge";
  embed_batch_size = 64;
  chunk_target_tokens = 400;
  chunk_overlap_tokens = 60;
  retrieval_k_dense = 30;
  retrieval_k_keyword = 30;
  retrieval_rrf_k = 60;
  retrieval_top_n = 8;
  reranker = RerankerChoice.no_reranker;
  rerank_model_name = codes "ms-marco";
}

abbrev embedder : Embedder ℕ
embedder = record { embed_documents = λ texts. ok []; embed_query = λ text. ok 0 }

abbrev blocks : List Block
blocks = record { text = codes "One. Two."; meta = record { page = none; headings = none } } ∷ []

-- A sweep with a target of 1.
chunk_blocks_validated_example :
    (is_ok (chunk_blocks blocks 400 60) ≡ is_ok (validate_chunking settings))
    × (is_ok (chunk_blocks blocks 1 1) ≡ (leb 2 1 || (1 == 1 && 60 == 0)))
unfolding get_ingestion_service evaluation_service evaluation_target prepared_overlap
chunk_blocks_validated_example = chunk_blocks_validated embedder settings blocks (some 1)
