-- ===== src/Configuration.antt =====
-- config.py: the settings that the services are made of, with their validator, and the factories of
-- api/deps.py, llm/factory.py and evals/run_eval.py that make them.
pub mod Chunks
use rag_knowledge_platform_f.Prelude.{
  ℕ, Bool, true, false, Option, none, some, List, leb, ◌==◌, if◌then◌else◌,
}
use rag_knowledge_platform_f.Text.{Text, codes}
use rag_knowledge_platform_f.Errors.{Result, ok, err, rag, value_error, provider_not_configured}
use rag_knowledge_platform_f.Ingestion.{IngestionService}
use rag_knowledge_platform_f.Retrieval.{RetrievalService}
use rag_knowledge_platform_f.Evals.{prepared_overlap}

-- The names of providers that the settings allow.
pub data LlmChoice : Type 0 where
  anthropic fake : LlmChoice

pub data EmbeddingChoice : Type 0 where
  local fake : EmbeddingChoice

pub data RerankerChoice : Type 0 where
  no_reranker cross_encoder fake : RerankerChoice

-- The fields of `Settings` for ingestion, retrieval and the providers.
pub record Settings : Type 0 where
  pub max_tenant_storage_bytes : ℕ
  pub llm_max_retries : ℕ
  pub llm_provider : LlmChoice
  pub anthropic_api_key : Option Text
  pub anthropic_model : Text
  pub embedding_provider : EmbeddingChoice
  pub embedding_model_name : Text
  pub embed_batch_size : ℕ
  pub chunk_target_tokens : ℕ
  pub chunk_overlap_tokens : ℕ
  pub retrieval_k_dense : ℕ
  pub retrieval_k_keyword : ℕ
  pub retrieval_rrf_k : ℕ
  pub retrieval_top_n : ℕ
  pub reranker : RerankerChoice
  pub rerank_model_name : Text

-- `_validate_chunking`, whose `ValueError` refuses the settings.
unfoldable pub validate_chunking : Settings → Result Settings
validate_chunking settings =
    if leb settings.chunk_target_tokens settings.chunk_overlap_tokens
    then err value_error
    else ok settings

-- The embedders and rerankers by their methods.
pub record Embedder (V : Type 0) : Type 0 where
  pub embed_documents : List Text → Result (List V)
  pub embed_query : Text → Result V

-- `get_ingestion_service`, with the embedder of the application's state.
unfoldable pub get_ingestion_service : {V : Type 0} → Embedder V → Settings → IngestionService V
get_ingestion_service embedder settings = record {
  embed_documents = embedder.embed_documents;
  target = settings.chunk_target_tokens;
  overlap = settings.chunk_overlap_tokens;
  batch_size = settings.embed_batch_size;
  max_tenant_storage = settings.max_tenant_storage_bytes;
}

-- `get_retrieval_service`.
unfoldable pub get_retrieval_service :
    {V F : Type 0}
    → Embedder V
    → Option (Text → List Text → Result (List F))
    → Settings
    → RetrievalService V F
get_retrieval_service embedder reranker settings = record {
  embed_query = embedder.embed_query;
  reranker = reranker;
  k_dense = settings.retrieval_k_dense;
  k_keyword = settings.retrieval_k_keyword;
  rrf_k = settings.retrieval_rrf_k;
  top_n = settings.retrieval_top_n;
}

-- `chunk_target_tokens or settings.chunk_target_tokens`.
unfoldable pub evaluation_target : Option ℕ → Settings → ℕ
evaluation_target none settings = settings.chunk_target_tokens
evaluation_target (some n) settings = if n == 0 then settings.chunk_target_tokens else n

-- The service of `_prepare_tenant`; there is no quota.
unfoldable pub evaluation_service :
    {V : Type 0} → Embedder V → (chunk_target_tokens : Option ℕ) → Settings → IngestionService V
unfolding evaluation_target
evaluation_service embedder chunk_target_tokens settings =
    let target = evaluation_target chunk_target_tokens settings in
    record {
      embed_documents = embedder.embed_documents;
      target = target;
      overlap = prepared_overlap settings.chunk_overlap_tokens target;
      batch_size = settings.embed_batch_size;
      max_tenant_storage = 0;
    }

-- `build_embedding_provider`, of the fake provider and of the local one for a model's name.
unfoldable pub build_embedding_provider :
    {V : Type 0} → Embedder V → (Text → Embedder V) → Settings → Embedder V
build_embedding_provider fake_embedder local_embedder settings = elim settings.embedding_provider [
  | EmbeddingChoice.fake ↦ fake_embedder
  | EmbeddingChoice.local ↦ local_embedder settings.embedding_model_name
]

-- `build_llm_provider`, of the fake provider and of the one for a key, a model and a number of retries.
unfoldable pub build_llm_provider : {P : Type 0} → P → (Text → Text → ℕ → P) → Settings → Result P
build_llm_provider fake_llm anthropic_llm settings = elim settings.llm_provider [
  | LlmChoice.fake ↦ ok fake_llm
  | LlmChoice.anthropic ↦ elim settings.anthropic_api_key [
    | none ↦ err (
        rag (
          provider_not_configured
            (codes "llm_provider=anthropic requires RAG_ANTHROPIC_API_KEY to be set")))
    | some key ↦ ok (anthropic_llm key settings.anthropic_model settings.llm_max_retries)
  ]
]

-- `build_reranker`, of the fake reranker and of the one for a model's name.
unfoldable pub build_reranker : {R : Type 0} → R → (Text → R) → Settings → Option R
build_reranker fake_reranker encoder settings = elim settings.reranker [
  | RerankerChoice.no_reranker ↦ none
  | RerankerChoice.fake ↦ some fake_reranker
  | RerankerChoice.cross_encoder ↦ some (encoder settings.rerank_model_name)
]
