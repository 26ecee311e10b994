-- ===== src/Tests/Search.antt =====
-- The search, at a small table with two tenants. A vector is a number, and so is a float: a score in
-- thousandths.
use rag_knowledge_platform_f.Prelude.{
  List, Option, ℕ, ◌+◌, ◌-◌, ◌/◌, ◌≤◌, true, none, some, [], ◌∷◌, ◌≡◌, refl, subst, map, arith,
  length, take, All, All-take, ltb, ◌==◌,
}
use rag_knowledge_platform_f.Text.{Text, codes, strip}
use rag_knowledge_platform_f.Database.{SourceType, Status, Document, Chunk, Db}
use rag_knowledge_platform_f.Retrieval.{Mode, RetrievalService, get, fuse, search, effective_top_n}
use rag_knowledge_platform_f.Errors.{Result, ok}
use rag_knowledge_platform_f.Retrieval.Answers.{Returns}
use rag_knowledge_platform_f.Retrieval.Isolation.{IsAnswering, IsOwn, search-IsOwn}
use rag_knowledge_platform_f.Retrieval.Fusion.{sum_terms, all_terms, get-fuse}
use rag_knowledge_platform_f.Retrieval.Repository.{Floats, Engine, dense_search, keyword_search}
use rag_knowledge_platform_f.Retrieval.Repository.Isolation.{
  In, All-In, IsScan, FromTenant, dense_search-FromTenant, keyword_search-FromTenant,
}

abbrev pub floats : Floats ℕ
floats = record {
  zero_score = 0;
  plus = λ x y. x + y;
  reciprocal = λ n. 1000 / n;
  one_minus = λ x. 1000 - x;
  below = ltb;
  same = λ x y. x == y;
}

-- The index visits the first three rows only.
abbrev pub engine : Engine ℕ ℕ
engine = record {
  cosine_distance = λ x y. (x - y) + (y - x);
  matches = λ content query. true;
  ts_rank_cd = λ content query. length content;
  scan = λ query cs. take 3 cs;
}

pub engine-IsScan : IsScan engine
engine-IsScan = record { visits = λ query cs. All-take (λ c. In c cs) 3 cs (All-In cs) }

abbrev pub document : ℕ → ℕ → Document
document id tenant_id = record {
  id = id;
  tenant_id = tenant_id;
  filename = codes "a.md";
  source_type = SourceType.markdown;
  content_sha256 = [];
  size_bytes = 36;
  status = Status.completed;
  raw_content = none;
  error_message = none;
  chunk_count = some 2;
  created_at = 0;
}

abbrev pub chunk : (id document_id tenant_id embedding : ℕ) → Text → Chunk ℕ
chunk id document_id tenant_id embedding content = record {
  id = id;
  document_id = document_id;
  tenant_id = tenant_id;
  chunk_index = 0;
  content = content;
  token_count = 2;
  embedding = embedding;
  meta = record { page_start = none; page_end = none; headings = none };
}

abbrev pub db : Db ℕ
db = record {
  tenants = [];
  documents = document 7 1 ∷ document 8 2 ∷ [];
  chunks =
      chunk 1 7 1 100 (codes "first")
      ∷ chunk 2 8 2 110 (codes "of another tenant")
      ∷ chunk 3 7 1 105 (codes "second one")
      ∷ chunk 4 7 1 300 (codes "third")
      ∷ [];
  next_chunk_id = 5;
}

get-fuse_example :
    get 3 (fuse floats 60 ((3 ∷ 1 ∷ []) ∷ (1 ∷ 4 ∷ 3 ∷ []) ∷ []) [])
    ≡ sum_terms floats none (all_terms floats 60 3 ((3 ∷ 1 ∷ []) ∷ (1 ∷ 4 ∷ 3 ∷ []) ∷ []))
get-fuse_example = get-fuse floats 60 3 ((3 ∷ 1 ∷ []) ∷ (1 ∷ 4 ∷ 3 ∷ []) ∷ [])

dense_search-FromTenant_example :
    All (FromTenant 1 db) (dense_search floats engine 1 104 2 db)
    × (length (dense_search floats engine 1 104 2 db) ≤ 2)
dense_search-FromTenant_example = dense_search-FromTenant floats engine 1 2 db 104 engine-IsScan

keyword_search-FromTenant_example :
    All (FromTenant 1 db) (keyword_search floats engine 1 (codes "one") 2 db)
    × (length (keyword_search floats engine 1 (codes "one") 2 db) ≤ 2)
keyword_search-FromTenant_example = keyword_search-FromTenant floats engine 1 2 db (codes "one")

abbrev pub service : RetrievalService ℕ ℕ
service = record {
  embed_query = λ query. ok (length query + 100);
  reranker = some (λ query texts. ok (map length texts));
  k_dense = 2;
  k_keyword = 2;
  rrf_k = 60;
  top_n = 1;
}

length-map : (f : Text → ℕ) (texts : List Text) → length texts ≡ length (map f texts)
length-map f [] = refl
length-map f (t ∷ texts) = omega (arith, length-map f texts)

reranks_all :
    (rerank : Text → List Text → Result (List ℕ))
    → service.reranker ≡ some rerank
    → (texts : List Text) → Returns (λ xs. length texts ≡ length xs) (rerank (codes "one") texts)
reranks_all rerank e texts =
    subst
      (λ (o : Option (Text → List Text → Result (List ℕ))). elim o [
        | none ↦ Unit
        | some r ↦ Returns (λ xs. length texts ≡ length xs) (r (codes "one") texts)
      ])
      e (map length texts, refl, length-map length texts)

pub service-IsAnswering : IsAnswering service (codes "one")
service-IsAnswering = record { embeds = (103, refl, tt); reranks = reranks_all }

search-IsOwn_example :
    Returns
      (λ results. All (IsOwn 1 db) results × (length results ≤ 2))
      (search floats engine service 1 (codes "one") Mode.hybrid (some 2) db)
unfolding strip effective_top_n
search-IsOwn_example =
    search-IsOwn floats engine engine-IsScan service 1 (codes "one") db service-IsAnswering
      Mode.hybrid (some 2) refl
