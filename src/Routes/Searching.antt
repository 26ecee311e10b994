-- ===== src/Routes/Searching.antt =====
-- A request to search, from its header to its results.
use rag_knowledge_platform_f.Prelude.{
  ℕ, zero, suc, ◌≤◌, Bool, true, false, ◌&&◌, Option, some, List, [], ◌∷◌, ◌≡◌, refl, ap, map,
  length, All, leb, leb→le, is_empty, arith,
}
use rag_knowledge_platform_f.Text.{Text, strip}
use rag_knowledge_platform_f.RateLimit.{RedisClient}
use rag_knowledge_platform_f.Database.{Chunk, Db}
use rag_knowledge_platform_f.Retrieval.Repository.{Floats, Engine}
use rag_knowledge_platform_f.Retrieval.Repository.Isolation.{In, IsScan}
use rag_knowledge_platform_f.Retrieval.Answers.{Returns}
use rag_knowledge_platform_f.Retrieval.Isolation.{IsAnswering, IsOwn, search-IsOwn}
use rag_knowledge_platform_f.Retrieval.{RetrievalService, RetrievedChunk, effective_top_n}
use rag_knowledge_platform_f.Security.{ApiCredential, TokenClaims, Crypto}
use rag_knowledge_platform_f.Auth.{AuthSettings, get_current_tenant, enforce_rate_limit, guarded}
use rag_knowledge_platform_f.Auth.Guarded.{Served, guarded-Served}
use rag_knowledge_platform_f.Routes.{
  SearchRequest, SearchResultOut, search_result_out, search_route, is_valid_search,
}

-- The result of a response is a stored chunk of the tenant.
abbrev pub IsOwnResult : {V F : Type 0} → ℕ → Db V → SearchResultOut F → Type 0
IsOwnResult {V} tenant_id db r =
    (c : Chunk V) × In c db.chunks
    × (c.tenant_id ≡ tenant_id)
    × (r.chunk_id ≡ c.id)
    × (r.document_id ≡ c.document_id)
    × (r.content ≡ c.content)

module _ {V F : Type 0} (tenant_id : ℕ) (db : Db V) where
  out-IsOwnResult :
      (rs : List (RetrievedChunk F))
      → All (IsOwn tenant_id db) rs
      → All (IsOwnResult tenant_id db) (map search_result_out rs)
  out-IsOwnResult [] h = tt
  out-IsOwnResult (r ∷ rs) h = (h.0, out-IsOwnResult rs h.1)

  length-out : (rs : List (RetrievedChunk F)) → length (map search_result_out rs) ≡ length rs
  length-out [] = refl
  length-out (r ∷ rs) = ap suc (length-out rs)

effective_top_n-le : (n default : ℕ) → leb 1 n ≡ true → effective_top_n (some n) default ≤ n
unfolding effective_top_n
effective_top_n-le zero default h = absurd (ground arith)
effective_top_n-le (suc n) default h = omega arith

and_true : (a b : Bool) → (a && b) ≡ true → (a ≡ true) × (b ≡ true)
and_true a b h = (ground arith, ground arith)

module _ {V F : Type 0} (floats : Floats F) (engine : Engine V F) (is_scan : IsScan engine)
    (service : RetrievalService V F) (body : SearchRequest)
    (answers : IsAnswering service body.query) (db : Db V) where
  valid_top_n : is_valid_search body ≡ true → (leb 1 body.top_n ≡ true) × (leb body.top_n 50 ≡ true)
  unfolding is_valid_search
  valid_top_n h = and_true _ _ (and_true _ _ (and_true _ _ h).1).1

  route-Returns :
      (tenant : TokenClaims)
      → is_valid_search body ≡ true
      → is_empty (strip body.query) ≡ false
      → Returns
          (λ results. All (IsOwnResult tenant.tenant_id db) results × (length results ≤ body.top_n))
          (search_route floats engine service body tenant db).0
  unfolding search_route
  route-Returns tenant valid given =
      let (rs, e, (own, few)) =
        search-IsOwn floats engine is_scan service tenant.tenant_id body.query db answers body.mode
          (some body.top_n) given in
      (
        map search_result_out rs,
        rw e refl,
        (
          out-IsOwnResult tenant.tenant_id db rs own,
          omega (
            arith,
            few,
            length-out tenant.tenant_id db rs,
            effective_top_n-le body.top_n service.top_n (valid_top_n valid).0,
          ),
        ),
      )

  -- A valid request to search whose query is not blank is refused with the error of its authentication
  -- or of the limiter, or it has the claims of a live credential and is answered by at most `top_n`
  -- results, which is 50 at most, each a stored chunk of the tenant of that credential, if the scan
  -- visits stored rows, the query is embedded and the reranker scores each text.
  pub search_request-Served :
      {S : Type 0} (crypto : Crypto) (settings : AuthSettings) (redis : RedisClient S)
      (lower : Text → Text) (now : ℕ) (authorization : Option Text)
      (credentials : List ApiCredential) (s : S)
      → is_valid_search body ≡ true
      → is_empty (strip body.query) ≡ false
      → (body.top_n ≤ 50)
        × Served credentials
            (λ claims. (enforce_rate_limit crypto settings redis now claims s).0)
            (λ claims. Returns (λ results.
              All (IsOwnResult claims.tenant_id db) results × (length results ≤ body.top_n)))
            (get_current_tenant crypto settings lower now authorization credentials)
            (guarded crypto settings redis lower now authorization credentials
              (search_route floats engine service body)
              (s, db)).0
  search_request-Served crypto settings redis lower now authorization credentials s valid given = (
    leb→le body.top_n 50 (valid_top_n valid).1,
    guarded-Served crypto settings redis lower now authorization credentials
        (search_route floats engine service body) s db _
        (λ claims. route-Returns claims valid given),
  )
