-- ===== src/Tests/Requests.antt =====
-- Requests to the data plane, at the table of two tenants.
use rag_knowledge_platform_f.Prelude.{
  ◌++◌, ◌≤◌, Option, true, false, some, [], ◌≡◌, refl, length, All, is_empty,
}
use rag_knowledge_platform_f.Text.{Text, codes, strip}
use rag_knowledge_platform_f.Retrieval.{Mode}
use rag_knowledge_platform_f.Retrieval.Answers.{Returns}
use rag_knowledge_platform_f.Routes.{
  SearchRequest, search_route, is_valid_search, AnswerRequest, answer_route,
}
use rag_knowledge_platform_f.Routes.Searching.{IsOwnResult, search_request-Served}
use rag_knowledge_platform_f.Routes.Answers.{answer_bills, answer_route-bills}
use rag_knowledge_platform_f.Auth.{get_current_tenant, enforce_rate_limit, guarded}
use rag_knowledge_platform_f.Auth.Guarded.{Served}
use rag_knowledge_platform_f.Security.{TokenClaims, create_access_token}
use rag_knowledge_platform_f.Tests.Tokens.{crypto}
use rag_knowledge_platform_f.Tests.Limits.{redis}
use rag_knowledge_platform_f.Tests.Access.{settings, credentials, lower}
use rag_knowledge_platform_f.Tests.Search.{
  floats, engine, engine-IsScan, service, service-IsAnswering, db,
}
use rag_knowledge_platform_f.Tests.Answers.{digit_value, prices, answers}

abbrev body : SearchRequest
body = record { query = codes "one"; mode = Mode.hybrid; top_n = 2 }

abbrev authorization : Option Text
authorization =
    some (codes "Bearer " ++ (create_access_token crypto 1 4 settings.jwt_secret 3600 30).0)

valid : is_valid_search body ≡ true
unfolding is_valid_search
valid = refl

given : is_empty (strip body.query) ≡ false
unfolding strip
given = refl

search_request-Served_example :
    (2 ≤ 50)
    × Served credentials
        (λ claims. (enforce_rate_limit crypto settings redis 40 claims (λ b. 0)).0)
        (λ claims.
          Returns (λ results. All (IsOwnResult claims.tenant_id db) results × (length results ≤ 2)))
        (get_current_tenant crypto settings lower 40 authorization credentials)
        (guarded crypto settings redis lower 40 authorization credentials
          (search_route floats engine service body)
          ((λ b. 0), db)).0
search_request-Served_example =
    search_request-Served floats engine engine-IsScan service body service-IsAnswering db crypto
      settings redis lower 40 authorization credentials (λ b. 0) valid given

abbrev question : AnswerRequest
question = record { query = codes "one"; top_n = 2; stream = true }

abbrev pub tenant : TokenClaims
tenant = record { tenant_id = 1; credential_id = 4 }

answer_route-bills_example :
    let r = answer_route floats engine prices digit_value answers question tenant db [] in
    r.1 ≡ [] ++ answer_bills floats engine prices digit_value answers 1 r.0
answer_route-bills_example =
    answer_route-bills floats engine prices digit_value answers question tenant db []
