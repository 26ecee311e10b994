-- ===== src/Tests/Access.antt =====
-- Credentials and tokens, with the clear tokens and the counting server.
use rag_knowledge_platform_f.Prelude.{
  ℕ, ◌+◌, ◌≤◌, true, false, some, List, [], ◌∷◌, ◌++◌, ◌≡◌, refl, ltb, arith, if◌then◌else◌,
}
use rag_knowledge_platform_f.Text.{Text, codes, text_eq}
use rag_knowledge_platform_f.Errors.{ok}
use rag_knowledge_platform_f.Security.{
  ApiCredential, find_client, hash_secret, any_clash, create_credential, revoke_credential, new_row,
}
use rag_knowledge_platform_f.Auth.{
  AuthSettings, TokenForm, starts_with, get_current_tenant, grant_token,
}
use rag_knowledge_platform_f.Auth.Access.{bearer, form_of, credential_roundtrip}
use rag_knowledge_platform_f.Auth.Revoked.{is_ok, is_claimed_by}
use rag_knowledge_platform_f.Auth.Revocation.{Event, run_events, revocation_final}
use rag_knowledge_platform_f.Auth.Throttle.{let_through, let_through-le}
use rag_knowledge_platform_f.Auth.Live.{IsLive, Ensures, get_current_tenant-IsLive}
use rag_knowledge_platform_f.Tests.Tokens.{crypto, crypto-IsSound}
use rag_knowledge_platform_f.Tests.Limits.{redis, redis-IsCounting}

abbrev pub settings : AuthSettings
settings = record {
  jwt_secret = codes "signing key";
  jwt_ttl_seconds = 3600;
  rate_limit_per_minute = 2;
  rate_limit_token_per_minute = 1;
}

abbrev pub credential : (id tenant_id : ℕ) → (client_id client_secret : Text) → ApiCredential
credential id tenant_id client_id client_secret =
    new_row crypto id tenant_id 10 (codes "ci") client_id client_secret

abbrev pub credentials : List ApiCredential
credentials =
    credential 4 1 (codes "rkc_a") (codes "rks_a")
    ∷ credential 5 2 (codes "rkc_b") (codes "rks_b")
    ∷ []

-- `str.lower` of the letters from A to Z.
abbrev pub lower : Text → Text
lower [] = []
lower (c ∷ t) = (if ltb c 65 then c else if ltb 90 c then c else c + 32) ∷ lower t

lowers_bearer : (t : Text) → starts_with (codes "bearer ") (lower (codes "Bearer " ++ t)) ≡ true
unfolding starts_with
lowers_bearer t = refl

fresh :
    any_clash (new_row crypto 6 1 20 (codes "bot") (codes "rkc_c") (codes "rks_c")) credentials
    ≡ false
unfolding any_clash text_eq hash_secret
fresh = refl

-- An hour less a second after the issue.
credential_roundtrip_example :
    let (made, stored) =
      create_credential crypto 6 1 20 (codes "bot") (codes "rkc_c") (codes "rks_c") credentials in
    let (granted, used) =
      grant_token crypto settings 30 (form_of (codes "rkc_c") (codes "rks_c")) stored in
    (made ≡ ok (codes "rkc_c", codes "rks_c"))
    × (get_current_tenant crypto settings lower 3629 (some (bearer granted)) used
        ≡ ok (record { tenant_id = 1; credential_id = 6 }))
credential_roundtrip_example =
    credential_roundtrip crypto crypto-IsSound settings lower 6 1 20 30 3629 (codes "bot")
      (codes "rkc_c") (codes "rks_c") credentials lowers_bearer fresh (omega arith)

-- A request for a token and another revocation follow.
abbrev later_events : List Event
later_events =
    Event.requested 45 (form_of (codes "rkc_a") (codes "rks_a"))
    ∷ Event.revoked 50 (codes "rkc_b")
    ∷ []

found :
    find_client (codes "rkc_a") credentials ≡ some (credential 4 1 (codes "rkc_a") (codes "rks_a"))
unfolding find_client text_eq hash_secret
found = refl

revocation_final_example :
    let later =
      run_events crypto settings
        (λ t. t)
        later_events
        (revoke_credential (λ t. t) 40 (codes "rkc_a") credentials).1 in
    (is_ok (grant_token crypto settings 60 (form_of (codes "rkc_a") (codes "rks_a")) later).0
      ≡ false)
    × (is_claimed_by 4 (get_current_tenant crypto settings lower 60 (some (codes "Bearer x")) later)
        ≡ false)
revocation_final_example =
    revocation_final crypto settings (λ t. t) lower 40 60 (codes "rkc_a") (codes "rks_a")
      (codes "client_credentials") (some (codes "Bearer x")) later_events credentials _ found

abbrev guesses : List (TokenForm × ℕ)
guesses =
    (form_of (codes "rkc_a") (codes "no"), 120)
    ∷ (form_of (codes "rkc_b") (codes "rks_b"), 121)
    ∷ (form_of (codes "rkc_a") (codes "rks_a"), 122)
    ∷ []

let_through-le_example :
    let_through crypto settings redis (codes "rkc_a") guesses ((λ b. 0), credentials) ≤ 1
let_through-le_example =
    let_through-le crypto settings redis redis-IsCounting (codes "rkc_a") 2 guesses (λ b. 0)
      credentials (refl, (refl, (refl, tt)))

get_current_tenant-IsLive_example :
    Ensures
      (IsLive credentials)
      (get_current_tenant crypto settings lower 60 (some (codes "Bearer x")) credentials)
get_current_tenant-IsLive_example =
    get_current_tenant-IsLive crypto settings credentials lower 60 (some (codes "Bearer x"))
