-- ===== src/Auth/Guarded.antt =====
-- A guarded request: what its handler may assume, and what becomes of it otherwise.
use rag_knowledge_platform_f.Prelude.{ℕ, Option, List, ◌≡◌, refl}
use rag_knowledge_platform_f.Text.{Text}
use rag_knowledge_platform_f.Errors.{Result, ok, err}
use rag_knowledge_platform_f.RateLimit.{RedisClient}
use rag_knowledge_platform_f.Security.{ApiCredential, TokenClaims, Crypto}
use rag_knowledge_platform_f.Auth.{
  AuthSettings, get_current_tenant, enforce_rate_limit, guarded, guarded_by,
}
use rag_knowledge_platform_f.Auth.Live.{IsLive, Ensures, get_current_tenant-IsLive}

-- What comes of an authenticated request by the answer of the limiter.
abbrev pub Allowed : {A : Type 0} → (Result A → Type 0) → Result (Unit {0}) → Result A → Type 0
Allowed P (err e) r = r ≡ err e
Allowed P (ok u) r = P r

-- What comes of a request: it is refused with the error of its authentication, or it has the claims of a
-- live credential and is refused with the error of the limiter, or its handler's answer is what `P` says
-- for the claims.
abbrev pub Served :
    {A : Type 0}
    → List ApiCredential
    → (TokenClaims → Result (Unit {0}))
    → (TokenClaims → Result A → Type 0)
    → Result TokenClaims
    → Result A
    → Type 0
Served credentials limit P (err e) r = r ≡ err e
Served credentials limit P (ok claims) r =
    IsLive credentials claims × Allowed (P claims) (limit claims) r

module _ {S : Type 0} (crypto : Crypto) (settings : AuthSettings) (redis : RedisClient S)
    (lower : Text → Text) (now : ℕ) (authorization : Option Text) (credentials : List ApiCredential)
    {A D : Type 0} (handler : TokenClaims → D → Result A × D) (s : S) (d : D)
    (P : TokenClaims → Result A → Type 0) where
  guarded_by-Allowed :
      (claims : TokenClaims) (limit : Result (Unit {0}) × S)
      → P claims (handler claims d).0
      → Allowed (P claims) limit.0 (guarded_by crypto settings redis claims limit d handler).0
  unfolding guarded_by
  guarded_by-Allowed claims (err e, s') h = refl
  guarded_by-Allowed claims (ok u, s') h = h

  guarded_cases :
      (r : Result TokenClaims)
      → Ensures (IsLive credentials) r
      → ((claims : TokenClaims) → P claims (handler claims d).0)
      → Served credentials
          (λ claims. (enforce_rate_limit crypto settings redis now claims s).0)
          P
          r
          (elim r as (λ x. Result A × (S × D)) [
            | err e ↦ (err e, (s, d))
            | ok claims ↦
                guarded_by crypto settings redis claims
                  (enforce_rate_limit crypto settings redis now claims s)
                  d
                  handler
          ]).0
  guarded_cases (err e) live h = refl
  guarded_cases (ok claims) live h = (live, guarded_by-Allowed claims _ (h claims))

  -- A guarded handler answers only for the claims of a live credential within its rate.
  pub guarded-Served :
      ((claims : TokenClaims) → P claims (handler claims d).0)
      → Served credentials
          (λ claims. (enforce_rate_limit crypto settings redis now claims s).0)
          P
          (get_current_tenant crypto settings lower now authorization credentials)
          (guarded crypto settings redis lower now authorization credentials handler (s, d)).0
  unfolding guarded
  guarded-Served h =
      guarded_cases (get_current_tenant crypto settings lower now authorization credentials)
        (get_current_tenant-IsLive crypto settings credentials lower now authorization) h
