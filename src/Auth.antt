-- ===== src/Auth.antt =====
-- api/routes/auth.py, and the dependencies of api/deps.py that guard the other routes. The state is
-- that of Redis beside the table of credentials.
pub mod Access
pub mod Revoked
pub mod Revocation
pub mod Throttle
pub mod Live
pub mod Guarded
use rag_knowledge_platform_f.Prelude.{
  ℕ, Bool, true, false, ◌&&◌, ◌||◌, not, Option, none, some, List, [], ◌∷◌, ◌++◌, drop, is_empty,
  ◌==◌, if◌then◌else◌,
}
use rag_knowledge_platform_f.Text.{Text, codes, text_eq}
use rag_knowledge_platform_f.Errors.{
  Result, ok, err, Exc, rag, authentication, invalid_grant, ◌>>=◌,
}
use rag_knowledge_platform_f.RateLimit.{RedisClient, check}
use rag_knowledge_platform_f.Security.{
  ApiCredential, TokenClaims, Crypto, secret_matches, create_access_token, decode_access_token,
  get_credential, find_client, update_credential,
}

-- The settings that the guards read.
pub record AuthSettings : Type 0 where
  pub jwt_secret : Text
  pub jwt_ttl_seconds : ℕ
  pub rate_limit_per_minute : ℕ
  pub rate_limit_token_per_minute : ℕ

-- `TokenResponse`, whose token type is always "bearer".
pub record TokenResponse : Type 0 where
  pub access_token : Text
  pub expires_in : ℕ

-- The form of `issue_token`.
pub record TokenForm : Type 0 where
  pub grant_type : Text
  pub client_id : Text
  pub client_secret : Text

abbrev pub is_some {ℓ} : {A : Type ℓ} → Option A → Bool
is_some none = false
is_some (some x) = true

abbrev pub use_at : ℕ → ApiCredential → ApiCredential
use_at now c = record c { last_used_at = some now }

unfoldable pub starts_with : Text → Text → Bool
starts_with [] t = true
starts_with (c ∷ prefix) [] = false
starts_with (c ∷ prefix) (d ∷ t) = c == d && starts_with prefix t

module _ (crypto : Crypto) (settings : AuthSettings) where
  invalid_client : Exc
  invalid_client = rag (authentication (codes "invalid client credentials"))

  -- What is found for a client, if it is live and the secret is its own. For an unknown client the
  -- comparison with the dummy hash has no effect.
  pub live_client : TokenForm → Option ApiCredential → Result ApiCredential
  unfolding invalid_client
  live_client form none = err invalid_client
  live_client form (some c) =
      if is_some c.revoked_at || not (secret_matches crypto form.client_secret c.secret_hash)
      then err invalid_client
      else ok c

  -- `issue_token` after the limiter has let it through.
  grant_to :
      (now : ℕ)
      → Result ApiCredential
      → List ApiCredential
      → Result TokenResponse × List ApiCredential
  grant_to now (err e) credentials = (err e, credentials)
  grant_to now (ok c) credentials =
      let (token, ttl) =
        create_access_token crypto c.tenant_id c.id settings.jwt_secret settings.jwt_ttl_seconds
          now in
      (
        ok (record { access_token = token; expires_in = ttl }),
        update_credential c.id (use_at now) credentials,
      )

  pub grant_token :
      (now : ℕ) → TokenForm → List ApiCredential → Result TokenResponse × List ApiCredential
  unfolding grant_to
  grant_token now form credentials =
      if not (text_eq form.grant_type (codes "client_credentials"))
      then (
        err (rag (invalid_grant (codes "unsupported grant_type; use client_credentials"))),
        credentials,
      )
      else grant_to now (live_client form (find_client form.client_id credentials)) credentials

  module _ {S : Type 0} (redis : RedisClient S) where
    after_limit :
        (now : ℕ)
        → TokenForm
        → Result (Unit {0}) × S
        → List ApiCredential
        → Result TokenResponse × (S × List ApiCredential)
    after_limit now form (err e, s) credentials = (err e, (s, credentials))
    after_limit now form (ok _, s) credentials =
        let (r, credentials') = grant_token now form credentials in (r, (s, credentials'))

    pub issue_token :
        (now : ℕ)
        → TokenForm
        → S × List ApiCredential
        → Result TokenResponse × (S × List ApiCredential)
    unfolding after_limit
    issue_token now form (s, credentials) =
        after_limit now form
          (check redis settings.rate_limit_token_per_minute now (codes "token:" ++ form.client_id)
            s)
          credentials

  -- The claims of a token, if the credential that they name is live.
  pub live_claims : TokenClaims → Option ApiCredential → Result TokenClaims
  live_claims claims none = err (rag (authentication (codes "credential revoked or unknown")))
  live_claims claims (some c) =
      if is_some c.revoked_at || not (c.tenant_id == claims.tenant_id)
      then err (rag (authentication (codes "credential revoked or unknown")))
      else ok claims

  -- `get_current_tenant`, of the header `Authorization`; `lower` is `str.lower`.
  pub get_current_tenant :
      (lower : Text → Text) → (now : ℕ) → Option Text → List ApiCredential → Result TokenClaims
  unfolding starts_with
  get_current_tenant lower now none credentials =
      err (rag (authentication (codes "missing bearer token")))
  get_current_tenant lower now (some authorization) credentials =
      if is_empty authorization || not (starts_with (codes "bearer ") (lower authorization))
      then err (rag (authentication (codes "missing bearer token")))
      else (do
        claims ← decode_access_token crypto (drop 7 authorization) settings.jwt_secret now
        live_claims claims (get_credential claims.credential_id credentials))

  module _ {S : Type 0} (redis : RedisClient S) where
    -- `enforce_rate_limit`, for the tenant that has been authenticated.
    pub enforce_rate_limit : (now : ℕ) → TokenClaims → S → Result (Unit {0}) × S
    enforce_rate_limit now tenant s =
        check redis settings.rate_limit_per_minute now
          (codes "tenant:" ++ crypto.uuid_str tenant.tenant_id) s

    guarded_by :
        {A : Type 0} {D : Type 0}
        → TokenClaims
        → Result (Unit {0}) × S
        → D
        → (TokenClaims → D → Result A × D)
        → Result A × (S × D)
    guarded_by claims (err e, s) d handler = (err e, (s, d))
    guarded_by claims (ok _, s) d handler = let (r, d') = handler claims d in (r, (s, d'))

    -- A request to a router of the data plane: the tenant, its rate, and then the handler.
    pub guarded :
        {A : Type 0} {D : Type 0}
        → (lower : Text → Text) → (now : ℕ) → Option Text
        → List ApiCredential
        → (TokenClaims → D → Result A × D)
        → S × D
        → Result A × (S × D)
    unfolding guarded_by
    guarded lower now authorization credentials handler (s, d) =
        elim (get_current_tenant lower now authorization credentials) [
          | err e ↦ (err e, (s, d))
          | ok claims ↦ guarded_by claims (enforce_rate_limit now claims s) d handler
        ]
