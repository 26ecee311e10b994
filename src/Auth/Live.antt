-- ===== src/Auth/Live.antt =====
-- What an authenticated request has: the claims of a live credential.
use rag_knowledge_platform_f.Prelude.{
  ℕ, Bool, true, false, not, ◌||◌, Option, none, some, List, ◌≡◌, refl, inl, inr, drop, is_empty,
  ◌==◌, eqb→eq, Bool-cases, arith,
}
use rag_knowledge_platform_f.Text.{Text, codes}
use rag_knowledge_platform_f.Errors.{Result, ok, err, ◌>>=◌}
use rag_knowledge_platform_f.Security.{
  ApiCredential, TokenClaims, Crypto, decode_access_token, get_credential,
}
use rag_knowledge_platform_f.Auth.{
  AuthSettings, is_some, starts_with, live_claims, get_current_tenant,
}

-- The claims name a credential of the table that is not revoked, and its tenant.
abbrev pub IsLive : List ApiCredential → TokenClaims → Type 0
IsLive credentials claims =
    (c : ApiCredential) × (get_credential claims.credential_id credentials ≡ some c)
    × (c.revoked_at ≡ none)
    × (c.tenant_id ≡ claims.tenant_id)

-- What holds of a result, if it is one.
abbrev pub Ensures {ℓ} : {A : Type 0} → (A → Type ℓ) → Result A → Type ℓ
Ensures P (ok a) = P a
Ensures P (err e) = Unit

bind-Ensures :
    {A B : Type 0} (P : B → Type 0) (r : Result A) (f : A → Result B)
    → ((a : A) → Ensures P (f a))
    → Ensures P (r >>= f)
bind-Ensures P (ok a) f h = h a
bind-Ensures P (err e) f h = tt

not_some : {A : Type 0} (o : Option A) → is_some o ≡ false → o ≡ none
not_some none h = refl
not_some (some a) h = absurd (ground arith)

or_false : (a b : Bool) → (a || not b) ≡ false → (a ≡ false) × (b ≡ true)
or_false a b h = (ground arith, ground arith)

module _ (crypto : Crypto) (settings : AuthSettings) (credentials : List ApiCredential) where
  live_claims-IsLive :
      (claims : TokenClaims) (o : Option ApiCredential)
      → get_credential claims.credential_id credentials ≡ o
      → Ensures (IsLive credentials) (live_claims crypto settings claims o)
  unfolding live_claims
  live_claims-IsLive claims none e = tt
  live_claims-IsLive claims (some c) e =
      elim (Bool-cases (is_some c.revoked_at || not (c.tenant_id == claims.tenant_id))) [
        | inl refused ↦ rw refused tt
        | inr live ↦
            let (held, own) =
              or_false (is_some c.revoked_at) (c.tenant_id == claims.tenant_id) live in
            rw live (c, e, not_some c.revoked_at held, eqb→eq c.tenant_id claims.tenant_id own)
      ]

  -- A request that is authenticated has the claims of a live credential.
  pub get_current_tenant-IsLive :
      (lower : Text → Text) (now : ℕ) (authorization : Option Text)
      → Ensures
          (IsLive credentials)
          (get_current_tenant crypto settings lower now authorization credentials)
  unfolding get_current_tenant
  get_current_tenant-IsLive lower now none = tt
  get_current_tenant-IsLive lower now (some authorization) =
      elim (Bool-cases
        (is_empty authorization || not (starts_with (codes "bearer ") (lower authorization)))) [
          | inl missing ↦ rw missing tt
          | inr given ↦ rw given (
              bind-Ensures (IsLive credentials)
                (decode_access_token crypto (drop 7 authorization) settings.jwt_secret now) _
                (λ claims. live_claims-IsLive claims _ refl))
        ]
