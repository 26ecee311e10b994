-- ===== src/Auth/Revoked.antt =====
-- A revoked credential: what keeps it revoked, and what it no longer gets.
use rag_knowledge_platform_f.Prelude.{
  ℕ, Bool, true, false, not, ◌||◌, Option, none, some, List, [], ◌∷◌, ◌++◌, ◌≡◌, refl, sym, ap, ◌∙◌,
  inl, inr, ◌==◌, eqb→eq, eqb_refl, Bool-cases, Option-cases, drop, is_empty, subst,
}
use rag_knowledge_platform_f.Text.{Text, codes, text_eq}
use rag_knowledge_platform_f.Errors.{Result, ok, err, ◌>>=◌}
use rag_knowledge_platform_f.Security.{
  ApiCredential, TokenClaims, Crypto, decode_access_token, get_credential, find_client,
  update_credential, create_credential, revoke_credential, revoke_at, any_clash, new_row,
}
use rag_knowledge_platform_f.Security.Credentials.{
  KeepsKeys, updated, map_some, get_credential-update, find_client-update, get_credential-append,
  find_client-append, found_by_id, get_credential_id,
}
use rag_knowledge_platform_f.Auth.{
  AuthSettings, TokenForm, is_some, use_at, starts_with, live_client, grant_token, grant_to,
  live_claims, get_current_tenant,
}

abbrev pub is_ok {ℓ} : {A : Type ℓ} → Result A → Bool
is_ok (ok a) = true
is_ok (err e) = false

-- Whether a request is authenticated as this credential.
abbrev pub is_claimed_by : ℕ → Result TokenClaims → Bool
is_claimed_by id (ok claims) = claims.credential_id == id
is_claimed_by id (err e) = false

-- A lookup that finds a revoked row.
abbrev pub IsRevoked : Option ApiCredential → Type 0
IsRevoked o = (c : ApiCredential) × (o ≡ some c) × (is_some c.revoked_at ≡ true)

-- An update that revokes no less than before.
record KeepsRevoked (f : ApiCredential → ApiCredential) : Type 0 where
  keys : KeepsKeys f
  kept : (c : ApiCredential) → is_some c.revoked_at ≡ true → is_some (f c).revoked_at ≡ true

use_at-KeepsRevoked : (now : ℕ) → KeepsRevoked (use_at now)
use_at-KeepsRevoked now = record {
  keys = record { id = λ c. refl; client_id = λ c. refl; tenant_id = λ c. refl };
  kept = λ c h. h;
}

revoke_at_revokes : (now : ℕ) (c : ApiCredential) → is_some (revoke_at now c).revoked_at ≡ true
revoke_at_revokes now c = elim (Option-cases c.revoked_at) [
  | inl live ↦ rw live refl
  | inr (t, gone) ↦ rw gone refl
]

revoked_own :
    (now j : ℕ) (d : ApiCredential)
    → d.id ≡ j
    → is_some (updated j (revoke_at now) d).revoked_at ≡ true
revoked_own now j d e =
    let own : (d.id == j) ≡ true = subst (λ k. (d.id == k) ≡ true) e (eqb_refl d.id) in
    rw own (revoke_at_revokes now d)

revoke_at-KeepsRevoked : (now : ℕ) → KeepsRevoked (revoke_at now)
revoke_at-KeepsRevoked now = record {
  keys = record { id = λ c. refl; client_id = λ c. refl; tenant_id = λ c. refl };
  kept = λ c h. revoke_at_revokes now c;
}

updated-IsRevoked :
    (f : ApiCredential → ApiCredential) (j : ℕ) (o : Option ApiCredential)
    → KeepsRevoked f
    → IsRevoked o
    → IsRevoked (map_some (updated j f) o)
updated-IsRevoked f j o keeps (c, e, gone) = (
  updated j f c,
  rw e refl,
  elim (Bool-cases (c.id == j)) [
    | inl own ↦ rw own (keeps.kept c gone)
    | inr other ↦ rw other gone
  ],
)

-- The credential is revoked, by its id and by its client id.
abbrev pub Gone : ℕ → Text → List ApiCredential → Type 0
Gone id client cs = IsRevoked (get_credential id cs) × IsRevoked (find_client client cs)

module _ (id : ℕ) (client : Text) where
  update-Gone :
      (f : ApiCredential → ApiCredential) (j : ℕ) (cs : List ApiCredential)
      → KeepsRevoked f
      → Gone id client cs
      → Gone id client (update_credential j f cs)
  update-Gone f j cs keeps h = (
    subst IsRevoked (sym (get_credential-update f keeps.keys id j cs))
        (updated-IsRevoked f j _ keeps h.0),
    subst IsRevoked (sym (find_client-update f keeps.keys client j cs))
        (updated-IsRevoked f j _ keeps h.1),
  )

  append-Gone :
      (cs : List ApiCredential) (row : ApiCredential)
      → Gone id client cs
      → Gone id client (cs ++ row ∷ [])
  append-Gone cs row ((c, e, gone), (d, e', gone')) = (
    (c, get_credential-append id cs row c e, gone),
    (d, find_client-append client cs row d e', gone'),
  )

module _ (crypto : Crypto) (settings : AuthSettings) where
  pub create-Gone :
      (id : ℕ) (client : Text) (k tenant_id now : ℕ) (name client_id client_secret : Text)
      (cs : List ApiCredential)
      → Gone id client cs
      → Gone id client (create_credential crypto k tenant_id now name client_id client_secret cs).1
  unfolding create_credential
  create-Gone id client k tenant_id now name client_id client_secret cs h =
      elim (Bool-cases
        (any_clash (new_row crypto k tenant_id now name client_id client_secret) cs)) [
          | inl taken ↦ rw taken h
          | inr fresh ↦ rw fresh (append-Gone id client cs _ h)
        ]

  pub revoke-Gone :
      (id : ℕ) (client : Text) (repr : Text → Text) (now : ℕ) (client_id : Text)
      (cs : List ApiCredential)
      → Gone id client cs
      → Gone id client (revoke_credential repr now client_id cs).1
  unfolding revoke_credential
  revoke-Gone id client repr now client_id cs h = elim (Option-cases (find_client client_id cs)) [
    | inl missing ↦ rw (missing, revoke_credential) h
    | inr (c, found) ↦
        rw (found, revoke_credential)
          (update-Gone id client (revoke_at now) c.id cs (revoke_at-KeepsRevoked now) h)
  ]

  grant_to-Gone :
      (id : ℕ) (client : Text) (now : ℕ) (r : Result ApiCredential) (cs : List ApiCredential)
      → Gone id client cs
      → Gone id client (grant_to crypto settings now r cs).1
  unfolding grant_to
  grant_to-Gone id client now (err e) cs h = h
  grant_to-Gone id client now (ok c) cs h =
      update-Gone id client (use_at now) c.id cs (use_at-KeepsRevoked now) h

  pub grant_token-Gone :
      (id : ℕ) (client : Text) (now : ℕ) (form : TokenForm) (cs : List ApiCredential)
      → Gone id client cs
      → Gone id client (grant_token crypto settings now form cs).1
  unfolding grant_token
  grant_token-Gone id client now form cs h =
      elim (Bool-cases (text_eq form.grant_type (codes "client_credentials"))) [
        | inl good ↦ rw good (grant_to-Gone id client now _ cs h)
        | inr bad ↦ rw bad h
      ]

  -- A revoked credential gets no token.
  pub grant-Gone :
      (now : ℕ) (form : TokenForm) (cs : List ApiCredential)
      → IsRevoked (find_client form.client_id cs)
      → is_ok (grant_token crypto settings now form cs).0 ≡ false
  unfolding grant_token grant_to live_client
  grant-Gone now form cs (c, e, gone) =
      elim (Bool-cases (text_eq form.grant_type (codes "client_credentials"))) [
        | inl good ↦ rw (good, e, gone) refl
        | inr bad ↦ rw bad refl
      ]

  -- A request is authenticated as the credential that its claims name.
  claimed_other :
      (id : ℕ) (claims : TokenClaims) (o : Option ApiCredential)
      → (claims.credential_id == id) ≡ false
      → is_claimed_by id (live_claims crypto settings claims o) ≡ false
  unfolding live_claims
  claimed_other id claims none h = refl
  claimed_other id claims (some c) h =
      elim (Bool-cases (is_some c.revoked_at || not (c.tenant_id == claims.tenant_id))) [
        | inl refused ↦ rw refused refl
        | inr live ↦ rw live h
      ]

  live_claims-Gone :
      (id : ℕ) (claims : TokenClaims) (cs : List ApiCredential)
      → IsRevoked (get_credential id cs)
      → is_claimed_by id
          (live_claims crypto settings claims (get_credential claims.credential_id cs))
        ≡ false
  unfolding live_claims
  live_claims-Gone id claims cs (c, e, gone) = elim (Bool-cases (claims.credential_id == id)) [
    | inl own ↦
        let found =
          subst (λ k. get_credential k cs ≡ some c) (sym (eqb→eq claims.credential_id id own)) e in
        rw (found, gone) refl
    | inr other ↦ claimed_other id claims (get_credential claims.credential_id cs) other
  ]

  claimed_bind :
      (id : ℕ) (r : Result TokenClaims) (f : TokenClaims → Result TokenClaims)
      → ((claims : TokenClaims) → is_claimed_by id (f claims) ≡ false)
      → is_claimed_by id (r >>= f) ≡ false
  claimed_bind id (ok claims) f h = h claims
  claimed_bind id (err e) f h = refl

  pub authenticated-Gone :
      (lower : Text → Text) (id now : ℕ) (authorization : Option Text) (cs : List ApiCredential)
      → IsRevoked (get_credential id cs)
      → is_claimed_by id (get_current_tenant crypto settings lower now authorization cs) ≡ false
  unfolding get_current_tenant
  authenticated-Gone lower id now none cs h = refl
  authenticated-Gone lower id now (some authorization) cs h =
      elim (Bool-cases
        (is_empty authorization || not (starts_with (codes "bearer ") (lower authorization)))) [
          | inl missing ↦ rw missing refl
          | inr given ↦ rw given (
              claimed_bind id
                (decode_access_token crypto (drop 7 authorization) settings.jwt_secret now) _
                (λ claims. live_claims-Gone id claims cs h))
        ]

  -- The commands of the operator revoke what they are told to.
  pub revoked-Gone :
      (repr : Text → Text) (now : ℕ) (client : Text) (cs : List ApiCredential) (c : ApiCredential)
      → find_client client cs ≡ some c
      → Gone c.id client (revoke_credential repr now client cs).1
  unfolding revoke_credential
  revoked-Gone repr now client cs c found =
      let (d, by_id) = found_by_id client cs c found in
      let f = revoke_at now in
      let keys = (revoke_at-KeepsRevoked now).keys in
      rw (found, revoke_credential)
        (
          (
            updated c.id f d,
            get_credential-update f keys c.id c.id cs ∙ ap (map_some (updated c.id f)) by_id,
            revoked_own now c.id d (get_credential_id c.id cs d by_id),
          ),
          (
            updated c.id f c,
            find_client-update f keys client c.id cs ∙ ap (map_some (updated c.id f)) found,
            revoked_own now c.id c refl,
          ),
        )
