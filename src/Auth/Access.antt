-- ===== src/Auth/Access.antt =====
-- From a new credential to an authenticated request.
use rag_knowledge_platform_f.Prelude.{
  ℕ, ◌+◌, ◌≤◌, true, false, none, some, List, [], ◌∷◌, ◌++◌, ◌≡◌, refl, ap, ◌∙◌, inl, inr, ltb,
  eqb_refl, if◌then◌else◌, Bool-cases,
}
use rag_knowledge_platform_f.Text.{Text, codes, text_eq, text_eq_refl}
use rag_knowledge_platform_f.Errors.{Result, ok, err, rag, authentication}
use rag_knowledge_platform_f.Security.{
  ApiCredential, Crypto, hash_secret, secret_matches, create_access_token, get_credential,
  find_client, update_credential, any_clash, create_credential, new_row,
}
use rag_knowledge_platform_f.Security.Credentials.{
  KeepsKeys, updated, map_some, get_credential-update, get_credential_last, find_client_last,
}
use rag_knowledge_platform_f.Security.Tokens.{IsSound, decode_access_token-create_access_token}
use rag_knowledge_platform_f.Auth.{
  AuthSettings, TokenResponse, TokenForm, use_at, starts_with, live_client, grant_token,
  live_claims, get_current_tenant,
}

-- The header that presents the token of a response.
abbrev pub bearer : Result TokenResponse → Text
bearer (ok r) = codes "Bearer " ++ r.access_token
bearer (err e) = []

abbrev use_at-KeepsKeys : (now : ℕ) → KeepsKeys (use_at now)
use_at-KeepsKeys now = record { id = λ c. refl; client_id = λ c. refl; tenant_id = λ c. refl }

abbrev pub form_of : (client_id client_secret : Text) → TokenForm
form_of client_id client_secret = record {
  grant_type = codes "client_credentials";
  client_id = client_id;
  client_secret = client_secret;
}

module _ (crypto : Crypto) (sound : IsSound crypto) (settings : AuthSettings) where
  live_client_live :
      (client_id client_secret : Text) (c : ApiCredential)
      → c.revoked_at ≡ none
      → c.secret_hash ≡ hash_secret crypto client_secret
      → live_client crypto settings (form_of client_id client_secret) (some c) ≡ ok c
  unfolding live_client secret_matches
  live_client_live client_id client_secret c live own =
      rw (live, own, text_eq_refl (hash_secret crypto client_secret)) refl

  -- A live credential that is presented with its own secret gets a token, which notes its use.
  grant_live :
      (now : ℕ) (client_id client_secret : Text) (credentials : List ApiCredential)
      (c : ApiCredential)
      → find_client client_id credentials ≡ some c
      → c.revoked_at ≡ none
      → c.secret_hash ≡ hash_secret crypto client_secret
      → grant_token crypto settings now (form_of client_id client_secret) credentials ≡ (
        ok (record {
          access_token =
              (create_access_token crypto c.tenant_id c.id settings.jwt_secret
                settings.jwt_ttl_seconds now).0;
          expires_in =
              (create_access_token crypto c.tenant_id c.id settings.jwt_secret
                settings.jwt_ttl_seconds now).1;
        }),
        update_credential c.id (use_at now) credentials,
      )
  unfolding grant_token text_eq
  grant_live now client_id client_secret credentials c found live own =
      rw (found, live_client_live client_id client_secret c live own) refl

  -- A token that is presented while its credential is live.
  present_token :
      (lower : Text → Text) (tenant_id id issued now : ℕ) (credentials : List ApiCredential)
      (c : ApiCredential)
      → ((t : Text) → starts_with (codes "bearer ") (lower (codes "Bearer " ++ t)) ≡ true)
      → issued ≤ now
      → get_credential id credentials ≡ some c
      → c.revoked_at ≡ none
      → c.tenant_id ≡ tenant_id
      → get_current_tenant crypto settings lower now
          (some (
            codes "Bearer "
            ++ (create_access_token crypto tenant_id id settings.jwt_secret settings.jwt_ttl_seconds
                issued).0))
          credentials
        ≡ (if ltb now (issued + settings.jwt_ttl_seconds)
            then ok (record { tenant_id = tenant_id; credential_id = id })
            else err (rag (authentication (codes "invalid or expired token"))))
  unfolding get_current_tenant live_claims
  present_token lower tenant_id id issued now credentials c lowers later found live own =
      let token =
        (create_access_token crypto tenant_id id settings.jwt_secret settings.jwt_ttl_seconds
          issued).0 in
      let decoded =
        decode_access_token-create_access_token crypto sound tenant_id id settings.jwt_secret
          settings.jwt_ttl_seconds issued now later in
      rw (lowers token, decoded)
        (elim (Bool-cases (ltb now (issued + settings.jwt_ttl_seconds))) [
          | inl valid ↦ rw (valid, found, live, own, eqb_refl tenant_id) refl
          | inr over ↦ rw over refl
        ])

  -- A credential that is created gets a token with the client id and secret that its creation returns,
  -- and a request with the token is authenticated as the credential and its tenant from the issue on
  -- until the token expires, and refused from then on.
  pub credential_roundtrip :
      (lower : Text → Text) (id tenant_id created issued now : ℕ)
      (name client_id client_secret : Text) (credentials : List ApiCredential)
      → ((t : Text) → starts_with (codes "bearer ") (lower (codes "Bearer " ++ t)) ≡ true)
      → any_clash (new_row crypto id tenant_id created name client_id client_secret) credentials
        ≡ false
      → issued ≤ now
      → let (made, stored) =
          create_credential crypto id tenant_id created name client_id client_secret credentials in
        let (granted, used) =
          grant_token crypto settings issued (form_of client_id client_secret) stored in
        (made ≡ ok (client_id, client_secret))
        × (get_current_tenant crypto settings lower now (some (bearer granted)) used ≡ (
            if ltb now (issued + settings.jwt_ttl_seconds)
            then ok (record { tenant_id = tenant_id; credential_id = id })
            else err (rag (authentication (codes "invalid or expired token")))))
  unfolding create_credential
  credential_roundtrip lower id tenant_id created issued now name client_id client_secret
        credentials lowers fresh later =
      let row = new_row crypto id tenant_id created name client_id client_secret in
      let stored = credentials ++ row ∷ [] in
      let granted =
        grant_live issued client_id client_secret stored row
          (find_client_last credentials row fresh) refl refl in
      let found : get_credential id (update_credential id (use_at issued) stored)
          ≡ some (use_at issued row) =
        get_credential-update (use_at issued) (use_at-KeepsKeys issued) id id stored
        ∙ ap (map_some (updated id (use_at issued))) (get_credential_last credentials row fresh)
        ∙ rw (eqb_refl id) refl in
      rw (fresh, granted)
        (
          refl,
          present_token lower tenant_id id issued now _ (use_at issued row) lowers later found refl
              refl,
        )
