-- ===== src/Security/Tokens.antt =====
-- The tokens that the service issues, under what is documented of the libraries.
use rag_knowledge_platform_f.Prelude.{
  ℕ, ◌+◌, ◌≤◌, ◌<◌, none, some, ◌≡◌, refl, inl, inr, ltb, ltb→lt, ltb→le, if◌then◌else◌, Bool-cases,
}
use rag_knowledge_platform_f.Text.{Text, codes}
use rag_knowledge_platform_f.Errors.{ok, err, rag, authentication}
use rag_knowledge_platform_f.Security.{
  Payload, payload_of, Crypto, create_access_token, decode_access_token, uuid_claim, claims_of,
}

-- What PyJWT and `uuid` document: a payload comes back from its token, with the same secret and the
-- issuer that it names, until it expires, and not from then on; an id comes back from its text.
pub record IsSound (crypto : Crypto) : Type 0 where
  pub decodes :
      (p : Payload) (secret : Text) (now : ℕ)
      → p.iat ≤ now
      → now < p.exp
      → crypto.decode (crypto.encode p secret) secret p.iss now ≡ some p
  pub expires :
      (p : Payload) (secret : Text) (now : ℕ)
      → p.exp ≤ now
      → crypto.decode (crypto.encode p secret) secret p.iss now ≡ none
  pub uuids : (id : ℕ) → crypto.uuid_of (crypto.uuid_str id) ≡ some id

module _ (crypto : Crypto) (sound : IsSound crypto) where
  -- A token gives the claims that it was made of until it expires, and none from then on.
  pub decode_access_token-create_access_token :
      (tenant_id credential_id : ℕ) (jwt_secret : Text) (ttl_seconds issued now : ℕ)
      → issued ≤ now
      → decode_access_token crypto
          (create_access_token crypto tenant_id credential_id jwt_secret ttl_seconds issued).0
          jwt_secret
          now
        ≡ (if ltb now (issued + ttl_seconds)
            then ok (record { tenant_id = tenant_id; credential_id = credential_id })
            else err (rag (authentication (codes "invalid or expired token"))))
  unfolding decode_access_token create_access_token uuid_claim claims_of
  decode_access_token-create_access_token tenant_id credential_id jwt_secret ttl_seconds issued now
        h =
      elim (Bool-cases (ltb now (issued + ttl_seconds))) [
        | inl live ↦
            rw
              (
                live,
                sound.decodes (payload_of crypto tenant_id credential_id issued ttl_seconds)
                    jwt_secret now h (ltb→lt now _ live),
                sound.uuids tenant_id,
                sound.uuids credential_id,
              )
              refl
        | inr over ↦
            rw
              (
                over,
                sound.expires (payload_of crypto tenant_id credential_id issued ttl_seconds)
                    jwt_secret now (ltb→le now _ over),
              )
              refl
      ]
