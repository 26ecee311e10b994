-- ===== src/Security.antt =====
-- security.py, the table `api_credentials` of models.py, and the two commands of cli.py on it. The hash,
-- JWT and UUIDs as text are parameters; `secrets.compare_digest` is `==` of texts.
pub mod Credentials
pub mod Tokens
use rag_knowledge_platform_f.Prelude.{
  ℕ, ◌+◌, ◌≤◌, ◌<◌, Bool, true, false, ◌||◌, Option, none, some, List, [], ◌∷◌, ◌++◌, ◌≡◌, ◌==◌,
  if◌then◌else◌,
}
use rag_knowledge_platform_f.Text.{Text, codes, text_eq}
use rag_knowledge_platform_f.Errors.{
  Result, ok, err, Exc, rag, foreign, authentication, not_found, ◌>>=◌,
}

-- `ApiCredential`. The times are numbers.
pub record ApiCredential : Type 0 where
  pub id : ℕ
  pub tenant_id : ℕ
  pub name : Text
  pub client_id : Text
  pub secret_hash : Text
  pub created_at : ℕ
  pub last_used_at : Option ℕ
  pub revoked_at : Option ℕ

-- `TokenClaims`.
pub record TokenClaims : Type 0 where
  pub tenant_id : ℕ
  pub credential_id : ℕ

-- The value of a claim of a payload: a text, or any other JSON.
pub data Claim : Type 0 where
  text : Text → Claim
  other : Claim

-- The payload of a token.
pub record Payload : Type 0 where
  pub iss : Text
  pub sub : Claim
  pub tid : Claim
  pub iat : ℕ
  pub exp : ℕ

-- `jwt.encode` and `jwt.decode`, `hashlib.sha256(...).hexdigest()`, `str` of a UUID and `uuid.UUID`. An
-- error of `decode` or a `ValueError` is `none`; the claims that `decode` requires are there if it
-- returns.
pub record Crypto : Type 0 where
  pub encode : Payload → (secret : Text) → Text
  pub decode : Text → (secret issuer : Text) → (now : ℕ) → Option Payload
  pub sha256_hex : Text → Text
  pub uuid_str : ℕ → Text
  pub uuid_of : Text → Option ℕ

abbrev pub issuer : Text
issuer = codes "rag-knowledge-platform"

module _ (crypto : Crypto) where
  unfoldable pub hash_secret : Text → Text
  hash_secret secret = crypto.sha256_hex secret

  unfoldable pub secret_matches : Text → (stored_hash : Text) → Bool
  unfolding hash_secret
  secret_matches secret stored_hash = text_eq (hash_secret secret) stored_hash

  -- The payload of a token.
  abbrev pub payload_of : (tenant_id credential_id now ttl_seconds : ℕ) → Payload
  payload_of tenant_id credential_id now ttl_seconds = record {
    iss = issuer;
    sub = Claim.text (crypto.uuid_str credential_id);
    tid = Claim.text (crypto.uuid_str tenant_id);
    iat = now;
    exp = now + ttl_seconds;
  }

  pub create_access_token :
      (tenant_id credential_id : ℕ) → (jwt_secret : Text) → (ttl_seconds now : ℕ) → Text × ℕ
  create_access_token tenant_id credential_id jwt_secret ttl_seconds now =
      (crypto.encode (payload_of tenant_id credential_id now ttl_seconds) jwt_secret, ttl_seconds)

  invalid_token : Exc
  invalid_token = rag (authentication (codes "invalid or expired token"))

  -- `uuid.UUID(claim)`: a `ValueError` is caught, the `AttributeError` of what is no text is not.
  pub uuid_claim : Claim → Result ℕ
  unfolding invalid_token
  uuid_claim (Claim.text t) = elim (crypto.uuid_of t) [ none ↦ err invalid_token | some id ↦ ok id ]
  uuid_claim Claim.other = err (foreign 0)

  claims_of : Option Payload → Result TokenClaims
  claims_of none = err invalid_token
  claims_of (some payload) = do
    tenant_id ← uuid_claim payload.tid
    credential_id ← uuid_claim payload.sub
    ok (record { tenant_id = tenant_id; credential_id = credential_id })

  pub decode_access_token : Text → (jwt_secret : Text) → (now : ℕ) → Result TokenClaims
  unfolding claims_of
  decode_access_token token jwt_secret now = claims_of (crypto.decode token jwt_secret issuer now)

-- `session.get(ApiCredential, id)`.
unfoldable pub get_credential : ℕ → List ApiCredential → Option ApiCredential
get_credential id [] = none
get_credential id (c ∷ cs) = if c.id == id then some c else get_credential id cs

-- `select(ApiCredential).where(ApiCredential.client_id == client_id)`, of which there is one at most.
unfoldable pub find_client : Text → List ApiCredential → Option ApiCredential
find_client client_id [] = none
find_client client_id (c ∷ cs) =
    if text_eq c.client_id client_id then some c else find_client client_id cs

-- An UPDATE of the row with this id.
unfoldable pub update_credential :
    ℕ → (ApiCredential → ApiCredential) → List ApiCredential → List ApiCredential
update_credential id f [] = []
update_credential id f (c ∷ cs) = (if c.id == id then f c else c) ∷ update_credential id f cs

-- The primary key, and the unique `client_id`, of a row and a new one.
unfoldable pub any_clash : ApiCredential → List ApiCredential → Bool
any_clash n [] = false
any_clash n (c ∷ cs) = (c.id == n.id || text_eq c.client_id n.client_id) || any_clash n cs

-- The row that `_cmd_create_credential` makes, with the hash of the secret.
abbrev pub new_row :
    Crypto → (id tenant_id now : ℕ) → (name client_id client_secret : Text) → ApiCredential
new_row crypto id tenant_id now name client_id client_secret = record {
  id = id;
  tenant_id = tenant_id;
  name = name;
  client_id = client_id;
  secret_hash = hash_secret crypto client_secret;
  created_at = now;
  last_used_at = none;
  revoked_at = none;
}

-- `_cmd_create_credential` for a tenant, with the id, client id and secret that are generated; a key
-- that is taken is the database's error.
unfoldable pub create_credential :
    Crypto
    → (id tenant_id now : ℕ) → (name client_id client_secret : Text) → List ApiCredential
    → Result (Text × Text) × List ApiCredential
create_credential crypto id tenant_id now name client_id client_secret credentials =
    let row = new_row crypto id tenant_id now name client_id client_secret in
    if any_clash row credentials
    then (err (foreign 1), credentials)
    else (ok (client_id, client_secret), credentials ++ row ∷ [])

abbrev pub revoke_at : ℕ → ApiCredential → ApiCredential
revoke_at now c = record c { revoked_at = elim c.revoked_at [ none ↦ some now | some t ↦ some t ] }

-- `_cmd_revoke_credential`; `repr` is that of the client id in the message.
revoke_found :
    (Text → Text)
    → (now : ℕ) → Text
    → Option ApiCredential
    → List ApiCredential
    → Result (Unit {0}) × List ApiCredential
revoke_found repr now client_id none credentials =
    (err (rag (not_found (codes "no credential with client_id " ++ repr client_id))), credentials)
revoke_found repr now client_id (some c) credentials =
    (ok tt, update_credential c.id (revoke_at now) credentials)

unfoldable pub revoke_credential :
    (Text → Text) → (now : ℕ) → Text → List ApiCredential → Result (Unit {0}) × List ApiCredential
unfolding revoke_found
revoke_credential repr now client_id credentials =
    revoke_found repr now client_id (find_client client_id credentials) credentials
