-- ===== src/Auth/Revocation.antt =====
-- What follows the revocation of a credential.
use rag_knowledge_platform_f.Prelude.{ℕ, false, Option, some, List, [], ◌∷◌, ◌≡◌}
use rag_knowledge_platform_f.Text.{Text}
use rag_knowledge_platform_f.Security.{
  ApiCredential, Crypto, find_client, create_credential, revoke_credential,
}
use rag_knowledge_platform_f.Auth.Revoked.{
  is_ok, is_claimed_by, Gone, create-Gone, revoke-Gone, grant_token-Gone, grant-Gone,
  authenticated-Gone, revoked-Gone,
}
use rag_knowledge_platform_f.Auth.{AuthSettings, TokenForm, grant_token, get_current_tenant}

-- What happens to the table of credentials: a command of the operator, or a request for a token.
pub data Event : Type 0 where
  created : (id tenant_id now : ℕ) → (name client_id client_secret : Text) → Event
  revoked : (now : ℕ) → (client_id : Text) → Event
  requested : (now : ℕ) → TokenForm → Event

module _ (crypto : Crypto) (settings : AuthSettings) (repr : Text → Text) where
  pub run_event : Event → List ApiCredential → List ApiCredential
  run_event (Event.created id tenant_id now name client_id client_secret) cs =
      (create_credential crypto id tenant_id now name client_id client_secret cs).1
  run_event (Event.revoked now client_id) cs = (revoke_credential repr now client_id cs).1
  run_event (Event.requested now form) cs = (grant_token crypto settings now form cs).1

  pub run_events : List Event → List ApiCredential → List ApiCredential
  run_events [] cs = cs
  run_events (e ∷ events) cs = run_events events (run_event e cs)

module _ (crypto : Crypto) (settings : AuthSettings) where
  run_events-Gone :
      (repr : Text → Text) (id : ℕ) (client : Text) (events : List Event) (cs : List ApiCredential)
      → Gone id client cs
      → Gone id client (run_events crypto settings repr events cs)
  unfolding run_events run_event
  run_events-Gone repr id client [] cs h = h
  run_events-Gone repr id client (Event.created k tenant_id now name client_id secret ∷ events) cs
        h =
      run_events-Gone repr id client events _
        (create-Gone crypto settings id client k tenant_id now name client_id secret cs h)
  run_events-Gone repr id client (Event.revoked now client_id ∷ events) cs h =
      run_events-Gone repr id client events _
        (revoke-Gone crypto settings id client repr now client_id cs h)
  run_events-Gone repr id client (Event.requested now form ∷ events) cs h =
      run_events-Gone repr id client events _
        (grant_token-Gone crypto settings id client now form cs h)

  -- Once the operator has revoked a credential, whatever commands and requests for tokens follow, no
  -- request for a token with its client id is granted, with any secret and at any time, and no request
  -- with any header is authenticated as it, with the tokens that it had before included.
  pub revocation_final :
      (repr lower : Text → Text) (revoked_at now : ℕ) (client_id client_secret grant_type : Text)
      (authorization : Option Text) (events : List Event) (credentials : List ApiCredential)
      (c : ApiCredential)
      → find_client client_id credentials ≡ some c
      → let later =
          run_events crypto settings repr events
            (revoke_credential repr revoked_at client_id credentials).1 in
        (is_ok
            (grant_token crypto settings now
              (record {
                grant_type = grant_type;
                client_id = client_id;
                client_secret = client_secret;
              })
              later).0
          ≡ false)
        × (is_claimed_by c.id (get_current_tenant crypto settings lower now authorization later)
            ≡ false)
  revocation_final repr lower revoked_at now client_id client_secret grant_type authorization events
        credentials c found =
      let gone =
        run_events-Gone repr c.id client_id events _
          (revoked-Gone crypto settings repr revoked_at client_id credentials c found) in
      (
        grant-Gone crypto settings now _ _ gone.1,
        authenticated-Gone crypto settings lower c.id now authorization _ gone.0,
      )
