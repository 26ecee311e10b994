-- ===== src/Auth/Throttle.antt =====
-- The token endpoint under a client that guesses secrets.
use rag_knowledge_platform_f.Prelude.{
  ℕ, ◌+◌, ◌-◌, ◌/◌, ◌≤◌, Bool, true, false, Option, none, some, List, [], ◌∷◌, ◌++◌, ◌≡◌, refl, ap,
  ◌∙◌, inl, inr, All, ltb, ltb→le, if◌then◌else◌, Bool-cases, arith,
}
use rag_knowledge_platform_f.Text.{Text, codes, text_eq, text_eq→eq}
use rag_knowledge_platform_f.Errors.{Result, ok, err, Exc, rag, rate_limited}
use rag_knowledge_platform_f.RateLimit.{RedisClient, window_seconds, bucket_of, check}
use rag_knowledge_platform_f.RateLimit.Window.{
  IsCounting, answer, append_cancel, check_at, bucket_eq,
}
use rag_knowledge_platform_f.Security.{ApiCredential, Crypto}
use rag_knowledge_platform_f.Auth.{
  AuthSettings, TokenForm, live_client, grant_token, grant_to, after_limit, issue_token,
}

-- Whether the limiter has refused a request.
abbrev is_rate_limited : Exc → Bool
is_rate_limited (rag (rate_limited n)) = true
is_rate_limited e = false

abbrev pub is_limited {ℓ} : {A : Type ℓ} → Result A → Bool
is_limited (ok a) = false
is_limited (err e) = is_rate_limited e

module _ {S : Type 0} (crypto : Crypto) (settings : AuthSettings) (redis : RedisClient S) where
  -- How many of the requests with a client id the limiter lets through to the look at their secret,
  -- when the requests are served one after the other.
  pub let_through : Text → List (TokenForm × ℕ) → S × List ApiCredential → ℕ
  let_through client [] state = 0
  let_through client ((form, now) ∷ requests) state =
      let (r, state') = issue_token crypto settings redis now form state in
      let rest = let_through client requests state' in
      if text_eq form.client_id client then (if is_limited r then rest else 1 + rest) else rest

  live_client-is_limited :
      (form : TokenForm) (o : Option ApiCredential)
      → is_limited (live_client crypto settings form o) ≡ false
  unfolding live_client
  live_client-is_limited form none = refl
  live_client-is_limited form (some c) = ground arith

  grant_to-is_limited :
      (now : ℕ) (r : Result ApiCredential) (cs : List ApiCredential)
      → is_limited r ≡ false
      → is_limited (grant_to crypto settings now r cs).0 ≡ false
  unfolding grant_to
  grant_to-is_limited now (ok c) cs h = refl
  grant_to-is_limited now (err e) cs h = h

  grant_token-is_limited :
      (now : ℕ) (form : TokenForm) (cs : List ApiCredential)
      → is_limited (grant_token crypto settings now form cs).0 ≡ false
  unfolding grant_token
  grant_token-is_limited now form cs =
      elim (Bool-cases (text_eq form.grant_type (codes "client_credentials"))) [
        | inl good ↦ rw good (grant_to-is_limited now _ cs (live_client-is_limited form _))
        | inr bad ↦ rw bad refl
      ]

  after_limit_lem :
      (now : ℕ) (form : TokenForm) (r : Result (Unit {0}) × S) (cs : List ApiCredential)
      → (is_limited (after_limit crypto settings redis now form r cs).0 ≡ is_limited r.0)
        × ((after_limit crypto settings redis now form r cs).1.0 ≡ r.1)
  unfolding after_limit
  after_limit_lem now form (ok u, s) cs = (grant_token-is_limited now form cs, refl)
  after_limit_lem now form (err e, s) cs = (refl, refl)

  issue_token_lem :
      (now : ℕ) (form : TokenForm) (s : S) (cs : List ApiCredential)
      → let checked =
          check redis settings.rate_limit_token_per_minute now
            (codes "token:" ++ form.client_id)
            s in
        (is_limited (issue_token crypto settings redis now form (s, cs)).0 ≡ is_limited checked.0)
        × ((issue_token crypto settings redis now form (s, cs)).1.0 ≡ checked.1)
  unfolding issue_token
  issue_token_lem now form s cs = after_limit_lem now form _ cs

  answer-is_limited : (limit now count : ℕ) → is_limited (answer limit now count) ≡ ltb limit count
  answer-is_limited limit now count = elim (Bool-cases (ltb limit count)) [
    | inl over ↦ rw over refl
    | inr within ↦ rw within refl
  ]

module _ {S : Type 0} (crypto : Crypto) (settings : AuthSettings) (redis : RedisClient S)
    (counting : IsCounting redis) where
  -- Within a window, the requests with one client id that the limiter lets through to the look at
  -- their secret, whatever other requests stand between them, are no more than the limit leaves, if
  -- Redis answers and counts.
  pub let_through-le :
      (client : Text) (window : ℕ) (requests : List (TokenForm × ℕ)) (s : S)
      (cs : List ApiCredential)
      → All (λ (r : TokenForm × ℕ). r.1 / window_seconds ≡ window) requests
      → let_through crypto settings redis client requests (s, cs)
        ≤ settings.rate_limit_token_per_minute
          - redis.stored (bucket_of (codes "token:" ++ client) window) s
  unfolding let_through
  let_through-le client window [] s cs h = omega arith
  let_through-le client window ((form, now) ∷ requests) s cs h =
      let limit = settings.rate_limit_token_per_minute in
      let bucket = bucket_of (codes "token:" ++ client) window in
      let issued = issue_token crypto settings redis now form (s, cs) in
      let rest = let_through-le client window requests issued.1.0 issued.1.1 h.1 in
      let (same_answer, same_state) = issue_token_lem crypto settings redis now form s cs in
      elim (Bool-cases (text_eq form.client_id client)) [
        | inl own ↦
            let same =
              ap (λ t. bucket_of (codes "token:" ++ t) (now / window_seconds))
                (text_eq→eq form.client_id client own)
              ∙ ap (bucket_of (codes "token:" ++ client)) h.0 in
            let (answered, counted, kept) =
              check_at redis counting limit bucket now (codes "token:" ++ form.client_id) s same in
            let limited =
              same_answer
              ∙ ap is_limited answered
              ∙ answer-is_limited crypto settings redis limit now _ in
            let stored = ap (redis.stored bucket) same_state ∙ counted in
            elim (Bool-cases (ltb limit (redis.stored bucket s + 1))) [
              | inl over ↦ rw (own, limited, over) (omega (arith, rest, stored))
              | inr within ↦
                  rw (own, limited, within) (omega (arith, rest, stored, ltb→le limit _ within))
            ]
        | inr other ↦
            let differ = append_cancel (codes "token:") form.client_id client ∙ other in
            let (answered, counted, kept) =
              check_at redis counting limit (bucket_of (codes "token:" ++ form.client_id) window)
                now (codes "token:" ++ form.client_id) s
                (ap (bucket_of (codes "token:" ++ form.client_id)) h.0) in
            let untouched =
              ap (redis.stored bucket) same_state
              ∙ kept bucket (
                  bucket_eq redis counting limit (codes "token:" ++ form.client_id)
                    (codes "token:" ++ client) window differ) in
            rw other (omega (arith, rest, untouched))
      ]
