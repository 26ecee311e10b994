-- ===== src/RateLimit/Window.antt =====
-- The requests of one window, under any interleaving of keys.
use rag_knowledge_platform_f.Prelude.{
  ℕ, ◌+◌, ◌-◌, ◌/◌, ◌%◌, max, true, false, Option, none, some, List, [], ◌∷◌, ◌++◌, ◌≡◌, refl, ap,
  ◌∙◌, inl, inr, All, ltb, ◌==◌, if◌then◌else◌, arith, subst, append_cancel_right, Bool-cases,
}
use rag_knowledge_platform_f.Text.{Text, codes, text_eq, text_eq→eq, text_eq_refl}
use rag_knowledge_platform_f.Text.Decimal.{decimal}
use rag_knowledge_platform_f.Errors.{Result, ok, err, rag, rate_limited}
use rag_knowledge_platform_f.RateLimit.{
  RedisClient, window_seconds, bucket_of, expire_first, decide_hit, check,
}

-- What is documented of INCR and EXPIRE, while the server answers: INCR stores and returns one more
-- than what was stored, and touches no other key; EXPIRE changes no value within the window.
pub record IsCounting {S : Type 0} (redis : RedisClient S) : Type 0 where
  pub incr_returns : (b : Text) (s : S) → (redis.incr b s).0 ≡ some (redis.stored b s + 1)
  pub incr_stores : (b : Text) (s : S) → redis.stored b (redis.incr b s).1 ≡ redis.stored b s + 1
  pub incr_others :
      (b c : Text) (s : S)
      → text_eq b c ≡ false
      → redis.stored c (redis.incr b s).1 ≡ redis.stored c s
  pub expire_answers : (b : Text) (n : ℕ) (s : S) → (redis.expire b n s).0 ≡ true
  pub expire_keeps :
      (b c : Text) (n : ℕ) (s : S) → redis.stored c (redis.expire b n s).1 ≡ redis.stored c s

pub append_cancel : (p t u : Text) → text_eq (p ++ t) (p ++ u) ≡ text_eq t u
unfolding text_eq
append_cancel [] t u = refl
append_cancel (c ∷ p) t u = ground (arith, append_cancel p t u)

module _ (limit : ℕ) where
  -- The answer to the hit that makes the count of its bucket `count`.
  abbrev pub answer : (now count : ℕ) → Result (Unit {0})
  answer now count =
      if ltb limit count
      then err (rag (rate_limited (window_seconds - now % window_seconds)))
      else ok tt

  -- What the requests with one key are owed, from the count of their bucket on.
  pub allowed : Text → List (Text × ℕ) → ℕ → List (Result (Unit {0}))
  allowed key [] count = []
  allowed key ((k, now) ∷ requests) count =
      let own = text_eq k key in
      let rest = allowed key requests (if own then count + 1 else count) in
      if own then answer now (count + 1) ∷ rest else rest

-- The requests of a time, by the key and the second of each, and the answers to those with one key.
pub outcomes :
    {S : Type 0} → RedisClient S → ℕ → Text → List (Text × ℕ) → S → List (Result (Unit {0}))
outcomes redis limit key [] s = []
outcomes redis limit key ((k, now) ∷ requests) s =
    let (r, s') = check redis limit now k s in
    let rest = outcomes redis limit key requests s' in if text_eq k key then r ∷ rest else rest

module _ {S : Type 0} (redis : RedisClient S) (counting : IsCounting redis) (limit : ℕ) where
  retry_after :
      (now : ℕ)
      → max (window_seconds - now % window_seconds) 1 ≡ window_seconds - now % window_seconds
  retry_after now = omega arith

  expire_first_lem :
      (b : Text) (r : Option ℕ × S) (count : ℕ)
      → r.0 ≡ some count
      → ((expire_first redis b r).0 ≡ some count)
        × ((c : Text) → redis.stored c (expire_first redis b r).1 ≡ redis.stored c r.1)
  unfolding expire_first
  expire_first_lem b (none, s) count h = cc
  expire_first_lem b (some n, s) count h = elim (Bool-cases (n == 1)) [
    | inl one ↦ rw one (
      rw (counting.expire_answers b (window_seconds + 5) s) h,
      λ c. counting.expire_keeps b c (window_seconds + 5) s,
    )
    | inr more ↦ rw more (h, λ c. refl)
  ]

  decide_hit_lem :
      (now : ℕ) (r : Option ℕ × S) (count : ℕ)
      → r.0 ≡ some count
      → ((decide_hit limit now r).0 ≡ answer limit now count) × ((decide_hit limit now r).1 ≡ r.1)
  unfolding decide_hit
  decide_hit_lem now (none, s) count h = cc
  decide_hit_lem now (some n, s) count h =
      let same : n ≡ count = cc in rw (same, retry_after now) (refl, refl)

  -- One check counts one hit on its bucket, and on no other.
  pub check_lem :
      (now : ℕ) (key : Text) (s : S)
      → let bucket = bucket_of key (now / window_seconds) in
        let (r, s') = check redis limit now key s in
        (r ≡ answer limit now (redis.stored bucket s + 1))
        × (redis.stored bucket s' ≡ redis.stored bucket s + 1)
        × ((c : Text) → text_eq bucket c ≡ false → redis.stored c s' ≡ redis.stored c s)
  unfolding check
  check_lem now key s =
      let b = bucket_of key (now / window_seconds) in
      let (count, kept) =
        expire_first_lem b (redis.incr b s) (redis.stored b s + 1) (counting.incr_returns b s) in
      let (answered, same) = decide_hit_lem now (expire_first redis b (redis.incr b s)) _ count in
      (
        answered,
        ap (redis.stored b) same ∙ kept b ∙ counting.incr_stores b s,
        λ c ne. ap (redis.stored c) same ∙ kept c ∙ counting.incr_others b c s ne,
      )

  pub check_at :
      (b : Text) (now : ℕ) (key : Text) (s : S)
      → bucket_of key (now / window_seconds) ≡ b
      → let (r, s') = check redis limit now key s in
        (r ≡ answer limit now (redis.stored b s + 1))
        × (redis.stored b s' ≡ redis.stored b s + 1)
        × ((c : Text) → text_eq b c ≡ false → redis.stored c s' ≡ redis.stored c s)
  check_at b now key s e =
      subst
        (λ (b : Text).
          ((check redis limit now key s).0 ≡ answer limit now (redis.stored b s + 1))
          × (redis.stored b (check redis limit now key s).1 ≡ redis.stored b s + 1)
          × ((c : Text)
              → text_eq b c ≡ false
              → redis.stored c (check redis limit now key s).1 ≡ redis.stored c s))
        e (check_lem now key s)

  pub bucket_eq :
      (j k : Text) (window : ℕ)
      → text_eq j k ≡ false
      → text_eq (bucket_of j window) (bucket_of k window) ≡ false
  unfolding bucket_of
  bucket_eq j k window h =
      let tail = codes ":" ++ decimal window in
      elim (Bool-cases (text_eq (j ++ tail) (k ++ tail))) [
        | inl same ↦
            let e : j ≡ k = append_cancel_right j k tail (text_eq→eq _ _ same) in
            cc (ap (text_eq j) e, text_eq_refl j)
        | inr differ ↦ append_cancel (codes "ratelimit:") (j ++ tail) (k ++ tail) ∙ differ
      ]

  -- Whatever the keys of the other requests of a window, and however they fall between them, the
  -- requests with one key pass while their bucket counts at most the limit; every later one is
  -- refused, with the seconds that are left of the window in `Retry-After`, if Redis answers and
  -- counts.
  pub check_window :
      (key : Text) (window : ℕ) (requests : List (Text × ℕ)) (s : S)
      → All (λ r. r.1 / window_seconds ≡ window) requests
      → outcomes redis limit key requests s
        ≡ allowed limit key requests (redis.stored (bucket_of key window) s)
  unfolding outcomes allowed
  check_window key window [] s h = refl
  check_window key window ((k, now) ∷ requests) s h = elim (Bool-cases (text_eq k key)) [
    | inl own ↦
        let same : bucket_of k (now / window_seconds) ≡ bucket_of key window =
          ap (λ t. bucket_of t (now / window_seconds)) (text_eq→eq k key own)
          ∙ ap (bucket_of key) h.0 in
        let (answered, counted, kept) = check_at (bucket_of key window) now k s same in
        rw
          (
            own,
            answered,
            check_window key window requests (check redis limit now k s).1 h.1,
            counted,
          )
          refl
    | inr other ↦
        let named = ap (bucket_of k) h.0 in
        let (answered, counted, kept) = check_at (bucket_of k window) now k s named in
        let untouched = kept (bucket_of key window) (bucket_eq k key window other) in
        rw other (
          check_window key window requests (check redis limit now k s).1 h.1
          ∙ ap (allowed limit key requests) untouched)
  ]
