-- ===== src/RateLimit.antt =====
-- ratelimit.py: the fixed-window limiter. Redis is not in the repository: its two commands are the
-- operations of a record, with the part of their documented behaviour that the limiter relies on.
pub mod Window
use rag_knowledge_platform_f.Prelude.{
  ℕ, ◌+◌, ◌-◌, ◌/◌, ◌%◌, max, Bool, Option, none, some, List, [], ◌∷◌, ◌++◌, ltb, ◌==◌,
  if◌then◌else◌,
}
use rag_knowledge_platform_f.Text.{Text, codes}
use rag_knowledge_platform_f.Text.Decimal.{decimal}
use rag_knowledge_platform_f.Errors.{Result, ok, err, rag, rate_limited}

-- Both commands answer with the state of the server after them; `none` is a `RedisError`.
pub record RedisClient (S : Type 0) : Type 0 where
  pub incr : Text → S → Option ℕ × S
  pub expire : Text → (seconds : ℕ) → S → Bool × S
  -- The number that is stored under a key, 0 if there is none.
  pub stored : Text → S → ℕ

abbrev pub window_seconds : ℕ
window_seconds = 60

-- The key of the bucket: `ratelimit:{key}:{window}`.
unfoldable pub bucket_of : Text → (window : ℕ) → Text
bucket_of key window = codes "ratelimit:" ++ (key ++ (codes ":" ++ decimal window))

module _ {S : Type 0} where
  -- `expire` is called on the first hit of a bucket; an error of either command is `none`.
  pub expire_first : RedisClient S → Text → Option ℕ × S → Option ℕ × S
  expire_first redis bucket (none, s) = (none, s)
  expire_first redis bucket (some count, s) =
      let (done, s') = redis.expire bucket (window_seconds + 5) s in
      if count == 1 then (if done then some count else none, s') else (some count, s)

  pub decide_hit : (limit now : ℕ) → Option ℕ × S → Result (Unit {0}) × S
  decide_hit limit now (none, s) = (ok tt, s)
  decide_hit limit now (some count, s) = (
    if ltb limit count
        then err (rag (rate_limited (max (window_seconds - now % window_seconds) 1)))
        else ok tt,
    s,
  )

  -- `RateLimiter.check` at the time `now`, in whole seconds.
  unfoldable pub check : RedisClient S → (limit now : ℕ) → Text → S → Result (Unit {0}) × S
  unfolding expire_first decide_hit
  check redis limit now key s =
      let bucket = bucket_of key (now / window_seconds) in
      decide_hit limit now (expire_first redis bucket (redis.incr bucket s))
