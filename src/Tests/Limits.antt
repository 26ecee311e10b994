-- ===== src/Tests/Limits.antt =====
-- The rate limiter, with a server that keeps its counts in a function.
use rag_knowledge_platform_f.Prelude.{
  ℕ, ◌+◌, true, false, some, List, [], ◌∷◌, ◌≡◌, refl, if◌then◌else◌,
}
use rag_knowledge_platform_f.Text.{Text, codes, text_eq, text_eq_refl}
use rag_knowledge_platform_f.RateLimit.{RedisClient}
use rag_knowledge_platform_f.RateLimit.Window.{IsCounting, outcomes, allowed, check_window}

abbrev pub Counts : Type 0
Counts = Text → ℕ

abbrev count_up : Text → Counts → Counts
count_up b s c = if text_eq b c then s c + 1 else s c

abbrev pub redis : RedisClient Counts
redis = record {
  incr = λ b s. (some (s b + 1), count_up b s);
  expire = λ b n s. (true, s);
  stored = λ b s. s b;
}

count_up_self : (b : Text) (s : Counts) → count_up b s b ≡ s b + 1
count_up_self b s = rw (text_eq_refl b) refl

count_up_ne : (b c : Text) (s : Counts) → text_eq b c ≡ false → count_up b s c ≡ s c
count_up_ne b c s h = rw h refl

pub redis-IsCounting : IsCounting redis
redis-IsCounting = record {
  incr_returns = λ b s. refl;
  incr_stores = count_up_self;
  incr_others = λ b c s h. count_up_ne b c s h;
  expire_answers = λ b n s. refl;
  expire_keeps = λ b c n s. refl;
}

abbrev requests : List (Text × ℕ)
requests =
    (codes "tenant:1", 120)
    ∷ (codes "tenant:2", 121)
    ∷ (codes "tenant:1", 122)
    ∷ (codes "tenant:1", 179)
    ∷ []

-- The third request of tenant 1 in a minute, with a limit of 2.
check_window_example :
    outcomes redis 2 (codes "tenant:1") requests (λ b. 0) ≡ allowed 2 (codes "tenant:1") requests 0
check_window_example =
    check_window redis redis-IsCounting 2 (codes "tenant:1") 2 requests (λ b. 0)
      (refl, (refl, (refl, (refl, tt))))
