-- ===== src/Auth/RateLimit.antt =====
-- apps/api/src/auth/rate-limit/rate-limit.service.ts: a counter for a fixed window.
pub mod Window
use appforfixiyi.Common.{
  ℕ, ◌-◌, Bool, true, false, ◌==◌, ltb, if◌then◌else◌, ok, Exec, pure, gets, modify, ◌>>=◌, ◌>>◌,
}
use appforfixiyi.Auth.Redis.{Redis, Contents, Key}

pub record RateLimitResult : Type 0 where
  pub allowed : Bool
  pub remaining : ℕ
  pub retry_after_seconds : ℕ

module _ (redis : Redis) where
  -- INCR answers the new count.
  abbrev pub run_incr : (now : ℕ) → Key → Exec Contents ℕ
  run_incr now k s = (ok (redis.incr now k s).0, (redis.incr now k s).1)

  -- The answer of `consume` for a count.
  unfoldable pub answer :
      (now : ℕ) → Key → (limit window_seconds count : ℕ) → Exec Contents RateLimitResult
  answer now k limit window_seconds count =
      if ltb limit count
      then (do
        ttl ← gets (redis.ttl now k)
        pure (record {
          allowed = false;
          remaining = 0;
          retry_after_seconds = if ltb 0 ttl then ttl else window_seconds;
        }))
      else pure (record { allowed = true; remaining = limit - count; retry_after_seconds = 0 })

  unfoldable pub consume :
      (now : ℕ) → Key → (limit window_seconds : ℕ) → Exec Contents RateLimitResult
  consume now k limit window_seconds = do
    count ← run_incr now k
    if count == 1 then modify (redis.expire now k window_seconds) else pure tt
    answer now k limit window_seconds count
