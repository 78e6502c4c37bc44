-- ===== src/Auth/Codes.antt =====
-- apps/api/src/auth/otp/otp.service.ts and auth/verification-code.ts: codes that are issued, live
-- for a short time and are verified once. The HMAC of Node's crypto module is the parameter `hash`; a
-- code that `randomInt` draws is an argument.
pub mod Attempts
pub mod Issue
use appforfixiyi.Common.{
  ℕ, ◌+◌, Bool, true, false, not, Option, none, some, ◌==◌, ltb, leb, if◌then◌else◌, ok, Exec, pure,
  gets, modify, ◌>>=◌, ◌>>◌,
}
use appforfixiyi.Auth.Redis.{
  Redis, Contents, Key, rate_limit_issue, code, cooldown, Value, counter, stored, mark, StoredCode,
}
use appforfixiyi.Auth.RateLimit.{RateLimitResult, consume}

pub record IssueCodeOptions : Type 0 where
  pub ttl_seconds : ℕ
  pub cooldown_seconds : ℕ
  pub max_per_hour : ℕ

pub data IssueCodeResult : Type 0 where
  issued : (code retry_after_seconds : ℕ) → IssueCodeResult
  cooling_down rate_limited : (retry_after_seconds : ℕ) → IssueCodeResult

pub data InvalidReason : Type 0 where
  no_code mismatch max_attempts : InvalidReason

pub data VerifyCodeResult : Type 0 where
  valid : VerifyCodeResult
  invalid : InvalidReason → VerifyCodeResult

-- `JSON.parse(raw)`, where something is stored under a code's key.
abbrev pub parsed : Option Value → Option StoredCode
parsed (some (stored c)) = some c
parsed _ = none

module _ (redis : Redis) (hash : (secret subject code : ℕ) → ℕ) (secret : ℕ) where
  -- Equal lengths and `timingSafeEqual`.
  abbrev pub verify_code_hash : (subject candidate stored_hash : ℕ) → Bool
  verify_code_hash subject candidate stored_hash = hash secret subject candidate == stored_hash

  unfoldable pub store_code :
      (now namespace subject drawn : ℕ) → IssueCodeOptions → Exec Contents IssueCodeResult
  store_code now namespace subject drawn options = do
    modify (
        redis.set_ex now (code namespace subject)
          (stored (record { hash = hash secret subject drawn; attempts = 0 })) options.ttl_seconds)
    modify (redis.set_ex now (cooldown namespace subject) mark options.cooldown_seconds)
    pure (issued drawn options.cooldown_seconds)

  unfoldable pub issue_limited :
      (now namespace subject drawn : ℕ)
      → IssueCodeOptions
      → RateLimitResult
      → Exec Contents IssueCodeResult
  issue_limited now namespace subject drawn options limit =
      if not limit.allowed
      then pure (rate_limited limit.retry_after_seconds)
      else store_code now namespace subject drawn options

  unfoldable pub issue_code :
      (now namespace subject drawn : ℕ) → IssueCodeOptions → Exec Contents IssueCodeResult
  issue_code now namespace subject drawn options = do
    cooldown_ttl ← gets (redis.ttl now (cooldown namespace subject))
    if ltb 0 cooldown_ttl then pure (cooling_down cooldown_ttl) else do
      limit ← consume redis now (rate_limit_issue namespace subject) options.max_per_hour 3600
      issue_limited now namespace subject drawn options limit

  -- After a wrong code: one more attempt is on record, for what is left of the code's time.
  unfoldable pub count_attempt :
      (now namespace subject : ℕ) → StoredCode → (max : ℕ) → Exec Contents VerifyCodeResult
  count_attempt now namespace subject c max =
      if leb max (c.attempts + 1)
      then (do modify (redis.del (code namespace subject)); pure (invalid max_attempts))
      else (do
        ttl ← gets (redis.ttl now (code namespace subject))
        if ltb 0 ttl
            then modify (
                redis.set_ex now (code namespace subject)
                  (stored (record c { attempts = c.attempts + 1 })) ttl)
            else pure tt
        pure (invalid mismatch))

  unfoldable pub verify_stored :
      (now namespace subject candidate max : ℕ) → Option StoredCode → Exec Contents VerifyCodeResult
  verify_stored now namespace subject candidate max none = pure (invalid no_code)
  verify_stored now namespace subject candidate max (some c) =
      if leb max c.attempts
      then (do modify (redis.del (code namespace subject)); pure (invalid max_attempts))
      else if verify_code_hash subject candidate c.hash
      then (do modify (redis.del (code namespace subject)); pure valid)
      else count_attempt now namespace subject c max

  unfoldable pub verify_code :
      (now namespace subject candidate max : ℕ) → Exec Contents VerifyCodeResult
  unfolding verify_stored
  verify_code now namespace subject candidate max = do
    raw ← gets (redis.get now (code namespace subject))
    verify_stored now namespace subject candidate max (parsed raw)
