-- ===== src/Auth/Codes/Issue.antt =====
-- Issuing a code: `issueCode` of apps/api/src/auth/otp/otp.service.ts.
use appforfixiyi.Common.{
  ℕ, ◌+◌, ◌-◌, ◌*◌, ◌<◌, ◌≤◌, ◌≡◌, refl, Bool, true, false, some, arith, inl, inr, ◌==◌, ltb, ok,
  Result, Result-cases, Bool-cases,
}
use appforfixiyi.Auth.Redis.{
  Redis, Contents, rate_limit_issue, code, cooldown, stored, mark, written, same_key_refl,
  to_seconds,
}
use appforfixiyi.Auth.RateLimit.{consume}
use appforfixiyi.Auth.Codes.{
  IssueCodeOptions, IssueCodeResult, issued, cooling_down, valid, store_code, issue_limited,
  issue_code, verify_code,
}
use appforfixiyi.Auth.Codes.Attempts.{verify_right}

abbrev pub was_issued : Result IssueCodeResult → Bool
was_issued (ok (issued c r)) = true
was_issued _ = false

module _ (redis : Redis) (hash : (secret subject code : ℕ) → ℕ) (secret namespace subject : ℕ) where
  -- The contents after `store_code`.
  abbrev with_code : (now drawn : ℕ) → IssueCodeOptions → Contents → Contents
  with_code now drawn options s =
      written (cooldown namespace subject)
        (some (record { value = mark; expires_at = some (now + options.cooldown_seconds * 1000) }))
        (written (code namespace subject)
          (some (record {
            value = stored (record { hash = hash secret subject drawn; attempts = 0 });
            expires_at = some (now + options.ttl_seconds * 1000);
          }))
          s)

  store_code_lem :
      (now drawn : ℕ) (options : IssueCodeOptions) (s : Contents)
      → store_code redis hash secret now namespace subject drawn options s
        ≡ (ok (issued drawn options.cooldown_seconds), with_code now drawn options s)
  unfolding store_code
  store_code_lem now drawn options s = rw (redis.set_ex_lem, redis.set_ex_lem) refl

  issue_code-stored :
      (now drawn : ℕ) (options : IssueCodeOptions) (s : Contents)
      → was_issued (issue_code redis hash secret now namespace subject drawn options s).0 ≡ true
      → (t : Contents) × (issue_code redis hash secret now namespace subject drawn options s
          ≡ (ok (issued drawn options.cooldown_seconds), with_code now drawn options t))
  unfolding issue_code issue_limited
  issue_code-stored now drawn options s h =
      elim (Bool-cases (ltb 0 (redis.ttl now (cooldown namespace subject) s))) [
        | inl c ↦ absurd (no (rw c at h))
        | inr c ↦
            let limit =
              consume redis now (rate_limit_issue namespace subject) options.max_per_hour 3600 s in
            elim (Result-cases limit.0) [
              | inr (x, e) ↦ absurd (no (rw (c, e) at h))
              | inl (r, e) ↦ elim (Bool-cases r.allowed) [
                | inl a ↦ (limit.1, rw (c, e, a) (store_code_lem now drawn options limit.1))
                | inr a ↦ absurd (no (rw (c, e, a) at h))
              ]
            ]
      ]
    where
      no : false ≡ true → ⊥
      no e = cc

  code_held :
      (now drawn : ℕ) (options : IssueCodeOptions) (s : Contents)
      → with_code now drawn options s (code namespace subject)
        ≡ some (record {
          value = stored (record { hash = hash secret subject drawn; attempts = 0 });
          expires_at = some (now + options.ttl_seconds * 1000);
        })
  code_held now drawn options s = rw (same_key_refl (code namespace subject)) refl

  positive : (left : ℕ) → 500 ≤ left → ltb 0 (to_seconds left) ≡ true
  positive left h = elim (Bool-cases (ltb 0 (to_seconds left))) [
    | inl e ↦ e
    | inr e ↦ absurd (no left h (ground arith))
  ]
    where
      no : (left : ℕ) → 500 ≤ left → to_seconds left ≡ 0 → ⊥
      no left h e = omega (arith, h, e)

  still_cooling :
      (end late : ℕ)
      → late + 500 ≤ end
      → (ltb late end ≡ true) × (ltb 0 (to_seconds (end - late)) ≡ true)
  still_cooling end late h = (ground arith, positive (end - late) (omega arith))

  reissue :
      (now late drawn again : ℕ) (options : IssueCodeOptions) (s : Contents)
      → late + 500 ≤ now + options.cooldown_seconds * 1000
      → issue_code redis hash secret late namespace subject again options
          (with_code now drawn options s)
        ≡ (
          ok (cooling_down (to_seconds (now + options.cooldown_seconds * 1000 - late))),
          with_code now drawn options s,
        )
  unfolding issue_code
  reissue now late drawn again options s h =
      let (alive, left) = still_cooling (now + options.cooldown_seconds * 1000) late h in
      rw (redis.ttl_lem, same_key_refl (cooldown namespace subject), alive, left) refl

  -- A code that is issued is verified as valid, presented within its time (of ttlSeconds), where at
  -- least one attempt is allowed; and up to half a second before the cooldown is over, no other code is
  -- issued to the subject, asking for one changes nothing, and the answer is the time that is left,
  -- rounded to seconds.
  pub issue_code-verify_code :
      (now soon late drawn again max : ℕ) (options : IssueCodeOptions) (s : Contents)
      → let issue = issue_code redis hash secret now namespace subject drawn options s in
        was_issued issue.0 ≡ true
        → soon < now + options.ttl_seconds * 1000
        → late + 500 ≤ now + options.cooldown_seconds * 1000
        → 0 < max
        → ((verify_code redis hash secret soon namespace subject drawn max issue.1).0 ≡ ok valid)
          × (issue_code redis hash secret late namespace subject again options issue.1 ≡ (
            ok (cooling_down (to_seconds (now + options.cooldown_seconds * 1000 - late))),
            issue.1,
          ))
  issue_code-verify_code now soon late drawn again max options s h in_time cooling pos =
      let (t, e) = issue_code-stored now drawn options s h in
      rw e (
        rw
            (verify_right redis hash secret namespace subject max soon drawn
              (hash secret subject drawn) 0 (now + options.ttl_seconds * 1000)
              (with_code now drawn options t) (code_held now drawn options t) in_time pos
              (same (hash secret subject drawn)))
            refl,
        reissue now late drawn again options t cooling,
      )
    where
      same : (x : ℕ) → (x == x) ≡ true
      same x = ground arith
