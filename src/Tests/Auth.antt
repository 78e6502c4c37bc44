-- ===== src/Tests/Auth.antt =====
-- Sessions on the small database, and codes and counters on an empty Redis.
use appforfixiyi.Common.{ℕ, ◌+◌, ◌≡◌, ◌≤◌, refl, none, some, List, [], ◌∷◌, ok, find?, arith, min}
use appforfixiyi.Store.{in_memory}
use appforfixiyi.Store.Entities.Auth.{reuse_detected}
use appforfixiyi.Auth.Sessions.{
  RequestContext, success, session_reuse_detected, session_revoked, by_id, rotated, revoke_for,
  rotate,
}
use appforfixiyi.Auth.Sessions.Rotation.{
  SessionStep, claim_step, touch_step, number_of_wins, number_of_wins-le,
}
use appforfixiyi.Auth.Sessions.Reuse.{rotate-reuse}
use appforfixiyi.Auth.Redis.{Contents, rate_limit_route, counter, stored, test_redis}
use appforfixiyi.Auth.RateLimit.Window.{number_allowed, number_allowed-window, number_allowed-stuck}
use appforfixiyi.Auth.Codes.{
  IssueCodeOptions, valid, invalid, no_code, cooling_down, verify_code, issue_code, store_code,
  issue_limited,
}
use appforfixiyi.Auth.RateLimit.{consume, answer}
use appforfixiyi.Auth.Codes.Attempts.{Attempt, after, verify_code-after, verify_code-uncounted}
use appforfixiyi.Auth.Codes.Issue.{issue_code-verify_code}
use appforfixiyi.Tests.{sample, session}

abbrev phone : RequestContext
phone = record { ip = some 1; user_agent = none }

abbrev steps : List SessionStep
steps =
    touch_step 20 50
    ∷ claim_step 50 4 21 phone
    ∷ claim_step 50 4 22 phone
    ∷ claim_step 50 5 23 phone
    ∷ []

number_of_wins-le_example : number_of_wins in_memory 50 4 steps sample ≤ 1
number_of_wins-le_example = number_of_wins-le in_memory 50 4 steps sample refl

rotate-reuse_example :
    let s₁ = (rotate in_memory 50 4 20 phone sample).1 in
    let s₂ = (rotate in_memory 50 4 21 phone s₁).1 in
    ((rotate in_memory 50 4 20 phone sample).0 ≡ ok (success (rotated 20 phone session)))
    × ((rotated 20 phone session).token_version ≡ 4 + 1)
    × ((rotate in_memory 50 4 21 phone s₁).0 ≡ ok session_reuse_detected)
    × (find? (by_id 50) s₂.sessions
        ≡ some (revoke_for 21 reuse_detected (rotated 20 phone session)))
    × (rotate in_memory 50 5 22 phone s₂ ≡ (ok session_revoked, s₂))
rotate-reuse_example =
    rotate-reuse in_memory 50 4 20 21 22 5 phone phone phone sample {x = session} (omega arith) refl
      refl refl refl refl

abbrev empty : Contents
empty k = none

number_allowed-window_example :
    number_allowed test_redis (rate_limit_route 1) 2 60 (100 ∷ 20110 ∷ 30120 ∷ 60099 ∷ []) empty
    ≡ min 2 4
number_allowed-window_example =
    number_allowed-window test_redis (rate_limit_route 1) 2 60 100 (20110 ∷ 30120 ∷ 60099 ∷ [])
      empty refl (omega arith, (omega arith, (omega arith, tt)))

abbrev stuck : Contents
stuck k = some (record { value = counter 3; expires_at = none })

number_allowed-stuck_example :
    number_allowed test_redis (rate_limit_route 1) 3 60 (100 ∷ 99999999 ∷ []) stuck ≡ 0
number_allowed-stuck_example =
    number_allowed-stuck test_redis (rate_limit_route 1) 3 60 2 (100 ∷ 99999999 ∷ []) stuck refl

abbrev toy_hash : (secret subject drawn : ℕ) → ℕ
toy_hash secret subject drawn = secret + subject + drawn

abbrev held : Contents
held k =
    some
      (record { value = stored (record { hash = 1009; attempts = 0 }); expires_at = some 300000 })

abbrev guesses : List Attempt
guesses = record { at = 10000; candidate = 1 } ∷ record { at = 20300; candidate = 2 } ∷ []

verify_code-after_example :
    let tried =
      verify_code test_redis toy_hash 2 30000 1 7 1000 3
        (after test_redis toy_hash 2 1 7 3 guesses held) in
    (tried.0 ≡ ok valid)
    × ((later other : ℕ)
        → (verify_code test_redis toy_hash 2 later 1 7 other 3 tried.1).0 ≡ ok (invalid no_code))
verify_code-after_example =
    verify_code-after test_redis toy_hash 2 1 7 3 1009 300000 guesses 30000 1000 held refl
      (omega arith) ((omega arith, refl), ((omega arith, refl), tt)) (omega arith) refl

abbrev options : IssueCodeOptions
options = record { ttl_seconds = 300; cooldown_seconds = 60; max_per_hour = 5 }

issue_code-verify_code_example :
    let issue = issue_code test_redis toy_hash 2 100000 1 7 1234 options empty in
    ((verify_code test_redis toy_hash 2 399000 1 7 1234 3 issue.1).0 ≡ ok valid)
    × (issue_code test_redis toy_hash 2 159300 1 7 4321 options issue.1
        ≡ (ok (cooling_down 1), issue.1))
unfolding issue_code consume answer issue_limited store_code
issue_code-verify_code_example =
    issue_code-verify_code test_redis toy_hash 2 1 7 100000 399000 159300 1234 4321 3 options empty
      refl (omega arith) (omega arith) (omega arith)

abbrev late_guesses : List Attempt
late_guesses =
    record { at = 299600; candidate = 1 }
    ∷ record { at = 299700; candidate = 2 }
    ∷ record { at = 299800; candidate = 3 }
    ∷ record { at = 299900; candidate = 4 }
    ∷ []

verify_code-uncounted_example :
    (after test_redis toy_hash 2 1 7 3 late_guesses held ≡ held)
    × ((verify_code test_redis toy_hash 2 299999 1 7 1000 3
          (after test_redis toy_hash 2 1 7 3 late_guesses held)).0
        ≡ ok valid)
verify_code-uncounted_example =
    verify_code-uncounted test_redis toy_hash 2 1 7 3 1009 0 300000 late_guesses 299999 1000 held
      refl (omega arith)
      (
        (omega arith, omega arith, refl),
        (
          (omega arith, omega arith, refl),
          ((omega arith, omega arith, refl), ((omega arith, omega arith, refl), tt)),
        ),
      )
      (omega arith) refl
