-- ===== src/Auth/RateLimit/Window.antt =====
-- How many calls a window admits: `consume` of apps/api/src/auth/rate-limit/rate-limit.service.ts.
use appforfixiyi.Common.{
  ℕ, suc, ◌+◌, ◌-◌, ◌*◌, ◌<◌, ◌≡◌, refl, Bool, false, Option, none, some, List, [], ◌∷◌, arith, inl,
  inr, ◌==◌, ltb, if◌then◌else◌, ok, err, Result, min, length, All, not, Bool-cases,
}
use appforfixiyi.Auth.Redis.{Redis, Contents, Key, Entry, counter, visible, written, same_key_refl}
use appforfixiyi.Auth.RateLimit.{RateLimitResult, answer, consume}

abbrev pub is_allowed : Result RateLimitResult → Bool
is_allowed (ok r) = r.allowed
is_allowed (err e) = false

abbrev tally : ℕ → Option ℕ → Option Entry
tally c t = some (record { value = counter c; expires_at = t })

module _ (redis : Redis) (k : Key) (limit window : ℕ) where
  -- How many of the calls at these instants, one after another, are allowed.
  pub number_allowed : List ℕ → Contents → ℕ
  number_allowed [] s = 0
  number_allowed (now ∷ later) s =
      (if is_allowed (consume redis now k limit window s).0 then 1 else 0)
      + number_allowed later (consume redis now k limit window s).1

  answer_lem :
      (now count : ℕ) (s : Contents)
      → (is_allowed (answer redis now k limit window count s).0 ≡ not (ltb limit count))
        × ((answer redis now k limit window count s).1 ≡ s)
  unfolding answer
  answer_lem now count s = elim (Bool-cases (ltb limit count)) [
    | inl e ↦ rw e (refl, refl)
    | inr e ↦ rw e (refl, refl)
  ]

  written_here : (e : Option Entry) (s : Contents) → written k e s k ≡ e
  written_here e s = rw (same_key_refl k) refl

  consume_counted :
      (now c : ℕ) (t : Option ℕ) (s : Contents)
      → visible now (s k) ≡ tally (suc c) t
      → (is_allowed (consume redis now k limit window s).0 ≡ not (ltb limit (suc (suc c))))
        × ((consume redis now k limit window s).1 k ≡ tally (suc (suc c)) t)
  unfolding consume
  consume_counted now c t s h =
      let (allowed, same) = answer_lem now (suc (suc c)) (written k (tally (suc (suc c)) t) s) in
      rw (redis.incr_lem, h, not_one c) (allowed, rw same (written_here _ s))
    where
      not_one : (c : ℕ) → (suc (suc c) == 1) ≡ false
      not_one c = ground arith

  consume_first :
      (now : ℕ) (s : Contents)
      → visible now (s k) ≡ none
      → (is_allowed (consume redis now k limit window s).0 ≡ not (ltb limit 1))
        × ((consume redis now k limit window s).1 k ≡ tally 1 (some (now + window * 1000)))
  unfolding consume
  consume_first now s h =
      let s₁ : Contents = written k (tally 1 none) s in
      let s₂ : Contents = written k (tally 1 (some (now + window * 1000))) s₁ in
      let (allowed, same) = answer_lem now 1 s₂ in
      rw (redis.incr_lem, h, redis.expire_lem, written_here (tally 1 none) s)
        (allowed, rw same (written_here _ s₁))

  -- The instants that a counter with this expiry lives through.
  IsBefore : Option ℕ → ℕ → Type 0
  IsBefore none now = Unit
  IsBefore (some t) now = now < t

  counted :
      (c : ℕ) (t : Option ℕ) (times : List ℕ) (s : Contents)
      → s k ≡ tally (suc c) t
      → All (IsBefore t) times
      → number_allowed times s ≡ min (limit - suc c) (length times)
  unfolding number_allowed IsBefore
  counted c t [] s h b = omega arith
  counted c t (now ∷ later) s h b =
      let (allowed, next) = consume_counted now c t s (rw h (alive t b.0)) in
      let rest = counted (suc c) t later (consume redis now k limit window s).1 next b.1 in
      rw (allowed, rest) (one_more (length later))
    where
      alive : (t : Option ℕ) → IsBefore t now → visible now (tally (suc c) t) ≡ tally (suc c) t
      alive none b = refl
      alive (some t) b = ground arith

      one_more :
          (n : ℕ)
          → (if not (ltb limit (suc (suc c))) then 1 else 0) + min (limit - suc (suc c)) n
            ≡ min (limit - suc c) (suc n)
      one_more n = ground arith

  -- Of the calls in one window (the first at an instant at which the key holds no live counter,
  -- the others before the window that it opens is over), exactly as many are allowed as the limit
  -- says, or all of them if there are fewer.
  pub number_allowed-window :
      (first : ℕ) (later : List ℕ) (s : Contents)
      → visible first (s k) ≡ none
      → All (λ now. now < first + window * 1000) later
      → number_allowed (first ∷ later) s ≡ min limit (suc (length later))
  unfolding number_allowed IsBefore
  number_allowed-window first later s h b =
      let (allowed, next) = consume_first first s h in
      rw
        (
          allowed,
          counted 0 (some (first + window * 1000)) later (consume redis first k limit window s).1
              next b,
        )
        (one_more (length later))
    where
      one_more :
          (n : ℕ) → (if not (ltb limit 1) then 1 else 0) + min (limit - 1) n ≡ min limit (suc n)
      one_more n = ground arith

  -- A counter that is left without an expiry (INCR was run and EXPIRE was not) is never reset: however
  -- many calls follow, and however late, no more are allowed than the limit has left over.
  pub number_allowed-stuck :
      (c : ℕ) (times : List ℕ) (s : Contents)
      → s k ≡ some (record { value = counter (suc c); expires_at = none })
      → number_allowed times s ≡ min (limit - suc c) (length times)
  unfolding IsBefore
  number_allowed-stuck c times s h = counted c none times s h (always times)
    where
      always : (times : List ℕ) → All (IsBefore none) times
      always [] = tt
      always (t ∷ ts) = (tt, always ts)
