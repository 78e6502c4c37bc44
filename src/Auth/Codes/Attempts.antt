-- ===== src/Auth/Codes/Attempts.antt =====
-- How often a code may be tried: `verifyCode` of apps/api/src/auth/otp/otp.service.ts.
use appforfixiyi.Common.{
  ℕ, suc, ◌+◌, ◌-◌, ◌*◌, ◌<◌, ◌≤◌, ◌≡◌, refl, true, false, Option, none, some, List, [], ◌∷◌, arith,
  inl, inr, ltb, leb, if◌then◌else◌, ok, length, All, Bool-cases,
}
use appforfixiyi.Auth.Redis.{
  Redis, Contents, code, Entry, stored, written, same_key_refl, to_seconds,
}
use appforfixiyi.Auth.Codes.{
  valid, invalid, no_code, verify_code_hash, count_attempt, verify_stored, verify_code,
}

-- A try of a code at an instant.
pub record Attempt : Type 0 where
  pub at : ℕ
  pub candidate : ℕ

below : (a max : ℕ) → a < max → leb max a ≡ false
below a max h = ground arith

in_time : (now t : ℕ) → now < t → ltb now t ≡ true
in_time now t h = ground arith

-- A second is left by TTL's rounding where half a second is left.
some_left : (m : ℕ) → 500 ≤ m → 0 < to_seconds m
some_left m h = omega arith

left_over : (now t : ℕ) → now + 500 ≤ t → ltb 0 (to_seconds (t - now)) ≡ true
left_over now t h = positive (to_seconds (t - now)) (some_left (t - now) (omega arith))
  where
    positive : (x : ℕ) → 0 < x → ltb 0 x ≡ true
    positive x p = ground arith

-- When the code ends after a wrong attempt: TTL's answer, counted from the attempt.
abbrev renewed : (now t : ℕ) → ℕ
renewed now t = now + to_seconds (t - now) * 1000

near : (now t : ℕ) → now + 500 ≤ t → t ≤ renewed now t + 500
near now t h = omega arith

module _ (redis : Redis) (hash : (secret subject code : ℕ) → ℕ)
    (secret namespace subject max : ℕ) where
  -- What the server holds after the attempts, one after another.
  pub after : List Attempt → Contents → Contents
  after [] s = s
  after (w ∷ ws) s =
      after ws (verify_code redis hash secret w.at namespace subject w.candidate max s).1

  abbrev kept : (h a t : ℕ) → Option Entry
  kept h a t =
      some (record { value = stored (record { hash = h; attempts = a }); expires_at = some t })

  abbrev pub IsWrong : (h : ℕ) → Attempt → Type 0
  IsWrong h w = verify_code_hash redis hash secret subject w.candidate h ≡ false

  -- A wrong code, for a code whose hash is `h`, at least `margin` before `t`.
  abbrev pub IsVain : (h t margin : ℕ) → Attempt → Type 0
  IsVain h t margin w = (w.at + margin ≤ t) × IsWrong h w

  -- A wrong code in the last half second before `t`.
  abbrev pub IsLast : (h t : ℕ) → Attempt → Type 0
  IsLast h t w = (w.at < t) × (t < w.at + 500) × IsWrong h w

  written_here :
      (e : Option Entry) (s : Contents)
      → written (code namespace subject) e s (code namespace subject) ≡ e
  written_here e s = rw (same_key_refl (code namespace subject)) refl

  verify_gone :
      (now candidate : ℕ) (s : Contents)
      → s (code namespace subject) ≡ none
      → verify_code redis hash secret now namespace subject candidate max s
        ≡ (ok (invalid no_code), s)
  unfolding verify_code verify_stored
  verify_gone now candidate s h = rw (redis.get_lem, h) refl

  pub verify_right :
      (now candidate h a t : ℕ) (s : Contents)
      → s (code namespace subject) ≡ kept h a t
      → now < t
      → a < max
      → verify_code_hash redis hash secret subject candidate h ≡ true
      → verify_code redis hash secret now namespace subject candidate max s
        ≡ (ok valid, written (code namespace subject) none s)
  unfolding verify_code verify_stored
  verify_right now candidate h a t s e lt am right =
      rw (redis.get_lem, e, in_time now t lt, below a max am, right, redis.del_lem) refl

  verify_wrong :
      (now candidate h a t : ℕ) (s : Contents)
      → s (code namespace subject) ≡ kept h a t
      → now + 500 ≤ t
      → a < max
      → verify_code_hash redis hash secret subject candidate h ≡ false
      → (verify_code redis hash secret now namespace subject candidate max s).1
          (code namespace subject)
        ≡ (if leb max (a + 1) then none else kept h (a + 1) (renewed now t))
  unfolding verify_code verify_stored count_attempt
  verify_wrong now candidate h a t s e lt am wrong = elim (Bool-cases (leb max (a + 1))) [
    | inl last ↦
        rw
          (
            redis.get_lem,
            e,
            in_time now t (omega arith),
            below a max am,
            wrong,
            last,
            redis.del_lem,
          )
          (written_here none s)
    | inr more ↦
        rw
          (
            redis.get_lem,
            e,
            in_time now t (omega arith),
            below a max am,
            wrong,
            more,
            redis.ttl_lem,
            e,
            in_time now t (omega arith),
            left_over now t lt,
            redis.set_ex_lem,
          )
          (written_here (kept h (a + 1) (renewed now t)) s)
  ]

  after_gone :
      (ws : List Attempt) (s : Contents)
      → s (code namespace subject) ≡ none
      → after ws s (code namespace subject) ≡ none
  unfolding after
  after_gone [] s h = h
  after_gone (w ∷ ws) s h = rw (verify_gone w.at w.candidate s h) (after_gone ws s h)

  -- What is there after some wrong attempts: the count of them, in a code that ends at most half a
  -- second earlier for each.
  Counted : (h a t n : ℕ) → Option Entry → Type 0
  Counted h a t n e =
      (u : ℕ) × (t ≤ u + 500 * n) × (e ≡ (if ltb (a + n) max then kept h (a + n) u else none))

  after_wrong :
      (h a t : ℕ) (ws : List Attempt) (s : Contents)
      → s (code namespace subject) ≡ kept h a t
      → a < max
      → All (IsVain h t (500 * length ws)) ws
      → Counted h a t (length ws) (after ws s (code namespace subject))
  unfolding after Counted
  after_wrong h a t [] s e am b = (t, omega arith, rw (sum_zero a, ltb_true a max am) e)
    where
      sum_zero : (a : ℕ) → a + 0 ≡ a
      sum_zero a = omega arith

      ltb_true : (a max : ℕ) → a < max → ltb a max ≡ true
      ltb_true a max h = ground arith
  after_wrong h a t (w ∷ ws) s e am b =
      let s₁ : Contents =
        (verify_code redis hash secret w.at namespace subject w.candidate max s).1 in
      let early = half w.at (length ws) b.0.0 in
      let next = verify_wrong w.at w.candidate h a t s e early am b.0.1 in
      elim (Bool-cases (leb max (a + 1))) [
        | inl last ↦
            (t, omega arith, rw (over a (length ws) last) (after_gone ws s₁ (rw last at next)))
        | inr more ↦
            let (u, later, held) =
              after_wrong h (a + 1) (renewed w.at t) ws s₁ (rw more at next) (room a more)
                (renew (length ws) (renewed w.at t) (near w.at t early) ws b.1) in
            (u, sum (length ws) u (near w.at t early) later, rw (shift a (length ws)) held)
      ]
    where
      half : (at n : ℕ) → at + 500 * suc n ≤ t → at + 500 ≤ t
      half at n l = omega arith

      over : (a n : ℕ) → leb max (a + 1) ≡ true → ltb (a + suc n) max ≡ false
      over a n l = ground arith

      shift : (a n : ℕ) → a + suc n ≡ a + 1 + n
      shift a n = omega arith

      room : (a : ℕ) → leb max (a + 1) ≡ false → a + 1 < max
      room a m = ground arith

      sum : (n u : ℕ) {t₁ : ℕ} → t ≤ t₁ + 500 → t₁ ≤ u + 500 * n → t ≤ u + 500 * suc n
      sum n u l m = omega arith

      renew :
          (n t₁ : ℕ)
          → t ≤ t₁ + 500
          → (ws : List Attempt) → All (IsVain h t (500 * suc n)) ws
          → All (IsVain h t₁ (500 * n)) ws
      renew n t₁ l [] b = tt
      renew n t₁ l (w ∷ ws) b = ((earlier w.at n t₁ l b.0.0, b.0.1), renew n t₁ l ws b.1)
        where
          earlier : (at n t₁ : ℕ) → t ≤ t₁ + 500 → at + 500 * suc n ≤ t → at + 500 * n ≤ t₁
          earlier at n t₁ l m = omega arith

  -- A code that was issued, with no attempt on record, is tried in vain any number of times, and then
  -- with the right code. Each attempt may move the end of the code by half a second (TTL rounds to
  -- seconds), so all of them are made half a second before the end that was set for each of the vain
  -- attempts. The right code is valid if the attempts in vain were fewer than the maximum; otherwise
  -- there is no code any more. Either way, no code is there afterwards, at any instant: it counts
  -- once.
  pub verify_code-after :
      (h t : ℕ) (ws : List Attempt) (now candidate : ℕ) (s : Contents)
      → s (code namespace subject) ≡ kept h 0 t
      → 0 < max
      → All (IsVain h t (500 * length ws)) ws
      → now + 500 * length ws < t
      → verify_code_hash redis hash secret subject candidate h ≡ true
      → let tried =
          verify_code redis hash secret now namespace subject candidate max (after ws s) in
        (tried.0 ≡ ok (if ltb (length ws) max then valid else invalid no_code))
        × ((later other : ℕ)
            → (verify_code redis hash secret later namespace subject other max tried.1).0
              ≡ ok (invalid no_code))
  unfolding Counted
  verify_code-after h t ws now candidate s e pos b lt right =
      let (u, near, held) = after_wrong h 0 t ws s e pos b in
      elim (Bool-cases (ltb (length ws) max)) [
        | inl few ↦
            let found = rw (zero_plus (length ws), few) at held in
            rw
              (
                verify_right now candidate h (length ws) u (after ws s) found
                    (in_end (length ws) u near lt) (fewer few) right,
                few,
              )
              (
                refl,
                λ later other. rw (verify_gone later other _ (written_here none (after ws s))) refl,
              )
        | inr many ↦
            let gone = rw (zero_plus (length ws), many) at held in
            rw (verify_gone now candidate (after ws s) gone, many)
              (refl, λ later other. rw (verify_gone later other (after ws s) gone) refl)
      ]
    where
      fewer : ltb (length ws) max ≡ true → length ws < max
      fewer f = ground arith

      zero_plus : (n : ℕ) → 0 + n ≡ n
      zero_plus n = omega arith

      in_end : (n u : ℕ) → t ≤ u + 500 * n → now + 500 * n < t → now < u
      in_end n u l m = omega arith

  none_left : (now t : ℕ) → now < t → t < now + 500 → ltb 0 (to_seconds (t - now)) ≡ false
  none_left now t l m = rw (nothing (t - now) (omega arith)) refl
    where
      nothing : (x : ℕ) → x < 500 → to_seconds x ≡ 0
      nothing x h = omega arith

  verify_last :
      (now candidate h a t : ℕ) (s : Contents)
      → s (code namespace subject) ≡ kept h a t
      → now < t
      → t < now + 500
      → a + 1 < max
      → verify_code_hash redis hash secret subject candidate h ≡ false
      → (verify_code redis hash secret now namespace subject candidate max s).1 ≡ s
  unfolding verify_code verify_stored count_attempt
  verify_last now candidate h a t s e lt last am wrong =
      rw
        (
          redis.get_lem,
          e,
          in_time now t lt,
          below a max (omega arith),
          wrong,
          below (a + 1) max am,
          redis.ttl_lem,
          e,
          in_time now t lt,
          none_left now t lt last,
        )
        refl

  after_last :
      (h a t : ℕ) (ws : List Attempt) (s : Contents)
      → s (code namespace subject) ≡ kept h a t
      → a + 1 < max
      → All (IsLast h t) ws
      → after ws s ≡ s
  unfolding after
  after_last h a t [] s e am b = refl
  after_last h a t (w ∷ ws) s e am b =
      rw (verify_last w.at w.candidate h a t s e b.0.0 b.0.1 am b.0.2)
        (after_last h a t ws s e am b.1)

  -- In the last half second of a code, wrong attempts are not counted: where one more may be made,
  -- any number of them changes nothing, and the right code is still valid after them.
  pub verify_code-uncounted :
      (h a t : ℕ) (ws : List Attempt) (now candidate : ℕ) (s : Contents)
      → s (code namespace subject) ≡ kept h a t
      → a + 1 < max
      → All (IsLast h t) ws
      → now < t
      → verify_code_hash redis hash secret subject candidate h ≡ true
      → (after ws s ≡ s)
        × ((verify_code redis hash secret now namespace subject candidate max (after ws s)).0
            ≡ ok valid)
  verify_code-uncounted h a t ws now candidate s e am b lt right =
      let same = after_last h a t ws s e am b in
      (same, rw (same, verify_right now candidate h a t s e lt (omega arith) right) refl)
