-- ===== src/Auth/Accounts/Renewal.antt =====
-- From a login to the refreshes of its session (apps/api/src/auth/auth.service.ts).
use Prim.Native.Nat.{◌/◌}
use appforfixiyi.Common.{
  ℕ, ◌+◌, ◌-◌, ◌*◌, ◌<◌, ◌≡◌, refl, true, Option, none, some, inl, inr, arith, ltb, Option-cases,
  find?, is_some, key_of_find, ok, err, domain, unauthorized_status, refresh_token_invalid,
}
use appforfixiyi.Store.Entities.Auth.{User, UserSession}
use appforfixiyi.Auth.Tokens.{RefreshTokenClaims}
use appforfixiyi.Auth.Sessions.{
  RequestContext, new_session, rotated, success, session_reuse_detected, rotate,
}
use appforfixiyi.Auth.Sessions.Reuse.{rotate-reuse}
use appforfixiyi.Auth.Accounts.{
  Platform, State, AuthTokensResult, AuthSessionResult, OtpVerifyInput, by_id, verify_phone_otp,
  sign_tokens, refresh,
}
use appforfixiyi.Auth.Accounts.Kept.{sign_token_lem, rotate-users}
use appforfixiyi.Auth.Accounts.Login.{LoggedIn, verify_phone_otp-LogsIn}

not_some : {o : Option User} → o ≡ none → is_some o ≡ true → ⊥
not_some n h = absurd (cc)

-- An instant before the second in which a token expires.
before_expiry :
    (at later ttl : ℕ)
    → later / 1000 < at / 1000 + ttl
    → ltb later ((at / 1000 + ttl) * 1000) ≡ true
before_expiry at later ttl h = ground arith

module _ {T : Type 0} (p : Platform T) where
  -- The answer of a refresh at an instant.
  abbrev renewed : (at : ℕ) → User → UserSession → AuthTokensResult T
  renewed at u x = record {
    access_token =
        p.access.sign (at / 1000) p.env.jwt_secret p.env.jwt_access_ttl
          (record { sub = u.id; sid = x.id; roles = u.roles });
    refresh_token =
        p.refresh.sign (at / 1000) p.env.jwt_refresh_secret p.env.jwt_refresh_ttl
          (record { sub = u.id; sid = x.id; rtv = x.token_version });
    expires_in = at / 1000 + p.env.jwt_access_ttl - at / 1000;
  }

module _ {R T : Type 0} (p : Platform T) (now : ℕ) where
  sign_tokens_lem :
      (at : ℕ) (u : User) (x : UserSession) (s : State R)
      → sign_tokens p at u x.id x.token_version s ≡ (ok (renewed p at u x), s)
  unfolding sign_tokens
  sign_tokens_lem at u x s =
      rw (sign_token_lem p at p.refresh _ _ _ _ s, sign_token_lem p at p.access _ _ _ _ s)

  refresh_success :
      (at : ℕ) (token : T) (context : RequestContext) (s : State R) {c : RefreshTokenClaims}
      {x : UserSession} {u : User}
      → p.refresh.verify (at / 1000) p.env.jwt_refresh_secret token ≡ some c
      → (rotate p.mongo c.sid c.rtv at context s.db).0 ≡ ok (success x)
      → find? (by_id c.sub) s.db.users ≡ some u
      → refresh p at token context s
        ≡ (ok (renewed p at u x), record s { db = (rotate p.mongo c.sid c.rtv at context s.db).1 })
  unfolding refresh sign_tokens
  refresh_success at token context s {c} {x} {u} v r f =
      rw (v, r, rotate-users p at c.sid c.rtv at context s.db, p.mongo.find_one_lem, f)
        (sign_tokens_lem at u x _)

  refresh_reuse :
      (at : ℕ) (token : T) (context : RequestContext) (s : State R) {c : RefreshTokenClaims}
      → p.refresh.verify (at / 1000) p.env.jwt_refresh_secret token ≡ some c
      → (rotate p.mongo c.sid c.rtv at context s.db).0 ≡ ok session_reuse_detected
      → (refresh p at token context s).0 ≡ err (domain unauthorized_status refresh_token_invalid)
  unfolding refresh
  refresh_reuse at token context s v r = rw (v, r)

  -- The refresh token of a login is honoured at one instant and refused at another, after it.
  abbrev pub IsHonouredOnce :
      (id : ℕ) → AuthSessionResult T → (later again : ℕ) → (c e : RequestContext) → State R → Type 0
  IsHonouredOnce id r later again c e s =
      let first = refresh p later r.tokens.refresh_token c s in
      ((t : AuthTokensResult T) × (first.0 ≡ ok t)
        × (t.refresh_token
            ≡ p.refresh.sign (later / 1000) p.env.jwt_refresh_secret p.env.jwt_refresh_ttl
                (record { sub = r.user.id; sid = id; rtv = 1 })))
      × ((refresh p again r.tokens.refresh_token e first.1).0
          ≡ err (domain unauthorized_status refresh_token_invalid))

  refreshed_twice :
      (id dev later again : ℕ) (context c e : RequestContext) (s : State R)
      {r : AuthSessionResult T}
      → LoggedIn p now id dev context r s
      → later / 1000 < now / 1000 + p.env.jwt_refresh_ttl
      → again / 1000 < now / 1000 + p.env.jwt_refresh_ttl
      → IsHonouredOnce id r later again c e s
  refreshed_twice id dev later again context c e s {r} l h k =
      let x =
        new_session id r.user.id dev now ((now / 1000 + p.env.jwt_refresh_ttl) * 1000) context in
      let (won, version, reused, gone, closed) =
        rotate-reuse p.mongo id 0 later again again 0 c e e s.db {x = x} l.session.1 l.session.0
          refl refl (before_expiry now later p.env.jwt_refresh_ttl h)
          (before_expiry now again p.env.jwt_refresh_ttl k) in
      elim (Option-cases (find? (by_id r.user.id) s.db.users)) [
        | inl n ↦ absurd (unknown n)
        | inr (u, f) ↦
            let first =
              refresh_success later r.tokens.refresh_token c s {c = claims} {u = u} (read later h)
                won f in
            let second =
              refresh_reuse again r.tokens.refresh_token e
                (record s { db = (rotate p.mongo id 0 later c s.db).1 }) {c = claims} (read again k)
                reused in
            let same : u.id ≡ r.user.id = key_of_find (λ y. y.id) r.user.id s.db.users {x = u} f in
            rw first ((renewed p later u (rotated later c x), refl, rw same), second)
      ]
    where
      claims : RefreshTokenClaims
      claims = record { sub = r.user.id; sid = id; rtv = 0 }

      unknown : find? (by_id r.user.id) s.db.users ≡ none → ⊥
      unknown n = absurd (not_some n l.user)

      read :
          (at : ℕ)
          → at / 1000 < now / 1000 + p.env.jwt_refresh_ttl
          → p.refresh.verify (at / 1000) p.env.jwt_refresh_secret r.tokens.refresh_token
            ≡ some claims
      read at m = rw l.token (
          p.refresh.verify_sign (now / 1000) (at / 1000) p.env.jwt_refresh_secret
            p.env.jwt_refresh_ttl claims m)

  -- A login that succeeds gives a refresh token of its session. Presented while it lives, the token is
  -- honoured, and answered with a token of the same user and session at version 1; presented once more while
  -- it lives, whatever the order of the two instants, it is refused.
  pub login-refresh :
      (fresh id fresh_device later again : ℕ) (i : OtpVerifyInput) (context c e : RequestContext)
      (s : State R) {r : AuthSessionResult T}
      → (verify_phone_otp p now fresh id fresh_device i context s).0 ≡ ok r
      → later / 1000 < now / 1000 + p.env.jwt_refresh_ttl
      → again / 1000 < now / 1000 + p.env.jwt_refresh_ttl
      → IsHonouredOnce id r later again c e
          (verify_phone_otp p now fresh id fresh_device i context s).1
  login-refresh fresh id fresh_device later again i context c e s {r} done h k =
      elim (verify_phone_otp-LogsIn p now fresh id fresh_device i context s) [
        | inl (x, failed) ↦ absurd (cc)
        | inr (dev, r', found, l) ↦
            let same : r ≡ r' = cc in
            rw same (refreshed_twice id dev later again context c e _ l h k)
      ]
