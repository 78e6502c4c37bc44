-- ===== src/Auth/Accounts/Kept.antt =====
-- Codes, tokens and sessions leave the users as they are (apps/api/src/auth/auth.service.ts).
use appforfixiyi.Common.{
  ℕ, ◌+◌, ◌≡◌, refl, ◌∙◌, ◌⊎◌, Option, none, some, List, inl, inr, Exec, Bool-cases, Option-cases,
  Result-cases, Keeps, view_bind, ok, get_or, err, domain, unauthorized_status,
  refresh_token_invalid, gets, require_some, ◌*◌, ◌>>=◌, leb,
}
use Prim.Native.Nat.{◌/◌}
use appforfixiyi.Store.Entities.Auth.{User, UserSession}
use appforfixiyi.Store.Database.{Db}
use appforfixiyi.Auth.Redis.{Contents}
use appforfixiyi.Auth.Codes.{
  IssueCodeOptions, IssueCodeResult, issued, cooling_down, rate_limited, issue_code,
}
use appforfixiyi.Auth.Tokens.{Jwt, sign_token, decode_expiry}
use appforfixiyi.Auth.Sessions.{
  RequestContext, DeviceInput, RotateResult, success, session_not_found, session_revoked,
  session_expired, session_reuse_detected, is_active, can_rotate, same_id, same_device_id,
  new_session, claim, explain_found, explain_failed_rotation, rotate_claimed, rotate, revoke,
  create_device, upsert_found, find_own_device, upsert_device, create_session, device_id_of,
  device_name_of, find_active_by_id,
}
use appforfixiyi.Auth.Accounts.{
  Platform, State, Sent, sms, phone_codes, phone_code_options, ProviderName, in_redis, send_code,
  sign_tokens, require_success, is_session_of, issue_new_session, by_id, request_phone_otp, refresh,
  revoke_session,
}

abbrev pub users : {R : Type 0} → State R → List User
users s = s.db.users

module _ {R T : Type 0} (p : Platform T) (now : ℕ) where
  in_redis-Keeps : {A : Type 0} (m : Exec Contents A) → Keeps users (in_redis {R = R} m)
  in_redis-Keeps m s = refl

  send_code-Keeps :
      (to : ℕ → Sent) (name : ProviderName) (r : IssueCodeResult)
      → Keeps users (send_code {R = R} p to name r)
  unfolding send_code
  send_code-Keeps to name (issued code retry) s = refl
  send_code-Keeps to name (cooling_down retry) s = refl
  send_code-Keeps to name (rate_limited retry) s = refl

  pub sign_token_lem :
      {C : Type 0} (jwt : Jwt T C) (at secret ttl : ℕ) (c : C) (s : State R)
      → sign_token jwt at secret ttl c s
        ≡ (ok (record { token = jwt.sign at secret ttl c; expires_at_seconds = at + ttl }), s)
  unfolding sign_token decode_expiry
  sign_token_lem jwt at secret ttl c s = rw (jwt.decode_sign at secret ttl c)

  sign_tokens-Keeps :
      (u : User) (session version : ℕ) → Keeps users (sign_tokens {R = R} p now u session version)
  unfolding sign_tokens
  sign_tokens-Keeps u session version s =
      rw (sign_token_lem p.refresh _ _ _ _ s, sign_token_lem p.access _ _ _ _ s)

  -- A code is issued and sent, for a subject of a namespace.
  pub issued-Keeps :
      (to : ℕ → Sent) (name : ProviderName) (namespace subject drawn : ℕ) (o : IssueCodeOptions)
      → Keeps users (
          in_redis {R = R}
            (issue_code p.redis p.hash p.env.otp_secret now namespace subject drawn o)
          >>= send_code p to name)
  issued-Keeps to name namespace subject drawn o s =
      view_bind users
        (in_redis {R = R}
          (issue_code p.redis p.hash p.env.otp_secret now namespace subject drawn o))
        (send_code p to name) (λ r. send_code-Keeps to name r) s

  pub request_phone_otp-Keeps :
      (drawn phone : ℕ) → Keeps users (request_phone_otp {R = R} p now drawn phone)
  unfolding request_phone_otp
  request_phone_otp-Keeps drawn phone s = elim (Bool-cases (p.is_valid_phone_number phone)) [
    | inr e ↦ rw e
    | inl e ↦ rw e (issued-Keeps (sms phone) _ phone_codes phone drawn phone_code_options s)
  ]

  explain_found-users :
      (id at : ℕ) (o : Option UserSession) (d : Db R)
      → (explain_found p.mongo id at o d).1.users ≡ d.users
  unfolding explain_found revoke
  explain_found-users id at none d = refl
  explain_found-users id at (some x) d = elim (Bool-cases (is_active x.status)) [
    | inr e ↦ rw e
    | inl e ↦ elim (Bool-cases (leb x.expires_at at)) [ inl l ↦ rw (e, l) | inr l ↦ rw (e, l) ]
  ]

  pub rotate-users :
      (id version at : ℕ) (context : RequestContext) (d : Db R)
      → (rotate p.mongo id version at context d).1.users ≡ d.users
  unfolding rotate claim rotate_claimed explain_failed_rotation
  rotate-users id version at context d =
      elim (Option-cases (p.mongo.find_one (can_rotate id version at) d.sessions)) [
        | inl e ↦ rw e (explain_found-users id at _ _)
        | inr (x, e) ↦ rw e
      ]

  create_device-users :
      (fresh user at : ℕ) (device : Option DeviceInput) (context : RequestContext) (d : Db R)
      → (create_device p.mongo fresh user at device context d).1.users ≡ d.users
  unfolding create_device
  create_device-users fresh user at device context d =
      elim (Option-cases (
        p.mongo.create same_device_id
          (record {
            id = get_or (device_id_of device) fresh;
            user_id = user;
            name = device_name_of device;
            user_agent = context.user_agent;
            last_seen_ip = context.ip;
            last_seen_at = at;
          })
          d.devices)) [ inl e ↦ rw e | inr (c, e) ↦ rw e ]

  upsert_device-users :
      (fresh user at : ℕ) (device : Option DeviceInput) (context : RequestContext) (d : Db R)
      → (upsert_device p.mongo fresh user at device context d).1.users ≡ d.users
  unfolding upsert_device upsert_found
  upsert_device-users fresh user at device context d =
      elim (Option-cases (find_own_device p.mongo user (device_id_of device) d)) [
        | inl e ↦ rw e (create_device-users fresh user at device context d)
        | inr (x, e) ↦ rw e
      ]

  pub create_session-users :
      (fresh id user at expires_at : ℕ) (device : Option DeviceInput) (context : RequestContext)
      (d : Db R)
      → (create_session p.mongo fresh id user at expires_at device context d).1.users ≡ d.users
  unfolding create_session
  create_session-users fresh id user at expires_at device context d =
      let devices = upsert_device p.mongo fresh user at device context d in
      let same = upsert_device-users fresh user at device context d in
      elim (Result-cases devices.0) [
        | inr (x, e) ↦ rw e same
        | inl (device_id, e) ↦
            elim (Option-cases (
              p.mongo.create same_id (new_session id user device_id at expires_at context)
                devices.1.sessions)) [ inl f ↦ rw (e, f) same | inr (c, f) ↦ rw (e, f) same ]
      ]

  pub issue_new_session-Keeps :
      (fresh_session fresh_device : ℕ) (u : User) (device : Option DeviceInput)
      (context : RequestContext)
      → Keeps users (issue_new_session {R = R} p now fresh_session fresh_device u device context)
  unfolding issue_new_session
  issue_new_session-Keeps fresh_session fresh_device u device context s =
      let expires_at = (now / 1000 + p.env.jwt_refresh_ttl) * 1000 in
      elim (Result-cases
        (create_session p.mongo fresh_device fresh_session u.id now expires_at device context
          s.db).0) [
            | inr (x, e) ↦
                rw (sign_token_lem p.refresh _ _ _ _ s, e)
                  (create_session-users fresh_device fresh_session u.id now expires_at device
                    context s.db)
            | inl (y, e) ↦
                rw (sign_token_lem p.refresh _ _ _ _ s, e, sign_token_lem p.access _ _ _ _ _)
                  (create_session-users fresh_device fresh_session u.id now expires_at device
                    context s.db)
          ]

  require_success-cases :
      (r : RotateResult)
      → ((x : UserSession) × (r ≡ success x))
        ⊎ ((s : State R)
            → require_success p r s ≡ (err (domain unauthorized_status refresh_token_invalid), s))
  require_success-cases (success x) = inl (x, refl)
  require_success-cases session_not_found = inr (λ s. refl)
  require_success-cases session_revoked = inr (λ s. refl)
  require_success-cases session_expired = inr (λ s. refl)
  require_success-cases session_reuse_detected = inr (λ s. refl)

  rotated_tokens-Keeps :
      (user : ℕ) (r : RotateResult)
      → Keeps users (
          require_success {R = R} p r >>= λ x.
          gets (λ s. p.mongo.find_one (by_id user) s.db.users) >>= λ found.
          require_some found (domain unauthorized_status refresh_token_invalid) >>= λ u.
          sign_tokens p now u x.id x.token_version)
  rotated_tokens-Keeps user r s = elim (require_success-cases r) [
    | inr e ↦ rw (e s)
    | inl (x, e) ↦ elim (Option-cases (p.mongo.find_one (by_id user) s.db.users)) [
      | inl n ↦ rw (e, n)
      | inr (u, f) ↦ rw (e, f) (sign_tokens-Keeps u x.id x.token_version s)
    ]
  ]

  pub refresh-Keeps :
      (token : T) (context : RequestContext) → Keeps users (refresh {R = R} p now token context)
  unfolding refresh
  refresh-Keeps token context s =
      elim (Option-cases (p.refresh.verify (now / 1000) p.env.jwt_refresh_secret token)) [
        | inl e ↦ rw e
        | inr (c, e) ↦
            let d = rotate p.mongo c.sid c.rtv now context s.db in
            let same = rotate-users c.sid c.rtv now context s.db in
            elim (Result-cases d.0) [
              | inr (x, f) ↦ rw (e, f) same
              | inl (r, f) ↦ rw (e, f) (rotated_tokens-Keeps c.sub r (record s { db = d.1 }) ∙ same)
            ]
      ]

  pub revoke_session-Keeps :
      (user session : ℕ) → Keeps users (revoke_session {R = R} p now user session)
  unfolding revoke_session revoke
  revoke_session-Keeps user session s =
      elim (Bool-cases (is_session_of user (find_active_by_id p.mongo session s.db))) [
        | inl e ↦ rw e
        | inr e ↦ rw e
      ]
