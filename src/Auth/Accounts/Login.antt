-- ===== src/Auth/Accounts/Login.antt =====
-- What a login leaves behind (apps/api/src/auth/auth.service.ts).
use Prim.Native.Nat.{◌/◌}
use appforfixiyi.Common.{
  ℕ, ◌+◌, ◌-◌, ◌*◌, ◌≤◌, ◌≡◌, refl, sym, ◌∙◌, Bool, true, false, Option, none, some, List, [], ◌∷◌,
  ◌++◌, inl, inr, arith, ==_refl, Bool-cases, Option-cases, Result-cases, find?, any, count,
  count-append, is_some, apply, find-update, find-append, ok, err, domain, unauthorized_status,
  get_or, or_else, Result, duplicate_key, ◌⊎◌, Failure,
}
use appforfixiyi.Store.Database.{Db}
use appforfixiyi.Store.Entities.Auth.{User, UserSession}
use appforfixiyi.Auth.Codes.{verify_code, valid, invalid}
use appforfixiyi.Auth.Sessions.{
  RequestContext, DeviceInput, by_id as session_by_id, same_id, same_device_id, new_session,
  create_device, upsert_found, find_own_device, upsert_device, create_session, device_id_of,
  device_name_of,
}
use appforfixiyi.Auth.Accounts.{
  Platform, State, AuthSessionResult, OtpVerifyInput, by_id, by_phone, clashes, new_user,
  phone_verified, save, verified_user, otp_code_of, issue_new_session, verify_phone_otp,
  phone_codes, max_verify_attempts, to_user_dto,
}
use appforfixiyi.Auth.Accounts.Kept.{sign_token_lem, create_session-users}

any_session :
    (id : ℕ) (xs : List UserSession) (n : UserSession)
    → n.id ≡ id
    → any (same_id n) xs ≡ false
    → count (session_by_id id) xs ≡ 0
any_session id [] n e h = refl
any_session id (x ∷ xs) n e h = ground (arith, any_session id xs n e)

find_last :
    (id : ℕ) (xs : List UserSession) (n : UserSession)
    → n.id ≡ id
    → any (same_id n) xs ≡ false
    → find? (session_by_id id) (xs ++ n ∷ []) ≡ some n
find_last id [] n e h = ground arith
find_last id (x ∷ xs) n e h = ground (arith, find_last id xs n e)

found-is_known :
    (q : User → Bool) (xs : List User) {u : User}
    → find? q xs ≡ some u
    → is_some (find? (by_id u.id) xs) ≡ true
found-is_known q [] h = absurd (cc)
found-is_known q (x ∷ xs) {u} h = elim (Bool-cases (q x)) [
  | inl e ↦ ground arith
  | inr e ↦ ground (arith, found-is_known q xs {u = u})
]

module _ {T : Type 0} (p : Platform T) (now : ℕ) where
  -- The answer of a login.
  abbrev answered : (id : ℕ) → User → AuthSessionResult T
  answered id u = record {
    tokens = record {
      access_token =
          p.access.sign (now / 1000) p.env.jwt_secret p.env.jwt_access_ttl
            (record { sub = u.id; sid = id; roles = u.roles });
      refresh_token =
          p.refresh.sign (now / 1000) p.env.jwt_refresh_secret p.env.jwt_refresh_ttl
            (record { sub = u.id; sid = id; rtv = 0 });
      expires_in = now / 1000 + p.env.jwt_access_ttl - now / 1000;
    };
    user = to_user_dto u;
  }

module _ {R T : Type 0} (p : Platform T) (now : ℕ) where
  create_device-sessions :
      (fresh user at : ℕ) (device : Option DeviceInput) (context : RequestContext) (d : Db R)
      → (create_device p.mongo fresh user at device context d).1.sessions ≡ d.sessions
  unfolding create_device
  create_device-sessions fresh user at device context d =
      elim (Option-cases (
        p.mongo.create same_device_id
          (record {
            id = get_or (device_id_of device) fresh;
            user_id = user;
            name = device_name_of device;
            user_agent = context.user_agent;
            last_seen_ip = context.ip;
            last_seen_at = at;
          })
          d.devices)) [ inl e ↦ rw e | inr (c, e) ↦ rw e ]

  upsert_device-sessions :
      (fresh user at : ℕ) (device : Option DeviceInput) (context : RequestContext) (d : Db R)
      → (upsert_device p.mongo fresh user at device context d).1.sessions ≡ d.sessions
  unfolding upsert_device upsert_found
  upsert_device-sessions fresh user at device context d =
      elim (Option-cases (find_own_device p.mongo user (device_id_of device) d)) [
        | inl e ↦ rw e (create_device-sessions fresh user at device context d)
        | inr (x, e) ↦ rw e
      ]

  -- The session of an id is there, once, as it was made.
  abbrev pub HasNew : (id user device expires_at : ℕ) → RequestContext → Db R → Type 0
  HasNew id user device expires_at context d =
      (find? (session_by_id id) d.sessions
        ≡ some (new_session id user device now expires_at context))
      × (count (session_by_id id) d.sessions ≤ 1)

  create_session-cases :
      (fresh id user expires_at : ℕ) (device : Option DeviceInput) (context : RequestContext)
      (d : Db R)
      → let made = create_session p.mongo fresh id user now expires_at device context d in
        ((x : Failure) × (made.0 ≡ err x))
        ⊎ ((dev : ℕ) × (made.0 ≡ ok dev) × HasNew id user dev expires_at context made.1)
  unfolding create_session
  create_session-cases fresh id user expires_at device context d =
      let devices = upsert_device p.mongo fresh user now device context d in
      let same = upsert_device-sessions fresh user now device context d in
      elim (Result-cases devices.0) [
        | inr (x, e) ↦ inl (x, rw e)
        | inl (dev, e) ↦
            let n = new_session id user dev now expires_at context in
            elim (Bool-cases (any (same_id n) d.sessions)) [
              | inl taken ↦ inl (duplicate_key, rw (e, p.mongo.create_lem, same, taken))
              | inr free ↦ inr (
                dev,
                rw (e, p.mongo.create_lem, same, free),
                rw (e, p.mongo.create_lem, same, free)
                    (
                      find_last id d.sessions n refl free,
                      rw
                          (
                            count-append (session_by_id id) d.sessions (n ∷ []),
                            any_session id d.sessions n refl free,
                            ==_refl id,
                          )
                          (omega arith),
                    ),
              )
            ]
      ]

  -- What a login leaves behind: a refresh token for the session, the session, and its user.
  pub record LoggedIn (id device : ℕ) (context : RequestContext) (r : AuthSessionResult T)
      (s : State R) : Type 0 where
    pub token :
        r.tokens.refresh_token
        ≡ p.refresh.sign
            (now / 1000)
            p.env.jwt_refresh_secret
            p.env.jwt_refresh_ttl
            (record { sub = r.user.id; sid = id; rtv = 0 })
    pub session :
        HasNew id r.user.id device ((now / 1000 + p.env.jwt_refresh_ttl) * 1000) context s.db
    pub user : is_some (find? (by_id r.user.id) s.db.users) ≡ true

  -- What an action that logs in comes to: it fails, or a login is what it leaves behind.
  abbrev pub LogsIn : (id : ℕ) → RequestContext → Result (AuthSessionResult T) × State R → Type 0
  LogsIn id context out =
      ((x : Failure) × (out.0 ≡ err x))
      ⊎ ((dev : ℕ) × (r : AuthSessionResult T) × (out.0 ≡ ok r) × LoggedIn id dev context r out.1)

  issue_new_session-LogsIn :
      (fresh_session fresh_device : ℕ) (u : User) (device : Option DeviceInput)
      (context : RequestContext) (s : State R)
      → is_some (find? (by_id u.id) s.db.users) ≡ true
      → LogsIn fresh_session context
          (issue_new_session p now fresh_session fresh_device u device context s)
  unfolding issue_new_session
  issue_new_session-LogsIn fresh_session fresh_device u device context s k =
      let expires_at = (now / 1000 + p.env.jwt_refresh_ttl) * 1000 in
      let same =
        create_session-users p now fresh_device fresh_session u.id now expires_at device context
          s.db in
      elim (create_session-cases fresh_device fresh_session u.id expires_at device context s.db) [
        | inl (x, e) ↦ inl (x, rw (sign_token_lem p now p.refresh _ _ _ _ s, e))
        | inr (dev, e, n) ↦ inr (
          dev,
          answered p now fresh_session u,
          rw (sign_token_lem p now p.refresh _ _ _ _ s, e, sign_token_lem p now p.access _ _ _ _ _)
              refl,
          rw (sign_token_lem p now p.refresh _ _ _ _ s, e, sign_token_lem p now p.access _ _ _ _ _)
              (record { token = refl; session = n; user = rw same k }),
        )
      ]

  -- The user of a verified phone is stored.
  verified_user-cases :
      (fresh phone : ℕ) (s : State R)
      → let made =
          verified_user p now fresh phone (p.mongo.find_one (by_phone phone) s.db.users) s in
        ((x : Failure) × (made.0 ≡ err x))
        ⊎ ((u : User) × (made.0 ≡ ok u) × (is_some (find? (by_id u.id) made.1.db.users) ≡ true))
  unfolding verified_user save
  verified_user-cases fresh phone s =
      elim (Option-cases (p.mongo.find_one (by_phone phone) s.db.users)) [
        | inl n ↦
            let u = new_user fresh phone now in
            elim (Bool-cases (any (clashes u) s.db.users)) [
              | inl taken ↦ inl (duplicate_key, rw (n, p.mongo.create_lem, taken))
              | inr free ↦ inr (
                u,
                rw (n, p.mongo.create_lem, free),
                rw
                    (
                      n,
                      p.mongo.create_lem,
                      free,
                      find-append {A = User} (λ y. y.id) fresh s.db.users (u ∷ []),
                      ==_refl fresh,
                    )
                    (or_else-is_some (find? (by_id fresh) s.db.users) u),
              )
            ]
        | inr (u, f) ↦
            let known =
              found-is_known (by_phone phone) s.db.users {u = u}
                (sym (p.mongo.find_one_lem (by_phone phone) s.db.users) ∙ f) in
            elim (Bool-cases (is_some u.phone_verified_at)) [
              | inl v ↦ inr (u, rw (f, v), rw (f, v) known)
              | inr v ↦ inr (
                phone_verified now u,
                rw (f, v),
                rw
                    (
                      f,
                      v,
                      p.mongo.update_one_lem,
                      find-update {A = User} (λ y. y.id) (phone_verified now) (λ y. refl) u.id u.id
                          s.db.users,
                      ==_refl u.id,
                    )
                    (is_some-apply (phone_verified now) _ ∙ known),
              )
            ]
      ]
    where
      or_else-is_some : (o : Option User) (u : User) → is_some (or_else o (some u)) ≡ true
      or_else-is_some none u = refl
      or_else-is_some (some v) u = refl

      is_some-apply : (f : User → User) (o : Option User) → is_some (apply f o) ≡ is_some o
      is_some-apply f none = refl
      is_some-apply f (some v) = refl

  pub verify_phone_otp-LogsIn :
      (fresh fresh_session fresh_device : ℕ) (i : OtpVerifyInput) (context : RequestContext)
      (s : State R)
      → LogsIn fresh_session context
          (verify_phone_otp p now fresh fresh_session fresh_device i context s)
  unfolding verify_phone_otp
  verify_phone_otp-LogsIn fresh fresh_session fresh_device i context s =
      let checked =
        verify_code p.redis p.hash p.env.otp_secret now phone_codes i.phone i.code
          max_verify_attempts s.redis in
      let t = record s { redis = checked.1 } in
      elim (Result-cases checked.0) [
        | inr (x, c) ↦ inl (x, rw c)
        | inl (invalid reason, c) ↦ inl (domain unauthorized_status (otp_code_of reason), rw c)
        | inl (valid, c) ↦ elim (verified_user-cases fresh i.phone t) [
          | inl (x, e) ↦ inl (x, rw (c, e))
          | inr (u, e, k) ↦
              rw (c, e) (issue_new_session-LogsIn fresh_session fresh_device u i.device context _ k)
        ]
      ]
