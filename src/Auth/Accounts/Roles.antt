-- ===== src/Auth/Accounts/Roles.antt =====
-- Who gets the role of a provider (apps/api/src/auth/auth.service.ts).
use appforfixiyi.Common.{
  ℕ, ◌+◌, ◌≡◌, refl, sym, ◌∙◌, true, false, Option, none, some, inl, inr, any, Bool-cases,
  Option-cases, Result-cases, find?, is_some, view_bind, truthy, get_or, key_of_find,
}
use Prim.Native.Nat.{◌/◌}
use appforfixiyi.Store.Entities.Auth.{User}
use appforfixiyi.Auth.Codes.{verify_code, valid, invalid}
use appforfixiyi.Auth.Sessions.{RequestContext, revoke, revoke_all_for_user}
use appforfixiyi.Auth.Age.{is_younger_than, epoch_day}
use appforfixiyi.Auth.Accounts.{
  Platform, State, email_sent, phone_codes, email_codes, email_code_options, is_other, has_verified,
  is_taken, by_phone, max_verify_attempts, require_user, save, verified_user, clashes, new_user,
  as_provider, issue_new_session, OtpVerifyInput, by_id, is_provider, verify_phone_otp, log_out,
  log_out_all, update_me, become_provider, attach_email, verify_email,
}
use appforfixiyi.Auth.Accounts.Evolution.{
  Call, request_otp_call, verify_otp_call, refresh_call, log_out_call, log_out_all_call,
  revoke_session_call, update_me_call, become_provider_call, attach_email_call, verify_email_call,
  run, Evolves, AllGranted, AllGranted-refl, save-AllGranted, AllGranted-append,
}
use appforfixiyi.Auth.Accounts.Kept.{
  users, issued-Keeps, request_phone_otp-Keeps, refresh-Keeps, revoke_session-Keeps,
  issue_new_session-Keeps,
}

module _ {R T : Type 0} (p : Platform T) (now : ℕ) where
  find_user :
      (id : ℕ) (s : State R) {u : User}
      → p.mongo.find_one (by_id id) s.db.users ≡ some u
      → (u.id ≡ id) × (find? (by_id id) s.db.users ≡ some u)
  find_user id s {u} e =
      let found : find? (by_id id) s.db.users ≡ some u =
        sym (p.mongo.find_one_lem (by_id id) s.db.users) ∙ e in
      (key_of_find (λ u. u.id) id s.db.users {x = u} found, found)

  update_me-AllGranted :
      (user born : ℕ) (s : State R)
      → AllGranted p.env now s.db.users (update_me p user born s).1.db.users
  unfolding update_me require_user save
  update_me-AllGranted user born s =
      elim (Option-cases (p.mongo.find_one (by_id user) s.db.users)) [
        | inl e ↦ rw e (AllGranted-refl p.env now _)
        | inr (u, e) ↦ rw e (
            save-AllGranted p now u.id _ s.db.users (λ u. refl)
              (λ u' h. record {
                same_id = refl;
                same_phone = refl;
                stays_verified = λ h. h;
                roles_lem = inl refl;
              }))
      ]

  verified_user-AllGranted :
      (fresh phone : ℕ) (o : Option User) (s : State R)
      → AllGranted p.env now s.db.users (verified_user p now fresh phone o s).1.db.users
  unfolding verified_user save
  verified_user-AllGranted fresh phone none s =
      elim (Bool-cases (any (clashes (new_user fresh phone now)) s.db.users)) [
        | inl taken ↦ rw (p.mongo.create_lem, taken) (AllGranted-refl p.env now _)
        | inr free ↦
            rw (p.mongo.create_lem, free)
              (AllGranted-append p now s.db.users (new_user fresh phone now) refl refl)
      ]
  verified_user-AllGranted fresh phone (some u) s =
      elim (Bool-cases (is_some u.phone_verified_at)) [
        | inl e ↦ rw e (AllGranted-refl p.env now _)
        | inr e ↦ rw e (
            save-AllGranted p now u.id _ s.db.users (λ u. refl)
              (λ u' h. record {
                same_id = refl;
                same_phone = refl;
                stays_verified = λ h. refl;
                roles_lem = inl refl;
              }))
      ]

  become_provider-AllGranted :
      (user : ℕ) (s : State R)
      → AllGranted p.env now s.db.users (become_provider p now user s).1.db.users
  unfolding become_provider require_user save
  become_provider-AllGranted user s =
      elim (Option-cases (p.mongo.find_one (by_id user) s.db.users)) [
        | inl e ↦ rw e (AllGranted-refl p.env now _)
        | inr (u, e) ↦ elim (Bool-cases (any is_provider u.roles)) [
          | inl already ↦ rw (e, already) (AllGranted-refl p.env now _)
          | inr n ↦ elim (Bool-cases (is_some u.phone_verified_at)) [
            | inr v ↦ rw (e, n, v) (AllGranted-refl p.env now _)
            | inl v ↦ elim (Option-cases u.date_of_birth) [
              | inl b ↦ rw (e, n, v, b) (AllGranted-refl p.env now _)
              | inr (born, b) ↦
                  elim (Bool-cases
                    (is_younger_than p.env.min_provider_age born (now / 86400000 + epoch_day))) [
                      | inl young ↦ rw (e, n, v, b, young) (AllGranted-refl p.env now _)
                      | inr old ↦
                          rw (e, n, v, b, old)
                            (save-AllGranted p now u.id as_provider s.db.users (λ u. refl)
                              (λ u' h. granted u u' (find_user user s e) h n v b old))
                    ]
            ]
          ]
        ]
      ]
    where
      granted :
          (u u' : User) {born : ℕ}
          → (u.id ≡ user) × (find? (by_id user) s.db.users ≡ some u)
          → find? (by_id u.id) s.db.users ≡ some u'
          → any is_provider u.roles ≡ false
          → is_some u.phone_verified_at ≡ true
          → u.date_of_birth ≡ some born
          → is_younger_than p.env.min_provider_age born (now / 86400000 + epoch_day) ≡ false
          → Evolves p.env now u' (as_provider u')
      granted u u' {born} (i, f) h n v b old =
          let again : find? (by_id user) s.db.users ≡ some u' = rw (← i) h in
          let same : u' ≡ u = cc in
          rw same (record {
            same_id = refl;
            same_phone = refl;
            stays_verified = λ h. h;
            roles_lem =
                inr (refl, n, record { verified = v; born = born; born_lem = b; of_age = old });
          })

  attach_email-AllGranted :
      (drawn user email : ℕ) (s : State R)
      → AllGranted p.env now s.db.users (attach_email p now drawn user email s).1.db.users
  unfolding attach_email require_user save
  attach_email-AllGranted drawn user email s =
      elim (Bool-cases (is_other user (p.mongo.find_one (has_verified email) s.db.users))) [
        | inl taken ↦ rw taken (AllGranted-refl p.env now _)
        | inr free ↦ elim (Option-cases (p.mongo.find_one (by_id user) s.db.users)) [
          | inl e ↦ rw (free, e) (AllGranted-refl p.env now _)
          | inr (u, e) ↦
              rw
                (
                  free,
                  e,
                  issued-Keeps p now (email_sent email) p.env.email_provider email_codes email drawn
                      email_code_options
                      (record s {
                        db = record s.db {
                          users =
                              p.mongo.update_one (by_id u.id)
                                (λ u. record u { pending_email = some email }) s.db.users;
                        };
                      }),
                )
                (save-AllGranted p now u.id _ s.db.users (λ u. refl)
                  (λ u' h. record {
                    same_id = refl;
                    same_phone = refl;
                    stays_verified = λ h. h;
                    roles_lem = inl refl;
                  }))
        ]
      ]

  verify_email-AllGranted :
      (user code : ℕ) (s : State R)
      → AllGranted p.env now s.db.users (verify_email p now user code s).1.db.users
  unfolding verify_email require_user save
  verify_email-AllGranted user code s =
      elim (Option-cases (p.mongo.find_one (by_id user) s.db.users)) [
        | inl e ↦ rw e (AllGranted-refl p.env now _)
        | inr (u, e) ↦ elim (Bool-cases (truthy u.pending_email)) [
          | inr n ↦ rw (e, n) (AllGranted-refl p.env now _)
          | inl n ↦
              let email = get_or u.pending_email 0 in
              elim (Result-cases
                (verify_code p.redis p.hash p.env.otp_secret now email_codes email code
                  max_verify_attempts s.redis).0) [
                    | inr (x, r) ↦ rw (e, n, r) (AllGranted-refl p.env now _)
                    | inl (invalid reason, r) ↦ rw (e, n, r) (AllGranted-refl p.env now _)
                    | inl (valid, r) ↦
                        elim (Option-cases (p.mongo.find_one (is_taken u.id email) s.db.users)) [
                          | inr (other, t) ↦ rw (e, n, r, t) (AllGranted-refl p.env now _)
                          | inl t ↦
                              rw (e, n, r, t)
                                (save-AllGranted p now u.id _ s.db.users (λ u. refl)
                                  (λ u' h. record {
                                    same_id = refl;
                                    same_phone = refl;
                                    stays_verified = λ h. h;
                                    roles_lem = inl refl;
                                  }))
                        ]
                  ]
        ]
      ]

  verify_phone_otp-AllGranted :
      (fresh fresh_session fresh_device : ℕ) (i : OtpVerifyInput) (context : RequestContext)
      (s : State R)
      → AllGranted p.env now s.db.users
          (verify_phone_otp p now fresh fresh_session fresh_device i context s).1.db.users
  unfolding verify_phone_otp
  verify_phone_otp-AllGranted fresh fresh_session fresh_device i context s =
      let checked =
        verify_code p.redis p.hash p.env.otp_secret now phone_codes i.phone i.code
          max_verify_attempts s.redis in
      let found = p.mongo.find_one (by_phone i.phone) s.db.users in
      let t = record s { redis = checked.1 } in
      elim (Result-cases checked.0) [
        | inr (x, r) ↦ rw r (AllGranted-refl p.env now _)
        | inl (invalid reason, r) ↦ rw r (AllGranted-refl p.env now _)
        | inl (valid, r) ↦
            rw
              (
                r,
                view_bind users (verified_user p now fresh i.phone found)
                    (λ u. issue_new_session p now fresh_session fresh_device u i.device context)
                    (λ u.
                      issue_new_session-Keeps p now fresh_session fresh_device u i.device context)
                    t,
              )
              (verified_user-AllGranted fresh i.phone found t)
      ]

  -- Whatever call of the service is made, successful or not, no user is removed, ids and phones stay,
  -- a verified phone stays verified, and a new user is a client whose phone was just verified. The
  -- roles of a user change in one way only: the role of a provider is added, once, where the phone
  -- is verified and the stored date of birth makes the user old enough at the instant of the call.
  pub run-AllGranted :
      (c : Call T) (s : State R) → AllGranted p.env now s.db.users (run p now c s).db.users
  unfolding run log_out log_out_all revoke revoke_all_for_user
  run-AllGranted (request_otp_call drawn phone) s =
      rw (request_phone_otp-Keeps p now drawn phone s) (AllGranted-refl p.env now _)
  run-AllGranted (verify_otp_call fresh fresh_session fresh_device i context) s =
      verify_phone_otp-AllGranted fresh fresh_session fresh_device i context s
  run-AllGranted (refresh_call token context) s =
      rw (refresh-Keeps p now token context s) (AllGranted-refl p.env now _)
  run-AllGranted (log_out_call session) s = AllGranted-refl p.env now _
  run-AllGranted (log_out_all_call user) s = AllGranted-refl p.env now _
  run-AllGranted (revoke_session_call user session) s =
      rw (revoke_session-Keeps p now user session s) (AllGranted-refl p.env now _)
  run-AllGranted (update_me_call user born) s = update_me-AllGranted user born s
  run-AllGranted (become_provider_call user) s = become_provider-AllGranted user s
  run-AllGranted (attach_email_call drawn user email) s = attach_email-AllGranted drawn user email s
  run-AllGranted (verify_email_call user code) s = verify_email-AllGranted user code s
