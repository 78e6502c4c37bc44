-- ===== src/Auth/Accounts/Evolution.antt =====
-- The calls of apps/api/src/auth/auth.service.ts, and how one may change a user.
use appforfixiyi.Common.{
  ℕ, ◌+◌, ◌≡◌, refl, ◌⊎◌, true, false, Option, none, some, List, [], ◌∷◌, ◌++◌, inl, inr, ◌==◌, any,
  Bool-cases, Option-cases, ==_iff, find?, find-update, find-append, is_some,
}
use Prim.Native.Nat.{◌/◌}
use appforfixiyi.Store.Entities.Auth.{User, client, provider}
use appforfixiyi.Auth.Sessions.{RequestContext}
use appforfixiyi.Auth.Age.{is_younger_than, epoch_day}
use appforfixiyi.Auth.Accounts.{
  Platform, State, Env, OtpVerifyInput, by_id, is_provider, request_phone_otp, verify_phone_otp,
  refresh, log_out, log_out_all, revoke_session, update_me, become_provider, attach_email,
  verify_email,
}

-- The calls of the service that write, at the instant `now`; `fresh…` are the ids that are made.
pub data Call (T : Type 0) : Type 0 where
  request_otp_call : (drawn phone : ℕ) → Call T
  verify_otp_call :
      (fresh fresh_session fresh_device : ℕ) → OtpVerifyInput → RequestContext → Call T
  refresh_call : T → RequestContext → Call T
  log_out_call : (session : ℕ) → Call T
  log_out_all_call : (user : ℕ) → Call T
  revoke_session_call : (user session : ℕ) → Call T
  update_me_call : (user date_of_birth : ℕ) → Call T
  become_provider_call : (user : ℕ) → Call T
  attach_email_call : (drawn user email : ℕ) → Call T
  verify_email_call : (user code : ℕ) → Call T

module _ {R T : Type 0} (p : Platform T) where
  unfoldable pub run : (now : ℕ) → Call T → State R → State R
  run now (request_otp_call drawn phone) s = (request_phone_otp p now drawn phone s).1
  run now (verify_otp_call fresh fresh_session fresh_device i context) s =
      (verify_phone_otp p now fresh fresh_session fresh_device i context s).1
  run now (refresh_call token context) s = (refresh p now token context s).1
  run now (log_out_call session) s = (log_out p now session s).1
  run now (log_out_all_call user) s = (log_out_all p now user s).1
  run now (revoke_session_call user session) s = (revoke_session p now user session s).1
  run now (update_me_call user date_of_birth) s = (update_me p user date_of_birth s).1
  run now (become_provider_call user) s = (become_provider p now user s).1
  run now (attach_email_call drawn user email) s = (attach_email p now drawn user email s).1
  run now (verify_email_call user code) s = (verify_email p now user code s).1

-- Why a user may be a provider: the phone is verified, and the date of birth is old enough.
pub record Grantable (env : Env) (now : ℕ) (u : User) : Type 0 where
  pub verified : is_some u.phone_verified_at ≡ true
  pub born : ℕ
  pub born_lem : u.date_of_birth ≡ some born
  pub of_age : is_younger_than env.min_provider_age born (now / 86400000 + epoch_day) ≡ false

-- A user after a call.
pub record Evolves (env : Env) (now : ℕ) (u u' : User) : Type 0 where
  pub same_id : u'.id ≡ u.id
  pub same_phone : u'.phone ≡ u.phone
  pub stays_verified : is_some u.phone_verified_at ≡ true → is_some u'.phone_verified_at ≡ true
  pub roles_lem :
      (u'.roles ≡ u.roles)
      ⊎ ((u'.roles ≡ u.roles ++ provider ∷ [])
          × (any is_provider u.roles ≡ false)
          × Grantable env now u)

-- What a call does to the user of one id: a new one is a client with a verified phone.
abbrev pub Moves : Env → (now : ℕ) → Option User → Option User → Type 0
Moves env now none none = Unit
Moves env now none (some u') = (u'.roles ≡ client ∷ []) × (u'.phone_verified_at ≡ some now)
Moves env now (some u) none = ⊥
Moves env now (some u) (some u') = Evolves env now u u'

abbrev pub AllGranted : Env → (now : ℕ) → List User → List User → Type 0
AllGranted env now xs ys = (i : ℕ) → Moves env now (find? (by_id i) xs) (find? (by_id i) ys)

Evolves-refl : (env : Env) (now : ℕ) (u : User) → Evolves env now u u
Evolves-refl env now u = record {
  same_id = refl;
  same_phone = refl;
  stays_verified = λ h. h;
  roles_lem = inl refl;
}

Moves-refl : (env : Env) (now : ℕ) (o : Option User) → Moves env now o o
Moves-refl env now none = tt
Moves-refl env now (some u) = Evolves-refl env now u

pub AllGranted-refl : (env : Env) (now : ℕ) (xs : List User) → AllGranted env now xs xs
AllGranted-refl env now xs i = Moves-refl env now (find? (by_id i) xs)

module _ {T : Type 0} (p : Platform T) (now : ℕ) where
  pub save-AllGranted :
      (id : ℕ) (f : User → User) (xs : List User)
      → ((u : User) → (f u).id ≡ u.id)
      → ((u : User) → find? (by_id id) xs ≡ some u → Evolves p.env now u (f u))
      → AllGranted p.env now xs (p.mongo.update_one (by_id id) f xs)
  save-AllGranted id f xs k ev i = elim (Bool-cases (id == i)) [
    | inr e ↦
        rw (p.mongo.update_one_lem, find-update (λ u. u.id) f k i id xs, e) (Moves-refl p.env now _)
    | inl e ↦
        rw (p.mongo.update_one_lem, find-update (λ u. u.id) f k i id xs, e)
          (elim (Option-cases (find? (by_id i) xs)) [
            | inl missing ↦ rw missing tt
            | inr (u, h) ↦ rw h (ev u (rw ((==_iff id i).0 e) h))
          ])
  ]

  pub AllGranted-append :
      (xs : List User) (u : User)
      → u.roles ≡ client ∷ []
      → u.phone_verified_at ≡ some now
      → AllGranted p.env now xs (xs ++ u ∷ [])
  AllGranted-append xs u r v i =
      rw (find-append (λ u. u.id) i xs (u ∷ [])) (elim (Option-cases (find? (by_id i) xs)) [
        | inr (u', e) ↦ rw e (Evolves-refl p.env now u')
        | inl e ↦
            rw e (elim (Bool-cases (u.id == i)) [
              | inl same ↦ rw same (r, v)
              | inr other ↦ rw other tt
            ])
      ])
