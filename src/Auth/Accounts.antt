-- ===== src/Auth/Accounts.antt =====
-- apps/api/src/auth/auth.service.ts: login by a one-time code, refresh, logout, the profile, the role
-- of a provider, and e-mail addresses. `now` is the instant of the call in milliseconds; the tokens
-- count in seconds. Text messages and mails are handed to a provider that takes them.
pub mod Evolution
pub mod Kept
pub mod Roles
pub mod Login
pub mod Renewal
use Prim.Native.Nat.{◌/◌}
use appforfixiyi.Common.{
  ℕ, ◌+◌, ◌-◌, ◌*◌, Bool, true, false, not, ◌&&◌, ◌||◌, Option, none, some, List, [], ◌∷◌, ◌++◌,
  map, find?, any, ◌==◌, if◌then◌else◌, ok, Exec, Code, pure, throw, require_some, gets, modify,
  guard, ◌>>=◌, ◌>>◌, is_some, truthy, get_or, contains, domain, not_found, duplicate_key,
  bad_request, unauthorized_status, forbidden_status, conflict, invalid_phone, otp_not_found,
  otp_mismatch, otp_max_attempts, email_not_found, email_mismatch, email_max_attempts,
  refresh_token_invalid, phone_not_verified, date_of_birth_required, min_age_not_met,
  email_already_taken, no_pending_email,
}
use appforfixiyi.Store.{Mongo}
use appforfixiyi.Store.Database.{Db, store_created}
use appforfixiyi.Store.Entities.Auth.{
  User, UserRole, client, provider, UserStatus, active, UserSession, Device, logout, logout_all,
  revoked_by_user,
}
use appforfixiyi.Auth.Redis.{Redis, Contents}
use appforfixiyi.Auth.Codes.{
  IssueCodeOptions, IssueCodeResult, issued, cooling_down, rate_limited, InvalidReason, no_code,
  mismatch, max_attempts, VerifyCodeResult, valid, invalid, issue_code, verify_code,
}
use appforfixiyi.Auth.Sessions.{
  RequestContext, DeviceInput, RotateResult, success, rotate, revoke, revoke_all_for_user,
  find_active_by_id, list_active_for_user, get_devices_by_ids, create_session,
}
use appforfixiyi.Auth.Tokens.{AccessTokenClaims, RefreshTokenClaims, SignedToken, Jwt, sign_token}
use appforfixiyi.Auth.Age.{is_younger_than, epoch_day}

-- The names of the providers of messages, where `dev` and `fake` only show what they are given.
pub data ProviderName : Type 0 where
  dev fake real : ProviderName

pub record Env : Type 0 where
  pub is_production : Bool
  pub jwt_secret : ℕ
  pub jwt_refresh_secret : ℕ
  pub jwt_access_ttl : ℕ
  pub jwt_refresh_ttl : ℕ
  pub otp_secret : ℕ
  pub min_provider_age : ℕ
  pub sms_provider : ProviderName
  pub email_provider : ProviderName

pub data Sent : Type 0 where
  sms email_sent : (subject code : ℕ) → Sent

-- What the service is run on.
pub record Platform (T : Type 0) : Type 1 where
  pub mongo : Mongo
  pub redis : Redis
  pub hash : (secret subject code : ℕ) → ℕ
  pub access : Jwt T AccessTokenClaims
  pub refresh : Jwt T RefreshTokenClaims
  pub is_valid_phone_number : ℕ → Bool
  pub env : Env

pub record State (R : Type 0) : Type 0 where
  pub db : Db R
  pub redis : Contents
  pub sent : List Sent

pub record OtpRequestOutput : Type 0 where
  pub retry_after_seconds : ℕ
  pub dev_code : Option ℕ

pub record OtpVerifyInput : Type 0 where
  pub phone : ℕ
  pub code : ℕ
  pub device : Option DeviceInput

pub record UserDto : Type 0 where
  pub id : ℕ
  pub phone : ℕ
  pub phone_verified_at : Option ℕ
  pub email : Option ℕ
  pub email_verified_at : Option ℕ
  pub date_of_birth : Option ℕ
  pub roles : List UserRole
  pub status : UserStatus

pub record AuthTokensResult (T : Type 0) : Type 0 where
  pub access_token : T
  pub refresh_token : T
  pub expires_in : ℕ

pub record AuthSessionResult (T : Type 0) : Type 0 where
  pub tokens : AuthTokensResult T
  pub user : UserDto

pub record SessionView : Type 0 where
  pub doc : UserSession
  pub device_name : Option ℕ
  pub is_current : Bool

-- The namespaces of the codes, "phone" and "email".
abbrev pub phone_codes : ℕ
phone_codes = 0

abbrev pub email_codes : ℕ
email_codes = 1

abbrev pub phone_code_options : IssueCodeOptions
phone_code_options = record { ttl_seconds = 300; cooldown_seconds = 60; max_per_hour = 5 }

abbrev pub email_code_options : IssueCodeOptions
email_code_options = record { ttl_seconds = 900; cooldown_seconds = 60; max_per_hour = 5 }

abbrev pub max_verify_attempts : ℕ
max_verify_attempts = 5

abbrev pub otp_code_of : InvalidReason → Code
otp_code_of no_code = otp_not_found
otp_code_of mismatch = otp_mismatch
otp_code_of max_attempts = otp_max_attempts

abbrev pub email_code_of : InvalidReason → Code
email_code_of no_code = email_not_found
email_code_of mismatch = email_mismatch
email_code_of max_attempts = email_max_attempts

abbrev pub is_dev : ProviderName → Bool
is_dev dev = true
is_dev fake = true
is_dev real = false

abbrev pub should_expose_dev_code : Env → ProviderName → Bool
should_expose_dev_code env name = not env.is_production && is_dev name

abbrev pub is_provider : UserRole → Bool
is_provider provider = true
is_provider _ = false

abbrev pub by_id : ℕ → User → Bool
by_id i u = u.id == i

abbrev pub by_phone : ℕ → User → Bool
by_phone phone u = u.phone == phone

abbrev pub same_email : Option ℕ → Option ℕ → Bool
same_email (some a) (some b) = a == b
same_email _ _ = false

-- The unique indexes: `_id`, the phone, and the e-mail where there is one.
abbrev pub clashes : User → User → Bool
clashes a b = a.id == b.id || a.phone == b.phone || same_email a.email b.email

abbrev pub has_verified : (email : ℕ) → User → Bool
has_verified email u = same_email u.email (some email) && is_some u.email_verified_at

abbrev pub new_user : (fresh phone now : ℕ) → User
new_user fresh phone now = record {
  id = fresh;
  phone = phone;
  phone_verified_at = some now;
  email = none;
  email_verified_at = none;
  pending_email = none;
  date_of_birth = none;
  roles = client ∷ [];
  status = active;
}

abbrev pub phone_verified : (now : ℕ) → User → User
phone_verified now u = record u { phone_verified_at = some now }

abbrev pub as_provider : User → User
as_provider u = record u { roles = u.roles ++ provider ∷ [] }

abbrev pub email_verified : (now email : ℕ) → User → User
email_verified now email u = record u {
  email = some email;
  email_verified_at = some now;
  pending_email = none;
}

abbrev pub to_user_dto : User → UserDto
to_user_dto u = record {
  id = u.id;
  phone = u.phone;
  phone_verified_at = u.phone_verified_at;
  email = u.email;
  email_verified_at = u.email_verified_at;
  date_of_birth = u.date_of_birth;
  roles = u.roles;
  status = u.status;
}

abbrev pub device_name : Option Device → Option ℕ
device_name none = none
device_name (some d) = d.name

abbrev pub is_session_of : (user : ℕ) → Option UserSession → Bool
is_session_of user none = false
is_session_of user (some x) = x.user_id == user

abbrev pub is_other : (user : ℕ) → Option User → Bool
is_other user none = false
is_other user (some u) = not (u.id == user)

-- The unique index on the e-mail, at the save of a user that takes one.
abbrev pub is_taken : (user email : ℕ) → User → Bool
is_taken user email u = not (u.id == user) && same_email u.email (some email)

module _ {R : Type 0} where
  abbrev pub in_db : {A : Type 0} → Exec (Db R) A → Exec (State R) A
  in_db m s = ((m s.db).0, record s { db = (m s.db).1 })

  abbrev pub in_redis : {A : Type 0} → Exec Contents A → Exec (State R) A
  in_redis m s = ((m s.redis).0, record s { redis = (m s.redis).1 })

  abbrev pub send : Sent → Exec (State R) (Unit {0})
  send x = modify (λ s. record s { sent = x ∷ s.sent })

module _ {R T : Type 0} (p : Platform T) where
  unfoldable pub require_user : ℕ → Exec (State R) User
  require_user id s = require_some (p.mongo.find_one (by_id id) s.db.users) not_found s

  -- `user.save()`: the modified fields are written to the document with that id.
  unfoldable pub save : ℕ → (User → User) → Exec (State R) (Unit {0})
  save id f =
      modify
        (λ s. record s { db = record s.db { users = p.mongo.update_one (by_id id) f s.db.users } })

  -- What follows the issue of a code: it is sent, and shown where nothing is really sent.
  unfoldable pub send_code :
      (ℕ → Sent) → ProviderName → IssueCodeResult → Exec (State R) OtpRequestOutput
  send_code to name (issued code retry) = do
    send (to code)
    pure (record {
      retry_after_seconds = retry;
      dev_code = if should_expose_dev_code p.env name then some code else none;
    })
  send_code to name (cooling_down retry) =
      pure (record { retry_after_seconds = retry; dev_code = none })
  send_code to name (rate_limited retry) =
      pure (record { retry_after_seconds = retry; dev_code = none })

  unfoldable pub request_phone_otp : (now drawn phone : ℕ) → Exec (State R) OtpRequestOutput
  unfolding send_code
  request_phone_otp now drawn phone = do
    guard (p.is_valid_phone_number phone) (domain bad_request invalid_phone)
    result ←
        in_redis (
          issue_code p.redis p.hash p.env.otp_secret now phone_codes phone drawn phone_code_options)
    send_code (sms phone) p.env.sms_provider result

  unfoldable pub sign_tokens :
      (now : ℕ) → User → (session version : ℕ) → Exec (State R) (AuthTokensResult T)
  sign_tokens now u session version = do
    refresh ←
        sign_token p.refresh (now / 1000) p.env.jwt_refresh_secret p.env.jwt_refresh_ttl
          (record { sub = u.id; sid = session; rtv = version })
    access ←
        sign_token p.access (now / 1000) p.env.jwt_secret p.env.jwt_access_ttl
          (record { sub = u.id; sid = session; roles = u.roles })
    pure (record {
      access_token = access.token;
      refresh_token = refresh.token;
      expires_in = access.expires_at_seconds - now / 1000;
    })

  unfoldable pub issue_new_session :
      (now fresh_session fresh_device : ℕ)
      → User
      → Option DeviceInput
      → RequestContext
      → Exec (State R) (AuthSessionResult T)
  issue_new_session now fresh_session fresh_device u device context = do
    refresh ←
        sign_token p.refresh (now / 1000) p.env.jwt_refresh_secret p.env.jwt_refresh_ttl
          (record { sub = u.id; sid = fresh_session; rtv = 0 })
    in_db (
        create_session p.mongo fresh_device fresh_session u.id now
          (refresh.expires_at_seconds * 1000) device context)
    access ←
        sign_token p.access (now / 1000) p.env.jwt_secret p.env.jwt_access_ttl
          (record { sub = u.id; sid = fresh_session; roles = u.roles })
    pure (record {
      tokens = record {
        access_token = access.token;
        refresh_token = refresh.token;
        expires_in = access.expires_at_seconds - now / 1000;
      };
      user = to_user_dto u;
    })

  -- The account of a phone that was just verified: a new one, or the one there is.
  unfoldable pub verified_user : (now fresh phone : ℕ) → Option User → Exec (State R) User
  verified_user now fresh phone none = do
    made ← gets (λ s. p.mongo.create clashes (new_user fresh phone now) s.db.users)
    store_created made (λ c s. record s { db = record s.db { users = c } })
    pure (new_user fresh phone now)
  verified_user now fresh phone (some u) =
      if not (is_some u.phone_verified_at)
      then (do save u.id (phone_verified now); pure (phone_verified now u))
      else pure u

  -- `if (verification.status !== "valid") throw …`.
  abbrev pub require_valid : (InvalidReason → Code) → VerifyCodeResult → Exec (State R) (Unit {0})
  require_valid code_of valid = pure tt
  require_valid code_of (invalid reason) = throw (domain unauthorized_status (code_of reason))

  unfoldable pub verify_phone_otp :
      (now fresh fresh_session fresh_device : ℕ)
      → OtpVerifyInput
      → RequestContext
      → Exec (State R) (AuthSessionResult T)
  unfolding verified_user
  verify_phone_otp now fresh fresh_session fresh_device i context = do
    verification ← in_redis (
        verify_code p.redis p.hash p.env.otp_secret now phone_codes i.phone i.code
          max_verify_attempts)
    require_valid otp_code_of verification
    found ← gets (λ s. p.mongo.find_one (by_phone i.phone) s.db.users)
    u ← verified_user now fresh i.phone found
    issue_new_session now fresh_session fresh_device u i.device context

  abbrev pub require_success : RotateResult → Exec (State R) UserSession
  require_success (success x) = pure x
  require_success _ = throw (domain unauthorized_status refresh_token_invalid)

  unfoldable pub refresh : (now : ℕ) → T → RequestContext → Exec (State R) (AuthTokensResult T)
  refresh now token context = do
    claims ←
        require_some (p.refresh.verify (now / 1000) p.env.jwt_refresh_secret token)
          (domain unauthorized_status refresh_token_invalid)
    rotation ← in_db (rotate p.mongo claims.sid claims.rtv now context)
    session ← require_success rotation
    found ← gets (λ s. p.mongo.find_one (by_id claims.sub) s.db.users)
    u ← require_some found (domain unauthorized_status refresh_token_invalid)
    sign_tokens now u session.id session.token_version

  unfoldable pub log_out : (now session : ℕ) → Exec (State R) (Unit {0})
  log_out now session = in_db (revoke p.mongo now session logout)

  unfoldable pub log_out_all : (now user : ℕ) → Exec (State R) (Unit {0})
  log_out_all now user = in_db (revoke_all_for_user p.mongo now user logout_all none)

  unfoldable pub list_sessions : (user current : ℕ) → State R → List SessionView
  list_sessions user current s =
      let sessions = list_active_for_user p.mongo user s.db in
      let devices = get_devices_by_ids p.mongo (map (λ x. x.device_id) sessions) s.db in
      map
        (λ x. record {
          doc = x;
          device_name = device_name (find? (λ d. d.id == x.device_id) devices);
          is_current = x.id == current;
        })
        sessions

  unfoldable pub revoke_session : (now user session : ℕ) → Exec (State R) (Unit {0})
  revoke_session now user session = do
    found ← gets (λ s. find_active_by_id p.mongo session s.db)
    guard (is_session_of user found) not_found
    in_db (revoke p.mongo now session revoked_by_user)

  unfoldable pub get_me : (user : ℕ) → Exec (State R) UserDto
  get_me user = do u ← require_user user; pure (to_user_dto u)

  unfoldable pub update_me : (user date_of_birth : ℕ) → Exec (State R) UserDto
  update_me user date_of_birth = do
    u ← require_user user
    save u.id (λ u. record u { date_of_birth = some date_of_birth })
    pure (to_user_dto (record u { date_of_birth = some date_of_birth }))

  -- The checks on a user that asks to be a provider and is none yet.
  abbrev pub require_grantable : (now : ℕ) → User → Exec (State R) (Unit {0})
  require_grantable now u = do
    guard (is_some u.phone_verified_at) (domain forbidden_status phone_not_verified)
    born ← require_some u.date_of_birth (domain bad_request date_of_birth_required)
    guard (not (is_younger_than p.env.min_provider_age born (now / 86400000 + epoch_day)))
        (domain forbidden_status min_age_not_met)

  unfoldable pub become_provider : (now user : ℕ) → Exec (State R) UserDto
  become_provider now user = do
    u ← require_user user
    if any is_provider u.roles
        then pure (to_user_dto u)
        else do require_grantable now u; save u.id as_provider; pure (to_user_dto (as_provider u))

  unfoldable pub attach_email : (now drawn user email : ℕ) → Exec (State R) OtpRequestOutput
  unfolding send_code
  attach_email now drawn user email = do
    existing ← gets (λ s. p.mongo.find_one (has_verified email) s.db.users)
    guard (not (is_other user existing)) (domain conflict email_already_taken)
    u ← require_user user
    save u.id (λ u. record u { pending_email = some email })
    result ←
        in_redis (
          issue_code p.redis p.hash p.env.otp_secret now email_codes email drawn email_code_options)
    send_code (email_sent email) p.env.email_provider result

  -- An empty `pendingEmail` is none.
  unfoldable pub verify_email : (now user code : ℕ) → Exec (State R) UserDto
  verify_email now user code = do
    u ← require_user user
    guard (truthy u.pending_email) (domain bad_request no_pending_email)
    let email = get_or u.pending_email 0
    verification ←
        in_redis (
          verify_code p.redis p.hash p.env.otp_secret now email_codes email code
            max_verify_attempts)
    require_valid email_code_of verification
    taken ← gets (λ s. p.mongo.find_one (is_taken u.id email) s.db.users)
    guard (not (is_some taken)) duplicate_key
    save u.id (email_verified now email)
    pure (to_user_dto (email_verified now email u))
