-- ===== src/Tests/Accounts.antt =====
-- The accounts of the small database, with tokens that carry their claims.
use appforfixiyi.Common.{
  ℕ, ◌+◌, ◌<◌, ◌≡◌, refl, true, ◌&&◌, Option, none, some, [], ◌∷◌, ◌==◌, ltb, if◌then◌else◌, arith,
  Result, ok, map,
}
use appforfixiyi.Store.{in_memory}
use appforfixiyi.Store.Entities.Auth.{User, client, provider, active}
use appforfixiyi.Auth.Redis.{test_redis}
use appforfixiyi.Auth.Tokens.{AccessTokenClaims, RefreshTokenClaims, Jwt, sign_token, decode_expiry}
use appforfixiyi.Auth.Sessions.{
  RequestContext, create_session, upsert_device, upsert_found, create_device, find_own_device,
}
use appforfixiyi.Auth.Age.{is_younger_than}
use appforfixiyi.Auth.Accounts.{
  Platform, State, real, become_provider, require_user, save, AuthSessionResult, request_phone_otp,
  verify_phone_otp, send_code, verified_user, issue_new_session, to_user_dto,
}
use appforfixiyi.Auth.Accounts.Evolution.{become_provider_call, run, AllGranted}
use appforfixiyi.Auth.Accounts.Roles.{run-AllGranted}
use appforfixiyi.Auth.Accounts.Renewal.{IsHonouredOnce, login-refresh}
use appforfixiyi.Auth.RateLimit.{consume, answer as limit_answer}
use appforfixiyi.Auth.Codes.{
  issue_code, issue_limited, store_code, verify_code, verify_stored, count_attempt,
}
use appforfixiyi.Tests.{sample}

data Token : Type 0 where
  signed_access : AccessTokenClaims → (secret exp : ℕ) → Token
  signed_refresh : RefreshTokenClaims → (secret exp : ℕ) → Token

abbrev exp_of : Token → ℕ
exp_of (signed_access c secret exp) = exp
exp_of (signed_refresh c secret exp) = exp

abbrev read_access : (now secret : ℕ) → Token → Option AccessTokenClaims
read_access now secret (signed_access c s exp) = if secret == s && ltb now exp then some c else none
read_access now secret (signed_refresh c s exp) = none

abbrev read_refresh : (now secret : ℕ) → Token → Option RefreshTokenClaims
read_refresh now secret (signed_refresh c s exp) =
    if secret == s && ltb now exp then some c else none
read_refresh now secret (signed_access c s exp) = none

readable : (later secret exp : ℕ) → later < exp → (secret == secret && ltb later exp) ≡ true
readable later secret exp h = ground arith

abbrev access_tokens : Jwt Token AccessTokenClaims
access_tokens = record {
  sign = λ now secret ttl c. signed_access c secret (now + ttl);
  verify = λ now secret t. read_access now secret t;
  decode_exp = λ t. some (exp_of t);
  verify_sign = λ now later secret ttl c h. rw (readable later secret (now + ttl) h);
  decode_sign = λ now secret ttl c. refl;
}

abbrev refresh_tokens : Jwt Token RefreshTokenClaims
refresh_tokens = record {
  sign = λ now secret ttl c. signed_refresh c secret (now + ttl);
  verify = λ now secret t. read_refresh now secret t;
  decode_exp = λ t. some (exp_of t);
  verify_sign = λ now later secret ttl c h. rw (readable later secret (now + ttl) h);
  decode_sign = λ now secret ttl c. refl;
}

abbrev platform : Platform Token
platform = record {
  mongo = in_memory;
  redis = test_redis;
  hash = λ secret subject code. secret + subject + code;
  access = access_tokens;
  refresh = refresh_tokens;
  is_valid_phone_number = λ phone. ltb 0 phone;
  env = record {
    is_production = true;
    jwt_secret = 1;
    jwt_refresh_secret = 2;
    jwt_access_ttl = 900;
    jwt_refresh_ttl = 2592000;
    otp_secret = 3;
    min_provider_age = 18;
    sms_provider = real;
    email_provider = real;
  };
}

-- Born on 1 January 1970.
abbrev grown_up : User
grown_up = record {
  id = 7;
  phone = 600;
  phone_verified_at = some 10;
  email = none;
  email_verified_at = none;
  pending_email = none;
  date_of_birth = some 719468;
  roles = client ∷ [];
  status = active;
}

abbrev accounts : State ℕ
accounts = record { db = record sample { users = grown_up ∷ [] }; redis = λ k. none; sent = [] }

-- The noon of 1 January 1988.
abbrev noon : ℕ
noon = 568036800000

run-AllGranted_example :
    AllGranted platform.env noon accounts.db.users
      (run platform noon (become_provider_call 7) accounts).db.users
run-AllGranted_example = run-AllGranted platform noon (become_provider_call 7) accounts

granted :
    map (λ u. u.roles) (run platform noon (become_provider_call 7) accounts).db.users
    ≡ (client ∷ provider ∷ []) ∷ []
unfolding run become_provider require_user save is_younger_than
granted = refl

-- A code that was issued for the phone 600, which is the code 1234.
abbrev awaited : State ℕ
awaited = record accounts { redis = (request_phone_otp platform 0 1234 600 accounts).1.redis }

abbrev logged_in : Result (AuthSessionResult Token) × State ℕ
logged_in =
    verify_phone_otp platform 2000 70 71 72 (record { phone = 600; code = 1234; device = none })
      (record { ip = none; user_agent = none }) awaited

abbrev answer : AuthSessionResult Token
answer = record {
  tokens = record {
    access_token = signed_access (record { sub = 7; sid = 71; roles = client ∷ [] }) 1 902;
    refresh_token = signed_refresh (record { sub = 7; sid = 71; rtv = 0 }) 2 2592002;
    expires_in = 900;
  };
  user = to_user_dto grown_up;
}

logs_in : logged_in.0 ≡ ok answer
unfolding request_phone_otp issue_code issue_limited store_code consume limit_answer send_code
    verify_phone_otp verify_code verify_stored count_attempt verified_user save issue_new_session
    sign_token decode_expiry create_session upsert_device upsert_found create_device find_own_device
logs_in = refl

abbrev browser : RequestContext
browser = record { ip = none; user_agent = none }

login-refresh_example :
    IsHonouredOnce platform 2000 71 answer 60000 90000 browser browser logged_in.1
login-refresh_example =
    login-refresh platform 2000 70 71 72 60000 90000
      (record { phone = 600; code = 1234; device = none }) browser browser browser awaited
      {r = answer} logs_in (omega arith) (omega arith)
