-- ===== src/Auth/Tokens.antt =====
-- apps/api/src/auth/token/token.service.ts: access and refresh tokens. The package jsonwebtoken is a
-- parameter, one instance for the claims of each kind of token, which has a secret of its own.
-- Seconds count from the epoch; a time to live is the configured text, read as seconds.
use appforfixiyi.Common.{
  ℕ, ◌+◌, ◌<◌, ◌≡◌, Option, some, List, Exec, pure, require_some, internal_error, ◌>>=◌,
}
use appforfixiyi.Store.Entities.Auth.{UserRole}

pub record AccessTokenClaims : Type 0 where
  pub sub : ℕ
  pub sid : ℕ
  pub roles : List UserRole

pub record RefreshTokenClaims : Type 0 where
  pub sub : ℕ
  pub sid : ℕ
  pub rtv : ℕ

pub record SignedToken (T : Type 0) : Type 0 where
  pub token : T
  pub expires_at_seconds : ℕ

-- `sign`, `verify` (which throws where it answers `none` here) and the `exp` that `decode` reads.
pub record Jwt (T C : Type 0) : Type 0 where
  pub sign : (now secret ttl : ℕ) → C → T
  pub verify : (now secret : ℕ) → T → Option C
  pub decode_exp : T → Option ℕ
  pub verify_sign :
      (now later secret ttl : ℕ) (c : C)
      → later < now + ttl
      → verify later secret (sign now secret ttl c) ≡ some c
  pub decode_sign :
      (now secret ttl : ℕ) (c : C) → decode_exp (sign now secret ttl c) ≡ some (now + ttl)

module _ {T C : Type 0} (jwt : Jwt T C) where
  unfoldable pub decode_expiry : {S : Type 0} → T → Exec S ℕ
  decode_expiry token = require_some (jwt.decode_exp token) internal_error

  unfoldable pub sign_token : {S : Type 0} → (now secret ttl : ℕ) → C → Exec S (SignedToken T)
  sign_token now secret ttl claims = do
    exp ← decode_expiry (jwt.sign now secret ttl claims)
    pure (record { token = jwt.sign now secret ttl claims; expires_at_seconds = exp })
