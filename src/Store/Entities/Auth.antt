-- ===== src/Store/Entities/Auth.antt =====
-- apps/api/src/auth/schemas/*.schema.ts and the roles of packages/contracts/src/user.ts.
use appforfixiyi.Common.{ℕ, Option, List}

pub data UserRole : Type 0 where
  client provider company_member support verification_agent moderator dispute_agent : UserRole
  finance_agent manager admin super_admin : UserRole

pub data UserStatus : Type 0 where
  active deactivated : UserStatus

-- The date of birth is a day, counted as in Auth/Age.
pub record User : Type 0 where
  pub id : ℕ
  pub phone : ℕ
  pub phone_verified_at : Option ℕ
  pub email : Option ℕ
  pub email_verified_at : Option ℕ
  pub pending_email : Option ℕ
  pub date_of_birth : Option ℕ
  pub roles : List UserRole
  pub status : UserStatus

pub data SessionStatus : Type 0 where
  active revoked : SessionStatus

pub data SessionRevokedReason : Type 0 where
  logout logout_all reuse_detected revoked_by_user : SessionRevokedReason

pub record UserSession : Type 0 where
  pub id : ℕ
  pub user_id : ℕ
  pub device_id : ℕ
  pub token_version : ℕ
  pub status : SessionStatus
  pub revoked_reason : Option SessionRevokedReason
  pub revoked_at : Option ℕ
  pub ip : Option ℕ
  pub user_agent : Option ℕ
  pub last_used_at : ℕ
  pub expires_at : ℕ

pub record Device : Type 0 where
  pub id : ℕ
  pub user_id : ℕ
  pub name : Option ℕ
  pub user_agent : Option ℕ
  pub last_seen_ip : Option ℕ
  pub last_seen_at : ℕ
