-- ===== src/Store/Entities/Companies.antt =====
-- apps/api/src/companies/schemas/*.schema.ts, verification/schemas/verification-document.schema.ts
-- and verification-decision.schema.ts, with their enumerations in packages/contracts/src.
use appforfixiyi.Common.{ℕ, Option}

pub data CompanyStatus : Type 0 where
  active suspended : CompanyStatus

pub record Company : Type 0 where
  pub id : ℕ
  pub name : ℕ
  pub legal_name : Option ℕ
  pub registration_number : Option ℕ
  pub representative_user_id : ℕ
  pub status : CompanyStatus

pub data CompanyMemberRole : Type 0 where
  owner member technician : CompanyMemberRole

pub data CompanyMemberStatus : Type 0 where
  invited active removed : CompanyMemberStatus

pub record CompanyMember : Type 0 where
  pub id : ℕ
  pub company_id : ℕ
  pub user_id : ℕ
  pub role : CompanyMemberRole
  pub status : CompanyMemberStatus
  pub invited_at : ℕ
  pub joined_at : Option ℕ

pub data VerificationDocumentType : Type 0 where
  identity proof_of_address professional_certificate company_registration : VerificationDocumentType
  other : VerificationDocumentType

pub data VerificationDocumentStatus : Type 0 where
  pending_upload uploaded : VerificationDocumentStatus

pub record VerificationDocument : Type 0 where
  pub id : ℕ
  pub case_id : ℕ
  pub type : VerificationDocumentType
  pub status : VerificationDocumentStatus
  pub object_key : ℕ

pub data VerificationDecisionOutcome : Type 0 where
  approved rejected correction_requested suspended : VerificationDecisionOutcome

pub record VerificationDecision : Type 0 where
  pub id : ℕ
  pub case_id : ℕ
  pub decided_by_user_id : ℕ
  pub outcome : VerificationDecisionOutcome
  pub reason : Option ℕ
