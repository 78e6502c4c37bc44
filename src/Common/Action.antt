-- ===== src/Common/Action.antt =====
-- Errors (apps/api/src/common/exceptions/domain-http.exception.ts and Nest's built-in exceptions),
-- and the state monad of the services: what was written before a throw stays written, so an action
-- returns the state beside its value or its error.
use Prim.Native.Nat.{ℕ}
use mathlib.Core.Path.{◌≡◌, refl}
use mathlib.Core.Logic.{◌⊎◌, inl, inr}
use mathlib.Core.Bool.{Bool, true, false}
use mathlib.Core.Option.{Option, none, some}

-- The problem codes of the services.
pub data Code : Type 0 where
  request_not_matchable request_incomplete request_not_cancellable request_not_editable : Code
  request_service_invalid request_intervention_type_requires_service : Code
  request_intervention_type_invalid request_complexity_requires_intervention_type : Code
  request_complexity_invalid match_radius_not_wider match_already_declined match_not_active : Code
  verification_document_not_uploaded verification_no_documents : Code
  verification_invalid_transition verification_case_not_editable : Code
  refresh_token_invalid email_already_taken no_pending_email phone_not_verified : Code
  date_of_birth_required min_age_not_met invalid_phone rate_limited csrf_token_mismatch : Code
  otp_not_found otp_mismatch otp_max_attempts : Code
  email_not_found email_mismatch email_max_attempts : Code
  company_member_already_exists company_last_owner user_not_found : Code
  catalog_parent_not_allowed catalog_parent_required catalog_parent_invalid : Code
  catalog_required_skills_not_allowed catalog_skill_invalid : Code
  provider_profile_already_exists provider_skill_invalid provider_service_invalid : Code
  media_content_type_not_allowed media_size_limit_exceeded media_already_finalized : Code
  media_not_uploaded media_not_attachable media_not_in_conversation : Code
  conversation_not_dispatched conversation_closed conversation_candidate_required : Code
  reply_target_not_found message_deleted message_edit_window_closed : Code
  message_delete_window_closed : Code

-- `duplicate_key` is the error 11000 of MongoDB on a unique index; `diverges` stands for a handler
-- that never returns; `internal_error` for an error that is no HTTP exception.
pub data Failure : Type 0 where
  unauthorized forbidden not_found duplicate_key diverges internal_error : Failure
  domain : (status : ℕ) → Code → Failure

pub data Result {ℓ} (A : Type ℓ) : Type ℓ where
  ok : A → Result A
  err : Failure → Result A

abbrev pub is_ok {ℓ} : {A : Type ℓ} → Result A → Bool
is_ok (ok _) = true
is_ok (err _) = false

-- `HttpStatus`.
abbrev pub bad_request : ℕ
bad_request = 400

abbrev pub unauthorized_status : ℕ
unauthorized_status = 401

abbrev pub forbidden_status : ℕ
forbidden_status = 403

abbrev pub not_found_status : ℕ
not_found_status = 404

abbrev pub conflict : ℕ
conflict = 409

abbrev pub too_many_requests : ℕ
too_many_requests = 429

abbrev pub Exec : Type 0 → Type 0 → Type 0
Exec S A = S → Result A × S

module _ {S A : Type 0} where
  abbrev pub pure : A → Exec S A
  pure a s = (ok a, s)

  abbrev pub throw : Failure → Exec S A
  throw e s = (err e, s)

  -- `if (!doc) throw …`, else go on with the value.
  abbrev pub require_some : Option A → Failure → Exec S A
  require_some none e s = (err e, s)
  require_some (some a) e s = (ok a, s)

  abbrev pub gets : (S → A) → Exec S A
  gets f s = (ok (f s), s)

module _ {S : Type 0} where
  abbrev pub modify : (S → S) → Exec S (Unit {0})
  modify f s = (ok tt, f s)

  -- `if (!test) throw …`.
  abbrev pub guard : Bool → Failure → Exec S (Unit {0})
  guard true e s = (ok tt, s)
  guard false e s = (err e, s)

module _ {S A B : Type 0} where
  abbrev pub continue : Result A → (A → Exec S B) → Exec S B
  continue (ok a) f s = f a s
  continue (err e) f s = (err e, s)

  infixl 5 ◌>>=◌ ◌>>◌
  abbrev pub ◌>>=◌ : Exec S A → (A → Exec S B) → Exec S B
  ◌>>=◌ m f s = continue (m s).0 f (m s).1

  abbrev pub ◌>>◌ : Exec S A → Exec S B → Exec S B
  m >> n = m >>= λ _. n

pub Result-cases {ℓ} :
    {A : Type ℓ} (r : Result A) → ((a : A) × (r ≡ ok a)) ⊎ ((e : Failure) × (r ≡ err e))
Result-cases (ok a) = inl (a, refl)
Result-cases (err e) = inr (e, refl)
