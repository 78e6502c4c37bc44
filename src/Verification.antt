-- ===== src/Verification.antt =====
-- apps/api/src/verification/verification.service.ts: the cases by which providers and companies
-- are verified, their documents and the decisions on them.
pub mod Machine
pub mod Writes
pub mod Refinement
pub mod History
use appforfixiyi.Common.{
  ℕ, Bool, true, false, not, ◌&&◌, ◌||◌, Option, none, some, List, length, any, ◌==◌, leb,
  if◌then◌else◌, Exec, pure, gets, require_some, guard, modify, ◌>>=◌, ◌>>◌, not_found, forbidden,
  domain, bad_request, verification_document_not_uploaded, verification_no_documents,
  verification_invalid_transition, verification_case_not_editable, Text,
}
use appforfixiyi.Store.{Mongo}
use appforfixiyi.Store.Database.{Db, store_created}
use appforfixiyi.Store.Entities.Auth.{UserRole, verification_agent, admin, moderator}
use appforfixiyi.Store.Entities.Matching.{
  ProviderProfile, VerificationTargetType, provider, company, VerificationStatus, draft, in_review,
  needs_correction, verified, VerificationCase,
}
use appforfixiyi.Store.Entities.Companies.{
  VerificationDocument, VerificationDocumentType, VerificationDocumentStatus, pending_upload,
  uploaded, VerificationDecision, VerificationDecisionOutcome, approved, rejected,
  correction_requested, suspended,
}
use appforfixiyi.Storage.{
  Bucket, PresignedUpload, create_presigned_upload_url, object_exists, sanitize_file_name,
}
use appforfixiyi.Providers.{find_by_id as find_profile}
use appforfixiyi.Companies.{is_active_owner}

-- REVIEWER_ROLES and SUBMITTABLE_STATUSES.
abbrev pub is_reviewer : UserRole → Bool
is_reviewer verification_agent = true
is_reviewer admin = true
is_reviewer moderator = true
is_reviewer _ = false

abbrev pub is_submittable : VerificationStatus → Bool
is_submittable draft = true
is_submittable needs_correction = true
is_submittable _ = false

abbrev pub is_in_review : VerificationStatus → Bool
is_in_review in_review = true
is_in_review _ = false

abbrev pub is_verified : VerificationStatus → Bool
is_verified verified = true
is_verified _ = false

abbrev pub is_suspension : VerificationDecisionOutcome → Bool
is_suspension suspended = true
is_suspension _ = false

abbrev pub outcome_to_status : VerificationDecisionOutcome → VerificationStatus
outcome_to_status approved = verified
outcome_to_status rejected = VerificationStatus.rejected
outcome_to_status correction_requested = needs_correction
outcome_to_status suspended = VerificationStatus.suspended

-- `validTransition` of `decide`.
abbrev pub is_valid_transition : VerificationDecisionOutcome → VerificationStatus → Bool
is_valid_transition o a = if is_suspension o then is_verified a else is_in_review a

abbrev pub same_type : VerificationTargetType → VerificationTargetType → Bool
same_type provider provider = true
same_type company company = true
same_type _ _ = false

abbrev pub by_id : ℕ → VerificationCase → Bool
by_id i k = k.id == i

abbrev pub by_target : VerificationTargetType → ℕ → VerificationCase → Bool
by_target type target k = same_type k.target_type type && k.target_id == target

-- The unique indexes: `_id`, and the pair of `targetType` and `targetId`.
abbrev pub clashes : VerificationCase → VerificationCase → Bool
clashes a b = a.id == b.id || by_target a.target_type a.target_id b

abbrev pub document_by_id : ℕ → VerificationDocument → Bool
document_by_id i d = d.id == i

abbrev pub same_document_id : VerificationDocument → VerificationDocument → Bool
same_document_id a b = a.id == b.id

abbrev pub same_decision_id : VerificationDecision → VerificationDecision → Bool
same_decision_id a b = a.id == b.id

abbrev pub is_uploaded : VerificationDocumentStatus → Bool
is_uploaded uploaded = true
is_uploaded pending_upload = false

abbrev pub is_uploaded_for : ℕ → VerificationDocument → Bool
is_uploaded_for id d = d.case_id == id && is_uploaded d.status

abbrev pub new_case : (fresh : ℕ) → VerificationTargetType → (target : ℕ) → VerificationCase
new_case fresh type target = record {
  id = fresh;
  target_type = type;
  target_id = target;
  status = draft;
}

pub record RequestDocumentUploadInput : Type 0 where
  pub type : VerificationDocumentType
  pub file_name : Text
  pub content_type : ℕ
  pub size_bytes : ℕ

pub record RequestDocumentUploadOutput : Type 0 where
  pub document_id : ℕ
  pub upload : PresignedUpload
  pub object_key : ℕ

pub record SubmitVerificationDecisionInput : Type 0 where
  pub outcome : VerificationDecisionOutcome
  pub reason : Option ℕ

abbrev pub new_decision :
    (fresh id decided_by : ℕ) → SubmitVerificationDecisionInput → VerificationDecision
new_decision fresh id decided_by i = record {
  id = fresh;
  case_id = id;
  decided_by_user_id = decided_by;
  outcome = i.outcome;
  reason = i.reason;
}

abbrev pub new_document : (fresh id key : ℕ) → VerificationDocumentType → VerificationDocument
new_document fresh id key type = record {
  id = fresh;
  case_id = id;
  type = type;
  status = pending_upload;
  object_key = key;
}

-- `profile?.userId === userId`.
abbrev pub is_profile_of : Option ProviderProfile → ℕ → Bool
is_profile_of none user = false
is_profile_of (some p) user = p.user_id == user

module _ {R : Type 0} (mongo : Mongo) where
  unfoldable pub owns_target : VerificationTargetType → (target user : ℕ) → Db R → Bool
  owns_target provider target user s = is_profile_of (find_profile mongo target s) user
  owns_target company target user s = is_active_owner mongo target user s

  unfoldable pub assert_owns_target :
      VerificationTargetType → (target user : ℕ) → Exec (Db R) (Unit {0})
  assert_owns_target type target user = do
    owns ← gets (owns_target type target user)
    guard owns forbidden

  unfoldable pub require_case : ℕ → Exec (Db R) VerificationCase
  require_case id = do
    found ← gets (λ s. mongo.find_one (by_id id) s.cases)
    require_some found not_found

  unfoldable pub assert_can_view :
      VerificationCase → (actor : ℕ) → List UserRole → Exec (Db R) (Unit {0})
  assert_can_view k actor roles =
      if any is_reviewer roles then pure tt else assert_owns_target k.target_type k.target_id actor

  unfoldable pub get_owned_case_for_edit : (id actor : ℕ) → Exec (Db R) VerificationCase
  get_owned_case_for_edit id actor = do
    k ← require_case id
    assert_owns_target k.target_type k.target_id actor
    guard (is_submittable k.status) (domain bad_request verification_case_not_editable)
    pure k

  unfoldable pub create_case :
      (fresh : ℕ) → VerificationTargetType → (target : ℕ) → Exec (Db R) VerificationCase
  create_case fresh type target = do
    made ← gets (λ s. mongo.create clashes (new_case fresh type target) s.cases)
    store_created made (λ c s. record s { cases = c })
    pure (new_case fresh type target)

  unfoldable pub case_or_new :
      (fresh : ℕ)
      → VerificationTargetType
      → (target : ℕ) → Option VerificationCase
      → Exec (Db R) VerificationCase
  case_or_new fresh type target (some k) = pure k
  case_or_new fresh type target none = create_case fresh type target

  unfoldable pub get_or_create_case :
      (fresh : ℕ) → VerificationTargetType → (target actor : ℕ) → Exec (Db R) VerificationCase
  get_or_create_case fresh type target actor = do
    assert_owns_target type target actor
    existing ← gets (λ s. mongo.find_one (by_target type target) s.cases)
    case_or_new fresh type target existing

  unfoldable pub get_by_id : (id actor : ℕ) → List UserRole → Exec (Db R) VerificationCase
  get_by_id id actor roles = do k ← require_case id; assert_can_view k actor roles; pure k

  -- The lists are kept in the order of creation.
  unfoldable pub list_documents :
      (id actor : ℕ) → List UserRole → Exec (Db R) (List VerificationDocument)
  list_documents id actor roles = do
    k ← require_case id
    assert_can_view k actor roles
    gets (λ s. mongo.find (λ d. d.case_id == id) s.documents)

  unfoldable pub list_decisions :
      (id actor : ℕ) → List UserRole → Exec (Db R) (List VerificationDecision)
  list_decisions id actor roles = do
    k ← require_case id
    assert_can_view k actor roles
    gets (λ s. mongo.find (λ d. d.case_id == id) s.decisions)

  unfoldable pub request_document_upload :
      Bucket
      → (fresh id actor : ℕ) → RequestDocumentUploadInput
      → Exec (Db R) RequestDocumentUploadOutput
  request_document_upload bucket fresh id actor i = do
    k ← get_owned_case_for_edit id actor
    made ← gets (λ s.
        mongo.create same_document_id
          (new_document fresh k.id (bucket.object_key k.id fresh (sanitize_file_name i.file_name))
            i.type)
          s.documents)
    store_created made (λ c s. record s { documents = c })
    pure (record {
      document_id = fresh;
      upload =
          create_presigned_upload_url bucket
            (bucket.object_key k.id fresh (sanitize_file_name i.file_name)) i.content_type
            i.size_bytes;
      object_key = bucket.object_key k.id fresh (sanitize_file_name i.file_name);
    })

  unfoldable pub confirm_document_upload :
      Bucket → (id actor : ℕ) → Exec (Db R) VerificationDocument
  confirm_document_upload bucket id actor = do
    found ← gets (λ s. mongo.find_one (document_by_id id) s.documents)
    d ← require_some found not_found
    get_owned_case_for_edit d.case_id actor
    guard (object_exists bucket d.object_key)
        (domain bad_request verification_document_not_uploaded)
    modify (λ s. record s {
      documents =
          mongo.update_one (document_by_id d.id) (λ e. record e { status = uploaded }) s.documents;
    })
    pure (record d { status = uploaded })

  -- `kase.save()`.
  unfoldable pub save : ℕ → VerificationStatus → Exec (Db R) (Unit {0})
  save id status = modify (λ s. record s {
    cases = mongo.update_one (by_id id) (λ k. record k { status = status }) s.cases;
  })

  unfoldable pub submit : (id actor : ℕ) → Exec (Db R) VerificationCase
  submit id actor = do
    k ← get_owned_case_for_edit id actor
    count ← gets (λ s. length (mongo.find (is_uploaded_for k.id) s.documents))
    guard (not (count == 0)) (domain bad_request verification_no_documents)
    save k.id in_review
    pure (record k { status = in_review })

  unfoldable pub record_decision : VerificationDecision → Exec (Db R) (Unit {0})
  record_decision d = do
    made ← gets (λ s. mongo.create same_decision_id d s.decisions)
    store_created made (λ c s. record s { decisions = c })

  unfoldable pub decide :
      (fresh id decided_by : ℕ) → SubmitVerificationDecisionInput → Exec (Db R) VerificationCase
  decide fresh id decided_by i = do
    k ← require_case id
    guard (is_valid_transition i.outcome k.status)
        (domain bad_request verification_invalid_transition)
    record_decision (new_decision fresh k.id decided_by i)
    save k.id (outcome_to_status i.outcome)
    pure (record k { status = outcome_to_status i.outcome })
