-- ===== src/Tests/Verification.antt =====
-- A company with its members and a provider's verification case on the small database.
use appforfixiyi.Common.{ℕ, ◌≡◌, ◌≤◌, count, refl, none, some, List, [], ◌∷◌, arith, codes}
use appforfixiyi.Store.{in_memory}
use appforfixiyi.Store.Database.{Db}
use appforfixiyi.Store.Entities.Matching.{provider, verified}
use appforfixiyi.Store.Entities.Companies.{
  Company, CompanyStatus, CompanyMember, owner, technician, active, invited, identity, approved,
}
use appforfixiyi.Storage.{Bucket, object_exists, head_object, sanitize_file_name}
use appforfixiyi.Companies.{
  remove_member, assert_is_active_owner, is_active_owner, find_member, check_last_owner, save,
  by_id,
}
use appforfixiyi.Companies.Owners.{Call, create_call, remove_call, AllOwned, run, run-AllOwned}
use appforfixiyi.Verification.{
  get_or_create_case, request_document_upload, confirm_document_upload, submit, decide, owns_target,
  assert_owns_target, require_case, get_owned_case_for_edit, create_case, case_or_new,
  record_decision, save as save_case,
}
use appforfixiyi.Providers.{find_by_id}
use appforfixiyi.Verification.Machine.{view, CaseStep}
use appforfixiyi.Verification.Refinement as Cases
use appforfixiyi.Verification.Refinement.{
  open_call, upload_call, confirm_call, submit_call, decide_call, run-CaseStep,
}
use appforfixiyi.Verification.History.{IsExplained, run_all, run_all-IsExplained}
use appforfixiyi.Tests.{sample}

abbrev firm : Company
firm = record {
  id = 70;
  name = 1;
  legal_name = none;
  registration_number = none;
  representative_user_id = 7;
  status = CompanyStatus.active;
}

abbrev boss : CompanyMember
boss = record {
  id = 71;
  company_id = 70;
  user_id = 7;
  role = owner;
  status = active;
  invited_at = 1;
  joined_at = some 1;
}

abbrev hand : CompanyMember
hand = record boss { id = 72; user_id = 8; role = technician; status = invited; joined_at = none }

abbrev trade : Db ℕ
trade = record sample { companies = firm ∷ []; members = boss ∷ hand ∷ [] }

abbrev founding : Call
founding =
    create_call 73 74 8 5 (record { name = 2; legal_name = none; registration_number = none })

one_member : (i : ℕ) → count (by_id i) (boss ∷ hand ∷ []) ≤ 1
one_member i = ground arith

run-AllOwned_example : AllOwned (run in_memory founding trade)
run-AllOwned_example = run-AllOwned in_memory founding trade one_member refl (omega arith, tt)

-- The only owner cannot be removed, the invited technician can.
remove_owner : run in_memory (remove_call 70 7 71) trade ≡ trade
unfolding run remove_member assert_is_active_owner is_active_owner find_member check_last_owner save
remove_owner = refl

abbrev pub full_bucket : Bucket
full_bucket = record {
  prefix = λ _ _. 0xff ∷ 0xd8 ∷ 0xff ∷ [];
  image_size = λ _. none;
  content_length = λ _. some 9;
  sign_put = λ k _ _. k;
  sign_get = λ k. k;
  object_key = λ _ i _. i;
}

abbrev calls : List (Bucket × Cases.Call)
calls =
    (full_bucket, open_call 80 provider 20 21)
    ∷ (
      full_bucket,
      upload_call 81 80 21 (record {
        type = identity;
        file_name = codes "id.png";
        content_type = 2;
        size_bytes = 3;
      }),
    )
    ∷ (full_bucket, confirm_call 81 21)
    ∷ (full_bucket, submit_call 80 21)
    ∷ (full_bucket, decide_call 82 80 99 (record { outcome = approved; reason = none }))
    ∷ []

verified_at_the_end : (view 80 (run_all in_memory calls trade)).status ≡ some verified
unfolding run_all Cases.run get_or_create_case request_document_upload confirm_document_upload
    submit decide owns_target assert_owns_target require_case get_owned_case_for_edit create_case
    case_or_new record_decision save_case find_by_id object_exists head_object sanitize_file_name
verified_at_the_end = refl

run-CaseStep_example :
    CaseStep
      (view 80 trade)
      (view 80 (Cases.run in_memory full_bucket (open_call 80 provider 20 21) trade))
run-CaseStep_example = run-CaseStep in_memory full_bucket (open_call 80 provider 20 21) trade 80

run_all-IsExplained_example : IsExplained (view 80 (run_all in_memory calls trade))
run_all-IsExplained_example = run_all-IsExplained in_memory calls trade (λ i. refl) 80
