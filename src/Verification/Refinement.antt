-- ===== src/Verification/Refinement.antt =====
-- The calls of apps/api/src/verification/verification.service.ts refine the abstract machine of a
-- case.
use appforfixiyi.Common.{
  ℕ, ◌≤◌, ◌≡◌, refl, true, false, some, [], ◌∷◌, ◌++◌, inl, inr, ◌⊎◌, arith, ◌==◌, Bool-cases,
  Option-cases, find?, any, count, length-filter, key_of_find, Failure, ok, err, not_found,
  forbidden, domain, bad_request, verification_case_not_editable,
}
use appforfixiyi.Store.{Mongo}
use appforfixiyi.Store.Database.{Db}
use appforfixiyi.Store.Entities.Matching.{
  VerificationTargetType, VerificationStatus, in_review, verified, VerificationCase,
}
use appforfixiyi.Store.Entities.Companies.{
  VerificationDocument, VerificationDecisionOutcome, approved, rejected, correction_requested,
  suspended,
}
use appforfixiyi.Storage.{Bucket, object_exists, sanitize_file_name}
use appforfixiyi.Verification.{
  by_id, by_target, clashes, document_by_id, same_document_id, same_decision_id, is_uploaded_for,
  is_submittable, is_valid_transition, outcome_to_status, new_case, new_document, new_decision,
  RequestDocumentUploadInput, SubmitVerificationDecisionInput, owns_target, assert_owns_target,
  require_case, get_owned_case_for_edit, create_case, case_or_new, get_or_create_case,
  request_document_upload, confirm_document_upload, save, submit, record_decision, decide,
}
use appforfixiyi.Verification.Machine.{
  View, view, is_open, CaseStep, stay, handed_in, judged, withdrawn,
}
use appforfixiyi.Verification.Writes.{
  case_opened, document_requested, document_confirmed, view-moved, view-judged,
}

-- The calls that write cases, documents and decisions.
pub data Call : Type 0 where
  open_call : (fresh : ℕ) → VerificationTargetType → (target actor : ℕ) → Call
  upload_call : (fresh id actor : ℕ) → RequestDocumentUploadInput → Call
  confirm_call : (id actor : ℕ) → Call
  submit_call : (id actor : ℕ) → Call
  decide_call : (fresh id decided_by : ℕ) → SubmitVerificationDecisionInput → Call

-- The step of a decision that was written, by its outcome.
decision_step :
    (o : VerificationDecisionOutcome) (a : VerificationStatus) (v : View)
    → v.status ≡ some a
    → is_valid_transition o a ≡ true
    → CaseStep v (record v { status = some (outcome_to_status o); outcomes = v.outcomes ++ o ∷ [] })
decision_step suspended verified v h e = withdrawn h refl
decision_step approved in_review v h e = judged approved h refl refl
decision_step rejected in_review v h e = judged rejected h refl refl
decision_step correction_requested in_review v h e = judged correction_requested h refl refl
decision_step _ _ v h e = absurd (cc)

module _ {R : Type 0} (mongo : Mongo) where
  -- The bucket is the one that the call meets.
  unfoldable pub run : Bucket → Call → Db R → Db R
  run bucket (open_call fresh type target actor) s =
      (get_or_create_case mongo fresh type target actor s).1
  run bucket (upload_call fresh id actor i) s =
      (request_document_upload mongo bucket fresh id actor i s).1
  run bucket (confirm_call id actor) s = (confirm_document_upload mongo bucket id actor s).1
  run bucket (submit_call id actor) s = (submit mongo id actor s).1
  run bucket (decide_call fresh id decided_by i) s = (decide mongo fresh id decided_by i s).1

  require_case-cases :
      (id : ℕ) (s : Db R)
      → ((e : Failure) × (require_case mongo id s ≡ (err e, s)))
        ⊎ ((k : VerificationCase) × (require_case mongo id s ≡ (ok k, s))
            × (k.id ≡ id)
            × (find? (by_id id) s.cases ≡ some k))
  unfolding require_case
  require_case-cases id s = elim (Option-cases (find? (by_id id) s.cases)) [
    | inl e ↦ inl (not_found, rw (mongo.find_one_lem, e))
    | inr (k, e) ↦ inr (
      k,
      rw (mongo.find_one_lem, e),
      key_of_find {A = VerificationCase} (λ k. k.id) id s.cases {x = k} e,
      e,
    )
  ]

  owned-cases :
      (id actor : ℕ) (s : Db R)
      → ((e : Failure) × (get_owned_case_for_edit mongo id actor s ≡ (err e, s)))
        ⊎ ((k : VerificationCase) × (get_owned_case_for_edit mongo id actor s ≡ (ok k, s))
            × (k.id ≡ id)
            × (find? (by_id id) s.cases ≡ some k)
            × (is_submittable k.status ≡ true))
  unfolding get_owned_case_for_edit assert_owns_target
  owned-cases id actor s = elim (require_case-cases id s) [
    | inl (e, h) ↦ inl (e, rw h)
    | inr (k, h, same, found) ↦
        elim (Bool-cases (owns_target mongo k.target_type k.target_id actor s)) [
          | inr no' ↦ inl (forbidden, rw (h, no'))
          | inl own ↦ elim (Bool-cases (is_submittable k.status)) [
            | inr closed ↦
                inl (domain bad_request verification_case_not_editable, rw (h, own, closed))
            | inl open' ↦ inr (k, rw (h, own, open'), same, found, open')
          ]
        ]
  ]

  module _ (i : ℕ) where
    open_step :
        (fresh : ℕ) (type : VerificationTargetType) (target actor : ℕ) (s : Db R)
        → CaseStep (view i s) (view i (get_or_create_case mongo fresh type target actor s).1)
    unfolding get_or_create_case assert_owns_target case_or_new create_case
    open_step fresh type target actor s =
        elim (Bool-cases (owns_target mongo type target actor s)) [
          | inr no' ↦ rw no' (stay refl)
          | inl own ↦ elim (Option-cases (mongo.find_one (by_target type target) s.cases)) [
            | inr (k, e) ↦ rw (own, e) (stay refl)
            | inl e ↦ elim (Bool-cases (any (clashes (new_case fresh type target)) s.cases)) [
              | inl taken ↦ rw (own, e, mongo.create_lem, taken) (stay refl)
              | inr free ↦ rw (own, e, mongo.create_lem, free) (case_opened i s fresh type target)
            ]
          ]
        ]

    upload_step :
        (bucket : Bucket) (fresh id actor : ℕ) (u : RequestDocumentUploadInput) (s : Db R)
        → CaseStep (view i s) (view i (request_document_upload mongo bucket fresh id actor u s).1)
    unfolding request_document_upload
    upload_step bucket fresh id actor u s = elim (owned-cases id actor s) [
      | inl (e, h) ↦ rw h (stay refl)
      | inr (k, h, _, _, _) ↦
          let key = bucket.object_key k.id fresh (sanitize_file_name u.file_name) in
          elim (Bool-cases
            (any (same_document_id (new_document fresh k.id key u.type)) s.documents)) [
              | inl taken ↦ rw (h, mongo.create_lem, taken) (stay refl)
              | inr free ↦
                  rw (h, mongo.create_lem, free)
                    (stay (document_requested i s fresh k.id key u.type))
            ]
    ]

    -- A case that may be edited is open in the machine.
    open_view :
        (id : ℕ) (s : Db R) {k : VerificationCase}
        → find? (by_id id) s.cases ≡ some k
        → is_submittable k.status ≡ true
        → id ≡ i
        → is_open (view i s).status ≡ true
    open_view id s found o e = rw (← e, found) o

    confirm_step :
        (bucket : Bucket) (id actor : ℕ) (s : Db R)
        → CaseStep (view i s) (view i (confirm_document_upload mongo bucket id actor s).1)
    unfolding confirm_document_upload
    confirm_step bucket id actor s = elim (Option-cases (find? (document_by_id id) s.documents)) [
      | inl e ↦ rw (mongo.find_one_lem, e) (stay refl)
      | inr (d, e) ↦ elim (owned-cases d.case_id actor s) [
        | inl (x, h) ↦ rw (mongo.find_one_lem, e, h) (stay refl)
        | inr (k, h, _, found, o) ↦ elim (Bool-cases (object_exists bucket d.object_key)) [
          | inr gone ↦ rw (mongo.find_one_lem, e, h, gone) (stay refl)
          | inl there ↦
              let same =
                key_of_find {A = VerificationDocument} (λ d. d.id) id s.documents {x = d} e in
              rw (mongo.find_one_lem, e, h, there, same, mongo.update_one_lem)
                (document_confirmed i s id e (open_view d.case_id s found o))
        ]
      ]
    ]

    submit_step :
        (id actor : ℕ) (s : Db R) → CaseStep (view i s) (view i (submit mongo id actor s).1)
    unfolding submit save
    submit_step id actor s = elim (owned-cases id actor s) [
      | inl (e, h) ↦ rw h (stay refl)
      | inr (k, h, same, found, o) ↦
          elim (Bool-cases (count (is_uploaded_for id) s.documents == 0)) [
            | inl zero' ↦
                rw (h, same, mongo.find_lem, length-filter (is_uploaded_for id) s.documents, zero')
                  (stay refl)
            | inr some' ↦
                rw
                  (
                    h,
                    same,
                    mongo.find_lem,
                    length-filter (is_uploaded_for id) s.documents,
                    some',
                    mongo.update_one_lem,
                    view-moved i s id in_review found,
                  )
                  (elim (Bool-cases (id == i)) [
                    | inr other ↦ rw other (stay refl)
                    | inl e ↦
                        let here : id ≡ i = ground arith in
                        rw e (handed_in (open_view id s found o here) (enough here some') refl)
                  ])
          ]
    ]
      where
        enough :
            id ≡ i
            → (count (is_uploaded_for id) s.documents == 0) ≡ false
            → 1 ≤ count (is_uploaded_for i) s.documents
        enough here n = rw (← here) (ground arith)

    decide_step :
        (fresh id decided_by : ℕ) (d : SubmitVerificationDecisionInput) (s : Db R)
        → CaseStep (view i s) (view i (decide mongo fresh id decided_by d s).1)
    unfolding decide record_decision save
    decide_step fresh id decided_by d s = elim (require_case-cases id s) [
      | inl (e, h) ↦ rw h (stay refl)
      | inr (k, h, same, found) ↦ elim (Bool-cases (is_valid_transition d.outcome k.status)) [
        | inr bad ↦ rw (h, bad) (stay refl)
        | inl good ↦
            let made = new_decision fresh id decided_by d in
            elim (Bool-cases (any (same_decision_id made) s.decisions)) [
              | inl taken ↦ rw (h, good, same, mongo.create_lem, taken) (stay refl)
              | inr free ↦
                  rw
                    (
                      h,
                      good,
                      same,
                      mongo.create_lem,
                      free,
                      mongo.update_one_lem,
                      view-judged i s (outcome_to_status d.outcome) made found,
                    )
                    (elim (Bool-cases (id == i)) [
                      | inr other ↦ rw other (stay refl)
                      | inl e ↦
                          let here : id ≡ i = ground arith in
                          rw e
                            (decision_step d.outcome k.status (view i s) (rw (← here, found)) good)
                    ])
            ]
      ]
    ]

  -- Whatever call opens a case, asks for an upload, confirms one, submits a case or decides on it, and
  -- whether it succeeds or throws: every case of the collections makes one step of the abstract
  -- machine. It stays, is opened as a draft, gets documents while a draft or in need of correction,
  -- goes from these two into review with an uploaded document at least, leaves the review for the
  -- status of an outcome that is logged, or leaves VERIFIED for SUSPENDED, which is logged too.
  pub run-CaseStep :
      (bucket : Bucket) (c : Call) (s : Db R) (i : ℕ)
      → CaseStep (view i s) (view i (run bucket c s))
  unfolding run
  run-CaseStep bucket (open_call fresh type target actor) s i =
      open_step i fresh type target actor s
  run-CaseStep bucket (upload_call fresh id actor u) s i = upload_step i bucket fresh id actor u s
  run-CaseStep bucket (confirm_call id actor) s i = confirm_step i bucket id actor s
  run-CaseStep bucket (submit_call id actor) s i = submit_step i id actor s
  run-CaseStep bucket (decide_call fresh id decided_by d) s i =
      decide_step i fresh id decided_by d s
