-- ===== src/Verification/Machine.antt =====
-- The abstract machine of one verification case, apart from how the collections store it: its
-- status, the outcomes decided so far and how many of its documents were uploaded
-- (apps/api/src/verification/verification.service.ts).
use appforfixiyi.Common.{
  ℕ, ◌≤◌, ◌≡◌, Bool, true, false, Option, none, some, List, [], ◌∷◌, ◌++◌, map, find?, filter,
  count, ◌==◌,
}
use appforfixiyi.Store.Database.{Db}
use appforfixiyi.Store.Entities.Matching.{
  VerificationStatus, draft, in_review, verified, VerificationCase,
}
use appforfixiyi.Store.Entities.Companies.{
  VerificationDecision, VerificationDecisionOutcome, suspended,
}
use appforfixiyi.Verification.{
  by_id, is_uploaded_for, is_submittable, is_suspension, outcome_to_status,
}

pub record View : Type 0 where
  pub status : Option VerificationStatus
  pub outcomes : List VerificationDecisionOutcome
  pub uploads : ℕ

abbrev pub status_of : Option VerificationCase → Option VerificationStatus
status_of none = none
status_of (some k) = some k.status

abbrev pub outcomes_of : ℕ → List VerificationDecision → List VerificationDecisionOutcome
outcomes_of id ds = map (λ d. d.outcome) (filter (λ d. d.case_id == id) ds)

-- The case of an id, as the machine sees it.
abbrev pub view : {R : Type 0} → ℕ → Db R → View
view id s = record {
  status = status_of (find? (by_id id) s.cases);
  outcomes = outcomes_of id s.decisions;
  uploads = count (is_uploaded_for id) s.documents;
}

abbrev pub is_open : Option VerificationStatus → Bool
is_open none = false
is_open (some a) = is_submittable a

-- The steps of the machine.
pub data CaseStep (v w : View) : Type 0 where
  stay : w ≡ v → CaseStep v w
  opened : v.status ≡ none → w ≡ record v { status = some draft } → CaseStep v w
  filed :
      is_open v.status ≡ true
      → v.uploads ≤ w.uploads
      → w ≡ record v { uploads = w.uploads }
      → CaseStep v w
  handed_in :
      is_open v.status ≡ true
      → 1 ≤ v.uploads
      → w ≡ record v { status = some in_review }
      → CaseStep v w
  judged :
      (o : VerificationDecisionOutcome)
      → v.status ≡ some in_review
      → is_suspension o ≡ false
      → w ≡ record v { status = some (outcome_to_status o); outcomes = v.outcomes ++ o ∷ [] }
      → CaseStep v w
  withdrawn :
      v.status ≡ some verified
      → w ≡ record v {
        status = some VerificationStatus.suspended;
        outcomes = v.outcomes ++ suspended ∷ [];
      }
      → CaseStep v w
