-- ===== src/Verification/History.antt =====
-- What the status of a case says of its history, over any sequence of calls
-- (apps/api/src/verification/verification.service.ts).
use appforfixiyi.Common.{
  ℕ, ◌≤◌, ◌≡◌, refl, true, false, Option, none, some, List, [], ◌∷◌, ◌++◌, arith, subst,
}
use appforfixiyi.Store.{Mongo}
use appforfixiyi.Store.Database.{Db}
use appforfixiyi.Store.Entities.Matching.{
  VerificationStatus, draft, in_review, needs_correction, verified, rejected, suspended, expired,
}
use appforfixiyi.Store.Entities.Companies.{
  VerificationDecisionOutcome, approved, correction_requested,
}
use appforfixiyi.Storage.{Bucket}
use appforfixiyi.Verification.{is_suspension, outcome_to_status}
use appforfixiyi.Verification.Machine.{
  View, view, is_open, CaseStep, stay, opened, filed, handed_in, judged, withdrawn,
}
use appforfixiyi.Verification.Refinement.{Call, run, run-CaseStep}

abbrev pub last {ℓ} : {A : Type ℓ} → List A → Option A
last [] = none
last (x ∷ []) = some x
last (x ∷ y ∷ ys) = last (y ∷ ys)

last-append {ℓ} : {A : Type ℓ} (xs : List A) (x : A) → last (xs ++ x ∷ []) ≡ some x
last-append [] x = refl
last-append (y ∷ []) x = refl
last-append (y ∷ z ∷ zs) x = last-append (z ∷ zs) x

-- What each status is explained by.
abbrev pub Explains : Option VerificationStatus → List VerificationDecisionOutcome → ℕ → Type 0
Explains none os n = os ≡ []
Explains (some draft) os n = os ≡ []
Explains (some in_review) os n = 1 ≤ n
Explains (some needs_correction) os n = (last os ≡ some correction_requested) × (1 ≤ n)
Explains (some verified) os n = (last os ≡ some approved) × (1 ≤ n)
Explains (some rejected) os n = (last os ≡ some VerificationDecisionOutcome.rejected) × (1 ≤ n)
Explains (some suspended) os n = (last os ≡ some VerificationDecisionOutcome.suspended) × (1 ≤ n)
Explains (some expired) os n = ⊥

abbrev pub IsExplained : View → Type 0
IsExplained v = Explains v.status v.outcomes v.uploads

more_uploads :
    (a : Option VerificationStatus) (os : List VerificationDecisionOutcome) (m n : ℕ)
    → is_open a ≡ true
    → m ≤ n
    → Explains a os m
    → Explains a os n
more_uploads (some draft) os m n o h e = e
more_uploads (some needs_correction) os m n o h e = (e.0, omega arith)
more_uploads none os m n o h e = absurd (cc)
more_uploads (some _) os m n o h e = absurd (cc)

judgement :
    (o : VerificationDecisionOutcome) (os : List VerificationDecisionOutcome) (n : ℕ)
    → is_suspension o ≡ false
    → 1 ≤ n
    → Explains (some (outcome_to_status o)) (os ++ o ∷ []) n
judgement approved os n h u = (last-append os approved, u)
judgement VerificationDecisionOutcome.rejected os n h u = (last-append os _, u)
judgement correction_requested os n h u = (last-append os _, u)
judgement VerificationDecisionOutcome.suspended os n h u = absurd (cc)

-- The explanation of a status that is known.
explained :
    (v : View) {a : Option VerificationStatus}
    → v.status ≡ a
    → IsExplained v
    → Explains a v.outcomes v.uploads
explained v e h = subst (λ a. Explains a v.outcomes v.uploads) e h

CaseStep-IsExplained : (v w : View) → CaseStep v w → IsExplained v → IsExplained w
CaseStep-IsExplained v w (stay e) h = rw e h
CaseStep-IsExplained v w (opened n e) h = rw e (explained v n h)
CaseStep-IsExplained v w (filed o le e) h =
    rw e (more_uploads v.status v.outcomes v.uploads w.uploads o le h)
CaseStep-IsExplained v w (handed_in o u e) h = rw e u
CaseStep-IsExplained v w (judged o r n e) h =
    rw e (judgement o v.outcomes v.uploads n (explained v r h))
CaseStep-IsExplained v w (withdrawn r e) h = rw e (last-append v.outcomes _, (explained v r h).1)

module _ {R : Type 0} (mongo : Mongo) where
  -- Each call meets the bucket as it is then.
  unfoldable pub run_all : List (Bucket × Call) → Db R → Db R
  run_all [] s = s
  run_all ((b, c) ∷ cs) s = run_all cs (run mongo b c s)

  -- From a database whose cases are explained (one with no case and no decision, for one), after any
  -- calls every case is: a VERIFIED one has APPROVED as its last logged outcome, a REJECTED, a
  -- SUSPENDED one and one that NEEDS_CORRECTION have theirs; these four and a case IN_REVIEW have an
  -- uploaded document at least, a DRAFT has no logged outcome, and none is EXPIRED.
  pub run_all-IsExplained :
      (cs : List (Bucket × Call)) (s : Db R)
      → ((i : ℕ) → IsExplained (view i s))
      → (i : ℕ) → IsExplained (view i (run_all cs s))
  unfolding run_all
  run_all-IsExplained [] s h = h
  run_all-IsExplained ((b, c) ∷ cs) s h = run_all-IsExplained cs (run mongo b c s) (λ i.
      CaseStep-IsExplained (view i s) (view i (run mongo b c s)) (run-CaseStep mongo b c s i) (h i))
