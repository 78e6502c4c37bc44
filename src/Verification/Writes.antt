-- ===== src/Verification/Writes.antt =====
-- What the writes of apps/api/src/verification/verification.service.ts do to a case of the abstract
-- machine.
use appforfixiyi.Common.{
  ℕ, ◌+◌, ◌≡◌, refl, true, some, List, [], ◌∷◌, ◌++◌, inl, inr, arith, ◌==◌, Bool-cases,
  Option-cases, find?, find-append, find-update, update_first, count, count-append,
  count-le-update_first, count-update_first_same, if◌then◌else◌, ap, ◌∙◌, apply,
}
use appforfixiyi.Store.Database.{Db}
use appforfixiyi.Store.Entities.Matching.{
  VerificationTargetType, VerificationStatus, VerificationCase,
}
use appforfixiyi.Store.Entities.Companies.{
  VerificationDocument, VerificationDocumentType, VerificationDecision, uploaded,
}
use appforfixiyi.Verification.{by_id, document_by_id, is_uploaded_for, new_case, new_document}
use appforfixiyi.Verification.Machine.{
  status_of, outcomes_of, view, is_open, CaseStep, stay, opened, filed,
}

module _ {R : Type 0} (i : ℕ) (s : Db R) where
  pub case_opened :
      (fresh : ℕ) (type : VerificationTargetType) (target : ℕ)
      → CaseStep
          (view i s)
          (view i (record s { cases = s.cases ++ new_case fresh type target ∷ [] }))
  case_opened fresh type target =
      rw (find-append (λ k. k.id) i s.cases (new_case fresh type target ∷ []))
        (elim (Option-cases (find? (by_id i) s.cases)) [
          | inr (k, e) ↦ rw e (stay refl)
          | inl e ↦ elim (Bool-cases (fresh == i)) [
            | inl same ↦ rw (e, same) (opened refl refl)
            | inr other ↦ rw (e, other) (stay refl)
          ]
        ])

  pub document_requested :
      (fresh id key : ℕ) (type : VerificationDocumentType)
      → view i (record s { documents = s.documents ++ new_document fresh id key type ∷ [] })
        ≡ view i s
  document_requested fresh id key type =
      ap (λ n. record (view i s) { uploads = n })
        (count-append (is_uploaded_for i) s.documents (new_document fresh id key type ∷ [])
          ∙ none_added)
    where
      none_added :
          count (is_uploaded_for i) s.documents
            + count (is_uploaded_for i) (new_document fresh id key type ∷ [])
          ≡ count (is_uploaded_for i) s.documents
      none_added = ground arith

  abbrev pub confirmed : ℕ → Db R
  confirmed id = record s {
    documents = update_first (document_by_id id) (λ e. record e { status = uploaded }) s.documents;
  }

  pub document_confirmed :
      (id : ℕ) {d : VerificationDocument}
      → find? (document_by_id id) s.documents ≡ some d
      → (d.case_id ≡ i → is_open (view i s).status ≡ true)
      → CaseStep (view i s) (view i (confirmed id))
  document_confirmed id {d} found editable = elim (Bool-cases (d.case_id == i)) [
    | inl e ↦
        filed (editable (ground arith))
          (count-le-update_first (is_uploaded_for i) (document_by_id id)
            (λ e. record e { status = uploaded }) s.documents (λ x p q. ground arith))
          refl
    | inr e ↦ stay (
        ap (λ n. record (view i s) { uploads = n })
          (count-update_first_same (is_uploaded_for i) (document_by_id id)
            (λ e. record e { status = uploaded }) s.documents {y = d} found (ground arith)))
  ]

  abbrev pub moved : ℕ → VerificationStatus → Db R
  moved id a = record s { cases = update_first (by_id id) (λ k. record k { status = a }) s.cases }

  pub view-moved :
      (id : ℕ) (a : VerificationStatus) {k : VerificationCase}
      → find? (by_id id) s.cases ≡ some k
      → view i (moved id a) ≡ (if id == i then record (view i s) { status = some a } else view i s)
  view-moved id a {k} found = elim (Bool-cases (id == i)) [
    | inr e ↦ rw (
      find-update {A = VerificationCase} (λ k. k.id) (λ k. record k { status = a }) (λ k. refl) i id
          s.cases,
      e,
    )
    | inl e ↦
        let same : id ≡ i = ground arith in
        rw (
          find-update {A = VerificationCase} (λ k. k.id) (λ k. record k { status = a }) (λ k. refl)
              i id s.cases,
          e,
          ← same,
          found,
        )
  ]

outcomes-append :
    (i : ℕ) (ds : List VerificationDecision) (d : VerificationDecision)
    → outcomes_of i (ds ++ d ∷ [])
      ≡ (if d.case_id == i then outcomes_of i ds ++ d.outcome ∷ [] else outcomes_of i ds)
outcomes-append i [] d = ground arith
outcomes-append i (e ∷ ds) d = ground (arith, outcomes-append i ds d)

-- The two writes of a decision.
pub view-judged :
    {R : Type 0} (i : ℕ) (s : Db R) (a : VerificationStatus) (d : VerificationDecision)
    {k : VerificationCase}
    → find? (by_id d.case_id) s.cases ≡ some k
    → view i (moved i (record s { decisions = s.decisions ++ d ∷ [] }) d.case_id a) ≡ (
        if d.case_id == i
        then record (view i s) {
          status = some a;
          outcomes = outcomes_of i s.decisions ++ d.outcome ∷ [];
        }
        else view i s)
view-judged i s a d {k} found = elim (Bool-cases (d.case_id == i)) [
  | inr e ↦ rw (
    find-update {A = VerificationCase} (λ k. k.id) (λ k. record k { status = a }) (λ k. refl) i
        d.case_id s.cases,
    outcomes-append i s.decisions d,
    e,
  )
  | inl e ↦
      let same : d.case_id ≡ i = ground arith in
      rw (
        find-update {A = VerificationCase} (λ k. k.id) (λ k. record k { status = a }) (λ k. refl) i
            d.case_id s.cases,
        outcomes-append i s.decisions d,
        e,
        status_again same,
      )
]
  where
    status_again :
        d.case_id ≡ i
        → status_of (apply (λ k. record k { status = a }) (find? (by_id i) s.cases)) ≡ some a
    status_again same = rw (← same, found) refl
