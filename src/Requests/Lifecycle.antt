-- ===== src/Requests/Lifecycle.antt =====
-- Every call follows the state machine of a request
-- (apps/api/src/requests/request.service.ts).
use appforfixiyi.Common.{
  ℕ, ◌≡◌, refl, sym, ◌∙◌, true, inl, inr, Bool-cases, Option-cases, Result-cases, any,
}
use appforfixiyi.Store.{Mongo}
use appforfixiyi.Store.Database.{Db}
use appforfixiyi.Store.Entities.Requests.{RequestStatus, draft, requested, matching, cancelled}
use appforfixiyi.Requests.{
  by_id, same_id, is_editable, is_cancellable, is_requested, new_request, UpdateServiceRequestInput,
  create, update, submit, cancel, mark_matching, save, find_by_id, require_owned, require_editable,
  check_chain, is_complete,
}
use appforfixiyi.Requests.Ownership.{
  require_owned_state, require_owned_ok, require_editable_state, require_editable_ok,
}
use appforfixiyi.Requests.Chain.{check_chain_state}
use appforfixiyi.Requests.Evolution.{
  Call, create_call, update_call, submit_call, cancel_call, mark_matching_call, ◌⟶◌, stay,
  submitted, dispatched, draft_dropped, requested_dropped, matching_dropped, is_complete-HasAll,
  HasAll-status, is_live, AllEvolve, AllEvolve-refl, run, save-AllEvolve, AllEvolve-append,
  found_again,
}

module _ {R : Type 0} (mongo : Mongo) where
  cancel-AllEvolve :
      (id client : ℕ) (s : Db R) → AllEvolve s.requests (cancel mongo id client s).1.requests
  unfolding cancel save
  cancel-AllEvolve id client s = elim (Result-cases (require_owned mongo id client s).0) [
    | inr (x, e) ↦ rw (e, require_owned_state mongo id client s) (AllEvolve-refl _)
    | inl (d, e) ↦ elim (Bool-cases (is_cancellable d.status)) [
      | inr late ↦ rw (e, require_owned_state mongo id client s, late) (AllEvolve-refl _)
      | inl c ↦
          let same = (require_owned_ok mongo id client s e).0 in
          rw (e, require_owned_state mongo id client s, c)
            (save-AllEvolve mongo id _ s.requests (λ d. refl)
              (λ d' h. record {
                same_id = refl;
                same_owner = refl;
                edge = dropped d'.status (rw (found_again same h) c);
                sound = λ k l. absurd (cc);
              }))
    ]
  ]
    where
      dropped : (a : RequestStatus) → is_cancellable a ≡ true → a ⟶ cancelled
      dropped draft h = draft_dropped
      dropped requested h = requested_dropped
      dropped matching h = matching_dropped
      dropped _ h = absurd (cc)

  submit-AllEvolve :
      (id client : ℕ) (s : Db R) → AllEvolve s.requests (submit mongo id client s).1.requests
  unfolding submit save
  submit-AllEvolve id client s = elim (Result-cases (require_editable mongo id client s).0) [
    | inr (x, e) ↦ rw (e, require_editable_state mongo id client s) (AllEvolve-refl _)
    | inl (d, e) ↦ elim (Bool-cases (is_complete d)) [
      | inr partial ↦ rw (e, require_editable_state mongo id client s, partial) (AllEvolve-refl _)
      | inl c ↦
          let (same, own, open') = require_editable_ok mongo id client s e in
          rw (e, require_editable_state mongo id client s, c)
            (save-AllEvolve mongo id _ s.requests (λ d. refl)
              (λ d' h. record {
                same_id = refl;
                same_owner = refl;
                edge = from_draft d'.status (rw (found_again same h) open');
                sound = λ k l.
                    HasAll-status d' requested (is_complete-HasAll d' (rw (found_again same h) c));
              }))
    ]
  ]
    where
      from_draft : (a : RequestStatus) → is_editable a ≡ true → a ⟶ requested
      from_draft draft h = submitted
      from_draft _ h = absurd (cc)

  update-AllEvolve :
      (id client : ℕ) (i : UpdateServiceRequestInput) (s : Db R)
      → AllEvolve s.requests (update mongo id client i s).1.requests
  unfolding update save
  update-AllEvolve id client i s = elim (Result-cases (require_editable mongo id client s).0) [
    | inr (x, e) ↦ rw (e, require_editable_state mongo id client s) (AllEvolve-refl _)
    | inl (d, e) ↦ elim (Result-cases (check_chain mongo i d s).0) [
      | inr (x, bad) ↦
          rw (e, require_editable_state mongo id client s, bad, check_chain_state mongo i d s)
            (AllEvolve-refl _)
      | inl (u, c) ↦
          let (same, own, open') = require_editable_ok mongo id client s e in
          rw (e, require_editable_state mongo id client s, c, check_chain_state mongo i d s)
            (save-AllEvolve mongo id _ s.requests (λ d. refl)
              (λ d' h. record {
                same_id = refl;
                same_owner = refl;
                edge = stay;
                sound = λ k l. not_live d'.status (rw (found_again same h) open') l;
              }))
    ]
  ]
    where
      not_live : (a : RequestStatus) {X : Type 0} → is_editable a ≡ true → is_live a ≡ true → X
      not_live draft h l = absurd (cc)
      not_live _ h l = absurd (cc)

  mark_matching-AllEvolve :
      (id : ℕ) (s : Db R) → AllEvolve s.requests (mark_matching mongo id s).1.requests
  unfolding mark_matching save find_by_id
  mark_matching-AllEvolve id s = elim (Option-cases (mongo.find_one (by_id id) s.requests)) [
    | inl e ↦ rw e (AllEvolve-refl _)
    | inr (d, e) ↦ elim (Bool-cases (is_requested d.status)) [
      | inr other ↦ rw (e, other) (AllEvolve-refl _)
      | inl c ↦
          rw (e, c)
            (save-AllEvolve mongo id _ s.requests (λ d. refl)
              (λ d' h. record {
                same_id = refl;
                same_owner = refl;
                edge =
                    from_requested d'.status
                      (rw (found_again (sym (mongo.find_one_lem (by_id id) s.requests) ∙ e) h) c);
                sound = λ k l. HasAll-status d' matching (
                    k (
                      live_of_requested d'.status (
                        rw (found_again (sym (mongo.find_one_lem (by_id id) s.requests) ∙ e) h)
                          c)));
              }))
    ]
  ]
    where
      live_of_requested : (a : RequestStatus) → is_requested a ≡ true → is_live a ≡ true
      live_of_requested requested h = refl
      live_of_requested _ h = absurd (cc)

      from_requested : (a : RequestStatus) → is_requested a ≡ true → a ⟶ matching
      from_requested requested h = dispatched
      from_requested matching h = stay
      from_requested _ h = absurd (cc)

  create-AllEvolve :
      (fresh client : ℕ) (s : Db R) → AllEvolve s.requests (create mongo fresh client s).1.requests
  unfolding create
  create-AllEvolve fresh client s =
      elim (Bool-cases (any (same_id (new_request fresh client)) s.requests)) [
        | inl e ↦ rw (mongo.create_lem, e) (AllEvolve-refl _)
        | inr e ↦ rw (mongo.create_lem, e) (AllEvolve-append s.requests _ refl)
      ]

  -- Whatever call creates, updates, submits, cancels or marks a request, every request is still there afterwards under its id, with the same
  -- owner, and its status either stays or moves along one edge: from draft to requested, from
  -- requested to matching, or from one of the three to cancelled; a request that is new is a draft,
  -- and one that was complete if requested or matching is so afterwards.
  pub run-AllEvolve : (c : Call) (s : Db R) → AllEvolve s.requests (run mongo c s).requests
  unfolding run
  run-AllEvolve (create_call fresh client) s = create-AllEvolve fresh client s
  run-AllEvolve (update_call id client i) s = update-AllEvolve id client i s
  run-AllEvolve (submit_call id client) s = submit-AllEvolve id client s
  run-AllEvolve (cancel_call id client) s = cancel-AllEvolve id client s
  run-AllEvolve (mark_matching_call id) s = mark_matching-AllEvolve id s
