-- ===== src/Tests/Requests.antt =====
-- Requests on the small database.
use appforfixiyi.Common.{
  ◌≡◌, refl, none, some, List, [], ◌∷◌, ok, err, forbidden, not_found, find?, find?-All, arith, All,
  IsSorted, ltb, length, min, filter,
}
use appforfixiyi.Store.{in_memory}
use appforfixiyi.Store.Entities.Requests.{requested, matching, cancelled, draft}
use appforfixiyi.Requests.{
  by_id, UpdateServiceRequestInput, update, list_mine, RequestPage, newest_first, is_listed,
  cancel_check, mark_check, require_editable, require_owned, find_by_id, check_chain,
  assert_valid_catalog_chain, check_service, check_intervention_type, check_complexity, save,
  to_service_request,
}
use appforfixiyi.Catalog.{count_existing, get_by_id as catalog_by_id}
use appforfixiyi.Media.{list_ready_ids_for_target}
use appforfixiyi.Requests.Ownership.{cancel_it, update_it, call, call-foreign, call-missing}
use appforfixiyi.Requests.Evolution.{
  Call, create_call, update_call, submit_call, cancel_call, mark_matching_call, IsSound,
  is_complete-HasAll, AllEvolve, run,
}
use appforfixiyi.Requests.Lifecycle.{run-AllEvolve}
use appforfixiyi.Requests.History.{
  run_all, IsSoundDb, IsClosedIn, run_all-IsSound, run_all-IsClosed,
}
use appforfixiyi.Requests.Chain.{IsValidChain, update-IsValidChain}
use appforfixiyi.Requests.Races.{cancel_then_mark, cancel_lost}
use appforfixiyi.Requests.Paging.{list_mine_page, IsListed, docs}
use appforfixiyi.Tests.{sample, full_request}

abbrev changes : UpdateServiceRequestInput
changes = record {
  service_id = some 3;
  intervention_type_id = some 4;
  complexity_id = some 5;
  description = none;
  urgency = none;
  location = none;
}

abbrev calls : List Call
calls =
    submit_call 12 8
    ∷ cancel_call 12 8
    ∷ mark_matching_call 10
    ∷ update_call 11 7 changes
    ∷ create_call 99 8
    ∷ []

call-foreign_example : call in_memory (update_it changes) 10 8 sample ≡ (err forbidden, sample)
call-foreign_example =
    call-foreign in_memory (update_it changes) 10 8 sample refl (λ e. absurd (omega (arith, e)))

call-missing_example : call in_memory cancel_it 77 7 sample ≡ (err not_found, sample)
call-missing_example = call-missing in_memory cancel_it 77 7 sample refl

run-AllEvolve_example : AllEvolve sample.requests (run in_memory (submit_call 12 8) sample).requests
run-AllEvolve_example = run-AllEvolve in_memory (submit_call 12 8) sample

sample-IsSoundDb : IsSoundDb sample
sample-IsSoundDb i d h =
    find?-All IsSound (by_id i) sample.requests
      (
        (λ k. is_complete-HasAll _ refl),
        (
          (λ k. is_complete-HasAll _ refl),
          ((λ k. is_complete-HasAll _ refl), ((λ k. is_complete-HasAll _ refl), tt)),
        ),
      )
      h

run_all-IsSound_example : IsSoundDb (run_all in_memory calls sample)
run_all-IsSound_example = run_all-IsSound in_memory calls sample sample-IsSoundDb

run_all-IsClosed_example : IsClosedIn 14 (run_all in_memory calls sample)
run_all-IsClosed_example =
    run_all-IsClosed in_memory 14 calls sample (full_request 14 8 cancelled, refl, refl)

update-IsValidChain_example : IsValidChain sample.nodes (some 3) (some 4) (some 5)
unfolding update require_editable require_owned find_by_id check_chain assert_valid_catalog_chain
    check_service check_intervention_type check_complexity count_existing catalog_by_id save
    to_service_request list_ready_ids_for_target
update-IsValidChain_example =
    update-IsValidChain in_memory 12 8 changes sample
      {v = record { doc = full_request 12 8 draft; media_ids = [] }} refl refl

cancel_lost_example :
    (cancel_check in_memory 10 7 sample ≡ (ok (full_request 10 7 requested), sample))
    × (mark_check in_memory 10 sample ≡ (ok (full_request 10 7 requested), sample))
    × (find? (by_id 10) (cancel_then_mark in_memory 10 sample).requests
        ≡ some (full_request 10 7 matching))
cancel_lost_example = cancel_lost in_memory 10 sample {d = full_request 10 7 requested} refl refl

list_mine_page_example :
    (p : RequestPage) × (list_mine in_memory 7 (record { before = some 12; limit = 1 }) sample
      ≡ (ok p, sample))
    × All (IsListed 7 (some 12)) (docs p)
    × IsSorted newest_first (docs p)
    × (length (docs p) ≡ min 1 (length (filter (is_listed 7 (some 12)) sample.requests)))
    × (p.has_more ≡ ltb 1 (length (filter (is_listed 7 (some 12)) sample.requests)))
list_mine_page_example = list_mine_page in_memory 7 (record { before = some 12; limit = 1 }) sample
