-- ===== src/Matching/Service/Start.antt =====
-- How a search starts: `start` of apps/api/src/matching/matching.service.ts.
use appforfixiyi.Common.{
  ℕ, ◌≡◌, false, none, some, [], ◌∷◌, ◌++◌, ok, err, any, not_found, find?, ==_refl, update_first,
}
use appforfixiyi.Store.Entities.Requests.{ServiceRequest, requested, matching}
use appforfixiyi.Store.Entities.Matching.{direct}
use appforfixiyi.Requests.{
  by_id as request_by_id, get_by_id, find_by_id as find_request, require_owned, to_service_request,
  mark_matching, mark_check, save,
}
use appforfixiyi.Providers.{find_by_id as find_profile, by_id as profile_by_id}
use appforfixiyi.Matching.Platform.{Platform}
use appforfixiyi.Matching.Dispatch.{Store}
use appforfixiyi.Matching.Service.{
  match_of_request, match_clashes, new_match, start, start_found, start_new, first_dispatch,
  dispatch_direct,
}

module _ (p : Platform) (now : ℕ) (fresh : ℕ → ℕ) where
  get_own :
      (id : ℕ) (s : Store p) {r : ServiceRequest}
      → find? (request_by_id id) s.requests ≡ some r
      → get_by_id p.mongo id r.client_user_id s ≡ (ok (to_service_request p.mongo r s), s)
  unfolding get_by_id require_owned find_request
  get_own id s h = rw (p.mongo.find_one_lem, h, ==_refl)

  -- Where a client picks a provider that does not exist for its REQUESTED request, and the id of the new match
  -- is not in use, the call answers NotFound but leaves its writes behind: the ACTIVE match without a batch,
  -- and the request MATCHING.
  pub start-unknown_provider :
      (id provider : ℕ) (s : Store p) {r : ServiceRequest}
      → find? (request_by_id id) s.requests ≡ some r
      → any
          (match_clashes
            (new_match (fresh 0) id r.client_user_id direct s.config.default_radius_km))
          s.matches
        ≡ false
      → find? (match_of_request id) s.matches ≡ none
      → r.status ≡ requested
      → find? (profile_by_id provider) s.profiles ≡ none
      → start p now fresh id r.client_user_id
          (record { mode = some direct; provider_id = some provider })
          s
        ≡ (
          err not_found,
          record s {
            matches =
                s.matches
                ++ new_match (fresh 0) id r.client_user_id direct s.config.default_radius_km ∷ [];
            requests =
                update_first (request_by_id id) (λ d. record d { status = matching }) s.requests;
          },
        )
  unfolding start start_found start_new to_service_request mark_matching mark_check save
      find_request first_dispatch dispatch_direct find_profile
  start-unknown_provider id provider s {r} h c e q n = rw (
    get_own id s h,
    p.mongo.find_one_lem,
    e,
    q,
    p.mongo.create_lem,
    c,
    p.mongo.find_one_lem,
    h,
    q,
    p.mongo.find_one_lem,
    n,
    p.mongo.update_one_lem,
  )
