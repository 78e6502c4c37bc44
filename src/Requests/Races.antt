-- ===== src/Requests/Races.antt =====
-- Two calls at once: a handler reads a request, awaits, and then saves the field that it changed
-- (`findById` and `doc.save()` of apps/api/src/requests/request.service.ts). Nothing re-checks the
-- status at the time of the save.
use appforfixiyi.Common.{ℕ, ◌≡◌, refl, some, ok, find?, find-update, ==_refl}
use appforfixiyi.Store.{Mongo}
use appforfixiyi.Store.Database.{Db}
use appforfixiyi.Store.Entities.Requests.{requested, matching, cancelled, ServiceRequest}
use appforfixiyi.Requests.{by_id, find_by_id, require_owned, save, cancel_check, mark_check}

module _ {R : Type 0} (mongo : Mongo) (id : ℕ) where
  -- Both handlers have read the request before either saves; the cancellation is saved first.
  pub cancel_then_mark : Db R → Db R
  unfolding save
  cancel_then_mark s =
      (save mongo id (λ d. record d { status = matching })
        (save mongo id (λ d. record d { status = cancelled }) s).1).1

  -- When a client's cancellation and the start of the search both read a request that is REQUESTED,
  -- both are accepted; if the cancellation is saved first, the request ends up MATCHING: the
  -- cancellation that was accepted is lost.
  pub cancel_lost :
      (s : Db R) {d : ServiceRequest}
      → find? (by_id id) s.requests ≡ some d
      → d.status ≡ requested
      → (cancel_check mongo id d.client_user_id s ≡ (ok d, s))
        × (mark_check mongo id s ≡ (ok d, s))
        × (find? (by_id id) (cancel_then_mark s).requests ≡ some (record d { status = matching }))
  unfolding cancel_check mark_check cancel_then_mark require_owned find_by_id
  cancel_lost s {d} h r = (
    rw (mongo.find_one_lem, h, ==_refl, r),
    rw (mongo.find_one_lem, h, r),
    rw (
      mongo.update_one_lem,
      mongo.update_one_lem,
      find-update {A = ServiceRequest} (λ r. r.id) (λ d. record d { status = matching }) (λ x. refl)
          id id _,
      find-update {A = ServiceRequest} (λ r. r.id) (λ d. record d { status = cancelled })
          (λ x. refl) id id s.requests,
      ==_refl,
      h,
    ),
  )
