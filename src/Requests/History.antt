-- ===== src/Requests/History.antt =====
-- What holds after any sequence of calls (apps/api/src/requests/request.service.ts).
use appforfixiyi.Common.{ℕ, ◌≡◌, refl, true, Option, none, some, List, [], ◌∷◌, arith, find?}
use appforfixiyi.Store.{Mongo}
use appforfixiyi.Store.Database.{Db}
use appforfixiyi.Store.Entities.Requests.{RequestStatus, draft, cancelled, ServiceRequest}
use appforfixiyi.Requests.{by_id}
use mathlib.Core.Option.{some-injective}
use appforfixiyi.Requests.Evolution.{Call, ◌⟶◌, stay, is_live, IsSound, Moves, run}
use appforfixiyi.Requests.Lifecycle.{run-AllEvolve}

-- The calls in the order in which they reach the database.
unfoldable pub run_all : {R : Type 0} → Mongo → List Call → Db R → Db R
unfolding run
run_all mongo [] s = s
run_all mongo (c ∷ cs) s = run_all mongo cs (run mongo c s)

abbrev pub IsSoundDb : {R : Type 0} → Db R → Type 0
IsSoundDb s = (i : ℕ) (d : ServiceRequest) → find? (by_id i) s.requests ≡ some d → IsSound d

abbrev pub IsClosedIn : {R : Type 0} → ℕ → Db R → Type 0
IsClosedIn i s =
    (d : ServiceRequest) × (find? (by_id i) s.requests ≡ some d) × (d.status ≡ cancelled)

Moves-IsSound :
    (o o' : Option ServiceRequest)
    → Moves o o'
    → ((d : ServiceRequest) → o ≡ some d → IsSound d)
    → (d' : ServiceRequest) → o' ≡ some d'
    → IsSound d'
Moves-IsSound none none m k d' h = cc
Moves-IsSound none (some e) m k d' h = λ l. absurd (draft_not_live d'.status (ground arith) l)
  where
    draft_not_live : (a : RequestStatus) → a ≡ draft → is_live a ≡ true → ⊥
    draft_not_live a p q = ground arith
Moves-IsSound (some d) none m k d' h = absurd m
Moves-IsSound (some d) (some e) m k d' h = rw (← some-injective e d' h) (m.sound (k d refl))

cancelled_edge : (a : RequestStatus) → cancelled ⟶ a → a ≡ cancelled
cancelled_edge a stay = refl

module _ {R : Type 0} (mongo : Mongo) where
  -- From a database whose requested and matching requests are complete (a database with no request,
  -- for one), after any calls every requested or matching request has a service, an intervention
  -- type, a complexity, a description, an urgency and a location.
  pub run_all-IsSound : (cs : List Call) (s : Db R) → IsSoundDb s → IsSoundDb (run_all mongo cs s)
  unfolding run_all
  run_all-IsSound [] s k = k
  run_all-IsSound (c ∷ cs) s k =
      run_all-IsSound cs (run mongo c s) (λ i. Moves-IsSound _ _ (run-AllEvolve mongo c s i) (k i))

  run-IsClosed : (i : ℕ) (c : Call) (s : Db R) → IsClosedIn i s → IsClosedIn i (run mongo c s)
  run-IsClosed i c s (d, h, e) =
      go (find? (by_id i) (run mongo c s).requests) refl (rw h at (run-AllEvolve mongo c s i))
    where
      go :
          (o : Option ServiceRequest)
          → find? (by_id i) (run mongo c s).requests ≡ o
          → Moves (some d) o
          → IsClosedIn i (run mongo c s)
      go none p m = absurd m
      go (some d') p m = (d', p, cancelled_edge d'.status (rw e at m.edge))

  -- A cancelled request stays cancelled, whatever calls follow.
  pub run_all-IsClosed :
      (i : ℕ) (cs : List Call) (s : Db R) → IsClosedIn i s → IsClosedIn i (run_all mongo cs s)
  unfolding run_all
  run_all-IsClosed i [] s k = k
  run_all-IsClosed i (c ∷ cs) s k = run_all-IsClosed i cs (run mongo c s) (run-IsClosed i c s k)
