-- ===== src/Requests/Evolution.antt =====
-- The state machine of a request: the edges of its status, and how a call may change a request
-- (apps/api/src/requests/request.service.ts).
use appforfixiyi.Common.{
  ℕ, ◌≡◌, refl, Bool, true, false, Option, none, some, List, [], ◌∷◌, ◌++◌, inl, inr, arith, ◌==◌,
  Bool-cases, Option-cases, ==_iff, find?, find-update, find-append, truthy, is_some,
}
use appforfixiyi.Store.{Mongo}
use appforfixiyi.Store.Database.{Db}
use appforfixiyi.Store.Entities.Requests.{
  RequestStatus, draft, requested, matching, cancelled, ServiceRequest,
}
use appforfixiyi.Requests.{
  by_id, UpdateServiceRequestInput, create, update, submit, cancel, mark_matching, is_complete,
}

-- The calls that write requests.
pub data Call : Type 0 where
  create_call : (fresh client : ℕ) → Call
  update_call : (id client : ℕ) → UpdateServiceRequestInput → Call
  submit_call : (id client : ℕ) → Call
  cancel_call : (id client : ℕ) → Call
  mark_matching_call : (id : ℕ) → Call

infix 40 ◌⟶◌
pub data ◌⟶◌ : RequestStatus → RequestStatus → Type 0 where
  stay : {a : RequestStatus} → a ⟶ a
  submitted : draft ⟶ requested
  dispatched : requested ⟶ matching
  draft_dropped : draft ⟶ cancelled
  requested_dropped : requested ⟶ cancelled
  matching_dropped : matching ⟶ cancelled

-- A request that left its draft and is not closed has all that a provider needs.
abbrev pub is_live : RequestStatus → Bool
is_live requested = true
is_live matching = true
is_live _ = false

pub record HasAll (d : ServiceRequest) : Type 0 where
  pub service : truthy d.service_id ≡ true
  pub kind : truthy d.intervention_type_id ≡ true
  pub complexity : truthy d.complexity_id ≡ true
  pub description : truthy d.description ≡ true
  pub urgency : is_some d.urgency ≡ true
  pub location : is_some d.location ≡ true

abbrev pub IsSound : ServiceRequest → Type 0
IsSound d = is_live d.status ≡ true → HasAll d

pub is_complete-HasAll : (d : ServiceRequest) → is_complete d ≡ true → HasAll d
is_complete-HasAll d h = record {
  service = ground arith;
  kind = ground arith;
  complexity = ground arith;
  description = ground arith;
  urgency = ground arith;
  location = ground arith;
}

pub HasAll-status :
    (d : ServiceRequest) (a : RequestStatus) → HasAll d → HasAll (record d { status = a })
HasAll-status d a h = record {
  service = h.service;
  kind = h.kind;
  complexity = h.complexity;
  description = h.description;
  urgency = h.urgency;
  location = h.location;
}

-- A request after a call: the same id and owner, and its status moved along an edge at most.
pub record Evolves (d d' : ServiceRequest) : Type 0 where
  pub same_id : d'.id ≡ d.id
  pub same_owner : d'.client_user_id ≡ d.client_user_id
  pub edge : d.status ⟶ d'.status
  pub sound : IsSound d → IsSound d'

-- What a call does to the request of one id: a new one is a draft, and none is removed.
abbrev pub Moves : Option ServiceRequest → Option ServiceRequest → Type 0
Moves none none = Unit
Moves none (some d') = d'.status ≡ draft
Moves (some d) none = ⊥
Moves (some d) (some d') = Evolves d d'

abbrev pub AllEvolve : List ServiceRequest → List ServiceRequest → Type 0
AllEvolve xs ys = (i : ℕ) → Moves (find? (by_id i) xs) (find? (by_id i) ys)

pub Evolves-refl : (d : ServiceRequest) → Evolves d d
Evolves-refl d = record { same_id = refl; same_owner = refl; edge = stay; sound = λ k. k }

Moves-refl : (o : Option ServiceRequest) → Moves o o
Moves-refl none = tt
Moves-refl (some d) = Evolves-refl d

pub AllEvolve-refl : (xs : List ServiceRequest) → AllEvolve xs xs
AllEvolve-refl xs i = Moves-refl (find? (by_id i) xs)

module _ {R : Type 0} (mongo : Mongo) where
  unfoldable pub run : Call → Db R → Db R
  run (create_call fresh client) s = (create mongo fresh client s).1
  run (update_call id client i) s = (update mongo id client i s).1
  run (submit_call id client) s = (submit mongo id client s).1
  run (cancel_call id client) s = (cancel mongo id client s).1
  run (mark_matching_call id) s = (mark_matching mongo id s).1

-- A write by id, where the document that the call read evolves.
pub save-AllEvolve :
    (mongo : Mongo) (id : ℕ) (f : ServiceRequest → ServiceRequest) (xs : List ServiceRequest)
    → ((d : ServiceRequest) → (f d).id ≡ d.id)
    → ((d : ServiceRequest) → find? (by_id id) xs ≡ some d → Evolves d (f d))
    → AllEvolve xs (mongo.update_one (by_id id) f xs)
save-AllEvolve mongo id f xs k ev i = elim (Bool-cases (id == i)) [
  | inr e ↦ rw (mongo.update_one_lem, find-update (λ r. r.id) f k i id xs, e) (Moves-refl _)
  | inl e ↦
      rw (mongo.update_one_lem, find-update (λ r. r.id) f k i id xs, e)
        (elim (Option-cases (find? (by_id i) xs)) [
          | inl missing ↦ rw missing tt
          | inr (d, h) ↦ rw h (ev d (rw ((==_iff id i).0 e) h))
        ])
]

pub AllEvolve-append :
    (xs : List ServiceRequest) (n : ServiceRequest) → n.status ≡ draft → AllEvolve xs (xs ++ n ∷ [])
AllEvolve-append xs n h i =
    rw (find-append (λ r. r.id) i xs (n ∷ [])) (elim (Option-cases (find? (by_id i) xs)) [
      | inr (d, e) ↦ rw e (Evolves-refl d)
      | inl e ↦
          rw e (elim (Bool-cases (n.id == i)) [ inl same ↦ rw same h | inr other ↦ rw other tt ])
    ])

-- The document that a guard was passed for is the one that is found again.
pub found_again :
    {o : Option ServiceRequest} {d d' : ServiceRequest} → o ≡ some d → o ≡ some d' → d' ≡ d
found_again h h' = cc
