-- ===== src/Matching/Loops.antt =====
-- The parts of the dispatch that are made of a loop, and the tests on the documents
-- (apps/api/src/matching/dispatch.service.ts and the schemas beside it).
use appforfixiyi.Common.{
  ℕ, zero, suc, ◌+◌, Bool, true, false, not, ◌&&◌, ◌||◌, Option, none, some, List, [], ◌∷◌, length,
  ◌==◌, leb, if◌then◌else◌, min, max,
}
use appforfixiyi.Store.{Mongo}
use appforfixiyi.Store.Entities.Requests.{RequestStatus, RequestUrgency, urgent}
use appforfixiyi.Store.Entities.Matching.{
  Match, MatchStatus, MatchCandidate, MatchCandidateStatus, DispatchBatch,
}

abbrev pub is_active : MatchStatus → Bool
is_active MatchStatus.active = true
is_active _ = false

abbrev pub is_notified : MatchCandidateStatus → Bool
is_notified MatchCandidateStatus.notified = true
is_notified _ = false

abbrev pub is_matching_status : RequestStatus → Bool
is_matching_status RequestStatus.matching = true
is_matching_status _ = false

abbrev pub is_urgent : Option RequestUrgency → Bool
is_urgent (some urgent) = true
is_urgent _ = false

abbrev pub match_by_id : ℕ → Match → Bool
match_by_id i m = m.id == i

-- The indexes of match_candidates: `_id`, and one row for a provider in a match.
abbrev pub candidate_clashes : {R : Type 0} → MatchCandidate R → MatchCandidate R → Bool
candidate_clashes a b = a.id == b.id || (a.match_id == b.match_id && a.provider_id == b.provider_id)

-- The indexes of dispatch_batches: `_id`, and one row for an index in a match.
abbrev pub batch_clashes : DispatchBatch → DispatchBatch → Bool
batch_clashes a b = a.id == b.id || (a.match_id == b.match_id && a.index == b.index)

-- `Math.max(...counts)` of a list that is not empty.
abbrev pub maximum : List ℕ → ℕ
maximum [] = 0
maximum (x ∷ xs) = max x (maximum xs)

-- The loop of `selectNextBatch` over what `search` finds within a radius. `none` means that the fuel
-- ran out.
unfoldable pub widen :
    {A : Type 0}
    → (add_km : ℕ → ℕ → ℕ) → (ℕ → List A)
    → (most step fuel : ℕ) → ℕ
    → Option (List A × ℕ)
widen add_km search most step zero radius = none
widen add_km search most step (suc fuel) radius =
    let rest = widen add_km search most step fuel (min most (add_km radius step)) in
    if not (length (search radius) == 0) || leb most radius
    then some (search radius, radius)
    else rest

-- Enough for any start: radii that grow get from 0 past `most` in so many rounds.
abbrev pub rounds : ℕ → ℕ
rounds most = most + 2

-- `insertMany(..., { ordered: false })`: what clashes is left out, and reported at the end.
unfoldable pub insert_many : {D : Type 0} → Mongo → (D → D → Bool) → List D → List D → List D × Bool
insert_many mongo clash [] c = (c, true)
insert_many mongo clash (d ∷ ds) c = elim (mongo.create clash d c) [
  | none ↦ ((insert_many mongo clash ds c).0, false)
  | some c' ↦ insert_many mongo clash ds c'
]
