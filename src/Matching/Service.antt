-- ===== src/Matching/Service.antt =====
-- apps/api/src/matching/matching.service.ts: what clients and providers ask of the matching engine.
-- `now` is the instant of the call and `fresh k` the k-th id that `generateId()` returns in it.
pub mod Start
pub mod Candidacies
use appforfixiyi.Common.{
  ℕ, zero, suc, ◌+◌, ◌*◌, Bool, true, false, not, ◌&&◌, ◌||◌, Option, none, some, List, [], ◌∷◌,
  length, map, any, ◌==◌, leb, ltb, if◌then◌else◌, min, Exec, ok, err, pure, gets, modify, throw,
  guard, require_some, ◌>>=◌, ◌>>◌, get_or, is_some, not_found, forbidden, domain, bad_request,
  request_not_matchable, match_radius_not_wider, match_not_active, match_already_declined,
}
use appforfixiyi.Store.{Mongo}
use appforfixiyi.Store.Database.{Db, store_created}
use appforfixiyi.Store.Entities.Requests.{ServiceRequest, Location}
use appforfixiyi.Store.Entities.Matching.{
  Match, MatchMode, auto, direct, MatchStatus, MatchCandidate, MatchCandidateStatus, notified,
  viewed, declined, ScoreBreakdown, MatchingConfig, ProviderProfile,
}
use appforfixiyi.Requests.{get_by_id, mark_matching, is_requested, find_by_id as find_request}
use appforfixiyi.Providers.{find_by_id as find_profile, Geo}
use appforfixiyi.Matching.Numbers.{Numbers}
use appforfixiyi.Matching.Eligibility.{nearest_area_distance_km}
use appforfixiyi.Matching.Loops.{is_active, is_notified, candidate_clashes}
use appforfixiyi.Matching.Platform.{Platform}
use appforfixiyi.Matching.Dispatch.{Store, save_match, run_batch}

-- The view of a match: the document, and how many candidates it has.
pub record MatchView : Type 0 where
  pub doc : Match
  pub candidate_count : ℕ

-- StartMatchInput and ExpandRadiusInput.
pub record StartMatchInput : Type 0 where
  pub mode : Option MatchMode
  pub provider_id : Option ℕ

pub record Candidacy : Type 0 where
  pub candidate_id : ℕ
  pub provider_id : ℕ
  pub live : Bool

-- `Candidacy & { requestId, providerUserId }`.
pub record NamedCandidacy : Type 0 where
  pub candidacy : Candidacy
  pub request_id : ℕ
  pub provider_user_id : ℕ

abbrev pub match_of_request : ℕ → Match → Bool
match_of_request r m = m.request_id == r

-- The unique indexes of matches: `_id` and `requestId`.
abbrev pub match_clashes : Match → Match → Bool
match_clashes a b = a.id == b.id || a.request_id == b.request_id

abbrev pub new_match : (fresh request client : ℕ) → MatchMode → (radius : ℕ) → Match
new_match fresh request client mode radius = record {
  id = fresh;
  request_id = request;
  client_user_id = client;
  mode = mode;
  status = MatchStatus.active;
  current_radius_km = radius;
  batch_count = 0;
  next_batch_at = none;
}

abbrev pub is_declined : MatchCandidateStatus → Bool
is_declined MatchCandidateStatus.declined = true
is_declined _ = false

module _ {R : Type 0} where
  abbrev pub candidate_by_id : ℕ → MatchCandidate R → Bool
  candidate_by_id i c = c.id == i

  -- VIEWED, or NOTIFIED and not yet past the expiry.
  abbrev pub is_live_candidacy : MatchCandidate R → (now : ℕ) → Bool
  is_live_candidacy c now = elim c.status [
    | MatchCandidateStatus.viewed ↦ true
    | MatchCandidateStatus.notified ↦ ltb now c.expires_at
    | _ ↦ false
  ]

  abbrev pub latest_first : MatchCandidate R → MatchCandidate R → Bool
  latest_first a b = leb b.dispatched_at a.dispatched_at

  abbrev pub to_candidacy : (now : ℕ) → MatchCandidate R → Candidacy
  to_candidacy now c = record {
    candidate_id = c.id;
    provider_id = c.provider_id;
    live = is_live_candidacy c now;
  }

  abbrev pub to_named_candidacy : (now : ℕ) → MatchCandidate R → NamedCandidacy
  to_named_candidacy now c = record {
    candidacy = to_candidacy now c;
    request_id = c.request_id;
    provider_user_id = c.provider_user_id;
  }

  abbrev pub oldest_first : MatchCandidate R → MatchCandidate R → Bool
  oldest_first a b = leb a.dispatched_at b.dispatched_at

abbrev pub or_candidacy : Option Candidacy → Option Candidacy → Option Candidacy
or_candidacy none o = o
or_candidacy (some c) o = some c

-- `new Map(entries).get(candidacyKey(request, user))`: the last entry of a key wins.
abbrev pub candidacy_of : (request user : ℕ) → List (ℕ × ℕ × Candidacy) → Option Candidacy
candidacy_of request user [] = none
candidacy_of request user ((r, u, c) ∷ es) =
    or_candidacy (candidacy_of request user es) (if r == request && u == user then some c else none)

-- `scoreBreakdown` of a provider that the client picked.
abbrev pub no_breakdown : (n : Numbers) → ScoreBreakdown n.R
no_breakdown n = record {
  distance = n.zero;
  availability = n.zero;
  verification_level = n.zero;
  experience = n.zero;
  exploration = n.zero;
  reputation = n.zero;
  reliability = n.zero;
  history = n.zero;
  current_load = n.zero;
}

-- Zero where the request has no location or the profile no area.
abbrev pub direct_distance_km : Geo → ProviderProfile → Option ServiceRequest → Option ℕ
direct_distance_km geo profile none = some 0
direct_distance_km geo profile (some r) = elim r.location [
  | none ↦ some 0
  | some l ↦
      if ltb 0 (length profile.service_areas)
      then nearest_area_distance_km geo profile l.point
      else some 0
]

module _ (p : Platform) where
  unfoldable pub to_match_with_count : Match → Store p → MatchView
  to_match_with_count m s = record {
    doc = m;
    candidate_count = length (p.mongo.find (λ c. c.match_id == m.id) s.candidates);
  }

  unfoldable pub get_by_request : (request client : ℕ) → Exec (Store p) MatchView
  get_by_request request client = do
    get_by_id p.mongo request client
    found ← gets (λ s. p.mongo.find_one (match_of_request request) s.matches)
    m ← require_some found not_found
    gets (to_match_with_count m)

  abbrev pub direct_candidate :
      (now fresh : ℕ)
      → Match
      → ProviderProfile
      → Option ℕ
      → (expiry_seconds : ℕ) → MatchCandidate p.numbers.R
  direct_candidate now fresh m profile distance expiry_seconds = record {
    id = fresh;
    match_id = m.id;
    provider_id = profile.id;
    provider_user_id = profile.user_id;
    request_id = m.request_id;
    batch_index = 0;
    status = notified;
    score = p.numbers.one;
    score_breakdown = no_breakdown p.numbers;
    distance_km = distance;
    decline_reason = none;
    dispatched_at = now;
    expires_at = now + expiry_seconds * 1000;
  }

  unfoldable pub dispatch_direct :
      (now fresh : ℕ) → Match → (provider_id expiry_seconds : ℕ) → Exec (Store p) (Unit {0})
  dispatch_direct now fresh m provider_id expiry_seconds = do
    found ← gets (find_profile p.mongo provider_id)
    profile ← require_some found not_found
    request ← gets (find_request p.mongo m.request_id)
    made ← gets (λ s.
        p.mongo.create candidate_clashes
          (direct_candidate now fresh m profile (direct_distance_km p.geo profile request)
            expiry_seconds)
          s.candidates)
    store_created made (λ c s. record s { candidates = c })
    save_match p m.id
        (λ d. record d { batch_count = 1; status = MatchStatus.exhausted; next_batch_at = none })

  -- The dispatch of a match that was just made.
  unfoldable pub first_dispatch :
      (now : ℕ) (fresh : ℕ → ℕ)
      → Match
      → StartMatchInput
      → (expiry_seconds : ℕ) → Exec (Store p) (Unit {0})
  first_dispatch now fresh m i expiry_seconds = elim m.mode [
    | direct ↦ dispatch_direct now (fresh 0) m (get_or i.provider_id 0) expiry_seconds
    | auto ↦ run_batch p now fresh m.id
  ]

  unfoldable pub start_new :
      (now : ℕ) (fresh : ℕ → ℕ) (request client : ℕ) → StartMatchInput → Exec (Store p) MatchView
  start_new now fresh request client i = do
    config ← gets (λ s. s.config)
    let m = new_match (fresh 0) request client (get_or i.mode auto) config.default_radius_km
    made ← gets (λ s. p.mongo.create match_clashes m s.matches)
    store_created made (λ c s. record s { matches = c })
    mark_matching p.mongo request
    first_dispatch now (λ k. fresh (suc k)) m i config.candidate_expiry_seconds
    get_by_request request client

  unfoldable pub start_found :
      (now : ℕ) (fresh : ℕ → ℕ) (request client : ℕ)
      → ServiceRequest
      → StartMatchInput
      → Option Match
      → Exec (Store p) MatchView
  start_found now fresh request client r i (some m) = gets (to_match_with_count m)
  start_found now fresh request client r i none =
      if is_requested r.status
      then start_new now fresh request client i
      else throw (domain bad_request request_not_matchable)

  unfoldable pub start :
      (now : ℕ) (fresh : ℕ → ℕ) (request client : ℕ) → StartMatchInput → Exec (Store p) MatchView
  unfolding start_found
  start now fresh request client i = do
    view ← get_by_id p.mongo request client
    existing ← gets (λ s. p.mongo.find_one (match_of_request request) s.matches)
    start_found now fresh request client view.doc i existing

  unfoldable pub require_active_match : (request client : ℕ) → Exec (Store p) Match
  require_active_match request client = do
    get_by_id p.mongo request client
    found ← gets (λ s. p.mongo.find_one (match_of_request request) s.matches)
    m ← require_some found not_found
    guard (is_active m.status) (domain bad_request match_not_active)
    pure m

  unfoldable pub expand_radius :
      (now : ℕ) (fresh : ℕ → ℕ) (request client radius : ℕ) → Exec (Store p) MatchView
  expand_radius now fresh request client radius = do
    m ← require_active_match request client
    config ← gets (λ s. s.config)
    guard (not (leb radius m.current_radius_km)) (domain bad_request match_radius_not_wider)
    save_match p m.id (λ d. record d { current_radius_km = min radius config.max_radius_km })
    run_batch p now fresh m.id
    get_by_request request client

  unfoldable pub save_candidate :
      ℕ → (MatchCandidate p.numbers.R → MatchCandidate p.numbers.R) → Exec (Store p) (Unit {0})
  save_candidate id f =
      modify (λ s. record s { candidates = p.mongo.update_one (candidate_by_id id) f s.candidates })

  unfoldable pub require_own_candidate : (id user : ℕ) → Exec (Store p) (MatchCandidate p.numbers.R)
  require_own_candidate id user = do
    found ← gets (λ s. p.mongo.find_one (candidate_by_id id) s.candidates)
    c ← require_some found not_found
    guard (c.provider_user_id == user) forbidden
    pure c

  unfoldable pub decline : (id user : ℕ) → (reason : Option ℕ) → Exec (Store p) (Unit {0})
  decline id user reason = do
    c ← require_own_candidate id user
    guard (not (is_declined c.status)) (domain bad_request match_already_declined)
    save_candidate c.id (λ d. record d { status = declined; decline_reason = reason })

  unfoldable pub ensure_viewed : MatchCandidate p.numbers.R → Exec (Store p) (Unit {0})
  ensure_viewed c =
      if is_notified c.status
      then save_candidate c.id (λ d. record d { status = viewed })
      else pure tt

  unfoldable pub mark_found : Option (MatchCandidate p.numbers.R) → Exec (Store p) (Unit {0})
  mark_found none = pure tt
  mark_found (some c) = ensure_viewed c

  unfoldable pub mark_candidacy_viewed : (id : ℕ) → Exec (Store p) (Unit {0})
  unfolding mark_found
  mark_candidacy_viewed id = do
    found ← gets (λ s. p.mongo.find_one (candidate_by_id id) s.candidates)
    mark_found found

  unfoldable pub find_candidacy : (now request user : ℕ) → Store p → Option Candidacy
  find_candidacy now request user s =
      elim (p.mongo.find_one (λ c. c.request_id == request && c.provider_user_id == user)
        (p.mongo.sort latest_first s.candidates)) [
          | none ↦ none
          | some c ↦ some (to_candidacy now c)
        ]

  unfoldable pub find_candidacy_by_id : (now id : ℕ) → Store p → Option NamedCandidacy
  find_candidacy_by_id now id s = elim (p.mongo.find_one (candidate_by_id id) s.candidates) [
    | none ↦ none
    | some c ↦ some (to_named_candidacy now c)
  ]

  -- The candidacies of `pairs`, the most recent last; `Map` keeps the last of each key.
  unfoldable pub find_candidacies : (now : ℕ) → List (ℕ × ℕ) → Store p → List (ℕ × ℕ × Candidacy)
  find_candidacies now pairs s =
      map (λ c. (c.request_id, c.provider_user_id, to_candidacy now c))
        (p.mongo.sort oldest_first (
          p.mongo.find (λ c. any (λ q. c.request_id == q.0 && c.provider_user_id == q.1) pairs)
            s.candidates))
