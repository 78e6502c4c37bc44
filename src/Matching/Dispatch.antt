-- ===== src/Matching/Dispatch.antt =====
-- apps/api/src/matching/dispatch.service.ts: batch after batch, each within a wider radius if need
-- be. `now` is the instant of the call and `fresh k` the k-th id that `generateId()` returns in it.
pub mod Radius
pub mod Candidates
pub mod Termination
pub mod Once
pub mod Room
pub mod Success
use appforfixiyi.Common.{
  ℕ, zero, suc, ◌+◌, ◌*◌, ◌≤◌, ◌<◌, Bool, true, false, not, ◌&&◌, ◌||◌, Option, none, some, List,
  [], ◌∷◌, ◌++◌, map, any, length, contains, ◌==◌, leb, ltb, if◌then◌else◌, min, max, Exec, Result,
  ok, err, pure, gets, modify, throw, ◌>>=◌, ◌>>◌, diverges, duplicate_key, truthy, get_or, or_else,
  is_some, count,
}
use appforfixiyi.Store.{Mongo}
use appforfixiyi.Store.Database.{Db, store_created}
use appforfixiyi.Store.Entities.Requests.{
  RequestStatus, RequestUrgency, normal, urgent, ServiceRequest, GeoPoint, Location,
}
use appforfixiyi.Store.Entities.Matching.{
  Match, MatchStatus, MatchCandidate, ProviderProfile, MatchCandidateStatus, notified, viewed,
  declined, ScoreBreakdown, DispatchBatch, Job, MatchingConfig,
}
use appforfixiyi.Matching.Loops.{
  is_active, is_notified, is_matching_status, is_urgent, match_by_id, candidate_clashes,
  batch_clashes, maximum, widen, rounds, insert_many,
}
use appforfixiyi.Requests.{find_by_id as find_request}
use appforfixiyi.Matching.Platform.{Platform}
use appforfixiyi.Matching.Numbers.{Numbers}
use appforfixiyi.Matching.Ranking.{
  RankingCandidate, RankingContext, Ranked, rank_candidates, select_batch,
}
use appforfixiyi.Matching.Eligibility.{EligibleProvider, EligibilityQuery, find_eligible}

-- `new Map(...).get(id)`: of two entries with one key the later counts.
abbrev pub profile_of : ℕ → List EligibleProvider → Option ProviderProfile
profile_of i [] = none
profile_of i (e ∷ es) =
    or_else (profile_of i es) (if e.profile.id == i then some e.profile else none)

-- A selected entry with its profile.
pub record Selection (n : Numbers) : Type 0 where
  pub entry : Ranked n
  pub profile : Option ProviderProfile

module _ (p : Platform) where
  abbrev pub Store : Type 0
  Store = Db p.numbers.R

  -- `match.save()`.
  unfoldable pub save_match : ℕ → (Match → Match) → Exec Store (Unit {0})
  save_match id f =
      modify (λ s. record s { matches = p.mongo.update_one (match_by_id id) f s.matches })

  -- `terminate`; the radius that the caller set is a modified field too.
  unfoldable pub terminate : Match → MatchStatus → Exec Store (Unit {0})
  terminate m status = save_match m.id (λ d. record d {
    status = status;
    current_radius_km = m.current_radius_km;
    next_batch_at = none;
  })

  unfoldable pub is_stale : ℕ → (now : ℕ) → MatchCandidate p.numbers.R → Bool
  is_stale match_id now c = c.match_id == match_id && is_notified c.status && ltb c.expires_at now

  unfoldable pub expire_stale_candidates : ℕ → (now : ℕ) → Exec Store (Unit {0})
  expire_stale_candidates match_id now = modify (λ s. record s {
    candidates =
        p.mongo.update_many (is_stale match_id now)
          (λ c. record c { status = MatchCandidateStatus.expired }) s.candidates;
  })

  -- What `rankEligible` does for a request that has its service, complexity and location.
  unfoldable pub rank_all :
      (now : ℕ)
      → Option RequestUrgency
      → MatchingConfig p.numbers.R
      → EligibilityQuery p.numbers.R
      → Store
      → List (Selection p.numbers)
  rank_all now urgency config q s =
      let eligible = find_eligible p.mongo p.geo q s in
      let ranked =
        rank_candidates p.numbers (map (λ e. e.ranking) eligible)
          (record {
            radius_km = q.radius_km;
            at = now;
            max_past_dispatch_count = maximum (map (λ e. e.ranking.past_dispatch_count) eligible);
          })
          config.weights in
      map (λ e. record { entry = e; profile = profile_of e.candidate.provider_id eligible })
        (select_batch p.numbers ranked
          (if is_urgent urgency then config.urgent_batch_size else config.batch_size)
          config.exploration_slots_per_batch)

  abbrev pub query_at :
      Location
      → ServiceRequest
      → MatchingConfig p.numbers.R
      → ℕ
      → List ℕ
      → EligibilityQuery p.numbers.R
  query_at l r config radius excluded = record {
    service_id = get_or r.service_id 0;
    complexity_id = get_or r.complexity_id 0;
    point = l.point;
    radius_km = radius;
    exclude_provider_ids = excluded;
    config = config;
  }

  unfoldable pub rank_at :
      (now : ℕ)
      → Option Location
      → ServiceRequest
      → MatchingConfig p.numbers.R
      → ℕ
      → List ℕ
      → Store
      → List (Selection p.numbers)
  rank_at now none r config radius excluded s = []
  rank_at now (some l) r config radius excluded s =
      if truthy r.service_id && truthy r.complexity_id
      then rank_all now r.urgency config (query_at l r config radius excluded) s
      else []

  unfoldable pub rank_eligible :
      (now : ℕ)
      → ServiceRequest
      → MatchingConfig p.numbers.R
      → ℕ
      → List ℕ
      → Store
      → List (Selection p.numbers)
  unfolding rank_at
  rank_eligible now r = rank_at now r.location r

  unfoldable pub select_next_batch :
      (now : ℕ)
      → Match
      → ServiceRequest
      → MatchingConfig p.numbers.R
      → List ℕ
      → Store
      → Option (List (Selection p.numbers) × ℕ)
  select_next_batch now m r config excluded s =
      widen p.numbers.add_km (λ radius. rank_eligible now r config radius excluded s)
        config.max_radius_km config.radius_expansion_step_km (rounds config.max_radius_km)
        m.current_radius_km

  abbrev pub candidate_of :
      (now id : ℕ)
      → Match
      → MatchingConfig p.numbers.R
      → Ranked p.numbers
      → ProviderProfile
      → MatchCandidate p.numbers.R
  candidate_of now id m config e profile = record {
    id = id;
    match_id = m.id;
    provider_id = e.candidate.provider_id;
    provider_user_id = profile.user_id;
    request_id = m.request_id;
    batch_index = m.batch_count;
    status = notified;
    score = e.score;
    score_breakdown = e.breakdown;
    distance_km = e.candidate.distance_km;
    decline_reason = none;
    dispatched_at = now;
    expires_at = now + config.candidate_expiry_seconds * 1000;
  }

  -- The entries with a profile, each with the next id.
  unfoldable pub candidates_of :
      (now : ℕ) (fresh : ℕ → ℕ) (k : ℕ)
      → Match
      → MatchingConfig p.numbers.R
      → List (Selection p.numbers)
      → List (MatchCandidate p.numbers.R)
  candidates_of now fresh k m config [] = []
  candidates_of now fresh k m config (e ∷ es) = elim e.profile [
    | none ↦ candidates_of now fresh k m config es
    | some q ↦
        candidate_of now (fresh k) m config e.entry q ∷ candidates_of now fresh (suc k) m config es
  ]

  unfoldable pub schedule_next_batch : ℕ → ℕ → ℕ → Exec Store (Unit {0})
  schedule_next_batch match_id batch_index wait_seconds = modify (λ s. record s {
    jobs =
        p.enqueue
          (record {
            match_id = match_id;
            batch_index = batch_index;
            delay_ms = wait_seconds * 1000;
          })
          s.jobs;
  })

  abbrev insert_result : List (MatchCandidate p.numbers.R) × Bool → Exec Store (Unit {0})
  insert_result (c, true) s = (ok tt, record s { candidates = c })
  insert_result (c, false) s = (err duplicate_key, record s { candidates = c })

  -- `persistBatch` after the candidates are inserted.
  unfoldable pub record_batch :
      (now fresh : ℕ)
      → Match
      → (candidate_ids : List ℕ) → (radius wait_seconds : ℕ) → Exec Store (Unit {0})
  record_batch now fresh m candidate_ids radius wait_seconds = do
    made ← gets (λ s.
        p.mongo.create batch_clashes
          (record {
            id = fresh;
            match_id = m.id;
            index = m.batch_count;
            radius_km = radius;
            candidate_ids = candidate_ids;
            dispatched_at = now;
          })
          s.batches)
    store_created made (λ c s. record s { batches = c })
    save_match m.id (λ d. record d {
      batch_count = m.batch_count + 1;
      current_radius_km = radius;
      next_batch_at = some (now + wait_seconds * 1000);
    })
    schedule_next_batch m.id (m.batch_count + 1) wait_seconds

  unfoldable pub persist_batch :
      (now : ℕ) (fresh : ℕ → ℕ)
      → Match
      → ServiceRequest
      → List (Selection p.numbers)
      → ℕ
      → MatchingConfig p.numbers.R
      → Exec Store (Unit {0})
  persist_batch now fresh m r selected radius config = do
    let candidates = candidates_of now fresh 1 m config selected
    inserted ← gets (λ s. insert_many p.mongo candidate_clashes candidates s.candidates)
    insert_result inserted
    record_batch now (fresh 0) m (map (λ c. c.id) candidates) radius (
        if is_urgent r.urgency then config.urgent_batch_wait_seconds else config.batch_wait_seconds)

  -- What `runBatch` does with the outcome of the search; `none` is a search that never ends.
  unfoldable pub finish_batch :
      (now : ℕ) (fresh : ℕ → ℕ)
      → Match
      → ServiceRequest
      → MatchingConfig p.numbers.R
      → Option (List (Selection p.numbers) × ℕ)
      → Exec Store (Unit {0})
  finish_batch now fresh m r config none = throw diverges
  finish_batch now fresh m r config (some ([], radius)) =
      terminate (record m { current_radius_km = radius }) MatchStatus.exhausted
  finish_batch now fresh m r config (some (e ∷ es, radius)) =
      persist_batch now fresh m r (e ∷ es) radius config

  -- `find({ matchId }).select("providerId")`.
  abbrev pub dispatched_ids : ℕ → Store → List ℕ
  dispatched_ids match_id s =
      map (λ c. c.provider_id) (p.mongo.find (λ c. c.match_id == match_id) s.candidates)

  unfoldable pub next_batch :
      (now : ℕ) (fresh : ℕ → ℕ) → Match → ServiceRequest → Exec Store (Unit {0})
  next_batch now fresh m r = do
    expire_stale_candidates m.id now
    config ← gets (λ s. s.config)
    if leb config.max_batches_per_match m.batch_count then terminate m MatchStatus.exhausted else do
      excluded ← gets (dispatched_ids m.id)
      outcome ← gets (select_next_batch now m r config excluded)
      finish_batch now fresh m r config outcome

  -- A request that is gone or not MATCHING ends the match.
  unfoldable pub run_active :
      (now : ℕ) (fresh : ℕ → ℕ) → Match → Option ServiceRequest → Exec Store (Unit {0})
  run_active now fresh m none = terminate m MatchStatus.cancelled
  run_active now fresh m (some r) =
      if is_matching_status r.status
      then next_batch now fresh m r
      else terminate m MatchStatus.cancelled

  unfoldable pub run_found : (now : ℕ) (fresh : ℕ → ℕ) → Option Match → Exec Store (Unit {0})
  run_found now fresh none = pure tt
  run_found now fresh (some m) =
      if is_active m.status
      then (do request ← gets (find_request p.mongo m.request_id); run_active now fresh m request)
      else pure tt

  unfoldable pub run_batch : (now : ℕ) (fresh : ℕ → ℕ) → (match_id : ℕ) → Exec Store (Unit {0})
  unfolding run_found
  run_batch now fresh match_id = do
    found ← gets (λ s. p.mongo.find_one (match_by_id match_id) s.matches)
    run_found now fresh found
