-- ===== src/Matching/Dispatch/Candidates.antt =====
-- What becomes of a match's candidates in one run of the dispatch loop (`runBatch`, `persistBatch` and
-- `expireStaleCandidates` of apps/api/src/matching/dispatch.service.ts).
use appforfixiyi.Common.{
  ℕ, zero, suc, ap, ◌∙◌, ◌+◌, ◌*◌, ◌≤◌, ◌≡◌, refl, Bool, true, false, not, ◌&&◌, ◌||◌, Option, none,
  some, List, [], ◌∷◌, ◌++◌, arith, inl, inr, ◌==◌, leb, ltb, if◌then◌else◌, length, Bool-cases,
  Option-cases, find?, update_all, All, any, truthy, min, length-map, Keeps, view_bind,
}
use appforfixiyi.Store.{Mongo}
use appforfixiyi.Store.Entities.Requests.{ServiceRequest, RequestUrgency}
use appforfixiyi.Store.Entities.Matching.{
  Match, MatchCandidate, MatchingConfig, MatchCandidateStatus, notified,
}
use appforfixiyi.Requests.{find_by_id as find_request, by_id as request_by_id}
use appforfixiyi.Matching.Loops.{
  is_active, is_notified, is_matching_status, match_by_id, candidate_clashes, insert_many, widen,
  is_urgent,
}
use appforfixiyi.Matching.Platform.{Platform}
use appforfixiyi.Matching.Eligibility.{EligibilityQuery}
use appforfixiyi.Matching.Ranking.Batch.{length-select_batch-le}
use appforfixiyi.Matching.Dispatch.{
  Store, Selection, terminate, save_match, expire_stale_candidates, is_stale, candidates_of,
  persist_batch, record_batch, finish_batch, next_batch, run_active, run_found, run_batch,
  select_next_batch, insert_result, schedule_next_batch, rank_eligible, rank_at, rank_all,
}

pub append_nil : {D : Type 0} (c : List D) → c ≡ c ++ []
append_nil [] = refl
append_nil (d ∷ ds) = ap (λ xs. d ∷ xs) (append_nil ds)

pub append_one :
    {D : Type 0} (c : List D) (d : D) (new : List D) → ((c ++ d ∷ []) ++ new) ≡ (c ++ d ∷ new)
append_one [] d new = refl
append_one (x ∷ xs) d new = ap (λ ys. x ∷ ys) (append_one xs d new)

module _ {D : Type 0} (mongo : Mongo) (clash : D → D → Bool) where
  insert_many-clash :
      (d : D) (ds c : List D)
      → any (clash d) c ≡ true
      → (insert_many mongo clash (d ∷ ds) c).0 ≡ (insert_many mongo clash ds c).0
  unfolding insert_many
  insert_many-clash d ds c e = ground (arith, mongo.create_lem {D = D} clash d c)

  pub insert_many_fresh :
      (d : D) (ds c : List D)
      → any (clash d) c ≡ false
      → insert_many mongo clash (d ∷ ds) c ≡ insert_many mongo clash ds (c ++ d ∷ [])
  unfolding insert_many
  insert_many_fresh d ds c e = ground (arith, mongo.create_lem {D = D} clash d c)

  -- `insertMany` only appends, and only documents that it was given.
  pub insert_many-appends {κ} :
      (P : D → Type κ) (ds c : List D)
      → All P ds
      → (new : List D) × ((insert_many mongo clash ds c).0 ≡ c ++ new)
        × All P new
        × (length new ≤ length ds)
  unfolding insert_many
  insert_many-appends P [] c h = ([], append_nil c, tt, omega arith)
  insert_many-appends P (d ∷ ds) c h = elim (Bool-cases (any (clash d) c)) [
    | inl e ↦
        let (new, app, all, short) = insert_many-appends P ds c h.1 in
        (new, insert_many-clash d ds c e ∙ app, all, omega (arith, short))
    | inr e ↦
        let (new, app, all, short) = insert_many-appends P ds (c ++ d ∷ []) h.1 in
        (
          d ∷ new,
          ap (λ x. x.0) (insert_many_fresh d ds c e) ∙ app ∙ append_one c d new,
          (h.0, all),
          omega (arith, short),
        )
  ]

module _ (p : Platform) (now : ℕ) (fresh : ℕ → ℕ) (m : Match)
    (config : MatchingConfig p.numbers.R) where
  -- A candidate as a batch of the match adds it.
  pub IsNew : MatchCandidate p.numbers.R → Type 0
  IsNew c =
      (c.match_id ≡ m.id)
      × (c.request_id ≡ m.request_id)
      × (c.status ≡ notified)
      × (c.batch_index ≡ m.batch_count)
      × (c.dispatched_at ≡ now)
      × (c.expires_at ≡ now + config.candidate_expiry_seconds * 1000)

  candidates_of-All :
      (k : ℕ) (es : List (Selection p.numbers))
      → All IsNew (candidates_of p now fresh k m config es)
        × (length (candidates_of p now fresh k m config es) ≤ length es)
  unfolding candidates_of IsNew
  candidates_of-All k [] = (tt, omega arith)
  candidates_of-All k (e ∷ es) = elim (Option-cases e.profile) [
    | inl none_here ↦
        let (all, short) = candidates_of-All k es in rw none_here (all, omega (arith, short))
    | inr (q, some_here) ↦
        let (all, short) = candidates_of-All (suc k) es in
        rw some_here (((refl, refl, refl, refl, refl, refl), all), omega (arith, short))
  ]

  insert_result-candidates :
      (x : List (MatchCandidate p.numbers.R) × Bool) (s : Store p)
      → (insert_result p x s).1.candidates ≡ x.0
  insert_result-candidates (c, true) s = refl
  insert_result-candidates (c, false) s = refl

  record_batch-candidates :
      (id : ℕ) (ids : List ℕ) (radius wait : ℕ)
      → Keeps {S = Store p} (λ s. s.candidates) (record_batch p now id m ids radius wait)
  unfolding record_batch save_match schedule_next_batch
  record_batch-candidates id ids radius wait s = ground (arith)

  pub persist_batch-candidates :
      (r : ServiceRequest) (es : List (Selection p.numbers)) (radius : ℕ) (s : Store p)
      → (persist_batch p now fresh m r es radius config s).1.candidates
        ≡ (insert_many p.mongo candidate_clashes
            (candidates_of p now fresh 1 m config es)
            s.candidates).0
  unfolding persist_batch
  persist_batch-candidates r es radius s =
      view_bind {S = Store p} (λ s. s.candidates) {B = Unit {0}}
        (insert_result p (
          insert_many p.mongo candidate_clashes (candidates_of p now fresh 1 m config es)
            s.candidates))
        _ (λ _. record_batch-candidates _ _ radius _) s
      ∙ insert_result-candidates _ s

  -- The size of a batch for the request.
  pub batch_cap : ServiceRequest → ℕ
  batch_cap r = if is_urgent r.urgency then config.urgent_batch_size else config.batch_size

  -- `cs` is `before` with at most `most` new candidates of the match after it.
  pub Extends : ℕ → List (MatchCandidate p.numbers.R) → List (MatchCandidate p.numbers.R) → Type 0
  unfolding IsNew
  Extends most before cs =
      (new : List (MatchCandidate p.numbers.R)) × (cs ≡ before ++ new)
      × All IsNew new
      × (length new ≤ most)

  IsCapped : ServiceRequest → Option (List (Selection p.numbers) × ℕ) → Type 0
  IsCapped r none = Unit
  IsCapped r (some (es, _)) = length es ≤ batch_cap r

  length-rank_all-le :
      (urgency : Option RequestUrgency) (q : EligibilityQuery p.numbers.R) (s : Store p)
      → length (rank_all p now urgency config q s)
        ≤ (if is_urgent urgency then config.urgent_batch_size else config.batch_size)
  unfolding rank_all
  length-rank_all-le urgency q s = rw length-map (length-select_batch-le p.numbers _ _ _)

  length-rank_eligible-le :
      (r : ServiceRequest) (radius : ℕ) (excluded : List ℕ) (s : Store p)
      → length (rank_eligible p now r config radius excluded s) ≤ batch_cap r
  unfolding rank_eligible rank_at rank_all batch_cap
  length-rank_eligible-le r radius excluded s = elim (Option-cases r.location) [
    | inl e ↦ rw e (omega arith)
    | inr (l, e) ↦ elim (Bool-cases (truthy r.service_id && truthy r.complexity_id)) [
      | inl f ↦ rw (e, f) (length-rank_all-le r.urgency _ s)
      | inr f ↦ rw (e, f) (omega arith)
    ]
  ]

  widen-IsCapped :
      (r : ServiceRequest) (add_km : ℕ → ℕ → ℕ) (search : ℕ → List (Selection p.numbers))
      (most step fuel radius : ℕ)
      → ((x : ℕ) → length (search x) ≤ batch_cap r)
      → IsCapped r (widen add_km search most step fuel radius)
  unfolding widen IsCapped
  widen-IsCapped r add_km search most step zero radius h = tt
  widen-IsCapped r add_km search most step (suc fuel) radius h =
      elim (Bool-cases (not (length (search radius) == 0) || leb most radius)) [
        | inl e ↦ rw e (h radius)
        | inr e ↦
            rw e (widen-IsCapped r add_km search most step fuel (min most (add_km radius step)) h)
      ]

  finish_batch-Extends :
      (r : ServiceRequest) (o : Option (List (Selection p.numbers) × ℕ)) (s : Store p)
      → IsCapped r o
      → Extends (batch_cap r) s.candidates (finish_batch p now fresh m r config o s).1.candidates
  unfolding finish_batch terminate save_match IsCapped Extends
  finish_batch-Extends r none s h = ([], append_nil s.candidates, tt, omega arith)
  finish_batch-Extends r (some ([], radius)) s h = ([], append_nil s.candidates, tt, omega arith)
  finish_batch-Extends r (some (e ∷ es, radius)) s h =
      let made = candidates_of-All 1 (e ∷ es) in
      let (new, app, all, short) =
        insert_many-appends p.mongo candidate_clashes IsNew
          (candidates_of p now fresh 1 m config (e ∷ es)) s.candidates made.0 in
      (new, persist_batch-candidates r (e ∷ es) radius s ∙ app, all, omega (arith, short, made.1))

  select_next_batch-IsCapped :
      (r : ServiceRequest) (excluded : List ℕ) (s : Store p)
      → IsCapped r (select_next_batch p now m r config excluded s)
  unfolding select_next_batch
  select_next_batch-IsCapped r excluded s =
      widen-IsCapped r _ (λ x. rank_eligible p now r config x excluded s) _ _ _ _
        (λ x. length-rank_eligible-le r x excluded s)

  next_batch-Extends :
      (r : ServiceRequest) (s : Store p)
      → s.config ≡ config
      → Extends
          (batch_cap r)
          (update_all
            (is_stale p m.id now)
            (λ c. record c { status = MatchCandidateStatus.expired })
            s.candidates)
          (next_batch p now fresh m r s).1.candidates
  unfolding next_batch expire_stale_candidates terminate save_match Extends
  next_batch-Extends r s same = elim (Bool-cases (leb config.max_batches_per_match m.batch_count)) [
    | inl e ↦ rw (p.mongo.update_many_lem, same, e) ([], append_nil _, tt, omega arith)
    | inr e ↦
        rw (p.mongo.update_many_lem, same, e)
          (finish_batch-Extends r _ _ (select_next_batch-IsCapped r _ _))
  ]

module _ (p : Platform) (now : ℕ) (fresh : ℕ → ℕ) where
  -- A run for an ACTIVE match whose request is MATCHING keeps every candidate of the collection in its place and
  -- its fields, but that it marks EXPIRED those of the match that are still NOTIFIED past their expiry. After
  -- them it appends at most as many candidates as the batch size of the configuration (the urgent one
  -- for an urgent request), each of this match, NOTIFIED, with the batch's index and the expiry that
  -- the configuration says. This holds for every outcome, errors included.
  pub run_batch-Extends :
      (i : ℕ) (s : Store p) {m : Match} {r : ServiceRequest}
      → find? (match_by_id i) s.matches ≡ some m
      → is_active m.status ≡ true
      → find? (request_by_id m.request_id) s.requests ≡ some r
      → is_matching_status r.status ≡ true
      → Extends p now fresh m s.config
          (batch_cap p now fresh m s.config r)
          (update_all
            (λ c. c.match_id == m.id && is_notified c.status && ltb c.expires_at now)
            (λ c. record c { status = MatchCandidateStatus.expired })
            s.candidates)
          (run_batch p now fresh i s).1.candidates
  unfolding is_stale run_batch run_found run_active find_request
  run_batch-Extends i s {m} {r} h a g e =
      rw (p.mongo.find_one_lem, h, a, p.mongo.find_one_lem, g, e)
        (next_batch-Extends p now fresh m s.config r s refl)
