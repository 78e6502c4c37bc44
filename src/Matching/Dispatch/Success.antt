-- ===== src/Matching/Dispatch/Success.antt =====
-- A run of the dispatch loop does not fail on its own writes, and contacts nobody twice in a match
-- (`runBatch` of apps/api/src/matching/dispatch.service.ts).
use appforfixiyi.Common.{
  ℕ, suc, ◌+◌, ◌≤◌, ◌≡◌, refl, ap, ◌∙◌, Bool, true, false, ◌&&◌, some, List, [], ◌∷◌, ◌++◌, arith,
  inl, inr, ◌⊎◌, ◌==◌, ==_refl, leb, Bool-cases, Option-cases, any, count, contains, count-append,
  ok, find?, count-update_all-eq, update_all,
}
use appforfixiyi.Store.Entities.Requests.{ServiceRequest}
use appforfixiyi.Store.Entities.Matching.{
  Match, MatchCandidate, MatchCandidateStatus, MatchingConfig, DispatchBatch,
}
use appforfixiyi.Requests.{find_by_id as find_request, by_id as request_by_id}
use appforfixiyi.Providers.{by_id as profile_by_id}
use appforfixiyi.Matching.Loops.{is_active, is_matching_status, match_by_id, batch_clashes}
use appforfixiyi.Matching.Platform.{Platform}
use appforfixiyi.Matching.Dispatch.{
  Store, Selection, candidates_of, record_batch, persist_batch, finish_batch, next_batch,
  run_active, run_found, run_batch, expire_stale_candidates, is_stale, terminate, save_match,
  schedule_next_batch, select_next_batch, dispatched_ids,
}
use appforfixiyi.Matching.Dispatch.Candidates.{persist_batch-candidates}
use appforfixiyi.Matching.Dispatch.Once.{candidate_for, selected-AtMost}
use appforfixiyi.Matching.Dispatch.Radius.{IsGrowing, select_next_batch-IsWidened}
use appforfixiyi.Matching.Dispatch.Room.{
  has_id, in_match, contains_of_count, IsRoom, insert_many-ok, candidates_nil, candidates_cons,
  candidates_skip,
}

zero_or_more : (n : ℕ) → (n ≡ 0) ⊎ (1 ≤ n)
zero_or_more n = ground arith

both : {b : Bool} → b ≡ true → b ≡ false → ⊥
both h k = cc

no_batch_clash :
    (b : DispatchBatch) (c : List DispatchBatch)
    → count (λ x. x.id == b.id) c ≡ 0
    → count (λ x. x.match_id == b.match_id && x.index == b.index) c ≡ 0
    → any (batch_clashes b) c ≡ false
no_batch_clash b [] h k = refl
no_batch_clash b (x ∷ xs) h k = ground (arith, no_batch_clash b xs)

module _ (p : Platform) (now : ℕ) (fresh : ℕ → ℕ) (distinct : (a b : ℕ) → fresh a ≡ fresh b → a ≡ b)
    (m : Match) (config : MatchingConfig p.numbers.R) where
  -- No batch has the id or the index that the next one gets.
  IsNextBatch : List DispatchBatch → Type 0
  IsNextBatch b =
      (count (λ x. x.id == fresh 0) b ≡ 0)
      × (count (λ x. x.match_id == m.id && x.index == m.batch_count) b ≡ 0)

  record_batch-ok :
      (ids : List ℕ) (radius wait : ℕ) (s : Store p)
      → IsNextBatch s.batches
      → (record_batch p now (fresh 0) m ids radius wait s).0 ≡ ok tt
  unfolding record_batch save_match schedule_next_batch IsNextBatch
  record_batch-ok ids radius wait s h =
      rw
        (
          p.mongo.create_lem,
          no_batch_clash
              (record {
                id = fresh 0;
                match_id = m.id;
                index = m.batch_count;
                radius_km = radius;
                candidate_ids = ids;
                dispatched_at = now;
              })
              s.batches h.0 h.1,
        )
        refl

  persist_batch-ok :
      (r : ServiceRequest) (es : List (Selection p.numbers)) (radius : ℕ) (s : Store p)
      → IsRoom p now fresh distinct m config 1 es s.candidates
      → IsNextBatch s.batches
      → ((persist_batch p now fresh m r es radius config s).0 ≡ ok tt)
        × ((persist_batch p now fresh m r es radius config s).1.candidates
            ≡ s.candidates ++ candidates_of p now fresh 1 m config es)
  unfolding persist_batch
  persist_batch-ok r es radius s room free = (
    rw (insert_many-ok p now fresh distinct m config 1 es s.candidates room)
        (record_batch-ok _ radius _ _ free),
    persist_batch-candidates p now fresh m config r es radius s
        ∙ ap (λ x. x.0) (insert_many-ok p now fresh distinct m config 1 es s.candidates room),
  )

  -- The match has at most one candidate for each provider.
  IsOnce : List (MatchCandidate p.numbers.R) → Type 0
  IsOnce c = (i : ℕ) → count (in_match m.id i) c ≤ 1

  count-new :
      (i k : ℕ) (es : List (Selection p.numbers))
      → count (in_match m.id i) (candidates_of p now fresh k m config es)
        ≡ count (candidate_for p i) (candidates_of p now fresh k m config es)
  count-new i k [] = rw (candidates_nil p now fresh distinct m config k) refl
  count-new i k (e ∷ es) = elim (Option-cases e.profile) [
    | inl skip ↦ rw (candidates_skip p now fresh distinct m config k e es skip) (count-new i k es)
    | inr (q, same) ↦
        rw (candidates_cons p now fresh distinct m config k e es q same, ==_refl)
          (omega (arith, count-new i (suc k) es))
  ]

  finish_batch-ok :
      (r : ServiceRequest) (es : List (Selection p.numbers)) (radius : ℕ) (s : Store p)
      → IsRoom p now fresh distinct m config 1 es s.candidates
      → IsOnce s.candidates
      → IsNextBatch s.batches
      → ((finish_batch p now fresh m r config (some (es, radius)) s).0 ≡ ok tt)
        × IsOnce (finish_batch p now fresh m r config (some (es, radius)) s).1.candidates
  unfolding finish_batch terminate save_match IsOnce
  finish_batch-ok r [] radius s room once free = (refl, once)
  finish_batch-ok r (e ∷ es) radius s room once free =
      let (done, holds) = persist_batch-ok r (e ∷ es) radius s room free in
      (done, λ i. rw (holds, count-append, count-new i 1 (e ∷ es)) (omega (arith, room.1 i)))

  expired : List (MatchCandidate p.numbers.R) → List (MatchCandidate p.numbers.R)
  expired =
      update_all (is_stale p m.id now) (λ c. record c { status = MatchCandidateStatus.expired })

  -- Nothing that a run relies on is changed by the expiry of stale candidates.
  count-expired :
      (t : MatchCandidate p.numbers.R → Bool) (c : List (MatchCandidate p.numbers.R))
      → ((x : MatchCandidate p.numbers.R)
          → t (record x { status = MatchCandidateStatus.expired }) ≡ t x)
      → count t (expired c) ≡ count t c
  unfolding expired
  count-expired t c h =
      count-update_all-eq t (is_stale p m.id now)
        (λ c. record c { status = MatchCandidateStatus.expired }) c h

  next-IsRoom :
      (r : ServiceRequest) (s : Store p) {found : List (Selection p.numbers)} {radius : ℕ}
      → ((i : ℕ) → count (profile_by_id i) s.profiles ≤ 1)
      → ((j : ℕ) → count (has_id (fresh j)) s.candidates ≡ 0)
      → IsOnce s.candidates
      → select_next_batch p now m r config (dispatched_ids p m.id s) s ≡ some (found, radius)
      → IsRoom p now fresh distinct m config 1 found s.candidates
  unfolding IsOnce
  next-IsRoom r s {found} {radius} profiles unused once e = ((λ j h. unused j), apart)
    where
      apart :
          (i : ℕ)
          → count (candidate_for p i) (candidates_of p now fresh 1 m config found)
              + count (in_match m.id i) s.candidates
            ≤ 1
      apart i =
          let (few, none_here) =
            selected-AtMost p i now fresh 1 m r config (dispatched_ids p m.id s) s (profiles i) e in
          elim (Bool-cases (contains i (dispatched_ids p m.id s))) [
            | inl c ↦ omega (arith, none_here c, once i)
            | inr c ↦ elim (zero_or_more (count (in_match m.id i) s.candidates)) [
              | inl z ↦ omega (arith, few, z)
              | inr more ↦
                  absurd (both (rw p.mongo.find_lem (contains_of_count m.id i s.candidates more)) c)
            ]
          ]

  finish_found-ok :
      (r : ServiceRequest) (s : Store p)
      → IsGrowing p.numbers.add_km config.max_radius_km config.radius_expansion_step_km
      → ((i : ℕ) → count (profile_by_id i) s.profiles ≤ 1)
      → ((j : ℕ) → count (has_id (fresh j)) s.candidates ≡ 0)
      → IsOnce s.candidates
      → IsNextBatch s.batches
      → let outcome = select_next_batch p now m r config (dispatched_ids p m.id s) s in
        ((finish_batch p now fresh m r config outcome s).0 ≡ ok tt)
        × IsOnce (finish_batch p now fresh m r config outcome s).1.candidates
  finish_found-ok r s st profiles unused once free =
      let (n, found, radius, e, ends, bound) =
        select_next_batch-IsWidened p now m r config (dispatched_ids p m.id s) s st in
      rw e (finish_batch-ok r found radius s (next-IsRoom r s profiles unused once e) once free)

  next_batch-ok :
      (r : ServiceRequest) (s : Store p)
      → s.config ≡ config
      → IsGrowing p.numbers.add_km config.max_radius_km config.radius_expansion_step_km
      → ((i : ℕ) → count (profile_by_id i) s.profiles ≤ 1)
      → ((j : ℕ) → count (has_id (fresh j)) s.candidates ≡ 0)
      → IsOnce s.candidates
      → IsNextBatch s.batches
      → ((next_batch p now fresh m r s).0 ≡ ok tt)
        × IsOnce (next_batch p now fresh m r s).1.candidates
  unfolding next_batch expire_stale_candidates terminate save_match IsOnce expired
  next_batch-ok r s same st profiles unused once free =
      let once₁ : IsOnce (expired s.candidates) =
        λ i. rw (count-expired (in_match m.id i) s.candidates (λ x. refl)) (once i) in
      let unused₁ : (j : ℕ) → count (has_id (fresh j)) (expired s.candidates) ≡ 0 =
        λ j. rw (count-expired (has_id (fresh j)) s.candidates (λ x. refl)) (unused j) in
      elim (Bool-cases (leb config.max_batches_per_match m.batch_count)) [
        | inl full ↦ rw (p.mongo.update_many_lem, same, full) (refl, once₁)
        | inr more ↦
            rw (p.mongo.update_many_lem, same, more)
              (finish_found-ok r (record s { candidates = expired s.candidates; config = config })
                st profiles unused₁ once₁ free)
      ]

module _ (p : Platform) (now : ℕ) (fresh : ℕ → ℕ)
    (distinct : (a b : ℕ) → fresh a ≡ fresh b → a ≡ b) where
  -- A run for an ACTIVE match whose request is MATCHING succeeds, and contacts no provider of the
  -- match a second time. This is where the step of the configuration widens every radius
  -- below the maximum (rounding loses none of the steps), the ids of profiles are
  -- unique, the match has at most one candidate for each provider, the fresh ids are different and
  -- no candidate has one of them, and no batch has the first of them or the match's next index.
  pub run_batch-once :
      (i : ℕ) (s : Store p) {m : Match} {r : ServiceRequest}
      → find? (match_by_id i) s.matches ≡ some m
      → is_active m.status ≡ true
      → find? (request_by_id m.request_id) s.requests ≡ some r
      → is_matching_status r.status ≡ true
      → IsGrowing p.numbers.add_km s.config.max_radius_km s.config.radius_expansion_step_km
      → ((k : ℕ) → count (profile_by_id k) s.profiles ≤ 1)
      → ((k : ℕ) → count (in_match m.id k) s.candidates ≤ 1)
      → ((j : ℕ) → count (has_id (fresh j)) s.candidates ≡ 0)
      → count (λ b. b.id == fresh 0) s.batches ≡ 0
      → count (λ b. b.match_id == m.id && b.index == m.batch_count) s.batches ≡ 0
      → ((run_batch p now fresh i s).0 ≡ ok tt)
        × ((k : ℕ) → count (in_match m.id k) (run_batch p now fresh i s).1.candidates ≤ 1)
  unfolding run_batch run_found run_active find_request IsOnce IsNextBatch
  run_batch-once i s {m} {r} h a g e st profiles once unused ids index =
      rw (p.mongo.find_one_lem, h, a, p.mongo.find_one_lem, g, e)
        (next_batch-ok p now fresh distinct m s.config r s refl st profiles unused once
          (ids, index))
