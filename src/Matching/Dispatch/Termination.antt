-- ===== src/Matching/Dispatch/Termination.antt =====
-- A run of the dispatch loop comes to an end (apps/api/src/matching/dispatch.service.ts).
use appforfixiyi.Common.{
  ℕ, ◌≡◌, refl, Bool, true, false, some, List, [], ◌∷◌, arith, inl, inr, leb, Bool-cases,
  Option-cases, find?, Returns, Returns-bind, diverged,
}
use appforfixiyi.Store.Entities.Requests.{ServiceRequest}
use appforfixiyi.Store.Entities.Matching.{Match, MatchCandidate, MatchingConfig}
use appforfixiyi.Requests.{find_by_id as find_request, by_id as request_by_id}
use appforfixiyi.Matching.Loops.{
  is_active, is_matching_status, match_by_id, candidate_clashes, insert_many,
}
use appforfixiyi.Matching.Platform.{Platform}
use appforfixiyi.Matching.Dispatch.{
  Store, Selection, terminate, save_match, expire_stale_candidates, candidates_of, persist_batch,
  finish_batch, record_batch, next_batch, run_active, run_found, run_batch, select_next_batch,
  insert_result, schedule_next_batch,
}
use appforfixiyi.Matching.Dispatch.Radius.{IsGrowing, select_next_batch-IsWidened}

module _ (p : Platform) (now : ℕ) (fresh : ℕ → ℕ) where
  record_batch-Returns :
      (m : Match) (id : ℕ) (ids : List ℕ) (radius wait : ℕ)
      → Returns {S = Store p} (record_batch p now id m ids radius wait)
  unfolding record_batch save_match schedule_next_batch
  record_batch-Returns m id ids radius wait s = ground (arith)

  insert_result-Returns :
      (x : List (MatchCandidate p.numbers.R) × Bool) → Returns {S = Store p} (insert_result p x)
  insert_result-Returns (c, true) s = refl
  insert_result-Returns (c, false) s = refl

  persist_batch-Returns :
      (m : Match) (r : ServiceRequest) (config : MatchingConfig p.numbers.R)
      (es : List (Selection p.numbers)) (radius : ℕ)
      → Returns {S = Store p} (persist_batch p now fresh m r es radius config)
  unfolding persist_batch
  persist_batch-Returns m r config es radius s =
      Returns-bind {S = Store p}
        (insert_result p (
          insert_many p.mongo candidate_clashes (candidates_of p now fresh 1 m config es)
            s.candidates))
        _ (insert_result-Returns _) (λ _. record_batch-Returns m _ _ radius _) s

  finish_batch-Returns :
      (m : Match) (r : ServiceRequest) (config : MatchingConfig p.numbers.R)
      (es : List (Selection p.numbers)) (radius : ℕ)
      → Returns {S = Store p} (finish_batch p now fresh m r config (some (es, radius)))
  unfolding finish_batch terminate save_match
  finish_batch-Returns m r config [] radius s = refl
  finish_batch-Returns m r config (e ∷ es) radius s =
      persist_batch-Returns m r config (e ∷ es) radius s

  finish_found-Returns :
      (m : Match) (r : ServiceRequest) (config : MatchingConfig p.numbers.R) (excluded : List ℕ)
      (s : Store p)
      → IsGrowing p.numbers.add_km config.max_radius_km config.radius_expansion_step_km
      → Returns {S = Store p}
          (finish_batch p now fresh m r config (select_next_batch p now m r config excluded s))
  finish_found-Returns m r config excluded s st t =
      let (n, found, radius, same, ends, bound) =
        select_next_batch-IsWidened p now m r config excluded s st in
      rw same (finish_batch-Returns m r config found radius t)

  next_batch-Returns :
      (m : Match) (r : ServiceRequest) (s : Store p)
      → IsGrowing p.numbers.add_km s.config.max_radius_km s.config.radius_expansion_step_km
      → diverged (next_batch p now fresh m r s).0 ≡ false
  unfolding next_batch expire_stale_candidates terminate save_match
  next_batch-Returns m r s st =
      elim (Bool-cases (leb s.config.max_batches_per_match m.batch_count)) [
        | inl e ↦ rw e refl
        | inr e ↦ rw e (finish_found-Returns m r s.config _ _ st _)
      ]

  -- Where the step of the configuration widens every radius below the maximum (rounding loses none of
  -- the steps), a run for any match comes to an end: it returns or throws.
  pub run_batch-Returns :
      (i : ℕ) (s : Store p)
      → IsGrowing p.numbers.add_km s.config.max_radius_km s.config.radius_expansion_step_km
      → diverged (run_batch p now fresh i s).0 ≡ false
  unfolding run_batch run_found run_active find_request terminate save_match
  run_batch-Returns i s st = elim (Option-cases (find? (match_by_id i) s.matches)) [
    | inl e ↦ rw (p.mongo.find_one_lem, e) refl
    | inr (m, e) ↦ elim (Bool-cases (is_active m.status)) [
      | inr a ↦ rw (p.mongo.find_one_lem, e, a) refl
      | inl a ↦ elim (Option-cases (find? (request_by_id m.request_id) s.requests)) [
        | inl f ↦ rw (p.mongo.find_one_lem, e, a, p.mongo.find_one_lem, f) refl
        | inr (r, f) ↦ elim (Bool-cases (is_matching_status r.status)) [
          | inl g ↦
              rw (p.mongo.find_one_lem, e, a, p.mongo.find_one_lem, f, g)
                (next_batch-Returns m r s st)
          | inr g ↦ rw (p.mongo.find_one_lem, e, a, p.mongo.find_one_lem, f, g) refl
        ]
      ]
    ]
  ]
