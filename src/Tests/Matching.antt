-- ===== src/Tests/Matching.antt =====
-- The matching engine on the small database.
use appforfixiyi.Common.{
  min, ℕ, ◌≡◌, ◌≤◌, refl, Bool, true, false, none, some, List, [], ◌∷◌, ◌++◌, ok, err, arith,
  not_found, domain, bad_request, match_already_declined, length, map, count, max, diverged,
  update_all, update_first, ◌==◌, ◌-◌, ltb, ◌<◌, ◌*◌, ◌&&◌, ◌+◌,
}
use Prim.Native.Nat.{◌/◌}
use appforfixiyi.Store.Entities.Requests.{requested, matching}
use appforfixiyi.Store.Entities.Matching.{direct, MatchCandidateStatus, available}
use appforfixiyi.Providers.{by_id as profile_by_id, ProviderDispatchSearch}
use appforfixiyi.Matching.Numbers.{thousandths}
use appforfixiyi.Matching.Platform.{test_platform}
use appforfixiyi.Matching.Loops.{widen, rounds, is_notified}
use appforfixiyi.Matching.Ranking.{
  RankingCandidate, RankingContext, Ranked, compute_score_breakdown, score_of, rank_candidates,
  select_batch,
}
use appforfixiyi.Matching.Ranking.Score.{
  IsRanked, IsNormalised, breakdown-IsNormalised, rank_candidates-IsRanked,
}
use appforfixiyi.Matching.Ranking.Batch.{IsDistinct, select_batch-IsDistinct}
use appforfixiyi.Matching.Ranking.Exploration.{IsMadeOf, select_batch-IsMadeOf}
use appforfixiyi.Matching.Dispatch.{
  Selection, rank_eligible, select_next_batch, run_batch, is_stale,
}
use appforfixiyi.Matching.Dispatch.Radius.{EndsAfter, select_next_batch-IsWidened, widen-stuck}
use appforfixiyi.Matching.Dispatch.Candidates.{Extends, batch_cap, run_batch-Extends}
use appforfixiyi.Matching.Dispatch.Room.{has_id, in_match}
use appforfixiyi.Matching.Dispatch.Success.{run_batch-once}
use appforfixiyi.Matching.Dispatch.Termination.{run_batch-Returns}
use appforfixiyi.Matching.Service.{
  new_match, start, decline, find_candidacy_by_id, is_live_candidacy,
}
use appforfixiyi.Matching.Service.Start.{start-unknown_provider}
use appforfixiyi.Matching.Service.Candidacies.{is_live-expired, decline-final}
use appforfixiyi.Tests.{sample, full_request, running_match, contacted, weights, config}

abbrev fresh : ℕ → ℕ
fresh k = 200 + k

abbrev pool_entry : (id past : ℕ) → RankingCandidate
pool_entry id past = record {
  provider_id = id;
  distance_km = some id;
  experience_years = some 2;
  availability = [];
  verified = true;
  past_dispatch_count = past;
}

abbrev pool : List RankingCandidate
pool = pool_entry 1 9 ∷ pool_entry 2 4 ∷ pool_entry 3 0 ∷ []

abbrev context : RankingContext
context = record { radius_km = 10; at = 1700000000000; max_past_dispatch_count = 9 }

abbrev ranking : List (Ranked thousandths)
ranking = map (score_of thousandths context weights) pool

ranking-IsDistinct : IsDistinct thousandths ranking
ranking-IsDistinct i = ground arith

breakdown-IsNormalised_example :
    IsNormalised thousandths (compute_score_breakdown thousandths (pool_entry 12 3) context)
breakdown-IsNormalised_example = breakdown-IsNormalised thousandths (pool_entry 12 3) context

rank_candidates-IsRanked_example :
    IsRanked thousandths (rank_candidates thousandths pool context weights)
    × ((p : Ranked thousandths → Bool)
        → count p (rank_candidates thousandths pool context weights)
          ≡ count p (map (score_of thousandths context weights) pool))
rank_candidates-IsRanked_example = rank_candidates-IsRanked thousandths pool context weights

select_batch-IsDistinct_example :
    (length (select_batch thousandths ranking 2 1) ≤ 2)
    × IsDistinct thousandths (select_batch thousandths ranking 2 1)
select_batch-IsDistinct_example = select_batch-IsDistinct thousandths ranking 2 1 ranking-IsDistinct

select_batch-IsMadeOf_example :
    (new : List (Ranked thousandths)) × IsMadeOf thousandths ranking
      (select_batch thousandths ranking 2 1)
      (2 - min 1 (2 - 1))
      (min 1 (2 - 1))
      new
select_batch-IsMadeOf_example =
    select_batch-IsMadeOf thousandths ranking 2 1 (omega arith) (omega arith)

abbrev search : ProviderDispatchSearch
search = record {
  service_id = 3;
  required_skill_ids = 6 ∷ [];
  point = record { lng = 3; lat = 36 };
  radius_km = 5;
  availability_statuses = available ∷ [];
  exclude_provider_ids = 22 ∷ [];
}

grows : (r : ℕ) → r < 20 → r < r + 5
grows r lt = omega arith

-- Sums that are rounded down to even numbers.
abbrev rounded : ℕ → ℕ → ℕ
rounded a b = (a + b) / 2 * 2

abbrev nobody : ℕ → List ℕ
nobody radius = []

widen-stuck_example : widen rounded nobody 20 1 (rounds 20) 10 ≡ none
widen-stuck_example = widen-stuck rounded nobody 20 1 10 refl (omega arith) refl (rounds 20)

select_next_batch-IsWidened_example :
    (n : ℕ) × (found : List (Selection thousandths)) × (radius : ℕ) × (select_next_batch
        test_platform 1000 running_match
        (full_request 11 7 matching)
        config
        (22 ∷ [])
        sample
      ≡ some (found, radius))
    × EndsAfter ◌+◌
        (λ x.
          rank_eligible test_platform 1000 (full_request 11 7 matching) config x (22 ∷ []) sample)
        20
        5
        5
        n
        found
        radius
    × (radius ≤ max 5 20)
select_next_batch-IsWidened_example =
    select_next_batch-IsWidened test_platform 1000 running_match (full_request 11 7 matching) config
      (22 ∷ []) sample grows

run_batch-Extends_example :
    Extends test_platform 1000 fresh running_match config
      (batch_cap test_platform 1000 fresh running_match config (full_request 11 7 matching))
      (update_all
        (λ c. c.match_id == 30 && is_notified c.status && ltb c.expires_at 1000)
        (λ c. record c { status = MatchCandidateStatus.expired })
        sample.candidates)
      (run_batch test_platform 1000 fresh 30 sample).1.candidates
run_batch-Extends_example =
    run_batch-Extends test_platform 1000 fresh 30 sample {m = running_match}
      {r = full_request 11 7 matching} refl refl refl refl

run_batch-Returns_example : diverged (run_batch test_platform 1000 fresh 30 sample).0 ≡ false
run_batch-Returns_example = run_batch-Returns test_platform 1000 fresh 30 sample grows

start-unknown_provider_example :
    start test_platform 1000 fresh 10 7
      (record { mode = some direct; provider_id = some 77 })
      sample
    ≡ (
      err not_found,
      record sample {
        matches = sample.matches ++ new_match 200 10 7 direct 5 ∷ [];
        requests =
            update_first (λ d. d.id == 10) (λ d. record d { status = matching }) sample.requests;
      },
    )
start-unknown_provider_example =
    start-unknown_provider test_platform 1000 fresh 10 77 sample {r = full_request 10 7 requested}
      refl refl refl refl refl

is_live-expired_example :
    is_live_candidacy (record contacted { status = MatchCandidateStatus.expired }) 101
    ≡ is_live_candidacy contacted 101
unfolding is_stale
is_live-expired_example = is_live-expired test_platform contacted 30 101

decline-final_example :
    ((decline test_platform 40 23 none sample).0 ≡ ok tt)
    × (find_candidacy_by_id test_platform 60 40 (decline test_platform 40 23 none sample).1
        ≡ some (record {
          candidacy = record { candidate_id = 40; provider_id = 22; live = false };
          request_id = 11;
          provider_user_id = 23;
        }))
    × (decline test_platform 40 23 (some 1) (decline test_platform 40 23 none sample).1 ≡ (
      err (domain bad_request match_already_declined),
      (decline test_platform 40 23 none sample).1,
    ))
decline-final_example =
    decline-final test_platform 40 23 none (some 1) sample {c = contacted} 60 refl refl refl

fresh_distinct : (a b : ℕ) → fresh a ≡ fresh b → a ≡ b
fresh_distinct a b h = omega (arith, h)

profiles_once : (k : ℕ) → count (profile_by_id k) sample.profiles ≤ 1
profiles_once k = ground arith

candidates_once : (k : ℕ) → count (in_match 30 k) sample.candidates ≤ 1
candidates_once k = ground arith

ids_unused : (j : ℕ) → count (has_id (fresh j)) sample.candidates ≡ 0
ids_unused j = ground arith

run_batch-once_example :
    ((run_batch test_platform 1000 fresh 30 sample).0 ≡ ok tt)
    × ((k : ℕ)
        → count (in_match 30 k) (run_batch test_platform 1000 fresh 30 sample).1.candidates ≤ 1)
run_batch-once_example =
    run_batch-once test_platform 1000 fresh fresh_distinct 30 sample {m = running_match}
      {r = full_request 11 7 matching} refl refl refl refl grows profiles_once candidates_once
      ids_unused refl refl
