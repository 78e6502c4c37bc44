-- ===== src/Matching/Ranking.antt =====
-- apps/api/src/matching/ranking.ts: scores, the order of candidates, and the choice of a batch.
pub mod Score
pub mod Batch
pub mod Exploration
use appforfixiyi.Common.{
  ℕ, ◌+◌, ◌-◌, ◌*◌, Bool, true, false, not, ◌&&◌, ◌||◌, length, Option, none, some, List, [], ◌∷◌,
  ◌++◌, map, take, filter, any, contains, get_or, ltb, leb, ◌==◌, if◌then◌else◌, sort, min,
}
use Prim.Native.Nat.{◌/◌, ◌%◌}
use appforfixiyi.Store.Entities.Matching.{AvailabilitySlot, ScoreBreakdown}
use appforfixiyi.Matching.Numbers.{Numbers, at_most_one, at_least_zero}

-- EXPERIENCE_SATURATION_YEARS.
abbrev pub experience_saturation_years : ℕ
experience_saturation_years = 10

pub record RankingCandidate : Type 0 where
  pub provider_id : ℕ
  pub distance_km : Option ℕ
  pub experience_years : Option ℕ
  pub availability : List AvailabilitySlot
  pub verified : Bool
  pub past_dispatch_count : ℕ

pub record RankingContext : Type 0 where
  pub radius_km : ℕ
  pub at : ℕ
  pub max_past_dispatch_count : ℕ

-- `getUTCDay()`, and the minute of the day, of an instant in milliseconds since 1970, a Thursday.
unfoldable pub utc_day : ℕ → ℕ
utc_day t = (t / 86400000 + 4) % 7

unfoldable pub minute_of_day : ℕ → ℕ
minute_of_day t = t / 3600000 % 24 * 60 + t / 60000 % 60

abbrev pub slot_covers : ℕ → ℕ → AvailabilitySlot → Bool
slot_covers day minute s =
    s.day_of_week == day && leb s.start_minute minute && ltb minute s.end_minute

unfoldable pub covers_moment : List AvailabilitySlot → ℕ → Bool
covers_moment [] at = true
covers_moment (s ∷ slots) at = any (slot_covers (utc_day at) (minute_of_day at)) (s ∷ slots)

-- `Math.min(explorationSlots, Math.max(0, batchSize - 1))`.
abbrev pub reserved_slots : ℕ → ℕ → ℕ
reserved_slots batch_size exploration_slots = min exploration_slots (batch_size - 1)

module _ (n : Numbers) where
  pub normalise_distance : Option ℕ → ℕ → n.R
  normalise_distance d radius =
      if leb radius 0
      then n.zero
      else at_least_zero n (n.sub n.one (at_most_one n (n.quotient d radius)))

  pub normalise_exploration : ℕ → ℕ → n.R
  normalise_exploration past most =
      if leb most 0
      then n.one
      else at_least_zero n (n.sub n.one (at_most_one n (n.quotient (some past) most)))

  unfoldable pub compute_score_breakdown : RankingCandidate → RankingContext → ScoreBreakdown n.R
  unfolding normalise_distance normalise_exploration
  compute_score_breakdown c x = record {
    distance = normalise_distance c.distance_km x.radius_km;
    availability = if covers_moment c.availability x.at then n.one else n.zero;
    verification_level = if c.verified then n.one else n.zero;
    experience =
        at_most_one n (n.quotient (some (get_or c.experience_years 0)) experience_saturation_years);
    exploration = normalise_exploration c.past_dispatch_count x.max_past_dispatch_count;
    reputation = n.zero;
    reliability = n.zero;
    history = n.zero;
    current_load = n.zero;
  }

  -- The loop over the keys of the breakdown, in their order.
  unfoldable pub compute_score : ScoreBreakdown n.R → ScoreBreakdown n.R → n.R
  compute_score b w =
      let add = n.add in
      let mul = n.mul in
      let s = add n.zero (mul b.distance w.distance) in
      let s = add s (mul b.availability w.availability) in
      let s = add s (mul b.verification_level w.verification_level) in
      let s = add s (mul b.experience w.experience) in
      let s = add s (mul b.exploration w.exploration) in
      let s = add s (mul b.reputation w.reputation) in
      let s = add s (mul b.reliability w.reliability) in
      let s = add s (mul b.history w.history) in add s (mul b.current_load w.current_load)

  pub record Ranked : Type 0 where
    pub candidate : RankingCandidate
    pub breakdown : ScoreBreakdown n.R
    pub score : n.R

  -- The comparator of `rankCandidates`: `b.score - a.score || a.id.localeCompare(b.id)` is not positive.
  abbrev pub before : Ranked → Ranked → Bool
  before a b =
      if not (n.le a.score b.score)
      then true
      else if not (n.le b.score a.score)
      then false
      else leb a.candidate.provider_id b.candidate.provider_id

  abbrev pub score_of : RankingContext → ScoreBreakdown n.R → RankingCandidate → Ranked
  score_of x w c =
      let b = compute_score_breakdown c x in
      record { candidate = c; breakdown = b; score = compute_score b w }

  unfoldable pub rank_candidates :
      List RankingCandidate → RankingContext → ScoreBreakdown n.R → List Ranked
  rank_candidates cs x w = sort before (map (score_of x w) cs)

  -- The comparator of the explorers: fewest dispatches, then highest score, then id.
  abbrev pub explores : Ranked → Ranked → Bool
  explores a b =
      if ltb a.candidate.past_dispatch_count b.candidate.past_dispatch_count
      then true
      else if ltb b.candidate.past_dispatch_count a.candidate.past_dispatch_count
      then false
      else before a b

  abbrev pub provider_ids : List Ranked → List ℕ
  provider_ids = map (λ e. e.candidate.provider_id)

  -- The entries of the ranking whose provider is not selected.
  abbrev pub rest_of : List Ranked → List Ranked → List Ranked
  rest_of ranked selected =
      filter (λ e. not (contains e.candidate.provider_id (provider_ids selected))) ranked

  unfoldable pub explorers : List Ranked → List Ranked → ℕ → List Ranked
  explorers ranked selected reserved = take reserved (sort explores (rest_of ranked selected))

  unfoldable pub select_batch : List Ranked → (batch_size exploration_slots : ℕ) → List Ranked
  select_batch ranked batch_size exploration_slots =
      let reserved = reserved_slots batch_size exploration_slots in
      let selected = take (batch_size - reserved) ranked in
      if leb batch_size 0 || length ranked == 0
      then []
      else if reserved == 0
      then selected
      else selected ++ explorers ranked selected reserved
