-- ===== src/Matching/Ranking/Score.antt =====
-- The signals of a score lie in [0, 1], and the order of candidates is total
-- (apps/api/src/matching/ranking.ts).
use appforfixiyi.Common.{
  ℕ, ◌≤◌, ◌<◌, ◌≡◌, Bool, true, false, Option, some, List, [], ◌∷◌, inl, inr, map, arith,
  Bool-cases, All, All-imp, leb, if◌then◌else◌, IsSorted, IsTotal, IsTransitive, sort-IsSorted,
  get_or, count, count-sort,
}
use appforfixiyi.Store.Entities.Matching.{ScoreBreakdown}
use appforfixiyi.Matching.Numbers.{
  Numbers, at_most_one, at_least_zero, IsUnit, IsUnit-zero, IsUnit-one, IsUnit-at_most_one,
  IsUnit-complement,
}
use appforfixiyi.Matching.Ranking.{
  RankingCandidate, RankingContext, compute_score_breakdown, Ranked, before, explores, score_of,
  rank_candidates, covers_moment, experience_saturation_years,
}

module _ (n : Numbers) where
  -- ScoreBreakdownSchema of packages/contracts/src/matching.ts.
  pub record IsNormalised (b : ScoreBreakdown n.R) : Type 0 where
    pub distance : IsUnit n b.distance
    pub availability : IsUnit n b.availability
    pub verification_level : IsUnit n b.verification_level
    pub experience : IsUnit n b.experience
    pub exploration : IsUnit n b.exploration
    pub reputation : IsUnit n b.reputation
    pub reliability : IsUnit n b.reliability
    pub history : IsUnit n b.history
    pub current_load : IsUnit n b.current_load

  IsUnit-if : (b : Bool) (x y : n.R) → IsUnit n x → IsUnit n y → IsUnit n (if b then x else y)
  IsUnit-if true x y h k = h
  IsUnit-if false x y h k = k

  -- What a share of a positive whole leaves, and what stands for it where there is no whole.
  IsUnit-share :
      (d : Option ℕ) (r : ℕ) (z : n.R)
      → IsUnit n z
      → IsUnit n
          (if leb r 0 then z else at_least_zero n (n.sub n.one (at_most_one n (n.quotient d r))))
  IsUnit-share d r z h = elim (Bool-cases (leb r 0)) [
    | inl e ↦ rw e h
    | inr e ↦
        rw e (IsUnit-complement n _ (IsUnit-at_most_one n _ (n.quotient_nonneg d r (positive e))))
  ]
    where
      positive : leb r 0 ≡ false → 0 < r
      positive e = ground arith

  -- Every signal of a candidate's breakdown lies between 0 and 1, whatever the distance (an infinite
  -- one included), the radius and the counts.
  pub breakdown-IsNormalised :
      (c : RankingCandidate) (x : RankingContext) → IsNormalised (compute_score_breakdown n c x)
  unfolding compute_score_breakdown
  breakdown-IsNormalised c x = record {
    distance = IsUnit-share c.distance_km x.radius_km n.zero (IsUnit-zero n);
    availability = IsUnit-if (covers_moment c.availability x.at) _ _ (IsUnit-one n) (IsUnit-zero n);
    verification_level = IsUnit-if c.verified _ _ (IsUnit-one n) (IsUnit-zero n);
    experience = IsUnit-at_most_one n _ (
        n.quotient_nonneg (some (get_or c.experience_years 0)) experience_saturation_years
          (omega arith));
    exploration =
        IsUnit-share (some c.past_dispatch_count) x.max_past_dispatch_count n.one (IsUnit-one n);
    reputation = IsUnit-zero n;
    reliability = IsUnit-zero n;
    history = IsUnit-zero n;
    current_load = IsUnit-zero n;
  }

  pub before-IsTotal : IsTotal (before n)
  before-IsTotal a b = ground (arith, n.le_total a.score b.score)

  pub before-IsTransitive : IsTransitive (before n)
  before-IsTransitive a b c h k = ground (
    arith,
    n.le_trans a.score b.score c.score,
    n.le_trans c.score a.score b.score,
    n.le_trans b.score c.score a.score,
    n.le_trans c.score b.score a.score,
    n.le_trans a.score c.score b.score,
    n.le_trans b.score a.score c.score,
    n.le_total a.score b.score,
    n.le_total b.score c.score,
    n.le_total a.score c.score,
  )

  pub explores-IsTotal : IsTotal (explores n)
  explores-IsTotal a b = ground (arith, n.le_total a.score b.score)

  pub explores-IsTransitive : IsTransitive (explores n)
  explores-IsTransitive a b c h k = ground (arith, before-IsTransitive a b c)

  -- `a` may come before `b`: its score is not lower, and of equal scores its id is not greater.
  pub record IsAhead (a b : Ranked n) : Type 0 where
    pub score : n.le b.score a.score ≡ true
    pub id : n.le a.score b.score ≡ true → a.candidate.provider_id ≤ b.candidate.provider_id

  pub before-IsAhead : (a b : Ranked n) → before n a b ≡ true → IsAhead a b
  before-IsAhead a b h = record {
    score = ground (arith, n.le_total a.score b.score);
    id = λ k. ground (arith, n.le_total a.score b.score);
  }

  -- Every entry is ahead of all that come after it.
  abbrev pub IsRanked : List (Ranked n) → Type 0
  IsRanked [] = Unit
  IsRanked (x ∷ xs) = All (IsAhead x) xs × IsRanked xs

  IsSorted-IsRanked : (xs : List (Ranked n)) → IsSorted (before n) xs → IsRanked xs
  IsSorted-IsRanked [] h = tt
  IsSorted-IsRanked (x ∷ xs) h =
      (All-imp _ (IsAhead x) xs (λ y. before-IsAhead x y) h.0, IsSorted-IsRanked xs h.1)

  -- A ranking holds each candidate, with its score, as often as the pool does. No entry has a lower
  -- score than one that comes after it, and of two entries whose scores are equal the one with the smaller id
  -- comes first.
  pub rank_candidates-IsRanked :
      (cs : List RankingCandidate) (x : RankingContext) (w : ScoreBreakdown n.R)
      → IsRanked (rank_candidates n cs x w)
        × ((p : Ranked n → Bool)
            → count p (rank_candidates n cs x w) ≡ count p (map (score_of n x w) cs))
  unfolding rank_candidates
  rank_candidates-IsRanked cs x w = (
    IsSorted-IsRanked _
        (sort-IsSorted (before n) before-IsTotal before-IsTransitive (map (score_of n x w) cs)),
    λ p. count-sort (before n) p (map (score_of n x w) cs),
  )
