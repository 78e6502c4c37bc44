-- ===== src/Matching/Dispatch/Once.antt =====
-- No provider is contacted twice in a match: what the search for a batch leaves out, and why the
-- unique indexes of apps/api/src/matching/schemas are not hit (dispatch.service.ts).
use appforfixiyi.Common.{
  ℕ, zero, suc, ◌≤◌, ◌≡◌, refl, ap, ◌∙◌, Bool, true, false, not, ◌&&◌, ◌||◌, Option, some, List, [],
  ◌∷◌, arith, inl, inr, ◌==◌, leb, length, Bool-cases, Option-cases, map, count, All, contains,
  count-filter-le, subst, truthy, min,
}
use mathlib.Core.Option.{some-injective}
use appforfixiyi.Store.Entities.Requests.{ServiceRequest, RequestUrgency}
use appforfixiyi.Store.Entities.Matching.{
  Match, MatchCandidate, MatchingConfig, ProviderProfile, ScoreBreakdown,
}
use appforfixiyi.Providers.{by_id as profile_by_id}
use appforfixiyi.Providers.Search.{count-search-le, count-search-excluded}
use appforfixiyi.Matching.Loops.{widen}
use appforfixiyi.Matching.Eligibility.{EligibilityQuery, find_eligible, find_profiles, eligible_of}
use appforfixiyi.Matching.Platform.{Platform}
use appforfixiyi.Matching.Ranking.{
  RankingCandidate, RankingContext, Ranked, score_of, rank_candidates, select_batch,
}
use appforfixiyi.Matching.Ranking.Score.{rank_candidates-IsRanked}
use appforfixiyi.Matching.Ranking.Batch.{is_for, count-select_batch, select_batch-All}
use appforfixiyi.Matching.Dispatch.{
  Store, Selection, profile_of, rank_all, rank_at, rank_eligible, candidates_of, select_next_batch,
}

-- All entries of a list in which a test counts nothing fail it.
All-of_count :
    {A : Type 0} (t : A → Bool) (xs : List A) → count t xs ≡ 0 → All (λ x. t x ≡ false) xs
All-of_count t [] h = tt
All-of_count t (x ∷ xs) h = (ground arith, All-of_count t xs (omega (arith, h)))

count-of_All :
    {A : Type 0} (t : A → Bool) (xs : List A) → All (λ x. t x ≡ false) xs → count t xs ≡ 0
count-of_All t [] h = refl
count-of_All t (x ∷ xs) h = rw h.0 (omega (arith, count-of_All t xs h.1))

-- What holds of each radius's result holds of the one that is returned.
widen-P :
    {A : Type 0} (P : List A → Type 0) (add_km : ℕ → ℕ → ℕ) (search : ℕ → List A)
    (most step fuel radius : ℕ) {found : List A} {r : ℕ}
    → ((x : ℕ) → P (search x))
    → widen add_km search most step fuel radius ≡ some (found, r)
    → P found
unfolding widen
widen-P P add_km search most step zero radius h e = absurd (cc)
widen-P P add_km search most step (suc fuel) radius {found} {r} h e =
    elim (Bool-cases (not (length (search radius) == 0) || leb most radius)) [
      | inl b ↦
          subst P (ap (λ x. x.0) (some-injective (search radius, radius) (found, r) (rw b at e)))
            (h radius)
      | inr b ↦ widen-P P add_km search most step fuel (min most (add_km radius step)) h (rw b at e)
    ]

module _ (p : Platform) (i : ℕ) where
  abbrev entry_for : Selection p.numbers → Bool
  entry_for e = is_for p.numbers i e.entry

  abbrev ranking_for : RankingCandidate → Bool
  ranking_for c = c.provider_id == i

  count-scores :
      (x : RankingContext) (w : ScoreBreakdown p.numbers.R) (cs : List RankingCandidate)
      → count (is_for p.numbers i) (map (score_of p.numbers x w) cs) ≡ count ranking_for cs
  count-scores x w [] = refl
  count-scores x w (c ∷ cs) = omega (arith, count-scores x w cs)

  count-ranking :
      (x : RankingContext) (w : ScoreBreakdown p.numbers.R) (cs : List RankingCandidate)
      → count (is_for p.numbers i) (rank_candidates p.numbers cs x w) ≡ count ranking_for cs
  count-ranking x w cs =
      (rank_candidates-IsRanked p.numbers cs x w).1 (is_for p.numbers i) ∙ count-scores x w cs

  count-eligible :
      (q : EligibilityQuery p.numbers.R) (verified : List ℕ) (s : Store p)
      (ps : List ProviderProfile)
      → count ranking_for (map (λ e. e.ranking) (map (eligible_of p.mongo p.geo q verified s) ps))
        ≡ count (profile_by_id i) ps
  unfolding eligible_of
  count-eligible q verified s [] = refl
  count-eligible q verified s (x ∷ xs) = omega (arith, count-eligible q verified s xs)

  count-find_eligible-le :
      (q : EligibilityQuery p.numbers.R) (s : Store p)
      → count ranking_for (map (λ e. e.ranking) (find_eligible p.mongo p.geo q s))
        ≤ count (profile_by_id i) (find_profiles p.mongo p.geo q s)
  unfolding find_eligible
  count-find_eligible-le q s = elim (Bool-cases q.config.require_verified_provider) [
    | inl e ↦ rw (e, count-eligible) (count-filter-le {0} (profile_by_id i) _ _)
    | inr e ↦ rw (e, count-eligible) (omega arith)
  ]

  count-entries :
      (f : Ranked p.numbers → Option ProviderProfile) (es : List (Ranked p.numbers))
      → count entry_for (map (λ e. record { entry = e; profile = f e }) es)
        ≡ count (is_for p.numbers i) es
  count-entries f [] = refl
  count-entries f (e ∷ es) = omega (arith, count-entries f es)

  select_batch_zero :
      (ranked : List (Ranked p.numbers)) (size slots : ℕ)
      → count (is_for p.numbers i) ranked ≡ 0
      → count (is_for p.numbers i) (select_batch p.numbers ranked size slots) ≡ 0
  select_batch_zero ranked size slots h = count-of_All (is_for p.numbers i) _ (
      select_batch-All p.numbers (λ e. is_for p.numbers i e ≡ false) ranked size slots
        (All-of_count (is_for p.numbers i) ranked h))

  count-find_profiles-le :
      (q : EligibilityQuery p.numbers.R) (s : Store p)
      → count (profile_by_id i) (find_profiles p.mongo p.geo q s)
        ≤ count (profile_by_id i) s.profiles
  unfolding find_profiles
  count-find_profiles-le q s = count-search-le p.mongo p.geo _ s (profile_by_id i)

  count-find_profiles-excluded :
      (q : EligibilityQuery p.numbers.R) (s : Store p)
      → contains i q.exclude_provider_ids ≡ true
      → count (profile_by_id i) (find_profiles p.mongo p.geo q s) ≡ 0
  unfolding find_profiles
  count-find_profiles-excluded q s h = count-search-excluded p.mongo p.geo _ s i h

  rank_all-AtMost :
      (now : ℕ) (urgency : Option RequestUrgency) (config : MatchingConfig p.numbers.R)
      (q : EligibilityQuery p.numbers.R) (s : Store p)
      → count (profile_by_id i) s.profiles ≤ 1
      → count entry_for (rank_all p now urgency config q s) ≤ 1
  unfolding rank_all
  rank_all-AtMost now urgency config q s once =
      rw (count-entries (λ e. profile_of e.candidate.provider_id (find_eligible p.mongo p.geo q s)))
        (count-select_batch p.numbers _ _ _ i (
          rw count-ranking
            (omega (arith, once, count-find_eligible-le q s, count-find_profiles-le q s))))

  rank_all-excluded :
      (now : ℕ) (urgency : Option RequestUrgency) (config : MatchingConfig p.numbers.R)
      (q : EligibilityQuery p.numbers.R) (s : Store p)
      → contains i q.exclude_provider_ids ≡ true
      → count entry_for (rank_all p now urgency config q s) ≡ 0
  unfolding rank_all
  rank_all-excluded now urgency config q s h =
      rw (count-entries (λ e. profile_of e.candidate.provider_id (find_eligible p.mongo p.geo q s)))
        (select_batch_zero _ _ _ (
          rw count-ranking
            (omega (arith, count-find_eligible-le q s, count-find_profiles-excluded q s h))))

  -- At most one entry of a search is for the provider, and none if it is excluded.
  rank_eligible-AtMost :
      (now : ℕ) (r : ServiceRequest) (config : MatchingConfig p.numbers.R) (radius : ℕ)
      (excluded : List ℕ) (s : Store p)
      → count (profile_by_id i) s.profiles ≤ 1
      → count entry_for (rank_eligible p now r config radius excluded s) ≤ 1
  unfolding rank_eligible rank_at
  rank_eligible-AtMost now r config radius excluded s once = elim (Option-cases r.location) [
    | inl e ↦ rw e (omega arith)
    | inr (l, e) ↦ elim (Bool-cases (truthy r.service_id && truthy r.complexity_id)) [
      | inl f ↦ rw (e, f) (rank_all-AtMost now r.urgency config _ s once)
      | inr f ↦ rw (e, f) (omega arith)
    ]
  ]

  rank_eligible-excluded :
      (now : ℕ) (r : ServiceRequest) (config : MatchingConfig p.numbers.R) (radius : ℕ)
      (excluded : List ℕ) (s : Store p)
      → contains i excluded ≡ true
      → count entry_for (rank_eligible p now r config radius excluded s) ≡ 0
  unfolding rank_eligible rank_at
  rank_eligible-excluded now r config radius excluded s h = elim (Option-cases r.location) [
    | inl e ↦ rw e refl
    | inr (l, e) ↦ elim (Bool-cases (truthy r.service_id && truthy r.complexity_id)) [
      | inl f ↦ rw (e, f) (rank_all-excluded now r.urgency config _ s h)
      | inr f ↦ rw (e, f) refl
    ]
  ]

  abbrev pub candidate_for : MatchCandidate p.numbers.R → Bool
  candidate_for c = c.provider_id == i

  count-candidates_of-le :
      (now : ℕ) (fresh : ℕ → ℕ) (k : ℕ) (m : Match) (config : MatchingConfig p.numbers.R)
      (es : List (Selection p.numbers))
      → count candidate_for (candidates_of p now fresh k m config es) ≤ count entry_for es
  unfolding candidates_of
  count-candidates_of-le now fresh k m config [] = omega arith
  count-candidates_of-le now fresh k m config (e ∷ es) = elim (Option-cases e.profile) [
    | inl n ↦ rw n (omega (arith, count-candidates_of-le now fresh k m config es))
    | inr (q, n) ↦ rw n (omega (arith, count-candidates_of-le now fresh (suc k) m config es))
  ]

  -- Whatever the search returns, its candidates contact the provider at most once, and not at all if
  -- the provider is excluded.
  pub selected-AtMost :
      (now : ℕ) (fresh : ℕ → ℕ) (k : ℕ) (m : Match) (r : ServiceRequest)
      (config : MatchingConfig p.numbers.R) (excluded : List ℕ) (s : Store p)
      {found : List (Selection p.numbers)} {radius : ℕ}
      → count (profile_by_id i) s.profiles ≤ 1
      → select_next_batch p now m r config excluded s ≡ some (found, radius)
      → (count candidate_for (candidates_of p now fresh k m config found) ≤ 1)
        × (contains i excluded ≡ true
            → count candidate_for (candidates_of p now fresh k m config found) ≡ 0)
  unfolding select_next_batch
  selected-AtMost now fresh k m r config excluded s {found} {radius} once e = (
    omega (
      arith,
      count-candidates_of-le now fresh k m config found,
      widen-P (λ es. count entry_for es ≤ 1) _ (λ x. rank_eligible p now r config x excluded s) _ _
          _ _ (λ x. rank_eligible-AtMost now r config x excluded s once) e,
    ),
    λ h. omega (
      arith,
      count-candidates_of-le now fresh k m config found,
      widen-P (λ es. count entry_for es ≡ 0) _ (λ x. rank_eligible p now r config x excluded s) _ _
          _ _ (λ x. rank_eligible-excluded now r config x excluded s h) e,
    ),
  )
