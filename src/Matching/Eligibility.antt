-- ===== src/Matching/Eligibility.antt =====
-- apps/api/src/matching/eligibility.service.ts: who may be contacted at all, and with which figures
-- for the ranking.
use appforfixiyi.Common.{
  ℕ, Bool, true, false, ◌&&◌, Option, none, some, List, [], ◌∷◌, map, filter, length, contains,
  ◌==◌, if◌then◌else◌, min,
}
use appforfixiyi.Store.{Mongo}
use appforfixiyi.Store.Database.{Db}
use appforfixiyi.Store.Entities.Requests.{GeoPoint, CatalogNode}
use appforfixiyi.Store.Entities.Matching.{
  ProviderProfile, available, MatchingConfig, VerificationTargetType, VerificationStatus,
}
use appforfixiyi.Catalog.{get_by_id}
use appforfixiyi.Providers.{Geo, search_for_dispatch}
use appforfixiyi.Matching.Ranking.{RankingCandidate}

pub record EligibilityQuery (R : Type 0) : Type 0 where
  pub service_id : ℕ
  pub complexity_id : ℕ
  pub point : GeoPoint
  pub radius_km : ℕ
  pub exclude_provider_ids : List ℕ
  pub config : MatchingConfig R

pub record EligibleProvider : Type 0 where
  pub profile : ProviderProfile
  pub ranking : RankingCandidate

-- `Math.min(...distances)`; `none` is Infinity.
abbrev pub nearest : List ℕ → Option ℕ
nearest [] = none
nearest (d ∷ ds) = elim (nearest ds) [ none ↦ some d | some m ↦ some (min d m) ]

abbrev pub nearest_area_distance_km : Geo → ProviderProfile → GeoPoint → Option ℕ
nearest_area_distance_km geo p point =
    nearest (map (λ a. geo.distance a.center point) p.service_areas)

abbrev skills_of : Option CatalogNode → List ℕ
skills_of none = []
skills_of (some n) = n.required_skill_ids

abbrev pub is_provider_target : VerificationTargetType → Bool
is_provider_target VerificationTargetType.provider = true
is_provider_target VerificationTargetType.company = false

abbrev pub is_verified : VerificationStatus → Bool
is_verified VerificationStatus.verified = true
is_verified _ = false

module _ {R : Type 0} (mongo : Mongo) (geo : Geo) where
  -- VerificationService.findVerifiedTargetIds("PROVIDER", ids).
  unfoldable pub find_verified_provider_ids : List ℕ → Db R → List ℕ
  find_verified_provider_ids ids s =
      map (λ k. k.target_id)
        (mongo.find
          (λ k.
            is_provider_target k.target_type && contains k.target_id ids && is_verified k.status)
          s.cases)

  -- How many candidacies each provider has had, over all matches.
  unfoldable pub count_past_dispatches : ℕ → Db R → ℕ
  count_past_dispatches id s = length (mongo.find (λ c. c.provider_id == id) s.candidates)

  unfoldable pub eligible_of :
      EligibilityQuery R → List ℕ → Db R → ProviderProfile → EligibleProvider
  eligible_of q verified s p = record {
    profile = p;
    ranking = record {
      provider_id = p.id;
      distance_km = nearest_area_distance_km geo p q.point;
      experience_years = p.experience_years;
      availability = p.availability;
      verified = contains p.id verified;
      past_dispatch_count = count_past_dispatches p.id s;
    };
  }

  unfoldable pub find_profiles : EligibilityQuery R → Db R → List ProviderProfile
  find_profiles q s =
      search_for_dispatch mongo geo
        (record {
          service_id = q.service_id;
          required_skill_ids = skills_of (get_by_id mongo q.complexity_id s);
          point = q.point;
          radius_km = q.radius_km;
          availability_statuses = available ∷ [];
          exclude_provider_ids = q.exclude_provider_ids;
        })
        s

  unfoldable pub find_eligible : EligibilityQuery R → Db R → List EligibleProvider
  find_eligible q s =
      let profiles = find_profiles q s in
      let verified = find_verified_provider_ids (map (λ p. p.id) profiles) s in
      let retained =
        if q.config.require_verified_provider
        then filter (λ p. contains p.id verified) profiles
        else profiles in
      map (eligible_of q verified s) retained
