-- ===== src/Providers.antt =====
-- apps/api/src/providers/provider.service.ts: the profiles of providers.
pub mod Search
use appforfixiyi.Common.{
  ℕ, Bool, true, false, not, ◌&&◌, ◌||◌, Option, none, some, List, [], ◌∷◌, length, filter, any,
  all, ◌==◌, leb, if◌then◌else◌, Exec, pure, gets, require_some, guard, modify, throw, ◌>>=◌, ◌>>◌,
  not_found, domain, is_some, get_or, contains, distinct, bad_request, conflict, Code,
  provider_profile_already_exists, provider_skill_invalid, provider_service_invalid,
}
use appforfixiyi.Store.{Mongo}
use appforfixiyi.Store.Database.{Db, store_created}
use appforfixiyi.Store.Entities.Requests.{GeoPoint, CatalogLevel}
use appforfixiyi.Store.Entities.Matching.{
  ProviderProfile, ProviderType, AvailabilityStatus, offline, available, busy, on_the_way, arrived,
  in_service, paused, AvailabilitySlot, ServiceArea,
}
use appforfixiyi.Catalog.{count_existing}

-- The geometry: `haversineDistanceKm` of packages/shared-utils/src/geo.ts, which is made of the
-- machine's trigonometry, and MongoDB's `$geoWithin` with `$centerSphere`.
pub record Geo : Type 0 where
  pub distance : GeoPoint → GeoPoint → ℕ
  pub within : (center : GeoPoint) → (radius : ℕ) → GeoPoint → Bool

abbrev pub by_id : ℕ → ProviderProfile → Bool
by_id i p = p.id == i

abbrev pub by_user : ℕ → ProviderProfile → Bool
by_user u p = p.user_id == u

-- The unique indexes: `_id` and `userId`.
abbrev pub clashes : ProviderProfile → ProviderProfile → Bool
clashes a b = a.id == b.id || a.user_id == b.user_id

abbrev pub status_index : AvailabilityStatus → ℕ
status_index offline = 0
status_index available = 1
status_index busy = 2
status_index on_the_way = 3
status_index arrived = 4
status_index in_service = 5
status_index paused = 6

pub record ProviderDispatchSearch : Type 0 where
  pub service_id : ℕ
  pub required_skill_ids : List ℕ
  pub point : GeoPoint
  pub radius_km : ℕ
  pub availability_statuses : List AvailabilityStatus
  pub exclude_provider_ids : List ℕ

-- `distance <= area.radiusKm` for some area of the provider.
abbrev pub covers_point : Geo → ProviderProfile → GeoPoint → Bool
covers_point geo p point = any (λ a. leb (geo.distance a.center point) a.radius_km) p.service_areas

-- The filter of `searchForDispatch`; an empty list of skills or exclusions admits everyone.
abbrev pub is_searched : Geo → ProviderDispatchSearch → ProviderProfile → Bool
is_searched geo c p =
    any (λ a. status_index a == status_index p.availability_status) c.availability_statuses
    && contains c.service_id p.service_ids
    && any (λ a. geo.within c.point c.radius_km a.center) p.service_areas
    && all (λ i. contains i p.skill_ids) c.required_skill_ids
    && not (contains p.id c.exclude_provider_ids)

pub record CreateProviderProfileInput : Type 0 where
  pub type : ProviderType
  pub display_name : ℕ
  pub bio : Option ℕ
  pub languages : Option (List ℕ)
  pub experience_years : Option ℕ

-- In an update `none` is an absent key, and `some none` is null.
pub record UpdateProviderProfileInput : Type 0 where
  pub skill_ids : Option (List ℕ)
  pub service_ids : Option (List ℕ)
  pub display_name : Option ℕ
  pub bio : Option (Option ℕ)
  pub languages : Option (List ℕ)
  pub experience_years : Option (Option ℕ)
  pub availability : Option (List AvailabilitySlot)
  pub service_areas : Option (List ServiceArea)

abbrev pub new_profile : (fresh user : ℕ) → CreateProviderProfileInput → ProviderProfile
new_profile fresh user i = record {
  id = fresh;
  user_id = user;
  type = i.type;
  availability_status = offline;
  display_name = i.display_name;
  bio = i.bio;
  languages = get_or i.languages [];
  experience_years = i.experience_years;
  skill_ids = [];
  service_ids = [];
  availability = [];
  service_areas = [];
}

abbrev pub patch : UpdateProviderProfileInput → ProviderProfile → ProviderProfile
patch i p = record p {
  skill_ids = get_or i.skill_ids p.skill_ids;
  service_ids = get_or i.service_ids p.service_ids;
  display_name = get_or i.display_name p.display_name;
  bio = get_or i.bio p.bio;
  languages = get_or i.languages p.languages;
  experience_years = get_or i.experience_years p.experience_years;
  availability = get_or i.availability p.availability;
  service_areas = get_or i.service_areas p.service_areas;
}

module _ {R : Type 0} (mongo : Mongo) where
  unfoldable pub find_many_by_ids : List ℕ → Db R → List ProviderProfile
  find_many_by_ids ids s = mongo.find (λ d. contains d.id (distinct ids)) s.profiles

  unfoldable pub find_by_id : ℕ → Db R → Option ProviderProfile
  find_by_id id s = mongo.find_one (by_id id) s.profiles

  unfoldable pub get_by_user_id : ℕ → Db R → Option ProviderProfile
  get_by_user_id user s = mongo.find_one (by_user user) s.profiles

  unfoldable pub get_by_id : ℕ → Exec (Db R) ProviderProfile
  get_by_id id s = require_some (find_by_id id s) not_found s

  unfoldable pub search_for_dispatch : Geo → ProviderDispatchSearch → Db R → List ProviderProfile
  search_for_dispatch geo c s =
      filter (λ p. covers_point geo p c.point) (mongo.find (is_searched geo c) s.profiles)

  unfoldable pub create :
      (fresh user : ℕ) → CreateProviderProfileInput → Exec (Db R) ProviderProfile
  create fresh user i = do
    existing ← gets (λ s. mongo.find_one (by_user user) s.profiles)
    guard (not (is_some existing)) (domain conflict provider_profile_already_exists)
    made ← gets (λ s. mongo.create clashes (new_profile fresh user i) s.profiles)
    store_created made (λ c s. record s { profiles = c })
    pure (new_profile fresh user i)

  -- `assertCatalogRefs`, called where the key is given.
  unfoldable pub assert_catalog_refs :
      Option (List ℕ) → CatalogLevel → Code → Exec (Db R) (Unit {0})
  assert_catalog_refs none level code = pure tt
  assert_catalog_refs (some []) level code = pure tt
  assert_catalog_refs (some (i ∷ ids)) level code = do
    found ← gets (count_existing mongo (i ∷ ids) level)
    guard (found == length (distinct (i ∷ ids))) (domain bad_request code)

  unfoldable pub update : ℕ → UpdateProviderProfileInput → Exec (Db R) ProviderProfile
  update user i = do
    found ← gets (λ s. mongo.find_one (by_user user) s.profiles)
    doc ← require_some found not_found
    assert_catalog_refs i.skill_ids CatalogLevel.skill provider_skill_invalid
    assert_catalog_refs i.service_ids CatalogLevel.service provider_service_invalid
    modify (λ s. record s { profiles = mongo.update_one (by_id doc.id) (patch i) s.profiles })
    pure (patch i doc)

  unfoldable pub update_availability : ℕ → AvailabilityStatus → Exec (Db R) ProviderProfile
  update_availability user status = do
    found ← gets (λ s. mongo.find_one (by_user user) s.profiles)
    doc ← require_some found not_found
    modify (λ s. record s {
      profiles =
          mongo.update_one (by_id doc.id) (λ p. record p { availability_status = status })
            s.profiles;
    })
    pure (record doc { availability_status = status })
