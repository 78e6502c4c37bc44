-- ===== src/Providers/Search.antt =====
-- Who is found for a dispatch: `searchForDispatch` of apps/api/src/providers/provider.service.ts.
use appforfixiyi.Common.{
  ℕ, ◌≤◌, ◌≡◌, refl, Bool, true, false, ◌&&◌, List, [], ◌∷◌, arith, inl, inr, filter, ==_iff,
  Bool-cases, contains, count, count-filter-le,
}
use appforfixiyi.Store.{Mongo}
use appforfixiyi.Store.Database.{Db}
use appforfixiyi.Store.Entities.Matching.{ProviderProfile}
use appforfixiyi.Providers.{
  Geo, ProviderDispatchSearch, by_id, covers_point, is_searched, search_for_dispatch,
}

-- A filter that refuses every element with a key leaves none with it.
pub count-filter-zero {ℓ} :
    {A : Type ℓ} (p q : A → Bool) (xs : List A)
    → ((x : A) → p x ≡ true → q x ≡ false)
    → count p (filter q xs) ≡ 0
count-filter-zero p q [] k = refl
count-filter-zero p q (x ∷ xs) k = elim (Bool-cases (p x)) [
  | inl e ↦ rw (k x e) (count-filter-zero p q xs k)
  | inr e ↦ elim (Bool-cases (q x)) [
    | inl f ↦ rw (f, e) (omega (arith, count-filter-zero p q xs k))
    | inr f ↦ rw f (count-filter-zero p q xs k)
  ]
]

module _ {R : Type 0} (mongo : Mongo) (geo : Geo) (c : ProviderDispatchSearch) (s : Db R) where
  -- No profile is found more often than it is stored.
  pub count-search-le :
      (p : ProviderProfile → Bool)
      → count p (search_for_dispatch mongo geo c s) ≤ count p s.profiles
  unfolding search_for_dispatch
  count-search-le p = rw mongo.find_lem (
      omega (
        arith,
        count-filter-le {0} p (λ x. covers_point geo x c.point)
            (filter (is_searched geo c) s.profiles),
        count-filter-le {0} p (is_searched geo c) s.profiles,
      ))

  excluded :
      (i : ℕ)
      → contains i c.exclude_provider_ids ≡ true
      → (x : ProviderProfile) → by_id i x ≡ true
      → is_searched geo c x ≡ false
  excluded i h x e =
      let gone : contains x.id c.exclude_provider_ids ≡ true = rw ((==_iff x.id i).0 e) h in
      rw gone (and_false _)
    where
      and_false : (b : Bool) → (b && false) ≡ false
      and_false true = refl
      and_false false = refl

  -- An excluded provider is not found.
  pub count-search-excluded :
      (i : ℕ)
      → contains i c.exclude_provider_ids ≡ true
      → count (by_id i) (search_for_dispatch mongo geo c s) ≡ 0
  unfolding search_for_dispatch
  count-search-excluded i h = rw mongo.find_lem (
      omega (
        arith,
        count-filter-le {0} (by_id i) (λ x. covers_point geo x c.point)
            (filter (is_searched geo c) s.profiles),
        count-filter-zero {0} (by_id i) (is_searched geo c) s.profiles (excluded i h),
      ))
