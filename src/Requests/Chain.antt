-- ===== src/Requests/Chain.antt =====
-- The catalogue chain of a request: `assertValidCatalogChain` of
-- apps/api/src/requests/request.service.ts.
use appforfixiyi.Common.{
  ℕ, ◌≡◌, refl, sym, ◌∙◌, and_split, contains, filter, ◌&&◌, Bool, true, Option, none, some, List,
  [], ◌∷◌, inl, inr, arith, ◌==◌, Bool-cases, ok, Result-cases, find?, truthy, get_or, same→eq,
  length,
}
use appforfixiyi.Store.{Mongo}
use appforfixiyi.Store.Database.{Db}
use appforfixiyi.Store.Entities.Requests.{ServiceRequest, CatalogLevel, CatalogNode}
use appforfixiyi.Requests.{
  UpdateServiceRequestInput, RequestView, patch, update, save, require_editable, to_service_request,
  check_service, check_intervention_type, check_complexity, assert_valid_catalog_chain, check_chain,
  is_child, touches_chain,
}
use appforfixiyi.Catalog.{count_existing, get_by_id, same_level}
use appforfixiyi.Requests.Ownership.{require_editable_state}
use appforfixiyi.Catalog.Forest.{same_level→eq}

module _ {R : Type 0} (mongo : Mongo) where
  check_service_state : (a : Option ℕ) (s : Db R) → (check_service mongo a s).1 ≡ s
  unfolding check_service
  check_service_state a s = ground arith

  check_intervention_type_state :
      (a b : Option ℕ) (s : Db R) → (check_intervention_type mongo a b s).1 ≡ s
  unfolding check_intervention_type
  check_intervention_type_state a b s = ground arith

  check_complexity_state : (a b : Option ℕ) (s : Db R) → (check_complexity mongo a b s).1 ≡ s
  unfolding check_complexity
  check_complexity_state a b s = ground arith

  assert_valid_catalog_chain_state :
      (a b c : Option ℕ) (s : Db R) → (assert_valid_catalog_chain mongo a b c s).1 ≡ s
  unfolding assert_valid_catalog_chain
  assert_valid_catalog_chain_state a b c s = ground (
    arith,
    check_service_state a s,
    check_intervention_type_state a b s,
    check_complexity_state b c s,
  )

  pub check_chain_state :
      (i : UpdateServiceRequestInput) (d : ServiceRequest) (s : Db R)
      → (check_chain mongo i d s).1 ≡ s
  unfolding check_chain
  check_chain_state i d s = elim (Bool-cases (touches_chain i)) [
    | inl e ↦ rw e (assert_valid_catalog_chain_state _ _ _ s)
    | inr e ↦ rw e refl
  ]

-- The documented meaning of a valid chain: each id that is given (neither null nor empty) refers to a
-- node of its level, and an intervention type and a complexity are children of the id before them.
abbrev pub IsChild : List CatalogNode → CatalogLevel → Option ℕ → Option ℕ → Type 0
IsChild nodes level parent child =
    truthy child ≡ true
    → (n : CatalogNode) × (find? (λ m. m.id == get_or child 0) nodes ≡ some n)
      × (n.level ≡ level)
      × (n.parent_id ≡ parent)
      × (truthy parent ≡ true)

-- The service that is set is a node of its level.
abbrev pub IsService : List CatalogNode → Option ℕ → Type 0
IsService nodes service =
    truthy service ≡ true
    → (n : CatalogNode) × (find?
          (λ m. contains m.id (get_or service 0 ∷ []) && same_level m.level CatalogLevel.service)
          nodes
        ≡ some n)

abbrev pub IsValidChain : List CatalogNode → (service kind complexity : Option ℕ) → Type 0
IsValidChain nodes service kind complexity =
    IsService nodes service
    × IsChild nodes CatalogLevel.intervention_type service kind
    × IsChild nodes CatalogLevel.complexity kind complexity

find_of_one :
    {A : Type 0} (p : A → Bool) (xs : List A)
    → length (filter p xs) ≡ 1
    → (x : A) × (find? p xs ≡ some x)
find_of_one p [] h = absurd (omega arith)
find_of_one p (x ∷ xs) h = elim (Bool-cases (p x)) [
  | inl e ↦ (x, rw e)
  | inr e ↦ let (y, found) = find_of_one p xs (rw e at h) in (y, rw (e, found))
]

is_child→ :
    (o : Option CatalogNode) (l : CatalogLevel) (p : Option ℕ)
    → is_child o l p ≡ true
    → (n : CatalogNode) × (o ≡ some n) × (n.level ≡ l) × (n.parent_id ≡ p)
is_child→ none l p h = absurd (cc)
is_child→ (some n) l p h =
    let (a, b) = and_split _ _ h in (n, refl, same_level→eq n.level l a, same→eq n.parent_id p b)

module _ {R : Type 0} (mongo : Mongo) where
  check_intervention_type-IsChild :
      (service kind : Option ℕ) (s : Db R)
      → (check_intervention_type mongo service kind s).0 ≡ ok tt
      → IsChild s.nodes CatalogLevel.intervention_type service kind
  unfolding check_intervention_type get_by_id
  check_intervention_type-IsChild service kind s h given =
      let both : (truthy service ≡ true)
          × (is_child (mongo.find_one (λ m. m.id == get_or kind 0) s.nodes)
                CatalogLevel.intervention_type service
              ≡ true) =
        ground arith in
      let (n, found, level, parent) = is_child→ _ _ _ both.1 in
      (n, sym (mongo.find_one_lem _ s.nodes) ∙ found, level, parent, both.0)

  check_complexity-IsChild :
      (kind complexity : Option ℕ) (s : Db R)
      → (check_complexity mongo kind complexity s).0 ≡ ok tt
      → IsChild s.nodes CatalogLevel.complexity kind complexity
  unfolding check_complexity get_by_id
  check_complexity-IsChild kind complexity s h given =
      let both : (truthy kind ≡ true)
          × (is_child (mongo.find_one (λ m. m.id == get_or complexity 0) s.nodes)
                CatalogLevel.complexity kind
              ≡ true) =
        ground arith in
      let (n, found, level, parent) = is_child→ _ _ _ both.1 in
      (n, sym (mongo.find_one_lem _ s.nodes) ∙ found, level, parent, both.0)

  check_service-IsService :
      (service : Option ℕ) (s : Db R)
      → (check_service mongo service s).0 ≡ ok tt
      → IsService s.nodes service
  unfolding check_service count_existing
  check_service-IsService service s h given = find_of_one _ s.nodes (
      ground (
        arith,
        mongo.find_lem
            (λ n. contains n.id (get_or service 0 ∷ []) && same_level n.level CatalogLevel.service)
            s.nodes,
      ))

  assert_valid_catalog_chain-IsValidChain :
      (service kind complexity : Option ℕ) (s : Db R)
      → (assert_valid_catalog_chain mongo service kind complexity s).0 ≡ ok tt
      → IsValidChain s.nodes service kind complexity
  unfolding assert_valid_catalog_chain
  assert_valid_catalog_chain-IsValidChain a b c s h = (
    check_service-IsService a s (ground arith),
    check_intervention_type-IsChild a b s (ground (arith, check_service_state mongo a s)),
    check_complexity-IsChild b c s
        (ground (arith, check_service_state mongo a s, check_intervention_type_state mongo a b s)),
  )

  -- When an update that names a service, an intervention type or a complexity succeeds, the whole
  -- chain of the request that it returns is valid in the catalogue: a service that is set is a SERVICE
  -- node, an intervention type that is set is an INTERVENTION_TYPE node under the service, which is
  -- set, and a complexity that is set is a COMPLEXITY node under the intervention type, which is set.
  pub update-IsValidChain :
      (id client : ℕ) (i : UpdateServiceRequestInput) (s : Db R) {v : RequestView}
      → touches_chain i ≡ true
      → (update mongo id client i s).0 ≡ ok v
      → IsValidChain s.nodes v.doc.service_id v.doc.intervention_type_id v.doc.complexity_id
  unfolding update check_chain save to_service_request
  update-IsValidChain id client i s {v} t h =
      elim (Result-cases (require_editable mongo id client s).0) [
        | inr (x, e) ↦ absurd (ground arith)
        | inl (d, e) ↦
            elim (Result-cases
              (assert_valid_catalog_chain mongo (patch i d).service_id
                (patch i d).intervention_type_id (patch i d).complexity_id s).0) [
                  | inr (x, bad) ↦ absurd (ground (arith, require_editable_state mongo id client s))
                  | inl (u, good) ↦
                      let doc : v.doc ≡ patch i d = ground (
                        arith,
                        require_editable_state mongo id client s,
                        assert_valid_catalog_chain_state mongo (patch i d).service_id
                            (patch i d).intervention_type_id (patch i d).complexity_id s,
                      ) in
                      rw doc (assert_valid_catalog_chain-IsValidChain _ _ _ s good)
                ]
      ]
