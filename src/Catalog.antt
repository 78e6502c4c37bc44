-- ===== src/Catalog.antt =====
-- apps/api/src/catalog/catalog.service.ts: the catalogue of services, a forest whose levels are
-- fixed by CATALOG_PARENT_LEVEL of packages/contracts/src/catalog.ts.
pub mod Forest
pub mod Places
use appforfixiyi.Common.{
  ℕ, zero, suc, Bool, true, false, not, ◌&&◌, ◌||◌, Option, none, some, List, [], ◌∷◌, length, ◌==◌,
  ltb, leb, if◌then◌else◌, Exec, pure, gets, require_some, guard, throw, modify, ◌>>=◌, ◌>>◌,
  not_found, get_or, is_some, contains, distinct, truthy, bad_request, catalog_parent_not_allowed,
  catalog_parent_required, catalog_parent_invalid, catalog_required_skills_not_allowed,
  catalog_skill_invalid, duplicate_key,
}
use appforfixiyi.Common
use appforfixiyi.Store.{Mongo}
use appforfixiyi.Store.Database.{Db, store_created}
use appforfixiyi.Store.Entities.Requests.{CatalogLevel, CatalogNode}

-- CATALOG_PARENT_LEVEL.
abbrev pub parent_level : CatalogLevel → Option CatalogLevel
parent_level CatalogLevel.domain = none
parent_level CatalogLevel.category = some CatalogLevel.domain
parent_level CatalogLevel.service = some CatalogLevel.category
parent_level CatalogLevel.intervention_type = some CatalogLevel.service
parent_level CatalogLevel.complexity = some CatalogLevel.intervention_type
parent_level CatalogLevel.skill = none

abbrev pub level_index : CatalogLevel → ℕ
level_index CatalogLevel.domain = 0
level_index CatalogLevel.category = 1
level_index CatalogLevel.service = 2
level_index CatalogLevel.intervention_type = 3
level_index CatalogLevel.complexity = 4
level_index CatalogLevel.skill = 5

-- `===` on levels.
abbrev pub same_level : CatalogLevel → CatalogLevel → Bool
same_level a b = level_index a == level_index b

abbrev pub by_id : ℕ → CatalogNode → Bool
by_id i n = n.id == i

abbrev pub same_parent : Option ℕ → Option ℕ → Bool
same_parent none none = true
same_parent (some a) (some b) = a == b
same_parent _ _ = false

-- The key of the unique index on the level, the parent and the name.
abbrev pub same_place : CatalogNode → CatalogNode → Bool
same_place a b =
    same_level a.level b.level && same_parent a.parent_id b.parent_id && a.name == b.name

-- The unique indexes: `_id`, and the place.
abbrev pub clashes : CatalogNode → CatalogNode → Bool
clashes a b = a.id == b.id || same_place a b

-- Another node at the place of one that is saved.
abbrev pub is_taken : CatalogNode → CatalogNode → Bool
is_taken n x = not (x.id == n.id) && same_place n x

pub record CreateCatalogNodeInput : Type 0 where
  pub level : CatalogLevel
  pub parent_id : Option ℕ
  pub name : ℕ
  pub description : Option ℕ
  pub order : Option ℕ
  pub required_skill_ids : Option (List ℕ)
  pub icon : Option ℕ
  pub accent_color : Option ℕ

-- In an update `none` is an absent key, and `some none` is null.
pub record UpdateCatalogNodeInput : Type 0 where
  pub name : Option ℕ
  pub description : Option (Option ℕ)
  pub order : Option ℕ
  pub active : Option Bool
  pub required_skill_ids : Option (List ℕ)
  pub icon : Option (Option ℕ)
  pub accent_color : Option (Option ℕ)

-- The assignments of `update`, each under its `!== undefined`.
abbrev pub patch : UpdateCatalogNodeInput → CatalogNode → CatalogNode
patch i n = record n {
  required_skill_ids = get_or i.required_skill_ids n.required_skill_ids;
  name = get_or i.name n.name;
  description = get_or i.description n.description;
  order = get_or i.order n.order;
  active = get_or i.active n.active;
  icon = get_or i.icon n.icon;
  accent_color = get_or i.accent_color n.accent_color;
}

-- The document of `create`; `fresh` is what `generateId()` returns.
abbrev pub new_node : (fresh : ℕ) → CreateCatalogNodeInput → CatalogNode
new_node fresh i = record {
  id = fresh;
  level = i.level;
  parent_id = i.parent_id;
  name = i.name;
  description = i.description;
  order = get_or i.order 0;
  active = true;
  required_skill_ids = get_or i.required_skill_ids [];
  icon = i.icon;
  accent_color = i.accent_color;
}

-- `parent?.level === level`.
abbrev pub has_level : Option CatalogNode → CatalogLevel → Bool
has_level none level = false
has_level (some n) level = same_level n.level level

-- `filter.parentId = parentId`, where one is given.
abbrev pub has_parent : Option ℕ → CatalogNode → Bool
has_parent none n = true
has_parent (some p) n = is_some n.parent_id && get_or n.parent_id 0 == p

abbrev pub is_listed :
    CatalogLevel → (parent : Option ℕ) → (include_inactive : Bool) → CatalogNode → Bool
is_listed level parent include_inactive n =
    same_level n.level level && has_parent parent n && (include_inactive || n.active)

-- `sort({ order: 1, name: 1 })`; the order of the numbers of names stands for that of the texts.
abbrev pub by_order : CatalogNode → CatalogNode → Bool
by_order a b = ltb a.order b.order || (a.order == b.order && leb a.name b.name)

module _ {R : Type 0} (mongo : Mongo) where
  unfoldable pub list_by_level :
      CatalogLevel → (parent : Option ℕ) → (include_inactive : Bool) → Db R → List CatalogNode
  list_by_level level parent include_inactive s =
      mongo.sort by_order (mongo.find (is_listed level parent include_inactive) s.nodes)

  unfoldable pub count_existing : List ℕ → CatalogLevel → Db R → ℕ
  count_existing [] level s = 0
  count_existing (i ∷ ids) level s =
      length (mongo.find (λ n. contains n.id (i ∷ ids) && same_level n.level level) s.nodes)

  unfoldable pub get_by_id : ℕ → Db R → Option CatalogNode
  get_by_id i s = mongo.find_one (by_id i) s.nodes

  check_parent : Option CatalogLevel → Option ℕ → Exec (Db R) (Unit {0})
  unfolding get_by_id
  check_parent none none = pure tt
  check_parent none (some p) = throw (Common.domain bad_request catalog_parent_not_allowed)
  check_parent (some level) none = throw (Common.domain bad_request catalog_parent_required)
  check_parent (some level) (some p) = do
    guard (truthy (some p)) (Common.domain bad_request catalog_parent_required)
    parent ← gets (get_by_id p)
    guard (has_level parent level) (Common.domain bad_request catalog_parent_invalid)

  pub assert_valid_parent : CatalogLevel → Option ℕ → Exec (Db R) (Unit {0})
  unfolding check_parent
  assert_valid_parent level p = check_parent (parent_level level) p

  pub assert_valid_required_skills : CatalogLevel → List ℕ → Exec (Db R) (Unit {0})
  unfolding count_existing
  assert_valid_required_skills level [] = pure tt
  assert_valid_required_skills level (i ∷ ids) = do
    guard (same_level level CatalogLevel.complexity)
        (Common.domain bad_request catalog_required_skills_not_allowed)
    found ← gets (count_existing (i ∷ ids) CatalogLevel.skill)
    guard (found == length (distinct (i ∷ ids))) (Common.domain bad_request catalog_skill_invalid)

  pub put : CatalogNode → Exec (Db R) CatalogNode
  put n = do
    made ← gets (λ s. mongo.create clashes n s.nodes)
    store_created made (λ c s. record s { nodes = c })
    pure n

  unfoldable pub create : (fresh : ℕ) → CreateCatalogNodeInput → Exec (Db R) CatalogNode
  create fresh i = do
    assert_valid_parent i.level i.parent_id
    assert_valid_required_skills i.level (get_or i.required_skill_ids [])
    put (new_node fresh i)

  pub check_skills_patch : CatalogLevel → Option (List ℕ) → Exec (Db R) (Unit {0})
  unfolding assert_valid_required_skills
  check_skills_patch level none = pure tt
  check_skills_patch level (some skills) = assert_valid_required_skills level skills

  unfoldable pub update : ℕ → UpdateCatalogNodeInput → Exec (Db R) CatalogNode
  unfolding get_by_id
  update id i = do
    found ← gets (get_by_id id)
    node ← require_some found not_found
    check_skills_patch node.level i.required_skill_ids
    taken ← gets (λ s. mongo.find_one (is_taken (patch i node)) s.nodes)
    guard (not (is_some taken)) duplicate_key
    modify (λ s. record s { nodes = mongo.update_one (by_id id) (patch i) s.nodes })
    pure (patch i node)

  unfoldable pub deactivate : ℕ → Exec (Db R) (Unit {0})
  unfolding get_by_id
  deactivate id = do
    found ← gets (get_by_id id)
    node ← require_some found not_found
    modify (λ s. record s {
      nodes = mongo.update_one (by_id id) (λ n. record n { active = false }) s.nodes;
    })
