-- ===== src/Catalog/Forest.antt =====
-- Every node of the catalogue hangs under a node of the level above
-- (apps/api/src/catalog/catalog.service.ts).
use appforfixiyi.Common.{
  ℕ, ◌≡◌, refl, ap, ◌∙◌, get_or, Bool, true, Option, none, some, List, [], ◌∷◌, ◌++◌, inl, inr,
  arith, ◌==◌, if◌then◌else◌, Bool-cases, Option-cases, ok, Result-cases, All, All-append, All-imp,
  All-update_first, update_first, find?, any,
}
use appforfixiyi.Store.{Mongo}
use appforfixiyi.Store.Database.{Db}
use appforfixiyi.Store.Entities.Requests.{CatalogLevel, CatalogNode}
use appforfixiyi.Catalog.{
  parent_level, by_id, clashes, is_taken, same_level, has_level, CreateCatalogNodeInput,
  UpdateCatalogNodeInput, patch, check_parent, assert_valid_parent, assert_valid_required_skills,
  check_skills_patch, new_node, put, create, update, deactivate,
}

abbrev pub level_at : List CatalogNode → ℕ → Option CatalogLevel
level_at [] i = none
level_at (n ∷ ns) i = if n.id == i then some n.level else level_at ns i

-- A root level has no parent, any other one a parent of the level above.
abbrev pub Fits : (ℕ → Option CatalogLevel) → Option CatalogLevel → Option ℕ → Type 0
Fits at none none = Unit
Fits at none (some p) = ⊥
Fits at (some l) none = ⊥
Fits at (some l) (some p) = at p ≡ some l

-- The calls that write the catalogue.
pub data Call : Type 0 where
  create_call : (fresh : ℕ) → CreateCatalogNodeInput → Call
  update_call : (id : ℕ) → UpdateCatalogNodeInput → Call
  deactivate_call : (id : ℕ) → Call

abbrev pub IsForest : List CatalogNode → Type 0
IsForest ns = All (λ n. Fits (level_at ns) (parent_level n.level) n.parent_id) ns

Fits-imp :
    (at at' : ℕ → Option CatalogLevel)
    → ((i : ℕ) (l : CatalogLevel) → at i ≡ some l → at' i ≡ some l)
    → (l : Option CatalogLevel) (p : Option ℕ) → Fits at l p
    → Fits at' l p
Fits-imp at at' k none none h = tt
Fits-imp at at' k none (some p) h = h
Fits-imp at at' k (some l) none h = h
Fits-imp at at' k (some l) (some p) h = k p l h

level_at-append :
    (ns ms : List CatalogNode) (i : ℕ) (l : CatalogLevel)
    → level_at ns i ≡ some l
    → level_at (ns ++ ms) i ≡ some l
level_at-append [] ms i l h = cc
level_at-append (n ∷ ns) ms i l h = ground (arith, level_at-append ns ms i l)

level_at-update :
    (p : CatalogNode → Bool) (f : CatalogNode → CatalogNode)
    → ((n : CatalogNode) → (f n).id ≡ n.id)
    → ((n : CatalogNode) → (f n).level ≡ n.level)
    → (ns : List CatalogNode) (i : ℕ) → level_at (update_first p f ns) i ≡ level_at ns i
level_at-update p f hi hl [] i = refl
level_at-update p f hi hl (n ∷ ns) i = elim (Bool-cases (p n)) [
  | inl e ↦ rw (e, hi, hl)
  | inr e ↦ rw (e, level_at-update p f hi hl ns i)
]

pub same_level→eq : (a b : CatalogLevel) → same_level a b ≡ true → a ≡ b
same_level→eq a b h = ground arith

level_at-find :
    (ns : List CatalogNode) (i : ℕ) (l : CatalogLevel)
    → has_level (find? (by_id i) ns) l ≡ true
    → level_at ns i ≡ some l
level_at-find [] i l h = cc
level_at-find (n ∷ ns) i l h = elim (Bool-cases (n.id == i)) [
  | inl e ↦ rw e (ap {B = Option CatalogLevel} some (same_level→eq n.level l (rw e at h)))
  | inr e ↦ rw e (level_at-find ns i l (rw e at h))
]

IsForest-append :
    (n : CatalogNode) (ns : List CatalogNode)
    → Fits (level_at ns) (parent_level n.level) n.parent_id
    → IsForest ns
    → IsForest (ns ++ n ∷ [])
IsForest-append n ns h k =
    All-append _ ns (n ∷ [])
      (All-imp _ _ ns (λ m. Fits-imp (level_at ns) _ (level_at-append ns (n ∷ [])) _ _) k)
      (Fits-imp (level_at ns) _ (level_at-append ns (n ∷ [])) _ _ h, tt)

IsForest-update :
    (mongo : Mongo) (p : CatalogNode → Bool) (f : CatalogNode → CatalogNode) (ns : List CatalogNode)
    → ((n : CatalogNode) → (f n).id ≡ n.id)
    → ((n : CatalogNode) → (f n).level ≡ n.level)
    → ((n : CatalogNode) → (f n).parent_id ≡ n.parent_id)
    → IsForest ns
    → IsForest (mongo.update_one p f ns)
IsForest-update mongo p f ns hi hl hp k = rw mongo.update_one_lem (
    All-update_first _ p f ns
      (All-imp _ _ ns
        (λ m. Fits-imp (level_at ns) _ (λ i l e. level_at-update p f hi hl ns i ∙ e) _ _) k)
      (λ n h e. rw (hl n, hp n) h))

module _ {R : Type 0} (mongo : Mongo) where
  check_parent-Fits :
      (l : Option CatalogLevel) (p : Option ℕ) (s : Db R)
      → (check_parent mongo l p s).0 ≡ ok tt
      → Fits (level_at s.nodes) l p
  unfolding check_parent
  check_parent-Fits none none s h = tt
  check_parent-Fits none (some p) s h = cc
  check_parent-Fits (some l) none s h = cc
  check_parent-Fits (some l) (some p) s h =
      level_at-find s.nodes p l (ground (arith, mongo.find_one_lem (by_id p) s.nodes))

  check_parent_state :
      (l : Option CatalogLevel) (p : Option ℕ) (s : Db R) → (check_parent mongo l p s).1 ≡ s
  unfolding check_parent
  check_parent_state none none s = refl
  check_parent_state none (some p) s = refl
  check_parent_state (some l) none s = refl
  check_parent_state (some l) (some p) s = ground arith

  pub assert_valid_parent_state :
      (l : CatalogLevel) (p : Option ℕ) (s : Db R) → (assert_valid_parent mongo l p s).1 ≡ s
  unfolding assert_valid_parent
  assert_valid_parent_state l p s = check_parent_state (parent_level l) p s

  pub assert_valid_required_skills_state :
      (l : CatalogLevel) (ids : List ℕ) (s : Db R)
      → (assert_valid_required_skills mongo l ids s).1 ≡ s
  unfolding assert_valid_required_skills
  assert_valid_required_skills_state l [] s = refl
  assert_valid_required_skills_state l (i ∷ ids) s = ground arith

  pub check_skills_patch_state :
      (l : CatalogLevel) (ids : Option (List ℕ)) (s : Db R)
      → (check_skills_patch mongo l ids s).1 ≡ s
  unfolding check_skills_patch
  check_skills_patch_state l none s = refl
  check_skills_patch_state l (some ids) s = assert_valid_required_skills_state l ids s

  put-IsForest :
      (n : CatalogNode) (s : Db R)
      → Fits (level_at s.nodes) (parent_level n.level) n.parent_id
      → IsForest s.nodes
      → IsForest (put mongo n s).1.nodes
  unfolding put
  put-IsForest n s h k = elim (Bool-cases (any (clashes n) s.nodes)) [
    | inl e ↦ rw (mongo.create_lem, e) k
    | inr e ↦ rw (mongo.create_lem, e) (IsForest-append n s.nodes h k)
  ]

  create-IsForest :
      (fresh : ℕ) (i : CreateCatalogNodeInput) (s : Db R)
      → IsForest s.nodes
      → IsForest (create mongo fresh i s).1.nodes
  unfolding create assert_valid_parent
  create-IsForest fresh i s k =
      elim (Result-cases (check_parent mongo (parent_level i.level) i.parent_id s).0) [
        | inr (x, e) ↦ rw (e, check_parent_state (parent_level i.level) i.parent_id s) k
        | inl (a, e) ↦
            rw (e, check_parent_state (parent_level i.level) i.parent_id s)
              (elim (Result-cases
                (assert_valid_required_skills mongo i.level (get_or i.required_skill_ids []) s).0) [
                  | inr (x, e') ↦
                      rw
                        (
                          e',
                          assert_valid_required_skills_state i.level
                              (get_or i.required_skill_ids []) s,
                        )
                        k
                  | inl (b, e') ↦
                      rw
                        (
                          e',
                          assert_valid_required_skills_state i.level
                              (get_or i.required_skill_ids []) s,
                        )
                        (put-IsForest (new_node fresh i) s
                          (check_parent-Fits (parent_level i.level) i.parent_id s e) k)
                ])
      ]

  update-IsForest :
      (id : ℕ) (i : UpdateCatalogNodeInput) (s : Db R)
      → IsForest s.nodes
      → IsForest (update mongo id i s).1.nodes
  unfolding update
  update-IsForest id i s k = elim (Option-cases (mongo.find_one (by_id id) s.nodes)) [
    | inl e ↦ rw e k
    | inr (n, e) ↦
        rw e (elim (Result-cases (check_skills_patch mongo n.level i.required_skill_ids s).0) [
          | inr (x, e') ↦ rw (e', check_skills_patch_state n.level i.required_skill_ids s) k
          | inl (b, e') ↦
              rw (e', check_skills_patch_state n.level i.required_skill_ids s)
                (elim (Option-cases (mongo.find_one (is_taken (patch i n)) s.nodes)) [
                  | inr (other, t) ↦ rw t k
                  | inl t ↦ rw t (
                      IsForest-update mongo (by_id id) (patch i) s.nodes (λ n. refl) (λ n. refl)
                        (λ n. refl) k)
                ])
        ])
  ]

  deactivate-IsForest :
      (id : ℕ) (s : Db R) → IsForest s.nodes → IsForest (deactivate mongo id s).1.nodes
  unfolding deactivate
  deactivate-IsForest id s k = elim (Option-cases (mongo.find_one (by_id id) s.nodes)) [
    | inl e ↦ rw e k
    | inr (n, e) ↦
        rw e (IsForest-update mongo (by_id id) _ s.nodes (λ n. refl) (λ n. refl) (λ n. refl) k)
  ]

  unfoldable pub run : Call → Db R → Db R
  run (create_call fresh i) s = (create mongo fresh i s).1
  run (update_call id i) s = (update mongo id i s).1
  run (deactivate_call id) s = (deactivate mongo id s).1

  -- Creating, updating or deactivating a node, whether the call succeeds or is refused, keeps the
  -- catalogue a forest: every node stands under a node of the level above its own, and nodes of a
  -- top level under none.
  pub run-IsForest : (c : Call) (s : Db R) → IsForest s.nodes → IsForest (run c s).nodes
  unfolding run
  run-IsForest (create_call fresh i) s k = create-IsForest fresh i s k
  run-IsForest (update_call id i) s k = update-IsForest id i s k
  run-IsForest (deactivate_call id) s k = deactivate-IsForest id s k
