-- ===== src/Companies/Owners.antt =====
-- A company is never left without an owner (apps/api/src/companies/company.service.ts).
use appforfixiyi.Common.{
  ℕ, ◌≤◌, ◌≡◌, refl, sym, ◌∙◌, true, false, ◌&&◌, ◌||◌, some, List, [], ◌∷◌, ◌++◌, inl, inr, arith,
  ◌==◌, leb, Bool-cases, Option-cases, ==_refl, All, All-imp, All-append, any, find?, update_first,
  count, count-append, count-le-update_first, count-le-suc-update_first,
  count-le-update_first_other, find?-of_strict, find?-some, length-filter, ok, err, domain,
  bad_request, company_last_owner, key_of_find, ◌⊎◌,
}
use appforfixiyi.Store.{Mongo}
use appforfixiyi.Store.Database.{Db}
use appforfixiyi.Store.Entities.Companies.{CompanyMember, removed}
use appforfixiyi.Companies.{
  CreateCompanyInput, InviteCompanyMemberInput, by_id, of_user, is_owner, is_invited,
  is_active_owner_of, same_company_id, clashes, new_company, founder, invitee, joined,
  insert_member, insert_company, create, invite, accept_invite, remove_member, save,
  is_active_owner, assert_is_active_owner, check_last_owner, find_member,
}

-- The calls that write companies and members.
pub data Call : Type 0 where
  create_call : (fresh fresh_member user now : ℕ) → CreateCompanyInput → Call
  invite_call : (fresh company actor now : ℕ) → InviteCompanyMemberInput → Call
  accept_call : (company user now : ℕ) → Call
  remove_call : (company actor id : ℕ) → Call

-- The ids that a call makes are in no use.
abbrev pub IsFresh : {R : Type 0} → Call → Db R → Type 0
IsFresh (create_call fresh fresh_member user now i) s =
    any (λ m. m.id == fresh_member || m.company_id == fresh) s.members ≡ false
IsFresh _ s = Unit

abbrev pub owners : ℕ → List CompanyMember → ℕ
owners company ms = count (is_active_owner_of company) ms

-- Every company has an active owner.
abbrev pub AllOwned : {R : Type 0} → Db R → Type 0
AllOwned s = All (λ c. 1 ≤ owners c.id s.members) s.companies

abbrev pub HasUniqueIds : {R : Type 0} → Db R → Type 0
HasUniqueIds s = (i : ℕ) → count (by_id i) s.members ≤ 1

module _ {R : Type 0} (mongo : Mongo) where
  unfoldable pub run : Call → Db R → Db R
  run (create_call fresh fresh_member user now i) s =
      (create mongo fresh fresh_member user now i s).1
  run (invite_call fresh company actor now i) s = (invite mongo fresh company actor now i s).1
  run (accept_call company user now) s = (accept_invite mongo company user now s).1
  run (remove_call company actor id) s = (remove_member mongo company actor id s).1

-- Members are replaced by others that own as many companies.
AllOwned-members :
    {R : Type 0} (s : Db R) (ms : List CompanyMember)
    → ((k : ℕ) → 1 ≤ owners k s.members → 1 ≤ owners k ms)
    → AllOwned s
    → All (λ c. 1 ≤ owners c.id ms) s.companies
AllOwned-members s ms h o = All-imp _ _ s.companies (λ c. h c.id) o

owners-append : (k : ℕ) (ms ns : List CompanyMember) → 1 ≤ owners k ms → 1 ≤ owners k (ms ++ ns)
owners-append k ms ns h = omega (arith, count-append (is_active_owner_of k) ms ns)

owners-joined :
    (k now id : ℕ) (ms : List CompanyMember)
    → 1 ≤ owners k ms
    → 1 ≤ owners k (update_first (by_id id) (joined now) ms)
owners-joined k now id ms h = omega (
  arith,
  count-le-update_first (is_active_owner_of k) (by_id id) (joined now) ms (λ m p o. ground arith),
)

abbrev dropped : CompanyMember → CompanyMember
dropped m = record m { status = removed }

-- Removing a member that is no owner of the company, or one of several.
owners-dropped :
    (k company id : ℕ) (ms : List CompanyMember) {m : CompanyMember}
    → find? (by_id id) ms ≡ some m
    → m.company_id ≡ company
    → (is_owner m.role ≡ true → 2 ≤ owners company ms)
    → 1 ≤ owners k ms
    → 1 ≤ owners k (update_first (by_id id) dropped ms)
owners-dropped k company id ms {m} e c two h = elim (Bool-cases (is_active_owner_of k m)) [
  | inr other ↦ omega (
    arith,
    count-le-update_first_other (is_active_owner_of k) (by_id id) dropped ms {y = m} e other,
  )
  | inl own ↦
      omega
        (arith, count-le-suc-update_first (is_active_owner_of k) (by_id id) dropped ms, enough own)
]
  where
    enough : is_active_owner_of k m ≡ true → 2 ≤ owners k ms
    enough own =
        let same : company ≡ k = ground arith in
        let own' : is_owner m.role ≡ true = ground arith in rw (← same) (two own')

no_clash :
    (fresh fresh_member user now : ℕ) (ms : List CompanyMember)
    → any (λ m. m.id == fresh_member || m.company_id == fresh) ms ≡ false
    → any (clashes (founder fresh_member fresh user now)) ms ≡ false
no_clash fresh fresh_member user now [] h = refl
no_clash fresh fresh_member user now (m ∷ ms) h =
    ground (arith, no_clash fresh fresh_member user now ms)

module _ {R : Type 0} (mongo : Mongo) where
  create-AllOwned :
      (fresh fresh_member user now : ℕ) (i : CreateCompanyInput) (s : Db R)
      → IsFresh (create_call fresh fresh_member user now i) s
      → AllOwned s
      → AllOwned (create mongo fresh fresh_member user now i s).1
  unfolding create insert_company insert_member
  create-AllOwned fresh fresh_member user now i s free o =
      elim (Bool-cases (any (same_company_id (new_company fresh user i)) s.companies)) [
        | inl taken ↦ rw (mongo.create_lem, taken) o
        | inr open' ↦
            rw
              (
                mongo.create_lem,
                open',
                mongo.create_lem,
                no_clash fresh fresh_member user now s.members free,
              )
              (All-append _ s.companies (new_company fresh user i ∷ [])
                (AllOwned-members s _
                  (λ k. owners-append k s.members (founder fresh_member fresh user now ∷ [])) o)
                (owned, tt))
      ]
    where
      owned : 1 ≤ owners fresh (s.members ++ founder fresh_member fresh user now ∷ [])
      owned =
          let one : is_active_owner_of fresh (founder fresh_member fresh user now) ≡ true =
            rw (==_refl fresh) in
          rw
            (
              count-append (is_active_owner_of fresh) s.members
                  (founder fresh_member fresh user now ∷ []),
              one,
            )
            (omega arith)

  invite-AllOwned :
      (fresh company actor now : ℕ) (i : InviteCompanyMemberInput) (s : Db R)
      → AllOwned s
      → AllOwned (invite mongo fresh company actor now i s).1
  unfolding invite assert_is_active_owner insert_member
  invite-AllOwned fresh company actor now i s o =
      elim (Bool-cases (is_active_owner mongo company actor s)) [
        | inr e ↦ rw e o
        | inl e ↦ elim (Option-cases (mongo.find_one (λ u. u.phone == i.phone) s.users)) [
          | inl n ↦ rw (e, n) o
          | inr (u, f) ↦ elim (Option-cases (mongo.find_one (of_user company u.id) s.members)) [
            | inr (m, g) ↦ rw (e, f, g) o
            | inl g ↦
                let new = invitee fresh company u.id now i.role in
                elim (Bool-cases (any (clashes new) s.members)) [
                  | inl taken ↦ rw (e, f, g, mongo.create_lem, taken) o
                  | inr free ↦
                      rw (e, f, g, mongo.create_lem, free)
                        (AllOwned-members s _ (λ k. owners-append k s.members (new ∷ [])) o)
                ]
          ]
        ]
      ]

  accept_invite-AllOwned :
      (company user now : ℕ) (s : Db R)
      → AllOwned s
      → AllOwned (accept_invite mongo company user now s).1
  unfolding accept_invite save
  accept_invite-AllOwned company user now s o =
      elim (Option-cases (mongo.find_one (of_user company user) s.members)) [
        | inl n ↦ rw n o
        | inr (m, e) ↦ elim (Bool-cases (is_invited m.status)) [
          | inr late ↦ rw (e, late) o
          | inl c ↦
              rw (e, c, mongo.update_one_lem)
                (AllOwned-members s _ (λ k. owners-joined k now m.id s.members) o)
        ]
      ]

  check_last_owner-cases :
      (company : ℕ) (m : CompanyMember) (s : Db R)
      → (check_last_owner mongo company m s ≡ (err (domain bad_request company_last_owner), s))
        ⊎ ((check_last_owner mongo company m s ≡ (ok tt, s))
            × (is_owner m.role ≡ true → 2 ≤ owners company s.members))
  unfolding check_last_owner
  check_last_owner-cases company m s = elim (Bool-cases (is_owner m.role)) [
    | inr e ↦ inr (rw e, λ own. absurd (cc))
    | inl e ↦ elim (Bool-cases (leb (owners company s.members) 1)) [
      | inl few ↦
          inl (rw (e, mongo.find_lem, length-filter (is_active_owner_of company) s.members, few))
      | inr many ↦ inr (
        rw (e, mongo.find_lem, length-filter (is_active_owner_of company) s.members, many),
        λ own. ground arith,
      )
    ]
  ]

  found_member :
      (company id : ℕ) (s : Db R) {m : CompanyMember}
      → HasUniqueIds s
      → mongo.find_one (λ m. m.id == id && m.company_id == company) s.members ≡ some m
      → (m.id ≡ id) × (m.company_id ≡ company) × (find? (by_id id) s.members ≡ some m)
  found_member company id s {m} u f = (
    key_of_find (λ r. r.id) id s.members {x = m} by_key,
    here (find?-some (λ r. r.id == id && r.company_id == company) s.members {x = m} found),
    by_key,
  )
    where
      found : find? (λ r. r.id == id && r.company_id == company) s.members ≡ some m
      found = sym (mongo.find_one_lem (λ r. r.id == id && r.company_id == company) s.members) ∙ f

      strict :
          (r : CompanyMember) → (r.id == id && r.company_id == company) ≡ true → by_id id r ≡ true
      strict r e = ground arith

      by_key : find? (by_id id) s.members ≡ some m
      by_key =
          find?-of_strict (λ r. r.id == id && r.company_id == company) (by_id id) strict s.members
            (u id) found

      here : (m.id == id && m.company_id == company) ≡ true → m.company_id ≡ company
      here e = ground arith

  remove_member-AllOwned :
      (company actor id : ℕ) (s : Db R)
      → HasUniqueIds s
      → AllOwned s
      → AllOwned (remove_member mongo company actor id s).1
  unfolding remove_member assert_is_active_owner find_member save
  remove_member-AllOwned company actor id s u o =
      elim (Bool-cases (is_active_owner mongo company actor s)) [
        | inr e ↦ rw e o
        | inl e ↦
            elim (Option-cases
              (mongo.find_one (λ m. m.id == id && m.company_id == company) s.members)) [
                | inl n ↦ rw (e, n) o
                | inr (m, f) ↦ elim (check_last_owner-cases company m s) [
                  | inl last ↦ rw (e, f, last) o
                  | inr (more, two) ↦
                      let (same, c, found) = found_member company id s u f in
                      rw (e, f, more, same, mongo.update_one_lem)
                        (AllOwned-members s _
                          (λ k. owners-dropped k company id s.members {m = m} found c two) o)
                ]
              ]
      ]

  -- Whatever call creates a company, invites, accepts an invitation or removes a member, whether it
  -- succeeds or throws: if every company had an active owner before, every company has one
  -- afterwards, the new one included. This is where the ids of members are unique, and the ids that
  -- a creation makes are in no use.
  pub run-AllOwned :
      (c : Call) (s : Db R) → HasUniqueIds s → IsFresh c s → AllOwned s → AllOwned (run mongo c s)
  unfolding run
  run-AllOwned (create_call fresh fresh_member user now i) s u free o =
      create-AllOwned fresh fresh_member user now i s free o
  run-AllOwned (invite_call fresh company actor now i) s u free o =
      invite-AllOwned fresh company actor now i s o
  run-AllOwned (accept_call company user now) s u free o =
      accept_invite-AllOwned company user now s o
  run-AllOwned (remove_call company actor id) s u free o =
      remove_member-AllOwned company actor id s u o
