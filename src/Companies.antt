-- ===== src/Companies.antt =====
-- apps/api/src/companies/company.service.ts: companies and their members.
pub mod Owners
use appforfixiyi.Common.{
  ℕ, Bool, true, false, not, ◌&&◌, ◌||◌, Option, none, some, List, [], ◌∷◌, length, map, any, ◌==◌,
  leb, if◌then◌else◌, Exec, pure, gets, require_some, guard, throw, modify, ◌>>=◌, ◌>>◌, not_found,
  forbidden, domain, is_some, contains, conflict, bad_request, not_found_status, user_not_found,
  company_member_already_exists, company_last_owner,
}
use appforfixiyi.Store.{Mongo}
use appforfixiyi.Store.Database.{Db, store_created}
use appforfixiyi.Store.Entities.Auth.{User}
use appforfixiyi.Store.Entities.Companies.{
  Company, CompanyStatus, CompanyMember, CompanyMemberRole, owner, member, technician,
  CompanyMemberStatus, invited, active, removed,
}

pub record CreateCompanyInput : Type 0 where
  pub name : ℕ
  pub legal_name : Option ℕ
  pub registration_number : Option ℕ

-- An invitation names one of two roles; nobody is invited as an owner.
pub data InvitedRole : Type 0 where
  as_member as_technician : InvitedRole

abbrev pub role_of : InvitedRole → CompanyMemberRole
role_of as_member = member
role_of as_technician = technician

pub record InviteCompanyMemberInput : Type 0 where
  pub phone : ℕ
  pub role : InvitedRole

abbrev pub is_owner : CompanyMemberRole → Bool
is_owner owner = true
is_owner _ = false

abbrev pub is_active : CompanyMemberStatus → Bool
is_active active = true
is_active _ = false

abbrev pub is_invited : CompanyMemberStatus → Bool
is_invited invited = true
is_invited _ = false

-- `status: { $in: ["ACTIVE", "INVITED"] }`.
abbrev pub is_current : CompanyMemberStatus → Bool
is_current removed = false
is_current _ = true

abbrev pub by_id : ℕ → CompanyMember → Bool
by_id i m = m.id == i

abbrev pub of_user : (company user : ℕ) → CompanyMember → Bool
of_user company user m = m.company_id == company && m.user_id == user

-- The filter of `countDocuments` in `removeMember`.
abbrev pub is_active_owner_of : ℕ → CompanyMember → Bool
is_active_owner_of company m = m.company_id == company && is_owner m.role && is_active m.status

abbrev pub same_company_id : Company → Company → Bool
same_company_id a b = a.id == b.id

-- The unique indexes: `_id`, and the pair of `companyId` and `userId`.
abbrev pub clashes : CompanyMember → CompanyMember → Bool
clashes a b = a.id == b.id || (a.company_id == b.company_id && a.user_id == b.user_id)

abbrev pub new_company : (fresh user : ℕ) → CreateCompanyInput → Company
new_company fresh user i = record {
  id = fresh;
  name = i.name;
  legal_name = i.legal_name;
  registration_number = i.registration_number;
  representative_user_id = user;
  status = CompanyStatus.active;
}

abbrev pub founder : (fresh company user now : ℕ) → CompanyMember
founder fresh company user now = record {
  id = fresh;
  company_id = company;
  user_id = user;
  role = owner;
  status = active;
  invited_at = now;
  joined_at = some now;
}

abbrev pub invitee : (fresh company user now : ℕ) → InvitedRole → CompanyMember
invitee fresh company user now role = record {
  id = fresh;
  company_id = company;
  user_id = user;
  role = role_of role;
  status = invited;
  invited_at = now;
  joined_at = none;
}

abbrev pub joined : (now : ℕ) → CompanyMember → CompanyMember
joined now m = record m { status = active; joined_at = some now }

module _ {R : Type 0} (mongo : Mongo) where
  unfoldable pub insert_member : CompanyMember → Exec (Db R) CompanyMember
  insert_member m = do
    made ← gets (λ s. mongo.create clashes m s.members)
    store_created made (λ c s. record s { members = c })
    pure m

  unfoldable pub insert_company : Company → Exec (Db R) (Unit {0})
  insert_company c = do
    made ← gets (λ s. mongo.create same_company_id c s.companies)
    store_created made (λ c s. record s { companies = c })

  unfoldable pub create :
      (fresh fresh_member user now : ℕ) → CreateCompanyInput → Exec (Db R) Company
  create fresh fresh_member user now i = do
    insert_company (new_company fresh user i)
    insert_member (founder fresh_member fresh user now)
    pure (new_company fresh user i)

  unfoldable pub get_by_id : ℕ → Exec (Db R) Company
  get_by_id id = do
    found ← gets (λ s. mongo.find_one (λ c. c.id == id) s.companies)
    require_some found not_found

  unfoldable pub list_mine : ℕ → Db R → List Company
  list_mine user s =
      let ids =
        map (λ m. m.company_id)
          (mongo.find (λ m. m.user_id == user && is_current m.status) s.members) in
      elim ids [ [] ↦ [] | i ∷ is ↦ mongo.find (λ c. contains c.id (i ∷ is)) s.companies ]

  unfoldable pub list_members : (company actor : ℕ) → Exec (Db R) (List CompanyMember)
  list_members company actor = do
    membership ←
        gets (λ s. mongo.find_one (λ m. of_user company actor m && is_active m.status) s.members)
    guard (is_some membership) forbidden
    gets (λ s. mongo.find (λ m. m.company_id == company) s.members)

  unfoldable pub is_active_owner : (company user : ℕ) → Db R → Bool
  is_active_owner company user s = is_some (
      mongo.find_one (λ m. of_user company user m && is_owner m.role && is_active m.status)
        s.members)

  unfoldable pub assert_is_active_owner : (company user : ℕ) → Exec (Db R) (Unit {0})
  assert_is_active_owner company user = do
    owns ← gets (is_active_owner company user)
    guard owns forbidden

  unfoldable pub invite :
      (fresh company actor now : ℕ) → InviteCompanyMemberInput → Exec (Db R) CompanyMember
  invite fresh company actor now i = do
    assert_is_active_owner company actor
    found ← gets (λ s. mongo.find_one (λ u. u.phone == i.phone) s.users)
    target ← require_some found (domain not_found_status user_not_found)
    existing ← gets (λ s. mongo.find_one (of_user company target.id) s.members)
    guard (not (is_some existing)) (domain conflict company_member_already_exists)
    insert_member (invitee fresh company target.id now i.role)

  -- `member.save()`: the modified fields are written to the document with that id.
  unfoldable pub save : ℕ → (CompanyMember → CompanyMember) → Exec (Db R) (Unit {0})
  save id f = modify (λ s. record s { members = mongo.update_one (by_id id) f s.members })

  unfoldable pub accept_invite : (company user now : ℕ) → Exec (Db R) CompanyMember
  accept_invite company user now = do
    found ← gets (λ s. mongo.find_one (of_user company user) s.members)
    m ← require_some found not_found
    guard (is_invited m.status) not_found
    save m.id (joined now)
    pure (joined now m)

  -- `removeMember` asks for another active owner only where the member is an owner.
  unfoldable pub check_last_owner : ℕ → CompanyMember → Exec (Db R) (Unit {0})
  check_last_owner company m =
      if is_owner m.role
      then (do
        owners ← gets (λ s. length (mongo.find (is_active_owner_of company) s.members))
        guard (not (leb owners 1)) (domain bad_request company_last_owner))
      else pure tt

  unfoldable pub find_member : (company id : ℕ) → Exec (Db R) CompanyMember
  find_member company id = do
    found ← gets (λ s. mongo.find_one (λ m. m.id == id && m.company_id == company) s.members)
    require_some found not_found

  unfoldable pub remove_member : (company actor id : ℕ) → Exec (Db R) (Unit {0})
  remove_member company actor id = do
    assert_is_active_owner company actor
    m ← find_member company id
    check_last_owner company m
    save m.id (λ m. record m { status = removed })
