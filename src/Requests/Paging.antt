-- ===== src/Requests/Paging.antt =====
-- The pages of a client's requests: `listMine` of apps/api/src/requests/request.service.ts.
use appforfixiyi.Common.{
  ℕ, suc, zero, ◌+◌, ◌≤◌, ◌<◌, ◌≡◌, refl, sym, ap, ◌∙◌, true, List, [], ◌∷◌, map, arith, length,
  take, filter, All, All-take, All-imp, filter-All, length-take, length-eq-count, truthy, get_or,
  ltb, IsSorted, IsSorted-take, IsTotal, IsTransitive, ok, min, Option,
}
use appforfixiyi.Store.{Mongo}
use appforfixiyi.Store.Database.{Db}
use appforfixiyi.Store.Entities.Requests.{ServiceRequest}
use appforfixiyi.Requests.{
  RequestListQuery, RequestPage, is_listed, newest_first, fetch_mine, list_mine, to_service_request,
}

abbrev pub docs : RequestPage → List ServiceRequest
docs p = map (λ v. v.doc) p.requests

module _ {R : Type 0} (mongo : Mongo) (client : ℕ) (q : RequestListQuery) (s : Db R) where
  abbrev page : RequestPage
  page = record {
    requests = map (λ d. to_service_request mongo d s) (take q.limit (fetch_mine mongo client q s));
    has_more = ltb q.limit (length (fetch_mine mongo client q s));
  }

docs-views :
    {R : Type 0} (mongo : Mongo) (s : Db R) (ds : List ServiceRequest)
    → map (λ v. v.doc) (map (λ d. to_service_request mongo d s) ds) ≡ ds
unfolding to_service_request
docs-views mongo s [] = refl
docs-views mongo s (d ∷ ds) = rw (docs-views mongo s ds)

take-take : {A : Type 0} (n m : ℕ) (xs : List A) → n ≤ m → take n (take m xs) ≡ take n xs
take-take zero m xs h = refl
take-take (suc n) zero xs h = absurd (omega arith)
take-take (suc n) (suc m) [] h = refl
take-take (suc n) (suc m) (x ∷ xs) h = rw (take-take n m xs (omega arith))

newest_first-IsTotal : IsTotal newest_first
newest_first-IsTotal a b = ground arith

newest_first-IsTransitive : IsTransitive newest_first
newest_first-IsTransitive a b c h k = ground arith

-- What a page holds: the client's requests before the cursor, if one is given.
abbrev pub IsListed : ℕ → Option ℕ → ServiceRequest → Type 0
IsListed client before d =
    (d.client_user_id ≡ client) × (truthy before ≡ true → d.id < get_or before 0)

listed :
    (client : ℕ) (before : Option ℕ) (d : ServiceRequest)
    → is_listed client before d ≡ true
    → IsListed client before d
listed client before d h = (ground arith, λ t. ground arith)

module _ {R : Type 0} (mongo : Mongo) (client : ℕ) (q : RequestListQuery) (s : Db R) where
  abbrev found : List ServiceRequest
  found = mongo.sort newest_first (mongo.find (is_listed client q.before) s.requests)

  length-found : length found ≡ length (filter (is_listed client q.before) s.requests)
  length-found =
      length-eq-count found
      ∙ mongo.sort_count newest_first (λ _. true) _
      ∙ sym (length-eq-count _)
      ∙ ap length (mongo.find_lem (is_listed client q.before) s.requests)

  All-found : All (IsListed client q.before) found
  All-found = mongo.sort_All newest_first _ _ (
      rw mongo.find_lem (
        All-imp _ _ (filter (is_listed client q.before) s.requests) (listed client q.before)
          (filter-All (is_listed client q.before) s.requests)))

  docs-page : docs (page mongo client q s) ≡ take q.limit found
  unfolding fetch_mine
  docs-page = docs-views mongo s _ ∙ take-take q.limit (q.limit + 1) found (omega arith)

  -- A page of a client's requests holds only requests of that client, and only ids below the cursor
  -- where one is given, newest first; it holds as many as there are, up to the limit, and says that
  -- there are more exactly when more than the limit lie past the cursor. Listing changes nothing.
  pub list_mine_page :
      (p : RequestPage) × (list_mine mongo client q s ≡ (ok p, s))
      × All (IsListed client q.before) (docs p)
      × IsSorted newest_first (docs p)
      × (length (docs p) ≡ min q.limit (length (filter (is_listed client q.before) s.requests)))
      × (p.has_more ≡ ltb q.limit (length (filter (is_listed client q.before) s.requests)))
  unfolding list_mine
  list_mine_page = (
    page mongo client q s,
    refl,
    rw docs-page (All-take _ q.limit found All-found),
    rw docs-page (
        IsSorted-take newest_first q.limit found
          (mongo.sort_IsSorted newest_first _ newest_first-IsTotal newest_first-IsTransitive)),
    rw docs-page (length-take q.limit found ∙ ap (min q.limit) length-found),
    more,
  )
    where
      more :
          ltb q.limit (length (take (q.limit + 1) found))
          ≡ ltb q.limit (length (filter (is_listed client q.before) s.requests))
      more = rw (length-take (q.limit + 1) found, length-found) (ground arith)
