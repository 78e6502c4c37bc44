-- ===== src/Requests.antt =====
-- apps/api/src/requests/request.service.ts: the life of a client's service request.
pub mod Ownership
pub mod Evolution
pub mod Lifecycle
pub mod History
pub mod Races
pub mod Chain
pub mod Paging
pub mod Attachments
use appforfixiyi.Common.{
  ℕ, ◌+◌, Bool, true, false, not, ◌&&◌, ◌||◌, Option, none, some, List, [], ◌∷◌, length, take, map,
  ◌==◌, ltb, leb, if◌then◌else◌, ok, Exec, pure, gets, require_some, guard, modify, ◌>>=◌, ◌>>◌,
  not_found, forbidden, domain, get_or, or_else, is_some, is, same, truthy, bad_request,
  request_not_matchable, request_incomplete, request_not_cancellable, request_not_editable,
  request_service_invalid, request_intervention_type_requires_service,
  request_intervention_type_invalid, request_complexity_requires_intervention_type,
  request_complexity_invalid,
}
use appforfixiyi.Store.{Mongo}
use appforfixiyi.Store.Database.{Db, store_created}
use appforfixiyi.Store.Entities.Requests.{
  RequestStatus, draft, requested, matching, cancelled, expired, RequestUrgency, Location,
  ServiceRequest, CatalogLevel, CatalogNode, request,
}
use appforfixiyi.Media.{list_ready_ids_for_target}
use appforfixiyi.Catalog.{count_existing, get_by_id as catalog_get_by_id, same_level}

abbrev pub by_id : ℕ → ServiceRequest → Bool
by_id i d = d.id == i

abbrev pub same_id : ServiceRequest → ServiceRequest → Bool
same_id a b = a.id == b.id

-- EDITABLE_STATUSES and CANCELLABLE_STATUSES.
abbrev pub is_editable : RequestStatus → Bool
is_editable draft = true
is_editable _ = false

abbrev pub is_cancellable : RequestStatus → Bool
is_cancellable draft = true
is_cancellable requested = true
is_cancellable matching = true
is_cancellable _ = false

abbrev pub is_requested : RequestStatus → Bool
is_requested requested = true
is_requested _ = false

abbrev pub new_request : (fresh client : ℕ) → ServiceRequest
new_request fresh client = record {
  id = fresh;
  client_user_id = client;
  service_id = none;
  intervention_type_id = none;
  complexity_id = none;
  description = none;
  urgency = none;
  location = none;
  status = draft;
}

-- UpdateServiceRequestInput: every key may be absent.
pub record UpdateServiceRequestInput : Type 0 where
  pub service_id : Option ℕ
  pub intervention_type_id : Option ℕ
  pub complexity_id : Option ℕ
  pub description : Option ℕ
  pub urgency : Option RequestUrgency
  pub location : Option Location

abbrev pub patch : UpdateServiceRequestInput → ServiceRequest → ServiceRequest
patch i d = record d {
  service_id = or_else i.service_id d.service_id;
  intervention_type_id = or_else i.intervention_type_id d.intervention_type_id;
  complexity_id = or_else i.complexity_id d.complexity_id;
  description = or_else i.description d.description;
  urgency = or_else i.urgency d.urgency;
  location = or_else i.location d.location;
}

abbrev pub touches_chain : UpdateServiceRequestInput → Bool
touches_chain i = is_some i.service_id || is_some i.intervention_type_id || is_some i.complexity_id

-- What `submit` asks for.
abbrev pub is_complete : ServiceRequest → Bool
is_complete d =
    truthy d.service_id
    && truthy d.intervention_type_id
    && truthy d.complexity_id
    && truthy d.description
    && is_some d.urgency
    && is_some d.location

-- The view ServiceRequest: the document with the ids of its finalized media.
pub record RequestView : Type 0 where
  pub doc : ServiceRequest
  pub media_ids : List ℕ

pub record RequestListQuery : Type 0 where
  pub before : Option ℕ
  pub limit : ℕ

pub record RequestPage : Type 0 where
  pub requests : List RequestView
  pub has_more : Bool

-- `node?.level !== level || node.parentId !== parent`, negated.
abbrev pub is_child : Option CatalogNode → CatalogLevel → Option ℕ → Bool
is_child none level parent = false
is_child (some n) level parent = same_level n.level level && same n.parent_id parent

-- `_id: { $lt: before }` only where the cursor is given.
abbrev pub is_listed : ℕ → Option ℕ → ServiceRequest → Bool
is_listed client before d =
    d.client_user_id == client && (if truthy before then ltb d.id (get_or before 0) else true)

abbrev pub newest_first : ServiceRequest → ServiceRequest → Bool
newest_first a b = leb b.id a.id

module _ {R : Type 0} (mongo : Mongo) where
  unfoldable pub to_service_request : ServiceRequest → Db R → RequestView
  to_service_request d s = record {
    doc = d;
    media_ids = list_ready_ids_for_target mongo request d.id s;
  }

  -- `model.findById` and the view of what it finds.
  unfoldable pub find_by_id : ℕ → Db R → Option ServiceRequest
  find_by_id id s = mongo.find_one (by_id id) s.requests

  unfoldable pub require_owned : ℕ → ℕ → Exec (Db R) ServiceRequest
  require_owned id client = do
    found ← gets (find_by_id id)
    doc ← require_some found not_found
    guard (doc.client_user_id == client) forbidden
    pure doc

  unfoldable pub require_editable : ℕ → ℕ → Exec (Db R) ServiceRequest
  require_editable id client = do
    doc ← require_owned id client
    guard (is_editable doc.status) (domain bad_request request_not_editable)
    pure doc

  -- `doc.save()`: the modified fields are written to the document with that id.
  unfoldable pub save : ℕ → (ServiceRequest → ServiceRequest) → Exec (Db R) (Unit {0})
  save id f = modify (λ s. record s { requests = mongo.update_one (by_id id) f s.requests })

  unfoldable pub create : (fresh client : ℕ) → Exec (Db R) RequestView
  create fresh client = do
    made ← gets (λ s. mongo.create same_id (new_request fresh client) s.requests)
    store_created made (λ c s. record s { requests = c })
    gets (to_service_request (new_request fresh client))

  -- The documents of `find(filter).sort({ _id: -1 }).limit(limit + 1)`.
  unfoldable pub fetch_mine : ℕ → RequestListQuery → Db R → List ServiceRequest
  fetch_mine client q s =
      take (q.limit + 1)
        (mongo.sort newest_first (mongo.find (is_listed client q.before) s.requests))

  unfoldable pub list_mine : ℕ → RequestListQuery → Exec (Db R) RequestPage
  unfolding fetch_mine
  list_mine client q s =
      let docs = fetch_mine client q s in
      (
        ok (record {
          requests = map (λ d. to_service_request d s) (take q.limit docs);
          has_more = ltb q.limit (length docs);
        }),
        s,
      )

  unfoldable pub get_by_id : ℕ → ℕ → Exec (Db R) RequestView
  get_by_id id client = do doc ← require_owned id client; gets (to_service_request doc)

  -- `markMatching` up to its `await doc.save()`.
  unfoldable pub mark_check : ℕ → Exec (Db R) ServiceRequest
  mark_check id = do
    found ← gets (find_by_id id)
    doc ← require_some found not_found
    guard (is_requested doc.status) (domain bad_request request_not_matchable)
    pure doc

  unfoldable pub mark_matching : ℕ → Exec (Db R) (Unit {0})
  unfolding mark_check
  mark_matching id = do mark_check id; save id (λ d. record d { status = matching })

  unfoldable pub check_service : Option ℕ → Exec (Db R) (Unit {0})
  check_service service =
      if truthy service
      then (do
        count ← gets (count_existing mongo (get_or service 0 ∷ []) CatalogLevel.service)
        guard (count == 1) (domain bad_request request_service_invalid))
      else pure tt

  unfoldable pub check_intervention_type : Option ℕ → Option ℕ → Exec (Db R) (Unit {0})
  check_intervention_type service kind =
      if truthy kind
      then (do
        guard (truthy service) (domain bad_request request_intervention_type_requires_service)
        node ← gets (catalog_get_by_id mongo (get_or kind 0))
        guard (is_child node CatalogLevel.intervention_type service)
            (domain bad_request request_intervention_type_invalid))
      else pure tt

  unfoldable pub check_complexity : Option ℕ → Option ℕ → Exec (Db R) (Unit {0})
  check_complexity kind complexity =
      if truthy complexity
      then (do
        guard (truthy kind) (domain bad_request request_complexity_requires_intervention_type)
        node ← gets (catalog_get_by_id mongo (get_or complexity 0))
        guard (is_child node CatalogLevel.complexity kind)
            (domain bad_request request_complexity_invalid))
      else pure tt

  unfoldable pub assert_valid_catalog_chain :
      Option ℕ → Option ℕ → Option ℕ → Exec (Db R) (Unit {0})
  assert_valid_catalog_chain service kind complexity = do
    check_service service
    check_intervention_type service kind
    check_complexity kind complexity

  -- `update` validates the chain that the patched document would have.
  unfoldable pub check_chain : UpdateServiceRequestInput → ServiceRequest → Exec (Db R) (Unit {0})
  check_chain i d =
      if touches_chain i
      then assert_valid_catalog_chain (patch i d).service_id (patch i d).intervention_type_id
          (patch i d).complexity_id
      else pure tt

  unfoldable pub update : ℕ → ℕ → UpdateServiceRequestInput → Exec (Db R) RequestView
  update id client i = do
    doc ← require_editable id client
    check_chain i doc
    save id (patch i)
    gets (to_service_request (patch i doc))

  unfoldable pub submit : ℕ → ℕ → Exec (Db R) RequestView
  submit id client = do
    doc ← require_editable id client
    guard (is_complete doc) (domain bad_request request_incomplete)
    save id (λ d. record d { status = requested })
    gets (to_service_request (record doc { status = requested }))

  -- `cancel` up to its `await doc.save()`.
  unfoldable pub cancel_check : ℕ → ℕ → Exec (Db R) ServiceRequest
  cancel_check id client = do
    doc ← require_owned id client
    guard (is_cancellable doc.status) (domain bad_request request_not_cancellable)
    pure doc

  unfoldable pub cancel : ℕ → ℕ → Exec (Db R) RequestView
  unfolding cancel_check
  cancel id client = do
    doc ← cancel_check id client
    save id (λ d. record d { status = cancelled })
    gets (to_service_request (record doc { status = cancelled }))
