-- ===== src/Requests/Ownership.antt =====
-- Who may read and change a request and its media: `requireOwned` and `requireEditable` of
-- apps/api/src/requests/request.service.ts, and the seven calls on one request of its owner.
use appforfixiyi.Common.{
  ℕ, ◌≡◌, true, none, some, arith, ◌≢◌, ok, err, find?, forbidden, not_found, Exec, Failure, List,
  pure, ◌>>=◌,
}
use appforfixiyi.Store.{Mongo}
use appforfixiyi.Store.Database.{Db}
use appforfixiyi.Store.Entities.Requests.{ServiceRequest, Media}
use appforfixiyi.Storage.{Bucket}
use appforfixiyi.Media.{CreateUploadSessionOutput}
use appforfixiyi.Requests.Attachments.{
  TargetUploadInput, create_media_upload_session, finalize_media, list_media,
}
use appforfixiyi.Requests.{
  by_id, is_editable, UpdateServiceRequestInput, RequestView, find_by_id, require_owned,
  require_editable, update, submit, cancel, get_by_id,
}

-- The calls that a client makes on one of its requests.
pub data OwnerCall : Type 0 where
  get_it submit_it cancel_it list_its_media : OwnerCall
  update_it : UpdateServiceRequestInput → OwnerCall
  create_its_media : Bucket → (fresh : ℕ) → TargetUploadInput → OwnerCall
  finalize_its_media : Bucket → (media_id : ℕ) → OwnerCall

-- What each of them answers.
pub data Answer : Type 0 where
  view_answer : RequestView → Answer
  upload_answer : CreateUploadSessionOutput → Answer
  media_answer : Media → Answer
  media_list_answer : List Media → Answer

module _ {R : Type 0} (mongo : Mongo) where
  pub require_owned_state : (id client : ℕ) (s : Db R) → (require_owned mongo id client s).1 ≡ s
  unfolding require_owned
  require_owned_state id client s = ground arith

  pub require_owned_ok :
      (id client : ℕ) (s : Db R) {d : ServiceRequest}
      → (require_owned mongo id client s).0 ≡ ok d
      → (find? (by_id id) s.requests ≡ some d) × (d.client_user_id ≡ client)
  unfolding require_owned find_by_id
  require_owned_ok id client s h =
      (ground (arith, mongo.find_one_lem (by_id id) s.requests), ground arith)

  pub require_editable_state :
      (id client : ℕ) (s : Db R) → (require_editable mongo id client s).1 ≡ s
  unfolding require_editable
  require_editable_state id client s = ground (arith, require_owned_state id client s)

  pub require_editable_ok :
      (id client : ℕ) (s : Db R) {d : ServiceRequest}
      → (require_editable mongo id client s).0 ≡ ok d
      → (find? (by_id id) s.requests ≡ some d)
        × (d.client_user_id ≡ client)
        × (is_editable d.status ≡ true)
  unfolding require_editable
  require_editable_ok id client s {d} h = (
    ground (arith, require_owned_ok id client s {d = d}),
    ground (arith, require_owned_ok id client s {d = d}),
    ground arith,
  )

  require_owned_foreign :
      (id client : ℕ) (s : Db R) {d : ServiceRequest}
      → find? (by_id id) s.requests ≡ some d
      → d.client_user_id ≢ client
      → require_owned mongo id client s ≡ (err forbidden, s)
  unfolding require_owned find_by_id
  require_owned_foreign id client s h ne = ground (arith, mongo.find_one_lem (by_id id) s.requests)

  require_owned_missing :
      (id client : ℕ) (s : Db R)
      → find? (by_id id) s.requests ≡ none
      → require_owned mongo id client s ≡ (err not_found, s)
  unfolding require_owned find_by_id
  require_owned_missing id client s h = ground (arith, mongo.find_one_lem (by_id id) s.requests)

  pub call : OwnerCall → (id client : ℕ) → Exec (Db R) Answer
  call get_it id client = do v ← get_by_id mongo id client; pure (view_answer v)
  call submit_it id client = do v ← submit mongo id client; pure (view_answer v)
  call cancel_it id client = do v ← cancel mongo id client; pure (view_answer v)
  call (update_it i) id client = do v ← update mongo id client i; pure (view_answer v)
  call (create_its_media bucket fresh i) id client = do
    u ← create_media_upload_session mongo bucket fresh id client i
    pure (upload_answer u)
  call (finalize_its_media bucket media_id) id client = do
    m ← finalize_media mongo bucket id client media_id
    pure (media_answer m)
  call list_its_media id client = do ms ← list_media mongo id client; pure (media_list_answer ms)

  call_of_owned :
      (c : OwnerCall) (id client : ℕ) (s : Db R) (e : Failure)
      → require_owned mongo id client s ≡ (err e, s)
      → call c id client s ≡ (err e, s)
  unfolding call get_by_id submit cancel update require_editable create_media_upload_session
      finalize_media list_media
  call_of_owned get_it id client s e h = rw h
  call_of_owned submit_it id client s e h = rw h
  call_of_owned cancel_it id client s e h = rw h
  call_of_owned (update_it i) id client s e h = rw h
  call_of_owned (create_its_media bucket fresh i) id client s e h = rw h
  call_of_owned (finalize_its_media bucket m) id client s e h = rw h
  call_of_owned list_its_media id client s e h = rw h

  -- A client's read, update, submission or cancellation of a request that another user owns, and an
  -- upload session for it, the finalizing of a medium under it and the list of its media, are answered
  -- with Forbidden and change nothing (no media of the request are created, finalized or answered).
  pub call-foreign :
      (c : OwnerCall) (id client : ℕ) (s : Db R) {d : ServiceRequest}
      → find? (by_id id) s.requests ≡ some d
      → d.client_user_id ≢ client
      → call c id client s ≡ (err forbidden, s)
  call-foreign c id client s h ne =
      call_of_owned c id client s forbidden (require_owned_foreign id client s h ne)

  -- A client's read, update, submission or cancellation of an id that no request has, and the three
  -- calls on its media, are answered with NotFound and change nothing.
  pub call-missing :
      (c : OwnerCall) (id client : ℕ) (s : Db R)
      → find? (by_id id) s.requests ≡ none
      → call c id client s ≡ (err not_found, s)
  call-missing c id client s h =
      call_of_owned c id client s not_found (require_owned_missing id client s h)
