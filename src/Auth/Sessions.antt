-- ===== src/Auth/Sessions.antt =====
-- apps/api/src/auth/session/session.service.ts: sessions, the rotation of their refresh tokens, and
-- devices. `now` is the instant of the call.
pub mod Rotation
pub mod Reuse
use appforfixiyi.Common.{
  ℕ, ◌+◌, Bool, true, false, not, ◌&&◌, Option, none, some, List, [], ◌∷◌, ◌==◌, leb, ltb,
  if◌then◌else◌, ok, Exec, pure, gets, modify, ◌>>=◌, ◌>>◌, or_else, get_or, contains, truthy, map,
  apply,
}
use appforfixiyi.Store.{Mongo}
use appforfixiyi.Store.Database.{Db, store_created}
use appforfixiyi.Store.Entities.Auth.{
  UserSession, SessionStatus, active, revoked, SessionRevokedReason, reuse_detected, Device,
}

pub record RequestContext : Type 0 where
  pub ip : Option ℕ
  pub user_agent : Option ℕ

pub record DeviceInput : Type 0 where
  pub id : Option ℕ
  pub name : Option ℕ

pub data RotateResult : Type 0 where
  success : UserSession → RotateResult
  session_not_found session_revoked session_expired session_reuse_detected : RotateResult

abbrev pub is_active : SessionStatus → Bool
is_active active = true
is_active revoked = false

abbrev pub by_id : ℕ → UserSession → Bool
by_id i x = x.id == i

abbrev pub same_id : UserSession → UserSession → Bool
same_id a b = a.id == b.id

abbrev pub same_device_id : Device → Device → Bool
same_device_id a b = a.id == b.id

abbrev pub active_by_id : ℕ → UserSession → Bool
active_by_id i x = x.id == i && is_active x.status

-- The filter of `rotate`, and its update.
abbrev pub can_rotate : (id version now : ℕ) → UserSession → Bool
can_rotate id version now x =
    x.id == id && is_active x.status && x.token_version == version && ltb now x.expires_at

abbrev pub rotated : (now : ℕ) → RequestContext → UserSession → UserSession
rotated now context x = record x {
  token_version = x.token_version + 1;
  last_used_at = now;
  ip = or_else context.ip x.ip;
  user_agent = or_else context.user_agent x.user_agent;
}

abbrev pub revoke_for : (now : ℕ) → SessionRevokedReason → UserSession → UserSession
revoke_for now reason x = record x {
  status = revoked;
  revoked_at = some now;
  revoked_reason = some reason;
}

-- An empty `exceptSessionId` excepts nothing.
abbrev pub is_revoked_with : (user : ℕ) → (except : Option ℕ) → UserSession → Bool
is_revoked_with user except x =
    x.user_id == user
    && is_active x.status
    && (if truthy except then not (x.id == get_or except 0) else true)

abbrev pub last_used_first : UserSession → UserSession → Bool
last_used_first a b = leb b.last_used_at a.last_used_at

abbrev pub new_session : (id user device now expires_at : ℕ) → RequestContext → UserSession
new_session id user device now expires_at context = record {
  id = id;
  user_id = user;
  device_id = device;
  token_version = 0;
  status = active;
  revoked_reason = none;
  revoked_at = none;
  ip = context.ip;
  user_agent = context.user_agent;
  last_used_at = now;
  expires_at = expires_at;
}

abbrev pub device_id_of : Option DeviceInput → Option ℕ
device_id_of none = none
device_id_of (some d) = d.id

abbrev pub device_name_of : Option DeviceInput → Option ℕ
device_name_of none = none
device_name_of (some d) = d.name

abbrev pub seen : (now : ℕ) → RequestContext → (name : Option ℕ) → Device → Device
seen now context name d = record d {
  last_seen_at = now;
  last_seen_ip = context.ip;
  user_agent = context.user_agent;
  name = if truthy name then name else d.name;
}

module _ {R : Type 0} (mongo : Mongo) where
  -- The one conditional update of `rotate`; its answer is the updated session.
  unfoldable pub claim : (id version now : ℕ) → RequestContext → Exec (Db R) (Option UserSession)
  claim id version now context s = (
    ok (apply (rotated now context) (mongo.find_one (can_rotate id version now) s.sessions)),
    record s {
      sessions = mongo.update_one (can_rotate id version now) (rotated now context) s.sessions;
    },
  )

  unfoldable pub revoke : (now id : ℕ) → SessionRevokedReason → Exec (Db R) (Unit {0})
  revoke now id reason = modify (λ s. record s {
    sessions = mongo.update_one (active_by_id id) (revoke_for now reason) s.sessions;
  })

  unfoldable pub explain_found : (id now : ℕ) → Option UserSession → Exec (Db R) RotateResult
  explain_found id now none = pure session_not_found
  explain_found id now (some x) =
      if not (is_active x.status)
      then pure session_revoked
      else if leb x.expires_at now
      then pure session_expired
      else (do revoke now id reuse_detected; pure session_reuse_detected)

  unfoldable pub explain_failed_rotation : (id now : ℕ) → Exec (Db R) RotateResult
  unfolding explain_found
  explain_failed_rotation id now = do
    found ← gets (λ s. mongo.find_one (by_id id) s.sessions)
    explain_found id now found

  unfoldable pub rotate_claimed : (id now : ℕ) → Option UserSession → Exec (Db R) RotateResult
  rotate_claimed id now (some x) = pure (success x)
  rotate_claimed id now none = explain_failed_rotation id now

  unfoldable pub rotate : (id version now : ℕ) → RequestContext → Exec (Db R) RotateResult
  unfolding rotate_claimed
  rotate id version now context = do
    claimed ← claim id version now context
    rotate_claimed id now claimed

  unfoldable pub revoke_all_for_user :
      (now user : ℕ) → SessionRevokedReason → (except : Option ℕ) → Exec (Db R) (Unit {0})
  revoke_all_for_user now user reason except = modify (λ s. record s {
    sessions = mongo.update_many (is_revoked_with user except) (revoke_for now reason) s.sessions;
  })

  unfoldable pub touch_last_used : (now id : ℕ) → Exec (Db R) (Unit {0})
  touch_last_used now id = modify (λ s. record s {
    sessions = mongo.update_one (by_id id) (λ x. record x { last_used_at = now }) s.sessions;
  })

  unfoldable pub find_active_by_id : ℕ → Db R → Option UserSession
  find_active_by_id id s = mongo.find_one (active_by_id id) s.sessions

  unfoldable pub filter_active_ids : List ℕ → Db R → List ℕ
  filter_active_ids ids s =
      map (λ x. x.id) (mongo.find (λ x. contains x.id ids && is_active x.status) s.sessions)

  unfoldable pub list_active_for_user : ℕ → Db R → List UserSession
  list_active_for_user user s =
      mongo.sort last_used_first
        (mongo.find (λ x. x.user_id == user && is_active x.status) s.sessions)

  unfoldable pub get_devices_by_ids : List ℕ → Db R → List Device
  get_devices_by_ids ids s = mongo.find (λ d. contains d.id ids) s.devices

  unfoldable pub create_device :
      (fresh user now : ℕ) → Option DeviceInput → RequestContext → Exec (Db R) ℕ
  create_device fresh user now device context = do
    made ← gets (λ s.
        mongo.create same_device_id
          (record {
            id = get_or (device_id_of device) fresh;
            user_id = user;
            name = device_name_of device;
            user_agent = context.user_agent;
            last_seen_ip = context.ip;
            last_seen_at = now;
          })
          s.devices)
    store_created made (λ c s. record s { devices = c })
    pure (get_or (device_id_of device) fresh)

  -- `upsertDevice` with the device that it found, if an id was given.
  unfoldable pub upsert_found :
      (fresh user now : ℕ) → Option DeviceInput → RequestContext → Option Device → Exec (Db R) ℕ
  upsert_found fresh user now device context none = create_device fresh user now device context
  upsert_found fresh user now device context (some d) = do
    modify (λ s. record s {
      devices =
          mongo.update_one (λ x. x.id == d.id) (seen now context (device_name_of device)) s.devices;
    })
    pure d.id

  unfoldable pub find_own_device : (user : ℕ) → Option ℕ → Db R → Option Device
  find_own_device user id s =
      if truthy id
      then mongo.find_one (λ d. d.id == get_or id 0 && d.user_id == user) s.devices
      else none

  unfoldable pub upsert_device :
      (fresh user now : ℕ) → Option DeviceInput → RequestContext → Exec (Db R) ℕ
  upsert_device fresh user now device context = do
    existing ← gets (find_own_device user (device_id_of device))
    upsert_found fresh user now device context existing

  unfoldable pub create_session :
      (fresh id user now expires_at : ℕ) → Option DeviceInput → RequestContext → Exec (Db R) ℕ
  create_session fresh id user now expires_at device context = do
    device_id ← upsert_device fresh user now device context
    made ← gets (λ s.
        mongo.create same_id (new_session id user device_id now expires_at context) s.sessions)
    store_created made (λ c s. record s { sessions = c })
    pure device_id
