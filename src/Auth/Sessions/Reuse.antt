-- ===== src/Auth/Sessions/Reuse.antt =====
-- A refresh token that is presented twice: `rotate` of apps/api/src/auth/session/session.service.ts.
use appforfixiyi.Common.{
  ℕ, ◌+◌, ◌≤◌, ◌≡◌, refl, true, false, none, some, arith, ◌==◌, leb, ltb, if◌then◌else◌, ok, find?,
  update_first, count, find?-strict, update_first-strict, find-update, count-update_first-eq,
  ==_refl, apply, key_of_find,
}
use appforfixiyi.Store.{Mongo}
use appforfixiyi.Store.Database.{Db}
use appforfixiyi.Store.Entities.Auth.{UserSession, active, revoked, reuse_detected}
use appforfixiyi.Auth.Sessions.{
  RequestContext, success, session_reuse_detected, session_revoked, by_id, active_by_id, can_rotate,
  rotated, revoke_for, claim, revoke, rotate, rotate_claimed, explain_failed_rotation,
  explain_found,
}

strict :
    (id version now : ℕ) (x : UserSession) → can_rotate id version now x ≡ true → by_id id x ≡ true
strict id version now x e = ground arith

strict_active : (id : ℕ) (x : UserSession) → active_by_id id x ≡ true → by_id id x ≡ true
strict_active id x e = ground arith

module _ {R : Type 0} (mongo : Mongo) (id : ℕ) where
  -- The session's row after an update.
  abbrev with_session : (UserSession → UserSession) → Db R → Db R
  with_session f s = record s { sessions = update_first (by_id id) f s.sessions }

  claim_lem :
      (version now : ℕ) (c : RequestContext) (s : Db R) {x : UserSession}
      → count (by_id id) s.sessions ≤ 1
      → find? (by_id id) s.sessions ≡ some x
      → claim mongo id version now c s ≡ (
        ok (apply (rotated now c) (if can_rotate id version now x then some x else none)),
        record s {
          sessions =
              if can_rotate id version now x
              then update_first (by_id id) (rotated now c) s.sessions
              else s.sessions;
        },
      )
  unfolding claim
  claim_lem version now c s {x} u h = rw (
    mongo.find_one_lem,
    mongo.update_one_lem,
    find?-strict (can_rotate id version now) (by_id id) (strict id version now) s.sessions {x = x} u
        h,
    update_first-strict (can_rotate id version now) (by_id id) (strict id version now)
        (rotated now c) s.sessions {x = x} u h,
  )

  rotate_good :
      (version now : ℕ) (c : RequestContext) (s : Db R) {x : UserSession}
      → count (by_id id) s.sessions ≤ 1
      → find? (by_id id) s.sessions ≡ some x
      → can_rotate id version now x ≡ true
      → rotate mongo id version now c s
        ≡ (ok (success (rotated now c x)), with_session (rotated now c) s)
  unfolding rotate rotate_claimed
  rotate_good version now c s {x} u h k = rw (claim_lem version now c s u h, k)

  rotate_other :
      (version now : ℕ) (c : RequestContext) (s : Db R) {x : UserSession}
      → count (by_id id) s.sessions ≤ 1
      → find? (by_id id) s.sessions ≡ some x
      → x.status ≡ active
      → ltb now x.expires_at ≡ true
      → (x.token_version == version) ≡ false
      → rotate mongo id version now c s
        ≡ (ok session_reuse_detected, with_session (revoke_for now reuse_detected) s)
  unfolding rotate rotate_claimed explain_failed_rotation explain_found revoke
  rotate_other version now c s {x} u h a e v = rw (
    claim_lem version now c s u h,
    cannot x a v,
    mongo.find_one_lem,
    h,
    a,
    not_late x e,
    mongo.update_one_lem,
    update_first-strict (active_by_id id) (by_id id) (strict_active id)
        (revoke_for now reuse_detected) s.sessions {x = x} u h,
    key_of_find (λ r. r.id) id s.sessions h,
    ==_refl,
    a,
  )
    where
      cannot :
          (x : UserSession)
          → x.status ≡ active
          → (x.token_version == version) ≡ false
          → can_rotate id version now x ≡ false
      cannot x a v = ground arith

      not_late : (x : UserSession) → ltb now x.expires_at ≡ true → leb x.expires_at now ≡ false
      not_late x e = ground arith

  rotate_revoked :
      (version now : ℕ) (c : RequestContext) (s : Db R) {x : UserSession}
      → count (by_id id) s.sessions ≤ 1
      → find? (by_id id) s.sessions ≡ some x
      → x.status ≡ revoked
      → rotate mongo id version now c s ≡ (ok session_revoked, s)
  unfolding rotate rotate_claimed explain_failed_rotation explain_found
  rotate_revoked version now c s {x} u h a =
      rw (claim_lem version now c s u h, cannot x a, mongo.find_one_lem, h, a)
    where
      cannot : (x : UserSession) → x.status ≡ revoked → can_rotate id version now x ≡ false
      cannot x a = ground arith

  find_with :
      (f : UserSession → UserSession) (s : Db R) {x : UserSession}
      → ((y : UserSession) → (f y).id ≡ y.id)
      → find? (by_id id) s.sessions ≡ some x
      → find? (by_id id) (with_session f s).sessions ≡ some (f x)
  find_with f s same h =
      rw (find-update {A = UserSession} (λ y. y.id) f same id id s.sessions, ==_refl, h)

  once_with :
      (f : UserSession → UserSession) (s : Db R)
      → ((y : UserSession) → by_id id (f y) ≡ by_id id y)
      → count (by_id id) s.sessions ≤ 1
      → count (by_id id) (with_session f s).sessions ≤ 1
  once_with f s same u = rw (count-update_first-eq (by_id id) (by_id id) f s.sessions same) u

  -- A refresh token of an ACTIVE session that is stored once and not past its expiry, presented twice, is honoured
  -- once: the first refresh is answered with the session at its next version. The second is answered as reuse; it revokes
  -- the session, and every refresh after it is refused and changes nothing, whatever its version.
  pub rotate-reuse :
      (version now soon later other : ℕ) (c d e : RequestContext) (s : Db R) {x : UserSession}
      → count (by_id id) s.sessions ≤ 1
      → find? (by_id id) s.sessions ≡ some x
      → x.status ≡ active
      → x.token_version ≡ version
      → ltb now x.expires_at ≡ true
      → ltb soon x.expires_at ≡ true
      → let s₁ = (rotate mongo id version now c s).1 in
        let s₂ = (rotate mongo id version soon d s₁).1 in
        ((rotate mongo id version now c s).0 ≡ ok (success (rotated now c x)))
        × ((rotated now c x).token_version ≡ version + 1)
        × ((rotate mongo id version soon d s₁).0 ≡ ok session_reuse_detected)
        × (find? (by_id id) s₂.sessions ≡ some (revoke_for soon reuse_detected (rotated now c x)))
        × (rotate mongo id other later e s₂ ≡ (ok session_revoked, s₂))
  rotate-reuse version now soon later other c d e s {x} u h a v l m =
      let first =
        rotate_good version now c s u h (can x a v l (key_of_find (λ r. r.id) id s.sessions h)) in
      let u₁ = once_with (rotated now c) s (λ y. refl) u in
      let h₁ = find_with (rotated now c) s (λ y. refl) h in
      let second =
        rotate_other version soon d (with_session (rotated now c) s) u₁ h₁ a m (next x v) in
      let u₂ =
        once_with (revoke_for soon reuse_detected) (with_session (rotated now c) s) (λ y. refl)
          u₁ in
      let h₂ =
        find_with (revoke_for soon reuse_detected) (with_session (rotated now c) s) (λ y. refl)
          h₁ in
      rw (first, second)
        (
          refl,
          rw v refl,
          refl,
          h₂,
          rotate_revoked other later e
              (with_session (revoke_for soon reuse_detected) (with_session (rotated now c) s)) u₂ h₂
              refl,
        )
    where
      can :
          (x : UserSession)
          → x.status ≡ active
          → x.token_version ≡ version
          → ltb now x.expires_at ≡ true
          → x.id ≡ id
          → can_rotate id version now x ≡ true
      can x a v l i = ground arith

      next :
          (x : UserSession) → x.token_version ≡ version → (x.token_version + 1 == version) ≡ false
      next x v = ground arith
