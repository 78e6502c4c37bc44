-- ===== src/Auth/Sessions/Rotation.antt =====
-- The rotation of refresh tokens: `rotate`, `explainFailedRotation` and `revoke` of
-- apps/api/src/auth/session/session.service.ts, alone and among other calls.
use appforfixiyi.Common.{
  ℕ, suc, ◌+◌, ◌≤◌, ◌≡◌, refl, ◌∙◌, Bool, true, false, ◌&&◌, Option, some, List, [], ◌∷◌, ◌++◌,
  arith, inl, inr, ◌⊎◌, ◌==◌, leb, if◌then◌else◌, ok, Result, Bool-cases, Option-cases, find?, any,
  count, count-append, count-update_first-le, count-update_all-le, count-update_first-eq,
  count-update_all-eq, count-update_first-lt, and_split,
}
use appforfixiyi.Store.{Mongo}
use appforfixiyi.Store.Database.{Db, store_created}
use appforfixiyi.Store.Entities.Auth.{UserSession, SessionRevokedReason}
use appforfixiyi.Auth.Sessions.{
  RequestContext, by_id, same_id, active_by_id, can_rotate, rotated, revoke_for, is_revoked_with,
  claim, revoke, revoke_all_for_user, touch_last_used,
}

-- One round trip to the sessions, as the handlers make them; those of different requests mix in any order.
pub data SessionStep : Type 0 where
  claim_step : (id version now : ℕ) → RequestContext → SessionStep
  revoke_step : (now id : ℕ) → SessionRevokedReason → SessionStep
  revoke_all_step : (now user : ℕ) → SessionRevokedReason → Option ℕ → SessionStep
  touch_step : (now id : ℕ) → SessionStep
  create_step : UserSession → SessionStep

answered : Result (Option UserSession) → Bool
answered (ok (some x)) = true
answered _ = false

module _ {R : Type 0} (mongo : Mongo) where
  pub after : SessionStep → Db R → Db R
  after (claim_step id version now c) s = (claim mongo id version now c s).1
  after (revoke_step now id reason) s = (revoke mongo now id reason s).1
  after (revoke_all_step now user reason except) s =
      (revoke_all_for_user mongo now user reason except s).1
  after (touch_step now id) s = (touch_last_used mongo now id s).1
  after (create_step x) s =
      (store_created (mongo.create same_id x s.sessions) (λ c t. record t { sessions = c }) s).1

  -- The step is the conditional update of a refresh with this token, and it found the session.
  pub wins : (id version : ℕ) → SessionStep → Db R → Bool
  unfolding answered
  wins id version (claim_step i v now c) s =
      i == id && v == version && answered (claim mongo i v now c s).0
  wins id version (revoke_step now i reason) s = false
  wins id version (revoke_all_step now user reason except) s = false
  wins id version (touch_step now i) s = false
  wins id version (create_step x) s = false

  pub number_of_wins : (id version : ℕ) → List SessionStep → Db R → ℕ
  unfolding after wins
  number_of_wins id version [] s = 0
  number_of_wins id version (c ∷ cs) s =
      (if wins id version c s then 1 else 0) + number_of_wins id version cs (after c s)

abbrev claimable : (id version : ℕ) → UserSession → Bool
claimable id version x = x.id == id && leb x.token_version version

module _ (id version : ℕ) where
  clashes :
      (x : UserSession) (xs : List UserSession)
      → x.id ≡ id
      → 1 ≤ count (by_id id) xs
      → any (same_id x) xs ≡ true
  clashes x [] e h = absurd (omega arith)
  clashes x (y ∷ ys) e h = ground (arith, clashes x ys)

  rotated-claimable :
      (i v now : ℕ) (c : RequestContext) (x : UserSession)
      → can_rotate i v now x ≡ true
      → claimable id version (rotated now c x) ≡ true
      → claimable id version x ≡ true
  rotated-claimable i v now c x e h = ground arith

  count-claimable-le :
      (xs : List UserSession) → count (claimable id version) xs ≤ count (by_id id) xs
  count-claimable-le [] = omega arith
  count-claimable-le (x ∷ xs) = ground (arith, count-claimable-le xs)

  claim-claimable :
      (i v now : ℕ) (x : UserSession)
      → (i == id) ≡ true
      → (v == version) ≡ true
      → can_rotate i v now x ≡ true
      → claimable id version x ≡ true
  claim-claimable i v now x ei ev e = ground arith

  rotated-not_claimable :
      (i v now : ℕ) (c : RequestContext) (x : UserSession)
      → (i == id) ≡ true
      → (v == version) ≡ true
      → can_rotate i v now x ≡ true
      → claimable id version (rotated now c x) ≡ false
  rotated-not_claimable i v now c x ei ev e = ground arith

module _ {R : Type 0} (mongo : Mongo) (id version : ℕ) where
  answered-some :
      (i v now : ℕ) (c : RequestContext) (s : Db R)
      → answered (claim mongo i v now c s).0 ≡ true
      → (y : UserSession) × (find? (can_rotate i v now) s.sessions ≡ some y)
  unfolding answered claim
  answered-some i v now c s h = elim (Option-cases (find? (can_rotate i v now) s.sessions)) [
    | inl e ↦ absurd (ground (arith, mongo.find_one_lem (can_rotate i v now) s.sessions))
    | inr r ↦ r
  ]

  create_sessions :
      (x : UserSession) (s : Db R)
      → (after mongo (create_step x) s).sessions
        ≡ (if any (same_id x) s.sessions then s.sessions else s.sessions ++ x ∷ [])
  unfolding after
  create_sessions x s = ground (arith, mongo.create_lem same_id x s.sessions)

  create-keeps :
      (q : UserSession → Bool) (x : UserSession) (s : Db R)
      → (q x ≡ true → x.id ≡ id)
      → count (by_id id) s.sessions ≡ 1
      → count q (after mongo (create_step x) s).sessions ≡ count q s.sessions
  create-keeps q x s k h = elim (Bool-cases (any (same_id x) s.sessions)) [
    | inl e ↦ rw (create_sessions x s, e) refl
    | inr e ↦ rw (create_sessions x s, e, count-append) (absent (Bool-cases (q x)) e)
  ]
    where
      absent :
          (q x ≡ true) ⊎ (q x ≡ false)
          → any (same_id x) s.sessions ≡ false
          → count q s.sessions + count q (x ∷ []) ≡ count q s.sessions
      absent (inl t) e = absurd (both (clashes id version x s.sessions (k t) (omega (arith, h))) e)
        where
          both : any (same_id x) s.sessions ≡ true → any (same_id x) s.sessions ≡ false → ⊥
          both a b = cc
      absent (inr f) e = rw f (omega arith)

  after-exists :
      (c : SessionStep) (s : Db R)
      → count (by_id id) s.sessions ≡ 1
      → count (by_id id) (after mongo c s).sessions ≡ 1
  unfolding after claim revoke revoke_all_for_user touch_last_used
  after-exists (claim_step i v now c) s h =
      rw
        (
          mongo.update_one_lem,
          count-update_first-eq (by_id id) (can_rotate i v now) (rotated now c) s.sessions
              (λ x. refl),
        )
        h
  after-exists (revoke_step now i reason) s h =
      rw
        (
          mongo.update_one_lem,
          count-update_first-eq (by_id id) (active_by_id i) (revoke_for now reason) s.sessions
              (λ x. refl),
        )
        h
  after-exists (revoke_all_step now user reason except) s h =
      rw
        (
          mongo.update_many_lem,
          count-update_all-eq (by_id id) (is_revoked_with user except) (revoke_for now reason)
              s.sessions (λ x. refl),
        )
        h
  after-exists (touch_step now i) s h =
      rw
        (
          mongo.update_one_lem,
          count-update_first-eq (by_id id) (by_id i) (λ x. record x { last_used_at = now })
              s.sessions (λ x. refl),
        )
        h
  after-exists (create_step x) s h = create-keeps (by_id id) x s (λ e. ground arith) h ∙ h

  after-claimable :
      (c : SessionStep) (s : Db R)
      → count (by_id id) s.sessions ≡ 1
      → count (claimable id version) (after mongo c s).sessions
        ≤ count (claimable id version) s.sessions
  unfolding after claim revoke revoke_all_for_user touch_last_used
  after-claimable (claim_step i v now c) s h = rw mongo.update_one_lem (
      count-update_first-le (claimable id version) (can_rotate i v now) (rotated now c) s.sessions
        (rotated-claimable id version i v now c))
  after-claimable (revoke_step now i reason) s h = rw mongo.update_one_lem (
      count-update_first-le (claimable id version) (active_by_id i) (revoke_for now reason)
        s.sessions (λ x e k. k))
  after-claimable (revoke_all_step now user reason except) s h = rw mongo.update_many_lem (
      count-update_all-le (claimable id version) (is_revoked_with user except)
        (revoke_for now reason) s.sessions (λ x e k. k))
  after-claimable (touch_step now i) s h = rw mongo.update_one_lem (
      count-update_first-le (claimable id version) (by_id i) (λ x. record x { last_used_at = now })
        s.sessions (λ x e k. k))
  after-claimable (create_step x) s h =
      omega (arith, create-keeps (claimable id version) x s (λ e. ground arith) h)

  win-claimable :
      (c : SessionStep) (s : Db R)
      → wins mongo id version c s ≡ true
      → suc (count (claimable id version) (after mongo c s).sessions)
        ≡ count (claimable id version) s.sessions
  unfolding wins after claim
  win-claimable (claim_step i v now c) s w =
      let (same, ans) =
        and_split (i == id && v == version) (answered (claim mongo i v now c s).0) w in
      let (ei, ev) = and_split (i == id) (v == version) same in
      let (y, found) = answered-some i v now c s ans in
      rw mongo.update_one_lem (
        count-update_first-lt (claimable id version) (can_rotate i v now) (rotated now c) s.sessions
          {y = y} found (λ x e. claim-claimable id version i v now x ei ev e)
          (λ x e. rotated-not_claimable id version i v now c x ei ev e))
  win-claimable (revoke_step now i reason) s w = absurd (cc)
  win-claimable (revoke_all_step now user reason except) s w = absurd (cc)
  win-claimable (touch_step now i) s w = absurd (cc)
  win-claimable (create_step x) s w = absurd (cc)

  wins-le :
      (cs : List SessionStep) (s : Db R)
      → count (by_id id) s.sessions ≡ 1
      → number_of_wins mongo id version cs s ≤ count (claimable id version) s.sessions
  unfolding number_of_wins
  wins-le [] s h = omega arith
  wins-le (c ∷ cs) s h = elim (Bool-cases (wins mongo id version c s)) [
    | inl w ↦
        rw w (omega (arith, win-claimable c s w, wins-le cs (after mongo c s) (after-exists c s h)))
    | inr w ↦
        rw w
          (omega (arith, after-claimable c s h, wins-le cs (after mongo c s) (after-exists c s h)))
  ]

  -- Of the refreshes that present one refresh token (a session and its version), at most one is answered with new tokens,
  -- however the round trips of refreshes, revocations, logins and touches mix, where at first the
  -- session is stored once.
  pub number_of_wins-le :
      (cs : List SessionStep) (s : Db R)
      → count (by_id id) s.sessions ≡ 1
      → number_of_wins mongo id version cs s ≤ 1
  number_of_wins-le cs s h = omega (arith, wins-le cs s h, count-claimable-le id version s.sessions)
