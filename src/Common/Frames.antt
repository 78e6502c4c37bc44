-- ===== src/Common/Frames.antt =====
-- Actions that leave a part of the state as it is, and actions that always return.
use mathlib.Core.Path.{◌≡◌, refl, sym, ◌∙◌, ap}
use mathlib.Core.Logic.{inl, inr}
use mathlib.Core.Bool.{Bool, true, false}
use mathlib.Core.Option.{Option, none, some}
use appforfixiyi.Common.Action.{
  Exec, Result, err, Failure, unauthorized, forbidden, not_found, duplicate_key, domain, diverges,
  internal_error, Result-cases, ◌>>=◌, guard, require_some,
}

module _ {ℓ} {S : Type 0} {X : Type ℓ} (view : S → X) where
  abbrev pub Keeps : {A : Type 0} → Exec S A → Type ℓ
  Keeps m = (s : S) → view (m s).1 ≡ view s

  pub view_bind :
      {A B : Type 0} (m : Exec S A) (k : A → Exec S B)
      → ((a : A) → Keeps (k a))
      → (s : S) → view ((m >>= k) s).1 ≡ view (m s).1
  view_bind m k h s = elim (Result-cases (m s).0) [
    | inl (a, e) ↦ rw e (h a (m s).1)
    | inr (x, e) ↦ rw e
  ]

  pub Keeps-bind :
      {A B : Type 0} (m : Exec S A) (k : A → Exec S B)
      → Keeps m
      → ((a : A) → Keeps (k a))
      → Keeps (m >>= k)
  Keeps-bind m k h g s = view_bind m k g s ∙ h s

  pub Keeps-require_some : {A : Type 0} (o : Option A) (e : Failure) → Keeps (require_some o e)
  Keeps-require_some none e s = refl
  Keeps-require_some (some a) e s = refl

  pub Keeps-guard : (b : Bool) (e : Failure) → Keeps (guard b e)
  Keeps-guard true e s = refl
  Keeps-guard false e s = refl

-- The outcome of a handler that never returns.
abbrev pub diverged {ℓ} : {A : Type ℓ} → Result A → Bool
diverged (err diverges) = true
diverged _ = false

module _ {S : Type 0} where
  -- The action returns or throws; it does not run forever.
  abbrev pub Returns : {A : Type 0} → Exec S A → Type 0
  Returns m = (s : S) → diverged (m s).0 ≡ false

  pub Returns-bind :
      {A B : Type 0} (m : Exec S A) (k : A → Exec S B)
      → Returns m
      → ((a : A) → Returns (k a))
      → Returns (m >>= k)
  Returns-bind {A = A} {B = B} m k h g s = elim (Result-cases (m s).0) [
    | inl (a, e) ↦ rw e (g a (m s).1)
    | inr (x, e) ↦ rw e (same x (ap diverged e))
  ]
    where
      same :
          (x : Failure)
          → diverged (m s).0 ≡ diverged {A = A} (err x)
          → diverged {A = B} (err x) ≡ false
      same unauthorized e = refl
      same forbidden e = refl
      same not_found e = refl
      same duplicate_key e = refl
      same diverges e = sym e ∙ h s
      same internal_error e = refl
      same (domain n c) e = refl
