-- ===== src/Common/Keyed.antt =====
-- Collections whose elements carry a key: reading by key after an update by key or an insertion.
use Prim.Native.Nat.{ℕ}
use mathlib.Core.Path.{◌≡◌, refl}
use mathlib.Core.Bool.{Bool}
use mathlib.Core.Option.{Option, none, some}
use mathlib.Core.List.{List, [], ◌∷◌, ◌++◌}
use native.Mathlib.Omega.{arith}
use appforfixiyi.Common.Tests.{◌==◌, if◌then◌else◌, or_else}
use appforfixiyi.Common.Lists.{find?, update_first}

abbrev pub apply {ℓ} : {A : Type ℓ} → (A → A) → Option A → Option A
apply f none = none
apply f (some a) = some (f a)

module _ {ℓ} {A : Type ℓ} (key : A → ℕ) where
  abbrev pub has_key : ℕ → A → Bool
  has_key i x = key x == i

  pub find-update :
      (f : A → A)
      → ((x : A) → key (f x) ≡ key x)
      → (i j : ℕ) (xs : List A)
      → find? (has_key i) (update_first (has_key j) f xs)
        ≡ (if j == i then apply f (find? (has_key i) xs) else find? (has_key i) xs)
  find-update f k i j [] = ground arith
  find-update f k i j (x ∷ xs) = ground (arith, k x, find-update f k i j xs)

  pub find-append :
      (i : ℕ) (xs ys : List A)
      → find? (has_key i) (xs ++ ys) ≡ or_else (find? (has_key i) xs) (find? (has_key i) ys)
  find-append i [] ys = refl
  find-append i (x ∷ xs) ys = ground (arith, find-append i xs ys)

  pub key_of_find : (i : ℕ) (xs : List A) {x : A} → find? (has_key i) xs ≡ some x → key x ≡ i
  key_of_find i [] h = cc
  key_of_find i (y ∷ ys) {x} h = ground (arith, key_of_find i ys {x = x})
