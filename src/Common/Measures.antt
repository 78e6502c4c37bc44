-- ===== src/Common/Measures.antt =====
-- How the updates of a list change the number of elements that pass a test.
use Prim.Native.Nat.{suc, ◌≤◌}
use mathlib.Core.Path.{◌≡◌, refl}
use mathlib.Core.Bool.{Bool, true, false}
use mathlib.Core.Option.{none, some, some-injective}
use mathlib.Core.List.{List, [], ◌∷◌}
use mathlib.Core.Logic.{inl, inr}
use native.Mathlib.Omega.{arith}
use appforfixiyi.Common.Tests.{if◌then◌else◌, Bool-cases}
use appforfixiyi.Common.Lists.{length, filter, find?, any, update_first, update_all}
use appforfixiyi.Common.Sort.{count}

module _ {ℓ} {A : Type ℓ} (q p : A → Bool) (f : A → A) where
  pub count-update_first-le :
      (xs : List A)
      → ((x : A) → p x ≡ true → q (f x) ≡ true → q x ≡ true)
      → count q (update_first p f xs) ≤ count q xs
  count-update_first-le [] h = omega arith
  count-update_first-le (x ∷ xs) h = elim (Bool-cases (p x)) [
    | inr e ↦ rw e (omega (arith, count-update_first-le xs h))
    | inl e ↦ rw e (here (h x e))
  ]
    where
      here : (q (f x) ≡ true → q x ≡ true) → count q (f x ∷ xs) ≤ count q (x ∷ xs)
      here k = ground (arith)

  pub count-update_all-le :
      (xs : List A)
      → ((x : A) → p x ≡ true → q (f x) ≡ true → q x ≡ true)
      → count q (update_all p f xs) ≤ count q xs
  count-update_all-le [] h = omega arith
  count-update_all-le (x ∷ xs) h = elim (Bool-cases (p x)) [
    | inr e ↦ rw e (omega (arith, count-update_all-le xs h))
    | inl e ↦ rw e (here (h x e) (count-update_all-le xs h))
  ]
    where
      here :
          (q (f x) ≡ true → q x ≡ true)
          → count q (update_all p f xs) ≤ count q xs
          → count q (f x ∷ update_all p f xs) ≤ count q (x ∷ xs)
      here k m = ground (arith)

  pub count-update_first-eq :
      (xs : List A) → ((x : A) → q (f x) ≡ q x) → count q (update_first p f xs) ≡ count q xs
  count-update_first-eq [] h = refl
  count-update_first-eq (x ∷ xs) h = elim (Bool-cases (p x)) [
    | inr e ↦ rw e (omega (arith, count-update_first-eq xs h))
    | inl e ↦ rw (e, h x) refl
  ]

  pub count-update_all-eq :
      (xs : List A) → ((x : A) → q (f x) ≡ q x) → count q (update_all p f xs) ≡ count q xs
  count-update_all-eq [] h = refl
  count-update_all-eq (x ∷ xs) h = elim (Bool-cases (p x)) [
    | inr e ↦ rw e (omega (arith, count-update_all-eq xs h))
    | inl e ↦ rw (e, h x) (omega (arith, count-update_all-eq xs h))
  ]

  -- An update that takes an element out of the test.
  pub count-update_first-lt :
      (xs : List A) {y : A}
      → find? p xs ≡ some y
      → ((x : A) → p x ≡ true → q x ≡ true)
      → ((x : A) → p x ≡ true → q (f x) ≡ false)
      → suc (count q (update_first p f xs)) ≡ count q xs
  count-update_first-lt [] e h k = absurd (cc)
  count-update_first-lt (x ∷ xs) {y} e h k = elim (Bool-cases (p x)) [
    | inr g ↦ rw g (omega (arith, count-update_first-lt xs {y = y} (rw g at e) h k))
    | inl g ↦ rw (g, k x g, h x g) (omega arith)
  ]

-- Lower bounds on what is left after an update.
module _ {ℓ} {A : Type ℓ} (q p : A → Bool) (f : A → A) where
  pub count-le-update_first :
      (xs : List A)
      → ((x : A) → p x ≡ true → q x ≡ true → q (f x) ≡ true)
      → count q xs ≤ count q (update_first p f xs)
  count-le-update_first [] h = omega arith
  count-le-update_first (x ∷ xs) h = elim (Bool-cases (p x)) [
    | inr e ↦ rw e (omega (arith, count-le-update_first xs h))
    | inl e ↦ rw e (here (h x e))
  ]
    where
      here : (q x ≡ true → q (f x) ≡ true) → count q (x ∷ xs) ≤ count q (f x ∷ xs)
      here k = ground (arith)

  -- An update takes one element out of the test at most, and none if the element was not in.
  pub count-le-suc-update_first : (xs : List A) → count q xs ≤ suc (count q (update_first p f xs))
  count-le-suc-update_first [] = omega arith
  count-le-suc-update_first (x ∷ xs) = elim (Bool-cases (p x)) [
    | inr e ↦ rw e (omega (arith, count-le-suc-update_first xs))
    | inl e ↦ rw e (ground arith)
  ]

  pub count-le-update_first_other :
      (xs : List A) {y : A}
      → find? p xs ≡ some y
      → q y ≡ false
      → count q xs ≤ count q (update_first p f xs)
  count-le-update_first_other [] e h = absurd (cc)
  count-le-update_first_other (x ∷ xs) {y} e h = elim (Bool-cases (p x)) [
    | inr g ↦ rw g (omega (arith, count-le-update_first_other xs {y = y} (rw g at e) h))
    | inl g ↦ rw g (here (some-injective x y (rw g at e)))
  ]
    where
      here : x ≡ y → count q (x ∷ xs) ≤ count q (f x ∷ xs)
      here s = rw (s, h) (ground arith)

  -- Only the element that is updated matters.
  pub count-update_first_same :
      (xs : List A) {y : A}
      → find? p xs ≡ some y
      → q (f y) ≡ q y
      → count q (update_first p f xs) ≡ count q xs
  count-update_first_same [] e h = refl
  count-update_first_same (x ∷ xs) {y} e h = elim (Bool-cases (p x)) [
    | inr g ↦ rw g (omega (arith, count-update_first_same xs {y = y} (rw g at e) h))
    | inl g ↦ rw g (here (some-injective x y (rw g at e)))
  ]
    where
      here : x ≡ y → count q (f x ∷ xs) ≡ count q (x ∷ xs)
      here s = rw (s, h) refl

pub length-filter {ℓ} :
    {A : Type ℓ} (p : A → Bool) (xs : List A) → length (filter p xs) ≡ count p xs
length-filter p [] = refl
length-filter p (x ∷ xs) = elim (Bool-cases (p x)) [
  | inl e ↦ rw e (omega (arith, length-filter p xs))
  | inr e ↦ rw e (omega (arith, length-filter p xs))
]

-- A list in which an element passes the test.
pub any_of_count {ℓ} : {A : Type ℓ} (q : A → Bool) (xs : List A) → 1 ≤ count q xs → any q xs ≡ true
any_of_count q [] h = absurd (omega arith)
any_of_count q (x ∷ xs) h = ground (arith, any_of_count q xs)

-- A test `p` that is stricter than `q`, on a list where at most one element passes `q`.
module _ {ℓ} {A : Type ℓ} (p q : A → Bool) (strict : (x : A) → p x ≡ true → q x ≡ true) where
  not_strict : (x : A) → q x ≡ false → p x ≡ false
  not_strict x e = ground (arith, strict x)

  none_passes : (xs : List A) → count q xs ≡ 0 → find? p xs ≡ none
  none_passes [] h = refl
  none_passes (x ∷ xs) h = elim (Bool-cases (q x)) [
    | inl e ↦ absurd (omega (arith, (rw e at h)))
    | inr e ↦ rw (not_strict x e) (none_passes xs (omega (arith, (rw e at h))))
  ]

  none_updated : (f : A → A) (xs : List A) → count q xs ≡ 0 → update_first p f xs ≡ xs
  none_updated f [] h = refl
  none_updated f (x ∷ xs) h = elim (Bool-cases (q x)) [
    | inl e ↦ absurd (omega (arith, (rw e at h)))
    | inr e ↦ rw (not_strict x e, none_updated f xs (omega (arith, (rw e at h)))) refl
  ]

  pub find?-strict :
      (xs : List A) {x : A}
      → count q xs ≤ 1
      → find? q xs ≡ some x
      → find? p xs ≡ (if p x then some x else none)
  find?-strict [] h e = absurd (cc)
  find?-strict (y ∷ ys) {x} h e = elim (Bool-cases (q y)) [
    | inr g ↦ rw (not_strict y g) (find?-strict ys (omega (arith, (rw g at h))) (rw g at e))
    | inl g ↦ here (some-injective y x (rw g at e)) (none_passes ys (omega (arith, (rw g at h))))
  ]
    where
      here : y ≡ x → find? p ys ≡ none → find? p (y ∷ ys) ≡ (if p x then some x else none)
      here s n = rw (s, n) refl

  -- What the stricter test finds is what the other one finds.
  pub find?-of_strict :
      (xs : List A) {x : A} → count q xs ≤ 1 → find? p xs ≡ some x → find? q xs ≡ some x
  find?-of_strict [] h e = absurd (cc)
  find?-of_strict (y ∷ ys) {x} h e = elim (Bool-cases (q y)) [
    | inr g ↦ rw g (find?-of_strict ys (omega (arith, (rw g at h))) (rw (not_strict y g) at e))
    | inl g ↦ rw g (here g (none_passes ys (omega (arith, (rw g at h)))))
  ]
    where
      here : q y ≡ true → find? p ys ≡ none → some y ≡ some x
      here g n = ground arith

  pub update_first-strict :
      (f : A → A) (xs : List A) {x : A}
      → count q xs ≤ 1
      → find? q xs ≡ some x
      → update_first p f xs ≡ (if p x then update_first q f xs else xs)
  update_first-strict f [] h e = absurd (cc)
  update_first-strict f (y ∷ ys) {x} h e = elim (Bool-cases (q y)) [
    | inr g ↦
        rw
          (
            not_strict y g,
            g,
            update_first-strict f ys {x = x} (omega (arith, (rw g at h))) (rw g at e),
          )
          (other (p x))
    | inl g ↦
        rw g
          (here (some-injective y x (rw g at e)) (none_updated f ys (omega (arith, (rw g at h)))))
  ]
    where
      other :
          (b : Bool)
          → (y ∷ (if b then update_first q f ys else ys))
            ≡ (if b then y ∷ update_first q f ys else y ∷ ys)
      other true = refl
      other false = refl

      here :
          y ≡ x
          → update_first p f ys ≡ ys
          → (if p y then f y ∷ ys else y ∷ update_first p f ys) ≡ (if p x then f y ∷ ys else y ∷ ys)
      here s n = rw (s, n) refl
