-- ===== src/Common/Sort.antt =====
-- Stable sorting by a Boolean order, as `Array.prototype.sort` does, and counting, by which orders
-- and duplicates are compared.
use Prim.Native.Nat.{ℕ, suc, zero, ◌+◌, ◌≤◌}
use mathlib.Core.Path.{◌≡◌, refl, sym, ◌∙◌}
use mathlib.Core.Bool.{Bool, true, false, ◌||◌}
use mathlib.Core.List.{List, [], ◌∷◌, ◌++◌}
use mathlib.Core.Logic.{inl, inr, ◌⊎◌}
use native.Mathlib.Omega.{arith}
use appforfixiyi.Common.Tests.{if◌then◌else◌, Bool-cases}
use appforfixiyi.Common.Lists.{length, take, filter, any, All, All-take}

module _ {ℓ} {A : Type ℓ} where
  abbrev pub count : (A → Bool) → List A → ℕ
  count p [] = 0
  count p (x ∷ xs) = (if p x then 1 else 0) + count p xs

  pub insert : (A → A → Bool) → A → List A → List A
  insert le x [] = x ∷ []
  insert le x (y ∷ ys) = let later = y ∷ insert le x ys in if le x y then x ∷ y ∷ ys else later

  unfoldable pub sort : (A → A → Bool) → List A → List A
  unfolding insert
  sort le [] = []
  sort le (x ∷ xs) = insert le x (sort le xs)

  abbrev pub IsSorted : (A → A → Bool) → List A → Type ℓ
  IsSorted le [] = Unit
  IsSorted le (x ∷ xs) = All (λ y. le x y ≡ true) xs × IsSorted le xs

  abbrev pub IsTotal : (A → A → Bool) → Type ℓ
  IsTotal le = (x y : A) → (le x y ≡ true) ⊎ (le y x ≡ true)

  abbrev pub IsTransitive : (A → A → Bool) → Type ℓ
  IsTransitive le = (x y z : A) → le x y ≡ true → le y z ≡ true → le x z ≡ true

module _ {ℓ} {A : Type ℓ} (le : A → A → Bool) where
  count-insert :
      (p : A → Bool) (x : A) (ys : List A)
      → count p (insert le x ys) ≡ (if p x then 1 else 0) + count p ys
  unfolding insert
  count-insert p x [] = refl
  count-insert p x (y ∷ ys) = elim (Bool-cases (le x y)) [
    | inl e ↦ rw e
    | inr e ↦ rw e (omega (arith, count-insert p x ys))
  ]

  pub count-sort : (p : A → Bool) (xs : List A) → count p (sort le xs) ≡ count p xs
  unfolding sort
  count-sort p [] = refl
  count-sort p (x ∷ xs) = omega (arith, count-insert p x (sort le xs), count-sort p xs)

  All-insert {κ} : (P : A → Type κ) (x : A) (ys : List A) → P x → All P ys → All P (insert le x ys)
  unfolding insert
  All-insert P x [] h k = (h, tt)
  All-insert P x (y ∷ ys) h k = elim (Bool-cases (le x y)) [
    | inl e ↦ rw e (h, k)
    | inr e ↦ rw e (k.0, All-insert P x ys h k.1)
  ]

  pub All-sort {κ} : (P : A → Type κ) (xs : List A) → All P xs → All P (sort le xs)
  unfolding sort
  All-sort P [] h = tt
  All-sort P (x ∷ xs) h = All-insert P x (sort le xs) h.0 (All-sort P xs h.1)

module _ {ℓ} {A : Type ℓ} (le : A → A → Bool) (total : IsTotal le) (trans : IsTransitive le) where
  All-le :
      (x y : A) (ys : List A)
      → le x y ≡ true
      → All (λ z. le y z ≡ true) ys
      → All (λ z. le x z ≡ true) ys
  All-le x y [] h k = tt
  All-le x y (z ∷ zs) h k = (trans x y z h k.0, All-le x y zs h k.1)

  le_of_not : (x y : A) → le x y ≡ false → le y x ≡ true
  le_of_not x y h = ground (arith, total x y)

  insert-IsSorted : (x : A) (ys : List A) → IsSorted le ys → IsSorted le (insert le x ys)
  unfolding insert
  insert-IsSorted x [] s = (tt, tt)
  insert-IsSorted x (y ∷ ys) s = elim (Bool-cases (le x y)) [
    | inl e ↦ rw e ((e, All-le x y ys e s.0), s)
    | inr e ↦
        rw e
          (All-insert le (λ z. le y z ≡ true) x ys (le_of_not x y e) s.0, insert-IsSorted x ys s.1)
  ]

  pub sort-IsSorted : (xs : List A) → IsSorted le (sort le xs)
  unfolding sort
  sort-IsSorted [] = tt
  sort-IsSorted (x ∷ xs) = insert-IsSorted x (sort le xs) (sort-IsSorted xs)

module _ {ℓ} {A : Type ℓ} where
  pub count-append : (p : A → Bool) (xs ys : List A) → count p (xs ++ ys) ≡ count p xs + count p ys
  count-append p [] ys = omega arith
  count-append p (x ∷ xs) ys = omega (arith, count-append p xs ys)

  pub count-take-le : (p : A → Bool) (n : ℕ) (xs : List A) → count p (take n xs) ≤ count p xs
  count-take-le p zero xs = omega arith
  count-take-le p (suc n) [] = omega arith
  count-take-le p (suc n) (x ∷ xs) = omega (arith, count-take-le p n xs)

  pub count-filter-le : (p q : A → Bool) (xs : List A) → count p (filter q xs) ≤ count p xs
  count-filter-le p q [] = omega arith
  count-filter-le p q (x ∷ xs) = elim (Bool-cases (q x)) [
    | inl e ↦ rw e (omega (arith, count-filter-le p q xs))
    | inr e ↦ rw e (omega (arith, count-filter-le p q xs))
  ]

  pub length-eq-count : (xs : List A) → length xs ≡ count (λ _. true) xs
  length-eq-count [] = refl
  length-eq-count (x ∷ xs) = omega (arith, length-eq-count xs)

  pub length-sort : (le : A → A → Bool) (xs : List A) → length (sort le xs) ≡ length xs
  length-sort le xs =
      length-eq-count (sort le xs) ∙ count-sort le (λ _. true) xs ∙ sym (length-eq-count xs)

  pub IsSorted-take :
      (le : A → A → Bool) (n : ℕ) (xs : List A) → IsSorted le xs → IsSorted le (take n xs)
  IsSorted-take le zero xs s = tt
  IsSorted-take le (suc n) [] s = tt
  IsSorted-take le (suc n) (x ∷ xs) s =
      (All-take (λ y. le x y ≡ true) n xs s.0, IsSorted-take le n xs s.1)

module _ {ℓ κ} {A : Type ℓ} (P : A → Type κ) where
  All-of_insert :
      (le : A → A → Bool) (x : A) (ys : List A) → All P (insert le x ys) → P x × All P ys
  unfolding insert
  All-of_insert le x [] h = (h.0, tt)
  All-of_insert le x (y ∷ ys) h = elim (Bool-cases (le x y)) [
    | inl e ↦ let k = rw e at h in (k.0, k.1)
    | inr e ↦
        let k = rw e at h in let (here, later) = All-of_insert le x ys k.1 in (here, (k.0, later))
  ]

  pub All-of_sort : (le : A → A → Bool) (xs : List A) → All P (sort le xs) → All P xs
  unfolding sort
  All-of_sort le [] h = tt
  All-of_sort le (x ∷ xs) h =
      let (here, later) = All-of_insert le x (sort le xs) h in (here, All-of_sort le xs later)

  pub All-of_filter :
      (q : A → Bool) (xs : List A) → All P (filter q xs) → All (λ x. q x ≡ true → P x) xs
  All-of_filter q [] h = tt
  All-of_filter q (x ∷ xs) h = elim (Bool-cases (q x)) [
    | inl e ↦ let k = rw e at h in ((λ _. k.0), All-of_filter q xs k.1)
    | inr e ↦ ((λ t. absurd (clash e t)), All-of_filter q xs (rw e at h))
  ]
    where
      clash : q x ≡ false → q x ≡ true → ⊥
      clash e t = cc

module _ {ℓ} {A : Type ℓ} (le : A → A → Bool) (p : A → Bool) where
  any-insert : (x : A) (ys : List A) → any p (insert le x ys) ≡ (p x || any p ys)
  unfolding insert
  any-insert x [] = refl
  any-insert x (y ∷ ys) = elim (Bool-cases (le x y)) [
    | inl e ↦ rw e
    | inr e ↦ rw (e, any-insert x ys) (swap (p x) (p y) (any p ys))
  ]
    where
      swap : (a b c : Bool) → (b || (a || c)) ≡ (a || (b || c))
      swap true true c = refl
      swap true false c = refl
      swap false b c = refl

  pub any-sort : (xs : List A) → any p (sort le xs) ≡ any p xs
  unfolding sort
  any-sort [] = refl
  any-sort (x ∷ xs) = rw (any-insert x (sort le xs), any-sort xs)
