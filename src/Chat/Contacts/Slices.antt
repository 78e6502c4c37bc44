-- ===== src/Chat/Contacts/Slices.antt =====
-- Cutting texts, and the plain account of masking that `redactContacts` of
-- apps/api/src/chat/contact-detection/contact-detection.ts is compared with.
use appforfixiyi.Common.{
  ℕ, zero, suc, ◌+◌, ◌≤◌, ◌<◌, ◌≡◌, refl, ap, Bool, true, false, [], ◌∷◌, ◌++◌, arith, length, take,
  drop, if◌then◌else◌, Text,
}
use appforfixiyi.Chat.Contacts.{placeholder}

-- Unit by unit: one placeholder for each stretch of covered positions, and the other units as they
-- are.
unfoldable pub masked_by : (ℕ → Bool) → (position : ℕ) → (inside : Bool) → Text → Text
masked_by covered i inside [] = []
masked_by covered i inside (c ∷ cs) =
    let rest = masked_by covered (i + 1) (covered i) cs in
    if covered i then (if inside then rest else placeholder ++ rest) else c ∷ rest

add-zero : (i : ℕ) → i + 0 ≡ i
add-zero i = omega arith

shift : (i k : ℕ) → i + 1 + k ≡ i + suc k
shift i k = omega arith

zero-add : (i : ℕ) → 0 + i ≡ i
zero-add i = omega arith

suc-add : (i k : ℕ) → suc i + k ≡ suc (i + k)
suc-add i k = omega arith

pub drop-drop : (m n : ℕ) (t : Text) → drop n (drop m t) ≡ drop (m + n) t
drop-drop zero n t = rw (zero-add n) refl
drop-drop (suc m) zero [] = rw (suc-add m 0) refl
drop-drop (suc m) (suc n) [] = rw (suc-add m (suc n)) refl
drop-drop (suc m) n (c ∷ t) = rw (suc-add m n) (drop-drop m n t)

pub take-take : (a b : ℕ) (t y : Text) → a ≤ b → b ≤ length t → take a (take b t ++ y) ≡ take a t
take-take zero b t y h k = refl
take-take (suc a) (suc b) (c ∷ t) y h k =
    ap (λ r. c ∷ r) (take-take a b t y (omega arith) (omega arith))
take-take (suc a) (suc b) [] y h k = absurd (omega arith)
take-take (suc a) zero t y h k = absurd (omega arith)

pub drop-take : (b : ℕ) (t y : Text) → b ≤ length t → drop b (take b t ++ y) ≡ y
drop-take zero t y k = refl
drop-take (suc b) [] y k = absurd (omega arith)
drop-take (suc b) (c ∷ t) y k = drop-take b t y (omega arith)

pub take-add : (m n : ℕ) (t y : Text) → take m t ++ (take n (drop m t) ++ y) ≡ take (m + n) t ++ y
take-add zero n t y = rw (zero-add n) refl
take-add (suc m) zero [] y = rw (suc-add m 0) refl
take-add (suc m) (suc n) [] y = rw (suc-add m (suc n)) refl
take-add (suc m) n (c ∷ t) y = rw (suc-add m n) (ap (λ r. c ∷ r) (take-add m n t y))

pub length-drop : (n : ℕ) (t : Text) → n ≤ length t → n + length (drop n t) ≡ length t
length-drop zero t h = omega arith
length-drop (suc n) [] h = absurd (omega arith)
length-drop (suc n) (c ∷ t) h = omega (arith, length-drop n t)

pub take-drop_id : (n : ℕ) (t : Text) → take n t ++ drop n t ≡ t
take-drop_id zero t = refl
take-drop_id (suc n) [] = refl
take-drop_id (suc n) (c ∷ t) = ap (λ r. c ∷ r) (take-drop_id n t)

pub masked_none :
    (f : ℕ → Bool) (i : ℕ) (t : Text) → ((j : ℕ) → f j ≡ false) → masked_by f i false t ≡ t
unfolding masked_by
masked_none f i [] h = refl
masked_none f i (c ∷ t) h = rw (h i, masked_none f (i + 1) t h)

-- Only the positions from `i` on matter.
pub masked_by-cong :
    (f g : ℕ → Bool) (i : ℕ) (inside : Bool) (t : Text)
    → ((j : ℕ) → i ≤ j → f j ≡ g j)
    → masked_by f i inside t ≡ masked_by g i inside t
unfolding masked_by
masked_by-cong f g i inside [] h = refl
masked_by-cong f g i inside (c ∷ t) h =
    rw (h i (omega arith), masked_by-cong f g (i + 1) (g i) t (λ j k. h j (omega arith)))

-- A stretch that is not covered is kept.
pub masked_apart :
    (f : ℕ → Bool) (i k : ℕ) (t : Text)
    → ((j : ℕ) → i ≤ j → j < i + k → f j ≡ false)
    → masked_by f i false t ≡ take k t ++ masked_by f (i + k) false (drop k t)
unfolding masked_by
masked_apart f i zero t h = rw (add-zero i) refl
masked_apart f i (suc k) [] h = refl
masked_apart f i (suc k) (c ∷ t) h =
    rw
      (
        h i (omega arith) (omega arith),
        masked_apart f (i + 1) k t (λ j a b. h j (omega arith) (omega arith)),
        shift i k,
      )
      refl

-- A stretch that is covered, inside one, is dropped.
pub masked_inside :
    (f : ℕ → Bool) (i k : ℕ) (t : Text)
    → ((j : ℕ) → i ≤ j → j < i + k → f j ≡ true)
    → masked_by f i true t ≡ masked_by f (i + k) true (drop k t)
unfolding masked_by
masked_inside f i zero t h = rw (add-zero i) refl
masked_inside f i (suc k) [] h = refl
masked_inside f i (suc k) (c ∷ t) h =
    rw
      (
        h i (omega arith) (omega arith),
        masked_inside f (i + 1) k t (λ j a b. h j (omega arith) (omega arith)),
        shift i k,
      )
      refl

-- Where a stretch ends, what is inside no longer matters.
pub masked_leave :
    (f : ℕ → Bool) (i : ℕ) (t : Text) → f i ≡ false → masked_by f i true t ≡ masked_by f i false t
unfolding masked_by
masked_leave f i [] h = refl
masked_leave f i (c ∷ t) h = rw h

pub masked_enter :
    (f : ℕ → Bool) (i : ℕ) (t : Text)
    → f i ≡ true
    → 1 ≤ length t
    → masked_by f i false t ≡ placeholder ++ masked_by f (i + 1) true (drop 1 t)
unfolding masked_by
masked_enter f i [] h k = absurd (omega arith)
masked_enter f i (c ∷ t) h k = rw h
