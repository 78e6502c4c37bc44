-- ===== src/Chat/Contacts/Merging.antt =====
-- The merging of ranges in `redactContacts` of
-- apps/api/src/chat/contact-detection/contact-detection.ts: what is covered stays covered, and the
-- ranges that come out do not touch.
use appforfixiyi.Common.{
  ℕ, ◌+◌, ◌≤◌, ◌<◌, ◌≡◌, refl, ◌∙◌, ap, Bool, true, false, ◌&&◌, ◌||◌, List, [], ◌∷◌, arith, All,
  any, ltb, leb, max, Bool-cases, inl, inr, IsSorted,
}
use appforfixiyi.Chat.Contacts.{starts_before, merge_into, merge_ranges}

abbrev pub holds : ℕ → ℕ × ℕ → Bool
holds i r = leb r.0 i && ltb i r.1

-- Some range holds the position.
abbrev pub covers : List (ℕ × ℕ) → ℕ → Bool
covers rs i = any (holds i) rs

-- A range that is not empty and ends within a text of that length.
abbrev pub Fits : (n : ℕ) → ℕ × ℕ → Type 0
Fits n r = (r.0 < r.1) × (r.1 ≤ n)

-- Ranges in order, from a position on, that do not touch.
abbrev pub IsApart : (n from : ℕ) → List (ℕ × ℕ) → Type 0
IsApart n from [] = Unit
IsApart n from (r ∷ rs) = (from ≤ r.0) × Fits n r × IsApart n (r.1 + 1) rs

merge_into-IsApart :
    (n from : ℕ) (r : ℕ × ℕ) (rs : List (ℕ × ℕ))
    → from ≤ r.0
    → Fits n r
    → All (Fits n) rs
    → IsApart n from (merge_into r rs)
unfolding merge_into
merge_into-IsApart n from r [] h f a = (h, f, tt)
merge_into-IsApart n from r (q ∷ rs) h f a = elim (Bool-cases (leb q.0 r.1)) [
  | inl e ↦
      rw e (merge_into-IsApart n from (r.0, max r.1 q.1) rs h (omega arith, omega (arith, a.0)) a.1)
  | inr e ↦ rw e (h, f, merge_into-IsApart n (r.1 + 1) q rs (ground arith) a.0 a.1)
]

pub merge_ranges-IsApart :
    (n : ℕ) (rs : List (ℕ × ℕ)) → All (Fits n) rs → IsApart n 0 (merge_ranges rs)
unfolding merge_ranges
merge_ranges-IsApart n [] a = tt
merge_ranges-IsApart n (r ∷ rs) a = merge_into-IsApart n 0 r rs (omega arith) a.0 a.1

-- Two ranges that meet hold what their union holds.
joined :
    (i : ℕ) (r q : ℕ × ℕ)
    → r.0 ≤ q.0
    → q.0 ≤ r.1
    → r.0 < r.1
    → q.0 < q.1
    → holds i (r.0, max r.1 q.1) ≡ (holds i r || holds i q)
joined i r q a b c d = ground arith

or_assoc : (a b c : Bool) → ((a || b) || c) ≡ (a || (b || c))
or_assoc true b c = refl
or_assoc false b c = refl

merge_into-covers :
    (n i : ℕ) (r : ℕ × ℕ) (rs : List (ℕ × ℕ))
    → Fits n r
    → All (Fits n) rs
    → All (λ q. starts_before r q ≡ true) rs
    → IsSorted starts_before rs
    → covers (merge_into r rs) i ≡ covers (r ∷ rs) i
unfolding merge_into
merge_into-covers n i r [] f a b s = refl
merge_into-covers n i r (q ∷ rs) f a b s = elim (Bool-cases (leb q.0 r.1)) [
  | inl e ↦ rw e (
      merge_into-covers n i (r.0, max r.1 q.1) rs (omega arith, omega (arith, a.0)) a.1 b.1 s.1
      ∙ ap (λ t. t || covers rs i) (joined i r q (ground (arith, b.0)) (ground arith) f.0 a.0.0)
      ∙ or_assoc (holds i r) (holds i q) (covers rs i))
  | inr e ↦ rw e (ap (λ t. holds i r || t) (merge_into-covers n i q rs a.0 a.1 s.0 s.1))
]

pub merge_ranges-covers :
    (n i : ℕ) (rs : List (ℕ × ℕ))
    → All (Fits n) rs
    → IsSorted starts_before rs
    → covers (merge_ranges rs) i ≡ covers rs i
unfolding merge_ranges
merge_ranges-covers n i [] a s = refl
merge_ranges-covers n i (r ∷ rs) a s = merge_into-covers n i r rs a.0 a.1 s.0 s.1
