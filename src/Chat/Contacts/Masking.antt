-- ===== src/Chat/Contacts/Masking.antt =====
-- `redactContacts` of apps/api/src/chat/contact-detection/contact-detection.ts masks exactly what was
-- detected.
use appforfixiyi.Common.{
  ℕ, ◌+◌, ◌-◌, ◌≤◌, ◌<◌, ◌≡◌, refl, sym, ◌∙◌, ap, true, false, List, [], ◌∷◌, ◌++◌, arith, All,
  All-sort, IsTotal, IsTransitive, Bool-cases, any-sort, length, take, drop, sort, sort-IsSorted,
  Text, inl, inr,
}
use appforfixiyi.Chat.Contacts.{
  Detection, placeholder, starts_before, ranges_of, merge_ranges, mask_ranges, mask_detections,
}
use appforfixiyi.Chat.Contacts.Slices.{
  masked_by, drop-drop, take-take, drop-take, take-add, take-drop_id, length-drop, masked_none,
  masked_by-cong, masked_apart, masked_inside, masked_leave, masked_enter,
}
use appforfixiyi.Chat.Contacts.Merging.{
  holds, covers, Fits, IsApart, merge_ranges-IsApart, merge_ranges-covers,
}

-- No range that is apart from a position on holds one before it.
covers_before :
    (n from j : ℕ) (rs : List (ℕ × ℕ)) → IsApart n from rs → j < from → covers rs j ≡ false
covers_before n from j [] a h = refl
covers_before n from j (r ∷ rs) a h =
    ground (arith, covers_before n (r.1 + 1) j rs a.2 (omega arith))

holds_from : (r : ℕ × ℕ) (j : ℕ) → r.0 ≤ j → j < r.1 → holds j r ≡ true
holds_from r j h k = ground arith

holds_after : (r : ℕ × ℕ) (j : ℕ) → r.1 ≤ j → holds j r ≡ false
holds_after r j h = ground arith

holds_before : (r : ℕ × ℕ) (j : ℕ) → j < r.0 → holds j r ≡ false
holds_before r j h = ground arith

module _ (n from : ℕ) (r : ℕ × ℕ) (rs : List (ℕ × ℕ)) (t : Text) (a : IsApart n from (r ∷ rs))
    (h : n ≤ length t) where
  -- The units before the range.
  ahead :
      masked_by (covers (r ∷ rs)) from false (drop from t)
      ≡ take (r.0 - from) (drop from t) ++ masked_by (covers (r ∷ rs)) r.0 false (drop r.0 t)
  ahead =
      let here : from + (r.0 - from) ≡ r.0 = omega (arith, a.0) in
      masked_apart (covers (r ∷ rs)) from (r.0 - from) (drop from t) (λ j k l.
        rw (
          holds_before r j (omega arith),
          covers_before n (r.1 + 1) j rs a.2 (omega (arith, a.1.0)),
        ))
      ∙ rw (drop-drop from (r.0 - from) t, here) refl

  -- The units of the range.
  within :
      masked_by (covers (r ∷ rs)) r.0 false (drop r.0 t)
      ≡ placeholder ++ masked_by (covers (r ∷ rs)) r.1 true (drop r.1 t)
  within =
      let here : r.0 + 1 + (r.1 - (r.0 + 1)) ≡ r.1 = omega (arith, a.1.0) in
      let inner : masked_by (covers (r ∷ rs)) (r.0 + 1) true (drop (r.0 + 1) t)
          ≡ masked_by (covers (r ∷ rs)) r.1 true (drop r.1 t) =
        masked_inside (covers (r ∷ rs)) (r.0 + 1) (r.1 - (r.0 + 1)) (drop (r.0 + 1) t)
          (λ j k l. rw (holds_from r j (omega arith) (omega (arith, a.1.0))) refl)
        ∙ rw (drop-drop (r.0 + 1) (r.1 - (r.0 + 1)) t, here) refl in
      masked_enter (covers (r ∷ rs)) r.0 (drop r.0 t)
        (rw (holds_from r r.0 (omega arith) a.1.0) refl)
        (omega (arith, length-drop r.0 t (omega (arith, a.1.0, a.1.1)), a.1.0, a.1.1))
      ∙ rw (drop-drop r.0 1 t, inner) refl

  -- The units after the range.
  behind :
      masked_by (covers (r ∷ rs)) r.1 true (drop r.1 t)
      ≡ masked_by (covers rs) r.1 false (drop r.1 t)
  behind =
      masked_leave (covers (r ∷ rs)) r.1 (drop r.1 t)
        (rw (holds_after r r.1 (omega arith), covers_before n (r.1 + 1) r.1 rs a.2 (omega arith)))
      ∙ masked_by-cong (covers (r ∷ rs)) (covers rs) r.1 false (drop r.1 t)
          (λ j k. rw (holds_after r j k) refl)

sooner : (n from : ℕ) (rs : List (ℕ × ℕ)) → IsApart n (from + 1) rs → IsApart n from rs
sooner n from [] a = tt
sooner n from (r ∷ rs) a = (omega (arith, a.0), a.1, a.2)

starts_before-IsTotal : IsTotal starts_before
starts_before-IsTotal r q = elim (Bool-cases (starts_before r q)) [
  | inl e ↦ inl e
  | inr e ↦ inr (ground arith)
]

starts_before-IsTransitive : IsTransitive starts_before
starts_before-IsTransitive r q u h k = ground arith

masked-apart :
    (n from : ℕ) (rs : List (ℕ × ℕ)) (t : Text)
    → IsApart n from rs
    → from ≤ length t
    → n ≤ length t
    → mask_ranges rs t ≡ take from t ++ masked_by (covers rs) from false (drop from t)
unfolding mask_ranges
masked-apart n from [] t a k h =
    sym (take-drop_id from t)
    ∙ ap (λ u. take from t ++ u) (sym (masked_none (covers []) from (drop from t) (λ j. refl)))
masked-apart n from (r ∷ rs) t a k h =
    let later = masked_by (covers rs) r.1 false (drop r.1 t) in
    let here : from + (r.0 - from) ≡ r.0 = omega (arith, a.0) in
    let rest : mask_ranges rs t ≡ take r.1 t ++ later =
      masked-apart n r.1 rs t (sooner n r.1 rs a.2) (omega (arith, a.1.1)) h in
    let low : take r.0 (take r.1 t ++ later) ≡ take r.0 t =
      take-take r.0 r.1 t later (omega (arith, a.1.0)) (omega (arith, a.1.1)) in
    let high : drop r.1 (take r.1 t ++ later) ≡ later =
      drop-take r.1 t later (omega (arith, a.1.1)) in
    let split : take from t ++ (take (r.0 - from) (drop from t) ++ (placeholder ++ later))
        ≡ take (from + (r.0 - from)) t ++ (placeholder ++ later) =
      take-add from (r.0 - from) t (placeholder ++ later) in
    rw
      (
        rest,
        low,
        high,
        ahead n from r rs t a h,
        within n from r rs t a h,
        behind n from r rs t a h,
        split,
        here,
      )
      refl

-- Where every range that is detected is not empty and ends within the text, masking leaves exactly
-- the units that no range holds, in their order, and puts one placeholder for each longest stretch
-- of units that are held.
pub mask_detections-masked_by :
    (ds : List Detection) (t : Text)
    → All (Fits (length t)) (ranges_of ds)
    → mask_detections ds t ≡ masked_by (covers (ranges_of ds)) 0 false t
unfolding mask_detections
mask_detections-masked_by ds t a =
    let rs = sort starts_before (ranges_of ds) in
    let fits : All (Fits (length t)) rs =
      All-sort starts_before (Fits (length t)) (ranges_of ds) a in
    masked-apart (length t) 0 (merge_ranges rs) t (merge_ranges-IsApart (length t) rs fits)
      (omega arith) (omega arith)
    ∙ masked_by-cong (covers (merge_ranges rs)) (covers (ranges_of ds)) 0 false t (λ j k.
      merge_ranges-covers (length t) j rs fits (
        sort-IsSorted starts_before starts_before-IsTotal starts_before-IsTransitive (ranges_of ds))
      ∙ any-sort starts_before (holds j) (ranges_of ds))
