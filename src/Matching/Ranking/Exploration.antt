-- ===== src/Matching/Ranking/Exploration.antt =====
-- The seats reserved for providers with few dispatches: `selectBatch` of
-- apps/api/src/matching/ranking.ts.
use appforfixiyi.Common.{
  ℕ, suc, zero, Bool, true, refl, min, leb, length, count, length-take, length-sort, length-filter,
  All-take, All-sort, filter-All, sort, ◌-◌, ◌≤◌, ◌<◌, ◌≡◌, not, List, [], ◌∷◌, ◌++◌, inl, inr, ◌⊎◌,
  arith, Bool-cases, ==_refl, IsSorted, sort-IsSorted, take, All, All-imp, All-of_sort,
  All-of_filter, contains,
}
use appforfixiyi.Matching.Numbers.{Numbers}
use appforfixiyi.Matching.Ranking.{
  Ranked, explores, provider_ids, rest_of, reserved_slots, explorers, select_batch,
}
use appforfixiyi.Matching.Ranking.Score.{
  explores-IsTotal, explores-IsTransitive, IsAhead, before-IsAhead,
}

All-zip {ℓ} :
    {A : Type ℓ} (P Q S : A → Type 0) (xs : List A)
    → ((x : A) → P x → Q x → S x)
    → All P xs
    → All Q xs
    → All S xs
All-zip P Q S [] f h k = tt
All-zip P Q S (x ∷ xs) f h k = (f x h.0 k.0, All-zip P Q S xs f h.1 k.1)

module _ (n : Numbers) where
  abbrev pub IsIn : List (Ranked n) → Ranked n → Type 0
  IsIn es y = contains y.candidate.provider_id (provider_ids n es) ≡ true

  IsIn-append_left : (xs ys : List (Ranked n)) (y : Ranked n) → IsIn xs y → IsIn (xs ++ ys) y
  IsIn-append_left [] ys y h = absurd (cc)
  IsIn-append_left (x ∷ xs) ys y h = ground (arith, IsIn-append_left xs ys y)

  IsIn-append_right : (xs ys : List (Ranked n)) (y : Ranked n) → IsIn ys y → IsIn (xs ++ ys) y
  IsIn-append_right [] ys y h = h
  IsIn-append_right (x ∷ xs) ys y h = ground (arith, IsIn-append_right xs ys y h)

  abbrev Beaten : List (Ranked n) → Ranked n → Type 0
  Beaten es y = IsIn es y ⊎ All (λ x. explores n x y ≡ true) es

  take_least :
      (k : ℕ) (es : List (Ranked n)) → IsSorted (explores n) es → All (Beaten (take k es)) es
  take_least zero es s = All-imp (λ _. Unit {0}) _ es (λ y _. inr tt) (units es)
    where
      units : (l : List (Ranked n)) → All (λ _. Unit {0}) l
      units [] = tt
      units (x ∷ l) = (tt, units l)
  take_least (suc k) [] s = tt
  take_least (suc k) (x ∷ es) s =
      (inl (here), All-zip _ _ (Beaten (x ∷ take k es)) es later s.0 (take_least k es s.1))
    where
      here : IsIn (x ∷ take k es) x
      here = rw (==_refl x.candidate.provider_id)

      later :
          (y : Ranked n) → explores n x y ≡ true → Beaten (take k es) y → Beaten (x ∷ take k es) y
      later y h (inl p) = inl (ground arith)
      later y h (inr q) = inr (h, q)

  -- `x` explores before `y`: it was dispatched to at most as often, and where it was as often, it is
  -- ahead of `y` in the ranking.
  pub record IsKeener (x y : Ranked n) : Type 0 where
    pub dispatches : x.candidate.past_dispatch_count ≤ y.candidate.past_dispatch_count
    pub tie : x.candidate.past_dispatch_count ≡ y.candidate.past_dispatch_count → IsAhead n x y

  explores-IsKeener : (x y : Ranked n) → explores n x y ≡ true → IsKeener x y
  explores-IsKeener x y h = record {
    dispatches = ground arith;
    tie = λ e. before-IsAhead n x y (ground arith);
  }

  select_batch-eq :
      (r : Ranked n) (rs : List (Ranked n)) (size slots : ℕ)
      → 0 < reserved_slots size slots
      → select_batch n (r ∷ rs) size slots
        ≡ take (size - reserved_slots size slots) (r ∷ rs)
          ++ explorers n
              (r ∷ rs)
              (take (size - reserved_slots size slots) (r ∷ rs))
              (reserved_slots size slots)
  unfolding select_batch
  select_batch-eq r rs size slots pos = ground arith

  module _ (ranked selected : List (Ranked n)) (k : ℕ) where
    -- A provider of the ranking is selected, or an explorer, or beaten by all explorers.
    explorers_beat :
        All
          (λ y.
            not (contains y.candidate.provider_id (provider_ids n selected)) ≡ true
            → Beaten (explorers n ranked selected k) y)
          ranked
    unfolding explorers
    explorers_beat = All-of_filter _ _ ranked (
        All-of_sort _ (explores n) (rest_of n ranked selected) (
          take_least k _ (
            sort-IsSorted (explores n) (explores-IsTotal n) (explores-IsTransitive n)
              (rest_of n ranked selected))))

    IsIn-batch_or_Beaten :
        (y : Ranked n)
        → (not (contains y.candidate.provider_id (provider_ids n selected)) ≡ true
            → Beaten (explorers n ranked selected k) y)
        → IsIn (selected ++ explorers n ranked selected k) y
          ⊎ All (λ x. IsKeener x y) (explorers n ranked selected k)
    IsIn-batch_or_Beaten y h =
        elim (Bool-cases (contains y.candidate.provider_id (provider_ids n selected))) [
          | inl c ↦ inl (IsIn-append_left selected _ y c)
          | inr c ↦ elim (h (rw c)) [
            | inl e ↦ inl (IsIn-append_right selected _ y e)
            | inr b ↦
                inr (All-imp _ _ (explorers n ranked selected k) (λ x. explores-IsKeener x y) b)
          ]
        ]

  -- A provider of the ranking that a list leaves out.
  abbrev pub is_left_out : List (Ranked n) → Ranked n → Bool
  is_left_out es y = not (contains y.candidate.provider_id (provider_ids n es))

  -- How a batch is made up: the `merit` best entries, and `new`, the entries that explore.
  pub record IsMadeOf (ranked batch : List (Ranked n)) (merit reserved : ℕ) (new : List (Ranked n))
      : Type 0 where
    pub parts : batch ≡ take merit ranked ++ new
    pub number : length new ≡ min reserved (count (is_left_out (take merit ranked)) ranked)
    pub left_out : All (λ x. is_left_out (take merit ranked) x ≡ true) new
    pub least : All (λ y. IsIn batch y ⊎ All (λ x. IsKeener x y) new) ranked

  take_none : (k : ℕ) → take {A = Ranked n} k [] ≡ []
  take_none zero = refl
  take_none (suc k) = refl

  length-explorers :
      (ranked selected : List (Ranked n)) (k : ℕ)
      → length (explorers n ranked selected k) ≡ min k (count (is_left_out selected) ranked)
  unfolding explorers
  length-explorers ranked selected k =
      rw
        (
          length-take {0} k (sort (explores n) (rest_of n ranked selected)),
          length-sort (explores n) (rest_of n ranked selected),
          length-filter (is_left_out selected) ranked,
        )
        refl

  explorers-left_out :
      (ranked selected : List (Ranked n)) (k : ℕ)
      → All (λ x. is_left_out selected x ≡ true) (explorers n ranked selected k)
  unfolding explorers
  explorers-left_out ranked selected k = All-take _ k _ (
      All-sort (explores n) (λ x. is_left_out selected x ≡ true) _
        (filter-All (is_left_out selected) ranked))

  -- Where a batch has room for two and some slots are for exploring: but for as many slots as are for
  -- exploring, one less than the size at most, the batch is the best of the ranking. These
  -- slots go to entries that the best leave out, and are all filled as long as there are such entries.
  -- Every provider of the ranking is in the batch, or each of those that explore was dispatched to
  -- less often, or as often and is ahead of it by its score and then its id.
  pub select_batch-IsMadeOf :
      (ranked : List (Ranked n)) (size slots : ℕ)
      → 2 ≤ size
      → 1 ≤ slots
      → (new : List (Ranked n)) × IsMadeOf ranked
          (select_batch n ranked size slots)
          (size - min slots (size - 1))
          (min slots (size - 1))
          new
  unfolding select_batch
  select_batch-IsMadeOf [] size slots two one = (
    [],
    record {
      parts = nothing (take (size - min slots (size - 1)) []) (take_none _);
      number = omega arith;
      left_out = tt;
      least = tt;
    },
  )
    where
      nothing : (merit : List (Ranked n)) → merit ≡ [] → select_batch n [] size slots ≡ merit ++ []
      nothing merit e = elim (Bool-cases (leb size 0)) [
        | inl z ↦ rw (z, e) refl
        | inr z ↦ rw (z, e) refl
      ]
  select_batch-IsMadeOf (r ∷ rs) size slots two one =
      let merit = take (size - reserved_slots size slots) (r ∷ rs) in
      (
        explorers n (r ∷ rs) merit (reserved_slots size slots),
        record {
          parts = select_batch-eq r rs size slots (omega arith);
          number = length-explorers (r ∷ rs) merit (reserved_slots size slots);
          left_out = explorers-left_out (r ∷ rs) merit (reserved_slots size slots);
          least =
              All-imp _ _ (r ∷ rs)
                (λ y h.
                  rw (select_batch-eq r rs size slots (omega arith))
                    (IsIn-batch_or_Beaten (r ∷ rs) merit (reserved_slots size slots) y h))
                (explorers_beat (r ∷ rs) merit (reserved_slots size slots));
        },
      )
