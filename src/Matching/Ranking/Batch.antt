-- ===== src/Matching/Ranking/Batch.antt =====
-- The choice of a batch: `selectBatch` of apps/api/src/matching/ranking.ts.
use appforfixiyi.Common.{
  ℕ, ◌-◌, ◌≤◌, ◌≡◌, refl, sym, ap, ◌∙◌, Bool, true, false, not, ◌||◌, List, [], ◌∷◌, ◌++◌, inl, inr,
  arith, Bool-cases, leb, ◌==◌, ==_iff, sort, count, count-sort, count-append, count-take-le,
  count-filter-le, length, length-append, length-take-le, take, filter, All, All-append, All-take,
  All-filter, All-sort, contains,
}
use appforfixiyi.Matching.Numbers.{Numbers}
use appforfixiyi.Matching.Ranking.{
  Ranked, explores, provider_ids, rest_of, reserved_slots, explorers, select_batch,
}

module _ (n : Numbers) where
  abbrev pub provider_of : Ranked n → ℕ
  provider_of e = e.candidate.provider_id

  abbrev pub is_for : ℕ → Ranked n → Bool
  is_for i e = provider_of e == i

  -- No provider stands twice in the list.
  abbrev pub IsDistinct : List (Ranked n) → Type 0
  IsDistinct es = (i : ℕ) → count (is_for i) es ≤ 1

  explorers-All :
      (P : Ranked n → Type 0) (ranked selected : List (Ranked n)) (k : ℕ)
      → All P ranked
      → All P (explorers n ranked selected k)
  unfolding explorers
  explorers-All P ranked selected k h =
      All-take P k (sort (explores n) (rest_of n ranked selected))
        (All-sort (explores n) P (rest_of n ranked selected) (All-filter P _ ranked h))

  -- A batch is made of entries of the ranking: what holds of all of the ranking holds of the batch.
  pub select_batch-All :
      (P : Ranked n → Type 0) (ranked : List (Ranked n)) (size slots : ℕ)
      → All P ranked
      → All P (select_batch n ranked size slots)
  unfolding select_batch
  select_batch-All P ranked size slots h = elim (Bool-cases (leb size 0 || length ranked == 0)) [
    | inl e ↦ rw e tt
    | inr e ↦ elim (Bool-cases (reserved_slots size slots == 0)) [
      | inl z ↦ rw (e, z) (All-take P _ ranked h)
      | inr z ↦
          rw (e, z)
            (All-append P (take (size - reserved_slots size slots) ranked) _ (All-take P _ ranked h)
              (explorers-All P ranked _ _ h))
    ]
  ]

  length-explorers-le :
      (ranked selected : List (Ranked n)) (k : ℕ) → length (explorers n ranked selected k) ≤ k
  unfolding explorers
  length-explorers-le ranked selected k = length-take-le k _

  pub length-select_batch-le :
      (ranked : List (Ranked n)) (size slots : ℕ) → length (select_batch n ranked size slots) ≤ size
  unfolding select_batch
  length-select_batch-le ranked size slots = elim (Bool-cases (leb size 0 || length ranked == 0)) [
    | inl e ↦ rw e (omega arith)
    | inr e ↦ elim (Bool-cases (reserved_slots size slots == 0)) [
      | inl z ↦
          rw (e, z) (omega (arith, length-take-le {0} (size - reserved_slots size slots) ranked))
      | inr z ↦
          rw (e, z, length-append)
            (omega (
              arith,
              length-explorers-le ranked (take (size - reserved_slots size slots) ranked)
                  (reserved_slots size slots),
              length-take-le {0} (size - reserved_slots size slots) ranked,
            ))
    ]
  ]

  count_of_contains :
      (i : ℕ) (es : List (Ranked n))
      → contains i (provider_ids n es) ≡ false
      → count (is_for i) es ≡ 0
  count_of_contains i [] h = refl
  count_of_contains i (e ∷ es) h = ground (arith, count_of_contains i es)

  count_rest :
      (i : ℕ) (ids : List ℕ) (es : List (Ranked n))
      → contains i ids ≡ true
      → count (is_for i) (filter (λ e. not (contains (provider_of e) ids)) es) ≡ 0
  count_rest i ids [] h = refl
  count_rest i ids (e ∷ es) h = elim (Bool-cases (contains (provider_of e) ids)) [
    | inl c ↦ rw c (count_rest i ids es h)
    | inr c ↦ elim (Bool-cases (is_for i e)) [
      | inl same ↦ absurd (clash ((==_iff (provider_of e) i).0 same) c)
      | inr other ↦ rw (c, other) (omega (arith, count_rest i ids es h))
    ]
  ]
    where
      absurd_bool : true ≡ false → ⊥
      absurd_bool b = cc

      clash : provider_of e ≡ i → contains (provider_of e) ids ≡ false → ⊥
      clash p q = absurd_bool (sym h ∙ ap (λ j. contains j ids) (sym p) ∙ q)

  count-explorers :
      (ranked selected : List (Ranked n)) (k i : ℕ)
      → count (is_for i) (explorers n ranked selected k)
        ≤ count (is_for i) (rest_of n ranked selected)
  unfolding explorers
  count-explorers ranked selected k i = omega (
    arith,
    count-take-le (is_for i) k (sort (explores n) (rest_of n ranked selected)),
    count-sort (explores n) (is_for i) (rest_of n ranked selected),
  )

  count_both :
      (ranked : List (Ranked n)) (m k i : ℕ)
      → count (is_for i) ranked ≤ 1
      → count (is_for i) (take m ranked ++ explorers n ranked (take m ranked) k) ≤ 1
  count_both ranked m k i d =
      let selected : List (Ranked n) = take m ranked in
      elim (Bool-cases (contains i (provider_ids n selected))) [
        | inl c ↦ omega (
          arith,
          count-append (is_for i) selected (explorers n ranked selected k),
          count-explorers ranked selected k i,
          count_rest i (provider_ids n selected) ranked c,
          count-take-le (is_for i) m ranked,
        )
        | inr c ↦ omega (
          arith,
          count-append (is_for i) selected (explorers n ranked selected k),
          count-explorers ranked selected k i,
          count_of_contains i selected c,
          count-filter-le (is_for i) (λ e. not (contains (provider_of e) (provider_ids n selected)))
              ranked,
        )
      ]

  pub count-select_batch :
      (ranked : List (Ranked n)) (size slots i : ℕ)
      → count (is_for i) ranked ≤ 1
      → count (is_for i) (select_batch n ranked size slots) ≤ 1
  unfolding select_batch
  count-select_batch ranked size slots i d = elim (Bool-cases (leb size 0 || length ranked == 0)) [
    | inl e ↦ rw e (omega arith)
    | inr e ↦ elim (Bool-cases (reserved_slots size slots == 0)) [
      | inl z ↦
          rw (e, z)
            (omega (arith, count-take-le (is_for i) (size - reserved_slots size slots) ranked))
      | inr z ↦ rw (e, z) (count_both ranked _ _ i d)
    ]
  ]

  -- A batch has no more entries than its size, and where no provider stands twice in the ranking,
  -- none stands twice in the batch.
  pub select_batch-IsDistinct :
      (ranked : List (Ranked n)) (size slots : ℕ)
      → IsDistinct ranked
      → (length (select_batch n ranked size slots) ≤ size)
        × IsDistinct (select_batch n ranked size slots)
  select_batch-IsDistinct ranked size slots d =
      (length-select_batch-le ranked size slots, λ i. once i)
    where
      once : (i : ℕ) → count (is_for i) (select_batch n ranked size slots) ≤ 1
      once i = count-select_batch ranked size slots i (d i)
