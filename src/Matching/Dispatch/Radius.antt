-- ===== src/Matching/Dispatch/Radius.antt =====
-- How far a search widens: `selectNextBatch` of apps/api/src/matching/dispatch.service.ts against an
-- account of it that needs no loop.
use appforfixiyi.Common.{
  ℕ, zero, suc, ◌+◌, ◌≤◌, ◌<◌, ◌≡◌, refl, true, false, not, ◌||◌, Option, some, none, List, arith,
  inl, inr, ◌⊎◌, ◌==◌, leb, min, max, length, Bool-cases,
}
use appforfixiyi.Store.Entities.Requests.{ServiceRequest}
use appforfixiyi.Store.Entities.Matching.{Match, MatchingConfig}
use appforfixiyi.Matching.Loops.{widen, rounds}
use appforfixiyi.Matching.Platform.{Platform}
use appforfixiyi.Matching.Dispatch.{Store, Selection, rank_eligible, select_next_batch}

-- The radius after `n` widenings.
pub radius_after : (add_km : ℕ → ℕ → ℕ) (most step start n : ℕ) → ℕ
radius_after add_km most step start zero = start
radius_after add_km most step start (suc n) =
    min most (add_km (radius_after add_km most step start n) step)

-- No step is lost: below the maximum, the sum of a radius and the step is a wider radius. With exact
-- sums that is a step that is not 0.
abbrev pub IsGrowing : (add_km : ℕ → ℕ → ℕ) (most step : ℕ) → Type 0
IsGrowing add_km most step = (r : ℕ) → r < most → r < add_km r step

module _ {A : Type 0} (add_km : ℕ → ℕ → ℕ) (search : ℕ → List A) (most step start : ℕ) where
  -- The search goes on after the `k`-th radius.
  pub GoesOn : ℕ → Type 0
  unfolding radius_after
  GoesOn k =
      (length (search (radius_after add_km most step start k)) ≡ 0)
      × (radius_after add_km most step start k < most)

  -- The search ends with what it finds within the `n`-th radius: it went on after all before it, and
  -- this one has a candidate or is the maximum.
  pub EndsAfter : ℕ → List A → ℕ → Type 0
  unfolding radius_after
  EndsAfter n found radius =
      (radius ≡ radius_after add_km most step start n)
      × (found ≡ search radius)
      × ((k : ℕ) → k < n → GoesOn k)
      × ((length found ≡ 0) → most ≤ radius)

  pub IsWidened : Option (List A × ℕ) → Type 0
  IsWidened o =
      (n : ℕ) × (found : List A) × (radius : ℕ) × (o ≡ some (found, radius))
      × EndsAfter n found radius

  GoesOn-suc : (n : ℕ) → ((k : ℕ) → k < n → GoesOn k) → GoesOn n → (k : ℕ) → k < suc n → GoesOn k
  GoesOn-suc n before here k lt = elim (lt_cases k n lt) [ inl e ↦ before k e | inr e ↦ rw e here ]
    where
      lt_cases : (k n : ℕ) → k < suc n → (k < n) ⊎ (k ≡ n)
      lt_cases k n lt = ground arith

  going_on :
      (r : ℕ)
      → (not (length (search r) == 0) || leb most r) ≡ false
      → (length (search r) ≡ 0) × (r < most)
  going_on r e = (ground arith, ground arith)

  stopped :
      (r : ℕ)
      → (not (length (search r) == 0) || leb most r) ≡ true
      → length (search r) ≡ 0
      → most ≤ r
  stopped r e z = ground arith

  widen_from :
      IsGrowing add_km most step
      → (fuel n : ℕ) → most + 1 ≤ fuel + radius_after add_km most step start n
      → 1 ≤ fuel
      → ((k : ℕ) → k < n → GoesOn k)
      → IsWidened (widen add_km search most step fuel (radius_after add_km most step start n))
  unfolding widen IsWidened EndsAfter GoesOn radius_after
  widen_from st zero n enough some_fuel before = absurd (omega arith)
  widen_from st (suc fuel) n enough some_fuel before =
      let r = radius_after add_km most step start n in
      elim (Bool-cases (not (length (search r) == 0) || leb most r)) [
        | inl e ↦ rw e (n, search r, r, refl, (refl, refl, before, stopped r e))
        | inr e ↦
            let here = going_on r e in
            rw e (
              widen_from st fuel (suc n) (omega (arith, here.1, st r here.1))
                (omega (arith, here.1)) (GoesOn-suc n before here))
      ]

  pub widen-IsWidened :
      IsGrowing add_km most step → IsWidened (widen add_km search most step (rounds most) start)
  unfolding radius_after
  widen-IsWidened st =
      widen_from st (rounds most) 0 (omega arith) (omega arith) (λ k lt. absurd (omega arith))

-- Where a radius below the maximum, within which nobody is found, is left as it is by the step
-- (rounding loses it), the loop never ends: it runs out of any fuel.
pub widen-stuck :
    {A : Type 0} (add_km : ℕ → ℕ → ℕ) (search : ℕ → List A) (most step radius : ℕ)
    → length (search radius) ≡ 0
    → radius < most
    → add_km radius step ≡ radius
    → (fuel : ℕ) → widen add_km search most step fuel radius ≡ none
unfolding widen
widen-stuck add_km search most step radius nobody lt lost zero = refl
widen-stuck add_km search most step radius nobody lt lost (suc fuel) =
    let rest = widen-stuck add_km search most step radius nobody lt lost fuel in
    rw (lost, same_radius, rest, nobody, below) refl
  where
    same_radius : min most radius ≡ radius
    same_radius = ground arith

    below : leb most radius ≡ false
    below = ground arith

pub radius_after-le :
    (add_km : ℕ → ℕ → ℕ) (most step start n : ℕ)
    → radius_after add_km most step start n ≤ max start most
unfolding radius_after
radius_after-le add_km most step start zero = omega arith
radius_after-le add_km most step start (suc n) = omega arith

module _ (p : Platform) where
  -- Where the step of the configuration widens every radius below the maximum (rounding loses none of
  -- the steps), the search for the next batch ends within the fuel.
  -- It returns what is found within the radius after some number of widenings: within each radius
  -- before nobody was found and the maximum not reached; within this one somebody is found, or it is
  -- at least the maximum. It exceeds neither the maximum nor the radius that it started from, whichever is greater.
  pub select_next_batch-IsWidened :
      (now : ℕ) (m : Match) (r : ServiceRequest) (config : MatchingConfig p.numbers.R)
      (excluded : List ℕ) (s : Store p)
      → IsGrowing p.numbers.add_km config.max_radius_km config.radius_expansion_step_km
      → (n : ℕ) × (found : List (Selection p.numbers)) × (radius : ℕ) × (select_next_batch p now m r
            config excluded s
          ≡ some (found, radius))
        × EndsAfter p.numbers.add_km
            (λ x. rank_eligible p now r config x excluded s)
            config.max_radius_km
            config.radius_expansion_step_km
            m.current_radius_km
            n
            found
            radius
        × (radius ≤ max m.current_radius_km config.max_radius_km)
  unfolding select_next_batch IsWidened EndsAfter
  select_next_batch-IsWidened now m r config excluded s st =
      let (n, found, radius, e, ends) =
        widen-IsWidened p.numbers.add_km (λ x. rank_eligible p now r config x excluded s)
          config.max_radius_km config.radius_expansion_step_km m.current_radius_km st in
      (
        n,
        found,
        radius,
        e,
        ends,
        rw ends.0 (
            radius_after-le p.numbers.add_km config.max_radius_km config.radius_expansion_step_km
              m.current_radius_km n),
      )
