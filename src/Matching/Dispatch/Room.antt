-- ===== src/Matching/Dispatch/Room.antt =====
-- The candidates of a batch find their place in the collection: the unique indexes of
-- apps/api/src/matching/schemas/match-candidate.schema.ts are not hit by `insertMany`
-- (dispatch.service.ts).
use appforfixiyi.Common.{
  ℕ, suc, ◌+◌, ◌≤◌, ◌≡◌, refl, ap, ◌∙◌, Bool, true, false, ◌&&◌, ◌||◌, none, some, List, [], ◌∷◌,
  ◌++◌, arith, inl, inr, ◌==◌, ==_iff, ==_refl, if◌then◌else◌, Bool-cases, Option-cases, map,
  filter, any, count, contains, count-append,
}
use appforfixiyi.Store.Entities.Matching.{Match, MatchCandidate, MatchingConfig, ProviderProfile}
use appforfixiyi.Matching.Loops.{candidate_clashes, insert_many}
use appforfixiyi.Matching.Platform.{Platform}
use appforfixiyi.Matching.Dispatch.{Selection, candidate_of, candidates_of}
use appforfixiyi.Matching.Dispatch.Candidates.{append_nil, append_one, insert_many_fresh}
use appforfixiyi.Matching.Dispatch.Once.{candidate_for}

module _ {R : Type 0} where
  abbrev pub has_id : ℕ → MatchCandidate R → Bool
  has_id i c = c.id == i

  -- The candidates of a match that are for the provider.
  abbrev pub in_match : (match_id provider : ℕ) → MatchCandidate R → Bool
  in_match match_id provider c = c.match_id == match_id && c.provider_id == provider

  no_clash :
      (d : MatchCandidate R) (c : List (MatchCandidate R))
      → count (has_id d.id) c ≡ 0
      → count (in_match d.match_id d.provider_id) c ≡ 0
      → any (candidate_clashes d) c ≡ false
  no_clash d [] h k = refl
  no_clash d (x ∷ xs) h k = ground (arith, no_clash d xs)

  pub contains_of_count :
      (match_id i : ℕ) (c : List (MatchCandidate R))
      → 1 ≤ count (in_match match_id i) c
      → contains i (map (λ x. x.provider_id) (filter (λ x. x.match_id == match_id) c)) ≡ true
  contains_of_count match_id i [] h = absurd (omega arith)
  contains_of_count match_id i (x ∷ xs) h = elim (Bool-cases (x.match_id == match_id)) [
    | inr e ↦ rw e (contains_of_count match_id i xs (omega (arith, (rw e at h))))
    | inl e ↦ elim (Bool-cases (x.provider_id == i)) [
      | inl f ↦ rw e (here x.provider_id _ f)
      | inr f ↦ rw e (
          there x.provider_id _ (contains_of_count match_id i xs (omega (arith, (rw (e, f) at h)))))
    ]
  ]
    where
      here : (a : ℕ) (b : Bool) → (a == i) ≡ true → (i == a || b) ≡ true
      here a b e = ground arith

      there : (a : ℕ) (b : Bool) → b ≡ true → (i == a || b) ≡ true
      there a b e = ground arith

module _ (p : Platform) (now : ℕ) (fresh : ℕ → ℕ) (distinct : (a b : ℕ) → fresh a ≡ fresh b → a ≡ b)
    (m : Match) (config : MatchingConfig p.numbers.R) where
  -- The ids to come are unused, and the candidates to come are for providers that the match has not got yet.
  abbrev pub IsRoom : ℕ → List (Selection p.numbers) → List (MatchCandidate p.numbers.R) → Type 0
  IsRoom k es c =
      ((j : ℕ) → k ≤ j → count (has_id (fresh j)) c ≡ 0)
      × ((i : ℕ)
          → count (candidate_for p i) (candidates_of p now fresh k m config es)
              + count (in_match m.id i) c
            ≤ 1)

  fresh_later : (k j : ℕ) → suc k ≤ j → (fresh k == fresh j) ≡ false
  fresh_later k j h = elim (Bool-cases (fresh k == fresh j)) [
    | inr e ↦ e
    | inl e ↦ absurd (omega (arith, h, distinct k j ((==_iff (fresh k) (fresh j)).0 e)))
  ]

  pub candidates_nil : (k : ℕ) → candidates_of p now fresh k m config [] ≡ []
  unfolding candidates_of
  candidates_nil k = refl

  pub candidates_cons :
      (k : ℕ) (e : Selection p.numbers) (es : List (Selection p.numbers)) (q : ProviderProfile)
      → e.profile ≡ some q
      → candidates_of p now fresh k m config (e ∷ es)
        ≡ candidate_of p now (fresh k) m config e.entry q
          ∷ candidates_of p now fresh (suc k) m config es
  unfolding candidates_of
  candidates_cons k e es q same = rw same refl

  pub candidates_skip :
      (k : ℕ) (e : Selection p.numbers) (es : List (Selection p.numbers))
      → e.profile ≡ none
      → candidates_of p now fresh k m config (e ∷ es) ≡ candidates_of p now fresh k m config es
  unfolding candidates_of
  candidates_skip k e es same = rw same refl

  IsRoom-step :
      (k : ℕ) (e : Selection p.numbers) (es : List (Selection p.numbers)) (q : ProviderProfile)
      (c : List (MatchCandidate p.numbers.R))
      → e.profile ≡ some q
      → IsRoom k (e ∷ es) c
      → (any (candidate_clashes (candidate_of p now (fresh k) m config e.entry q)) c ≡ false)
        × IsRoom (suc k) es (c ++ candidate_of p now (fresh k) m config e.entry q ∷ [])
  IsRoom-step k e es q c same (unused, apart) = (
    no_clash (candidate_of p now (fresh k) m config e.entry q) c (unused k (omega arith))
        (free _ _ (now_apart e.entry.candidate.provider_id)),
    (
      (λ j h. rw (count-append, fresh_later k j h) (omega (arith, unused j (omega (arith, h))))),
      λ i. rw (count-append, ==_refl) (omega (arith, now_apart i)),
    ),
  )
    where
      now_apart :
          (i : ℕ)
          → (if e.entry.candidate.provider_id == i then 1 else 0)
              + count (candidate_for p i) (candidates_of p now fresh (suc k) m config es)
              + count (in_match m.id i) c
            ≤ 1
      now_apart i = rw (candidates_cons k e es q same) at (apart i)

      free :
          (n l : ℕ)
          → (if e.entry.candidate.provider_id == e.entry.candidate.provider_id then 1 else 0)
              + n
              + l
            ≤ 1
          → l ≡ 0
      free n l h = omega (arith, (rw (==_refl e.entry.candidate.provider_id) at h))

  pub insert_many-ok :
      (k : ℕ) (es : List (Selection p.numbers)) (c : List (MatchCandidate p.numbers.R))
      → IsRoom k es c
      → insert_many p.mongo candidate_clashes (candidates_of p now fresh k m config es) c
        ≡ (c ++ candidates_of p now fresh k m config es, true)
  unfolding insert_many
  insert_many-ok k [] c room = rw (candidates_nil k) (ap (λ x. (x, true)) (append_nil c))
  insert_many-ok k (e ∷ es) c room = elim (Option-cases e.profile) [
    | inl skip ↦
        rw (candidates_skip k e es skip)
          (insert_many-ok k es c (room.0, λ i. rw (candidates_skip k e es skip) at (room.1 i)))
    | inr (q, same) ↦
        let d = candidate_of p now (fresh k) m config e.entry q in
        let (clear, later) = IsRoom-step k e es q c same room in
        rw (candidates_cons k e es q same) (
          insert_many_fresh p.mongo candidate_clashes d _ c clear
          ∙ insert_many-ok (suc k) es (c ++ d ∷ []) later
          ∙ ap (λ x. (x, true)) (append_one c d (candidates_of p now fresh (suc k) m config es)))
  ]
