-- ===== src/Store.antt =====
-- The document store. A collection is the list of its documents in natural order; the driver's
-- operations (Mongoose over MongoDB, not part of the repository) are a parameter, `Mongo`, with
-- their documented behaviour as laws.
pub mod Entities
pub mod Database
use appforfixiyi.Common.{
  ℕ, ◌≡◌, refl, Bool, true, false, Option, none, some, List, [], ◌∷◌, ◌++◌, filter, find?, any,
  update_first, update_all, if◌then◌else◌, count, All, IsTotal, IsTransitive, IsSorted, count-sort,
  All-sort, sort-IsSorted, sort as sort_list,
}

pub record Mongo : Type 1 where
  pub find : {D : Type 0} → (D → Bool) → List D → List D
  pub find_one : {D : Type 0} → (D → Bool) → List D → Option D
  -- `create`, with the test of the collection's unique indexes; `none` is the error 11000.
  pub create : {D : Type 0} → (D → D → Bool) → D → List D → Option (List D)
  pub update_one : {D : Type 0} → (D → Bool) → (D → D) → List D → List D
  pub update_many : {D : Type 0} → (D → Bool) → (D → D) → List D → List D
  pub sort : {D : Type 0} → (D → D → Bool) → List D → List D
  pub find_lem : {D : Type 0} (p : D → Bool) (c : List D) → find p c ≡ filter p c
  pub find_one_lem : {D : Type 0} (p : D → Bool) (c : List D) → find_one p c ≡ find? p c
  pub create_lem :
      {D : Type 0} (clash : D → D → Bool) (d : D) (c : List D)
      → create clash d c ≡ (if any (clash d) c then none else some (c ++ d ∷ []))
  pub update_one_lem :
      {D : Type 0} (p : D → Bool) (f : D → D) (c : List D) → update_one p f c ≡ update_first p f c
  pub update_many_lem :
      {D : Type 0} (p : D → Bool) (f : D → D) (c : List D) → update_many p f c ≡ update_all p f c
  -- Which of two documents that compare equal comes first is not promised.
  pub sort_count :
      {D : Type 0} (le : D → D → Bool) (p : D → Bool) (c : List D) → count p (sort le c) ≡ count p c
  pub sort_All :
      {D : Type 0} (le : D → D → Bool) (P : D → Type 0) (c : List D) → All P c → All P (sort le c)
  pub sort_IsSorted :
      {D : Type 0} (le : D → D → Bool) (c : List D)
      → IsTotal le
      → IsTransitive le
      → IsSorted le (sort le c)

-- The laws can be met: by the list functions themselves.
abbrev pub in_memory : Mongo
in_memory = record {
  find = λ p c. filter p c;
  find_one = λ p c. find? p c;
  create = λ clash d c. if any (clash d) c then none else some (c ++ d ∷ []);
  update_one = λ p f c. update_first p f c;
  update_many = λ p f c. update_all p f c;
  sort = λ le c. sort_list le c;
  find_lem = λ p c. refl;
  find_one_lem = λ p c. refl;
  create_lem = λ clash d c. refl;
  update_one_lem = λ p f c. refl;
  update_many_lem = λ p f c. refl;
  sort_count = λ le p c. count-sort le p c;
  sort_All = λ le P c h. All-sort le P c h;
  sort_IsSorted = λ le c total trans. sort-IsSorted le total trans c;
}
