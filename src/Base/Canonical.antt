-- ===== src/Base/Canonical.antt =====
-- Lists in the order of unique numbers, without duplicates: what `sort_unstable` and `dedup` make
-- of references to hash-consed nodes, which compare by their numbers.
use marsh.Base.Tests.{leb, ◌==◌, if◌then◌else◌, Bool-cases}
use marsh.Base.Lists.{retain}
use marsh.Base.Members.{All, All-retain}
use Prim.Native.Nat.{ℕ, ◌<◌, ◌≤◌}
use mathlib.Core.Logic.{inl, inr}
use mathlib.Core.Bool.{Bool}
use mathlib.Core.List.{List, [], ◌∷◌}
use native.Mathlib.Omega.{arith}

module _ {A : Type 0} (uid : A → ℕ) where
  unfoldable pub insert_sorted : A → List A → List A
  insert_sorted a [] = a ∷ []
  insert_sorted a (x ∷ xs) =
      let rest = insert_sorted a xs in if leb (uid a) (uid x) then a ∷ x ∷ xs else x ∷ rest

  unfoldable pub sort : List A → List A
  unfolding insert_sorted
  sort [] = []
  sort (x ∷ xs) = insert_sorted x (sort xs)

  unfoldable pub dedup : List A → List A
  dedup [] = []
  dedup (x ∷ []) = x ∷ []
  dedup (x ∷ y ∷ ys) = let rest = dedup (y ∷ ys) in if uid x == uid y then rest else x ∷ rest

  -- The number of every element is above `k`, or at least `k`.
  abbrev pub Above : ℕ → List A → Type 0
  Above k = All (λ x. k < uid x)

  abbrev AtLeast : ℕ → List A → Type 0
  AtLeast k = All (λ x. k ≤ uid x)

  abbrev pub IsStrict : List A → Type 0
  IsStrict [] = Unit
  IsStrict (x ∷ xs) = Above (uid x) xs × IsStrict xs

  abbrev IsSorted : List A → Type 0
  IsSorted [] = Unit
  IsSorted (x ∷ xs) = AtLeast (uid x) xs × IsSorted xs

  insert_sorted-All {κ} :
      (P : A → Type κ) (a : A) (xs : List A) → P a → All P xs → All P (insert_sorted a xs)
  unfolding insert_sorted
  insert_sorted-All P a [] p h = (p, tt)
  insert_sorted-All P a (x ∷ xs) p h = elim (Bool-cases (leb (uid a) (uid x))) [
    | inl le ↦ rw le (p, (h.0, h.1))
    | inr gt ↦ rw gt (h.0, insert_sorted-All P a xs p h.1)
  ]

  pub sort-All {κ} : (P : A → Type κ) (xs : List A) → All P xs → All P (sort xs)
  unfolding sort
  sort-All P [] h = tt
  sort-All P (x ∷ xs) h = insert_sorted-All P x (sort xs) h.0 (sort-All P xs h.1)

  pub dedup-All {κ} : (P : A → Type κ) (xs : List A) → All P xs → All P (dedup xs)
  unfolding dedup
  dedup-All P [] h = tt
  dedup-All P (x ∷ []) h = h
  dedup-All P (x ∷ y ∷ ys) h = elim (Bool-cases (uid x == uid y)) [
    | inl same ↦ rw same (dedup-All P (y ∷ ys) h.1)
    | inr new ↦ rw new (h.0, dedup-All P (y ∷ ys) h.1)
  ]

  AtLeast-le : (j k : ℕ) (xs : List A) → j ≤ k → AtLeast k xs → AtLeast j xs
  AtLeast-le j k [] le h = tt
  AtLeast-le j k (x ∷ xs) le h = (omega (arith, h.0), AtLeast-le j k xs le h.1)

  Above-le : (j k : ℕ) (xs : List A) → j < k → AtLeast k xs → Above j xs
  Above-le j k [] le h = tt
  Above-le j k (x ∷ xs) le h = (omega (arith, h.0), Above-le j k xs le h.1)

  insert_sorted-IsSorted : (a : A) (xs : List A) → IsSorted xs → IsSorted (insert_sorted a xs)
  unfolding insert_sorted
  insert_sorted-IsSorted a [] h = (tt, tt)
  insert_sorted-IsSorted a (x ∷ xs) h = elim (Bool-cases (leb (uid a) (uid x))) [
    | inl le ↦
        rw le
          ((ground (arith, le), AtLeast-le (uid a) (uid x) xs (ground (arith, le)) h.0), (h.0, h.1))
    | inr gt ↦ rw gt (
      insert_sorted-All (λ y. uid x ≤ uid y) a xs (ground (arith, gt)) h.0,
      insert_sorted-IsSorted a xs h.1,
    )
  ]

  sort-IsSorted : (xs : List A) → IsSorted (sort xs)
  unfolding sort
  sort-IsSorted [] = tt
  sort-IsSorted (x ∷ xs) = insert_sorted-IsSorted x (sort xs) (sort-IsSorted xs)

  dedup-IsStrict : (xs : List A) → IsSorted xs → IsStrict (dedup xs)
  unfolding dedup
  dedup-IsStrict [] h = tt
  dedup-IsStrict (x ∷ []) h = (tt, tt)
  dedup-IsStrict (x ∷ y ∷ ys) h = elim (Bool-cases (uid x == uid y)) [
    | inl same ↦ rw same (dedup-IsStrict (y ∷ ys) h.1)
    | inr new ↦
        let below : uid x < uid y = ground (arith, new, h.0.0) in
        rw new (
          dedup-All (λ z. uid x < uid z) (y ∷ ys) (below, Above-le (uid x) (uid y) ys below h.1.0),
          dedup-IsStrict (y ∷ ys) h.1,
        )
  ]

  pub dedup-sort-IsStrict : (xs : List A) → IsStrict (dedup (sort xs))
  dedup-sort-IsStrict xs = dedup-IsStrict (sort xs) (sort-IsSorted xs)

  pub retain-IsStrict : (p : A → Bool) (xs : List A) → IsStrict xs → IsStrict (retain p xs)
  retain-IsStrict p [] h = tt
  retain-IsStrict p (x ∷ xs) h = elim (Bool-cases (p x)) [
    | inl kept ↦ rw kept (All-retain (λ y. uid x < uid y) p xs h.0, retain-IsStrict p xs h.1)
    | inr gone ↦ rw gone (retain-IsStrict p xs h.1)
  ]
