-- ===== src/Base/Subsets.antt =====
-- A strictly ordered list whose elements are all in another weighs less, unless the two are equal.
use marsh.Base.Tests.{◌==◌}
use marsh.Base.Lists.{all, any}
use marsh.Base.Members.{All, In, All-In, any-In}
use marsh.Base.Canonical.{Above, IsStrict, sort, dedup, insert_sorted}
use Prim.Native.Nat.{ℕ, ◌<◌, ◌≤◌, ◌+◌}
use mathlib.Core.Path.{◌≡◌, refl, ap, ◌∙◌}
use mathlib.Core.Logic.{◌⊎◌, inl, inr}
use mathlib.Core.Bool.{Bool, true, ◌&&◌}
use mathlib.Core.List.{List, [], ◌∷◌}
use native.Mathlib.Omega.{arith}

module _ {A : Type 0} (uid : A → ℕ) (weight : A → ℕ) where
  abbrev pub total : List A → ℕ
  total [] = 0
  total (x ∷ xs) = weight x + total xs

  pub In-le-total : (x : A) (xs : List A) → In x xs → weight x ≤ total xs
  In-le-total x [] at = elim at [ ]
  In-le-total x (y ∷ ys) (inl same) = omega (arith, ap weight same)
  In-le-total x (y ∷ ys) (inr at) = omega (arith, In-le-total x ys at)

  -- What lies above the head of a list is in its tail.
  drop_head :
      (y : A) (ys xs : List A)
      → Above uid (uid y) xs
      → All (λ x. In x (y ∷ ys)) xs
      → All (λ x. In x ys) xs
  drop_head y ys [] up at = tt
  drop_head y ys (x ∷ xs) up at = (later at.0, drop_head y ys xs up.1 at.1)
    where
      later : In x (y ∷ ys) → In x ys
      later (inl same) = absurd (omega (arith, ap uid same, up.0))
      later (inr in_tail) = in_tail

  Above-trans : (j k : ℕ) (xs : List A) → j < k → Above uid k xs → Above uid j xs
  Above-trans j k [] lt h = tt
  Above-trans j k (x ∷ xs) lt h = (omega (arith, h.0), Above-trans j k xs lt h.1)

  module _ (positive : (x : A) → 0 < weight x) where
    pub subset-total :
        (ys xs : List A)
        → IsStrict uid ys
        → IsStrict uid xs
        → All (λ x. In x ys) xs
        → (xs ≡ ys) ⊎ (total xs < total ys)
    subset-total [] [] sy sx at = inl refl
    subset-total [] (x ∷ xs) sy sx at = elim at.0 [ ]
    subset-total (y ∷ ys) [] sy sx at = inr (omega (arith, positive y))
    subset-total (y ∷ ys) (x ∷ xs) sy sx at =
        go at.0 (λ up. subset-total ys xs sy.1 sx.1 (drop_head y ys xs up at.1))
          (λ up. subset-total ys (x ∷ xs) sy.1 sx (drop_head y ys (x ∷ xs) up at))
      where
        go :
            In x (y ∷ ys)
            → (Above uid (uid y) xs → (xs ≡ ys) ⊎ (total xs < total ys))
            → (Above uid (uid y) (x ∷ xs) → ((x ∷ xs) ≡ ys) ⊎ (total (x ∷ xs) < total ys))
            → ((x ∷ xs) ≡ (y ∷ ys)) ⊎ (total (x ∷ xs) < total (y ∷ ys))
        go (inl same) tails whole = elim (tails (rw (← same) sx.0)) [
          | inl e ↦ inl (cc)
          | inr lt ↦ inr (omega (arith, ap weight same))
        ]
        go (inr in_tail) tails whole =
            let above : uid y < uid x = All-In (λ z. uid y < uid z) x ys sy.0 in_tail in
            elim (whole (above, Above-trans (uid y) (uid x) xs above sx.0)) [
              | inl e ↦ inr (omega (arith, ap total e, positive y))
              | inr lt ↦ inr (omega (arith, positive y))
            ]

module _ {A : Type 0} (uid : A → ℕ) (injective : (x y : A) → uid x ≡ uid y → x ≡ y) where
  pub any-uid : (x : A) (xs : List A) → any (λ y. uid x == uid y) xs ≡ true → In x xs
  any-uid x xs h =
      let (y, at, e) = any-In (λ y. uid x == uid y) xs h in
      rw (injective x y (ground (arith, e))) at

  module _ (p : A → Bool) where
    all-insert_sorted : (x : A) (xs : List A) → all p (insert_sorted uid x xs) ≡ p x && all p xs
    unfolding insert_sorted
    all-insert_sorted x [] = refl
    all-insert_sorted x (y ∷ ys) = ground (arith, all-insert_sorted x ys)

    all-sort : (xs : List A) → all p (sort uid xs) ≡ all p xs
    unfolding sort
    all-sort [] = refl
    all-sort (x ∷ xs) = all-insert_sorted x (sort uid xs) ∙ ap (λ b. p x && b) (all-sort xs)

    all-dedup : (xs : List A) → all p (dedup uid xs) ≡ all p xs
    unfolding dedup
    all-dedup [] = refl
    all-dedup (x ∷ []) = refl
    all-dedup (x ∷ y ∷ ys) =
        ground (arith, all-dedup (y ∷ ys), λ (e : uid x ≡ uid y). ap p (injective x y e))

    pub all-dedup-sort : (xs : List A) → all p (dedup uid (sort uid xs)) ≡ all p xs
    all-dedup-sort xs = all-dedup (sort uid xs) ∙ all-sort xs
