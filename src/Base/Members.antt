-- ===== src/Base/Members.antt =====
-- Predicates on the elements of a list, and what `retain` keeps of a conjunction: an element that
-- a smaller one implies may go, whatever else goes with it.
use marsh.Base.Tests.{Bool-cases}
use marsh.Base.Lists.{all, any, retain}
use Prim.Native.Nat.{ℕ, zero, suc, ◌<◌}
use mathlib.Core.Path.{◌≡◌, refl, sym, ◌∙◌}
use mathlib.Core.Logic.{◌⊎◌, inl, inr}
use mathlib.Core.Bool.{Bool, true, false, not, ◌&&◌}
use mathlib.Core.List.{List, [], ◌∷◌, ◌++◌}
use native.Mathlib.Omega.{arith}

abbrev pub All {ℓ κ} : {A : Type ℓ} → (A → Type κ) → List A → Type κ
All P [] = Unit
All P (x ∷ xs) = P x × All P xs

abbrev pub In : {A : Type 0} → A → List A → Type 0
In a [] = ⊥
In a (x ∷ xs) = (a ≡ x) ⊎ In a xs

module _ {A : Type 0} where
  pub any-In : (p : A → Bool) (xs : List A) → any p xs ≡ true → (x : A) × In x xs × (p x ≡ true)
  any-In p [] h = cc
  any-In p (x ∷ xs) h = elim (Bool-cases (p x)) [
    | inl yes_x ↦ (x, inl refl, yes_x)
    | inr no_x ↦ let (y, at, e) = any-In p xs (ground (arith, no_x)) in (y, inr at, e)
  ]

  pub In-any : (p : A → Bool) (x : A) (xs : List A) → In x xs → p x ≡ true → any p xs ≡ true
  In-any p x [] at e = elim at [ ]
  In-any p x (y ∷ ys) (inl same) e = rw (← same, e)
  In-any p x (y ∷ ys) (inr at) e = ground (arith, In-any p x ys at e)

  pub In-all : (p : A → Bool) (x : A) (xs : List A) → In x xs → all p xs ≡ true → p x ≡ true
  In-all p x [] at e = elim at [ ]
  In-all p x (y ∷ ys) (inl same) e = rw same (ground arith)
  In-all p x (y ∷ ys) (inr at) e = In-all p x ys at (ground arith)

  pub all-intro : (p : A → Bool) (xs : List A) → ((x : A) → In x xs → p x ≡ true) → all p xs ≡ true
  all-intro p [] f = refl
  all-intro p (x ∷ xs) f = rw (f x (inl refl), all-intro p xs (λ y at. f y (inr at)))

  pub any-not-all : (p : A → Bool) (xs : List A) → any p xs ≡ not (all (λ x. not (p x)) xs)
  any-not-all p [] = refl
  any-not-all p (x ∷ xs) = ground (arith, any-not-all p xs)

  pub all-append : (p : A → Bool) (xs ys : List A) → all p (xs ++ ys) ≡ all p xs && all p ys
  all-append p [] ys = refl
  all-append p (x ∷ xs) ys = ground (arith, all-append p xs ys)

  pub In-retain_self :
      (p : A → Bool) (x : A) (xs : List A) → In x xs → p x ≡ true → In x (retain p xs)
  In-retain_self p x [] at e = elim at [ ]
  In-retain_self p x (y ∷ ys) (inl same) e = rw (sym same, e) (inl refl)
  In-retain_self p x (y ∷ ys) (inr at) e = elim (Bool-cases (p y)) [
    | inl kept ↦ rw kept (inr (In-retain_self p x ys at e))
    | inr gone ↦ rw gone (In-retain_self p x ys at e)
  ]

  pub all-retain : (m p : A → Bool) (xs : List A) → all m xs ≡ true → all m (retain p xs) ≡ true
  all-retain m p [] h = refl
  all-retain m p (x ∷ xs) h = ground (arith, all-retain m p xs)

  module _ {κ} (P : A → Type κ) where
    pub All-append : (xs ys : List A) → All P xs → All P ys → All P (xs ++ ys)
    All-append [] ys h k = k
    All-append (x ∷ xs) ys h k = (h.0, All-append xs ys h.1 k)

    pub All-retain : (p : A → Bool) (xs : List A) → All P xs → All P (retain p xs)
    All-retain p [] h = tt
    All-retain p (x ∷ xs) h = elim (Bool-cases (p x)) [
      | inl kept ↦ rw kept (h.0, All-retain p xs h.1)
      | inr gone ↦ rw gone (All-retain p xs h.1)
    ]

    pub All-In : (x : A) (xs : List A) → All P xs → In x xs → P x
    All-In x [] h at = elim at [ ]
    All-In x (y ∷ ys) h (inl same) = rw same h.0
    All-In x (y ∷ ys) h (inr at) = All-In x ys h.1 at

    pub All-intro : (xs : List A) → ((x : A) → In x xs → P x) → All P xs
    All-intro [] f = tt
    All-intro (x ∷ xs) f = (f x (inl refl), All-intro xs (λ y at. f y (inr at)))

-- `gone` may remove an element only beside a smaller one that implies it.
module _ {A : Type 0} (m : A → Bool) (size : A → ℕ) (kept : A → Bool) (xs : List A) where
  abbrev Covered : Type 0
  Covered =
      (x : A)
      → In x xs
      → kept x ≡ false
      → (y : A) × In y xs × (size y < size x) × (m y ≡ true → m x ≡ true)

  implied :
      (n : ℕ) (x : A) → Covered → all m (retain kept xs) ≡ true → In x xs → size x < n → m x ≡ true
  implied zero x cover h at le = elim le [ ]
  implied (suc n) x cover h at le = elim (Bool-cases (kept x)) [
    | inl stays ↦ In-all m x (retain kept xs) (In-retain_self kept x xs at stays) h
    | inr goes ↦
        let (y, aty, smaller, implies) = cover x at goes in
        implies (implied n y cover h aty (omega arith))
  ]

  pub all-retain-covered : Covered → all m (retain kept xs) ≡ all m xs
  all-retain-covered cover = elim (Bool-cases (all m (retain kept xs))) [
    | inl h ↦ h ∙ sym (all-intro m xs (λ x at. implied (suc (size x)) x cover h at (omega arith)))
    | inr h ↦ elim (Bool-cases (all m xs)) [
      | inl g ↦ absurd (cc (all-retain m kept xs g))
      | inr g ↦ h ∙ sym g
    ]
  ]
