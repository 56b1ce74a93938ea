-- ===== src/Base/Equality.antt =====
-- Decidable equality as an interface: Rust's `PartialEq` with `DecidableEq`.
use Prim.Native.Nat.{ℕ}
use Prim.Native.String.{String}
use mathlib.Core.Path.{◌≡◌, refl}
use mathlib.Core.Logic.{◌↔◌}
use mathlib.Core.Bool.{Bool, true, false, ◌&&◌}
use mathlib.Core.List.{List, [], ◌∷◌}
use mathlib.Core.Option.{Option, none, some}
use native.Mathlib.Omega.{arith}
use text.Mathlib.Text.{◌==◌ as str_eq}
use text.Mathlib.TextEquality.{eq_iff}
use marsh.Base.Tests.{==_iff, ◌==◌ as nat_eq}

pub record DecidableEq {ℓ} (K : Type ℓ) : Type ℓ where
  pub is_same : K → K → Bool
  pub is_same_iff : (k j : K) → (is_same k j ≡ true) ↔ (k ≡ j)

infix 50 ◌=?◌
abbrev pub ◌=?◌ {ℓ} : {K : Type ℓ} ⦃same : DecidableEq K⦄ → K → K → Bool
◌=?◌ ⦃same⦄ k j = same.is_same k j

module _ {ℓ} {A : Type ℓ} ⦃e : DecidableEq A⦄ where
  pub =?_refl : (a : A) → (a =? a) ≡ true
  =?_refl a = (e.is_same_iff a a).1 refl

  pub =?_sym : (a b : A) → (a =? b) ≡ (b =? a)
  =?_sym a b = ground (arith, e.is_same_iff a b, e.is_same_iff b a)

  abbrev pub list_beq : List A → List A → Bool
  list_beq [] [] = true
  list_beq (x ∷ xs) (y ∷ ys) = (x =? y) && list_beq xs ys
  list_beq _ _ = false

  pub list_beq_iff : (xs ys : List A) → (list_beq xs ys ≡ true) ↔ (xs ≡ ys)
  list_beq_iff [] [] = ground arith
  list_beq_iff [] (y ∷ ys) = ground arith
  list_beq_iff (x ∷ xs) [] = ground arith
  list_beq_iff (x ∷ xs) (y ∷ ys) = ground (arith, e.is_same_iff x y, list_beq_iff xs ys)

  abbrev pub option_beq : Option A → Option A → Bool
  option_beq none none = true
  option_beq (some x) (some y) = x =? y
  option_beq _ _ = false

  pub option_beq_iff : (a b : Option A) → (option_beq a b ≡ true) ↔ (a ≡ b)
  option_beq_iff none none = ground arith
  option_beq_iff none (some y) = ground arith
  option_beq_iff (some x) none = ground arith
  option_beq_iff (some x) (some y) = ground (arith, e.is_same_iff x y)

instance abbrev pub list_has_eq {ℓ} : {A : Type ℓ} ⦃e : DecidableEq A⦄ → DecidableEq (List A)
list_has_eq = record { is_same = list_beq; is_same_iff = list_beq_iff }

instance abbrev pub option_has_eq {ℓ} : {A : Type ℓ} ⦃e : DecidableEq A⦄ → DecidableEq (Option A)
option_has_eq = record { is_same = option_beq; is_same_iff = option_beq_iff }

instance abbrev pub string_has_eq : DecidableEq String
string_has_eq = record { is_same = str_eq; is_same_iff = eq_iff }

instance abbrev pub nat_has_eq : DecidableEq ℕ
nat_has_eq = record { is_same = nat_eq; is_same_iff = ==_iff }
