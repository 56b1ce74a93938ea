-- ===== src/Base/Maps.antt =====
-- Hash maps, as association lists with one entry a key.
use mathlib.Core.Path.{◌≡◌, refl}
use mathlib.Core.Bool.{true}
use mathlib.Core.List.{List, [], ◌∷◌}
use mathlib.Core.Option.{Option, none, some}
use native.Mathlib.Omega.{arith}
use marsh.Base.Tests.{if◌then◌else◌}
use marsh.Base.Equality.{DecidableEq, ◌=?◌}

abbrev pub Map {ℓ} : Type ℓ → Type ℓ → Type ℓ
Map K V = List (K × V)

=?_left {ℓ} : {K : Type ℓ} ⦃e : DecidableEq K⦄ (a b c : K) → (a =? b) ≡ true → (a =? c) ≡ (b =? c)
=?_left ⦃e⦄ a b c h = rw ((e.is_same_iff a b).0 h) refl

=?_right {ℓ} : {K : Type ℓ} ⦃e : DecidableEq K⦄ (a b c : K) → (b =? c) ≡ true → (a =? b) ≡ (a =? c)
=?_right ⦃e⦄ a b c h = rw ((e.is_same_iff b c).0 h) refl

module _ {ℓ} {K V : Type ℓ} ⦃e : DecidableEq K⦄ where
  abbrev pub get : Map K V → K → Option V
  get [] k = none
  get ((k', v) ∷ m) k = if k' =? k then some v else get m k

  abbrev pub delete : Map K V → K → Map K V
  delete [] k = []
  delete ((k', v) ∷ m) k = if k' =? k then delete m k else (k', v) ∷ delete m k

  abbrev pub insert : Map K V → K → V → Map K V
  insert m k v = (k, v) ∷ delete m k

  pub get-delete : (m : Map K V) (k j : K) → get (delete m k) j ≡ (if k =? j then none else get m j)
  get-delete [] k j = ground arith
  get-delete ((i, v) ∷ m) k j = ground (arith, get-delete m k j, =?_left i k j, =?_right i k j)

  pub get-insert :
      (m : Map K V) (k j : K) (v : V) → get (insert m k v) j ≡ (if k =? j then some v else get m j)
  get-insert m k j v = ground (arith, get-delete m k j)
