-- ===== src/Base/Results.antt =====
-- Rust's `Result`, with what its `?` does as the bind of a `do` block.
use mathlib.Core.Path.{◌≡◌, refl}
use mathlib.Core.Bool.{Bool, true, false, ◌&&◌}
use mathlib.Core.Logic.{◌⊎◌, inl, inr}

pub data Result {ℓ} (Failure Value : Type ℓ) : Type ℓ where
  err : Failure → Result Failure Value
  ok : Value → Result Failure Value

module _ {ℓ} {Failure Value : Type ℓ} where
  infixl 5 ◌>>=◌
  abbrev pub ◌>>=◌ :
      {Next : Type ℓ} → Result Failure Value → (Value → Result Failure Next) → Result Failure Next
  err failure >>= next = err failure
  ok value >>= next = next value

  -- A chain that succeeds had its first step succeed.
  pub >>=-eq-ok :
      {Next : Type ℓ} (first : Result Failure Value) (next : Value → Result Failure Next)
      {result : Next}
      → (first >>= next) ≡ ok result
      → (value : Value) × (first ≡ ok value) × (next value ≡ ok result)
  >>=-eq-ok (err failure) next e = cc
  >>=-eq-ok (ok value) next e = (value, refl, e)

  -- A step that maps its value, and two steps that combine theirs.
  pub map-eq-ok :
      {Next : Type ℓ} (first : Result Failure Value) (f : Value → Next) {result : Next}
      → (first >>= λ value. ok (f value)) ≡ ok result
      → (value : Value) × (first ≡ ok value) × (f value ≡ result)
  map-eq-ok (err failure) f e = cc
  map-eq-ok (ok value) f e = (value, refl, cc)

  pub >>=-ok : (m : Result Failure Value) → (m >>= λ value. ok value) ≡ m
  >>=-ok (err failure) = refl
  >>=-ok (ok value) = refl

  pub Result-cases :
      (m : Result Failure Value)
      → ((value : Value) × (m ≡ ok value)) ⊎ ((failure : Failure) × (m ≡ err failure))
  Result-cases (err failure) = inr (failure, refl)
  Result-cases (ok value) = inl (value, refl)

pub map2-eq-ok {ℓ} :
    {Failure Value Other Next : Type ℓ} (first : Result Failure Value)
    (second : Result Failure Other) (f : Value → Other → Next) {result : Next}
    → (first >>= λ value. second >>= λ other. ok (f value other)) ≡ ok result
    → (value : Value) × (other : Other) × (first ≡ ok value)
      × (second ≡ ok other)
      × (f value other ≡ result)
map2-eq-ok (err failure) second f e = cc
map2-eq-ok (ok value) (err failure) f e = cc
map2-eq-ok (ok value) (ok other) f e = (value, other, refl, refl, cc)

abbrev pub is_ok {ℓ} : {Failure Value : Type ℓ} → Result Failure Value → Bool
is_ok (err _) = false
is_ok (ok _) = true

pub is_ok-map {ℓ} :
    {Failure Value Next : Type ℓ} (m : Result Failure Value) (f : Value → Next)
    → is_ok (m >>= λ value. ok (f value)) ≡ is_ok m
is_ok-map (err failure) f = refl
is_ok-map (ok value) f = refl

pub is_ok-map2 {ℓ} :
    {Failure Value Other Next : Type ℓ} (m : Result Failure Value) (n : Result Failure Other)
    (f : Value → Other → Next)
    → is_ok (m >>= λ value. n >>= λ other. ok (f value other)) ≡ is_ok m && is_ok n
is_ok-map2 (err failure) n f = refl
is_ok-map2 (ok value) n f = is_ok-map n (f value)
