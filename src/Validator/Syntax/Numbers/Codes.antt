-- ===== src/Validator/Syntax/Numbers/Codes.antt =====
-- Numbers for pairs, lists and the atoms of component.rs, from which those of nodes are made.
use marsh.Base.{
  ℕ, zero, suc, ◌+◌, ◌*◌, ◌<◌, ◌≡◌, ◌⊎◌, inl, inr, refl, ap, List, [], ◌∷◌, Option, none, some,
  arith,
}
use marsh.Validator.Source.{constant, variable, Comparison, eq, neq}
use marsh.Validator.Syntax.Component.{
  CompiledAtomPattern, principal_atom, action_atom, resource_atom, ResolvedAction,
  resolved_discriminant, resolved_message, of_resolved_discriminant, CompiledPattern,
}

-- Two numbers in one.
unfoldable pub pair : ℕ → ℕ → ℕ
pair a b = (a + b) * (a + b) + a

pub square-suc : (t : ℕ) → suc t * suc t ≡ t * t + t + t + 1
square-suc t = grind arith

pub square-lt : (s t : ℕ) → s < t → s * s + s < t * t
square-lt s zero h = absurd (omega arith)
square-lt s (suc t) h = elim (lt-cases s t h) [
  | inl e ↦ rw e (omega (arith, square-suc t))
  | inr lt ↦ omega (arith, square-suc t, square-lt s t lt)
]
  where
    lt-cases : (a b : ℕ) → a < suc b → (a ≡ b) ⊎ (a < b)
    lt-cases a b l = grind arith

pub pair-sum : (a b c d : ℕ) → pair a b ≡ pair c d → a + b ≡ c + d
unfolding pair
pair-sum a b c d h = elim (compare-cases (a + b) (c + d)) [
  | inl e ↦ e
  | inr (inl lt) ↦ absurd (omega (arith, square-lt (a + b) (c + d) lt))
  | inr (inr gt) ↦ absurd (omega (arith, square-lt (c + d) (a + b) gt))
]
  where
    compare-cases : (m n : ℕ) → (m ≡ n) ⊎ ((m < n) ⊎ (n < m))
    compare-cases m n = grind arith

pub pair-first : (a b c d : ℕ) → pair a b ≡ pair c d → a ≡ c
unfolding pair
pair-first a b c d h =
    let e = pair-sum a b c d h in
    let f : (a + b) * (a + b) ≡ (c + d) * (c + d) = ap (λ (n : ℕ). n * n) e in omega arith

pub pair-second : (a b c d : ℕ) → pair a b ≡ pair c d → b ≡ d
pair-second a b c d h = omega (arith, pair-sum a b c d h, pair-first a b c d h)

unfoldable pub code_list : List ℕ → ℕ
code_list [] = 0
code_list (x ∷ xs) = suc (pair x (code_list xs))

pub code_list-injective : (xs ys : List ℕ) → code_list xs ≡ code_list ys → xs ≡ ys
unfolding code_list
code_list-injective [] [] h = refl
code_list-injective [] (y ∷ ys) h = absurd (omega arith)
code_list-injective (x ∷ xs) [] h = absurd (omega arith)
code_list-injective (x ∷ xs) (y ∷ ys) h =
    let e : pair x (code_list xs) ≡ pair y (code_list ys) = omega arith in
    cc (
      pair-first x (code_list xs) y (code_list ys) e,
      code_list-injective xs ys (pair-second x (code_list xs) y (code_list ys) e),
    )

unfoldable pub code_option : Option ℕ → ℕ
code_option none = 0
code_option (some n) = suc n

pub code_option-injective : (a b : Option ℕ) → code_option a ≡ code_option b → a ≡ b
unfolding code_option
code_option-injective none none h = refl
code_option-injective none (some n) h = absurd (omega arith)
code_option-injective (some m) none h = absurd (omega arith)
code_option-injective (some m) (some n) h = ap some (omega arith)

unfoldable pub code_action : ResolvedAction → ℕ
code_action a = pair (resolved_discriminant a) (code_option (resolved_message a))

pub code_action-injective : (a b : ResolvedAction) → code_action a ≡ code_action b → a ≡ b
unfolding code_action
code_action-injective a b h =
    of_resolved_discriminant a b (pair-first _ _ _ _ h)
      (code_option-injective _ _ (pair-second _ _ _ _ h))

module _ {T : Type 0} (code : T → ℕ) where
  unfoldable pub code_pattern : CompiledPattern T → ℕ
  code_pattern (constant v) = pair 0 (code v)
  code_pattern (variable x) = pair 1 x

  module _ (injective : (s t : T) → code s ≡ code t → s ≡ t) where
    code_pattern-injective : (p q : CompiledPattern T) → code_pattern p ≡ code_pattern q → p ≡ q
    unfolding code_pattern
    code_pattern-injective (constant v) (constant w) h =
        ap constant (injective v w (pair-second _ _ _ _ h))
    code_pattern-injective (constant v) (variable y) h =
        absurd (omega (arith, pair-first _ _ _ _ h))
    code_pattern-injective (variable x) (constant w) h =
        absurd (omega (arith, pair-first _ _ _ _ h))
    code_pattern-injective (variable x) (variable y) h = ap variable (pair-second _ _ _ _ h)

unfoldable pub code_atom : CompiledAtomPattern → ℕ
code_atom (principal_atom p) = pair 0 (code_pattern (λ n. n) p)
code_atom (action_atom p) = pair 1 (code_pattern code_action p)
code_atom (resource_atom p) = pair 2 (code_pattern code_list p)

unfoldable pub atom_tag : CompiledAtomPattern → ℕ
atom_tag (principal_atom p) = 0
atom_tag (action_atom p) = 1
atom_tag (resource_atom p) = 2

pub code_atom-injective : (a b : CompiledAtomPattern) → code_atom a ≡ code_atom b → a ≡ b
unfolding code_atom
code_atom-injective (principal_atom p) (principal_atom q) h =
    ap principal_atom (code_pattern-injective (λ n. n) (λ s t e. e) p q (pair-second _ _ _ _ h))
code_atom-injective (action_atom p) (action_atom q) h =
    ap action_atom
      (code_pattern-injective code_action code_action-injective p q (pair-second _ _ _ _ h))
code_atom-injective (resource_atom p) (resource_atom q) h =
    ap resource_atom
      (code_pattern-injective code_list code_list-injective p q (pair-second _ _ _ _ h))
code_atom-injective (principal_atom p) b h = absurd (omega (arith, pair-first _ _ _ _ h))
code_atom-injective (action_atom p) b h = absurd (omega (arith, pair-first _ _ _ _ h))
code_atom-injective (resource_atom p) b h = absurd (omega (arith, pair-first _ _ _ _ h))

unfoldable pub code_comparison : Comparison → ℕ
code_comparison eq = 0
code_comparison neq = 1

pub code_comparison-injective : (c d : Comparison) → code_comparison c ≡ code_comparison d → c ≡ d
unfolding code_comparison
code_comparison-injective eq eq h = refl
code_comparison-injective neq neq h = refl
code_comparison-injective c d h = absurd (omega arith)
