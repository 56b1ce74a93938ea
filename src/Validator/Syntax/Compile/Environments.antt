-- ===== src/Validator/Syntax/Compile/Environments.antt =====
-- environment.rs: the variables of an environment, and those of the scope that it represents.
use marsh.Base.{
  ℕ, String, ◌≡◌, refl, sym, ◌∙◌, not, [], ◌∷◌, ◌++◌, Option, none, some, arith, ◌=?◌,
  string_has_eq, nat_has_eq, is_some_and, Bool-cases, inl, inr, if◌then◌else◌,
}
use marsh.Base.Results.{Result, err, ok}
use marsh.Validator.Source.{Component}
use marsh.Validator.Engine.{CompileError, Scope, same_component, is_declared, is_new}
use marsh.Validator.Syntax.Component.{Interner}
use marsh.Validator.Syntax.Environment.{VariableEnvironment, component_of}
use marsh.Validator.Syntax.Compile.Resolved.{same_symbol}

unfoldable pub component_in : String → Scope → Option Component
component_in x [] = none
component_in x ((y, c) ∷ s) = if y =? x then some c else component_in x s

pub is_declared-component :
    (x : String) (c : Component) (s : Scope)
    → is_declared x c s ≡ is_some_and (λ d. same_component d c) (component_in x s)
unfolding component_in
is_declared-component x c [] = refl
is_declared-component x c ((y, d) ∷ s) = ground (arith, is_declared-component x c s)

pub is_new-component :
    (x : String) (c : Component) (s : Scope)
    → is_new x c s ≡ not (is_some_and (λ d. not (same_component d c)) (component_in x s))
unfolding component_in
is_new-component x c [] = refl
is_new-component x c ((y, d) ∷ s) = ground (arith, is_new-component x c s)

abbrev pub or_else : Option Component → Option Component → Option Component
or_else none o = o
or_else (some c) o = some c

pub component_in-append :
    (x : String) (s t : Scope)
    → component_in x (s ++ t) ≡ or_else (component_in x s) (component_in x t)
unfolding component_in
component_in-append x [] t = refl
component_in-append x ((y, d) ∷ s) t = ground (arith, component_in-append x s t)

pub component_of-append :
    (x : ℕ) (s t : VariableEnvironment)
    → component_of x (s ++ t) ≡ or_else (component_of x s) (component_of x t)
unfolding component_of
component_of-append x [] t = refl
component_of-append x ((y, d) ∷ s) t = ground (arith, component_of-append x s t)

module _ (strings : Interner) where
  open strings use {intern}

  -- The environment has the variables of the scope, by their symbols.
  abbrev pub Represents : VariableEnvironment → Scope → Type 0
  Represents env s = (x : String) → component_of (intern x) env ≡ component_in x s

  -- Compilation goes on exactly where the scope does.
  abbrev pub Follows :
      {R : Type 0} → Result CompileError (R × VariableEnvironment) → Option Scope → Type 0
  Follows (ok (q, env)) (some s) = Represents env s
  Follows (err _) none = Unit
  Follows _ _ = ⊥

  pub other_variable :
      (x y : String) (c : Component) (s : Scope)
      → component_in y (s ++ (x, c) ∷ [])
        ≡ or_else (component_in y s) (if x =? y then some c else none)
  unfolding component_in
  other_variable x y c s = component_in-append y s ((x, c) ∷ [])

  pub declared-Represents :
      (env : VariableEnvironment) (s : Scope) (x : String) (c d : Component)
      → Represents env s
      → component_in x s ≡ some d
      → Represents env (s ++ (x, c) ∷ [])
  declared-Represents env s x c d r e y =
      r y ∙ sym (other_variable x y c s ∙ known (component_in y s) refl)
    where
      known :
          (o : Option Component)
          → component_in y s ≡ o
          → or_else o (if x =? y then some c else none) ≡ o
      known (some d') e' = refl
      known none e' = elim (Bool-cases (x =? y)) [
        | inl same ↦
            let here : x ≡ y = (string_has_eq.is_same_iff x y).0 same in
            let twice : component_in x s ≡ none = rw here e' in cc
        | inr other ↦ rw other refl
      ]

  pub new-Represents :
      (env : VariableEnvironment) (s : Scope) (x : String) (c : Component)
      → Represents env s
      → Represents (env ++ (intern x, c) ∷ []) (s ++ (x, c) ∷ [])
  unfolding component_of component_in
  new-Represents env s x c r y =
      component_of-append (intern y) env ((intern x, c) ∷ [])
      ∙ rw (r y, same_symbol strings x y) (sym (other_variable x y c s))
