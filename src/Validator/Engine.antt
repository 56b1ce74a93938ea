-- ===== src/Validator/Engine.antt =====
-- What the policies ask of compiled rules (rust-validator/src/syntax): a rule whose variables are
-- well scoped compiles, and a compiled rule answers as the language of its tail says.
use marsh.Base.{
  String, ◌≡◌, Bool, true, false, ◌&&◌, List, [], ◌∷◌, ◌++◌, Option, none, some, ◌=?◌,
  string_has_eq, if◌then◌else◌,
}
use marsh.Base.Results.{Result, ok}
use marsh.Validator.Model.{Event}
use marsh.Validator.Source.{
  ComponentPattern, constant, variable, Head, Component, AtomPattern, principal_atom, action_atom,
  resource_atom, TestExpr, TestExprs, true_test, false_test, atom, and, or, RegexExpr, RegexExprs,
  empty, all, epsilon, test, union, concat, star, intersect, complement, Rule,
}
use marsh.Validator.Language.{tail_accepts}

pub data CompileError : Type 0 where
  variable_component_conflict : String → CompileError
  unbound_variable : String → CompileError

-- The variables that a head declares, each with the one component it stands in.
abbrev pub Scope : Type 0
Scope = List (String × Component)

abbrev pub same_component : Component → Component → Bool
same_component Component.principal Component.principal = true
same_component Component.action Component.action = true
same_component Component.resource Component.resource = true
same_component _ _ = false

abbrev pub is_declared : String → Component → Scope → Bool
is_declared x c [] = false
is_declared x c ((y, d) ∷ s) = if y =? x then same_component d c else is_declared x c s

abbrev pub is_new : String → Component → Scope → Bool
is_new x c [] = true
is_new x c ((y, d) ∷ s) = if y =? x then same_component d c else is_new x c s

abbrev pub declare : {T : Type 0} → ComponentPattern T String → Component → Scope → Option Scope
declare (constant _) c s = some s
declare (variable x) c s = if is_new x c s then some (s ++ (x, c) ∷ []) else none

abbrev pub in_scope : {T : Type 0} → ComponentPattern T String → Component → Scope → Bool
in_scope (constant _) c s = true
in_scope (variable x) c s = is_declared x c s

abbrev pub scope_of : Head → Option Scope
scope_of head = elim (declare head.principal Component.principal []) [
  | none ↦ none
  | some p ↦ elim (declare head.action Component.action p) [
    | none ↦ none
    | some a ↦ declare head.resource Component.resource a
  ]
]

abbrev pub atom_in_scope : AtomPattern → Scope → Bool
atom_in_scope (principal_atom p) s = in_scope p Component.principal s
atom_in_scope (action_atom p) s = in_scope p Component.action s
atom_in_scope (resource_atom p) s = in_scope p Component.resource s

abbrev mutual
  pub test_in_scope : TestExpr → Scope → Bool
  test_in_scope true_test s = true
  test_in_scope false_test s = true
  test_in_scope (atom c p) s = atom_in_scope p s
  test_in_scope (and ts) s = tests_in_scope ts s
  test_in_scope (or ts) s = tests_in_scope ts s

  pub tests_in_scope : TestExprs → Scope → Bool
  tests_in_scope TestExprs.nil s = true
  tests_in_scope (TestExprs.cons t ts) s = test_in_scope t s && tests_in_scope ts s

abbrev mutual
  pub tail_in_scope : RegexExpr → Scope → Bool
  tail_in_scope empty s = true
  tail_in_scope all s = true
  tail_in_scope epsilon s = true
  tail_in_scope (test t) s = test_in_scope t s
  tail_in_scope (union rs) s = tails_in_scope rs s
  tail_in_scope (concat rs) s = tails_in_scope rs s
  tail_in_scope (star r) s = tail_in_scope r s
  tail_in_scope (intersect rs) s = tails_in_scope rs s
  tail_in_scope (complement r) s = tail_in_scope r s

  pub tails_in_scope : RegexExprs → Scope → Bool
  tails_in_scope RegexExprs.nil s = true
  tails_in_scope (RegexExprs.cons r rs) s = tail_in_scope r s && tails_in_scope rs s

-- The head gives no variable two components, and the tail uses the head's variables only, each in
-- its own component.
abbrev pub well_scoped : Rule → Bool
well_scoped rule = elim (scope_of rule.head) [ none ↦ false | some s ↦ tail_in_scope rule.tail s ]

-- `R` is the type of compiled rules.
pub record Engine (R : Type 0) : Type 0 where
  pub compile_rule : Rule → Result CompileError R
  pub accepts_history : R → List Event → Event → Option Bool
  pub compile_total : (rule : Rule) → well_scoped rule ≡ true → (r : R) × (compile_rule rule ≡ ok r)
  pub accepts_history_lem :
      (rule : Rule) (r : R) (h : List Event) (candidate : Event)
      → compile_rule rule ≡ ok r
      → accepts_history r h candidate ≡ tail_accepts rule h candidate
