-- ===== src/Validator/Syntax/Environment.antt =====
-- rust-validator/src/syntax/environment.rs: the variables of a rule head with their components,
-- and the match of a compiled head against a candidate.
use marsh.Base.{
  List, [], ◌∷◌, ◌++◌, Option, none, some, DecidableEq, ◌=?◌, nat_has_eq, list_has_eq,
  if◌then◌else◌,
}
use marsh.Base.Results.{Result, err, ok}
use marsh.Base.Options.{◌>>=◌}
use marsh.Validator.Model.{Event}
use marsh.Validator.Source.{constant, variable, Component}
use marsh.Validator.Engine.{same_component}
use marsh.Validator.Syntax.Component.{
  Symbol, Interner, CompiledPattern, ResolvedAction, ResolvedResource, ResolvedValue,
  principal_value, action_value, resource_value, resolved_action_has_eq, CandidateSubstitution,
  singleton, merge, resolve_principal, resolve_action, resolve_resource,
}

-- The partial substitution of one coordinate, whose value is resolved and injected.
unfoldable pub match_head_pattern :
    {R : Type 0} ⦃e : DecidableEq R⦄
    → (R → ResolvedValue)
    → CompiledPattern R
    → R
    → Option CandidateSubstitution
match_head_pattern inject (constant expected) actual = if expected =? actual then some [] else none
match_head_pattern inject (variable x) actual = some (singleton x (inject actual))

pub record CompiledHead : Type 0 where
  pub principal : CompiledPattern Symbol
  pub action : CompiledPattern ResolvedAction
  pub resource : CompiledPattern ResolvedResource

unfoldable pub match_candidate : Interner → CompiledHead → Event → Option CandidateSubstitution
unfolding match_head_pattern merge resolve_action resolve_resource
match_candidate strings head e = do
  p ← match_head_pattern principal_value head.principal (resolve_principal strings e.principal)
  a ← match_head_pattern action_value head.action (resolve_action strings e.action)
  pa ← merge p a
  r ← match_head_pattern resource_value head.resource (resolve_resource strings e.resource)
  merge pa r

pub data ResolveError : Type 0 where
  unbound component_conflict : ResolveError

abbrev pub VariableEnvironment : Type 0
VariableEnvironment = List (Symbol × Component)

unfoldable pub component_of : Symbol → VariableEnvironment → Option Component
component_of x [] = none
component_of x ((y, c) ∷ env) = if y =? x then some c else component_of x env

abbrev pub bind_as :
    VariableEnvironment
    → Symbol
    → Component
    → Option Component
    → Result Component VariableEnvironment
bind_as env x c (some bound) = if same_component bound c then ok env else err bound
bind_as env x c none = ok (env ++ (x, c) ∷ [])

-- The new environment, or the component that the variable has already.
unfoldable pub bind :
    VariableEnvironment → Symbol → Component → Result Component VariableEnvironment
unfolding component_of
bind env x c = bind_as env x c (component_of x env)

abbrev pub resolve_as : Component → Option Component → Result ResolveError (Unit {0})
resolve_as c (some bound) = if same_component bound c then ok tt else err component_conflict
resolve_as c none = err unbound

unfoldable pub resolve : VariableEnvironment → Symbol → Component → Result ResolveError (Unit {0})
unfolding component_of
resolve env x c = resolve_as c (component_of x env)
