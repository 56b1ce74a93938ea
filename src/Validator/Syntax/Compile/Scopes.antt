-- ===== src/Validator/Syntax/Compile/Scopes.antt =====
-- Which rules rust-validator/src/syntax/compile.rs accepts.
use marsh.Base.{
  String, ◌≡◌, refl, ◌∙◌, Bool, false, not, [], ◌∷◌, ◌++◌, Option, none, some, string_has_eq,
  nat_has_eq, is_some_and, Bool-cases, inl, inr, if◌then◌else◌,
}
use marsh.Base.Results.{Result, err, ok, ◌>>=◌, is_ok, is_ok-map, is_ok-map2}
use marsh.Validator.Source.{
  ComponentPattern, constant, variable, Head, Component, AtomPattern, principal_atom, action_atom,
  resource_atom, TestExpr, TestExprs, true_test, false_test, atom, and, or, RegexExpr, RegexExprs,
  empty, all, epsilon, test, union, concat, star, intersect, complement, Rule,
}
use marsh.Validator.Engine.{
  CompileError, Scope, same_component, declare, in_scope, scope_of, atom_in_scope, test_in_scope,
  tests_in_scope, tail_in_scope, tails_in_scope, well_scoped,
}
use marsh.Validator.Syntax.Component.{
  Interner, CompiledPattern, resolve_principal, resolve_action, resolve_resource,
}
use marsh.Validator.Syntax.Transition.{TransitionNumbering}
use marsh.Validator.Syntax.Environment.{VariableEnvironment, bind, bind_as, resolve, resolve_as}
use marsh.Validator.Syntax.Compile.{
  name_conflict, name_resolve_error, compile_head_pattern, compile_pattern, compile_head,
  compile_atom_pattern, compile_test, compile_tests, compile_regex, compile_regexes, compile_rule,
}
use marsh.Validator.Syntax.Compile.Environments.{
  component_in, is_declared-component, is_new-component, Represents, Follows, declared-Represents,
  new-Represents,
}

module _ (strings : Interner) where
  open strings use {intern}

  module _ {T R : Type 0} (resolve_value : T → R) (c : Component) where
    abbrev named : String → CompiledPattern R
    named x = variable (intern x)

    bound_as :
        (x : String) (env : VariableEnvironment) (s : Scope) (o : Option Component)
        → Represents strings env s
        → component_in x s ≡ o
        → Follows strings
            (name_conflict x (bind_as env (intern x) c o) >>= λ env'. ok (named x, env'))
            (if not (is_some_and (λ d. not (same_component d c)) o)
              then some (s ++ (x, c) ∷ [])
              else none)
    bound_as x env s none r e = new-Represents strings env s x c r
    bound_as x env s (some d) r e = elim (Bool-cases (same_component d c)) [
      | inl same ↦ rw same (declared-Represents strings env s x c d r e)
      | inr conflict ↦ rw conflict tt
    ]

    resolved_as :
        (x : String) (o : Option Component)
        → is_ok (name_resolve_error x (resolve_as c o) >>= λ _. ok (named x))
          ≡ is_some_and (λ d. same_component d c) o
    resolved_as x none = refl
    resolved_as x (some d) = elim (Bool-cases (same_component d c)) [
      | inl same ↦ rw same
      | inr conflict ↦ rw conflict
    ]

    compile_head_pattern-Follows :
        (p : ComponentPattern T String) (env : VariableEnvironment) (s : Scope)
        → Represents strings env s
        → Follows strings (compile_head_pattern strings resolve_value c p env) (declare p c s)
    unfolding compile_head_pattern bind
    compile_head_pattern-Follows (constant v) env s r = r
    compile_head_pattern-Follows (variable x) env s r =
        rw (is_new-component x c s, r x) (bound_as x env s (component_in x s) r refl)

    is_ok-compile_pattern :
        (env : VariableEnvironment) (s : Scope) (p : ComponentPattern T String)
        → Represents strings env s
        → is_ok (compile_pattern strings resolve_value c env p) ≡ in_scope p c s
    unfolding compile_pattern resolve
    is_ok-compile_pattern env s (constant v) r = refl
    is_ok-compile_pattern env s (variable x) r =
        rw (is_declared-component x c s, r x) (resolved_as x (component_in x s))

  is_ok-compile_atom_pattern :
      (env : VariableEnvironment) (s : Scope) (p : AtomPattern)
      → Represents strings env s
      → is_ok (compile_atom_pattern strings env p) ≡ atom_in_scope p s
  unfolding compile_atom_pattern
  is_ok-compile_atom_pattern env s (principal_atom p) r =
      is_ok-map _ _
      ∙ is_ok-compile_pattern (resolve_principal strings) Component.principal env s p r
  is_ok-compile_atom_pattern env s (action_atom p) r =
      is_ok-map _ _ ∙ is_ok-compile_pattern (resolve_action strings) Component.action env s p r
  is_ok-compile_atom_pattern env s (resource_atom p) r =
      is_ok-map _ _ ∙ is_ok-compile_pattern (resolve_resource strings) Component.resource env s p r

  module _ (ns : TransitionNumbering) (env : VariableEnvironment) (s : Scope)
      (r : Represents strings env s) where
    mutual
      unfolding compile_test

      is_ok-compile_test :
          (t : TestExpr) → is_ok (compile_test strings ns env t) ≡ test_in_scope t s
      is_ok-compile_test true_test = refl
      is_ok-compile_test false_test = refl
      is_ok-compile_test (atom c p) =
          is_ok-map (compile_atom_pattern strings env p) _ ∙ is_ok-compile_atom_pattern env s p r
      is_ok-compile_test (and ts) =
          is_ok-map (compile_tests strings ns env ts) _ ∙ is_ok-compile_tests ts
      is_ok-compile_test (or ts) =
          is_ok-map (compile_tests strings ns env ts) _ ∙ is_ok-compile_tests ts

      is_ok-compile_tests :
          (ts : TestExprs) → is_ok (compile_tests strings ns env ts) ≡ tests_in_scope ts s
      is_ok-compile_tests TestExprs.nil = refl
      is_ok-compile_tests (TestExprs.cons t ts) =
          is_ok-map2 (compile_test strings ns env t) (compile_tests strings ns env ts)
            (λ m ms. m ∷ ms)
          ∙ rw (is_ok-compile_test t, is_ok-compile_tests ts)

    mutual
      unfolding compile_regex

      is_ok-compile_regex :
          (t : RegexExpr) → is_ok (compile_regex strings ns env t) ≡ tail_in_scope t s
      is_ok-compile_regex empty = refl
      is_ok-compile_regex all = refl
      is_ok-compile_regex epsilon = refl
      is_ok-compile_regex (test t) =
          is_ok-map (compile_test strings ns env t) _ ∙ is_ok-compile_test t
      is_ok-compile_regex (union ts) =
          is_ok-map (compile_regexes strings ns env ts) _ ∙ is_ok-compile_regexes ts
      is_ok-compile_regex (concat ts) =
          is_ok-map (compile_regexes strings ns env ts) _ ∙ is_ok-compile_regexes ts
      is_ok-compile_regex (star t) =
          is_ok-map (compile_regex strings ns env t) _ ∙ is_ok-compile_regex t
      is_ok-compile_regex (intersect ts) =
          is_ok-map (compile_regexes strings ns env ts) _ ∙ is_ok-compile_regexes ts
      is_ok-compile_regex (complement t) =
          is_ok-map (compile_regex strings ns env t) _ ∙ is_ok-compile_regex t

      is_ok-compile_regexes :
          (ts : RegexExprs) → is_ok (compile_regexes strings ns env ts) ≡ tails_in_scope ts s
      is_ok-compile_regexes RegexExprs.nil = refl
      is_ok-compile_regexes (RegexExprs.cons t ts) =
          is_ok-map2 (compile_regex strings ns env t) (compile_regexes strings ns env ts)
            (λ m ms. m ∷ ms)
          ∙ rw (is_ok-compile_regex t, is_ok-compile_regexes ts)

  module _ {Q R : Type 0} where
    bind-Follows :
        (m : Result CompileError (Q × VariableEnvironment)) (o : Option Scope)
        → Follows strings m o
        → (f : Q × VariableEnvironment → Result CompileError (R × VariableEnvironment))
          (g : Scope → Option Scope)
        → ((q : Q) (env : VariableEnvironment) (s : Scope)
            → Represents strings env s
            → Follows strings (f (q, env)) (g s))
        → Follows strings (m >>= f) (elim o [ none ↦ none | some s ↦ g s ])
    bind-Follows (ok (q, env)) (some s) r f g h = h q env s r
    bind-Follows (ok (q, env)) none r f g h = absurd r
    bind-Follows (err x) (some s) r f g h = absurd r
    bind-Follows (err x) none r f g h = tt

    map-Follows :
        (m : Result CompileError (Q × VariableEnvironment)) (o : Option Scope) (f : Q → R)
        → Follows strings m o
        → Follows strings (m >>= λ (q, env). ok (f q, env)) o
    map-Follows (ok (q, env)) (some s) f r = r
    map-Follows (ok (q, env)) none f r = absurd r
    map-Follows (err x) (some s) f r = absurd r
    map-Follows (err x) none f r = tt

    is_ok-Follows :
        (m : Result CompileError (Q × VariableEnvironment)) (o : Option Scope)
        → Follows strings m o
        → (f : Q × VariableEnvironment → Result CompileError R) (g : Scope → Bool)
        → ((q : Q) (env : VariableEnvironment) (s : Scope)
            → Represents strings env s
            → is_ok (f (q, env)) ≡ g s)
        → is_ok (m >>= f) ≡ elim o [ none ↦ false | some s ↦ g s ]
    is_ok-Follows (ok (q, env)) (some s) r f g h = h q env s r
    is_ok-Follows (ok (q, env)) none r f g h = absurd r
    is_ok-Follows (err x) (some s) r f g h = absurd r
    is_ok-Follows (err x) none r f g h = refl

  compile_head-Follows : (head : Head) → Follows strings (compile_head strings head) (scope_of head)
  unfolding compile_head component_in
  compile_head-Follows head =
      bind-Follows _ _
        (compile_head_pattern-Follows (resolve_principal strings) Component.principal head.principal
          [] [] (λ x. refl))
        _ _
        (λ p env s r.
          bind-Follows _ _
            (compile_head_pattern-Follows (resolve_action strings) Component.action head.action env
              s r)
            _ _
            (λ a env' s' r'. map-Follows _ _ _ (
              compile_head_pattern-Follows (resolve_resource strings) Component.resource
                head.resource env' s' r')))

  -- A rule compiles exactly when its head gives no variable two components and its tail uses the
  -- head's variables only, each in its own component.
  pub is_ok-compile_rule :
      (ns : TransitionNumbering) (rule : Rule)
      → is_ok (compile_rule strings ns rule) ≡ well_scoped rule
  unfolding compile_rule
  is_ok-compile_rule ns rule =
      is_ok-Follows (compile_head strings rule.head) (scope_of rule.head)
        (compile_head-Follows rule.head) _ (tail_in_scope rule.tail)
        (λ head env s r.
          is_ok-map (compile_regex strings ns env rule.tail) _
          ∙ is_ok-compile_regex ns env s r rule.tail)
