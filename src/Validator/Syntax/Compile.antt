-- ===== src/Validator/Syntax/Compile.antt =====
-- rust-validator/src/syntax/compile.rs: source rules become canonical nodes, and a compiled rule
-- answers for a history and a candidate.
pub mod Resolved
pub mod Values
pub mod Translated
pub mod Sound
pub mod Environments
pub mod Scopes
pub mod Answers
pub mod Filled
use marsh.Base.{String, Bool, true, false, List, [], ◌∷◌, Option, none, some}
use marsh.Base.Options.{◌>>=◌ as ◌>?=◌}
use marsh.Base.Results.{Result, err, ok, ◌>>=◌}
use marsh.Validator.Model.{Principal, Action, Resource, Event}
use marsh.Validator.Source.{
  ComponentPattern, constant, variable, Head, Component, AtomPattern, principal_atom, action_atom,
  resource_atom, TestExpr, TestExprs, true_test, false_test, atom, and, or, RegexExpr, RegexExprs,
  empty, all, epsilon, test, union, concat, star, intersect, complement, RuleMode, Rule,
}
use marsh.Validator.Engine.{CompileError, variable_component_conflict, unbound_variable}
use marsh.Validator.Syntax.Component.{
  Interner, CompiledPattern, CompiledAtomPattern, principal_atom as compiled_principal,
  action_atom as compiled_action, resource_atom as compiled_resource, resolve_principal,
  resolve_action, resolve_resource, atom_matches,
}
use marsh.Validator.Syntax.Node.{
  TestNode, true_node, false_node, atom_node, RegexNode, empty_node, all_node, epsilon_node,
}
use marsh.Validator.Syntax.Normalize.{test_and, test_or}
use marsh.Validator.Syntax.Regexes.{
  regex_test, regex_union, regex_concat, regex_star, regex_intersect, regex_not,
}
use marsh.Validator.Syntax.Transition.{TransitionNode, TransitionNumbering}
use marsh.Validator.Syntax.Symbolic.Precompile.{Tables, table_at, precompile}
use marsh.Validator.Syntax.Symbolic.Replay.{replay_history}
use marsh.Validator.Syntax.Environment.{
  CompiledHead, VariableEnvironment, ResolveError, unbound, component_conflict, bind, resolve,
  match_candidate,
}

pub record RuntimeRule : Type 0 where
  pub mode : RuleMode
  pub head : CompiledHead
  pub tail : RegexNode
  pub tables : Tables

-- The two errors of a variable carry its source name.
abbrev name_conflict : {A B : Type 0} → String → Result A B → Result CompileError B
name_conflict x (ok v) = ok v
name_conflict x (err _) = err (variable_component_conflict x)

abbrev name_resolve_error : {B : Type 0} → String → Result ResolveError B → Result CompileError B
name_resolve_error x (ok v) = ok v
name_resolve_error x (err unbound) = err (unbound_variable x)
name_resolve_error x (err component_conflict) = err (variable_component_conflict x)

module _ (strings : Interner) where
  module _ {T R : Type 0} (resolve_value : T → R) (c : Component) where
    unfoldable pub compile_head_pattern :
        ComponentPattern T String
        → VariableEnvironment
        → Result CompileError (CompiledPattern R × VariableEnvironment)
    unfolding bind
    compile_head_pattern (constant v) env = ok (constant (resolve_value v), env)
    compile_head_pattern (variable x) env = do
      env' ← name_conflict x (bind env (strings.intern x) c)
      ok (variable (strings.intern x), env')

    unfoldable pub compile_pattern :
        VariableEnvironment → ComponentPattern T String → Result CompileError (CompiledPattern R)
    unfolding resolve
    compile_pattern env (constant v) = ok (constant (resolve_value v))
    compile_pattern env (variable x) = do
      _ ← name_resolve_error x (resolve env (strings.intern x) c)
      ok (variable (strings.intern x))

  unfoldable pub compile_head : Head → Result CompileError (CompiledHead × VariableEnvironment)
  unfolding compile_head_pattern resolve_action resolve_resource
  compile_head head = do
    (principal, env) ←
        compile_head_pattern (resolve_principal strings) Component.principal head.principal []
    (action, env') ← compile_head_pattern (resolve_action strings) Component.action head.action env
    (resource, env'') ←
        compile_head_pattern (resolve_resource strings) Component.resource head.resource env'
    ok (record { principal = principal; action = action; resource = resource }, env'')

  unfoldable pub compile_atom_pattern :
      VariableEnvironment → AtomPattern → Result CompileError CompiledAtomPattern
  unfolding compile_pattern resolve_action resolve_resource
  compile_atom_pattern env (principal_atom p) = do
    q ← compile_pattern (resolve_principal strings) Component.principal env p
    ok (compiled_principal q)
  compile_atom_pattern env (action_atom p) = do
    q ← compile_pattern (resolve_action strings) Component.action env p
    ok (compiled_action q)
  compile_atom_pattern env (resource_atom p) = do
    q ← compile_pattern (resolve_resource strings) Component.resource env p
    ok (compiled_resource q)

  module _ (ns : TransitionNumbering) where
    open ns use {nodes as ids}

    unfoldable mutual
      unfolding compile_atom_pattern test_and test_or

      pub compile_test : VariableEnvironment → TestExpr → Result CompileError TestNode
      compile_test env true_test = ok true_node
      compile_test env false_test = ok false_node
      compile_test env (atom comparison p) = do
        pattern ← compile_atom_pattern env p
        ok (atom_node comparison pattern)
      compile_test env (and ts) = do compiled ← compile_tests env ts; ok (test_and ids compiled)
      compile_test env (or ts) = do compiled ← compile_tests env ts; ok (test_or ids compiled)

      pub compile_tests : VariableEnvironment → TestExprs → Result CompileError (List TestNode)
      compile_tests env TestExprs.nil = ok []
      compile_tests env (TestExprs.cons t ts) = do
        compiled ← compile_test env t
        rest ← compile_tests env ts
        ok (compiled ∷ rest)

    unfoldable mutual
      unfolding compile_test regex_test regex_union regex_concat regex_star regex_intersect
          regex_not

      pub compile_regex : VariableEnvironment → RegexExpr → Result CompileError RegexNode
      compile_regex env empty = ok empty_node
      compile_regex env all = ok all_node
      compile_regex env epsilon = ok epsilon_node
      compile_regex env (test t) = do compiled ← compile_test env t; ok (regex_test ids compiled)
      compile_regex env (union rs) = do
        compiled ← compile_regexes env rs
        ok (regex_union ids compiled)
      compile_regex env (concat rs) = do
        compiled ← compile_regexes env rs
        ok (regex_concat compiled)
      compile_regex env (star r) = do inner ← compile_regex env r; ok (regex_star ids inner)
      compile_regex env (intersect rs) = do
        compiled ← compile_regexes env rs
        ok (regex_intersect ids compiled)
      compile_regex env (complement r) = do inner ← compile_regex env r; ok (regex_not inner)

      pub compile_regexes : VariableEnvironment → RegexExprs → Result CompileError (List RegexNode)
      compile_regexes env RegexExprs.nil = ok []
      compile_regexes env (RegexExprs.cons r rs) = do
        compiled ← compile_regex env r
        rest ← compile_regexes env rs
        ok (compiled ∷ rest)

    unfoldable pub compile_rule : Rule → Result CompileError RuntimeRule
    unfolding compile_head compile_regex precompile
    compile_rule source = do
      (head, env) ← compile_head source.head
      tail ← compile_regex env source.tail
      ok (record { mode = source.mode; head = head; tail = tail; tables = precompile ns tail })

    -- `none` where the head does not match; a missing row of a table, which the source excludes by
    -- a panic, is `none` too.
    unfoldable pub accepts_history : RuntimeRule → List Event → Event → Option Bool
    unfolding match_candidate replay_history atom_matches table_at
    accepts_history rule history candidate = match_candidate strings rule.head candidate >?= λ s.
        replay_history ns (λ e p. atom_matches strings s p e) (λ t. table_at ns t rule.tables)
          rule.tail history
