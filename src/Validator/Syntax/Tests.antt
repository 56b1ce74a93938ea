-- ===== src/Validator/Syntax/Tests.antt =====
-- The smart constructors on small tests and expressions: a principal is known by symbol 7, and an
-- event is the symbol of its principal.
use marsh.Base.{
  true, refl, Option, none, some, List, length, leb, Bool-cases, inl, inr, if◌then◌else◌, ℕ, ◌≤◌,
  ◌≡◌, Bool, false, not, [], ◌∷◌, ◌=?◌, ◌==◌, any, all, arith, nat_has_eq, list_has_eq,
  list_beq_iff,
}
use marsh.Validator.Source.{
  Rule, RuleMode, variable, concat_of, all as any_history, test, atom,
  principal_atom as source_principal, constant, eq, neq,
}
use marsh.Validator.Language.Words.{repeats}
use marsh.Validator.Syntax.Component.{
  CompiledAtomPattern, principal_atom, action_atom, resource_atom, read, resolved_action_has_eq,
}
use marsh.Validator.Syntax.Node.{
  TestNode, RegexNode, RegexNodes, atom_node, all_node, epsilon_node, test_node, concat_node,
  not_node, eval_test,
}
use marsh.Validator.Syntax.Numbers.{numbering, transition_numbering, interner}
use marsh.Validator.Syntax.Transition.{
  TransitionNode, if_node, transition_epsilon, transition_empty,
}
use marsh.Base.Results.{is_ok}
use marsh.Validator.Model.{Event, read as read_action}
use marsh.Validator.Language.{tail_accepts}
use marsh.Validator.Engine.{well_scoped}
use marsh.Validator.Syntax.Symbolic.Precompile.{is_done, explore, enough, start, precompile}
use marsh.Validator.Syntax.Symbolic.Budget.{total_rows, AreBuilt, precompile_bounded}
use marsh.Validator.Syntax.Compile.{compile_rule, accepts_history}
use marsh.Validator.Syntax.Compile.Answers.{accepts_history-tail_accepts}
use marsh.Validator.Syntax.Compile.Scopes.{is_ok-compile_rule}
use marsh.Validator.Syntax.Compile.Filled.{compile_total}
use marsh.Validator.Syntax.Symbolic.{evaluate}
use marsh.Validator.Syntax.Symbolic.Tables.{instantiate-evaluate}
use marsh.Validator.Syntax.Symbolic.Minterms.{
  collect_transition_atoms, compiled_successors, instantiate,
}
use marsh.Validator.Syntax.Symbolic.Replay.{replay_history, replay_history-accepts}
use marsh.Validator.Syntax.Normalize.{distinct_constant_patterns, test_and, test_or, test_not}
use marsh.Validator.Syntax.Normalize.Meaning.{IsConsistent}
use marsh.Validator.Syntax.Normalize.Sound.{test_not-complement, test_and-all, test_or-any}
use marsh.Validator.Syntax.Normalize.Shape.{IsCanonical}
use marsh.Validator.Syntax.Regexes.{regex_union, regex_intersect, regex_concat, regex_star}
use marsh.Validator.Syntax.Regexes.Words.{accepts, sequence}
use marsh.Validator.Syntax.Regexes.Laws.{regex_concat-sequence, regex_star-repeats}
use marsh.Validator.Syntax.Regexes.Sound.{regex_union-any, regex_intersect-all}

-- The atoms that match an event of principal `n` that reads resource 3.
abbrev sat : ℕ → CompiledAtomPattern → Bool
sat n (principal_atom (constant m)) = m == n
sat n (action_atom (constant a)) = a =? read
sat n (resource_atom (constant r)) = r =? (3 ∷ [])
sat n _ = false

sat-IsConsistent : (n : ℕ) → IsConsistent (sat n)
unfolding distinct_constant_patterns
sat-IsConsistent n (principal_atom (constant a)) (principal_atom (constant b)) h = ground arith
sat-IsConsistent n (action_atom (constant a)) (action_atom (constant b)) h = ground (
  arith,
  resolved_action_has_eq.is_same_iff a read,
  resolved_action_has_eq.is_same_iff b read,
  resolved_action_has_eq.is_same_iff a b,
)
sat-IsConsistent n (resource_atom (constant a)) (resource_atom (constant b)) h =
    ground (arith, list_beq_iff a (3 ∷ []), list_beq_iff b (3 ∷ []), list_beq_iff a b)
sat-IsConsistent n p q h = cc

abbrev is_seven : TestNode
is_seven = atom_node eq (principal_atom (constant 7))

abbrev not_seven : TestNode
not_seven = atom_node neq (principal_atom (constant 7))

abbrev is_eight : TestNode
is_eight = atom_node eq (principal_atom (constant 8))

test_not-complement_example :
    IsCanonical numbering (test_not numbering is_seven)
    × (eval_test (sat 7) (test_not numbering is_seven) ≡ not (eval_test (sat 7) is_seven))
test_not-complement_example = test_not-complement numbering (sat 7) (sat-IsConsistent 7) is_seven tt

test_and-all_example :
    IsCanonical numbering (test_and numbering (is_seven ∷ is_eight ∷ []))
    × (eval_test (sat 7) (test_and numbering (is_seven ∷ is_eight ∷ []))
        ≡ all (eval_test (sat 7)) (is_seven ∷ is_eight ∷ []))
test_and-all_example =
    test_and-all numbering (sat 7) (sat-IsConsistent 7) (is_seven ∷ is_eight ∷ []) (tt, (tt, tt))

test_or-any_example :
    IsCanonical numbering (test_or numbering (is_seven ∷ not_seven ∷ []))
    × (eval_test (sat 7) (test_or numbering (is_seven ∷ not_seven ∷ []))
        ≡ any (eval_test (sat 7)) (is_seven ∷ not_seven ∷ []))
test_or-any_example =
    test_or-any numbering (sat 7) (sat-IsConsistent 7) (is_seven ∷ not_seven ∷ []) (tt, (tt, tt))

regex_union-any_example :
    accepts sat (regex_union numbering (test_node is_seven ∷ epsilon_node ∷ [])) (7 ∷ [])
    ≡ any (λ r. accepts sat r (7 ∷ [])) (test_node is_seven ∷ epsilon_node ∷ [])
regex_union-any_example =
    regex_union-any numbering sat sat-IsConsistent (test_node is_seven ∷ epsilon_node ∷ [])
      (tt, (tt, tt)) (7 ∷ [])

regex_intersect-all_example :
    accepts sat
      (regex_intersect numbering (test_node is_seven ∷ not_node epsilon_node ∷ []))
      (7 ∷ [])
    ≡ all (λ r. accepts sat r (7 ∷ [])) (test_node is_seven ∷ not_node epsilon_node ∷ [])
regex_intersect-all_example =
    regex_intersect-all numbering sat sat-IsConsistent
      (test_node is_seven ∷ not_node epsilon_node ∷ []) (tt, (tt, tt)) (7 ∷ [])

regex_concat-sequence_example :
    accepts sat (regex_concat (all_node ∷ test_node is_seven ∷ [])) (8 ∷ 7 ∷ [])
    ≡ sequence sat (all_node ∷ test_node is_seven ∷ []) (8 ∷ 7 ∷ [])
regex_concat-sequence_example =
    regex_concat-sequence sat (all_node ∷ test_node is_seven ∷ []) (8 ∷ 7 ∷ [])

regex_star-repeats_example :
    accepts sat (regex_star numbering (test_node is_seven)) (7 ∷ 7 ∷ [])
    ≡ repeats (accepts sat (test_node is_seven)) (7 ∷ 7 ∷ [])
regex_star-repeats_example = regex_star-repeats sat numbering (test_node is_seven) (7 ∷ 7 ∷ [])

-- Anything, then an event of principal 7 at the end.
abbrev ends_in_seven : RegexNode
ends_in_seven =
    concat_node (RegexNodes.cons all_node (RegexNodes.cons (test_node is_seven) RegexNodes.nil))

-- A table for every transition of few atoms, and for no other.
abbrev tables : TransitionNode → Option (List RegexNode)
tables t =
    if leb (length (collect_transition_atoms t)) 12
    then some (compiled_successors transition_numbering t)
    else none

tables_built :
    (t : TransitionNode) (rows : List RegexNode)
    → tables t ≡ some rows
    → rows ≡ compiled_successors transition_numbering t
tables_built t rows e = elim (Bool-cases (leb (length (collect_transition_atoms t)) 12)) [
  | inl few ↦ cc (few, e)
  | inr many ↦ cc (many, e)
]

replay_history-accepts_example :
    replay_history transition_numbering sat tables ends_in_seven (8 ∷ 7 ∷ [])
    ≡ some (accepts sat ends_in_seven (8 ∷ 7 ∷ []))
unfolding transition_numbering
replay_history-accepts_example =
    replay_history-accepts transition_numbering sat tables tables_built sat-IsConsistent
      ends_in_seven (8 ∷ 7 ∷ []) (tt, (tt, tt))

instantiate-evaluate_example :
    instantiate transition_numbering tables
      (sat 7)
      (if_node is_seven transition_epsilon transition_empty)
    ≡ some (
        evaluate transition_numbering
          (sat 7)
          (if_node is_seven transition_epsilon transition_empty))
instantiate-evaluate_example =
    instantiate-evaluate transition_numbering tables (sat 7)
      (if_node is_seven transition_epsilon transition_empty) tables_built

-- A principal that has read a resource may not be refused the next read of it.
abbrev read_before : Rule
read_before = record {
  mode = RuleMode.require;
  head = record {
    principal = variable "who";
    action = constant read_action;
    resource = variable "what";
  };
  tail =
      concat_of
        (any_history ∷ test (atom eq (source_principal (variable "who"))) ∷ any_history ∷ []);
}

abbrev alice_reads : Event
alice_reads = record { principal = "alice"; action = read_action; resource = "a" ∷ [] }

is_ok-compile_rule_example :
    is_ok (compile_rule interner transition_numbering read_before) ≡ well_scoped read_before
is_ok-compile_rule_example = is_ok-compile_rule interner transition_numbering read_before

accepts_history-tail_accepts_example :
    accepts_history interner transition_numbering
      (compile_total interner transition_numbering read_before refl).0
      (alice_reads ∷ [])
      alice_reads
    ≡ tail_accepts read_before (alice_reads ∷ []) alice_reads
accepts_history-tail_accepts_example =
    accepts_history-tail_accepts interner transition_numbering read_before
      (compile_total interner transition_numbering read_before refl).0 (alice_reads ∷ [])
      alice_reads (compile_total interner transition_numbering read_before refl).1

precompile_bounded_example :
    (is_done (explore transition_numbering enough (start ends_in_seven)) ≡ true)
    × (length (explore transition_numbering enough (start ends_in_seven)).seen ≤ 64)
    × (total_rows (precompile transition_numbering ends_in_seven) ≤ 4096)
    × AreBuilt transition_numbering (precompile transition_numbering ends_in_seven)
precompile_bounded_example = precompile_bounded transition_numbering ends_in_seven
