-- ===== src/Validator/Syntax/Symbolic/Minterms.antt =====
-- rust-validator/src/syntax/symbolic.rs: the atoms of a transition, and the dense table of its
-- successors by the truth values of these atoms.
use marsh.Base.{
  ℕ, zero, suc, ◌+◌, ◌*◌, Bool, false, List, [], ◌∷◌, ◌++◌, Option, none, some, map, any, ◌=?◌,
  ◌==◌, if◌then◌else◌, length, get_elem?,
}
use Prim.Native.Nat.{◌/◌, ◌%◌, ◌^◌}
use marsh.Validator.Syntax.Component.{CompiledAtomPattern, atom_has_eq}
use marsh.Validator.Syntax.Node.{
  TestNode, TestNodes, true_node, false_node, atom_node, and_node, or_node, RegexNode,
}
use marsh.Validator.Syntax.Transition.{
  TransitionNode, TransitionNodes, const_node, if_node, union_node as union_transition,
  intersect_node as intersect_transition, not_node as not_transition, append_node,
  TransitionNumbering,
}
use marsh.Validator.Syntax.Symbolic.{evaluate}

-- A node that occurs twice is collected twice here; `first_seen` drops the second occurrence.
unfoldable mutual
  pub collect_test_atoms : TestNode → List CompiledAtomPattern
  collect_test_atoms true_node = []
  collect_test_atoms false_node = []
  collect_test_atoms (atom_node c p) = p ∷ []
  collect_test_atoms (and_node ts) = collect_tests_atoms ts
  collect_test_atoms (or_node ts) = collect_tests_atoms ts

  pub collect_tests_atoms : TestNodes → List CompiledAtomPattern
  collect_tests_atoms TestNodes.nil = []
  collect_tests_atoms (TestNodes.cons t ts) = collect_test_atoms t ++ collect_tests_atoms ts

unfoldable mutual
  unfolding collect_test_atoms

  pub collect_atoms_into : TransitionNode → List CompiledAtomPattern
  collect_atoms_into (const_node r) = []
  collect_atoms_into (if_node test a b) =
      collect_test_atoms test ++ (collect_atoms_into a ++ collect_atoms_into b)
  collect_atoms_into (union_transition ts) = collect_each_into ts
  collect_atoms_into (intersect_transition ts) = collect_each_into ts
  collect_atoms_into (not_transition t) = collect_atoms_into t
  collect_atoms_into (append_node t suffix) = collect_atoms_into t

  pub collect_each_into : TransitionNodes → List CompiledAtomPattern
  collect_each_into TransitionNodes.nil = []
  collect_each_into (TransitionNodes.cons t ts) = collect_atoms_into t ++ collect_each_into ts

-- What `retain` keeps with a set of the atoms seen.
unfoldable pub first_seen :
    List CompiledAtomPattern → List CompiledAtomPattern → List CompiledAtomPattern
first_seen seen [] = []
first_seen seen (p ∷ ps) =
    let kept = first_seen seen ps in
    let added = first_seen (p ∷ seen) ps in if any (λ q. p =? q) seen then kept else p ∷ added

unfoldable pub collect_transition_atoms : TransitionNode → List CompiledAtomPattern
unfolding collect_atoms_into first_seen
collect_transition_atoms t = first_seen [] (collect_atoms_into t)

-- The truth values as one number: the first atom is the lowest bit.
unfoldable pub minterm_of : (CompiledAtomPattern → Bool) → List CompiledAtomPattern → ℕ
minterm_of v [] = 0
minterm_of v (p ∷ ps) = (if v p then 1 else 0) + 2 * minterm_of v ps

-- The bit of an atom, found at its position in the list; an atom that is not there, which the
-- source excludes by a panic, is false.
unfoldable pub bit_of : List CompiledAtomPattern → ℕ → CompiledAtomPattern → Bool
bit_of [] m p = false
bit_of (q ∷ qs) m p = let rest = bit_of qs (m / 2) p in if p =? q then m % 2 == 1 else rest

unfoldable pub range : ℕ → ℕ → List ℕ
range start zero = []
range start (suc n) = start ∷ range (suc start) n

module _ (ns : TransitionNumbering) where
  unfoldable pub evaluate_minterm : TransitionNode → List CompiledAtomPattern → ℕ → RegexNode
  unfolding evaluate bit_of
  evaluate_minterm t atoms m = evaluate ns (bit_of atoms m) t

  -- The table that `precompile` builds for a transition.
  unfoldable pub compiled_successors : TransitionNode → List RegexNode
  unfolding evaluate_minterm collect_transition_atoms range
  compiled_successors t =
      let atoms = collect_transition_atoms t in
      map (evaluate_minterm t atoms) (range 0 (2 ^ length atoms))

  -- A table, where there is one, answers by its row; a row outside of it, which the source excludes
  -- by a panic, has no result.
  unfoldable pub look_up :
      (CompiledAtomPattern → Bool) → TransitionNode → Option (List RegexNode) → Option RegexNode
  unfolding evaluate minterm_of collect_transition_atoms
  look_up v t none = some (evaluate ns v t)
  look_up v t (some successors) = get_elem? successors (minterm_of v (collect_transition_atoms t))

  unfoldable pub instantiate :
      (TransitionNode → Option (List RegexNode))
      → (CompiledAtomPattern → Bool)
      → TransitionNode
      → Option RegexNode
  unfolding look_up
  instantiate compiled v (const_node r) = some r
  instantiate compiled v t = look_up v t (compiled t)
