-- ===== src/Validator/Syntax/Normalize.antt =====
-- rust-validator/src/syntax/normalize.rs: the smart constructors of tests. A binary search stands
-- for membership, since the slices that are searched are sorted.
pub mod Meaning
pub mod Redundant
pub mod Shape
pub mod Depth
pub mod Sound
use marsh.Base.{
  ℕ, zero, suc, ◌≡◌, refl, Bool, true, false, not, ◌&&◌, ◌||◌, List, [], ◌∷◌, ◌++◌, map, Option,
  none, some, arith, ◌=?◌, ◌==◌, any, all, retain, is_some_and, if◌then◌else◌, Bool-cases,
  nat_has_eq, list_has_eq,
}
use Prim.Native.Nat.{max}
use marsh.Base.Canonical.{sort, dedup}
use marsh.Validator.Source.{Comparison, eq, neq, flip, constant, variable}
use marsh.Validator.Syntax.Component.{
  CompiledAtomPattern, principal_atom, action_atom, resource_atom, atom_has_eq,
  resolved_action_has_eq,
}
use marsh.Validator.Syntax.Node.{
  TestNode, TestNodes, true_node, false_node, atom_node, and_node, or_node, test_list, test_slice,
  Numbering,
}

-- Some unordered pair satisfies a symmetric predicate.
unfoldable pub pair_satisfies : {T : Type 0} → (T → T → Bool) → List T → Bool
pair_satisfies p [] = false
pair_satisfies p (x ∷ xs) = any (p x) xs || pair_satisfies p xs

abbrev pub same_comparison : Comparison → Comparison → Bool
same_comparison eq eq = true
same_comparison neq neq = true
same_comparison _ _ = false

unfoldable pub complementary_test : TestNode → TestNode → Bool
complementary_test (atom_node c p) (atom_node c' p') = not (same_comparison c c') && (p =? p')
complementary_test _ _ = false

unfoldable pub distinct_constant_patterns : CompiledAtomPattern → CompiledAtomPattern → Bool
distinct_constant_patterns (principal_atom (constant a)) (principal_atom (constant b)) =
    not (a =? b)
distinct_constant_patterns (action_atom (constant a)) (action_atom (constant b)) = not (a =? b)
distinct_constant_patterns (resource_atom (constant a)) (resource_atom (constant b)) = not (a =? b)
distinct_constant_patterns _ _ = false

unfoldable pub distinct_constant_atoms : Comparison → TestNode → TestNode → Bool
distinct_constant_atoms c (atom_node c' p) (atom_node c'' q) =
    same_comparison c' c && same_comparison c'' c && distinct_constant_patterns p q
distinct_constant_atoms c _ _ = false

-- The sibling that makes a constant atom redundant.
unfoldable pub implies_constant_atom : Comparison → TestNode → TestNode → Bool
unfolding distinct_constant_patterns flip
implies_constant_atom c (atom_node c' p) (atom_node c'' q) =
    same_comparison c' c && same_comparison c'' (flip c) && distinct_constant_patterns p q
implies_constant_atom c _ _ = false

unfoldable pub redundant_constant_atom : Comparison → List TestNode → TestNode → Bool
unfolding implies_constant_atom
redundant_constant_atom c siblings candidate = any (implies_constant_atom c candidate) siblings

pub data TestConnective : Type 0 where
  and or : TestConnective

abbrev pub dual : TestConnective → TestConnective
dual and = or
dual or = and

abbrev pub identity : TestConnective → TestNode
identity and = true_node
identity or = false_node

abbrev pub absorber : TestConnective → TestNode
absorber and = false_node
absorber or = true_node

-- The children of a node of this connective.
abbrev pub children : TestConnective → TestNode → Option (List TestNode)
children and (and_node ts) = some (test_list ts)
children or (or_node ts) = some (test_list ts)
children _ _ = none

abbrev pub contradictory_comparison : TestConnective → Comparison
contradictory_comparison and = eq
contradictory_comparison or = neq

abbrev pub redundant_comparison : TestConnective → Comparison
redundant_comparison c = flip (contradictory_comparison c)

abbrev pub node : TestConnective → List TestNode → TestNode
node and ts = and_node (test_slice ts)
node or ts = or_node (test_slice ts)

-- Whether the loop over the operands meets the absorbing element.
abbrev pub is_absorber : TestConnective → TestNode → Bool
is_absorber and false_node = true
is_absorber or true_node = true
is_absorber _ _ = false

-- What the loop collects of one operand that is not absorbing.
unfoldable pub flatten_test : TestConnective → TestNode → List TestNode
flatten_test and true_node = []
flatten_test or false_node = []
flatten_test and (and_node ts) = test_list ts
flatten_test or (or_node ts) = test_list ts
flatten_test c t = t ∷ []

unfoldable pub flatten_tests : TestConnective → List TestNode → List TestNode
unfolding flatten_test
flatten_tests c [] = []
flatten_tests c (t ∷ ts) = flatten_test c t ++ flatten_tests c ts

abbrev pub is_redundant_shape : TestConnective → TestNode → Bool
is_redundant_shape c (atom_node c' p) = same_comparison c' (redundant_comparison c)
is_redundant_shape c t = is_some_and (λ _. true) (children (dual c) t)

-- How deeply connectives nest: the recursion that `test_not` and the constructors make.
unfoldable mutual
  pub depth : TestNode → ℕ
  depth true_node = 0
  depth false_node = 0
  depth (atom_node c p) = 0
  depth (and_node ts) = suc (depths ts)
  depth (or_node ts) = suc (depths ts)

  pub depths : TestNodes → ℕ
  depths TestNodes.nil = 0
  depths (TestNodes.cons t ts) = max (depth t) (depths ts)

module _ (ids : Numbering) where
  open ids use {test_uid}

  abbrev pub test_is : TestNode → TestNode → Bool
  test_is t u = test_uid t == test_uid u

  abbrev pub has_test : List TestNode → TestNode → Bool
  has_test ts t = any (test_is t) ts

  -- One sibling of the candidate absorbs it.
  unfoldable pub absorbs : TestNode → TestNode → Bool
  absorbs candidate sibling = not (test_is sibling candidate) && (elim candidate [
    | or_node nested ↦ elim sibling [
      | or_node children ↦ all (has_test (test_list nested)) (test_list children)
      | other ↦ has_test (test_list nested) other
    ]
    | and_node nested ↦ elim sibling [
      | and_node children ↦ all (has_test (test_list nested)) (test_list children)
      | other ↦ has_test (test_list nested) other
    ]
    | _ ↦ false
  ])

  unfoldable pub absorbed_by_sibling : List TestNode → TestNode → Bool
  unfolding absorbs
  absorbed_by_sibling siblings candidate = any (absorbs candidate) siblings

  abbrev pub is_kept : TestConnective → List TestNode → TestNode → Bool
  is_kept c siblings t =
      not (absorbed_by_sibling siblings t)
      && not (redundant_constant_atom (redundant_comparison c) siblings t)

  abbrev pub drop_redundant : TestConnective → List TestNode → List TestNode
  drop_redundant c flat =
      if any (is_redundant_shape c) flat then retain (is_kept c flat) flat else flat

  abbrev pub close_test : TestConnective → List TestNode → TestNode
  close_test c [] = identity c
  close_test c (t ∷ []) = t
  close_test c (t ∷ u ∷ ts) = node c (t ∷ u ∷ ts)

  -- `test_not` is a parameter: it is called on the children of the operands only.
  module _ (negate : TestNode → TestNode) where
    unfoldable pub is_compound_complement : TestConnective → List TestNode → TestNode → Bool
    is_compound_complement c tests candidate = elim (children (dual c) candidate) [
      | none ↦ false
      | some ts ↦ all (λ t. has_test tests (negate t)) ts
    ]

    unfoldable pub tests_have_complements : TestConnective → List TestNode → Bool
    unfolding pair_satisfies complementary_test is_compound_complement
    tests_have_complements c tests =
        pair_satisfies complementary_test tests || any (is_compound_complement c tests) tests

    abbrev pub collapses : TestConnective → List TestNode → Bool
    collapses c flat =
        tests_have_complements c flat
        || pair_satisfies (distinct_constant_atoms (contradictory_comparison c)) flat

    abbrev pub finish_test : TestConnective → List TestNode → TestNode
    finish_test c flat =
        if collapses c flat then absorber c else close_test c (drop_redundant c flat)

    unfoldable pub test_connective : TestConnective → List TestNode → TestNode
    unfolding flatten_tests sort dedup tests_have_complements distinct_constant_atoms
        absorbed_by_sibling redundant_constant_atom
    test_connective c operands =
        if any (is_absorber c) operands
        then absorber c
        else finish_test c (dedup test_uid (sort test_uid (flatten_tests c operands)))

  -- `test_not` to a depth; a compound that is deeper stays, which `depth` excludes.
  unfoldable pub not_within : ℕ → TestNode → TestNode
  unfolding test_connective flip
  not_within n true_node = false_node
  not_within n false_node = true_node
  not_within n (atom_node c p) = atom_node (flip c) p
  not_within zero (and_node ts) = and_node ts
  not_within zero (or_node ts) = or_node ts
  not_within (suc n) (and_node ts) =
      test_connective (not_within n) or (map (not_within n) (test_list ts))
  not_within (suc n) (or_node ts) =
      test_connective (not_within n) and (map (not_within n) (test_list ts))

  unfoldable pub test_not : TestNode → TestNode
  unfolding not_within depth
  test_not t = not_within (depth t) t

  unfoldable pub test_and : List TestNode → TestNode
  unfolding test_connective test_not
  test_and ts = test_connective test_not and ts

  unfoldable pub test_or : List TestNode → TestNode
  unfolding test_connective test_not
  test_or ts = test_connective test_not or ts
