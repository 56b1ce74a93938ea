-- ===== src/Validator/Syntax/Regexes.antt =====
-- rust-validator/src/syntax/normalize.rs: the smart constructors of regular expressions. The cached
-- nullability of a node is a function of its kind.
pub mod Words
pub mod Laws
pub mod Meaning
pub mod Absorb
pub mod Parts
pub mod Shape
pub mod Epsilon
pub mod Sound
use marsh.Base.{
  ◌≡◌, Bool, true, false, not, ◌&&◌, ◌||◌, List, [], ◌∷◌, ◌++◌, Option, none, some, ◌==◌, any, all,
  retain, is_some_and, is_empty, if◌then◌else◌,
}
use marsh.Base.Canonical.{sort, dedup}
use marsh.Validator.Syntax.Node.{
  TestNode, true_node, false_node, RegexNode, RegexNodes, empty_node, all_node, epsilon_node,
  test_node, union_node, concat_node, star_node, intersect_node, not_node, regex_list, regex_slice,
  Numbering,
}
use marsh.Validator.Syntax.Normalize.{
  TestConnective, and, or, dual, pair_satisfies, test_and, test_or,
}

unfoldable mutual
  pub nullable : RegexNode → Bool
  nullable empty_node = false
  nullable all_node = true
  nullable epsilon_node = true
  nullable (test_node t) = false
  nullable (union_node rs) = any_nullable rs
  nullable (concat_node rs) = all_nullable rs
  nullable (star_node r) = true
  nullable (intersect_node rs) = all_nullable rs
  nullable (not_node r) = not (nullable r)

  pub any_nullable : RegexNodes → Bool
  any_nullable RegexNodes.nil = false
  any_nullable (RegexNodes.cons r rs) = nullable r || any_nullable rs

  pub all_nullable : RegexNodes → Bool
  all_nullable RegexNodes.nil = true
  all_nullable (RegexNodes.cons r rs) = nullable r && all_nullable rs

abbrev pub is_all : RegexNode → Bool
is_all all_node = true
is_all _ = false

abbrev pub is_empty_node : RegexNode → Bool
is_empty_node empty_node = true
is_empty_node _ = false

unfoldable pub is_epsilon_complement : RegexNode → Bool
is_epsilon_complement (not_node epsilon_node) = true
is_epsilon_complement _ = false

-- The children of an intersection, and of a union.
abbrev pub regex_children : TestConnective → RegexNode → Option (List RegexNode)
regex_children and (intersect_node rs) = some (regex_list rs)
regex_children or (union_node rs) = some (regex_list rs)
regex_children _ _ = none

-- What the loops over the operands collect of one.
unfoldable pub flatten_regex : TestConnective → RegexNode → List RegexNode
flatten_regex or empty_node = []
flatten_regex and all_node = []
flatten_regex or (union_node rs) = regex_list rs
flatten_regex and (intersect_node rs) = regex_list rs
flatten_regex c r = r ∷ []

unfoldable pub flatten_regexes : TestConnective → List RegexNode → List RegexNode
unfolding flatten_regex
flatten_regexes c [] = []
flatten_regexes c (r ∷ rs) = flatten_regex c r ++ flatten_regexes c rs

-- The operands that are one-event tests, and the others.
unfoldable pub tests_of : List RegexNode → List TestNode
tests_of [] = []
tests_of (test_node t ∷ rs) = t ∷ tests_of rs
tests_of (r ∷ rs) = tests_of rs

unfoldable pub non_tests : List RegexNode → List RegexNode
non_tests [] = []
non_tests (test_node t ∷ rs) = non_tests rs
non_tests (r ∷ rs) = r ∷ non_tests rs

-- `Empty` ends the concatenation, `Epsilon` is left out, and nested factors are taken apart.
unfoldable pub flatten_factors : List RegexNode → List RegexNode
flatten_factors [] = []
flatten_factors (epsilon_node ∷ rs) = flatten_factors rs
flatten_factors (concat_node qs ∷ rs) = regex_list qs ++ flatten_factors rs
flatten_factors (r ∷ rs) = r ∷ flatten_factors rs

abbrev pub close_concat : List RegexNode → RegexNode
close_concat [] = epsilon_node
close_concat (r ∷ []) = r
close_concat (r ∷ s ∷ rs) = concat_node (regex_slice (r ∷ s ∷ rs))

unfoldable pub regex_concat : List RegexNode → RegexNode
unfolding flatten_factors
regex_concat rs = if any is_empty_node rs then empty_node else close_concat (flatten_factors rs)

unfoldable pub regex_not : RegexNode → RegexNode
regex_not empty_node = all_node
regex_not all_node = empty_node
regex_not (not_node r) = r
regex_not r = not_node r

abbrev pub regex_close : TestConnective → List RegexNode → RegexNode
regex_close and [] = all_node
regex_close or [] = empty_node
regex_close c (r ∷ []) = r
regex_close and (r ∷ s ∷ rs) = intersect_node (regex_slice (r ∷ s ∷ rs))
regex_close or (r ∷ s ∷ rs) = union_node (regex_slice (r ∷ s ∷ rs))

module _ (ids : Numbering) where
  open ids use {test_uid, regex_uid}

  abbrev pub regex_is : RegexNode → RegexNode → Bool
  regex_is r s = regex_uid r == regex_uid s

  abbrev pub has_regex : List RegexNode → RegexNode → Bool
  has_regex rs r = any (regex_is r) rs

  abbrev pub is_complement_of : RegexNode → RegexNode → Bool
  is_complement_of (not_node inner) other = regex_is inner other
  is_complement_of _ _ = false

  unfoldable pub complementary_regex : RegexNode → RegexNode → Bool
  complementary_regex r s = is_complement_of r s || is_complement_of s r

  unfoldable pub regex_absorbs : RegexNode → RegexNode → Bool
  regex_absorbs candidate sibling = not (regex_is sibling candidate) && (elim candidate [
    | intersect_node nested ↦ elim sibling [
      | intersect_node children ↦ all (has_regex (regex_list nested)) (regex_list children)
      | other ↦ has_regex (regex_list nested) other
    ]
    | union_node nested ↦ elim sibling [
      | union_node children ↦ all (has_regex (regex_list nested)) (regex_list children)
      | other ↦ has_regex (regex_list nested) other
    ]
    | _ ↦ false
  ])

  unfoldable pub regex_absorbed_by_sibling : List RegexNode → RegexNode → Bool
  unfolding regex_absorbs
  regex_absorbed_by_sibling siblings candidate = any (regex_absorbs candidate) siblings

  unfoldable pub regex_test : TestNode → RegexNode
  regex_test t = if test_uid t == test_uid false_node then empty_node else test_node t

  abbrev pub drop_absorbed : TestConnective → List RegexNode → List RegexNode
  drop_absorbed c flat =
      if any (λ r. is_some_and (λ _. true) (regex_children (dual c) r)) flat
      then retain (λ r. not (regex_absorbed_by_sibling flat r)) flat
      else flat

  abbrev pub drop_epsilon : List RegexNode → List RegexNode
  drop_epsilon flat =
      if has_regex flat epsilon_node && any (λ r. not (regex_is r epsilon_node) && nullable r) flat
      then retain (λ r. not (regex_is r epsilon_node)) flat
      else flat

  abbrev pub drop_epsilon_complement : List RegexNode → List RegexNode
  drop_epsilon_complement flat =
      if any (λ r. not (is_epsilon_complement r) && not (nullable r)) flat
      then retain (λ r. not (is_epsilon_complement r)) flat
      else flat

  -- The tests among the operands become one.
  abbrev pub push_test : List RegexNode → RegexNode → List RegexNode
  push_test rest r = if regex_is r empty_node then rest else rest ++ r ∷ []

  unfoldable pub unite_tests : List RegexNode → List RegexNode
  unfolding tests_of non_tests regex_test test_or
  unite_tests flat =
      if is_empty (tests_of flat)
      then non_tests flat
      else push_test (non_tests flat) (regex_test (test_or ids (tests_of flat)))

  abbrev pub finish_union : List RegexNode → RegexNode
  finish_union flat =
      if pair_satisfies complementary_regex flat
      then all_node
      else regex_close or (drop_absorbed or (drop_epsilon flat))

  unfoldable pub regex_union : List RegexNode → RegexNode
  unfolding flatten_regexes unite_tests sort dedup pair_satisfies complementary_regex
      regex_absorbed_by_sibling nullable
  regex_union operands =
      if any is_all operands
      then all_node
      else finish_union
          (dedup regex_uid (sort regex_uid (unite_tests (flatten_regexes or operands))))

  abbrev pub intersect_rest : List RegexNode → RegexNode
  intersect_rest flat =
      if has_regex flat epsilon_node
      then (if all nullable flat then epsilon_node else empty_node)
      else regex_close and (drop_absorbed and (drop_epsilon_complement flat))

  abbrev pub finish_intersect : List RegexNode → RegexNode
  finish_intersect flat =
      if pair_satisfies complementary_regex flat then empty_node else intersect_rest flat

  abbrev pub sorted : List RegexNode → List RegexNode
  sorted flat = dedup regex_uid (sort regex_uid flat)

  abbrev pub intersect_tests : List RegexNode → RegexNode → RegexNode
  intersect_tests rest r =
      if regex_is r empty_node then empty_node else finish_intersect (sorted (rest ++ r ∷ []))

  abbrev pub intersect_flat : List RegexNode → RegexNode
  intersect_flat flat =
      if is_empty (tests_of flat)
      then finish_intersect (sorted (non_tests flat))
      else intersect_tests (non_tests flat) (regex_test (test_and ids (tests_of flat)))

  unfoldable pub regex_intersect : List RegexNode → RegexNode
  unfolding flatten_regexes tests_of non_tests regex_test test_and sort dedup pair_satisfies
      complementary_regex regex_absorbed_by_sibling nullable is_epsilon_complement
  regex_intersect operands =
      if any is_empty_node operands
      then empty_node
      else intersect_flat (flatten_regexes and operands)

  unfoldable pub regex_star : RegexNode → RegexNode
  regex_star empty_node = epsilon_node
  regex_star epsilon_node = epsilon_node
  regex_star all_node = all_node
  regex_star (test_node t) =
      if test_uid t == test_uid true_node then all_node else star_node (test_node t)
  regex_star (star_node r) = star_node r
  regex_star r = star_node r
