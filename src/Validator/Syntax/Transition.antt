-- ===== src/Validator/Syntax/Transition.antt =====
-- rust-validator/src/syntax/transition.rs: symbolic transitions and their smart constructors, with
-- the transitions of node.rs. `intersect` is a parameter of the constructors that call it; the
-- pairs it takes apart get fuel, and the sizes of a pair are enough.
pub mod Plain
pub mod Denote
pub mod Clean
pub mod Operands
pub mod Intersect
pub mod Pairs
pub mod Branches
pub mod Distinct
pub mod Complement
use marsh.Base.{
  ℕ, zero, suc, ◌+◌, ◌≡◌, Bool, true, false, not, ◌&&◌, ◌||◌, List, [], ◌∷◌, ◌++◌, map, Option,
  none, some, ◌==◌, ltb, any, all, is_empty, if◌then◌else◌,
}
use marsh.Base.Canonical.{sort, dedup}
use marsh.Validator.Syntax.Node.{
  TestNode, true_node, false_node, RegexNode, empty_node, all_node, epsilon_node, concat_node,
  regex_list, Numbering,
}
use marsh.Validator.Syntax.Normalize.{test_and, test_not, test_is}
use marsh.Validator.Syntax.Regexes.{regex_is, regex_union, regex_intersect, regex_concat, regex_not}

mutual
  pub data TransitionNode : Type 0 where
    const_node : RegexNode → TransitionNode
    if_node : TestNode → TransitionNode → TransitionNode → TransitionNode
    union_node : TransitionNodes → TransitionNode
    intersect_node : TransitionNodes → TransitionNode
    not_node : TransitionNode → TransitionNode
    append_node : TransitionNode → List RegexNode → TransitionNode

  pub data TransitionNodes : Type 0 where
    nil : TransitionNodes
    cons : TransitionNode → TransitionNodes → TransitionNodes

abbrev pub transition_list : TransitionNodes → List TransitionNode
transition_list TransitionNodes.nil = []
transition_list (TransitionNodes.cons t ts) = t ∷ transition_list ts

abbrev pub transition_slice : List TransitionNode → TransitionNodes
transition_slice [] = TransitionNodes.nil
transition_slice (t ∷ ts) = TransitionNodes.cons t (transition_slice ts)

abbrev pub transition_empty : TransitionNode
transition_empty = const_node empty_node

abbrev pub transition_all : TransitionNode
transition_all = const_node all_node

abbrev pub transition_epsilon : TransitionNode
transition_epsilon = const_node epsilon_node

abbrev pub is_transition_all : TransitionNode → Bool
is_transition_all (const_node all_node) = true
is_transition_all _ = false

abbrev pub is_transition_empty : TransitionNode → Bool
is_transition_empty (const_node empty_node) = true
is_transition_empty _ = false

-- The fuel of a pair: the nodes of the two transitions.
unfoldable mutual
  pub size : TransitionNode → ℕ
  size (const_node r) = 1
  size (if_node t a b) = suc (size a + size b)
  size (union_node ts) = suc (sizes ts)
  size (intersect_node ts) = suc (sizes ts)
  size (not_node t) = suc (size t)
  size (append_node t s) = suc (size t)

  pub sizes : TransitionNodes → ℕ
  sizes TransitionNodes.nil = 0
  sizes (TransitionNodes.cons t ts) = size t + sizes ts

-- The constant operands, and the others.
unfoldable pub constants_of : List TransitionNode → List RegexNode
constants_of [] = []
constants_of (const_node r ∷ ts) = r ∷ constants_of ts
constants_of (t ∷ ts) = constants_of ts

unfoldable pub non_constants : List TransitionNode → List TransitionNode
non_constants [] = []
non_constants (const_node r ∷ ts) = non_constants ts
non_constants (t ∷ ts) = t ∷ non_constants ts

-- What the loops over the operands collect of one.
unfoldable pub flatten_union : TransitionNode → List TransitionNode
flatten_union (const_node empty_node) = []
flatten_union (union_node ts) = transition_list ts
flatten_union t = t ∷ []

unfoldable pub flatten_intersect : TransitionNode → List TransitionNode
flatten_intersect (const_node all_node) = []
flatten_intersect (intersect_node ts) = transition_list ts
flatten_intersect t = t ∷ []

unfoldable pub flatten_each :
    (TransitionNode → List TransitionNode) → List TransitionNode → List TransitionNode
flatten_each f [] = []
flatten_each f (t ∷ ts) = f t ++ flatten_each f ts

pub record TransitionNumbering : Type 0 where
  pub nodes : Numbering
  pub transition_uid : TransitionNode → ℕ
  pub transition_uid_injective :
      (t u : TransitionNode) → transition_uid t ≡ transition_uid u → t ≡ u

pub record Constructors : Type 0 where
  pub intersect : List TransitionNode → TransitionNode
  pub negate : TransitionNode → TransitionNode
  pub append : TransitionNode → List RegexNode → TransitionNode

module _ (numbers : TransitionNumbering) where
  open numbers use {nodes as ids, transition_uid}

  abbrev pub transition_is : TransitionNode → TransitionNode → Bool
  transition_is t u = transition_uid t == transition_uid u

  unfoldable pub transition_const : RegexNode → TransitionNode
  transition_const r =
      if regex_is ids r empty_node
      then transition_empty
      else if regex_is ids r all_node
      then transition_all
      else if regex_is ids r epsilon_node
      then transition_epsilon
      else const_node r

  unfoldable pub intern_transition_if : TestNode → TransitionNode → TransitionNode → TransitionNode
  intern_transition_if test a b =
      if test_is ids test true_node
      then a
      else if test_is ids test false_node
      then b
      else if transition_is a b
      then a
      else if_node test a b

  abbrev pub sorted : List TransitionNode → List TransitionNode
  sorted ts = dedup transition_uid (sort transition_uid ts)

  abbrev pub close_union : List TransitionNode → TransitionNode
  close_union [] = transition_empty
  close_union (t ∷ []) = t
  close_union (t ∷ u ∷ ts) = union_node (transition_slice (t ∷ u ∷ ts))

  abbrev pub union_constant : List TransitionNode → RegexNode → TransitionNode
  union_constant rest r =
      if regex_is ids r all_node
      then transition_all
      else close_union
          (sorted (if regex_is ids r empty_node then rest else rest ++ transition_const r ∷ []))

  abbrev pub union_flat : List TransitionNode → TransitionNode
  union_flat flat =
      if is_empty (constants_of flat)
      then close_union (sorted (non_constants flat))
      else union_constant (non_constants flat) (regex_union ids (constants_of flat))

  unfoldable pub transition_union : List TransitionNode → TransitionNode
  unfolding flatten_each flatten_union constants_of non_constants transition_const regex_union sort
      dedup
  transition_union operands =
      if any is_transition_all operands
      then transition_all
      else union_flat (flatten_each flatten_union operands)

  -- A branch that its path excludes goes.
  unfoldable pub clean_branches :
      (TestNode → TransitionNode)
      → (TestNode → TransitionNode)
      → TestNode
      → TestNode
      → TestNode
      → TransitionNode
  unfolding intern_transition_if test_and test_not
  clean_branches clean_then clean_else test true_path false_path =
      if test_is ids true_path false_node
      then clean_else false_path
      else if test_is ids false_path false_node
      then clean_then true_path
      else intern_transition_if test (clean_then true_path) (clean_else false_path)

  -- The two branches are cleaned by the functions given.
  unfoldable pub clean_conditional_path :
      (TestNode → TransitionNode)
      → (TestNode → TransitionNode)
      → TestNode
      → TransitionNode
      → TransitionNode
      → TestNode
      → TransitionNode
  clean_conditional_path clean_then clean_else test a b path =
      if test_is ids test true_node
      then clean_then path
      else if test_is ids test false_node
      then clean_else path
      else if transition_is a b
      then clean_then path
      else clean_branches clean_then clean_else test (test_and ids (path ∷ test ∷ []))
          (test_and ids (path ∷ test_not ids test ∷ []))

  -- The suffix is normalised once; an empty or trivial one is dealt with at once.
  abbrev pub factors_of : RegexNode → List RegexNode
  factors_of (concat_node rs) = regex_list rs
  factors_of r = r ∷ []

  unfoldable pub with_suffix :
      TransitionNode → List RegexNode → (List RegexNode → TransitionNode) → TransitionNode
  unfolding regex_concat
  with_suffix t suffix append =
      if is_empty suffix
      then t
      else let normalized = regex_concat suffix in
        if regex_is ids normalized epsilon_node
        then t
        else if regex_is ids normalized empty_node
        then transition_empty
        else append (factors_of normalized)

  -- The constructors that are called on results, one round of fuel lower.
  module _ (lower : Constructors) where
    open lower use {intersect, negate, append}

    unfoldable mutual
      unfolding transition_union clean_conditional_path clean_branches

      pub clean_transition_path : TransitionNode → TestNode → TransitionNode
      clean_transition_path (const_node r) path = const_node r
      clean_transition_path (if_node test a b) path =
          clean_conditional_path (clean_transition_path a) (clean_transition_path b) test a b path
      clean_transition_path (union_node ts) path = transition_union (clean_paths ts path)
      clean_transition_path (intersect_node ts) path = intersect (clean_paths ts path)
      clean_transition_path (not_node t) path = negate (clean_transition_path t path)
      clean_transition_path (append_node t suffix) path =
          append (clean_transition_path t path) suffix

      pub clean_paths : TransitionNodes → TestNode → List TransitionNode
      clean_paths TransitionNodes.nil path = []
      clean_paths (TransitionNodes.cons t ts) path =
          clean_transition_path t path ∷ clean_paths ts path

    unfoldable pub if_with : TestNode → TransitionNode → TransitionNode → TransitionNode
    unfolding clean_transition_path
    if_with test a b =
        clean_conditional_path (clean_transition_path a) (clean_transition_path b) test a b
          true_node

    -- Two conditionals, with their arms and the nodes themselves.
    abbrev expands_left : TestNode → TransitionNode → TestNode → TransitionNode → Bool
    expands_left test b test' b' =
        is_transition_empty b
        || (not (is_transition_empty b') && ltb (ids.test_uid test) (ids.test_uid test'))

    unfoldable pub intersect_conditionals :
        TestNode
        → TransitionNode
        → TransitionNode
        → TestNode
        → TransitionNode
        → TransitionNode
        → TransitionNode
    unfolding if_with
    intersect_conditionals test a b test' a' b' =
        let left = if_node test a b in
        let right = if_node test' a' b' in
        if is_transition_empty b && is_transition_empty b'
        then (let guard = test_and ids (test ∷ test' ∷ []) in
            if test_is ids guard false_node
            then transition_empty
            else if_with guard (intersect (a ∷ a' ∷ [])) transition_empty)
        else if test_is ids test test'
        then if_with test (intersect (a ∷ a' ∷ [])) (intersect (b ∷ b' ∷ []))
        else if expands_left test b test' b'
        then if_with test (intersect (a ∷ right ∷ [])) (intersect (b ∷ right ∷ []))
        else if_with test' (intersect (left ∷ a' ∷ [])) (intersect (left ∷ b' ∷ []))

    unfoldable pub intersect_distinct : TransitionNode → TransitionNode → TransitionNode
    unfolding intersect_conditionals transition_const regex_intersect sort
    intersect_distinct (const_node empty_node) right = transition_empty
    intersect_distinct left (const_node empty_node) = transition_empty
    intersect_distinct (const_node all_node) right = right
    intersect_distinct left (const_node all_node) = left
    intersect_distinct (const_node r) (const_node s) =
        transition_const (regex_intersect ids (r ∷ s ∷ []))
    intersect_distinct (if_node test a b) (if_node test' a' b') =
        intersect_conditionals test a b test' a' b'
    intersect_distinct (union_node ts) right =
        transition_union (map (λ t. intersect (t ∷ right ∷ [])) (transition_list ts))
    intersect_distinct left (union_node ts) =
        transition_union (map (λ t. intersect (left ∷ t ∷ [])) (transition_list ts))
    intersect_distinct (if_node test a b) right =
        if_with test (intersect (a ∷ right ∷ [])) (intersect (b ∷ right ∷ []))
    intersect_distinct left (if_node test a b) =
        if_with test (intersect (left ∷ a ∷ [])) (intersect (left ∷ b ∷ []))
    intersect_distinct left right =
        intersect_node (transition_slice (sort transition_uid (left ∷ right ∷ [])))

    unfoldable pub transition_intersect_pair : TransitionNode → TransitionNode → TransitionNode
    unfolding intersect_distinct
    transition_intersect_pair left right =
        if transition_is left right then left else intersect_distinct left right

    unfoldable mutual
      unfolding if_with transition_const regex_not test_not transition_union

      pub not_with : TransitionNode → TransitionNode
      not_with (const_node r) = transition_const (regex_not r)
      not_with (if_node test a b) =
          if is_transition_all a && is_transition_empty b
          then if_with (test_not ids test) transition_all transition_empty
          else if_with test (not_with a) (not_with b)
      not_with (union_node ts) = intersect (nots_with ts)
      not_with (intersect_node ts) = transition_union (nots_with ts)
      not_with (not_node t) = t
      not_with (append_node t suffix) = not_node (append_node t suffix)

      pub nots_with : TransitionNodes → List TransitionNode
      nots_with TransitionNodes.nil = []
      nots_with (TransitionNodes.cons t ts) = not_with t ∷ nots_with ts

    unfoldable mutual
      unfolding if_with transition_const regex_concat with_suffix transition_union

      pub append_with : TransitionNode → List RegexNode → TransitionNode
      append_with (const_node r) suffix =
          with_suffix (const_node r) suffix (λ s. transition_const (regex_concat (r ∷ s)))
      append_with (if_node test a b) suffix =
          with_suffix (if_node test a b) suffix
            (λ s. if_with test (append_with a s) (append_with b s))
      append_with (union_node ts) suffix =
          with_suffix (union_node ts) suffix (λ s. transition_union (appends_with ts s))
      append_with (intersect_node ts) suffix =
          with_suffix (intersect_node ts) suffix (λ s. append_node (intersect_node ts) s)
      append_with (not_node t) suffix =
          with_suffix (not_node t) suffix (λ s. append_node (not_node t) s)
      append_with (append_node t existing) suffix =
          with_suffix (append_node t existing) suffix (λ s. append_with t (existing ++ s))

      pub appends_with : TransitionNodes → List RegexNode → List TransitionNode
      appends_with TransitionNodes.nil suffix = []
      appends_with (TransitionNodes.cons t ts) suffix =
          append_with t suffix ∷ appends_with ts suffix

  -- The fold over the operands that are left.
  abbrev pub fold_pairs :
      (TransitionNode → TransitionNode → TransitionNode)
      → TransitionNode
      → List TransitionNode
      → TransitionNode
  fold_pairs pair result [] = result
  fold_pairs pair result (t ∷ ts) = fold_pairs pair (pair result t) ts

  abbrev pub fold_first :
      (TransitionNode → TransitionNode → TransitionNode) → List TransitionNode → TransitionNode
  fold_first pair [] = transition_all
  fold_first pair (t ∷ ts) = fold_pairs pair t ts

  module _ (pair : TransitionNode → TransitionNode → TransitionNode) where
    abbrev pub intersect_constant : List TransitionNode → RegexNode → TransitionNode
    intersect_constant rest r =
        if regex_is ids r empty_node
        then transition_empty
        else fold_first pair
            (sorted (if regex_is ids r all_node then rest else rest ++ transition_const r ∷ []))

    abbrev pub intersect_flat : List TransitionNode → TransitionNode
    intersect_flat flat =
        if is_empty (constants_of flat)
        then fold_first pair (sorted (non_constants flat))
        else intersect_constant (non_constants flat) (regex_intersect ids (constants_of flat))

    unfoldable pub intersect_with : List TransitionNode → TransitionNode
    unfolding flatten_each flatten_intersect constants_of non_constants transition_const
        regex_intersect sort dedup
    intersect_with operands =
        if any is_transition_empty operands
        then transition_empty
        else intersect_flat (flatten_each flatten_intersect operands)

  unfoldable pub constructors : ℕ → Constructors
  unfolding intersect_with transition_intersect_pair not_with append_with
  constructors zero = record {
    intersect = λ ts. transition_empty;
    negate = λ t. transition_empty;
    append = λ t s. transition_empty;
  }
  constructors (suc n) = record {
    intersect = intersect_with (transition_intersect_pair (constructors n));
    negate = not_with (constructors n);
    append = append_with (constructors n);
  }

  -- The sizes of a pair are fuel enough.
  abbrev pub sized_pair : TransitionNode → TransitionNode → TransitionNode
  sized_pair l r = transition_intersect_pair (constructors (size l + size r)) l r

  unfoldable pub transition_intersect : List TransitionNode → TransitionNode
  unfolding intersect_with constructors size
  transition_intersect ts = intersect_with sized_pair ts

  abbrev pub top : Constructors
  top = record {
    intersect = transition_intersect;
    negate = λ t. not_with (constructors (size t)) t;
    append = λ t s. append_with (constructors (size t)) t s;
  }

  unfoldable pub transition_if : TestNode → TransitionNode → TransitionNode → TransitionNode
  unfolding if_with transition_intersect not_with append_with
  transition_if test a b = if_with top test a b

  unfoldable pub transition_not : TransitionNode → TransitionNode
  unfolding not_with transition_intersect append_with
  transition_not t = not_with top t

  unfoldable pub transition_append : TransitionNode → List RegexNode → TransitionNode
  unfolding not_with transition_intersect append_with
  transition_append t suffix = append_with top t suffix
