-- ===== src/Validator/Syntax/Node.antt =====
-- rust-validator/src/syntax/node.rs: hash-consed tests and regular expressions, as trees.
-- References compare by the unique numbers of their nodes, which the hash-consing library gives:
-- equal trees, and only those, have one number.
use marsh.Base.{ℕ, ◌≡◌, refl, ap, Bool, true, false, not, ◌&&◌, ◌||◌, List, [], ◌∷◌, all, any}
use marsh.Validator.Source.{Comparison, eq, neq}
use marsh.Validator.Syntax.Component.{CompiledAtomPattern}

mutual
  pub data TestNode : Type 0 where
    true_node false_node : TestNode
    atom_node : Comparison → CompiledAtomPattern → TestNode
    and_node : TestNodes → TestNode
    or_node : TestNodes → TestNode

  pub data TestNodes : Type 0 where
    nil : TestNodes
    cons : TestNode → TestNodes → TestNodes

mutual
  pub data RegexNode : Type 0 where
    empty_node all_node epsilon_node : RegexNode
    test_node : TestNode → RegexNode
    union_node : RegexNodes → RegexNode
    concat_node : RegexNodes → RegexNode
    star_node : RegexNode → RegexNode
    intersect_node : RegexNodes → RegexNode
    not_node : RegexNode → RegexNode

  pub data RegexNodes : Type 0 where
    nil : RegexNodes
    cons : RegexNode → RegexNodes → RegexNodes

-- Slices of children, as lists.
abbrev pub test_list : TestNodes → List TestNode
test_list TestNodes.nil = []
test_list (TestNodes.cons t ts) = t ∷ test_list ts

abbrev pub test_slice : List TestNode → TestNodes
test_slice [] = TestNodes.nil
test_slice (t ∷ ts) = TestNodes.cons t (test_slice ts)

abbrev pub regex_list : RegexNodes → List RegexNode
regex_list RegexNodes.nil = []
regex_list (RegexNodes.cons r rs) = r ∷ regex_list rs

abbrev pub regex_slice : List RegexNode → RegexNodes
regex_slice [] = RegexNodes.nil
regex_slice (r ∷ rs) = RegexNodes.cons r (regex_slice rs)

pub test_list-slice : (ts : List TestNode) → test_list (test_slice ts) ≡ ts
test_list-slice [] = refl
test_list-slice (t ∷ ts) = ap (λ l. t ∷ l) (test_list-slice ts)

pub regex_list-slice : (rs : List RegexNode) → regex_list (regex_slice rs) ≡ rs
regex_list-slice [] = refl
regex_list-slice (r ∷ rs) = ap (λ l. r ∷ l) (regex_list-slice rs)

pub test_slice-list : (ts : TestNodes) → test_slice (test_list ts) ≡ ts
test_slice-list TestNodes.nil = refl
test_slice-list (TestNodes.cons t ts) = ap (TestNodes.cons t) (test_slice-list ts)

pub regex_slice-list : (rs : RegexNodes) → regex_slice (regex_list rs) ≡ rs
regex_slice-list RegexNodes.nil = refl
regex_slice-list (RegexNodes.cons r rs) = ap (RegexNodes.cons r) (regex_slice-list rs)

-- The unique numbers.
pub record Numbering : Type 0 where
  pub test_uid : TestNode → ℕ
  pub regex_uid : RegexNode → ℕ
  pub test_uid_injective : (t u : TestNode) → test_uid t ≡ test_uid u → t ≡ u
  pub regex_uid_injective : (r s : RegexNode) → regex_uid r ≡ regex_uid s → r ≡ s

-- What a test means where `v` says which atoms match.
abbrev pub compare_with : Comparison → Bool → Bool
compare_with eq equal = equal
compare_with neq equal = not equal

unfoldable mutual
  pub eval_test : (CompiledAtomPattern → Bool) → TestNode → Bool
  eval_test v true_node = true
  eval_test v false_node = false
  eval_test v (atom_node c p) = compare_with c (v p)
  eval_test v (and_node ts) = eval_all v ts
  eval_test v (or_node ts) = eval_any v ts

  pub eval_all : (CompiledAtomPattern → Bool) → TestNodes → Bool
  eval_all v TestNodes.nil = true
  eval_all v (TestNodes.cons t ts) = eval_test v t && eval_all v ts

  pub eval_any : (CompiledAtomPattern → Bool) → TestNodes → Bool
  eval_any v TestNodes.nil = false
  eval_any v (TestNodes.cons t ts) = eval_test v t || eval_any v ts

pub eval_all-list :
    (v : CompiledAtomPattern → Bool) (ts : TestNodes)
    → eval_all v ts ≡ all (eval_test v) (test_list ts)
unfolding eval_test
eval_all-list v TestNodes.nil = refl
eval_all-list v (TestNodes.cons t ts) = ap (λ b. eval_test v t && b) (eval_all-list v ts)

pub eval_any-list :
    (v : CompiledAtomPattern → Bool) (ts : TestNodes)
    → eval_any v ts ≡ any (eval_test v) (test_list ts)
unfolding eval_test
eval_any-list v TestNodes.nil = refl
eval_any-list v (TestNodes.cons t ts) = ap (λ b. eval_test v t || b) (eval_any-list v ts)
