-- ===== src/Validator/Syntax/Normalize/Depth.antt =====
-- The smart constructors of rust-validator/src/syntax/normalize.rs build tests that are at most one
-- level deeper than their operands.
use marsh.Base.{
  ℕ, zero, suc, ◌≤◌, ◌≡◌, ◌≢◌, refl, List, [], ◌∷◌, some, arith, any, Bool-cases, inl, inr,
}
use marsh.Base.Members.{All, All-append, All-retain}
use marsh.Validator.Syntax.Node.{
  TestNode, TestNodes, true_node, false_node, atom_node, and_node, or_node, test_list, test_slice,
  Numbering,
}
use marsh.Validator.Syntax.Normalize.{
  TestConnective, and, or, identity, absorber, children, node, is_absorber, flatten_test,
  flatten_tests, depth, depths, is_kept, drop_redundant, is_redundant_shape, close_test, collapses,
  test_connective,
}
use marsh.Validator.Syntax.Normalize.Shape.{flat-All, flat_of}

abbrev pub Within : ℕ → List TestNode → Type 0
Within n ts = All (λ t. depth t ≤ n) ts

Within-list : (n : ℕ) (ts : TestNodes) → depths ts ≤ n → Within n (test_list ts)
unfolding depth
Within-list n TestNodes.nil h = tt
Within-list n (TestNodes.cons t ts) h = (omega (arith, h), Within-list n ts (omega (arith, h)))

Within-slice : (n : ℕ) (ts : List TestNode) → Within n ts → depths (test_slice ts) ≤ n
unfolding depth
Within-slice n [] h = omega arith
Within-slice n (t ∷ ts) h = omega (arith, h.0, Within-slice n ts h.1)

-- The children of a node are less deep.
pub children-depth :
    (n : ℕ) (c : TestConnective) (t : TestNode) (ts : List TestNode)
    → depth t ≤ suc n
    → children c t ≡ some ts
    → Within n ts
unfolding depth
children-depth n and (and_node us) ts h e =
    let same : test_list us ≡ ts = cc in rw (← same) (Within-list n us (omega arith))
children-depth n or (or_node us) ts h e =
    let same : test_list us ≡ ts = cc in rw (← same) (Within-list n us (omega arith))
children-depth n and t ts h e = cc
children-depth n or t ts h e = cc

children-deep :
    (c : TestConnective) (t : TestNode) (ts : List TestNode) → depth t ≤ 0 → children c t ≢ some ts
unfolding depth
children-deep and (and_node us) ts h e = omega arith
children-deep or (or_node us) ts h e = omega arith
children-deep and t ts h e = cc
children-deep or t ts h e = cc

-- So the children of anything within a bound are within the same bound.
pub children-Within :
    (n : ℕ) (c : TestConnective) (t : TestNode) (ts : List TestNode)
    → depth t ≤ n
    → children c t ≡ some ts
    → Within n ts
children-Within zero c t ts h e = absurd (children-deep c t ts h e)
children-Within (suc n) c t ts h e = widen ts (children-depth n c t ts h e)
  where
    widen : (us : List TestNode) → Within n us → Within (suc n) us
    widen [] w = tt
    widen (u ∷ us) w = (omega (arith, w.0), widen us w.1)

flatten_test-Within :
    (n : ℕ) (c : TestConnective) (t : TestNode) → depth t ≤ n → Within n (flatten_test c t)
unfolding flatten_test
flatten_test-Within n and true_node h = tt
flatten_test-Within n and false_node h = (h, tt)
flatten_test-Within n and (atom_node d p) h = (h, tt)
flatten_test-Within n and (and_node ts) h =
    children-Within n and (and_node ts) (test_list ts) h refl
flatten_test-Within n and (or_node ts) h = (h, tt)
flatten_test-Within n or true_node h = (h, tt)
flatten_test-Within n or false_node h = tt
flatten_test-Within n or (atom_node d p) h = (h, tt)
flatten_test-Within n or (and_node ts) h = (h, tt)
flatten_test-Within n or (or_node ts) h = children-Within n or (or_node ts) (test_list ts) h refl

flatten_tests-Within :
    (n : ℕ) (c : TestConnective) (ts : List TestNode) → Within n ts → Within n (flatten_tests c ts)
unfolding flatten_tests
flatten_tests-Within n c [] h = tt
flatten_tests-Within n c (t ∷ ts) h =
    All-append (λ u. depth u ≤ n) (flatten_test c t) (flatten_tests c ts)
      (flatten_test-Within n c t h.0) (flatten_tests-Within n c ts h.1)

constant-depth : (c : TestConnective) (n : ℕ) → (depth (absorber c) ≤ n) × (depth (identity c) ≤ n)
unfolding depth
constant-depth and n = (omega arith, omega arith)
constant-depth or n = (omega arith, omega arith)

node-depth :
    (n : ℕ) (c : TestConnective) (ts : List TestNode) → Within n ts → depth (node c ts) ≤ suc n
unfolding depth
node-depth n and ts h = omega (arith, Within-slice n ts h)
node-depth n or ts h = omega (arith, Within-slice n ts h)

module _ (ids : Numbering) where
  close-depth :
      (n : ℕ) (c : TestConnective) (ts : List TestNode)
      → Within n ts
      → depth (close_test ids c ts) ≤ suc n
  close-depth n c [] h = (constant-depth c (suc n)).1
  close-depth n c (t ∷ []) h = omega (arith, h.0)
  close-depth n c (t ∷ u ∷ ts) h = node-depth n c (t ∷ u ∷ ts) h

  drop_redundant-Within :
      (n : ℕ) (c : TestConnective) (ts : List TestNode)
      → Within n ts
      → Within n (drop_redundant ids c ts)
  drop_redundant-Within n c ts h = elim (Bool-cases (any (is_redundant_shape c) ts)) [
    | inl e ↦ rw e (All-retain (λ u. depth u ≤ n) (is_kept ids c ts) ts h)
    | inr e ↦ rw e h
  ]

  pub flat-Within :
      (n : ℕ) (c : TestConnective) (ts : List TestNode) → Within n ts → Within n (flat_of ids c ts)
  flat-Within n c ts h = flat-All ids (λ u. depth u ≤ n) c ts (flatten_tests-Within n c ts h)

  pub test_connective-depth :
      (negate : TestNode → TestNode) (n : ℕ) (c : TestConnective) (ts : List TestNode)
      → Within n ts
      → depth (test_connective ids negate c ts) ≤ suc n
  unfolding test_connective
  test_connective-depth negate n c ts h = elim (Bool-cases (any (is_absorber c) ts)) [
    | inl e ↦ rw e (constant-depth c (suc n)).0
    | inr e ↦ rw e (elim (Bool-cases (collapses ids negate c (flat_of ids c ts))) [
      | inl e' ↦ rw e' (constant-depth c (suc n)).0
      | inr e' ↦ rw e' (
          close-depth n c (drop_redundant ids c (flat_of ids c ts))
            (drop_redundant-Within n c (flat_of ids c ts) (flat-Within n c ts h)))
    ])
  ]
