-- ===== src/Validator/Syntax/Normalize/Redundant.antt =====
-- The operands that rust-validator/src/syntax/normalize.rs removes: each is implied by a sibling
-- that weighs less, so the removal of several at once changes nothing.
use marsh.Base.{
  ℕ, suc, ◌+◌, ◌<◌, ◌≡◌, ◌≢◌, inl, inr, refl, sym, ap, ◌∙◌, Bool, true, false, ◌&&◌, List, none,
  some, arith, any, all, Bool-cases, if◌then◌else◌,
}
use marsh.Base.Members.{All, In, any-In, In-any, In-all, All-In, All-intro, all-retain-covered}
use marsh.Base.Canonical.{IsStrict}
use marsh.Base.Subsets.{any-uid, total, In-le-total, subset-total}
use marsh.Validator.Source.{Comparison, eq, neq, flip}
use marsh.Validator.Syntax.Component.{CompiledAtomPattern, atom_has_eq}
use marsh.Validator.Syntax.Node.{
  TestNode, TestNodes, true_node, false_node, atom_node, and_node, or_node, test_list, eval_test,
  Numbering, test_slice-list, test_slice,
}
use marsh.Validator.Syntax.Normalize.{
  TestConnective, and, or, dual, children, same_comparison, absorbs, absorbed_by_sibling,
  implies_constant_atom, redundant_constant_atom, redundant_comparison, has_test, is_kept,
  drop_redundant, is_redundant_shape,
}
use marsh.Validator.Syntax.Normalize.Meaning.{IsConsistent, meaning, dual-children-meaning}

-- An atom that a sibling may make redundant weighs more than one that may not.
abbrev atom_weight : TestConnective → Comparison → ℕ
atom_weight c d = if same_comparison d (redundant_comparison c) then 2 else 1

mutual
  weight : TestConnective → TestNode → ℕ
  weight c true_node = 1
  weight c false_node = 1
  weight c (atom_node d p) = atom_weight c d
  weight c (and_node ts) = suc (weights c ts)
  weight c (or_node ts) = suc (weights c ts)

  weights : TestConnective → TestNodes → ℕ
  weights c TestNodes.nil = 0
  weights c (TestNodes.cons t ts) = weight c t + weights c ts

weight-pos : (c : TestConnective) (t : TestNode) → 0 < weight c t
unfolding weight flip
weight-pos c true_node = omega arith
weight-pos c false_node = omega arith
weight-pos and (atom_node eq p) = omega arith
weight-pos and (atom_node neq p) = omega arith
weight-pos or (atom_node eq p) = omega arith
weight-pos or (atom_node neq p) = omega arith
weight-pos c (and_node ts) = omega arith
weight-pos c (or_node ts) = omega arith

module _ (ids : Numbering) (c : TestConnective) where
  open ids use {test_uid, test_uid_injective}

  weights-total : (ts : TestNodes) → weights c ts ≡ total test_uid (weight c) (test_list ts)
  unfolding weight
  weights-total TestNodes.nil = refl
  weights-total (TestNodes.cons t ts) = ap (λ n. weight c t + n) (weights-total ts)

  -- The children of an operand of the dual connective, in order.
  abbrev pub IsOperand : TestNode → Type 0
  IsOperand t =
      (children c t ≡ none)
      × ((ts : List TestNode) → children (dual c) t ≡ some ts → IsStrict test_uid ts)

  children-weight :
      (d : TestConnective) (t : TestNode) (ts : List TestNode)
      → children d t ≡ some ts
      → weight c t ≡ suc (total test_uid (weight c) ts)
  unfolding weight
  children-weight and (and_node us) ts e =
      let same : test_list us ≡ ts = cc in
      ap suc (weights-total us ∙ ap (total test_uid (weight c)) same)
  children-weight or (or_node us) ts e =
      let same : test_list us ≡ ts = cc in
      ap suc (weights-total us ∙ ap (total test_uid (weight c)) same)
  children-weight and t ts e = cc
  children-weight or t ts e = cc

  children-injective :
      (d : TestConnective) (t u : TestNode) (ts : List TestNode)
      → children d t ≡ some ts
      → children d u ≡ some ts
      → t ≡ u
  children-injective and (and_node us) (and_node ws) ts e f =
      ap and_node (sym (test_slice-list us) ∙ ap test_slice (cc) ∙ test_slice-list ws)
  children-injective or (or_node us) (or_node ws) ts e f =
      ap or_node (sym (test_slice-list us) ∙ ap test_slice (cc) ∙ test_slice-list ws)
  children-injective and t u ts e f = cc
  children-injective or t u ts e f = cc

  -- What an absorbing sibling is.
  data Absorption (x y : TestNode) : Type 0 where
    direct :
        (xs : List TestNode)
        → children (dual c) x ≡ some xs
        → has_test ids xs y ≡ true
        → Absorption x y
    general :
        (xs ys : List TestNode)
        → children (dual c) x ≡ some xs
        → children (dual c) y ≡ some ys
        → all (has_test ids xs) ys ≡ true
        → Absorption x y

and-true : (a b : Bool) → (a && b) ≡ true → b ≡ true
and-true a b h = ground arith

absorption :
    (ids : Numbering) (d : TestConnective) (x y : TestNode)
    → children d x ≡ none
    → children d y ≡ none
    → absorbs ids x y ≡ true
    → Absorption ids d x y
unfolding absorbs
absorption ids and (or_node xs) (or_node ys) nx ny h =
    general (test_list xs) (test_list ys) refl refl (and-true _ _ h)
absorption ids or (and_node xs) (and_node ys) nx ny h =
    general (test_list xs) (test_list ys) refl refl (and-true _ _ h)
absorption ids and (or_node xs) (and_node ys) nx ny h = cc
absorption ids or (and_node xs) (or_node ys) nx ny h = cc
absorption ids and (or_node xs) y nx ny h = direct (test_list xs) refl (and-true _ _ h)
absorption ids or (and_node xs) y nx ny h = direct (test_list xs) refl (and-true _ _ h)
absorption ids and x y nx ny h = absurd (ground arith)
absorption ids or x y nx ny h = absurd (ground arith)

absorbs-other : (ids : Numbering) (x y : TestNode) → absorbs ids x y ≡ true → x ≢ y
unfolding absorbs
absorbs-other ids x y h e = ground (arith, ap ids.test_uid e)

implies-weight :
    (d : TestConnective) (x y : TestNode)
    → implies_constant_atom (redundant_comparison d) x y ≡ true
    → weight d y < weight d x
unfolding implies_constant_atom weight flip
implies-weight and (atom_node a p) (atom_node b q) h = ground arith
implies-weight or (atom_node a p) (atom_node b q) h = ground arith
implies-weight d x y h = cc

module _ (v : CompiledAtomPattern → Bool) (apart : IsConsistent v) where
  implies-meaning :
      (d : TestConnective) (x y : TestNode)
      → implies_constant_atom (redundant_comparison d) x y ≡ true
      → meaning v d y ≡ true
      → meaning v d x ≡ true
  unfolding implies_constant_atom eval_test flip
  implies-meaning and (atom_node a p) (atom_node b q) h holds = ground (arith, apart p q)
  implies-meaning or (atom_node a p) (atom_node b q) h holds = ground (arith, apart p q)
  implies-meaning d x y h holds = cc

  module _ (ids : Numbering) (c : TestConnective) where
    open ids use {test_uid, test_uid_injective}

    abbrev Smaller : TestNode → TestNode → Type 0
    Smaller x y = (weight c y < weight c x) × (meaning v c y ≡ true → meaning v c x ≡ true)

    Absorption-Smaller :
        (x y : TestNode)
        → IsOperand ids c x
        → IsOperand ids c y
        → x ≢ y
        → Absorption ids c x y
        → Smaller x y
    Absorption-Smaller x y px py ne (direct xs e has) =
        let at : In y xs = any-uid test_uid test_uid_injective y xs has in
        (
          omega (
            arith,
            children-weight ids c (dual c) x xs e,
            In-le-total test_uid (weight c) y xs at,
          ),
          λ holds. dual-children-meaning v c x xs e ∙ In-any (meaning v c) y xs at holds,
        )
    Absorption-Smaller x y px py ne (general xs ys e f has) = (lighter, implied)
      where
        inside : (z : TestNode) → In z ys → In z xs
        inside z at =
            any-uid test_uid test_uid_injective z xs (In-all (has_test ids xs) z ys at has)

        lighter : weight c y < weight c x
        lighter =
            elim (subset-total test_uid (weight c) (weight-pos c) xs ys (px.1 xs e) (py.1 ys f)
              (All-intro (λ z. In z xs) ys inside)) [
                | inl same ↦
                    absurd (ne (children-injective ids c (dual c) x y xs e (f ∙ ap some same)))
                | inr lt ↦ omega (
                  arith,
                  children-weight ids c (dual c) x xs e,
                  children-weight ids c (dual c) y ys f,
                )
              ]

        implied : meaning v c y ≡ true → meaning v c x ≡ true
        implied holds =
            let (z, at, e') =
              any-In (meaning v c) ys (sym (dual-children-meaning v c y ys f) ∙ holds) in
            dual-children-meaning v c x xs e ∙ In-any (meaning v c) z xs (inside z at) e'

    module _ (flat : List TestNode) (operands : All (IsOperand ids c) flat) where
      covered :
          (x : TestNode)
          → In x flat
          → is_kept ids c flat x ≡ false
          → (y : TestNode) × In y flat
            × (weight c y < weight c x)
            × (meaning v c y ≡ true → meaning v c x ≡ true)
      unfolding absorbed_by_sibling redundant_constant_atom
      covered x at goes = elim (Bool-cases (any (absorbs ids x) flat)) [
        | inl found ↦
            let (y, at_y, e) = any-In (absorbs ids x) flat found in
            let px = All-In (IsOperand ids c) x flat operands at in
            let py = All-In (IsOperand ids c) y flat operands at_y in
            let smaller =
              Absorption-Smaller x y px py (absorbs-other ids x y e)
                (absorption ids c x y px.0 py.0 e) in
            (y, at_y, smaller.0, smaller.1)
        | inr none_found ↦
            let (y, at_y, e) =
              any-In (implies_constant_atom (redundant_comparison c) x) flat
                (ground (arith, none_found)) in
            (y, at_y, implies-weight c x y e, implies-meaning c x y e)
      ]

      -- Removing the redundant operands does not change the meaning.
      pub drop_redundant-meaning :
          all (meaning v c) (drop_redundant ids c flat) ≡ all (meaning v c) flat
      drop_redundant-meaning = elim (Bool-cases (any (is_redundant_shape c) flat)) [
        | inl some_shape ↦
            rw some_shape
              (all-retain-covered (meaning v c) (weight c) (is_kept ids c flat) flat covered)
        | inr no_shape ↦ rw no_shape refl
      ]
