-- ===== src/Validator/Syntax/Normalize/Sound.antt =====
-- The tests that rust-validator/src/syntax/normalize.rs builds mean what their operands say.
use marsh.Base.{
  ℕ, zero, suc, ◌≤◌, ◌≡◌, refl, sym, ◌∙◌, Bool, not, List, [], ◌∷◌, map, some, arith, any, all,
  Bool-cases, inl, inr,
}
use marsh.Base.Members.{All, All-In, any-not-all}
use marsh.Base.Subsets.{all-dedup-sort}
use marsh.Validator.Source.{eq, neq, flip}
use marsh.Validator.Syntax.Component.{CompiledAtomPattern}
use marsh.Validator.Syntax.Node.{
  TestNode, true_node, false_node, atom_node, and_node, or_node, test_list, eval_test, Numbering,
}
use marsh.Validator.Syntax.Normalize.{
  TestConnective, and, or, dual, children, is_absorber, flatten_tests, depth, drop_redundant,
  close_test, collapses, test_connective, not_within, test_not, test_and, test_or,
}
use marsh.Validator.Syntax.Normalize.Meaning.{
  IsConsistent, meaning, node-meaning, children-meaning, absorber-meaning, identity-meaning,
  any-is_absorber, flatten_tests-meaning, NegatesChildren, collapses-all,
}
use marsh.Validator.Syntax.Normalize.Redundant.{drop_redundant-meaning, IsOperand}
use marsh.Validator.Syntax.Normalize.Shape.{
  IsCanonical, IsPart, flat_of, flat-parts, part-IsOperand, test_connective-Canonical,
  children-Canonical, parts-Canonical,
}
use marsh.Validator.Syntax.Normalize.Depth.{
  Within, children-depth, children-Within, flat-Within, test_connective-depth,
}

module _ (ids : Numbering) (v : CompiledAtomPattern → Bool) (apart : IsConsistent v) where
  close-meaning :
      (c : TestConnective) (ts : List TestNode)
      → meaning v c (close_test ids c ts) ≡ all (meaning v c) ts
  close-meaning c [] = identity-meaning v c
  close-meaning c (t ∷ []) = ground arith
  close-meaning c (t ∷ u ∷ ts) = node-meaning v c (t ∷ u ∷ ts)

  operands-of :
      (c : TestConnective) (ts : List TestNode) → All (IsPart ids c) ts → All (IsOperand ids c) ts
  operands-of c [] h = tt
  operands-of c (t ∷ ts) h = (part-IsOperand ids c t h.0, operands-of c ts h.1)

  test_connective-meaning :
      (negate : TestNode → TestNode) (c : TestConnective) (ts : List TestNode)
      → All (IsCanonical ids) ts
      → NegatesChildren ids v negate c (flat_of ids c ts)
      → meaning v c (test_connective ids negate c ts) ≡ all (meaning v c) ts
  unfolding test_connective
  test_connective-meaning negate c ts h negates = elim (Bool-cases (any (is_absorber c) ts)) [
    | inl e ↦ rw e (absorber-meaning v c ∙ sym (any-is_absorber v c ts e))
    | inr e ↦ rw e (elim (Bool-cases (collapses ids negate c (flat_of ids c ts))) [
      | inl e' ↦ rw e' (
          absorber-meaning v c
          ∙ sym (collapses-all ids v negate c apart (flat_of ids c ts) negates e')
          ∙ flat)
      | inr e' ↦ rw e' (
          close-meaning c (drop_redundant ids c (flat_of ids c ts))
          ∙ drop_redundant-meaning v apart ids c (flat_of ids c ts)
              (operands-of c (flat_of ids c ts) (flat-parts ids c ts h))
          ∙ flat)
    ])
  ]
    where
      flat : all (meaning v c) (flat_of ids c ts) ≡ all (meaning v c) ts
      flat =
          all-dedup-sort ids.test_uid ids.test_uid_injective (meaning v c) (flatten_tests c ts)
          ∙ flatten_tests-meaning v c ts

  -- `negate` is right on canonical tests within a depth.
  abbrev NegatesWithin : ℕ → (TestNode → TestNode) → Type 0
  NegatesWithin n negate =
      (t : TestNode)
      → IsCanonical ids t
      → depth t ≤ n
      → IsCanonical ids (negate t)
        × (depth (negate t) ≤ n)
        × (eval_test v (negate t) ≡ not (eval_test v t))

  negates-children :
      (n : ℕ) (negate : TestNode → TestNode) (c : TestConnective) (ts : List TestNode)
      → NegatesWithin n negate
      → All (IsCanonical ids) ts
      → Within n ts
      → NegatesChildren ids v negate c (flat_of ids c ts)
  negates-children n negate c ts right h w t us at e u at_u =
      let part = All-In (IsPart ids c) t (flat_of ids c ts) (flat-parts ids c ts h) at in
      let within = All-In (λ x. depth x ≤ n) t (flat_of ids c ts) (flat-Within ids n c ts w) at in
      let canonical = (children-Canonical ids (dual c) t us part.0 e).0 in
      (right u (All-In (IsPart ids (dual c)) u us canonical at_u).0
        (All-In (λ x. depth x ≤ n) u us (children-Within n (dual c) t us within e) at_u)).2

  module _ (n : ℕ) (negate : TestNode → TestNode) (right : NegatesWithin n negate) where
    negated-children :
        (ts : List TestNode)
        → All (IsCanonical ids) ts
        → Within n ts
        → All (IsCanonical ids) (map negate ts) × Within n (map negate ts)
    negated-children [] h w = (tt, tt)
    negated-children (t ∷ ts) h w =
        let r = right t h.0 w.0 in
        let rest = negated-children ts h.1 w.1 in ((r.0, rest.0), (r.1, rest.1))

    negated-meaning :
        (c : TestConnective) (ts : List TestNode)
        → All (IsCanonical ids) ts
        → Within n ts
        → all (meaning v (dual c)) (map negate ts) ≡ all (meaning v c) ts
    negated-meaning c [] h w = refl
    negated-meaning and (t ∷ ts) h w =
        ground (arith, right t h.0 w.0, negated-meaning and ts h.1 w.1)
    negated-meaning or (t ∷ ts) h w = ground (arith, right t h.0 w.0, negated-meaning or ts h.1 w.1)

    dual-not :
        (c : TestConnective) (t u : TestNode)
        → meaning v (dual c) u ≡ meaning v c t
        → eval_test v u ≡ not (eval_test v t)
    dual-not and t u e = ground arith
    dual-not or t u e = ground arith

    not-node :
        (c : TestConnective) (t : TestNode) (ts : List TestNode)
        → IsCanonical ids t
        → depth t ≤ suc n
        → children c t ≡ some ts
        → IsCanonical ids (test_connective ids negate (dual c) (map negate ts))
          × (depth (test_connective ids negate (dual c) (map negate ts)) ≤ suc n)
          × (eval_test v (test_connective ids negate (dual c) (map negate ts))
              ≡ not (eval_test v t))
    not-node c t ts h w e =
        let canonical = parts-Canonical ids c ts (children-Canonical ids c t ts h e).0 in
        let within = children-depth n c t ts w e in
        let (canonical', within') = negated-children ts canonical within in
        (
          test_connective-Canonical ids negate (dual c) (map negate ts) canonical',
          test_connective-depth ids negate n (dual c) (map negate ts) within',
          dual-not c t (test_connective ids negate (dual c) (map negate ts)) (
              test_connective-meaning negate (dual c) (map negate ts) canonical'
                (negates-children n negate (dual c) (map negate ts) right canonical' within')
              ∙ negated-meaning c ts canonical within
              ∙ sym (children-meaning v c t ts e)),
        )

  not_within-right : (n : ℕ) → NegatesWithin n (not_within ids n)
  unfolding not_within eval_test depth flip
  not_within-right n true_node h w = (tt, omega arith, refl)
  not_within-right n false_node h w = (tt, omega arith, refl)
  not_within-right n (atom_node eq p) h w = (tt, omega arith, refl)
  not_within-right n (atom_node neq p) h w = (tt, omega arith, ground arith)
  not_within-right zero (and_node ts) h w = absurd (omega arith)
  not_within-right zero (or_node ts) h w = absurd (omega arith)
  not_within-right (suc n) (and_node ts) h w =
      not-node n (not_within ids n) (not_within-right n) and (and_node ts) (test_list ts) h w refl
  not_within-right (suc n) (or_node ts) h w =
      not-node n (not_within ids n) (not_within-right n) or (or_node ts) (test_list ts) h w refl

  -- The complement of a canonical test is canonical, and holds exactly where the test does not.
  pub test_not-complement :
      (t : TestNode)
      → IsCanonical ids t
      → IsCanonical ids (test_not ids t) × (eval_test v (test_not ids t) ≡ not (eval_test v t))
  unfolding test_not
  test_not-complement t h = let r = not_within-right (depth t) t h (omega arith) in (r.0, r.2)

  test_not-children :
      (c : TestConnective) (ts : List TestNode)
      → All (IsCanonical ids) ts
      → NegatesChildren ids v (test_not ids) c (flat_of ids c ts)
  test_not-children c ts h t us at e u at_u =
      let part = All-In (IsPart ids c) t (flat_of ids c ts) (flat-parts ids c ts h) at in
      let canonical = (children-Canonical ids (dual c) t us part.0 e).0 in
      (test_not-complement u (All-In (IsPart ids (dual c)) u us canonical at_u).0).1

  -- A conjunction of canonical tests is canonical, and holds where each of them does.
  pub test_and-all :
      (ts : List TestNode)
      → All (IsCanonical ids) ts
      → IsCanonical ids (test_and ids ts) × (eval_test v (test_and ids ts) ≡ all (eval_test v) ts)
  unfolding test_and
  test_and-all ts h = (
    test_connective-Canonical ids (test_not ids) and ts h,
    test_connective-meaning (test_not ids) and ts h (test_not-children and ts h),
  )

  -- A disjunction of canonical tests is canonical, and holds where one of them does.
  pub test_or-any :
      (ts : List TestNode)
      → All (IsCanonical ids) ts
      → IsCanonical ids (test_or ids ts) × (eval_test v (test_or ids ts) ≡ any (eval_test v) ts)
  unfolding test_or
  test_or-any ts h = (
    test_connective-Canonical ids (test_not ids) or ts h,
    dual-of (test_or_node)
        (test_connective-meaning (test_not ids) or ts h (test_not-children or ts h)),
  )
    where
      test_or_node : Bool
      test_or_node = eval_test v (test_connective ids (test_not ids) or ts)

      dual-of : (b : Bool) → not b ≡ all (λ t. not (eval_test v t)) ts → b ≡ any (eval_test v) ts
      dual-of b e = ground (arith, any-not-all (eval_test v) ts)
