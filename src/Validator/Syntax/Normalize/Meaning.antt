-- ===== src/Validator/Syntax/Normalize/Meaning.antt =====
-- What the tests of rust-validator/src/syntax/normalize.rs mean under one connective: read through
-- `polar`, disjunction is conjunction of the negated meanings, so each law is stated once.
use marsh.Base.{
  ◌≡◌, refl, sym, ap, ◌∙◌, Bool, true, false, not, ◌&&◌, List, [], ◌∷◌, some, arith, any, all,
  Bool-cases, Option-cases, ◌==◌, inl, inr,
}
use marsh.Base.Members.{In, any-In, In-all, all-append}
use marsh.Base.Subsets.{any-uid}
use marsh.Validator.Syntax.Component.{CompiledAtomPattern, atom_has_eq, atom_beq_iff}
use marsh.Validator.Syntax.Node.{
  TestNode, true_node, false_node, atom_node, and_node, or_node, test_list, test_slice,
  test_list-slice, eval_test, eval_all-list, eval_any-list, Numbering,
}
use marsh.Validator.Syntax.Normalize.{
  TestConnective, and, or, dual, identity, absorber, children, node, contradictory_comparison,
  pair_satisfies, complementary_test, distinct_constant_patterns, distinct_constant_atoms,
  is_absorber, flatten_test, flatten_tests, is_compound_complement, tests_have_complements,
  collapses,
}

-- One component of an event has one value.
abbrev pub IsConsistent : (CompiledAtomPattern → Bool) → Type 0
IsConsistent v =
    (p q : CompiledAtomPattern) → distinct_constant_patterns p q ≡ true → (v p && v q) ≡ false

abbrev pub polar : TestConnective → Bool → Bool
polar and b = b
polar or b = not b

module _ (v : CompiledAtomPattern → Bool) (c : TestConnective) where
  abbrev pub meaning : TestNode → Bool
  meaning t = polar c (eval_test v t)

  abbrev pub Excludes : TestNode → TestNode → Type 0
  Excludes t u = (meaning t && meaning u) ≡ false

module _ (v : CompiledAtomPattern → Bool) where
  all_pointwise :
      {T : Type 0} (f g : T → Bool) (ts : List T) → ((t : T) → f t ≡ g t) → all f ts ≡ all g ts
  all_pointwise f g [] e = refl
  all_pointwise f g (t ∷ ts) e = rw (e t, all_pointwise f g ts e)

  not-any : (ts : List TestNode) → not (any (eval_test v) ts) ≡ all (λ t. not (eval_test v t)) ts
  not-any [] = refl
  not-any (t ∷ ts) = ground (arith, not-any ts)

  not-all : (ts : List TestNode) → not (all (eval_test v) ts) ≡ any (λ t. not (eval_test v t)) ts
  not-all [] = refl
  not-all (t ∷ ts) = ground (arith, not-all ts)

  pub node-meaning :
      (c : TestConnective) (ts : List TestNode) → meaning v c (node c ts) ≡ all (meaning v c) ts
  unfolding eval_test
  node-meaning and ts = rw (eval_all-list v (test_slice ts), test_list-slice ts)
  node-meaning or ts = rw (eval_any-list v (test_slice ts), test_list-slice ts) (not-any ts)

  pub children-meaning :
      (c : TestConnective) (t : TestNode) (ts : List TestNode)
      → children c t ≡ some ts
      → meaning v c t ≡ all (meaning v c) ts
  unfolding eval_test
  children-meaning and (and_node us) ts e =
      let same : test_list us ≡ ts = cc in eval_all-list v us ∙ ap (all (eval_test v)) same
  children-meaning or (or_node us) ts e =
      let same : test_list us ≡ ts = cc in
      ap not (eval_any-list v us)
      ∙ not-any (test_list us)
      ∙ ap (all (λ t. not (eval_test v t))) same
  children-meaning and t ts e = cc
  children-meaning or t ts e = cc

  pub dual-children-meaning :
      (c : TestConnective) (t : TestNode) (ts : List TestNode)
      → children (dual c) t ≡ some ts
      → meaning v c t ≡ any (meaning v c) ts
  unfolding eval_test
  dual-children-meaning or (and_node us) ts e =
      let same : test_list us ≡ ts = cc in
      ap not (eval_all-list v us)
      ∙ not-all (test_list us)
      ∙ ap (any (λ t. not (eval_test v t))) same
  dual-children-meaning and (or_node us) ts e =
      let same : test_list us ≡ ts = cc in eval_any-list v us ∙ ap (any (eval_test v)) same
  dual-children-meaning and t ts e = cc
  dual-children-meaning or t ts e = cc

  pub absorber-meaning : (c : TestConnective) → meaning v c (absorber c) ≡ false
  unfolding eval_test
  absorber-meaning and = refl
  absorber-meaning or = refl

  pub identity-meaning : (c : TestConnective) → meaning v c (identity c) ≡ true
  unfolding eval_test
  identity-meaning and = refl
  identity-meaning or = refl

  -- An operand that the loop stops at.
  pub any-is_absorber :
      (c : TestConnective) (ts : List TestNode)
      → any (is_absorber c) ts ≡ true
      → all (meaning v c) ts ≡ false
  unfolding eval_test
  any-is_absorber c [] h = cc
  any-is_absorber and (t ∷ ts) h = ground (arith, any-is_absorber and ts)
  any-is_absorber or (t ∷ ts) h = ground (arith, any-is_absorber or ts)

  flatten_test-meaning :
      (c : TestConnective) (t : TestNode) → all (meaning v c) (flatten_test c t) ≡ meaning v c t
  unfolding flatten_test eval_test
  flatten_test-meaning and true_node = refl
  flatten_test-meaning and false_node = refl
  flatten_test-meaning and (atom_node c p) = ground arith
  flatten_test-meaning and (and_node ts) = sym (eval_all-list v ts)
  flatten_test-meaning and (or_node ts) = ground arith
  flatten_test-meaning or true_node = refl
  flatten_test-meaning or false_node = refl
  flatten_test-meaning or (atom_node c p) = ground arith
  flatten_test-meaning or (and_node ts) = ground arith
  flatten_test-meaning or (or_node ts) = sym (ap not (eval_any-list v ts) ∙ not-any (test_list ts))

  pub flatten_tests-meaning :
      (c : TestConnective) (ts : List TestNode)
      → all (meaning v c) (flatten_tests c ts) ≡ all (meaning v c) ts
  unfolding flatten_tests
  flatten_tests-meaning c [] = refl
  flatten_tests-meaning c (t ∷ ts) =
      all-append (meaning v c) (flatten_test c t) (flatten_tests c ts)
      ∙ rw (flatten_test-meaning c t, flatten_tests-meaning c ts)

  complementary-Excludes :
      (c : TestConnective) (t u : TestNode) → complementary_test t u ≡ true → Excludes v c t u
  unfolding complementary_test eval_test
  complementary-Excludes and (atom_node d p) (atom_node d' q) h =
      ground (arith, atom_beq_iff p q, ap v)
  complementary-Excludes or (atom_node d p) (atom_node d' q) h = ground (arith, atom_beq_iff p q)
  complementary-Excludes c t u h = cc

  distinct-Excludes :
      IsConsistent v
      → (c : TestConnective) (t u : TestNode)
      → distinct_constant_atoms (contradictory_comparison c) t u ≡ true
      → Excludes v c t u
  unfolding distinct_constant_atoms eval_test
  distinct-Excludes apart and (atom_node d p) (atom_node d' q) h = ground (arith, apart p q)
  distinct-Excludes apart or (atom_node d p) (atom_node d' q) h = ground (arith, apart p q)
  distinct-Excludes apart c t u h = cc

pub pair_satisfies-all :
    {T : Type 0} (m : T → Bool) (p : T → T → Bool) (ts : List T)
    → ((t u : T) → p t u ≡ true → (m t && m u) ≡ false)
    → pair_satisfies p ts ≡ true
    → all m ts ≡ false
unfolding pair_satisfies
pair_satisfies-all m p [] excludes h = cc
pair_satisfies-all m p (t ∷ ts) excludes h = elim (Bool-cases (any (p t) ts)) [
  | inl found ↦
      let (u, at, e) = any-In (p t) ts found in
      elim (Bool-cases (all m ts)) [
        | inl holds ↦ ground (arith, excludes t u e, In-all m u ts at holds)
        | inr fails ↦ ground (arith, fails)
      ]
  | inr not_here ↦ ground (arith, pair_satisfies-all m p ts excludes (ground (arith, not_here)))
]

-- `negate` is right on the children of every operand.
module _ (ids : Numbering) (v : CompiledAtomPattern → Bool) (negate : TestNode → TestNode)
    (c : TestConnective) where
  open ids use {test_uid, test_uid_injective}

  abbrev Negates : List TestNode → Type 0
  Negates ts = (t : TestNode) → In t ts → eval_test v (negate t) ≡ not (eval_test v t)

  abbrev pub NegatesChildren : List TestNode → Type 0
  NegatesChildren tests =
      (t : TestNode) (ts : List TestNode) → In t tests → children (dual c) t ≡ some ts → Negates ts

  compound_complement-all :
      (tests : List TestNode) (t : TestNode)
      → In t tests
      → NegatesChildren tests
      → is_compound_complement ids negate c tests t ≡ true
      → all (meaning v c) tests ≡ false
  unfolding is_compound_complement
  compound_complement-all tests t at negates h = elim (Option-cases (children (dual c) t)) [
    | inl e ↦ absurd (cc (rw (e, is_compound_complement) at h))
    | inr (ts, e) ↦ elim (Bool-cases (all (meaning v c) tests)) [
      | inr fails ↦ fails
      | inl holds ↦
          let here : meaning v c t ≡ true = In-all (meaning v c) t tests at holds in
          let (u, at_u, is_true) =
            any-In (meaning v c) ts (sym (dual-children-meaning v c t ts e) ∙ here) in
          let listed : any (λ w. test_uid (negate u) == test_uid w) tests ≡ true =
            In-all (λ w. any (λ x. test_uid (negate w) == test_uid x) tests) u ts at_u
              (rw (e, is_compound_complement) at h) in
          let negated : meaning v c (negate u) ≡ true =
            In-all (meaning v c) (negate u) tests
              (any-uid test_uid test_uid_injective (negate u) tests listed) holds in
          absurd (opposite c u is_true negated (negates t ts at e u at_u))
    ]
  ]
    where
      opposite :
          (d : TestConnective) (u : TestNode)
          → meaning v d u ≡ true
          → meaning v d (negate u) ≡ true
          → eval_test v (negate u) ≡ not (eval_test v u)
          → ⊥
      opposite and u p q e = ground arith
      opposite or u p q e = ground arith

  pub collapses-all :
      IsConsistent v
      → (tests : List TestNode) → NegatesChildren tests
      → collapses ids negate c tests ≡ true
      → all (meaning v c) tests ≡ false
  unfolding tests_have_complements
  collapses-all apart tests negates h =
      elim (Bool-cases (pair_satisfies complementary_test tests)) [
        | inl e ↦
            pair_satisfies-all (meaning v c) complementary_test tests (complementary-Excludes v c) e
        | inr e ↦ elim (Bool-cases (any (is_compound_complement ids negate c tests) tests)) [
          | inl f ↦
              let (t, at, g) = any-In (is_compound_complement ids negate c tests) tests f in
              compound_complement-all tests t at negates g
          | inr f ↦
              pair_satisfies-all (meaning v c)
                (distinct_constant_atoms (contradictory_comparison c)) tests
                (distinct-Excludes v apart c) (ground (arith, e, f))
        ]
      ]
