-- ===== src/Validator/Syntax/Normalize/Shape.antt =====
-- The shape of the tests that rust-validator/src/syntax/normalize.rs builds: children are in strict
-- order, of another connective, and no deeper than the operands.
use marsh.Base.{◌≡◌, refl, List, [], ◌∷◌, none, some, any, retain, Bool-cases, inl, inr}
use marsh.Base.Members.{All, All-append, All-retain}
use marsh.Base.Canonical.{
  IsStrict, sort, dedup, sort-All, dedup-All, dedup-sort-IsStrict, retain-IsStrict,
}
use marsh.Validator.Syntax.Node.{
  TestNode, TestNodes, true_node, false_node, atom_node, and_node, or_node, test_list, test_slice,
  test_list-slice, Numbering,
}
use marsh.Validator.Syntax.Normalize.{
  TestConnective, and, or, dual, identity, absorber, children, node, is_absorber, flatten_test,
  flatten_tests, is_kept, drop_redundant, is_redundant_shape, close_test, collapses,
  test_connective, test_not, test_and, test_or,
}
use marsh.Validator.Syntax.Normalize.Redundant.{IsOperand}

abbrev mutual
  pub IsCanonical : Numbering → TestNode → Type 0
  IsCanonical ids true_node = Unit
  IsCanonical ids false_node = Unit
  IsCanonical ids (atom_node c p) = Unit
  IsCanonical ids (and_node ts) = AreParts ids and ts × IsStrict ids.test_uid (test_list ts)
  IsCanonical ids (or_node ts) = AreParts ids or ts × IsStrict ids.test_uid (test_list ts)

  pub AreParts : Numbering → TestConnective → TestNodes → Type 0
  AreParts ids c TestNodes.nil = Unit
  AreParts ids c (TestNodes.cons t ts) =
      (IsCanonical ids t × (children c t ≡ none)) × AreParts ids c ts

module _ (ids : Numbering) where
  abbrev pub IsPart : TestConnective → TestNode → Type 0
  IsPart c t = IsCanonical ids t × (children c t ≡ none)

  AreParts-list :
      (c : TestConnective) (ts : TestNodes) → AreParts ids c ts → All (IsPart c) (test_list ts)
  AreParts-list c TestNodes.nil h = tt
  AreParts-list c (TestNodes.cons t ts) h = (h.0, AreParts-list c ts h.1)

  AreParts-slice :
      (c : TestConnective) (ts : List TestNode) → All (IsPart c) ts → AreParts ids c (test_slice ts)
  AreParts-slice c [] h = tt
  AreParts-slice c (t ∷ ts) h = (h.0, AreParts-slice c ts h.1)

  pub parts-Canonical :
      (c : TestConnective) (ts : List TestNode) → All (IsPart c) ts → All (IsCanonical ids) ts
  parts-Canonical c [] h = tt
  parts-Canonical c (t ∷ ts) h = (h.0.0, parts-Canonical c ts h.1)

  pub children-Canonical :
      (c : TestConnective) (t : TestNode) (ts : List TestNode)
      → IsCanonical ids t
      → children c t ≡ some ts
      → All (IsPart c) ts × IsStrict ids.test_uid ts
  children-Canonical and (and_node us) ts h e =
      let same : test_list us ≡ ts = cc in rw (← same) (AreParts-list and us h.0, h.1)
  children-Canonical or (or_node us) ts h e =
      let same : test_list us ≡ ts = cc in rw (← same) (AreParts-list or us h.0, h.1)
  children-Canonical and t ts h e = cc
  children-Canonical or t ts h e = cc

  pub part-IsOperand : (c : TestConnective) (t : TestNode) → IsPart c t → IsOperand ids c t
  part-IsOperand c t h = (h.1, λ ts e. (children-Canonical (dual c) t ts h.0 e).1)

  flatten_test-parts :
      (c : TestConnective) (t : TestNode) → IsCanonical ids t → All (IsPart c) (flatten_test c t)
  unfolding flatten_test
  flatten_test-parts and true_node h = tt
  flatten_test-parts and false_node h = ((tt, refl), tt)
  flatten_test-parts and (atom_node d p) h = ((tt, refl), tt)
  flatten_test-parts and (and_node ts) h = AreParts-list and ts h.0
  flatten_test-parts and (or_node ts) h = ((h, refl), tt)
  flatten_test-parts or true_node h = ((tt, refl), tt)
  flatten_test-parts or false_node h = tt
  flatten_test-parts or (atom_node d p) h = ((tt, refl), tt)
  flatten_test-parts or (and_node ts) h = ((h, refl), tt)
  flatten_test-parts or (or_node ts) h = AreParts-list or ts h.0

  flatten_tests-parts :
      (c : TestConnective) (ts : List TestNode)
      → All (IsCanonical ids) ts
      → All (IsPart c) (flatten_tests c ts)
  unfolding flatten_tests
  flatten_tests-parts c [] h = tt
  flatten_tests-parts c (t ∷ ts) h =
      All-append (IsPart c) (flatten_test c t) (flatten_tests c ts) (flatten_test-parts c t h.0)
        (flatten_tests-parts c ts h.1)

  -- The operands that are left after flattening, sorting and deduplication.
  abbrev pub flat_of : TestConnective → List TestNode → List TestNode
  flat_of c ts = dedup ids.test_uid (sort ids.test_uid (flatten_tests c ts))

  pub flat-All :
      (P : TestNode → Type 0) (c : TestConnective) (ts : List TestNode)
      → All P (flatten_tests c ts)
      → All P (flat_of c ts)
  flat-All P c ts h =
      dedup-All ids.test_uid P (sort ids.test_uid (flatten_tests c ts))
        (sort-All ids.test_uid P (flatten_tests c ts) h)

  pub flat-parts :
      (c : TestConnective) (ts : List TestNode)
      → All (IsCanonical ids) ts
      → All (IsPart c) (flat_of c ts)
  flat-parts c ts h = flat-All (IsPart c) c ts (flatten_tests-parts c ts h)

  pub constant-Canonical :
      (c : TestConnective) → IsCanonical ids (absorber c) × IsCanonical ids (identity c)
  constant-Canonical and = (tt, tt)
  constant-Canonical or = (tt, tt)

  node-Canonical :
      (c : TestConnective) (ts : List TestNode)
      → All (IsPart c) ts
      → IsStrict ids.test_uid ts
      → IsCanonical ids (node c ts)
  node-Canonical and ts h s = (AreParts-slice and ts h, rw (test_list-slice ts) s)
  node-Canonical or ts h s = (AreParts-slice or ts h, rw (test_list-slice ts) s)

  close-Canonical :
      (c : TestConnective) (ts : List TestNode)
      → All (IsPart c) ts
      → IsStrict ids.test_uid ts
      → IsCanonical ids (close_test ids c ts)
  close-Canonical c [] h s = (constant-Canonical c).1
  close-Canonical c (t ∷ []) h s = h.0.0
  close-Canonical c (t ∷ u ∷ ts) h s = node-Canonical c (t ∷ u ∷ ts) h s

  drop_redundant-Canonical :
      (c : TestConnective) (ts : List TestNode)
      → All (IsPart c) ts
      → IsStrict ids.test_uid ts
      → IsCanonical ids (close_test ids c (drop_redundant ids c ts))
  drop_redundant-Canonical c ts h s = elim (Bool-cases (any (is_redundant_shape c) ts)) [
    | inl e ↦ rw e (
        close-Canonical c (retain (is_kept ids c ts) ts)
          (All-retain (IsPart c) (is_kept ids c ts) ts h)
          (retain-IsStrict ids.test_uid (is_kept ids c ts) ts s))
    | inr e ↦ rw e (close-Canonical c ts h s)
  ]

  pub test_connective-Canonical :
      (negate : TestNode → TestNode) (c : TestConnective) (ts : List TestNode)
      → All (IsCanonical ids) ts
      → IsCanonical ids (test_connective ids negate c ts)
  unfolding test_connective
  test_connective-Canonical negate c ts h = elim (Bool-cases (any (is_absorber c) ts)) [
    | inl e ↦ rw e (constant-Canonical c).0
    | inr e ↦ rw e (elim (Bool-cases (collapses ids negate c (flat_of c ts))) [
      | inl e' ↦ rw e' (constant-Canonical c).0
      | inr e' ↦ rw e' (
          drop_redundant-Canonical c (flat_of c ts) (flat-parts c ts h)
            (dedup-sort-IsStrict ids.test_uid (flatten_tests c ts)))
    ])
  ]

  pub test_and-Canonical :
      (ts : List TestNode) → All (IsCanonical ids) ts → IsCanonical ids (test_and ids ts)
  unfolding test_and
  test_and-Canonical ts h = test_connective-Canonical (test_not ids) and ts h

  pub test_or-Canonical :
      (ts : List TestNode) → All (IsCanonical ids) ts → IsCanonical ids (test_or ids ts)
  unfolding test_or
  test_or-Canonical ts h = test_connective-Canonical (test_not ids) or ts h
