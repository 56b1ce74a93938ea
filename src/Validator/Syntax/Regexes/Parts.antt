-- ===== src/Validator/Syntax/Regexes/Parts.antt =====
-- normalize.rs: canonical regular expressions, and the operands of their unions and intersections.
use marsh.Base.{
  ◌≡◌, refl, Bool, true, false, List, [], ◌∷◌, none, some, ◌==◌, retain, Bool-cases, if◌then◌else◌,
  inl, inr,
}
use marsh.Base.Members.{All, All-append, All-retain}
use marsh.Base.Canonical.{IsStrict, sort, sort-All, dedup-All, retain-IsStrict}
use marsh.Validator.Syntax.Node.{
  TestNode, false_node, RegexNode, RegexNodes, empty_node, all_node, epsilon_node, test_node,
  union_node, concat_node, star_node, intersect_node, not_node, regex_list, regex_slice, Numbering,
}
use marsh.Validator.Syntax.Normalize.{TestConnective, and, or, dual}
use marsh.Validator.Syntax.Normalize.Shape.{IsCanonical as IsCanonicalTest}
use marsh.Validator.Syntax.Regexes.{
  regex_is, regex_children, flatten_regex, flatten_regexes, tests_of, non_tests, regex_test,
  push_test, sorted,
}
use marsh.Validator.Syntax.Regexes.Absorb.{IsOperand}

abbrev mutual
  pub IsCanonical : Numbering → RegexNode → Type 0
  IsCanonical ids empty_node = Unit
  IsCanonical ids all_node = Unit
  IsCanonical ids epsilon_node = Unit
  IsCanonical ids (test_node t) = IsCanonicalTest ids t
  IsCanonical ids (union_node rs) = AreParts ids or rs × IsStrict ids.regex_uid (regex_list rs)
  IsCanonical ids (concat_node rs) = AreFactors ids rs
  IsCanonical ids (star_node r) = IsCanonical ids r
  IsCanonical ids (intersect_node rs) = AreParts ids and rs × IsStrict ids.regex_uid (regex_list rs)
  IsCanonical ids (not_node r) = IsCanonical ids r

  pub AreParts : Numbering → TestConnective → RegexNodes → Type 0
  AreParts ids c RegexNodes.nil = Unit
  AreParts ids c (RegexNodes.cons r rs) =
      (IsCanonical ids r × (regex_children c r ≡ none)) × AreParts ids c rs

  pub AreFactors : Numbering → RegexNodes → Type 0
  AreFactors ids RegexNodes.nil = Unit
  AreFactors ids (RegexNodes.cons r rs) = IsCanonical ids r × AreFactors ids rs

module _ (ids : Numbering) where
  abbrev pub IsPart : TestConnective → RegexNode → Type 0
  IsPart c r = IsCanonical ids r × (regex_children c r ≡ none)

  pub parts-list :
      (c : TestConnective) (rs : RegexNodes) → AreParts ids c rs → All (IsPart c) (regex_list rs)
  parts-list c RegexNodes.nil h = tt
  parts-list c (RegexNodes.cons r rs) h = (h.0, parts-list c rs h.1)

  pub parts-slice :
      (c : TestConnective) (rs : List RegexNode)
      → All (IsPart c) rs
      → AreParts ids c (regex_slice rs)
  parts-slice c [] h = tt
  parts-slice c (r ∷ rs) h = (h.0, parts-slice c rs h.1)

  pub factors-list : (rs : RegexNodes) → AreFactors ids rs → All (IsCanonical ids) (regex_list rs)
  factors-list RegexNodes.nil h = tt
  factors-list (RegexNodes.cons r rs) h = (h.0, factors-list rs h.1)

  pub factors-slice :
      (rs : List RegexNode) → All (IsCanonical ids) rs → AreFactors ids (regex_slice rs)
  factors-slice [] h = tt
  factors-slice (r ∷ rs) h = (h.0, factors-slice rs h.1)

  pub parts-Canonical :
      (c : TestConnective) (rs : RegexNodes)
      → AreParts ids c rs
      → All (IsCanonical ids) (regex_list rs)
  parts-Canonical c RegexNodes.nil h = tt
  parts-Canonical c (RegexNodes.cons r rs) h = (h.0.0, parts-Canonical c rs h.1)

  pub children-IsStrict :
      (c : TestConnective) (r : RegexNode) (rs : List RegexNode)
      → IsCanonical ids r
      → regex_children c r ≡ some rs
      → IsStrict ids.regex_uid rs
  children-IsStrict and (intersect_node qs) rs h e =
      let same : regex_list qs ≡ rs = cc in rw (← same) h.1
  children-IsStrict or (union_node qs) rs h e =
      let same : regex_list qs ≡ rs = cc in rw (← same) h.1
  children-IsStrict and r rs h e = cc
  children-IsStrict or r rs h e = cc

  pub operands-of :
      (c : TestConnective) (rs : List RegexNode) → All (IsPart c) rs → All (IsOperand ids c) rs
  operands-of c [] h = tt
  operands-of c (r ∷ rs) h =
      ((h.0.1, λ qs e. children-IsStrict (dual c) r qs h.0.0 e), operands-of c rs h.1)

  pub flatten_regex-parts :
      (c : TestConnective) (r : RegexNode) → IsCanonical ids r → All (IsPart c) (flatten_regex c r)
  unfolding flatten_regex
  flatten_regex-parts and all_node h = tt
  flatten_regex-parts or empty_node h = tt
  flatten_regex-parts and (intersect_node rs) h = parts-list and rs h.0
  flatten_regex-parts or (union_node rs) h = parts-list or rs h.0
  flatten_regex-parts and r h = ((h, refl), tt)
  flatten_regex-parts or r h = ((h, refl), tt)

  pub flatten_regexes-parts :
      (c : TestConnective) (rs : List RegexNode)
      → All (IsCanonical ids) rs
      → All (IsPart c) (flatten_regexes c rs)
  unfolding flatten_regexes
  flatten_regexes-parts c [] h = tt
  flatten_regexes-parts c (r ∷ rs) h =
      All-append (IsPart c) (flatten_regex c r) (flatten_regexes c rs) (flatten_regex-parts c r h.0)
        (flatten_regexes-parts c rs h.1)

  pub tests_of-Canonical :
      (c : TestConnective) (rs : List RegexNode)
      → All (IsPart c) rs
      → All (IsCanonicalTest ids) (tests_of rs)
  unfolding tests_of
  tests_of-Canonical c [] h = tt
  tests_of-Canonical c (test_node t ∷ rs) h = (h.0.0, tests_of-Canonical c rs h.1)
  tests_of-Canonical c (r ∷ rs) h = tests_of-Canonical c rs h.1

  pub non_tests-parts :
      (c : TestConnective) (rs : List RegexNode) → All (IsPart c) rs → All (IsPart c) (non_tests rs)
  unfolding non_tests
  non_tests-parts c [] h = tt
  non_tests-parts c (test_node t ∷ rs) h = non_tests-parts c rs h.1
  non_tests-parts c (r ∷ rs) h = (h.0, non_tests-parts c rs h.1)

  pub regex_test-IsPart :
      (c : TestConnective) (t : TestNode) → IsCanonicalTest ids t → IsPart c (regex_test ids t)
  unfolding regex_test
  regex_test-IsPart and t h = elim (Bool-cases (ids.test_uid t == ids.test_uid false_node)) [
    | inl e ↦ rw e (tt, refl)
    | inr e ↦ rw e (h, refl)
  ]
  regex_test-IsPart or t h = elim (Bool-cases (ids.test_uid t == ids.test_uid false_node)) [
    | inl e ↦ rw e (tt, refl)
    | inr e ↦ rw e (h, refl)
  ]

  pub push_test-parts :
      (c : TestConnective) (rs : List RegexNode) (r : RegexNode)
      → All (IsPart c) rs
      → IsPart c r
      → All (IsPart c) (push_test ids rs r)
  push_test-parts c rs r h p = elim (Bool-cases (regex_is ids r empty_node)) [
    | inl e ↦ rw e h
    | inr e ↦ rw e (All-append (IsPart c) rs (r ∷ []) h (p, tt))
  ]

  pub sorted-parts :
      (c : TestConnective) (rs : List RegexNode)
      → All (IsPart c) rs
      → All (IsPart c) (sorted ids rs)
  sorted-parts c rs h =
      dedup-All ids.regex_uid (IsPart c) (sort ids.regex_uid rs)
        (sort-All ids.regex_uid (IsPart c) rs h)

  -- What stays true of the operands as some are removed.
  abbrev pub AreOrdered : TestConnective → List RegexNode → Type 0
  AreOrdered c rs = All (IsPart c) rs × IsStrict ids.regex_uid rs

  pub retain-ordered :
      (c : TestConnective) (p : RegexNode → Bool) (rs : List RegexNode)
      → AreOrdered c rs
      → AreOrdered c (retain p rs)
  retain-ordered c p rs h = (All-retain (IsPart c) p rs h.0, retain-IsStrict ids.regex_uid p rs h.1)

  pub retain_if-ordered :
      (c : TestConnective) (b : Bool) (p : RegexNode → Bool) (rs : List RegexNode)
      → AreOrdered c rs
      → AreOrdered c (if b then retain p rs else rs)
  retain_if-ordered c true p rs h = retain-ordered c p rs h
  retain_if-ordered c false p rs h = h
