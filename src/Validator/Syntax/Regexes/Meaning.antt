-- ===== src/Validator/Syntax/Regexes/Meaning.antt =====
-- Unions and intersections of rust-validator/src/syntax/normalize.rs at one history: read through
-- `polar`, a union is a conjunction of negated meanings.
use marsh.Base.{
  ◌≡◌, refl, sym, ap, ◌∙◌, Bool, true, false, not, ◌&&◌, List, [], ◌∷◌, some, arith, any, all,
  Bool-cases, inl, inr,
}
use marsh.Base.Members.{all-append}
use marsh.Validator.Language.Words.{single}
use marsh.Validator.Syntax.Component.{CompiledAtomPattern}
use marsh.Validator.Syntax.Node.{
  TestNode, RegexNode, empty_node, all_node, test_node, union_node, intersect_node, not_node,
  regex_list, regex_slice, regex_list-slice, eval_test, Numbering,
}
use marsh.Validator.Syntax.Normalize.{TestConnective, and, or, dual}
use marsh.Validator.Syntax.Normalize.Meaning.{polar}
use marsh.Validator.Syntax.Regexes.{
  is_all, is_empty_node, regex_children, flatten_regex, flatten_regexes, tests_of, non_tests,
  regex_close, complementary_regex, is_complement_of,
}
use marsh.Validator.Syntax.Regexes.Words.{accepts, some-list, each-list}

module _ {E : Type 0} (sat : E → CompiledAtomPattern → Bool) (h : List E) where
  abbrev pub meaning : TestConnective → RegexNode → Bool
  meaning c r = polar c (accepts sat r h)

  not-any : (rs : List RegexNode) → not (any (λ r. accepts sat r h) rs) ≡ all (meaning or) rs
  not-any [] = refl
  not-any (r ∷ rs) = ground (arith, not-any rs)

  not-all : (rs : List RegexNode) → not (all (λ r. accepts sat r h) rs) ≡ any (meaning or) rs
  not-all [] = refl
  not-all (r ∷ rs) = ground (arith, not-all rs)

  pub any-from_or :
      (b : Bool) (rs : List RegexNode)
      → not b ≡ all (meaning or) rs
      → b ≡ any (λ r. accepts sat r h) rs
  any-from_or b rs e = ground (arith, not-any rs)

  children-meaning :
      (c : TestConnective) (r : RegexNode) (rs : List RegexNode)
      → regex_children c r ≡ some rs
      → meaning c r ≡ all (meaning c) rs
  unfolding accepts
  children-meaning and (intersect_node qs) rs e =
      let same : regex_list qs ≡ rs = cc in each-list sat qs h ∙ ap (all (meaning and)) same
  children-meaning or (union_node qs) rs e =
      let same : regex_list qs ≡ rs = cc in
      ap not (some-list sat qs h) ∙ not-any (regex_list qs) ∙ ap (all (meaning or)) same
  children-meaning and r rs e = cc
  children-meaning or r rs e = cc

  pub dual-children-meaning :
      (c : TestConnective) (r : RegexNode) (rs : List RegexNode)
      → regex_children (dual c) r ≡ some rs
      → meaning c r ≡ any (meaning c) rs
  unfolding accepts
  dual-children-meaning or (intersect_node qs) rs e =
      let same : regex_list qs ≡ rs = cc in
      ap not (each-list sat qs h) ∙ not-all (regex_list qs) ∙ ap (any (meaning or)) same
  dual-children-meaning and (union_node qs) rs e =
      let same : regex_list qs ≡ rs = cc in some-list sat qs h ∙ ap (any (meaning and)) same
  dual-children-meaning and r rs e = cc
  dual-children-meaning or r rs e = cc

  pub close-meaning :
      (c : TestConnective) (rs : List RegexNode) → meaning c (regex_close c rs) ≡ all (meaning c) rs
  unfolding accepts
  close-meaning and [] = refl
  close-meaning or [] = refl
  close-meaning and (r ∷ []) = ground arith
  close-meaning or (r ∷ []) = ground arith
  close-meaning and (r ∷ s ∷ rs) =
      each-list sat (regex_slice (r ∷ s ∷ rs)) h
      ∙ ap (all (meaning and)) (regex_list-slice (r ∷ s ∷ rs))
  close-meaning or (r ∷ s ∷ rs) =
      ap not (some-list sat (regex_slice (r ∷ s ∷ rs)) h)
      ∙ not-any (regex_list (regex_slice (r ∷ s ∷ rs)))
      ∙ ap (all (meaning or)) (regex_list-slice (r ∷ s ∷ rs))

  pub any-is_all : (rs : List RegexNode) → any is_all rs ≡ true → all (meaning or) rs ≡ false
  unfolding accepts
  any-is_all [] e = cc
  any-is_all (r ∷ rs) e = ground (arith, any-is_all rs)

  pub any-is_empty :
      (rs : List RegexNode) → any is_empty_node rs ≡ true → all (meaning and) rs ≡ false
  unfolding accepts
  any-is_empty [] e = cc
  any-is_empty (r ∷ rs) e = ground (arith, any-is_empty rs)

  flatten_regex-meaning :
      (c : TestConnective) (r : RegexNode) → all (meaning c) (flatten_regex c r) ≡ meaning c r
  unfolding flatten_regex accepts
  flatten_regex-meaning and all_node = refl
  flatten_regex-meaning or empty_node = refl
  flatten_regex-meaning and (intersect_node rs) = sym (each-list sat rs h)
  flatten_regex-meaning or (union_node rs) =
      sym (ap not (some-list sat rs h) ∙ not-any (regex_list rs))
  flatten_regex-meaning and r = ground arith
  flatten_regex-meaning or r = ground arith

  pub flatten_regexes-meaning :
      (c : TestConnective) (rs : List RegexNode)
      → all (meaning c) (flatten_regexes c rs) ≡ all (meaning c) rs
  unfolding flatten_regexes
  flatten_regexes-meaning c [] = refl
  flatten_regexes-meaning c (r ∷ rs) =
      all-append (meaning c) (flatten_regex c r) (flatten_regexes c rs)
      ∙ rw (flatten_regex-meaning c r, flatten_regexes-meaning c rs)

  abbrev pub test_meaning : TestConnective → TestNode → Bool
  test_meaning c t = polar c (single (λ e. eval_test (sat e) t) h)

  pub split_tests-meaning :
      (c : TestConnective) (rs : List RegexNode)
      → all (meaning c) rs ≡ all (meaning c) (non_tests rs) && all (test_meaning c) (tests_of rs)
  unfolding non_tests tests_of accepts
  split_tests-meaning c [] = refl
  split_tests-meaning c (test_node t ∷ rs) = ground (arith, split_tests-meaning c rs)
  split_tests-meaning c (r ∷ rs) = ground (arith, split_tests-meaning c rs)

  pub complementary-meaning :
      (ids : Numbering) (c : TestConnective) (r s : RegexNode)
      → complementary_regex ids r s ≡ true
      → (meaning c r && meaning c s) ≡ false
  unfolding complementary_regex
  complementary-meaning ids c r s e = elim (Bool-cases (is_complement_of ids r s)) [
    | inl p ↦ one c r s p
    | inr p ↦ ground (arith, one c s r (ground (arith, p)))
  ]
    where
      one :
          (d : TestConnective) (x y : RegexNode)
          → is_complement_of ids x y ≡ true
          → (meaning d x && meaning d y) ≡ false
      one and (not_node x) y q =
          rw (ids.regex_uid_injective x y (ground (arith, q))) (unfold accepts in ground arith)
      one or (not_node x) y q =
          rw (ids.regex_uid_injective x y (ground (arith, q))) (unfold accepts in ground arith)
      one d x y q = cc
