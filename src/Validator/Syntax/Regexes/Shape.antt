-- ===== src/Validator/Syntax/Regexes/Shape.antt =====
-- The shape of the regular expressions that rust-validator/src/syntax/normalize.rs builds.
use marsh.Base.{
  sym, Bool, true, false, not, ◌&&◌, List, [], ◌∷◌, ◌++◌, ◌==◌, any, all, is_some_and, is_empty,
  Bool-cases, if◌then◌else◌, inl, inr,
}
use mathlib.Core.Path.{subst}
use marsh.Base.Members.{All, All-append}
use marsh.Base.Canonical.{IsStrict, dedup-sort-IsStrict}
use marsh.Validator.Syntax.Node.{
  true_node, RegexNode, empty_node, all_node, epsilon_node, test_node, concat_node, star_node,
  not_node, regex_list, regex_list-slice, Numbering,
}
use marsh.Validator.Syntax.Normalize.{TestConnective, and, or, test_and, test_or, pair_satisfies}
use marsh.Validator.Syntax.Normalize.Shape.{test_and-Canonical, test_or-Canonical}
use marsh.Validator.Syntax.Regexes.{
  nullable, regex_is, has_regex, is_epsilon_complement, regex_children, flatten_regexes, tests_of,
  non_tests, flatten_factors, close_concat, regex_concat, regex_not, regex_close, regex_test,
  drop_absorbed, drop_epsilon, drop_epsilon_complement, regex_absorbed_by_sibling, regex_star,
  is_empty_node, sorted, is_all, unite_tests, finish_union, regex_union, complementary_regex,
  intersect_rest, finish_intersect, intersect_tests, intersect_flat, regex_intersect,
}
use marsh.Validator.Syntax.Regexes.Parts.{
  IsCanonical, IsPart, parts-slice, factors-list, factors-slice, flatten_regexes-parts,
  tests_of-Canonical, non_tests-parts, regex_test-IsPart, push_test-parts, sorted-parts, AreOrdered,
  retain_if-ordered,
}

module _ (ids : Numbering) where
  pub close-Canonical :
      (c : TestConnective) (rs : List RegexNode)
      → AreOrdered ids c rs
      → IsCanonical ids (regex_close c rs)
  close-Canonical and [] h = tt
  close-Canonical or [] h = tt
  close-Canonical and (r ∷ []) h = h.0.0.0
  close-Canonical or (r ∷ []) h = h.0.0.0
  close-Canonical and (r ∷ s ∷ rs) h = (
    parts-slice ids and (r ∷ s ∷ rs) h.0,
    subst (IsStrict ids.regex_uid) (sym (regex_list-slice (r ∷ s ∷ rs))) h.1,
  )
  close-Canonical or (r ∷ s ∷ rs) h = (
    parts-slice ids or (r ∷ s ∷ rs) h.0,
    subst (IsStrict ids.regex_uid) (sym (regex_list-slice (r ∷ s ∷ rs))) h.1,
  )

  flatten_factors-Canonical :
      (rs : List RegexNode) → All (IsCanonical ids) rs → All (IsCanonical ids) (flatten_factors rs)
  unfolding flatten_factors
  flatten_factors-Canonical [] h = tt
  flatten_factors-Canonical (epsilon_node ∷ rs) h = flatten_factors-Canonical rs h.1
  flatten_factors-Canonical (concat_node qs ∷ rs) h =
      All-append (IsCanonical ids) (regex_list qs) (flatten_factors rs) (factors-list ids qs h.0)
        (flatten_factors-Canonical rs h.1)
  flatten_factors-Canonical (r ∷ rs) h = (h.0, flatten_factors-Canonical rs h.1)

  close_concat-Canonical :
      (rs : List RegexNode) → All (IsCanonical ids) rs → IsCanonical ids (close_concat rs)
  close_concat-Canonical [] h = tt
  close_concat-Canonical (r ∷ []) h = h.0
  close_concat-Canonical (r ∷ s ∷ rs) h = factors-slice ids (r ∷ s ∷ rs) h

  pub regex_concat-Canonical :
      (rs : List RegexNode) → All (IsCanonical ids) rs → IsCanonical ids (regex_concat rs)
  unfolding regex_concat
  regex_concat-Canonical rs h = elim (Bool-cases (any is_empty_node rs)) [
    | inl e ↦ rw e tt
    | inr e ↦ rw e (close_concat-Canonical (flatten_factors rs) (flatten_factors-Canonical rs h))
  ]

  pub regex_not-Canonical : (r : RegexNode) → IsCanonical ids r → IsCanonical ids (regex_not r)
  unfolding regex_not
  regex_not-Canonical empty_node h = tt
  regex_not-Canonical all_node h = tt
  regex_not-Canonical (not_node r) h = h
  regex_not-Canonical r h = h

  pub regex_star-Canonical :
      (r : RegexNode) → IsCanonical ids r → IsCanonical ids (regex_star ids r)
  unfolding regex_star
  regex_star-Canonical empty_node h = tt
  regex_star-Canonical epsilon_node h = tt
  regex_star-Canonical all_node h = tt
  regex_star-Canonical (test_node t) h =
      elim (Bool-cases (ids.test_uid t == ids.test_uid true_node)) [
        | inl e ↦ rw e tt
        | inr e ↦ rw e h
      ]
  regex_star-Canonical (star_node r) h = h
  regex_star-Canonical r h = h

  pub unite_tests-parts :
      (rs : List RegexNode) → All (IsPart ids or) rs → All (IsPart ids or) (unite_tests ids rs)
  unfolding unite_tests
  unite_tests-parts rs p = elim (Bool-cases (is_empty (tests_of rs))) [
    | inl e ↦ rw e (non_tests-parts ids or rs p)
    | inr e ↦ rw e (
        push_test-parts ids or (non_tests rs) (regex_test ids (test_or ids (tests_of rs)))
          (non_tests-parts ids or rs p)
          (regex_test-IsPart ids or (test_or ids (tests_of rs))
            (test_or-Canonical ids (tests_of rs) (tests_of-Canonical ids or rs p))))
  ]

  ordered :
      (c : TestConnective) (rs : List RegexNode)
      → All (IsPart ids c) rs
      → AreOrdered ids c (sorted ids rs)
  ordered c rs p = (sorted-parts ids c rs p, dedup-sort-IsStrict ids.regex_uid rs)

  finish_union-Canonical :
      (rs : List RegexNode) → AreOrdered ids or rs → IsCanonical ids (finish_union ids rs)
  finish_union-Canonical rs o = elim (Bool-cases (pair_satisfies (complementary_regex ids) rs)) [
    | inl e ↦ rw e tt
    | inr e ↦ rw e (
        close-Canonical or (drop_absorbed ids or (drop_epsilon ids rs)) (
          retain_if-ordered ids or
            (any (λ r. is_some_and (λ _. true) (regex_children and r)) (drop_epsilon ids rs))
            (λ r. not (regex_absorbed_by_sibling ids (drop_epsilon ids rs) r)) (drop_epsilon ids rs)
            (retain_if-ordered ids or
              (has_regex ids rs epsilon_node
                && any (λ r. not (regex_is ids r epsilon_node) && nullable r) rs)
              (λ r. not (regex_is ids r epsilon_node)) rs o)))
  ]

  pub regex_union-Canonical :
      (rs : List RegexNode) → All (IsCanonical ids) rs → IsCanonical ids (regex_union ids rs)
  unfolding regex_union
  regex_union-Canonical rs c = elim (Bool-cases (any is_all rs)) [
    | inl e ↦ rw e tt
    | inr e ↦ rw e (
        finish_union-Canonical (sorted ids (unite_tests ids (flatten_regexes or rs))) (
          ordered or (unite_tests ids (flatten_regexes or rs))
            (unite_tests-parts (flatten_regexes or rs) (flatten_regexes-parts ids or rs c))))
  ]

  intersect_rest-Canonical :
      (rs : List RegexNode) → AreOrdered ids and rs → IsCanonical ids (intersect_rest ids rs)
  intersect_rest-Canonical rs o = elim (Bool-cases (has_regex ids rs epsilon_node)) [
    | inl e ↦ rw e (constants (all nullable rs))
    | inr e ↦ rw e (
        close-Canonical and (drop_absorbed ids and (drop_epsilon_complement ids rs)) (
          retain_if-ordered ids and
            (any (λ r. is_some_and (λ _. true) (regex_children or r))
              (drop_epsilon_complement ids rs))
            (λ r. not (regex_absorbed_by_sibling ids (drop_epsilon_complement ids rs) r))
            (drop_epsilon_complement ids rs)
            (retain_if-ordered ids and
              (any (λ r. not (is_epsilon_complement r) && not (nullable r)) rs)
              (λ r. not (is_epsilon_complement r)) rs o)))
  ]
    where
      constants : (b : Bool) → IsCanonical ids (if b then epsilon_node else empty_node)
      constants true = tt
      constants false = tt

  finish_intersect-Canonical :
      (rs : List RegexNode) → AreOrdered ids and rs → IsCanonical ids (finish_intersect ids rs)
  finish_intersect-Canonical rs o =
      elim (Bool-cases (pair_satisfies (complementary_regex ids) rs)) [
        | inl e ↦ rw e tt
        | inr e ↦ rw e (intersect_rest-Canonical rs o)
      ]

  intersect_tests-Canonical :
      (rest : List RegexNode) (r : RegexNode)
      → All (IsPart ids and) rest
      → IsPart ids and r
      → IsCanonical ids (intersect_tests ids rest r)
  intersect_tests-Canonical rest r p q = elim (Bool-cases (regex_is ids r empty_node)) [
    | inl e ↦ rw e tt
    | inr e ↦ rw e (
        finish_intersect-Canonical (sorted ids (rest ++ r ∷ []))
          (ordered and (rest ++ r ∷ []) (All-append (IsPart ids and) rest (r ∷ []) p (q, tt))))
  ]

  intersect_flat-Canonical :
      (rs : List RegexNode) → All (IsPart ids and) rs → IsCanonical ids (intersect_flat ids rs)
  intersect_flat-Canonical rs p = elim (Bool-cases (is_empty (tests_of rs))) [
    | inl e ↦ rw e (
        finish_intersect-Canonical (sorted ids (non_tests rs))
          (ordered and (non_tests rs) (non_tests-parts ids and rs p)))
    | inr e ↦ rw e (
        intersect_tests-Canonical (non_tests rs) (regex_test ids (test_and ids (tests_of rs)))
          (non_tests-parts ids and rs p)
          (regex_test-IsPart ids and (test_and ids (tests_of rs))
            (test_and-Canonical ids (tests_of rs) (tests_of-Canonical ids and rs p))))
  ]

  pub regex_intersect-Canonical :
      (rs : List RegexNode) → All (IsCanonical ids) rs → IsCanonical ids (regex_intersect ids rs)
  unfolding regex_intersect
  regex_intersect-Canonical rs c = elim (Bool-cases (any is_empty_node rs)) [
    | inl e ↦ rw e tt
    | inr e ↦
        rw e
          (intersect_flat-Canonical (flatten_regexes and rs) (flatten_regexes-parts ids and rs c))
  ]
