-- ===== src/Validator/Syntax/Regexes/Sound.antt =====
-- Unions and intersections that rust-validator/src/syntax/normalize.rs builds accept what their
-- operands say.
use marsh.Base.{
  ◌≡◌, sym, ap, ◌∙◌, Bool, true, not, ◌&&◌, List, [], ◌∷◌, ◌++◌, arith, any, all, is_empty,
  Bool-cases, inl, inr,
}
use marsh.Base.Members.{All, All-append, all-append}
use marsh.Base.Canonical.{dedup-sort-IsStrict}
use marsh.Base.Subsets.{all-dedup-sort}
use marsh.Validator.Syntax.Component.{CompiledAtomPattern}
use marsh.Validator.Syntax.Node.{TestNode, RegexNode, empty_node, epsilon_node, Numbering}
use marsh.Validator.Syntax.Normalize.{TestConnective, and, or, test_and, test_or, pair_satisfies}
use marsh.Validator.Syntax.Normalize.Meaning.{IsConsistent, pair_satisfies-all}
use marsh.Validator.Syntax.Normalize.Shape.{IsCanonical as IsCanonicalTest, test_and-Canonical}
use marsh.Validator.Syntax.Regexes.{
  nullable, regex_is, has_regex, is_all, is_empty_node, is_epsilon_complement, flatten_regexes,
  tests_of, non_tests, regex_test, drop_absorbed, drop_epsilon, drop_epsilon_complement, push_test,
  unite_tests, sorted, finish_union, regex_union, finish_intersect, intersect_tests, intersect_flat,
  regex_intersect, complementary_regex,
}
use marsh.Validator.Syntax.Regexes.Words.{accepts}
use marsh.Validator.Syntax.Regexes.Laws.{regex_test-single}
use marsh.Validator.Syntax.Regexes.Meaning.{
  meaning, test_meaning, close-meaning, any-is_all, any-is_empty, flatten_regexes-meaning,
  split_tests-meaning, complementary-meaning, any-from_or,
}
use marsh.Validator.Syntax.Regexes.Absorb.{drop_absorbed-meaning}
use marsh.Validator.Syntax.Regexes.Parts.{
  IsCanonical, IsPart, AreOrdered, operands-of, flatten_regexes-parts, tests_of-Canonical,
  non_tests-parts, regex_test-IsPart, sorted-parts, retain_if-ordered,
}
use marsh.Validator.Syntax.Regexes.Shape.{unite_tests-parts}
use marsh.Validator.Syntax.Regexes.Epsilon.{
  single-or, single-and, has-epsilon, drop_epsilon-meaning, drop_epsilon_complement-meaning,
  epsilon_member,
}

module _ (ids : Numbering) {E : Type 0} (sat : E → CompiledAtomPattern → Bool)
    (apart : (e : E) → IsConsistent (sat e)) where
  open ids use {regex_uid, regex_uid_injective}

  module _ (h : List E) where
    sorted-meaning :
        (c : TestConnective) (rs : List RegexNode)
        → all (meaning sat h c) (sorted ids rs) ≡ all (meaning sat h c) rs
    sorted-meaning c rs = all-dedup-sort regex_uid regex_uid_injective (meaning sat h c) rs

    ordered :
        (c : TestConnective) (rs : List RegexNode)
        → All (IsPart ids c) rs
        → AreOrdered ids c (sorted ids rs)
    ordered c rs p = (sorted-parts ids c rs p, dedup-sort-IsStrict regex_uid rs)

    finish_union-meaning :
        (rs : List RegexNode)
        → AreOrdered ids or rs
        → meaning sat h or (finish_union ids rs) ≡ all (meaning sat h or) rs
    finish_union-meaning rs o = elim (Bool-cases (pair_satisfies (complementary_regex ids) rs)) [
      | inl e ↦ rw e (
          unfold accepts in
          sym (
            pair_satisfies-all (meaning sat h or) (complementary_regex ids) rs
              (complementary-meaning sat h ids or) e))
      | inr e ↦ rw e (
          close-meaning sat h or (drop_absorbed ids or (drop_epsilon ids rs))
          ∙ drop_absorbed-meaning ids sat h or (drop_epsilon ids rs)
              (operands-of ids or (drop_epsilon ids rs) kept.0)
          ∙ drop_epsilon-meaning ids sat apart h rs)
    ]
      where
        kept : AreOrdered ids or (drop_epsilon ids rs)
        kept =
            retain_if-ordered ids or
              (has_regex ids rs epsilon_node
                && any (λ r. not (regex_is ids r epsilon_node) && nullable r) rs)
              (λ r. not (regex_is ids r epsilon_node)) rs o

    finish_intersect-meaning :
        (rs : List RegexNode)
        → AreOrdered ids and rs
        → accepts sat (finish_intersect ids rs) h ≡ all (meaning sat h and) rs
    finish_intersect-meaning rs o =
        elim (Bool-cases (pair_satisfies (complementary_regex ids) rs)) [
          | inl e ↦ rw e (
              unfold accepts in
              sym (
                pair_satisfies-all (meaning sat h and) (complementary_regex ids) rs
                  (complementary-meaning sat h ids and) e))
          | inr e ↦ rw e (elim (Bool-cases (has_regex ids rs epsilon_node)) [
            | inl e' ↦ rw e' (epsilon_member ids sat apart h rs (has-epsilon ids sat apart h rs e'))
            | inr e' ↦ rw e' (
                close-meaning sat h and (drop_absorbed ids and (drop_epsilon_complement ids rs))
                ∙ drop_absorbed-meaning ids sat h and (drop_epsilon_complement ids rs)
                    (operands-of ids and (drop_epsilon_complement ids rs) kept.0)
                ∙ drop_epsilon_complement-meaning ids sat apart h rs)
          ])
        ]
      where
        kept : AreOrdered ids and (drop_epsilon_complement ids rs)
        kept =
            retain_if-ordered ids and
              (any (λ r. not (is_epsilon_complement r) && not (nullable r)) rs)
              (λ r. not (is_epsilon_complement r)) rs o

    push_test-meaning :
        (rs : List RegexNode) (r : RegexNode)
        → all (meaning sat h or) (push_test ids rs r)
          ≡ all (meaning sat h or) rs && meaning sat h or r
    push_test-meaning rs r = elim (Bool-cases (regex_is ids r empty_node)) [
      | inl e ↦
          rw (e, regex_uid_injective r empty_node (ground (arith, e)))
            (unfold accepts in ground arith)
      | inr e ↦ rw e (all-append (meaning sat h or) rs (r ∷ []) ∙ ground arith)
    ]

    unite_tests-meaning :
        (rs : List RegexNode)
        → All (IsPart ids or) rs
        → all (meaning sat h or) (unite_tests ids rs) ≡ all (meaning sat h or) rs
    unfolding unite_tests
    unite_tests-meaning rs p = elim (Bool-cases (is_empty (tests_of rs))) [
      | inl e ↦ rw e (no_tests (tests_of rs) e (split_tests-meaning sat h or rs))
      | inr e ↦ rw e (
          push_test-meaning (non_tests rs) (regex_test ids (test_or ids (tests_of rs)))
          ∙ ap (λ b. all (meaning sat h or) (non_tests rs) && b)
              (ap not (regex_test-single sat ids (test_or ids (tests_of rs)) h)
                ∙ single-or ids sat apart (tests_of rs) h (tests_of-Canonical ids or rs p))
          ∙ sym (split_tests-meaning sat h or rs))
    ]
      where
        no_tests :
            (ts : List TestNode)
            → is_empty ts ≡ true
            → all (meaning sat h or) rs
              ≡ (all (meaning sat h or) (non_tests rs) && all (test_meaning sat h or) ts)
            → all (meaning sat h or) (non_tests rs) ≡ all (meaning sat h or) rs
        no_tests [] e s = ground arith
        no_tests (t ∷ ts) e s = cc

    intersect_tests-meaning :
        (rest : List RegexNode) (r : RegexNode)
        → All (IsPart ids and) rest
        → IsPart ids and r
        → accepts sat (intersect_tests ids rest r) h
          ≡ all (meaning sat h and) rest && accepts sat r h
    intersect_tests-meaning rest r p q = elim (Bool-cases (regex_is ids r empty_node)) [
      | inl e ↦
          rw (e, regex_uid_injective r empty_node (ground (arith, e)))
            (unfold accepts in ground arith)
      | inr e ↦ rw e (
          finish_intersect-meaning (sorted ids (rest ++ r ∷ []))
            (ordered and (rest ++ r ∷ []) pushed)
          ∙ sorted-meaning and (rest ++ r ∷ [])
          ∙ all-append (meaning sat h and) rest (r ∷ [])
          ∙ ground arith)
    ]
      where
        pushed : All (IsPart ids and) (rest ++ r ∷ [])
        pushed = All-append (IsPart ids and) rest (r ∷ []) p (q, tt)

    intersect_flat-meaning :
        (rs : List RegexNode)
        → All (IsPart ids and) rs
        → accepts sat (intersect_flat ids rs) h ≡ all (meaning sat h and) rs
    intersect_flat-meaning rs p = elim (Bool-cases (is_empty (tests_of rs))) [
      | inl e ↦ rw e (
          finish_intersect-meaning (sorted ids (non_tests rs))
            (ordered and (non_tests rs) (non_tests-parts ids and rs p))
          ∙ sorted-meaning and (non_tests rs)
          ∙ no_tests (tests_of rs) e (split_tests-meaning sat h and rs))
      | inr e ↦ rw e (
          intersect_tests-meaning (non_tests rs) (regex_test ids (test_and ids (tests_of rs)))
            (non_tests-parts ids and rs p)
            (regex_test-IsPart ids and (test_and ids (tests_of rs)) canonical)
          ∙ ap (λ b. all (meaning sat h and) (non_tests rs) && b)
              (regex_test-single sat ids (test_and ids (tests_of rs)) h
                ∙ single-and ids sat apart (tests_of rs) h e (tests_of-Canonical ids and rs p))
          ∙ sym (split_tests-meaning sat h and rs))
    ]
      where
        canonical : IsCanonicalTest ids (test_and ids (tests_of rs))
        canonical = test_and-Canonical ids (tests_of rs) (tests_of-Canonical ids and rs p)

        no_tests :
            (ts : List TestNode)
            → is_empty ts ≡ true
            → all (meaning sat h and) rs
              ≡ (all (meaning sat h and) (non_tests rs) && all (test_meaning sat h and) ts)
            → all (meaning sat h and) (non_tests rs) ≡ all (meaning sat h and) rs
        no_tests [] e s = ground arith
        no_tests (t ∷ ts) e s = cc

  -- A union accepts the histories that one of its operands accepts.
  pub regex_union-any :
      (rs : List RegexNode)
      → All (IsCanonical ids) rs
      → (h : List E) → accepts sat (regex_union ids rs) h ≡ any (λ r. accepts sat r h) rs
  unfolding regex_union
  regex_union-any rs c h =
      any-from_or sat h (accepts sat (regex_union ids rs) h) rs (elim (Bool-cases (any is_all rs)) [
        | inl e ↦ rw e (unfold accepts in sym (any-is_all sat h rs e))
        | inr e ↦ rw e (
            finish_union-meaning h (sorted ids united) (ordered h or united parts)
            ∙ sorted-meaning h or united
            ∙ unite_tests-meaning h (flatten_regexes or rs) (flatten_regexes-parts ids or rs c)
            ∙ flatten_regexes-meaning sat h or rs)
      ])
    where
      united : List RegexNode
      united = unite_tests ids (flatten_regexes or rs)

      parts : All (IsPart ids or) united
      parts = unite_tests-parts ids (flatten_regexes or rs) (flatten_regexes-parts ids or rs c)

  -- An intersection accepts the histories that each of its operands accepts.
  pub regex_intersect-all :
      (rs : List RegexNode)
      → All (IsCanonical ids) rs
      → (h : List E) → accepts sat (regex_intersect ids rs) h ≡ all (λ r. accepts sat r h) rs
  unfolding regex_intersect
  regex_intersect-all rs c h = elim (Bool-cases (any is_empty_node rs)) [
    | inl e ↦ rw e (unfold accepts in sym (any-is_empty sat h rs e))
    | inr e ↦ rw e (
        intersect_flat-meaning h (flatten_regexes and rs) (flatten_regexes-parts ids and rs c)
        ∙ flatten_regexes-meaning sat h and rs)
  ]
