-- ===== src/Validator/Syntax/Regexes/Epsilon.antt =====
-- rust-validator/src/syntax/normalize.rs: a union drops epsilon, and an intersection its
-- complement, where another operand has it.
use marsh.Base.{
  ℕ, ◌<◌, ◌≡◌, refl, sym, ap, ◌∙◌, Bool, true, false, not, ◌&&◌, List, [], ◌∷◌, arith, any, all,
  is_empty, Bool-cases, if◌then◌else◌, inl, inr,
}
use marsh.Base.Members.{All, In, any-In, In-all, all-retain-covered, any-not-all}
use marsh.Base.Subsets.{any-uid}
use marsh.Validator.Language.Words.{single}
use marsh.Validator.Syntax.Component.{CompiledAtomPattern}
use marsh.Validator.Syntax.Node.{
  TestNode, RegexNode, empty_node, epsilon_node, not_node, eval_test, Numbering,
}
use marsh.Validator.Syntax.Normalize.{and, or, test_and, test_or}
use marsh.Validator.Syntax.Normalize.Meaning.{IsConsistent}
use marsh.Validator.Syntax.Normalize.Shape.{IsCanonical as IsCanonicalTest}
use marsh.Validator.Syntax.Normalize.Sound.{test_and-all, test_or-any}
use marsh.Validator.Syntax.Regexes.{
  nullable, regex_is, has_regex, is_epsilon_complement, drop_epsilon, drop_epsilon_complement,
}
use marsh.Validator.Syntax.Regexes.Words.{accepts, accepts-nil}
use marsh.Validator.Syntax.Regexes.Meaning.{meaning, test_meaning}

module _ (ids : Numbering) {E : Type 0} (sat : E → CompiledAtomPattern → Bool)
    (apart : (e : E) → IsConsistent (sat e)) where
  open ids use {regex_uid, regex_uid_injective}

  -- The tests of a union hold where one of them does, and those of an intersection where all do.
  pub single-or :
      (ts : List TestNode) (h : List E)
      → All (IsCanonicalTest ids) ts
      → not (single (λ e. eval_test (sat e) (test_or ids ts)) h) ≡ all (test_meaning sat h or) ts
  single-or ts [] c = sym (none_hold ts)
    where
      none_hold : (us : List TestNode) → all (test_meaning sat [] or) us ≡ true
      none_hold [] = refl
      none_hold (u ∷ us) = none_hold us
  single-or ts (e ∷ []) c =
      ap not ((test_or-any ids (sat e) (apart e) ts c).1 ∙ any-not-all (eval_test (sat e)) ts)
      ∙ twice (all (λ t. not (eval_test (sat e) t)) ts)
    where
      twice : (b : Bool) → not (not b) ≡ b
      twice b = ground arith
  single-or ts (e ∷ e' ∷ h) c = sym (none_hold ts)
    where
      none_hold : (us : List TestNode) → all (test_meaning sat (e ∷ e' ∷ h) or) us ≡ true
      none_hold [] = refl
      none_hold (u ∷ us) = none_hold us

  pub single-and :
      (ts : List TestNode) (h : List E)
      → is_empty ts ≡ false
      → All (IsCanonicalTest ids) ts
      → single (λ e. eval_test (sat e) (test_and ids ts)) h ≡ all (test_meaning sat h and) ts
  single-and [] h ne c = cc
  single-and (t ∷ ts) [] ne c = refl
  single-and (t ∷ ts) (e ∷ []) ne c = (test_and-all ids (sat e) (apart e) (t ∷ ts) c).1
  single-and (t ∷ ts) (e ∷ e' ∷ h) ne c = refl

  module _ (h : List E) where
    pub has-epsilon :
        (rs : List RegexNode) → has_regex ids rs epsilon_node ≡ true → In epsilon_node rs
    has-epsilon rs e = any-uid regex_uid regex_uid_injective epsilon_node rs e

    abbrev pub flag : Bool → ℕ
    flag true = 1
    flag false = 0

    -- Epsilon goes beside a nullable operand of a union.
    pub drop_epsilon-meaning :
        (rs : List RegexNode)
        → all (meaning sat h or) (drop_epsilon ids rs) ≡ all (meaning sat h or) rs
    drop_epsilon-meaning rs =
        elim (Bool-cases (
          has_regex ids rs epsilon_node
          && any (λ r. not (regex_is ids r epsilon_node) && nullable r) rs)) [
            | inr e ↦ rw e refl
            | inl e ↦ rw e (
                all-retain-covered (meaning sat h or) (λ r. flag (regex_is ids r epsilon_node))
                  (λ r. not (regex_is ids r epsilon_node)) rs
                  (covered (
                    any-In (λ r. not (regex_is ids r epsilon_node) && nullable r) rs
                      (ground (arith, e)))))
          ]
      where
        implies :
            (k : List E) (y x : RegexNode)
            → x ≡ epsilon_node
            → nullable y ≡ true
            → not (accepts sat y k) ≡ true
            → not (accepts sat x k) ≡ true
        implies [] y x e n m = ground (arith, accepts-nil sat y)
        implies (a ∷ k) y x e n m = rw e (unfold accepts in refl)

        covered :
            (y : RegexNode) × In y rs × ((not (regex_is ids y epsilon_node) && nullable y) ≡ true)
            → (x : RegexNode) → In x rs
            → not (regex_is ids x epsilon_node) ≡ false
            → (z : RegexNode) × In z rs
              × (flag (regex_is ids z epsilon_node) < flag (regex_is ids x epsilon_node))
              × (meaning sat h or z ≡ true → meaning sat h or x ≡ true)
        covered (y, at, p) x at_x gone = (
          y,
          at,
          ground arith,
          implies h y x (regex_uid_injective x epsilon_node (ground arith)) (ground arith),
        )

    -- The complement of epsilon goes beside an operand of an intersection that is not nullable.
    pub drop_epsilon_complement-meaning :
        (rs : List RegexNode)
        → all (meaning sat h and) (drop_epsilon_complement ids rs) ≡ all (meaning sat h and) rs
    drop_epsilon_complement-meaning rs =
        elim (Bool-cases (any (λ r. not (is_epsilon_complement r) && not (nullable r)) rs)) [
          | inr e ↦ rw e refl
          | inl e ↦ rw e (
              all-retain-covered (meaning sat h and) (λ r. flag (is_epsilon_complement r))
                (λ r. not (is_epsilon_complement r)) rs
                (covered (any-In (λ r. not (is_epsilon_complement r) && not (nullable r)) rs e)))
        ]
      where
        implies :
            (k : List E) (y x : RegexNode)
            → is_epsilon_complement x ≡ true
            → nullable y ≡ false
            → accepts sat y k ≡ true
            → accepts sat x k ≡ true
        implies [] y x e n m = absurd (ground (arith, accepts-nil sat y))
        implies (a ∷ k) y (not_node epsilon_node) e n m = unfold accepts in refl
        implies (a ∷ k) y x e n m = absurd (unfold is_epsilon_complement in ground arith)

        covered :
            (y : RegexNode) × In y rs × ((not (is_epsilon_complement y) && not (nullable y)) ≡ true)
            → (x : RegexNode) → In x rs
            → not (is_epsilon_complement x) ≡ false
            → (z : RegexNode) × In z rs
              × (flag (is_epsilon_complement z) < flag (is_epsilon_complement x))
              × (meaning sat h and z ≡ true → meaning sat h and x ≡ true)
        covered (y, at, p) x at_x gone =
            (y, at, ground arith, implies h y x (ground arith) (ground arith))

    pub epsilon_member :
        (rs : List RegexNode)
        → In epsilon_node rs
        → accepts sat (if all nullable rs then epsilon_node else empty_node) h
          ≡ all (meaning sat h and) rs
    epsilon_member rs at = elim (Bool-cases (all nullable rs)) [
      | inl e ↦ rw e (at_nil h rs at e)
      | inr e ↦ rw e (unfold accepts in sym (not_all h rs at e))
    ]
      where
        nullable-all : (qs : List RegexNode) → all (meaning sat [] and) qs ≡ all nullable qs
        nullable-all [] = refl
        nullable-all (q ∷ qs) = rw (accepts-nil sat q, nullable-all qs)

        never :
            (a : E) (k : List E) (qs : List RegexNode)
            → In epsilon_node qs
            → all (meaning sat (a ∷ k) and) qs ≡ false
        never a k qs at' = elim (Bool-cases (all (meaning sat (a ∷ k) and) qs)) [
          | inr f ↦ f
          | inl t ↦
              absurd (unfold accepts in cc (In-all (meaning sat (a ∷ k) and) epsilon_node qs at' t))
        ]

        at_nil :
            (k : List E) (qs : List RegexNode)
            → In epsilon_node qs
            → all nullable qs ≡ true
            → accepts sat epsilon_node k ≡ all (meaning sat k and) qs
        at_nil [] qs at' e = unfold accepts in sym (nullable-all qs ∙ e)
        at_nil (a ∷ k) qs at' e = unfold accepts in sym (never a k qs at')

        not_all :
            (k : List E) (qs : List RegexNode)
            → In epsilon_node qs
            → all nullable qs ≡ false
            → all (meaning sat k and) qs ≡ false
        not_all [] qs at' e = nullable-all qs ∙ e
        not_all (a ∷ k) qs at' e = never a k qs at'
