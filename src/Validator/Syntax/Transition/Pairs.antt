-- ===== src/Validator/Syntax/Transition/Pairs.antt =====
-- Pairs of transitions in rust-validator/src/syntax/transition.rs: with constructors that are
-- right on smaller pairs, a pair leads where both of its transitions do.
use marsh.Base.{
  ℕ, ◌+◌, ◌≤◌, ◌≡◌, refl, sym, ap, ◌∙◌, Bool, true, false, ◌&&◌, List, [], ◌∷◌, arith, all,
  Bool-cases, inl, inr, if◌then◌else◌,
}
use marsh.Validator.Syntax.Component.{CompiledAtomPattern}
use marsh.Validator.Syntax.Node.{TestNode, false_node, empty_node, eval_test}
use marsh.Validator.Syntax.Normalize.{test_is, test_and}
use marsh.Validator.Syntax.Normalize.Meaning.{IsConsistent}
use marsh.Validator.Syntax.Normalize.Sound.{test_and-all}
use marsh.Validator.Syntax.Regexes.Words.{accepts}
use marsh.Validator.Syntax.Transition.{
  TransitionNode, const_node, if_node, transition_empty, is_transition_empty, TransitionNumbering,
  size, Constructors, if_with,
}
use marsh.Validator.Syntax.Transition.Plain.{IsPlain, denote, Leads}
use marsh.Validator.Syntax.Transition.Clean.{if_with-Leads}

module _ (ns : TransitionNumbering) {E : Type 0} (sat : E → CompiledAtomPattern → Bool)
    (apart : (a : E) → IsConsistent (sat a)) (e : E) where
  open ns use {nodes as ids}

  holds : TestNode → Bool
  holds test = eval_test (sat e) test

  if-denote :
      (test : TestNode) (a b : TransitionNode) (h : List E)
      → denote sat e (if_node test a b) h
        ≡ (if eval_test (sat e) test then denote sat e a h else denote sat e b h)
  unfolding denote
  if-denote test a b h = refl

  pub empty-denote :
      (b : TransitionNode) → is_transition_empty b ≡ true → (h : List E) → denote sat e b h ≡ false
  unfolding denote accepts
  empty-denote (const_node empty_node) t h = refl
  empty-denote b t h = cc

  module _ (lower : Constructors) (n : ℕ)
      (two : (l r : TransitionNode)
        → IsPlain ns l
        → IsPlain ns r
        → size l + size r ≤ n
        → Leads sat e ns
            (lower.intersect (l ∷ r ∷ []))
            (λ h. denote sat e l h && denote sat e r h)) where
    -- Two conditionals with no else branch.
    pub guarded-Leads :
        (test : TestNode) (a b : TransitionNode) (test' : TestNode) (a' b' : TransitionNode)
        → IsPlain ns (if_node test a b)
        → IsPlain ns (if_node test' a' b')
        → size a + size a' ≤ n
        → is_transition_empty b ≡ true
        → is_transition_empty b' ≡ true
        → Leads sat e ns
            (if test_is ids (test_and ids (test ∷ test' ∷ [])) false_node
              then transition_empty
              else if_with ns lower
                  (test_and ids (test ∷ test' ∷ []))
                  (lower.intersect (a ∷ a' ∷ []))
                  transition_empty)
            (λ h. denote sat e (if_node test a b) h && denote sat e (if_node test' a' b') h)
    guarded-Leads test a b test' a' b' p p' le eb eb' =
        let (canonical, conj) =
          test_and-all ids (sat e) (apart e) (test ∷ test' ∷ []) (p.0, (p'.0, tt)) in
        elim (Bool-cases (test_is ids (test_and ids (test ∷ test' ∷ [])) false_node)) [
          | inl t ↦
              let fails = ap (eval_test (sat e)) (
                ids.test_uid_injective (test_and ids (test ∷ test' ∷ [])) false_node
                  (ground (arith, t))) in
              rw t (
                tt,
                λ h.
                    empty-denote transition_empty refl h
                    ∙ never h (denote sat e a h) (denote sat e b h) (denote sat e a' h)
                        (denote sat e b' h) (empty-denote b eb h) (empty-denote b' eb' h)
                        (sym conj ∙ fails ∙ false_holds)
                    ∙ sym (rw (if-denote test a b h, if-denote test' a' b' h) refl),
              )
          | inr t ↦
              let lead =
                if_with-Leads ns sat apart e lower (test_and ids (test ∷ test' ∷ []))
                  (lower.intersect (a ∷ a' ∷ [])) transition_empty
                  (λ h. denote sat e a h && denote sat e a' h) (λ h. false) canonical
                  (two a a' p.1 p'.1 le) (tt, λ h. empty-denote transition_empty refl h) in
              rw t (
                lead.0,
                λ h.
                    lead.1 h
                    ∙ joined h (denote sat e a h) (denote sat e b h) (denote sat e a' h)
                        (denote sat e b' h) (empty-denote b eb h) (empty-denote b' eb' h) conj
                    ∙ sym (rw (if-denote test a b h, if-denote test' a' b' h) refl),
              )
        ]
      where
        false_holds : eval_test (sat e) false_node ≡ false
        false_holds = unfold eval_test in refl

        never :
            (h : List E) (x y x' y' : Bool)
            → y ≡ false
            → y' ≡ false
            → all (eval_test (sat e)) (test ∷ test' ∷ []) ≡ false
            → false ≡ (
                (if eval_test (sat e) test then x else y)
                && (if eval_test (sat e) test' then x' else y'))
        never h x y x' y' f f' g = ground arith

        joined :
            (h : List E) (x y x' y' : Bool)
            → y ≡ false
            → y' ≡ false
            → eval_test (sat e) (test_and ids (test ∷ test' ∷ []))
              ≡ all (eval_test (sat e)) (test ∷ test' ∷ [])
            → (if eval_test (sat e) (test_and ids (test ∷ test' ∷ [])) then x && x' else false) ≡ (
                (if eval_test (sat e) test then x else y)
                && (if eval_test (sat e) test' then x' else y'))
        joined h x y x' y' f f' g = ground arith

    -- One transition meets the branches of a conditional.
    pub left-Leads :
        (test : TestNode) (a b r : TransitionNode)
        → IsPlain ns (if_node test a b)
        → IsPlain ns r
        → size a + size r ≤ n
        → size b + size r ≤ n
        → Leads sat e ns
            (if_with ns lower test (lower.intersect (a ∷ r ∷ [])) (lower.intersect (b ∷ r ∷ [])))
            (λ h. denote sat e (if_node test a b) h && denote sat e r h)
    left-Leads test a b r p pr le le' =
        let lead =
          if_with-Leads ns sat apart e lower test (lower.intersect (a ∷ r ∷ []))
            (lower.intersect (b ∷ r ∷ [])) (λ h. denote sat e a h && denote sat e r h)
            (λ h. denote sat e b h && denote sat e r h) p.0 (two a r p.1 pr le)
            (two b r p.2 pr le') in
        (
          lead.0,
          λ h.
              lead.1 h
              ∙ spread (eval_test (sat e) test) (denote sat e a h) (denote sat e b h)
                  (denote sat e r h)
              ∙ ap (λ x. x && denote sat e r h) (sym (if-denote test a b h)),
        )
      where
        spread : (t x y z : Bool) → (if t then x && z else y && z) ≡ ((if t then x else y) && z)
        spread t x y z = ground arith

    pub right-Leads :
        (test : TestNode) (a b l : TransitionNode)
        → IsPlain ns l
        → IsPlain ns (if_node test a b)
        → size l + size a ≤ n
        → size l + size b ≤ n
        → Leads sat e ns
            (if_with ns lower test (lower.intersect (l ∷ a ∷ [])) (lower.intersect (l ∷ b ∷ [])))
            (λ h. denote sat e l h && denote sat e (if_node test a b) h)
    right-Leads test a b l pl p le le' =
        let lead =
          if_with-Leads ns sat apart e lower test (lower.intersect (l ∷ a ∷ []))
            (lower.intersect (l ∷ b ∷ [])) (λ h. denote sat e l h && denote sat e a h)
            (λ h. denote sat e l h && denote sat e b h) p.0 (two l a pl p.1 le)
            (two l b pl p.2 le') in
        (
          lead.0,
          λ h.
              lead.1 h
              ∙ spread (eval_test (sat e) test) (denote sat e a h) (denote sat e b h)
                  (denote sat e l h)
              ∙ ap (λ x. denote sat e l h && x) (sym (if-denote test a b h)),
        )
      where
        spread : (t x y z : Bool) → (if t then z && x else z && y) ≡ (z && (if t then x else y))
        spread t x y z = ground arith

    pub same_test-Leads :
        (test test' : TestNode) (a b a' b' : TransitionNode)
        → test ≡ test'
        → IsPlain ns (if_node test a b)
        → IsPlain ns (if_node test' a' b')
        → size a + size a' ≤ n
        → size b + size b' ≤ n
        → Leads sat e ns
            (if_with ns lower test (lower.intersect (a ∷ a' ∷ [])) (lower.intersect (b ∷ b' ∷ [])))
            (λ h. denote sat e (if_node test a b) h && denote sat e (if_node test' a' b') h)
    same_test-Leads test test' a b a' b' same p p' le le' =
        let lead =
          if_with-Leads ns sat apart e lower test (lower.intersect (a ∷ a' ∷ []))
            (lower.intersect (b ∷ b' ∷ [])) (λ h. denote sat e a h && denote sat e a' h)
            (λ h. denote sat e b h && denote sat e b' h) p.0 (two a a' p.1 p'.1 le)
            (two b b' p.2 p'.2 le') in
        (
          lead.0,
          λ h.
              lead.1 h
              ∙ spread (eval_test (sat e) test) (eval_test (sat e) test')
                  (ap (eval_test (sat e)) same) (denote sat e a h) (denote sat e b h)
                  (denote sat e a' h) (denote sat e b' h)
              ∙ sym (rw (if-denote test a b h, if-denote test' a' b' h) refl),
        )
      where
        spread :
            (t t' : Bool)
            → t ≡ t'
            → (x y x' y' : Bool)
            → (if t then x && x' else y && y') ≡ ((if t then x else y) && (if t' then x' else y'))
        spread t t' s x y x' y' = ground arith
