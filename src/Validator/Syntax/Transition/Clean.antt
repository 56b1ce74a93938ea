-- ===== src/Validator/Syntax/Transition/Clean.antt =====
-- Cleaning and conditionals of rust-validator/src/syntax/transition.rs: under a path that the event
-- satisfies, a cleaned transition leads where the transition did.
use marsh.Base.{
  ◌≡◌, refl, sym, ap, ◌∙◌, Bool, true, false, not, List, [], ◌∷◌, arith, any, Bool-cases, inl, inr,
  if◌then◌else◌,
}
use marsh.Base.Members.{All}
use marsh.Validator.Language.Words.{WordSet}
use marsh.Validator.Syntax.Component.{CompiledAtomPattern}
use marsh.Validator.Syntax.Node.{TestNode, true_node, false_node, eval_test}
use marsh.Validator.Syntax.Normalize.{test_is, test_and, test_not}
use marsh.Validator.Syntax.Normalize.Meaning.{IsConsistent}
use marsh.Validator.Syntax.Normalize.Shape.{IsCanonical as IsCanonicalTest}
use marsh.Validator.Syntax.Normalize.Sound.{test_and-all, test_not-complement}
use marsh.Validator.Syntax.Transition.{
  TransitionNode, TransitionNodes, const_node, if_node, union_node, intersect_node, not_node,
  append_node, TransitionNumbering, transition_is, Constructors, clean_branches,
  clean_conditional_path, clean_transition_path, clean_paths, if_with,
}
use marsh.Validator.Syntax.Transition.Plain.{
  IsPlain, ArePlain, denote, Leads, intern_if-Leads, intern_if-IsPlain, denote_some,
}
use marsh.Validator.Syntax.Transition.Denote.{transition_union-Leads}

module _ (ns : TransitionNumbering) {E : Type 0} (sat : E → CompiledAtomPattern → Bool)
    (apart : (a : E) → IsConsistent (sat a)) (e : E) where
  open ns use {nodes as ids, transition_uid_injective}

  abbrev holds : TestNode → Bool
  holds test = eval_test (sat e) test

  -- The function cleans the transition under every path.
  abbrev Cleans : (TestNode → TransitionNode) → TransitionNode → Type 0
  Cleans clean t =
      (path : TestNode)
      → IsCanonicalTest ids path
      → IsPlain ns (clean path)
        × (holds path ≡ true → (h : List E) → denote sat e (clean path) h ≡ denote sat e t h)

  both-holds :
      (path test : TestNode)
      → IsCanonicalTest ids path
      → IsCanonicalTest ids test
      → IsCanonicalTest ids (test_and ids (path ∷ test ∷ []))
        × (holds path ≡ true → holds (test_and ids (path ∷ test ∷ [])) ≡ holds test)
  both-holds path test cp ct =
      let (c, f) = test_and-all ids (sat e) (apart e) (path ∷ test ∷ []) (cp, (ct, tt)) in
      (c, λ p. f ∙ ground arith)

  is_false : (test : TestNode) → test_is ids test false_node ≡ true → holds test ≡ false
  unfolding eval_test
  is_false test t =
      ap (eval_test (sat e)) (ids.test_uid_injective test false_node (ground (arith, t)))

  is_true : (test : TestNode) → test_is ids test true_node ≡ true → holds test ≡ true
  unfolding eval_test
  is_true test t =
      ap (eval_test (sat e)) (ids.test_uid_injective test true_node (ground (arith, t)))

  module _ (ca cb : TestNode → TransitionNode) (test : TestNode) (a b : TransitionNode)
      (ct : IsCanonicalTest ids test) (cleans_a : Cleans ca a) (cleans_b : Cleans cb b) where
    abbrev target : WordSet E
    target = denote sat e (if_node test a b)

    abbrev LeadsIf : TestNode → TransitionNode → Type 0
    LeadsIf path t = IsPlain ns t × (holds path ≡ true → (h : List E) → denote sat e t h ≡ target h)

    then_target : holds test ≡ true → (h : List E) → denote sat e a h ≡ target h
    unfolding denote
    then_target t h = rw t refl

    else_target : holds test ≡ false → (h : List E) → denote sat e b h ≡ target h
    unfolding denote
    else_target t h = rw t refl

    same_target : a ≡ b → (h : List E) → denote sat e a h ≡ target h
    same_target same h = elim (Bool-cases (holds test)) [
      | inl t ↦ then_target t h
      | inr t ↦ ap (λ x. denote sat e x h) same ∙ else_target t h
    ]

    branches_clean :
        (path : TestNode)
        → IsCanonicalTest ids path
        → LeadsIf path (
            clean_branches ns ca cb test
              (test_and ids (path ∷ test ∷ []))
              (test_and ids (path ∷ test_not ids test ∷ [])))
    unfolding clean_branches
    branches_clean path cp =
        let (cn, not_test) = test_not-complement ids (sat e) (apart e) test ct in
        let (c1, true_holds) = both-holds path test cp ct in
        let (c2, false_holds) = both-holds path (test_not ids test) cp cn in
        let true_path = test_and ids (path ∷ test ∷ []) in
        let false_path = test_and ids (path ∷ test_not ids test ∷ []) in
        let (pa, fa) = cleans_a true_path c1 in
        let (pb, fb) = cleans_b false_path c2 in
        elim (Bool-cases (test_is ids true_path false_node)) [
          | inl t ↦ rw t (
            pb,
            λ hp h.
                let fails : holds test ≡ false = sym (true_holds hp) ∙ is_false true_path t in
                fb (false_holds hp ∙ not_test ∙ ap not fails) h ∙ else_target fails h,
          )
          | inr t ↦ rw t (elim (Bool-cases (test_is ids false_path false_node)) [
            | inl u ↦ rw u (
              pa,
              λ hp h.
                  let succeeds : holds test ≡ true =
                    ground (arith, false_holds hp, is_false false_path u, not_test) in
                  fa (true_holds hp ∙ succeeds) h ∙ then_target succeeds h,
            )
            | inr u ↦ rw u (
              intern_if-IsPlain sat e ns test (ca true_path) (cb false_path) ct pa pb,
              λ hp.
                  (intern_if-Leads sat e ns test (ca true_path) (cb false_path) target ct pa pb
                    (λ t' h. fa (true_holds hp ∙ t') h ∙ then_target t' h)
                    (λ t' h. fb (false_holds hp ∙ not_test ∙ ap not t') h ∙ else_target t' h)).1,
            )
          ])
        ]

    conditional-Cleans : Cleans (clean_conditional_path ns ca cb test a b) (if_node test a b)
    unfolding clean_conditional_path
    conditional-Cleans path cp = elim (Bool-cases (test_is ids test true_node)) [
      | inl t ↦
          let (p, f) = cleans_a path cp in rw t (p, λ hp h. f hp h ∙ then_target (is_true test t) h)
      | inr t ↦ rw t (elim (Bool-cases (test_is ids test false_node)) [
        | inl u ↦
            let (p, f) = cleans_b path cp in
            rw u (p, λ hp h. f hp h ∙ else_target (is_false test u) h)
        | inr u ↦ rw u (elim (Bool-cases (transition_is ns a b)) [
          | inl s ↦
              let (p, f) = cleans_a path cp in
              rw s (
                p,
                λ hp h. f hp h ∙ same_target (transition_uid_injective a b (ground (arith, s))) h,
              )
          | inr s ↦ rw s (branches_clean path cp)
        ])
      ])
    ]

  module _ (lower : Constructors) where
    mutual
      unfolding clean_transition_path denote

      clean-Cleans :
          (t : TransitionNode) → IsPlain ns t → Cleans (clean_transition_path ns lower t) t
      clean-Cleans (const_node r) p path cp = (p, λ hp h. refl)
      clean-Cleans (if_node test a b) p path cp =
          conditional-Cleans (clean_transition_path ns lower a) (clean_transition_path ns lower b)
            test a b p.0 (clean-Cleans a p.1) (clean-Cleans b p.2) path cp
      clean-Cleans (union_node ts) p path cp =
          let (ps, fs) = cleans-each ts p path cp in
          let (plain, leads) =
            transition_union-Leads sat e ns apart (clean_paths ns lower ts path) ps in
          (plain, λ hp h. leads h ∙ fs hp h)
      clean-Cleans (intersect_node ts) p path cp = elim p [ ]
      clean-Cleans (not_node t) p path cp = elim p [ ]
      clean-Cleans (append_node t s) p path cp = elim p [ ]

      cleans-each :
          (ts : TransitionNodes)
          → ArePlain ns ts
          → (path : TestNode) → IsCanonicalTest ids path
          → All (IsPlain ns) (clean_paths ns lower ts path)
            × (holds path ≡ true
                → (h : List E)
                → any (λ t. denote sat e t h) (clean_paths ns lower ts path)
                  ≡ denote_some sat e ts h)
      cleans-each TransitionNodes.nil p path cp = (tt, λ hp h. refl)
      cleans-each (TransitionNodes.cons t ts) p path cp =
          let (p1, f1) = clean-Cleans t p.0 path cp in
          let (p2, f2) = cleans-each ts p.1 path cp in ((p1, p2), λ hp h. rw (f1 hp h, f2 hp h))

    -- A conditional leads where its branches do.
    pub if_with-Leads :
        (test : TestNode) (a b : TransitionNode) (f g : WordSet E)
        → IsCanonicalTest ids test
        → Leads sat e ns a f
        → Leads sat e ns b g
        → Leads sat e ns (if_with ns lower test a b) (λ h. if holds test then f h else g h)
    unfolding if_with
    if_with-Leads test a b f g ct la lb =
        let (p, leads) =
          conditional-Cleans (clean_transition_path ns lower a) (clean_transition_path ns lower b)
            test a b ct (clean-Cleans a la.0) (clean-Cleans b lb.0) true_node tt in
        (p, λ h. leads (unfold eval_test in refl) h ∙ unfold denote in (rw (la.1 h, lb.1 h) refl))
