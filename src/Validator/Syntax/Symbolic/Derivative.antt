-- ===== src/Validator/Syntax/Symbolic/Derivative.antt =====
-- The derivatives of rust-validator/src/syntax/symbolic.rs decide the language of a regular
-- expression.
use marsh.Base.{
  ◌≡◌, refl, sym, ap, ◌∙◌, fun_ext, Bool, true, false, not, List, [], ◌∷◌, arith, any, all,
  Bool-cases, inl, inr, if◌then◌else◌,
}
use marsh.Base.Members.{All}
use marsh.Validator.Language.Words.{WordSet, splits, splits-is_empty}
use marsh.Validator.Language.Sequences.{repeats-cons}
use marsh.Validator.Syntax.Component.{CompiledAtomPattern}
use marsh.Validator.Syntax.Node.{
  TestNode, RegexNode, RegexNodes, empty_node, all_node, epsilon_node, test_node, union_node,
  concat_node, star_node, intersect_node, not_node, regex_list, eval_test,
}
use marsh.Validator.Syntax.Normalize.Meaning.{IsConsistent}
use marsh.Validator.Syntax.Regexes.{nullable, regex_is}
use marsh.Validator.Syntax.Regexes.Words.{
  accepts, accepts_some, accepts_each, accepts_sequence, accepts-nil, sequence, sequence-list,
}
use marsh.Validator.Syntax.Regexes.Parts.{IsCanonical, AreParts, AreFactors, factors-list}
use marsh.Validator.Syntax.Regexes.Shape.{regex_union-Canonical}
use marsh.Validator.Syntax.Regexes.Sound.{regex_union-any}
use marsh.Validator.Syntax.Normalize.{TestConnective}
use marsh.Validator.Syntax.Transition.{
  TransitionNode, TransitionNodes, const_node, if_node, union_node as union_transition,
  intersect_node as intersect_transition, not_node as not_transition, append_node, transition_empty,
  transition_all, transition_epsilon, TransitionNumbering,
}
use marsh.Validator.Syntax.Transition.Plain.{IsPlain, ArePlain, denote, denote_some, Leads}
use marsh.Validator.Syntax.Transition.Denote.{transition_union-Leads}
use marsh.Validator.Syntax.Transition.Distinct.{transition_intersect-Leads}
use marsh.Validator.Syntax.Transition.Complement.{
  transition_not-Leads, transition_append-Leads, transition_if-Leads,
}
use marsh.Validator.Syntax.Symbolic.{
  derivative, derivatives, alternatives, evaluate, evaluate_each, accepts_history,
}

module _ (ns : TransitionNumbering) {E : Type 0} (sat : E → CompiledAtomPattern → Bool)
    (apart : (a : E) → IsConsistent (sat a)) where
  open ns use {nodes as ids}

  -- The histories of an expression after an event.
  abbrev after : RegexNode → E → WordSet E
  after r e h = accepts sat r (e ∷ h)

  test-after :
      (test : TestNode) (e : E) (h : List E)
      → (if eval_test (sat e) test
          then denote sat e transition_epsilon h
          else denote sat e transition_empty h)
        ≡ accepts sat (test_node test) (e ∷ h)
  unfolding denote accepts
  test-after test e [] = ground arith
  test-after test e (x ∷ h) = ground arith

  empty_leads : (e : E) (h : List E) → denote sat e transition_empty h ≡ false
  unfolding denote accepts
  empty_leads e h = refl

  all_leads : (e : E) (h : List E) → denote sat e transition_all h ≡ true
  unfolding denote accepts
  all_leads e h = refl

  mutual
    unfolding derivative accepts splits nullable

    derivative-Leads :
        (r : RegexNode) (e : E) → IsCanonical ids r → Leads sat e ns (derivative ns r) (after r e)
    derivative-Leads empty_node e c = (tt, λ h. empty_leads e h)
    derivative-Leads epsilon_node e c = (tt, λ h. empty_leads e h)
    derivative-Leads all_node e c = (tt, λ h. all_leads e h)
    derivative-Leads (test_node test) e c =
        let (plain, leads) =
          transition_if-Leads ns sat apart e test transition_epsilon transition_empty c tt tt in
        (plain, λ h. leads h ∙ test-after test e h)
    derivative-Leads (union_node rs) e c =
        let (qs, some_of, each_of) = derivatives-Leads TestConnective.or rs e c.0 in
        let (plain, leads) = transition_union-Leads sat e ns apart (derivatives ns rs) qs in
        (plain, λ h. leads h ∙ some_of h)
    derivative-Leads (intersect_node rs) e c =
        let (qs, some_of, each_of) = derivatives-Leads TestConnective.and rs e c.0 in
        let (plain, leads) = transition_intersect-Leads ns sat apart e (derivatives ns rs) qs in
        (plain, λ h. leads h ∙ each_of h)
    derivative-Leads (not_node r) e c =
        let (p, f) = derivative-Leads r e c in
        let (plain, leads) = transition_not-Leads ns sat apart e (derivative ns r) p in
        (plain, λ h. leads h ∙ ap not (f h))
    derivative-Leads (concat_node rs) e c =
        let (qs, f) = alternatives-Leads rs e c in
        let (plain, leads) = transition_union-Leads sat e ns apart (alternatives ns rs) qs in
        (plain, λ h. leads h ∙ f h)
    derivative-Leads (star_node r) e c =
        let (p, f) = derivative-Leads r e c in
        let (plain, leads) =
          transition_append-Leads ns sat apart e (derivative ns r) (star_node r ∷ []) p (c, tt) in
        (
          plain,
          λ h.
              leads h
              ∙ ap (λ (g : WordSet E). splits g (sequence sat (star_node r ∷ [])) h) (fun_ext f)
              ∙ ap (λ (g : WordSet E). splits (after r e) g h)
                  (fun_ext (λ w. splits-is_empty (accepts sat (star_node r)) w))
              ∙ sym (repeats-cons (accepts sat r) e h),
        )

    derivatives-Leads :
        (k : TestConnective) (rs : RegexNodes) (e : E)
        → AreParts ids k rs
        → All (IsPlain ns) (derivatives ns rs)
          × ((h : List E)
              → any (λ t. denote sat e t h) (derivatives ns rs) ≡ accepts_some sat rs (e ∷ h))
          × ((h : List E)
              → all (λ t. denote sat e t h) (derivatives ns rs) ≡ accepts_each sat rs (e ∷ h))
    derivatives-Leads k RegexNodes.nil e c = (tt, λ h. refl, λ h. refl)
    derivatives-Leads k (RegexNodes.cons r rs) e c =
        let (p, f) = derivative-Leads r e c.0.0 in
        let (ps, fs, gs) = derivatives-Leads k rs e c.1 in
        ((p, ps), λ h. rw (f h, fs h), λ h. rw (f h, gs h))

    alternatives-Leads :
        (rs : RegexNodes) (e : E)
        → AreFactors ids rs
        → All (IsPlain ns) (alternatives ns rs)
          × ((h : List E)
              → any (λ t. denote sat e t h) (alternatives ns rs) ≡ accepts_sequence sat rs (e ∷ h))
    alternatives-Leads RegexNodes.nil e c = (tt, λ h. refl)
    alternatives-Leads (RegexNodes.cons r rs) e c =
        let (p, f) = derivative-Leads r e c.0 in
        let (ps, fs) = alternatives-Leads rs e c.1 in
        let (q, g) =
          transition_append-Leads ns sat apart e (derivative ns r) (regex_list rs) p
            (factors-list ids rs c.1) in
        elim (Bool-cases (nullable r)) [
          | inl t ↦ rw t ((q, ps), λ h. ground (arith, g h, fs h, accepts-nil sat r, here f h))
          | inr t ↦ rw t ((q, tt), λ h. ground (arith, g h, accepts-nil sat r, here f h))
        ]
      where
        here :
            ((h : List E) → denote sat e (derivative ns r) h ≡ after r e h)
            → (h : List E)
            → splits (denote sat e (derivative ns r)) (sequence sat (regex_list rs)) h
              ≡ splits (after r e) (accepts_sequence sat rs) h
        here f h =
            ap (λ (g : WordSet E). splits g (sequence sat (regex_list rs)) h) (fun_ext f)
            ∙ ap (λ (g : WordSet E). splits (after r e) g h)
                (fun_ext (λ w. sym (sequence-list sat rs w)))

  mutual
    unfolding evaluate denote

    -- Evaluation of a plain transition gives a canonical expression for where it leads.
    evaluate-accepts :
        (t : TransitionNode) (e : E)
        → IsPlain ns t
        → IsCanonical ids (evaluate ns (sat e) t)
          × ((h : List E) → accepts sat (evaluate ns (sat e) t) h ≡ denote sat e t h)
    evaluate-accepts (const_node r) e p = (p, λ h. refl)
    evaluate-accepts (if_node test a b) e p =
        let (ca, fa) = evaluate-accepts a e p.1 in
        let (cb, fb) = evaluate-accepts b e p.2 in
        elim (Bool-cases (eval_test (sat e) test)) [ inl t ↦ rw t (ca, fa) | inr t ↦ rw t (cb, fb) ]
    evaluate-accepts (union_transition ts) e p =
        let (cs, fs) = evaluate_each-accepts ts e p in
        (
          regex_union-Canonical ids (evaluate_each ns (sat e) ts) cs,
          λ h. regex_union-any ids sat apart (evaluate_each ns (sat e) ts) cs h ∙ fs h,
        )
    evaluate-accepts (intersect_transition ts) e p = elim p [ ]
    evaluate-accepts (not_transition t) e p = elim p [ ]
    evaluate-accepts (append_node t s) e p = elim p [ ]

    evaluate_each-accepts :
        (ts : TransitionNodes) (e : E)
        → ArePlain ns ts
        → All (IsCanonical ids) (evaluate_each ns (sat e) ts)
          × ((h : List E)
              → any (λ r. accepts sat r h) (evaluate_each ns (sat e) ts) ≡ denote_some sat e ts h)
    evaluate_each-accepts TransitionNodes.nil e p = (tt, λ h. refl)
    evaluate_each-accepts (TransitionNodes.cons t ts) e p =
        let (c, f) = evaluate-accepts t e p.0 in
        let (cs, fs) = evaluate_each-accepts ts e p.1 in ((c, cs), λ h. rw (f h, fs h))

  all_stays : (r : RegexNode) (h : List E) → r ≡ all_node → nullable r ≡ accepts sat r h
  unfolding nullable accepts
  all_stays r h same = rw same refl

  empty_stays : (r : RegexNode) (h : List E) → r ≡ empty_node → nullable r ≡ accepts sat r h
  unfolding nullable accepts
  empty_stays r h same = rw same refl

  -- The derivative of a canonical expression is plain, and leads from an event to exactly the
  -- histories that complete it, when no component of an event has two values.
  pub derivative-after :
      (r : RegexNode) (e : E)
      → IsCanonical ids r
      → IsPlain ns (derivative ns r)
        × ((h : List E) → denote sat e (derivative ns r) h ≡ accepts sat r (e ∷ h))
  derivative-after r e c = derivative-Leads r e c

  -- The replay of a history answers whether a canonical expression accepts it, when no component
  -- of an event has two values.
  pub accepts_history-accepts :
      (r : RegexNode) (h : List E)
      → IsCanonical ids r
      → accepts_history ns sat r h ≡ accepts sat r h
  unfolding accepts_history
  accepts_history-accepts r [] c = sym (accepts-nil sat r)
  accepts_history-accepts r (e ∷ h) c =
      let (p, f) = derivative-Leads r e c in
      let (canonical, g) = evaluate-accepts (derivative ns r) e p in
      let step = accepts_history-accepts (evaluate ns (sat e) (derivative ns r)) h canonical in
      elim (Bool-cases (regex_is ids r all_node)) [
        | inl t ↦
            rw t (all_stays r (e ∷ h) (ids.regex_uid_injective r all_node (ground (arith, t))))
        | inr t ↦ rw t (elim (Bool-cases (regex_is ids r empty_node)) [
          | inl u ↦
              rw u
                (empty_stays r (e ∷ h) (ids.regex_uid_injective r empty_node (ground (arith, u))))
          | inr u ↦ rw u (step ∙ g h ∙ f h)
        ])
      ]
