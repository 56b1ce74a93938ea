-- ===== src/Validator/Syntax/Transition/Distinct.antt =====
-- With the fuel of its sizes, a pair of transitions in rust-validator/src/syntax/transition.rs
-- leads where both do.
use marsh.Base.{
  ℕ, zero, suc, ◌+◌, ◌≤◌, ◌≡◌, refl, sym, ap, ◌∙◌, Bool, true, false, ◌&&◌, List, [], ◌∷◌, arith,
  all, Bool-cases, inl, inr,
}
use marsh.Base.Members.{All}
use marsh.Validator.Syntax.Component.{CompiledAtomPattern}
use marsh.Validator.Syntax.Node.{TestNode, RegexNode, empty_node, all_node}
use marsh.Validator.Syntax.Normalize.Meaning.{IsConsistent}
use marsh.Validator.Syntax.Regexes.{regex_intersect}
use marsh.Validator.Syntax.Regexes.Words.{accepts}
use marsh.Validator.Syntax.Regexes.Parts.{IsCanonical}
use marsh.Validator.Syntax.Regexes.Shape.{regex_intersect-Canonical}
use marsh.Validator.Syntax.Regexes.Sound.{regex_intersect-all}
use marsh.Validator.Syntax.Transition.{
  TransitionNode, const_node, if_node, union_node, intersect_node, not_node, append_node,
  transition_empty, transition_all, TransitionNumbering, transition_is, transition_const, size,
  Constructors, intersect_distinct, transition_intersect_pair, fold_first, constructors, sized_pair,
  transition_intersect,
}
use marsh.Validator.Syntax.Transition.Plain.{IsPlain, denote, Leads, transition_const-Leads}
use marsh.Validator.Syntax.Transition.Intersect.{
  PairsRight, intersect_two, intersect_with-Leads, fold_pairs-Leads,
}
use marsh.Validator.Syntax.Transition.Pairs.{empty-denote, left-Leads, right-Leads}
use marsh.Validator.Syntax.Transition.Operands.{size-pos}
use marsh.Validator.Syntax.Transition.Branches.{
  conditionals-Leads, const-denote, all-denote, union_left-Leads, union_right-Leads,
}

module _ (ns : TransitionNumbering) {E : Type 0} (sat : E → CompiledAtomPattern → Bool)
    (apart : (a : E) → IsConsistent (sat a)) (e : E) where
  open ns use {nodes as ids, transition_uid, transition_uid_injective}

  module _ (lower : Constructors) (n : ℕ)
      (two : (l r : TransitionNode)
        → IsPlain ns l
        → IsPlain ns r
        → size l + size r ≤ n
        → Leads sat e ns
            (lower.intersect (l ∷ r ∷ []))
            (λ h. denote sat e l h && denote sat e r h)) where
    constants-Leads :
        (r s : RegexNode)
        → IsCanonical ids r
        → IsCanonical ids s
        → Leads sat e ns
            (transition_const ns (regex_intersect ids (r ∷ s ∷ [])))
            (λ h. denote sat e (const_node r) h && denote sat e (const_node s) h)
    constants-Leads r s cr cs =
        let (plain, leads) =
          transition_const-Leads sat e ns (regex_intersect ids (r ∷ s ∷ []))
            (regex_intersect-Canonical ids (r ∷ s ∷ []) (cr, (cs, tt))) in
        (
          plain,
          λ h.
              leads h
              ∙ regex_intersect-all ids sat apart (r ∷ s ∷ []) (cr, (cs, tt)) h
              ∙ drop_true (accepts sat r h) (accepts sat s h)
              ∙ sym (
                  rw
                    (
                      const-denote ns sat apart e lower n two r h,
                      const-denote ns sat apart e lower n two s h,
                    )
                    refl),
        )
      where
        drop_true : (x y : Bool) → (x && (y && true)) ≡ (x && y)
        drop_true x y = ground arith

    false-and : (b : Bool) → (b && false) ≡ false
    false-and b = ground arith

    true-and : (b : Bool) → (b && true) ≡ b
    true-and b = ground arith

    if-le :
        (test : TestNode) (a b r : TransitionNode)
        → size (if_node test a b) + size r ≤ suc n
        → (size a + size r ≤ n) × (size b + size r ≤ n)
    unfolding size
    if-le test a b r le = omega (arith, size-pos a, size-pos b)

    distinct-Leads :
        (l r : TransitionNode)
        → IsPlain ns l
        → IsPlain ns r
        → size l + size r ≤ suc n
        → Leads sat e ns
            (intersect_distinct ns lower l r)
            (λ h. denote sat e l h && denote sat e r h)
    unfolding intersect_distinct
    distinct-Leads (intersect_node ts) r pl pr le = elim pl [ ]
    distinct-Leads (not_node t) r pl pr le = elim pl [ ]
    distinct-Leads (append_node t s) r pl pr le = elim pl [ ]
    distinct-Leads l (intersect_node ts) pl pr le = elim pr [ ]
    distinct-Leads l (not_node t) pl pr le = elim pr [ ]
    distinct-Leads l (append_node t s) pl pr le = elim pr [ ]
    distinct-Leads (const_node empty_node) r pl pr le = (
      tt,
      λ h.
          empty-denote ns sat apart e transition_empty refl h
          ∙ ap (λ b. b && denote sat e r h)
              (sym (empty-denote ns sat apart e transition_empty refl h)),
    )
    distinct-Leads l (const_node empty_node) pl pr le = (
      tt,
      λ h.
          empty-denote ns sat apart e transition_empty refl h
          ∙ sym (false-and (denote sat e l h))
          ∙ ap (λ b. denote sat e l h && b)
              (sym (empty-denote ns sat apart e transition_empty refl h)),
    )
    distinct-Leads (const_node all_node) r pl pr le =
        (pr, λ h. ap (λ b. b && denote sat e r h) (sym (all-denote ns sat apart e lower n two h)))
    distinct-Leads l (const_node all_node) pl pr le = (
      pl,
      λ h.
          sym (true-and (denote sat e l h))
          ∙ ap (λ b. denote sat e l h && b) (sym (all-denote ns sat apart e lower n two h)),
    )
    distinct-Leads (const_node r) (const_node s) pl pr le = constants-Leads r s pl pr
    distinct-Leads (if_node test a b) (if_node test' a' b') pl pr le =
        conditionals-Leads ns sat apart e lower n two test a b test' a' b' pl pr (unfold size in le)
    distinct-Leads (union_node ts) r pl pr le =
        union_left-Leads ns sat apart e lower n two ts r pl pr le
    distinct-Leads l (union_node ts) pl pr le =
        union_right-Leads ns sat apart e lower n two ts l pr pl le
    distinct-Leads (if_node test a b) r pl pr le =
        let (le1, le2) = if-le test a b r le in
        left-Leads ns sat apart e lower n two test a b r pl pr le1 le2
    distinct-Leads l (if_node test a b) pl pr le =
        let (le1, le2) = if-le test a b l (omega (arith, le)) in
        right-Leads ns sat apart e lower n two test a b l pl pr (omega arith) (omega arith)

    pub pair-Leads :
        (l r : TransitionNode)
        → IsPlain ns l
        → IsPlain ns r
        → size l + size r ≤ suc n
        → Leads sat e ns
            (transition_intersect_pair ns lower l r)
            (λ h. denote sat e l h && denote sat e r h)
    unfolding transition_intersect_pair
    pair-Leads l r pl pr le = elim (Bool-cases (transition_is ns l r)) [
      | inl t ↦ rw t (
        pl,
        λ h.
            twice (denote sat e l h)
            ∙ ap (λ x. denote sat e l h && denote sat e x h)
                (transition_uid_injective l r (ground (arith, t))),
      )
      | inr t ↦ rw t (distinct-Leads l r pl pr le)
    ]
      where
        twice : (b : Bool) → b ≡ (b && b)
        twice b = ground arith

  -- The fuel is enough for every pair of at most that size.
  constructors-PairsRight :
      (n : ℕ) → PairsRight ns sat apart e (transition_intersect_pair ns (constructors ns n)) n
  unfolding constructors
  constructors-PairsRight zero l r pl pr le = absurd (omega (arith, size-pos l))
  constructors-PairsRight (suc n) l r pl pr le =
      pair-Leads (constructors ns (suc n)) n
        (λ x y px py small.
          intersect_two ns sat apart e (transition_intersect_pair ns (constructors ns n)) n x y
            (constructors-PairsRight n) px py small)
        l r pl pr le

  -- An intersection of plain transitions is plain, and leads where all of them do.
  pub transition_intersect-Leads :
      (ts : List TransitionNode)
      → All (IsPlain ns) ts
      → Leads sat e ns (transition_intersect ns ts) (λ h. all (λ t. denote sat e t h) ts)
  unfolding transition_intersect
  transition_intersect-Leads ts p =
      intersect_with-Leads ns sat apart e (sized_pair ns) ts (λ us q small. folded us q) p
    where
      right :
          (l r : TransitionNode)
          → IsPlain ns l
          → IsPlain ns r
          → Leads sat e ns (sized_pair ns l r) (λ h. denote sat e l h && denote sat e r h)
      right l r pl pr = constructors-PairsRight (size l + size r) l r pl pr (omega arith)

      folded :
          (us : List TransitionNode)
          → All (IsPlain ns) us
          → Leads sat e ns (fold_first ns (sized_pair ns) us) (λ h. all (λ t. denote sat e t h) us)
      folded [] q = (tt, λ h. all_lem h)
        where
          all_lem : (h : List E) → denote sat e transition_all h ≡ true
          all_lem h = unfold denote accepts in refl
      folded (u ∷ us) q = fold_pairs-Leads ns sat apart e (sized_pair ns) u us right q.0 q.1
