-- ===== src/Validator/Syntax/Transition/Branches.antt =====
-- rust-validator/src/syntax/transition.rs, transition_intersect_conditionals and
-- transition_intersect_pair on branches and unions.
use marsh.Base.{
  ℕ, suc, ◌+◌, ◌≤◌, ◌≡◌, refl, sym, ap, ◌∙◌, Bool, true, ◌&&◌, List, [], ◌∷◌, map, arith, any,
  Bool-cases, inl, inr,
}
use marsh.Base.Members.{All}
use marsh.Validator.Syntax.Component.{CompiledAtomPattern}
use marsh.Validator.Syntax.Node.{TestNode, RegexNode}
use marsh.Validator.Syntax.Normalize.{test_is}
use marsh.Validator.Syntax.Normalize.Meaning.{IsConsistent}
use marsh.Validator.Syntax.Regexes.Words.{accepts}
use marsh.Validator.Syntax.Transition.{
  TransitionNode, TransitionNodes, const_node, if_node, union_node, transition_list, transition_all,
  is_transition_empty, TransitionNumbering, size, sizes, Constructors, expands_left,
  intersect_conditionals, transition_union,
}
use marsh.Validator.Syntax.Transition.Plain.{
  IsPlain, ArePlain, ArePlain-list, denote, some-list, Leads,
}
use marsh.Validator.Syntax.Transition.Denote.{transition_union-Leads}
use marsh.Validator.Syntax.Transition.Pairs.{
  guarded-Leads, left-Leads, right-Leads, same_test-Leads,
}
use marsh.Validator.Syntax.Transition.Operands.{total_size, size-pos}

module _ (ns : TransitionNumbering) {E : Type 0} (sat : E → CompiledAtomPattern → Bool)
    (apart : (a : E) → IsConsistent (sat a)) (e : E) where
  open ns use {nodes as ids, transition_uid, transition_uid_injective}

  module _ (lower : Constructors) (n : ℕ)
      (two : (l r : TransitionNode)
        → IsPlain ns l
        → IsPlain ns r
        → size l + size r ≤ n
        → Leads sat e ns
            (lower.intersect (l ∷ r ∷ []))
            (λ h. denote sat e l h && denote sat e r h)) where
    pub conditionals-Leads :
        (test : TestNode) (a b : TransitionNode) (test' : TestNode) (a' b' : TransitionNode)
        → IsPlain ns (if_node test a b)
        → IsPlain ns (if_node test' a' b')
        → suc (size a + size b) + suc (size a' + size b') ≤ suc n
        → Leads sat e ns
            (intersect_conditionals ns lower test a b test' a' b')
            (λ h. denote sat e (if_node test a b) h && denote sat e (if_node test' a' b') h)
    unfolding intersect_conditionals
    conditionals-Leads test a b test' a' b' p p' le =
        elim (Bool-cases (is_transition_empty b && is_transition_empty b')) [
          | inl t ↦ rw t (
              guarded-Leads ns sat apart e lower n two test a b test' a' b' p p' (omega arith)
                (ground (arith, t)) (ground (arith, t)))
          | inr t ↦ rw t (elim (Bool-cases (test_is ids test test')) [
            | inl u ↦ rw u (
                same_test-Leads ns sat apart e lower n two test test' a b a' b'
                  (ids.test_uid_injective test test' (ground (arith, u))) p p' (omega arith)
                  (omega arith))
            | inr u ↦ rw u (elim (Bool-cases (expands_left ns lower test b test' b')) [
              | inl w ↦ rw w (
                  left-Leads ns sat apart e lower n two test a b (if_node test' a' b') p p'
                    (unfold size in omega (arith, size-pos b))
                    (unfold size in omega (arith, size-pos a)))
              | inr w ↦ rw w (
                  right-Leads ns sat apart e lower n two test' a' b' (if_node test a b) p p'
                    (unfold size in omega (arith, size-pos b'))
                    (unfold size in omega (arith, size-pos a')))
            ])
          ])
        ]

    -- The children of a union, each with the other transition.
    pub union-left :
        (ts : List TransitionNode) (r : TransitionNode)
        → All (IsPlain ns) ts
        → IsPlain ns r
        → total_size ts + size r ≤ n
        → All (IsPlain ns) (map (λ t. lower.intersect (t ∷ r ∷ [])) ts)
          × ((h : List E)
              → any (λ t. denote sat e t h) (map (λ t. lower.intersect (t ∷ r ∷ [])) ts)
                ≡ (any (λ t. denote sat e t h) ts && denote sat e r h))
    union-left [] r p pr le = (tt, λ h. refl)
    union-left (t ∷ ts) r p pr le =
        let (q, f) = two t r p.0 pr (omega arith) in
        let (qs, fs) = union-left ts r p.1 pr (omega arith) in
        ((q, qs), λ h. ground (arith, f h, fs h))

    pub union-right :
        (ts : List TransitionNode) (l : TransitionNode)
        → All (IsPlain ns) ts
        → IsPlain ns l
        → size l + total_size ts ≤ n
        → All (IsPlain ns) (map (λ t. lower.intersect (l ∷ t ∷ [])) ts)
          × ((h : List E)
              → any (λ t. denote sat e t h) (map (λ t. lower.intersect (l ∷ t ∷ [])) ts)
                ≡ (denote sat e l h && any (λ t. denote sat e t h) ts))
    union-right [] l p pl le = (tt, λ h. ground arith)
    union-right (t ∷ ts) l p pl le =
        let (q, f) = two l t pl p.0 (omega arith) in
        let (qs, fs) = union-right ts l p.1 pl (omega arith) in
        ((q, qs), λ h. ground (arith, f h, fs h))

    pub union-denote :
        (ts : TransitionNodes) (h : List E)
        → denote sat e (union_node ts) h ≡ any (λ t. denote sat e t h) (transition_list ts)
    unfolding denote
    union-denote ts h = some-list sat e ts h

    pub sizes-total :
        (ts : TransitionNodes) → size (union_node ts) ≡ suc (total_size (transition_list ts))
    unfolding size
    sizes-total ts = ap suc (go ts)
      where
        go : (us : TransitionNodes) → sizes us ≡ total_size (transition_list us)
        go TransitionNodes.nil = refl
        go (TransitionNodes.cons u us) = ap (λ k. size u + k) (go us)

    pub const-denote :
        (r : RegexNode) (h : List E) → denote sat e (const_node r) h ≡ accepts sat r h
    unfolding denote
    const-denote r h = refl

    pub all-denote : (h : List E) → denote sat e transition_all h ≡ true
    unfolding denote accepts
    all-denote h = refl

    pub union_left-Leads :
        (ts : TransitionNodes) (r : TransitionNode)
        → ArePlain ns ts
        → IsPlain ns r
        → size (union_node ts) + size r ≤ suc n
        → Leads sat e ns
            (transition_union ns (map (λ t. lower.intersect (t ∷ r ∷ [])) (transition_list ts)))
            (λ h. denote sat e (union_node ts) h && denote sat e r h)
    union_left-Leads ts r p pr le =
        let (qs, fs) =
          union-left (transition_list ts) r (ArePlain-list ns ts p) pr
            (omega (arith, sizes-total ts)) in
        let (plain, leads) =
          transition_union-Leads sat e ns apart
            (map (λ t. lower.intersect (t ∷ r ∷ [])) (transition_list ts)) qs in
        (plain, λ h. leads h ∙ fs h ∙ ap (λ b. b && denote sat e r h) (sym (union-denote ts h)))

    pub union_right-Leads :
        (ts : TransitionNodes) (l : TransitionNode)
        → ArePlain ns ts
        → IsPlain ns l
        → size l + size (union_node ts) ≤ suc n
        → Leads sat e ns
            (transition_union ns (map (λ t. lower.intersect (l ∷ t ∷ [])) (transition_list ts)))
            (λ h. denote sat e l h && denote sat e (union_node ts) h)
    union_right-Leads ts l p pl le =
        let (qs, fs) =
          union-right (transition_list ts) l (ArePlain-list ns ts p) pl
            (omega (arith, sizes-total ts)) in
        let (plain, leads) =
          transition_union-Leads sat e ns apart
            (map (λ t. lower.intersect (l ∷ t ∷ [])) (transition_list ts)) qs in
        (plain, λ h. leads h ∙ fs h ∙ ap (λ b. denote sat e l h && b) (sym (union-denote ts h)))
