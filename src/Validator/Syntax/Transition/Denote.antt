-- ===== src/Validator/Syntax/Transition/Denote.antt =====
-- What a transition of rust-validator/src/syntax/node.rs leads to on one event, and the transitions
-- that rust-validator/src/syntax/transition.rs builds: constants, conditionals and unions.
use marsh.Base.{
  ◌≡◌, refl, sym, ap, ◌∙◌, Bool, true, false, not, ◌||◌, List, [], ◌∷◌, ◌++◌, arith, any,
  Bool-cases, inl, inr, is_empty,
}
use marsh.Base.Members.{All, All-append, any-not-all}
use marsh.Base.Canonical.{sort, sort-All, dedup-All}
use marsh.Base.Subsets.{all-dedup-sort}
use marsh.Validator.Syntax.Component.{CompiledAtomPattern}
use marsh.Validator.Syntax.Node.{RegexNode, empty_node, all_node}
use marsh.Validator.Syntax.Normalize.Meaning.{IsConsistent}
use marsh.Validator.Syntax.Regexes.{regex_is, regex_union}
use marsh.Validator.Syntax.Regexes.Words.{accepts}
use marsh.Validator.Syntax.Regexes.Parts.{IsCanonical}
use marsh.Validator.Syntax.Regexes.Shape.{regex_union-Canonical}
use marsh.Validator.Syntax.Regexes.Sound.{regex_union-any}
use marsh.Validator.Syntax.Transition.{
  TransitionNode, const_node, union_node, transition_list, is_transition_all, constants_of,
  non_constants, flatten_union, flatten_each, TransitionNumbering, transition_const, sorted,
  close_union, union_constant, union_flat, transition_union,
}
use marsh.Validator.Syntax.Transition.Plain.{
  IsPlain, ArePlain-list, ArePlain-slice, denote, some-list, some-slice, any-append,
  split_constants-any, Leads, transition_const-Leads,
}

module _ {E : Type 0} (sat : E → CompiledAtomPattern → Bool) (e : E) where
  module _ (ns : TransitionNumbering) where
    open ns use {nodes as ids, transition_uid, transition_uid_injective}

    any-sorted :
        (ts : List TransitionNode) (h : List E)
        → any (λ t. denote sat e t h) (sorted ns ts) ≡ any (λ t. denote sat e t h) ts
    any-sorted ts h =
        any-not-all (λ t. denote sat e t h) (sorted ns ts)
        ∙ ap not (
            all-dedup-sort transition_uid transition_uid_injective (λ t. not (denote sat e t h)) ts)
        ∙ sym (any-not-all (λ t. denote sat e t h) ts)

    pub sorted-IsPlain :
        (ts : List TransitionNode) → All (IsPlain ns) ts → All (IsPlain ns) (sorted ns ts)
    sorted-IsPlain ts p =
        dedup-All transition_uid (IsPlain ns) (sort transition_uid ts)
          (sort-All transition_uid (IsPlain ns) ts p)

    close-Leads :
        (ts : List TransitionNode)
        → All (IsPlain ns) ts
        → Leads sat e ns (close_union ns ts) (λ h. any (λ t. denote sat e t h) ts)
    unfolding denote
    close-Leads [] p = (tt, λ h. unfold accepts in refl)
    close-Leads (t ∷ []) p = (p.0, λ h. or_false (denote sat e t h))
      where
        or_false : (b : Bool) → b ≡ (b || false)
        or_false b = ground arith
    close-Leads (t ∷ u ∷ ts) p =
        (ArePlain-slice ns (t ∷ u ∷ ts) p, λ h. some-slice sat e (t ∷ u ∷ ts) h)

    close_sorted-Leads :
        (ts : List TransitionNode)
        → All (IsPlain ns) ts
        → Leads sat e ns (close_union ns (sorted ns ts)) (λ h. any (λ t. denote sat e t h) ts)
    close_sorted-Leads ts p =
        let (plain, leads) = close-Leads (sorted ns ts) (sorted-IsPlain ts p) in
        (plain, λ h. leads h ∙ any-sorted ts h)

    constant-Leads :
        (rest : List TransitionNode) (r : RegexNode)
        → All (IsPlain ns) rest
        → IsCanonical ids r
        → Leads sat e ns
            (union_constant ns rest r)
            (λ h. any (λ t. denote sat e t h) rest || accepts sat r h)
    constant-Leads rest r p c = elim (Bool-cases (regex_is ids r all_node)) [
      | inl t ↦
          rw (t, ids.regex_uid_injective r all_node (ground (arith, t)))
            (tt, λ h. unfold denote accepts in ground arith)
      | inr t ↦ rw t (elim (Bool-cases (regex_is ids r empty_node)) [
        | inl u ↦
            let (plain, leads) = close_sorted-Leads rest p in
            rw (u, ids.regex_uid_injective r empty_node (ground (arith, u)))
              (plain, λ h. leads h ∙ (unfold accepts in ground arith))
        | inr u ↦
            let (pc, lc) = transition_const-Leads sat e ns r c in
            let (plain, leads) =
              close_sorted-Leads (rest ++ transition_const ns r ∷ [])
                (All-append (IsPlain ns) rest (transition_const ns r ∷ []) p (pc, tt)) in
            rw u (
              plain,
              λ h.
                  leads h
                  ∙ any-append sat e (λ t. denote sat e t h) rest (transition_const ns r ∷ [])
                  ∙ ground (arith, lc h),
            )
      ])
    ]

    pub constants-Canonical :
        (ts : List TransitionNode) → All (IsPlain ns) ts → All (IsCanonical ids) (constants_of ts)
    unfolding constants_of
    constants-Canonical [] p = tt
    constants-Canonical (const_node r ∷ ts) p = (p.0, constants-Canonical ts p.1)
    constants-Canonical (t ∷ ts) p = constants-Canonical ts p.1

    pub non_constants-IsPlain :
        (ts : List TransitionNode) → All (IsPlain ns) ts → All (IsPlain ns) (non_constants ts)
    unfolding non_constants
    non_constants-IsPlain [] p = tt
    non_constants-IsPlain (const_node r ∷ ts) p = non_constants-IsPlain ts p.1
    non_constants-IsPlain (t ∷ ts) p = (p.0, non_constants-IsPlain ts p.1)

    flatten_union-IsPlain :
        (ts : List TransitionNode)
        → All (IsPlain ns) ts
        → All (IsPlain ns) (flatten_each flatten_union ts)
          × ((h : List E)
              → any (λ t. denote sat e t h) (flatten_each flatten_union ts)
                ≡ any (λ t. denote sat e t h) ts)
    unfolding flatten_each flatten_union denote accepts
    flatten_union-IsPlain [] p = (tt, λ h. refl)
    flatten_union-IsPlain (const_node empty_node ∷ ts) p =
        let (q, f) = flatten_union-IsPlain ts p.1 in (q, λ h. f h)
    flatten_union-IsPlain (union_node us ∷ ts) p =
        let (q, f) = flatten_union-IsPlain ts p.1 in
        (
          All-append (IsPlain ns) (transition_list us) (flatten_each flatten_union ts)
              (ArePlain-list ns us p.0) q,
          λ h.
              any-append sat e (λ t. denote sat e t h) (transition_list us)
                (flatten_each flatten_union ts)
              ∙ ground (arith, some-list sat e us h, f h),
        )
    flatten_union-IsPlain (t ∷ ts) p =
        let (q, f) = flatten_union-IsPlain ts p.1 in
        ((p.0, q), λ h. ap (λ b. denote sat e t h || b) (f h))

    any-is_all :
        (ts : List TransitionNode) (h : List E)
        → any is_transition_all ts ≡ true
        → any (λ t. denote sat e t h) ts ≡ true
    unfolding denote accepts
    any-is_all [] h a = cc
    any-is_all (t ∷ ts) h a = ground (arith, any-is_all ts h)

    module _ (apart : (a : E) → IsConsistent (sat a)) where
      flat-Leads :
          (ts : List TransitionNode)
          → All (IsPlain ns) ts
          → Leads sat e ns (union_flat ns ts) (λ h. any (λ t. denote sat e t h) ts)
      flat-Leads ts p = elim (Bool-cases (is_empty (constants_of ts))) [
        | inl t ↦
            let (plain, leads) =
              close_sorted-Leads (non_constants ts) (non_constants-IsPlain ts p) in
            rw t (
              plain,
              λ h. leads h ∙ none_left h (constants_of ts) t (split_constants-any sat e ts h),
            )
        | inr t ↦
            let canonical = constants-Canonical ts p in
            let (plain, leads) =
              constant-Leads (non_constants ts) (regex_union ids (constants_of ts))
                (non_constants-IsPlain ts p)
                (regex_union-Canonical ids (constants_of ts) canonical) in
            rw t (
              plain,
              λ h.
                  leads h
                  ∙ ap (λ b. any (λ t. denote sat e t h) (non_constants ts) || b)
                      (regex_union-any ids sat apart (constants_of ts) canonical h)
                  ∙ sym (split_constants-any sat e ts h),
            )
      ]
        where
          none_left :
              (h : List E) (rs : List RegexNode)
              → is_empty rs ≡ true
              → any (λ t. denote sat e t h) ts
                ≡ (any (λ t. denote sat e t h) (non_constants ts) || any (λ r. accepts sat r h) rs)
              → any (λ t. denote sat e t h) (non_constants ts) ≡ any (λ t. denote sat e t h) ts
          none_left h [] z q = ground arith
          none_left h (r ∷ rs) z q = cc

      -- A union of plain transitions is plain and leads to what one of them leads to.
      pub transition_union-Leads :
          (ts : List TransitionNode)
          → All (IsPlain ns) ts
          → Leads sat e ns (transition_union ns ts) (λ h. any (λ t. denote sat e t h) ts)
      unfolding transition_union
      transition_union-Leads ts p = elim (Bool-cases (any is_transition_all ts)) [
        | inl t ↦ rw t (tt, λ h. (unfold denote accepts in sym (any-is_all ts h t)))
        | inr t ↦
            let (q, f) = flatten_union-IsPlain ts p in
            let (plain, leads) = flat-Leads (flatten_each flatten_union ts) q in
            rw t (plain, λ h. leads h ∙ f h)
      ]
