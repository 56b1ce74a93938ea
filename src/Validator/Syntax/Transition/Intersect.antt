-- ===== src/Validator/Syntax/Transition/Intersect.antt =====
-- Intersection of transitions in rust-validator/src/syntax/transition.rs: with the fuel that the
-- sizes give, a pair leads where both of its transitions do.
use marsh.Base.{
  ℕ, ◌+◌, ◌≤◌, ◌≡◌, refl, sym, ap, ◌∙◌, Bool, true, false, ◌&&◌, List, [], ◌∷◌, arith, any, all,
  length, Bool-cases, inl, inr, is_empty,
}
use marsh.Base.Members.{All}
use marsh.Validator.Language.Words.{WordSet}
use marsh.Validator.Syntax.Component.{CompiledAtomPattern}
use marsh.Validator.Syntax.Node.{empty_node}
use marsh.Validator.Syntax.Normalize.Meaning.{IsConsistent}
use marsh.Validator.Syntax.Regexes.{regex_is, regex_intersect}
use marsh.Validator.Syntax.Regexes.Words.{accepts}
use marsh.Validator.Syntax.Regexes.Sound.{regex_intersect-all}
use marsh.Validator.Syntax.Transition.{
  TransitionNode, transition_empty, is_transition_empty, constants_of, non_constants,
  flatten_intersect, flatten_each, TransitionNumbering, sorted, size, fold_pairs, fold_first,
  intersect_flat, intersect_with,
}
use marsh.Validator.Syntax.Transition.Plain.{IsPlain, denote, Leads}
use marsh.Validator.Syntax.Transition.Denote.{constants-Canonical}
use marsh.Validator.Syntax.Transition.Operands.{
  total_size, sorted-size, NoLarger, all_of, sorted-LeadsAll, flatten-LeadsAll, any-is_empty,
  split_constants-all, merged, constants-merged, no_constants,
}

module _ (ns : TransitionNumbering) {E : Type 0} (sat : E → CompiledAtomPattern → Bool)
    (apart : (a : E) → IsConsistent (sat a)) (e : E) where
  open ns use {nodes as ids, transition_uid, transition_uid_injective}

  abbrev pub both : TransitionNode → TransitionNode → WordSet E
  both l r h = denote sat e l h && denote sat e r h

  module _ (pair : TransitionNode → TransitionNode → TransitionNode) where
    -- The fold is right on every list that is no larger than the operands.
    abbrev pub FoldsRight : List TransitionNode → Type 0
    FoldsRight ops =
        (ts : List TransitionNode)
        → All (IsPlain ns) ts
        → NoLarger ts ops
        → Leads sat e ns (fold_first ns pair ts) (all_of sat e ns ts)

    fold_sorted :
        (ops ts : List TransitionNode) (f : WordSet E)
        → FoldsRight ops
        → All (IsPlain ns) ts
        → ((h : List E) → all_of sat e ns ts h ≡ f h)
        → NoLarger ts ops
        → Leads sat e ns (fold_first ns pair (sorted ns ts)) f
    fold_sorted ops ts f right p leads small =
        let (q, g) = sorted-LeadsAll sat e ns ts p in
        let (plain, k) =
          right (sorted ns ts) q (omega (arith, sorted-size transition_uid ts, small)) in
        (plain, λ h. k h ∙ g h ∙ leads h)

    intersect_flat-Leads :
        (ops ts : List TransitionNode)
        → FoldsRight ops
        → All (IsPlain ns) ts
        → NoLarger ts ops
        → Leads sat e ns (intersect_flat ns pair ts) (all_of sat e ns ts)
    intersect_flat-Leads ops ts right p small = elim (Bool-cases (is_empty (constants_of ts))) [
      | inl t ↦
          let ((q, f), smaller) = no_constants sat e ns apart ts p t in
          rw t (
            fold_sorted ops (non_constants ts) (all_of sat e ns ts) right q f
              (omega (arith, small, smaller)))
      | inr t ↦
          let ((q, f), smaller) = constants-merged sat e ns apart ts p t in
          rw t
            (elim (Bool-cases (regex_is ids (regex_intersect ids (constants_of ts)) empty_node)) [
              | inl u ↦ rw u (tt, λ h. empty_constant ts p t u h)
              | inr u ↦ rw u (
                  fold_sorted ops
                    (merged sat e ns (non_constants ts) (regex_intersect ids (constants_of ts)))
                    (all_of sat e ns ts) right q f (omega (arith, small, smaller)))
            ])
    ]
      where
        empty_denote : (h : List E) → denote sat e transition_empty h ≡ false
        empty_denote h = unfold denote accepts in refl

        and_false : (b : Bool) → false ≡ (b && false)
        and_false b = ground arith

        empty_constant :
            (us : List TransitionNode)
            → All (IsPlain ns) us
            → is_empty (constants_of us) ≡ false
            → regex_is ids (regex_intersect ids (constants_of us)) empty_node ≡ true
            → (h : List E) → denote sat e transition_empty h ≡ all_of sat e ns us h
        empty_constant us p t u h =
            let same =
              ids.regex_uid_injective (regex_intersect ids (constants_of us)) empty_node
                (ground (arith, u)) in
            let constants : all (λ r. accepts sat r h) (constants_of us) ≡ false =
              sym (
                regex_intersect-all ids sat apart (constants_of us)
                  (constants-Canonical sat e ns us p) h)
              ∙ ap (λ r. accepts sat r h) same
              ∙ (unfold accepts in refl) in
            empty_denote h
            ∙ and_false (all_of sat e ns (non_constants us) h)
            ∙ ap (λ b. all_of sat e ns (non_constants us) h && b) (sym constants)
            ∙ sym (split_constants-all sat e ns us h)

    pub intersect_with-Leads :
        (ops : List TransitionNode)
        → FoldsRight ops
        → All (IsPlain ns) ops
        → Leads sat e ns (intersect_with ns pair ops) (all_of sat e ns ops)
    unfolding intersect_with
    intersect_with-Leads ops right p = elim (Bool-cases (any is_transition_empty ops)) [
      | inl t ↦ rw t (tt, λ h. unfold denote accepts in sym (any-is_empty sat e ns ops h t))
      | inr t ↦
          let ((q, f), small) = flatten-LeadsAll sat e ns ops p in
          let (plain, leads) =
            intersect_flat-Leads ops (flatten_each flatten_intersect ops) right q small in
          rw t (plain, λ h. leads h ∙ f h)
    ]

    -- A pair is right up to a size.
    abbrev pub PairsRight : ℕ → Type 0
    PairsRight n =
        (l r : TransitionNode)
        → IsPlain ns l
        → IsPlain ns r
        → size l + size r ≤ n
        → Leads sat e ns (pair l r) (both l r)

    fold_short :
        (n : ℕ) (ts : List TransitionNode)
        → PairsRight n
        → All (IsPlain ns) ts
        → total_size ts ≤ n
        → length ts ≤ 2
        → Leads sat e ns (fold_first ns pair ts) (all_of sat e ns ts)
    fold_short n [] right p le short = (tt, λ h. unfold denote accepts in refl)
    fold_short n (t ∷ []) right p le short = (p.0, λ h. ground arith)
    fold_short n (t ∷ u ∷ []) right p le short =
        let (plain, leads) = right t u p.0 p.1.0 (omega arith) in
        (plain, λ h. leads h ∙ ground arith)
    fold_short n (t ∷ u ∷ v ∷ ts) right p le short = absurd (omega arith)

    pub intersect_two :
        (n : ℕ) (l r : TransitionNode)
        → PairsRight n
        → IsPlain ns l
        → IsPlain ns r
        → size l + size r ≤ n
        → Leads sat e ns (intersect_with ns pair (l ∷ r ∷ [])) (both l r)
    intersect_two n l r right pl pr le =
        let (plain, leads) =
          intersect_with-Leads (l ∷ r ∷ [])
            (λ ts p small. fold_short n ts right p (omega (arith, small)) (omega (arith, small)))
            (pl, (pr, tt)) in
        (plain, λ h. leads h ∙ ground arith)

    pub fold_pairs-Leads :
        (t : TransitionNode) (ts : List TransitionNode)
        → ((l r : TransitionNode)
            → IsPlain ns l
            → IsPlain ns r
            → Leads sat e ns (pair l r) (both l r))
        → IsPlain ns t
        → All (IsPlain ns) ts
        → Leads sat e ns (fold_pairs ns pair t ts) (λ h. denote sat e t h && all_of sat e ns ts h)
    fold_pairs-Leads t [] right p ps = (p, λ h. ground arith)
    fold_pairs-Leads t (u ∷ ts) right p ps =
        let (q, f) = right t u p ps.0 in
        let (plain, leads) = fold_pairs-Leads (pair t u) ts right q ps.1 in
        (plain, λ h. leads h ∙ ground (arith, f h))
