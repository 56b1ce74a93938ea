-- ===== src/Validator/Syntax/Numbers/Transitions.antt =====
-- A numbering of the transitions of node.rs.
use marsh.Base.{ℕ, ◌≡◌, refl, sym, ap, ◌∙◌, List, [], ◌∷◌, arith}
use marsh.Validator.Syntax.Node.{RegexNode, regex_list, regex_slice}
use marsh.Validator.Syntax.Transition.{
  TransitionNode, TransitionNodes, const_node, if_node, union_node as union_transition,
  intersect_node as intersect_transition, not_node as not_transition, append_node,
  TransitionNumbering,
}
use marsh.Validator.Syntax.Numbers.Codes.{
  pair, pair-first, pair-second, code_list, code_option, code_action, code_pattern, code_atom,
  code_comparison,
}
use marsh.Validator.Syntax.Numbers.Nodes.{
  code_test, code_test-injective, code_regex, code_regexes, code_regex-injective,
  code_regexes-injective, numbering,
}

pub list-slice : (rs : List RegexNode) → regex_list (regex_slice rs) ≡ rs
list-slice [] = refl
list-slice (r ∷ rs) = ap (λ xs. r ∷ xs) (list-slice rs)

unfoldable pub code_suffix : List RegexNode → ℕ
code_suffix rs = code_regexes (regex_slice rs)

pub code_suffix-injective : (rs ss : List RegexNode) → code_suffix rs ≡ code_suffix ss → rs ≡ ss
unfolding code_suffix
code_suffix-injective rs ss h =
    sym (list-slice rs) ∙ ap regex_list (code_regexes-injective _ _ h) ∙ list-slice ss

unfoldable mutual
  pub code_transition : TransitionNode → ℕ
  code_transition (const_node r) = pair 0 (code_regex r)
  code_transition (if_node test t u) =
      pair 1 (pair (code_test test) (pair (code_transition t) (code_transition u)))
  code_transition (union_transition ts) = pair 2 (code_transitions ts)
  code_transition (intersect_transition ts) = pair 3 (code_transitions ts)
  code_transition (not_transition t) = pair 4 (code_transition t)
  code_transition (append_node t suffix) = pair 5 (pair (code_transition t) (code_suffix suffix))

  pub code_transitions : TransitionNodes → ℕ
  code_transitions TransitionNodes.nil = pair 0 0
  code_transitions (TransitionNodes.cons t ts) =
      pair 1 (pair (code_transition t) (code_transitions ts))

mutual
  unfolding code_transition

  pub code_transition-injective :
      (t u : TransitionNode) → code_transition t ≡ code_transition u → t ≡ u
  code_transition-injective (const_node r) (const_node s) h =
      ap const_node (code_regex-injective r s (pair-second _ _ _ _ h))
  code_transition-injective (if_node test t u) (if_node test' t' u') h =
      let e =
        pair-second 1 (pair (code_test test) (pair (code_transition t) (code_transition u))) 1
          (pair (code_test test') (pair (code_transition t') (code_transition u'))) h in
      let f =
        pair-second (code_test test) (pair (code_transition t) (code_transition u))
          (code_test test') (pair (code_transition t') (code_transition u')) e in
      cc (
        code_test-injective test test' (pair-first _ _ _ _ e),
        code_transition-injective t t' (pair-first _ _ _ _ f),
        code_transition-injective u u' (pair-second _ _ _ _ f),
      )
  code_transition-injective (union_transition ts) (union_transition us) h =
      ap union_transition (code_transitions-injective ts us (pair-second _ _ _ _ h))
  code_transition-injective (intersect_transition ts) (intersect_transition us) h =
      ap intersect_transition (code_transitions-injective ts us (pair-second _ _ _ _ h))
  code_transition-injective (not_transition t) (not_transition u) h =
      ap not_transition (code_transition-injective t u (pair-second _ _ _ _ h))
  code_transition-injective (append_node t rs) (append_node u ss) h =
      let e =
        pair-second 5 (pair (code_transition t) (code_suffix rs)) 5
          (pair (code_transition u) (code_suffix ss)) h in
      cc (
        code_transition-injective t u (pair-first _ _ _ _ e),
        code_suffix-injective rs ss (pair-second _ _ _ _ e),
      )
  code_transition-injective t u h = absurd (omega (arith, pair-first _ _ _ _ h))

  pub code_transitions-injective :
      (ts us : TransitionNodes) → code_transitions ts ≡ code_transitions us → ts ≡ us
  code_transitions-injective TransitionNodes.nil TransitionNodes.nil h = refl
  code_transitions-injective (TransitionNodes.cons t ts) (TransitionNodes.cons u us) h =
      let e =
        pair-second 1 (pair (code_transition t) (code_transitions ts)) 1
          (pair (code_transition u) (code_transitions us)) h in
      cc (
        code_transition-injective t u (pair-first _ _ _ _ e),
        code_transitions-injective ts us (pair-second _ _ _ _ e),
      )
  code_transitions-injective ts us h = absurd (omega (arith, pair-first _ _ _ _ h))

unfoldable pub transition_numbering : TransitionNumbering
unfolding pair code_list code_option code_action code_pattern code_atom code_comparison code_test
    code_regex code_suffix code_transition
transition_numbering = record {
  nodes = numbering;
  transition_uid = code_transition;
  transition_uid_injective = code_transition-injective;
}
