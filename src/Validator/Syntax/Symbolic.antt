-- ===== src/Validator/Syntax/Symbolic.antt =====
-- rust-validator/src/syntax/symbolic.rs: derivatives that do not depend on the event, their
-- evaluation on one event, and the replay of a history by these alone. Caches, which hold results
-- of these functions, are left out; Minterms and Replay add the precompiled tables.
pub mod Derivative
pub mod Minterms
pub mod Tables
pub mod Replay
pub mod Precompile
pub mod Budget
use marsh.Base.{Bool, true, false, List, [], ◌∷◌, if◌then◌else◌}
use marsh.Validator.Syntax.Component.{CompiledAtomPattern}
use marsh.Validator.Syntax.Node.{
  RegexNode, RegexNodes, empty_node, all_node, epsilon_node, test_node, union_node, concat_node,
  star_node, intersect_node, not_node, regex_list, eval_test,
}
use marsh.Validator.Syntax.Regexes.{
  nullable, regex_is, regex_union, regex_intersect, regex_concat, regex_not,
}
use marsh.Validator.Syntax.Transition.{
  TransitionNode, TransitionNodes, const_node, if_node, union_node as union_transition,
  intersect_node as intersect_transition, not_node as not_transition, append_node, transition_empty,
  transition_all, transition_epsilon, TransitionNumbering, transition_if, transition_union,
  transition_intersect, transition_not, transition_append,
}

module _ (ns : TransitionNumbering) where
  open ns use {nodes as ids}

  unfoldable mutual
    unfolding transition_if transition_union transition_intersect transition_not transition_append
        nullable

    pub derivative : RegexNode → TransitionNode
    derivative empty_node = transition_empty
    derivative epsilon_node = transition_empty
    derivative all_node = transition_all
    derivative (test_node test) = transition_if ns test transition_epsilon transition_empty
    derivative (union_node rs) = transition_union ns (derivatives rs)
    derivative (intersect_node rs) = transition_intersect ns (derivatives rs)
    derivative (not_node r) = transition_not ns (derivative r)
    derivative (concat_node rs) = transition_union ns (alternatives rs)
    derivative (star_node r) = transition_append ns (derivative r) (star_node r ∷ [])

    pub derivatives : RegexNodes → List TransitionNode
    derivatives RegexNodes.nil = []
    derivatives (RegexNodes.cons r rs) = derivative r ∷ derivatives rs

    -- A factor with the suffix after it, up to the first factor that is not nullable.
    pub alternatives : RegexNodes → List TransitionNode
    alternatives RegexNodes.nil = []
    alternatives (RegexNodes.cons r rs) =
        let rest = alternatives rs in
        transition_append ns (derivative r) (regex_list rs) ∷ (if nullable r then rest else [])

  -- One transition on an event, given by the atoms that match it.
  unfoldable mutual
    unfolding eval_test regex_union regex_intersect regex_not regex_concat

    pub evaluate : (CompiledAtomPattern → Bool) → TransitionNode → RegexNode
    evaluate v (const_node r) = r
    evaluate v (if_node test a b) = if eval_test v test then evaluate v a else evaluate v b
    evaluate v (union_transition ts) = regex_union ids (evaluate_each v ts)
    evaluate v (intersect_transition ts) = regex_intersect ids (evaluate_each v ts)
    evaluate v (not_transition t) = regex_not (evaluate v t)
    evaluate v (append_node t suffix) = regex_concat (evaluate v t ∷ suffix)

    pub evaluate_each : (CompiledAtomPattern → Bool) → TransitionNodes → List RegexNode
    evaluate_each v TransitionNodes.nil = []
    evaluate_each v (TransitionNodes.cons t ts) = evaluate v t ∷ evaluate_each v ts

  -- The replay stops at the universal and the empty language.
  unfoldable pub accepts_history :
      {E : Type 0} → (E → CompiledAtomPattern → Bool) → RegexNode → List E → Bool
  unfolding derivative evaluate
  accepts_history sat state [] = nullable state
  accepts_history sat state (e ∷ h) =
      let rest = accepts_history sat (evaluate (sat e) (derivative state)) h in
      if regex_is ids state all_node
      then nullable state
      else if regex_is ids state empty_node
      then nullable state
      else rest
