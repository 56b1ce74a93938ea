-- ===== src/Validator/Syntax/Symbolic/Replay.antt =====
-- SymbolicMatcher::accepts of rust-validator/src/syntax/symbolic.rs, with the tables.
use marsh.Base.{
  ◌≡◌, refl, ap, ◌∙◌, Bool, List, [], ◌∷◌, Option, some, Bool-cases, inl, inr, if◌then◌else◌,
}
use marsh.Base.Options.{◌>>=◌}
use marsh.Validator.Syntax.Component.{CompiledAtomPattern}
use marsh.Validator.Syntax.Node.{RegexNode, empty_node, all_node}
use marsh.Validator.Syntax.Normalize.Meaning.{IsConsistent}
use marsh.Validator.Syntax.Regexes.{nullable, regex_is}
use marsh.Validator.Syntax.Regexes.Words.{accepts}
use marsh.Validator.Syntax.Regexes.Parts.{IsCanonical}
use marsh.Validator.Syntax.Transition.{TransitionNode, TransitionNumbering}
use marsh.Validator.Syntax.Symbolic.{derivative, evaluate, accepts_history}
use marsh.Validator.Syntax.Symbolic.Derivative.{accepts_history-accepts}
use marsh.Validator.Syntax.Symbolic.Tables.{instantiate-evaluate}
use marsh.Validator.Syntax.Symbolic.Minterms.{instantiate, compiled_successors}

module _ (ns : TransitionNumbering) {E : Type 0} (sat : E → CompiledAtomPattern → Bool)
    (compiled : TransitionNode → Option (List RegexNode)) where
  open ns use {nodes as ids}

  -- Atoms of an event are tested by `sat`, and `compiled` holds the tables that there are.
  unfoldable pub replay_history : RegexNode → List E → Option Bool
  unfolding derivative instantiate nullable
  replay_history state [] = some (nullable state)
  replay_history state (e ∷ h) =
      if regex_is ids state all_node
      then some (nullable state)
      else if regex_is ids state empty_node
      then some (nullable state)
      else do next ← instantiate ns compiled (sat e) (derivative ns state); replay_history next h

  module _
      (built : (t : TransitionNode) (rows : List RegexNode)
        → compiled t ≡ some rows
        → rows ≡ compiled_successors ns t) where
    replay_history-accepts_history :
        (r : RegexNode) (h : List E) → replay_history r h ≡ some (accepts_history ns sat r h)
    unfolding replay_history accepts_history
    replay_history-accepts_history r [] = refl
    replay_history-accepts_history r (e ∷ h) = elim (Bool-cases (regex_is ids r all_node)) [
      | inl t ↦ rw t refl
      | inr t ↦ rw t (elim (Bool-cases (regex_is ids r empty_node)) [
        | inl u ↦ rw u refl
        | inr u ↦
            rw (u, instantiate-evaluate ns compiled (sat e) (derivative ns r) built)
              (replay_history-accepts_history (evaluate ns (sat e) (derivative ns r)) h)
      ])
    ]

    -- The replay of a history returns, and answers whether a canonical expression accepts it, when
    -- no component of an event has two values and every table is the one that is built for its
    -- transition.
    pub replay_history-accepts :
        (apart : (a : E) → IsConsistent (sat a)) (r : RegexNode) (h : List E)
        → IsCanonical ids r
        → replay_history r h ≡ some (accepts sat r h)
    replay_history-accepts apart r h c =
        replay_history-accepts_history r h ∙ ap some (accepts_history-accepts ns sat apart r h c)
