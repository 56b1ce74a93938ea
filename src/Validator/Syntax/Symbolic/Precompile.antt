-- ===== src/Validator/Syntax/Symbolic/Precompile.antt =====
-- SymbolicMatcher::precompile of rust-validator/src/syntax/symbolic.rs: the search over the states
-- that a tail can reach, which builds tables for small transitions within a budget.
use marsh.Base.{
  ℕ, zero, suc, ◌+◌, Bool, true, false, not, ◌||◌, List, [], ◌∷◌, ◌++◌, Option, none, some, length,
  ltb, is_empty, if◌then◌else◌,
}
use Prim.Native.Nat.{◌^◌}
use marsh.Validator.Syntax.Node.{RegexNode}
use marsh.Validator.Syntax.Regexes.{has_regex}
use marsh.Validator.Syntax.Transition.{
  TransitionNode, const_node, TransitionNumbering, transition_is,
}
use marsh.Validator.Syntax.Symbolic.{derivative}
use marsh.Validator.Syntax.Symbolic.Minterms.{collect_transition_atoms, compiled_successors}

abbrev pub max_precompiled_atoms : ℕ
max_precompiled_atoms = 12

abbrev pub max_precompiled_minterms : ℕ
max_precompiled_minterms = 4096

abbrev pub max_precompiled_states : ℕ
max_precompiled_states = 64

-- `minterms`, by transition.
abbrev pub Tables : Type 0
Tables = List (TransitionNode × List RegexNode)

pub record Search : Type 0 where
  pub pending : List RegexNode
  pub seen : List RegexNode
  pub compiled_minterms : ℕ
  pub tables : Tables

abbrev pub is_done : Search → Bool
is_done s = is_empty s.pending || not (ltb (length s.seen) max_precompiled_states)

-- Each round takes one pending state, and each of 64 states adds 4096 at most.
abbrev pub enough : ℕ
enough = 262210

abbrev pub start : RegexNode → Search
start root = record { pending = root ∷ []; seen = []; compiled_minterms = 0; tables = [] }

module _ (ns : TransitionNumbering) where
  open ns use {nodes as ids}

  unfoldable pub table_at : TransitionNode → Tables → Option (List RegexNode)
  table_at t [] = none
  table_at t ((u, rows) ∷ tables) = if transition_is ns u t then some rows else table_at t tables

  -- A transition with no table yet, whose atoms are counted.
  abbrev pub build : TransitionNode → ℕ → Search → Search
  build t atoms s =
      if ltb max_precompiled_atoms atoms
      then s
      else if ltb max_precompiled_minterms (s.compiled_minterms + 2 ^ atoms)
      then s
      else record s {
        pending = s.pending ++ compiled_successors ns t;
        compiled_minterms = s.compiled_minterms + 2 ^ atoms;
        tables = (t, compiled_successors ns t) ∷ s.tables;
      }

  abbrev pub reuse_or_build : TransitionNode → Option (List RegexNode) → Search → Search
  reuse_or_build t (some rows) s = record s { pending = s.pending ++ rows }
  reuse_or_build t none s = build t (length (collect_transition_atoms t)) s

  abbrev pub expand : TransitionNode → Search → Search
  expand (const_node r) s = s
  expand t s = reuse_or_build t (table_at t s.tables) s

  -- One round for the state that is next in line.
  unfoldable pub visit : RegexNode → Search → Search
  unfolding table_at derivative compiled_successors collect_transition_atoms
  visit r s =
      if has_regex ids s.seen r
      then s
      else expand (derivative ns r) (record s { seen = r ∷ s.seen })

  abbrev pub round : List RegexNode → Search → Search
  round [] s = s
  round (r ∷ rest) s = visit r (record s { pending = rest })

  unfoldable pub explore : ℕ → Search → Search
  unfolding visit
  explore zero s = s
  explore (suc fuel) s = elim (is_done s) [ true ↦ s | false ↦ explore fuel (round s.pending s) ]

  unfoldable pub precompile : RegexNode → Tables
  unfolding explore
  precompile root = (explore enough (start root)).tables
