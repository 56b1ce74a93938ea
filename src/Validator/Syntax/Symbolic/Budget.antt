-- ===== src/Validator/Syntax/Symbolic/Budget.antt =====
-- The search of rust-validator/src/syntax/symbolic.rs ends, within its budget, and its tables are
-- those that are built for their transitions.
use marsh.Base.{
  ℕ, zero, suc, ◌+◌, ◌-◌, ◌*◌, ◌≤◌, ◌<◌, ◌≡◌, refl, sym, ap, ◌∙◌, true, false, List, [], ◌∷◌, some,
  length, map, ltb, arith, Bool-cases, Option-cases, inl, inr, length-append, is_empty,
}
use Prim.Native.Nat.{◌^◌}
use marsh.Validator.Syntax.Node.{RegexNode}
use marsh.Validator.Syntax.Regexes.{has_regex}
use marsh.Validator.Syntax.Transition.{
  TransitionNode, const_node, TransitionNumbering, transition_is,
}
use marsh.Validator.Syntax.Symbolic.{derivative}
use marsh.Validator.Syntax.Symbolic.Minterms.{collect_transition_atoms, compiled_successors, range}
use marsh.Validator.Syntax.Symbolic.Precompile.{
  Tables, Search, table_at, build, reuse_or_build, expand, visit, is_done, round, explore, enough,
  start, precompile,
}

abbrev pub total_rows : Tables → ℕ
total_rows [] = 0
total_rows ((t, rows) ∷ tables) = length rows + total_rows tables

length-map : {A B : Type 0} (f : A → B) (xs : List A) → length (map f xs) ≡ length xs
length-map f [] = refl
length-map f (x ∷ xs) = ap suc (length-map f xs)

length-range : (a n : ℕ) → length (range a n) ≡ n
unfolding range
length-range a zero = refl
length-range a (suc n) = ap suc (length-range (suc a) n)

module _ (ns : TransitionNumbering) where
  length-compiled_successors :
      (t : TransitionNode)
      → length (compiled_successors ns t) ≡ 2 ^ length (collect_transition_atoms t)
  unfolding compiled_successors
  length-compiled_successors t =
      length-map _ (range 0 (2 ^ length (collect_transition_atoms t))) ∙ length-range 0 _

  abbrev pub AreBuilt : Tables → Type 0
  AreBuilt [] = Unit
  AreBuilt ((t, rows) ∷ tables) = (rows ≡ compiled_successors ns t) × AreBuilt tables

  pub table_at-built :
      (t : TransitionNode) (tables : Tables) (rows : List RegexNode)
      → AreBuilt tables
      → table_at ns t tables ≡ some rows
      → (rows ≡ compiled_successors ns t) × (length rows ≤ total_rows tables)
  unfolding table_at
  table_at-built t [] rows b e = cc
  table_at-built t ((u, us) ∷ tables) rows b e = elim (Bool-cases (transition_is ns u t)) [
    | inl same ↦
        let here : us ≡ rows = ground (arith, same) in
        let node : u ≡ t = ns.transition_uid_injective u t (ground (arith, same)) in
        (
          sym here ∙ b.0 ∙ ap (compiled_successors ns) node,
          omega (arith, ap length {x = us} {y = rows} here),
        )
    | inr other ↦
        let (r, l) = table_at-built t tables rows b.1 (ground (arith, other)) in (r, omega arith)
  ]

  -- The budget is spent on the tables there are.
  record IsBudgeted (s : Search) : Type 0 where
    built : AreBuilt s.tables
    spent : s.compiled_minterms ≡ total_rows s.tables
    within : s.compiled_minterms ≤ 4096

  abbrev rounds_left : Search → ℕ
  rounds_left s = length s.pending + (64 - length s.seen) * 4097

  -- What an expansion adds to the states in line.
  abbrev Grows : Search → Search → Type 0
  Grows s s' = IsBudgeted s' × (s'.seen ≡ s.seen) × (length s'.pending ≤ length s.pending + 4096)

  build-Grows :
      (t : TransitionNode) (s : Search)
      → IsBudgeted s
      → Grows s (build ns t (length (collect_transition_atoms t)) s)
  build-Grows t s b = elim (Bool-cases (ltb 12 atoms)) [
    | inl large ↦ rw large (b, refl, omega arith)
    | inr small ↦ rw small (elim (Bool-cases (ltb 4096 (s.compiled_minterms + 2 ^ atoms))) [
      | inl over ↦ rw over (b, refl, omega arith)
      | inr fits ↦
          let size = length-compiled_successors t in
          let within : s.compiled_minterms + 2 ^ atoms ≤ 4096 = ground arith in
          rw fits (
            record { built = (refl, b.built); spent = omega (arith, b.spent); within = within },
            refl,
            omega (arith, length-append s.pending (compiled_successors ns t)),
          )
    ])
  ]
    where
      atoms : ℕ
      atoms = length (collect_transition_atoms t)

  reuse_or_build-Grows :
      (t : TransitionNode) (s : Search)
      → IsBudgeted s
      → Grows s (reuse_or_build ns t (table_at ns t s.tables) s)
  reuse_or_build-Grows t s b = elim (Option-cases (table_at ns t s.tables)) [
    | inl e ↦ rw e (build-Grows t s b)
    | inr (rows, e) ↦
        let (r, l) = table_at-built t s.tables rows b.built e in
        rw e (
          record { built = b.built; spent = b.spent; within = b.within },
          refl,
          omega (arith, b.spent, b.within, length-append s.pending rows),
        )
  ]

  expand-Grows : (t : TransitionNode) (s : Search) → IsBudgeted s → Grows s (expand ns t s)
  expand-Grows (const_node r) s b = (b, refl, omega arith)
  expand-Grows t s b = reuse_or_build-Grows t s b

  visit-IsBudgeted :
      (r : RegexNode) (s : Search)
      → IsBudgeted s
      → length s.seen < 64
      → IsBudgeted (visit ns r s)
        × (length (visit ns r s).seen ≤ 64)
        × (rounds_left (visit ns r s) ≤ rounds_left s)
  unfolding visit
  visit-IsBudgeted r s b h = elim (Bool-cases (has_regex ns.nodes s.seen r)) [
    | inl old ↦ rw old (b, omega arith, omega arith)
    | inr new ↦
        let s' : Search = record s { seen = r ∷ s.seen } in
        let (b', seen, pending) =
          expand-Grows (derivative ns r) s'
            (record { built = b.built; spent = b.spent; within = b.within }) in
        rw new (
          b',
          omega
              (arith, ap length {x = (expand ns (derivative ns r) s').seen} {y = r ∷ s.seen} seen),
          omega
              (arith, ap length {x = (expand ns (derivative ns r) s').seen} {y = r ∷ s.seen} seen),
        )
  ]

  round-IsBudgeted :
      (s : Search)
      → IsBudgeted s
      → is_done s ≡ false
      → IsBudgeted (round ns s.pending s)
        × (length (round ns s.pending s).seen ≤ 64)
        × (rounds_left (round ns s.pending s) < rounds_left s)
  round-IsBudgeted s b h = next s.pending refl
    where
      next :
          (rs : List RegexNode)
          → rs ≡ s.pending
          → IsBudgeted (round ns rs s)
            × (length (round ns rs s).seen ≤ 64)
            × (rounds_left (round ns rs s) < rounds_left s)
      next [] e = absurd (ground (arith, ap is_empty e))
      next (r ∷ rest) e =
          let s' : Search = record s { pending = rest } in
          let (b', seen, left) =
            visit-IsBudgeted r s' (record { built = b.built; spent = b.spent; within = b.within })
              (ground (arith, h)) in
          (b', seen, omega (arith, left, ap length e))

  explore-IsBudgeted :
      (fuel : ℕ) (s : Search)
      → IsBudgeted s
      → length s.seen ≤ 64
      → rounds_left s < fuel
      → IsBudgeted (explore ns fuel s)
        × (length (explore ns fuel s).seen ≤ 64)
        × (is_done (explore ns fuel s) ≡ true)
  unfolding explore
  explore-IsBudgeted zero s b l h = absurd (omega arith)
  explore-IsBudgeted (suc fuel) s b l h = elim (Bool-cases (is_done s)) [
    | inl done ↦ rw (done, explore) (b, l, done)
    | inr more ↦
        let (b', l', left) = round-IsBudgeted s b more in
        rw (more, explore) (explore-IsBudgeted fuel (round ns s.pending s) b' l' (omega arith))
  ]

  start-IsBudgeted :
      (root : RegexNode)
      → IsBudgeted (explore ns enough (start root))
        × (length (explore ns enough (start root)).seen ≤ 64)
        × (is_done (explore ns enough (start root)) ≡ true)
  start-IsBudgeted root =
      explore-IsBudgeted enough (start root)
        (record { built = tt; spent = refl; within = omega arith }) (omega arith) (omega arith)

  -- The search ends by its own test, having visited 64 states at most and built tables of 4096 rows
  -- at most in all, each of them the table of its transition.
  pub precompile_bounded :
      (root : RegexNode)
      → (is_done (explore ns enough (start root)) ≡ true)
        × (length (explore ns enough (start root)).seen ≤ 64)
        × (total_rows (precompile ns root) ≤ 4096)
        × AreBuilt (precompile ns root)
  unfolding precompile
  precompile_bounded root =
      let (b, seen, done) = start-IsBudgeted root in
      (done, seen, omega (arith, b.spent, b.within), b.built)
