-- ===== src/Mux/Diff/Select.antt =====
-- shellmux/src/diff.rs: which paths a difference removes and writes.
use marsh.Base.{
  ◌≡◌, Bool, true, false, not, ◌&&◌, none, arith, ◌=?◌, all, any, is_none, is_some_and, list_has_eq,
  nat_has_eq, string_has_eq, Option-cases, inl, inr,
}
use marsh.Mux.Tree.{TreePath, Tree, lookup}
use marsh.Mux.Diff.{changed, select, removes, writes}
use marsh.Mux.Diff.Paths.{entry_beq-true, all-append, any-append, all-select, any-select}

abbrev pub has_path : Tree → TreePath → Bool
has_path t p = not (is_none (lookup t p))

module _ (seed work : Tree) where
  pub removes-in : all (λ p. has_path seed p && is_none (lookup work p)) (removes seed work) ≡ true
  unfolding removes
  removes-in = all-select _ _ seed (λ p e i f. ground arith)

  pub writes-in : all (has_path work) (writes seed work) ≡ true
  unfolding writes
  writes-in = ground (
    arith,
    all-append (has_path work)
        (select (λ p e. is_some_and (λ e'. changed e e') (lookup work p)) seed)
        (select (λ p e. is_none (lookup seed p)) work),
    all-select (λ p e. is_some_and (λ e'. changed e e') (lookup work p)) (has_path work) seed
        (λ p e i f. ground arith),
    all-select (λ p e. is_none (lookup seed p)) (has_path work) work (λ p e i f. ground arith),
  )

  pub removes_complete :
      (q : TreePath)
      → has_path seed q ≡ true
      → lookup work q ≡ none
      → any (λ p. p =? q) (removes seed work) ≡ true
  unfolding removes
  removes_complete q i n = elim (Option-cases (lookup seed q)) [
    | inl l ↦ ground (arith, l)
    | inr (e, l) ↦ any-select (λ p e. is_none (lookup work p)) seed q e l (ground (arith, n))
  ]

  pub writes_complete :
      (q : TreePath)
      → has_path work q ≡ true
      → any (λ p. p =? q) (writes seed work) ≡ false
      → lookup seed q ≡ lookup work q
  unfolding writes changed
  writes_complete q i n = elim (Option-cases (lookup work q)) [
    | inl l ↦ ground (arith, l)
    | inr (e', l') ↦ elim (Option-cases (lookup seed q)) [
      | inl l ↦ ground (
        arith,
        l,
        any-append (λ p. p =? q)
            (select (λ p e. is_some_and (λ e'. changed e e') (lookup work p)) seed)
            (select (λ p e. is_none (lookup seed p)) work),
        any-select (λ p e. is_none (lookup seed p)) work q e' l',
      )
      | inr (e, l) ↦ ground (
        arith,
        l,
        l',
        any-append (λ p. p =? q)
            (select (λ p e. is_some_and (λ e'. changed e e') (lookup work p)) seed)
            (select (λ p e. is_none (lookup seed p)) work),
        any-select (λ p e. is_some_and (λ e'. changed e e') (lookup work p)) seed q e l,
        entry_beq-true e e',
      )
    ]
  ]
