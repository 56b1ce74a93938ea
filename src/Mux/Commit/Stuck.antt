-- ===== src/Mux/Commit/Stuck.antt =====
-- shellmux/src/wal.rs, `apply_remove`, in a replay: where the second run of a transaction fails.
use marsh.Base.{
  ℕ, suc, ◌≡◌, refl, ap, ◌∙◌, Bool, true, false, List, [], ◌∷◌, ◌++◌, some, arith, all, length,
  ◌=?◌, nat_has_eq, String, any, is_none, list_has_eq, string_has_eq, not,
}
use marsh.Base.Results.{err}
use marsh.Mux.Tree.{TreePath, Tree, not_a_directory, lookup, ancestors, is_blocked, apply_remove}
use marsh.Mux.Commit.{
  Begin, WalRecord, begin, delete, Persistence, group, apply_records, apply_record, recover, replay,
}
use marsh.Mux.Commit.Again.{is_above}
use marsh.Mux.Commit.Frames.{is_operation, transaction, group-transaction, recover-last}
use marsh.Mux.Tree.{path_eq}
use marsh.Mux.Commit.Recovery.{is_quiet, framed}

pub any-member :
    {A : Type 0} (f : A → Bool) (g : A → Bool) (xs : List A)
    → ((x : A) → g x ≡ true → f x ≡ true)
    → any g xs ≡ true
    → any f xs ≡ true
any-member f g [] le h = ground arith
any-member f g (x ∷ xs) le h = ground (arith, any-member f g xs le, le x)

pub blocked_above :
    (seed : Tree) (d p : TreePath)
    → is_above d p ≡ true
    → is_none (lookup seed d) ≡ false
    → is_blocked seed p ≡ true
blocked_above seed d p a h =
    any-member (λ q. not (is_none (lookup seed q))) (λ q. q =? d) (ancestors p)
      (λ q e. ap (λ x. not (is_none (lookup seed x))) (path_eq q d e) ∙ ap not h) a

module _ (sha1 : List ℕ → String) where
  -- A commit that has already put an entry at `d` when it crashes, and that starts with the removal
  -- of a path below `d`, cannot be recovered: recovery ends in the error of the path that is not in a directory.
  pub recovery_stuck :
      (disk : Persistence) (seed : Tree) (b : Begin) (d p : TreePath) (rs : List WalRecord)
      → is_quiet disk ≡ true
      → all is_operation rs ≡ true
      → b.op_count ≡ some (suc (length rs))
      → is_above d p ≡ true
      → is_none (lookup seed d) ≡ false
      → recover sha1 (record disk { seed = seed; wal = disk.wal ++ begin b ∷ delete p ∷ rs })
        ≡ err (not_a_directory p)
  recovery_stuck disk seed b d p rs q is_op count a h =
      let blocked = blocked_above seed d p a h in
      recover-last sha1 (record disk { seed = seed; wal = disk.wal ++ begin b ∷ delete p ∷ rs })
        (group [] disk.wal) (transaction b (delete p ∷ rs) false)
        (group-transaction disk.wal b (delete p ∷ rs) is_op) (unfold is_quiet in q)
        (framed sha1 disk b (delete p ∷ rs) q is_op count false).0
      ∙ (unfold replay apply_records apply_record apply_remove in
          rw ((framed sha1 disk b (delete p ∷ rs) q is_op count false).1, blocked) refl)
