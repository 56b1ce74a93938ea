-- ===== src/Mux/Diff.antt =====
-- shellmux/src/diff.rs: the operations that turn the seed into the snapshot. Entries are compared
-- by what they hold: the inode identity of the source only spares reading files that are equal.
pub mod Paths
pub mod Select
pub mod Apply
pub mod Whole
pub mod Commits
pub mod Tests
use Prim.Native.String.{compare as compare_text}
use Prim.Native.Nat.{compare, Ordering}
use marsh.Base.{
  ℕ, String, Bool, true, false, not, ◌&&◌, List, [], ◌∷◌, ◌++◌, map, Option, none, some, ◌=?◌,
  length, is_none, is_some_and, list_has_eq, nat_has_eq, string_has_eq, if◌then◌else◌,
}
use marsh.Base.Strings.{join_path}
use marsh.Mux.Tree.{TreePath, Tree, Entry, file, symlink, other, lookup}
use marsh.Mux.History.{CommitOp, write, remove}

abbrev pub entry_beq : Entry → Entry → Bool
entry_beq (file bytes mode) (file bytes' mode') = (mode =? mode') && (bytes =? bytes')
entry_beq (symlink target) (symlink target') = target =? target'
entry_beq (other mode) (other mode') = mode =? mode'
entry_beq _ _ = false

unfoldable pub changed : Entry → Entry → Bool
changed seed work = not (entry_beq seed work)

-- The paths of the entries that a test selects.
unfoldable pub select : (TreePath → Entry → Bool) → Tree → List TreePath
select f [] = []
select f ((p, e) ∷ t) = let rest = select f t in if f p e then p ∷ rest else rest

-- `depth_key(a) <= depth_key(b)`
abbrev pub key_leb : TreePath → TreePath → Bool
key_leb a b = elim (compare (length a) (length b)) [
  | Ordering.lt ↦ true
  | Ordering.gt ↦ false
  | Ordering.eq ↦ elim (compare_text (join_path a) (join_path b)) [ Ordering.gt ↦ false | _ ↦ true ]
]

unfoldable pub insert_by : (TreePath → TreePath → Bool) → TreePath → List TreePath → List TreePath
insert_by le p [] = p ∷ []
insert_by le p (q ∷ qs) = let rest = insert_by le p qs in if le p q then p ∷ q ∷ qs else q ∷ rest

-- `sort_by`
unfoldable pub sort_by : (TreePath → TreePath → Bool) → List TreePath → List TreePath
unfolding insert_by
sort_by le [] = []
sort_by le (p ∷ ps) = insert_by le p (sort_by le ps)

unfoldable pub removes : Tree → Tree → List TreePath
unfolding select
removes seed work = select (λ p e. is_none (lookup work p)) seed

unfoldable pub writes : Tree → Tree → List TreePath
unfolding select changed
writes seed work =
    select (λ p e. is_some_and (λ e'. changed e e') (lookup work p)) seed
    ++ select (λ p e. is_none (lookup seed p)) work

-- Removals first, the deepest first, then writes, the shallowest first.
unfoldable pub diff_trees : Tree → Tree → List CommitOp
unfolding removes writes sort_by
diff_trees seed work =
    map remove (sort_by (λ a b. key_leb b a) (removes seed work))
    ++ map write (sort_by key_leb (writes seed work))
