-- ===== src/Mux/Diff/Tests.antt =====
-- A command that makes a file of one directory and a directory of one file.
use marsh.Base.{◌≡◌, refl, List, [], ◌∷◌, list_has_eq, nat_has_eq, string_has_eq}
use marsh.Base.Results.{ok}
use marsh.Mux.Tree.{TreePath, Tree, file, lookup}
use marsh.Mux.History.{write, remove}
use marsh.Mux.Commit.{WalRecord, op_records, apply_records}
use marsh.Mux.Diff.{writes, diff_trees}
use marsh.Mux.Diff.Commits.{diff_trees-applies}

abbrev seed : Tree
seed =
    ("src" ∷ "old" ∷ [], file (1 ∷ []) 420)
    ∷ ("bin" ∷ [], file (2 ∷ []) 420)
    ∷ ("same" ∷ [], file (3 ∷ []) 420)
    ∷ []

abbrev work : Tree
work =
    ("src" ∷ [], file (1 ∷ []) 420)
    ∷ ("bin" ∷ "new" ∷ [], file (2 ∷ []) 420)
    ∷ ("same" ∷ [], file (3 ∷ []) 420)
    ∷ []

differences :
    diff_trees seed work
    ≡ remove ("src" ∷ "old" ∷ [])
      ∷ remove ("bin" ∷ [])
      ∷ write ("src" ∷ [])
      ∷ write ("bin" ∷ "new" ∷ [])
      ∷ []
unfolding diff_trees
differences = refl

diff_trees-applies_example :
    (rs : List WalRecord) × (t : Tree) × (op_records (λ bytes. "hash") work (diff_trees seed work)
      ≡ ok rs)
    × (apply_records (λ bytes. "hash") work rs seed ≡ ok t)
    × ((q : TreePath) → lookup t q ≡ lookup work q)
unfolding writes
diff_trees-applies_example = diff_trees-applies seed work refl refl (λ bytes. "hash") refl
