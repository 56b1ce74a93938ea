-- ===== src/Mux/Commit/Tests.antt =====
-- A commit that removes, replaces and adds a file, interrupted in the middle; and one that
-- replaces a directory by a file.
use marsh.Base.{
  ℕ, String, ◌≡◌, refl, List, [], ◌∷◌, ◌++◌, some, length, if◌then◌else◌, ◌=?◌, string_has_eq,
  nat_has_eq,
}
use marsh.Base.Results.{ok, err}
use marsh.Mux.Tree.{TreePath, Tree, file, not_a_directory, lookup}
use marsh.Validator.Model.{Event, Action}
use marsh.Mux.History.{CommitOp, write, remove, append as append_history, is_committed}
use marsh.Mux.Commit.{
  Begin, WalRecord, begin, move, delete, end, Persistence, begin_of, apply, apply_records, recover,
  op_records, group,
}
use marsh.Mux.Commit.Again.{apply_records-again}
use marsh.Mux.Commit.Stuck.{recovery_stuck}
use marsh.Mux.Commit.Recovery.{applying, all_or_nothing, RecoversTo, is_quiet}

abbrev pub hash : List ℕ → String
hash bytes = if length bytes =? 1 then "one" else "more"

abbrev a_txt : TreePath
a_txt = "a.txt" ∷ []

abbrev old_txt : TreePath
old_txt = "src" ∷ "old.txt" ∷ []

abbrev new_txt : TreePath
new_txt = "src" ∷ "new.txt" ∷ []

abbrev pub snapshot : String → Tree
snapshot uid = (a_txt, file (1 ∷ 2 ∷ []) 420) ∷ (new_txt, file (3 ∷ []) 420) ∷ []

abbrev pub disk : Persistence
disk = record {
  seed = (a_txt, file (1 ∷ []) 420) ∷ (old_txt, file (9 ∷ []) 420) ∷ [];
  work = snapshot;
  wal = [];
  history = [];
}

abbrev pub edits : List Event
edits = record { principal = "agent0"; action = Action.edit; resource = a_txt } ∷ []

abbrev pub ops : List CommitOp
ops = remove old_txt ∷ write a_txt ∷ write new_txt ∷ []

abbrev pub records : List WalRecord
records = delete old_txt ∷ move a_txt a_txt "more" ∷ move new_txt new_txt "one" ∷ []

abbrev pub opened : Begin
opened = begin_of hash "job0" 1 "agent0" "make" edits ops

abbrev pub whole : Tree
whole = (new_txt, file (3 ∷ []) 420) ∷ (a_txt, file (1 ∷ 2 ∷ []) 420) ∷ []

abbrev pub done : Persistence
done = record disk { seed = whole; wal = begin opened ∷ (records ++ end 1 ∷ []) }

abbrev pub half : Tree
half = (a_txt, file (1 ∷ 2 ∷ []) 420) ∷ []

abbrev pub crashed : Persistence
crashed = record disk { seed = half; wal = begin opened ∷ records }

pub half_applied :
    apply_records hash (snapshot "job0") (delete old_txt ∷ move a_txt a_txt "more" ∷ []) disk.seed
    ≡ ok half
unfolding apply_records
half_applied = refl

apply_records-again_example :
    (again : Tree) × (apply_records hash (snapshot "job0") records half ≡ ok again)
    × ((q : TreePath) → lookup again q ≡ lookup whole q)
unfolding apply_records
apply_records-again_example =
    apply_records-again hash (snapshot "job0") records 2 disk.seed half whole refl refl refl refl

all_or_nothing_example :
    RecoversTo hash disk whole (append_history 1 "agent0" "make" edits ops []) crashed
unfolding apply op_records is_quiet group is_committed
all_or_nothing_example =
    all_or_nothing hash disk done crashed "job0" 1 "agent0" "make" edits ops records refl refl refl
      refl refl refl (applying 2 half half_applied)

-- `src` was a directory, and the command made a file of it.
abbrev src_path : TreePath
src_path = "src" ∷ []

abbrev replacing : List WalRecord
replacing = delete old_txt ∷ move src_path src_path "one" ∷ []

replacing_applied :
    apply_records hash ((src_path, file (7 ∷ []) 420) ∷ []) replacing disk.seed
    ≡ ok ((src_path, file (7 ∷ []) 420) ∷ (a_txt, file (1 ∷ []) 420) ∷ [])
unfolding apply_records
replacing_applied = refl

recovery_stuck_example :
    recover hash (record disk {
      seed = (src_path, file (7 ∷ []) 420) ∷ (a_txt, file (1 ∷ []) 420) ∷ [];
      wal = begin (record opened { op_count = some 2 }) ∷ replacing;
    })
    ≡ err (not_a_directory old_txt)
unfolding is_quiet group
recovery_stuck_example =
    recovery_stuck hash disk ((src_path, file (7 ∷ []) 420) ∷ (a_txt, file (1 ∷ []) 420) ∷ [])
      (record opened { op_count = some 2 }) src_path old_txt (move src_path src_path "one" ∷ [])
      refl refl refl refl refl
