-- ===== src/Mux/Startup/Tests.antt =====
-- A startup over a log of one edit, which git still shows in the seed, and one of a settled file;
-- and a startup after a crash.
use marsh.Base.{
  ℕ, String, ◌≡◌, refl, true, false, List, [], ◌∷◌, ◌++◌, none, some, is_empty, ◌⊎◌, if◌then◌else◌,
  ◌=?◌, string_has_eq, list_has_eq,
}
use marsh.Base.Results.{ok}
use marsh.Validator.Model.{Event, Resource, read, edit}
use marsh.Policy.Git.States.{unstaged, last_row, last_reader}
use marsh.Policy.Git.Ownership.{event}
use marsh.Mux.Tree.{Tree, file}
use marsh.Mux.History.{write, append as append_history, is_committed}
use marsh.Mux.Commit.{Persistence, apply, op_records, group}
use marsh.Mux.Commit.Recovery.{applying, is_quiet}
use marsh.Mux.Commit.Tests as Crash
use marsh.Mux.Purity.{static}
use marsh.Mux.Reconcile.{Status, GitState, found, not_found, reconcile, repo_root, worktree_dirty}
use marsh.Mux.Reconcile.Restart.{reconcile-rows}
use marsh.Mux.Conclude.{Sandbox, Translation, Session}
use marsh.Mux.Startup.{new, session_on, swept}
use marsh.Mux.Startup.Sweep.{IsLeft, new-all_or_nothing}

abbrev main_rs : Resource
main_rs = "src" ∷ "main.rs" ∷ []

abbrev notes : Resource
notes = "notes.txt" ∷ []

abbrev modified : Status
modified = record {
  wt_new = false;
  wt_modified = true;
  wt_deleted = false;
  wt_typechange = false;
  wt_renamed = false;
  wt_unreadable = false;
  conflicted = false;
  index_new = false;
  index_modified = false;
  index_deleted = false;
  index_renamed = false;
  index_typechange = false;
}

-- One repository, at the seed, in which one file is modified and no other is known.
abbrev one_modified : GitState
one_modified = record {
  has_git = λ directory. is_empty directory;
  opens = λ root. true;
  status_file = λ root r. if r =? main_rs then found modified else not_found;
}

abbrev edits : List Event
edits = event "alice" edit main_rs ∷ event "bob" edit notes ∷ event "bob" read main_rs ∷ []

reconcile-rows_example :
    (last_row main_rs (reconcile one_modified edits) ≡ some (unstaged "alice"))
    × (last_reader main_rs (reconcile one_modified edits) ≡ none)
unfolding last_row repo_root worktree_dirty
reconcile-rows_example = reconcile-rows one_modified edits main_rs

abbrev disk : Persistence
disk = record {
  seed = (main_rs, file (1 ∷ []) 420) ∷ [];
  work = λ uid. [];
  wal = [];
  history = append_history 1 "alice" "make" edits (write main_rs ∷ []) [];
}

abbrev hash : List ℕ → String
hash bytes = "hash"

abbrev git : Tree → GitState
git seed = one_modified

abbrev first : Session
first = session_on hash git static [] (swept disk)

abbrev reads_main : Event
reads_main = event "carol" read main_rs

abbrev reads : Translation
reads = record {
  events = reads_main ∷ [];
  unsupported = none;
  git_reads = [];
  wrote_in_root = false;
}

abbrev sandbox : Sandbox
sandbox = record { principal = "carol"; uid = "job0"; dir = "" }

abbrev second : Session
second = record first {
  authority = record first.authority { history = first.authority.history ++ reads_main ∷ [] };
  disk = record first.disk {
    history = append_history 1 "carol" "cat" (reads_main ∷ []) [] first.disk.history;
  };
}

new-all_or_nothing_example :
    (s : Session) × (new Crash.hash git 24 80 static [] Crash.crashed ≡ ok s)
    × (IsLeft Crash.hash git Crash.disk.seed [] s
        ⊎ IsLeft Crash.hash git Crash.whole
            (append_history 1 "agent0" "make" Crash.edits Crash.ops [])
            s)
unfolding apply op_records is_quiet group is_committed
new-all_or_nothing_example =
    new-all_or_nothing Crash.hash git 24 80 static [] Crash.disk Crash.done Crash.crashed "job0" 1
      "agent0" "make" Crash.edits Crash.ops Crash.records refl refl refl refl refl refl refl
      (applying 2 Crash.half Crash.half_applied)
