-- ===== src/Mux/Conclude/Tests.antt =====
-- One session over a seed of one file, and a policy that refuses deletions.
use marsh.Base.{
  ℕ, String, ◌≡◌, refl, true, false, List, [], ◌∷◌, ◌++◌, map, none, some, is_empty, if◌then◌else◌,
  ◌=?◌, ◌+◌, arith, string_has_eq, list_has_eq, nat_has_eq,
}
use marsh.Base.Results.{Result, ok, err}
use marsh.Base.Strings.{join_path}
use marsh.Validator.Model.{Event, Action, action_has_eq}
use marsh.Policy.{PolicyDecision, grant, deny}
use marsh.Policy.Git.Ownership.{event}
use marsh.Mux.Tree.{lookup, TreePath, Tree, MuxError, file, not_found}
use marsh.Mux.History.{CommitOp, write, path, insert_all, append as append_history, load}
use marsh.Mux.History.Reload.{load-append}
use marsh.Mux.Authority.{all_granted}
use marsh.Mux.Purity.{static}
use marsh.Mux.Conclude.{
  transaction, bypass, Sandbox, Translation, ExecutionResult, CmdOutcome, committed, denied_caps,
  bypassed, Session, merge, conclude_bypass, conclude, stale_paths,
}
use marsh.Mux.Conclude.Stale.{stale_paths-empty}
use marsh.Mux.Conclude.Outcomes.{
  SameState, conclude-refused, merge-committed, conclude_bypass-recorded,
}
use marsh.Mux.Conclude.Restart.{IsLoaded, conclude-IsLoaded}
use marsh.Mux.Diff.{writes, diff_trees}
use marsh.Mux.Conclude.Snapshot.{merge-commits}
use marsh.Mux.Conclude.Failures.{merge-failed}

abbrev hash : List ℕ → String
hash bytes = "hash"

abbrev no_deletions : List Event → Event → PolicyDecision
no_deletions h e = if e.action =? Action.delete then deny "deletions are refused" [] else grant

abbrev pub no_diff : Tree → Tree → Result MuxError (List CommitOp)
no_diff seed work = ok []

abbrev a_txt : TreePath
a_txt = "a.txt" ∷ []

abbrev sandbox : Sandbox
sandbox = record { principal = "agent0"; uid = "job0"; dir = "" }

abbrev start : Session
start = record {
  authority = record { history = []; generations = []; seq = 0 };
  disk = record {
    seed = (a_txt, file (1 ∷ []) 420) ∷ [];
    work = λ uid. (a_txt, file (2 ∷ []) 420) ∷ [];
    wal = [];
    history = [];
  };
  purity = static;
  readers = record { users = []; trees = [] };
}

abbrev edit_a : Event
edit_a = event "agent0" Action.edit a_txt

abbrev delete_a : Event
delete_a = event "agent0" Action.delete a_txt

abbrev read_a : Event
read_a = event "agent0" Action.read a_txt

abbrev edits : Translation
edits = record { events = edit_a ∷ []; unsupported = none; git_reads = []; wrote_in_root = true }

abbrev deletes : Translation
deletes = record {
  events = edit_a ∷ delete_a ∷ [];
  unsupported = none;
  git_reads = [];
  wrote_in_root = false;
}

abbrev pub reads : Translation
reads = record { events = read_a ∷ []; unsupported = none; git_reads = []; wrote_in_root = false }

abbrev pub run : Translation → Result MuxError (ExecutionResult Translation)
run t = ok (record { exit_code = 0; output = ""; evidence = some t })

abbrev pub translated : Translation → Sandbox → Translation
translated t s = t

abbrev after_edit : Session
after_edit = (merge hash no_deletions no_diff start sandbox "make" 0 edits (write a_txt ∷ [])).1

edit_commits :
    merge hash no_deletions no_diff start sandbox "make" 0 edits (write a_txt ∷ [])
    ≡ (ok (committed 1 (edit_a ∷ [])), after_edit)
unfolding merge join_path
edit_commits = refl

merge-committed_example :
    (is_empty (stale_paths [] 0 (write a_txt ∷ []) (edit_a ∷ []) []) ≡ true)
    × (all_granted no_deletions [] (edit_a ∷ []) ≡ true)
    × (1 ≡ 0 + 1)
    × (edit_a ∷ [] ≡ edit_a ∷ [])
    × (after_edit.authority ≡ record {
      history = [] ++ edit_a ∷ [];
      generations = insert_all (map path (write a_txt ∷ [])) 1 [];
      seq = 1;
    })
    × (after_edit.disk.history
        ≡ append_history 1 "agent0" "make" (edit_a ∷ []) (write a_txt ∷ []) [])
merge-committed_example =
    merge-committed hash no_deletions no_diff start after_edit sandbox "make" 0 edits
      (write a_txt ∷ []) 1 (edit_a ∷ []) edit_commits refl

abbrev after_delete : Session
after_delete =
    (conclude hash no_deletions no_diff translated start sandbox "rm" (run deletes) 0 transaction).1

abbrev denied : CmdOutcome
denied = denied_caps deletes.events (
    record { event = delete_a; failed_precondition = "deletions are refused"; allowed_fixes = [] }
    ∷ [])

delete_denied :
    conclude hash no_deletions no_diff translated start sandbox "rm" (run deletes) 0 transaction
    ≡ (ok denied, after_delete)
unfolding conclude join_path
delete_denied = refl

conclude-refused_example : SameState start after_delete
conclude-refused_example =
    conclude-refused hash no_deletions no_diff translated start after_delete sandbox "rm"
      (run deletes) 0 transaction denied delete_denied refl

abbrev after_read : Session
after_read = (conclude_bypass hash no_deletions no_diff start sandbox "cat" 0 reads 0).1

read_bypassed :
    conclude_bypass hash no_deletions no_diff start sandbox "cat" 0 reads 0
    ≡ (ok (bypassed (read_a ∷ [])), after_read)
unfolding conclude_bypass
read_bypassed = refl

conclude_bypass-recorded_example :
    (bypassed (read_a ∷ []) ≡ bypassed (read_a ∷ []))
    × (true ≡ true)
    × (after_read.authority ≡ record { history = read_a ∷ []; generations = []; seq = 0 })
    × (after_read.disk
        ≡ record start.disk { history = append_history 0 "agent0" "cat" (read_a ∷ []) [] [] })
conclude_bypass-recorded_example =
    conclude_bypass-recorded hash no_deletions no_diff start after_read sandbox "cat" 0 reads 0
      (bypassed (read_a ∷ [])) read_bypassed refl refl

abbrev concluded_read : Session
concluded_read =
    (conclude hash no_deletions no_diff translated start sandbox "cat" (run reads) 0 bypass).1

read_concluded :
    conclude hash no_deletions no_diff translated start sandbox "cat" (run reads) 0 bypass
    ≡ (ok (bypassed (read_a ∷ [])), concluded_read)
unfolding conclude
read_concluded = refl

start-IsLoaded : IsLoaded start
unfolding load
start-IsLoaded = refl

conclude-IsLoaded_example : IsLoaded concluded_read
conclude-IsLoaded_example =
    conclude-IsLoaded hash no_deletions no_diff translated start concluded_read sandbox "cat"
      (run reads) 0 bypass (bypassed (read_a ∷ [])) start-IsLoaded read_concluded

-- The snapshot has no entry for the path that is to be written.
abbrev after_failure : Session
after_failure =
    (merge hash no_deletions no_diff start sandbox "make" 0 edits (write ("b.txt" ∷ []) ∷ [])).1

commit_fails :
    merge hash no_deletions no_diff start sandbox "make" 0 edits (write ("b.txt" ∷ []) ∷ [])
    ≡ (err (not_found ("b.txt" ∷ [])), after_failure)
unfolding merge join_path
commit_fails = refl

merge-failed_example :
    (after_failure.authority.history ≡ edit_a ∷ [])
    × (after_failure.authority.seq ≡ 0)
    × (after_failure.disk.history ≡ [])
merge-failed_example =
    merge-failed hash no_deletions no_diff start after_failure sandbox "make" 0 edits
      (write ("b.txt" ∷ []) ∷ []) (not_found ("b.txt" ∷ [])) commit_fails

stale_paths-empty_example :
    is_empty (stale_paths ((a_txt, 3) ∷ []) 2 [] (edit_a ∷ []) ([] ∷ [])) ≡ false
unfolding path
stale_paths-empty_example = stale_paths-empty ((a_txt, 3) ∷ []) 2 [] (edit_a ∷ []) ([] ∷ [])

load-append_example :
    load (append_history 1 "agent0" "make" (edit_a ∷ []) (write a_txt ∷ []) []) ≡ record {
      history = (load []).history ++ edit_a ∷ [];
      generations = insert_all (map path (write a_txt ∷ [])) 1 (load []).generations;
      seq = 1;
    }
unfolding load
load-append_example =
    load-append [] 1 "agent0" "make" (edit_a ∷ []) (write a_txt ∷ []) (omega arith)

-- The snapshot of the session has another content for the file.
merge-commits_example :
    (s' : Session) × (merge hash no_deletions no_diff start sandbox "make" 0 edits
        (diff_trees start.disk.seed (start.disk.work "job0"))
      ≡ (ok (committed 1 (edit_a ∷ [])), s'))
    × ((q : TreePath) → lookup s'.disk.seed q ≡ lookup (start.disk.work "job0") q)
unfolding stale_paths writes diff_trees path join_path
merge-commits_example =
    merge-commits hash no_deletions no_diff start sandbox "make" 0 edits refl refl refl refl refl
      refl
