-- ===== src/Mux/Startup.antt =====
-- shellmux/src/mux.rs, `ShellMux::new`: a session from what is on disk. The snapshots of the last
-- session and its temporary files are swept after the recovery; the check of the storage, the end
-- of orphaned processes and the front end are input and output. What git says of the seed is a
-- function of the seed.
pub mod Reached
pub mod Sweep
pub mod Tests
use marsh.Base.{
  ℕ, ◌-◌, String, Bool, not, ◌||◌, List, [], ◌∷◌, Option, none, some, ◌=?◌, is_some_and, retain,
  string_has_eq, nat_has_eq, if◌then◌else◌,
}
use Prim.Native.String.{len}
use text.Mathlib.Text.{get?}
use marsh.Base.Results.{Result, ok, err, ◌>>=◌}
use marsh.Mux.Tree.{TreePath, Tree, MuxError, invalid_terminal_size, temporary_suffix}
use marsh.Mux.History.{load}
use marsh.Mux.Commit.{Persistence, recover}
use marsh.Mux.Purity.{PurityChecker, static, learned, PurityRecord, restore}
use marsh.Mux.Reconcile.{GitState, reconcile}
use marsh.Mux.Conclude.{Session}

-- jobs.rs.
unfoldable pub validate_size : ℕ → ℕ → Result MuxError (Unit {0})
validate_size rows cols =
    if (rows =? 0) || (cols =? 0) then err (invalid_terminal_size rows cols) else ok tt

-- `ends_with`
abbrev pub ends_with : String → String → Bool
ends_with name suffix =
    is_some_and (λ ending. ending =? suffix) (get? name (len name - len suffix) (len name))

abbrev pub is_temporary : TreePath → Bool
is_temporary [] = Bool.false
is_temporary (name ∷ []) = ends_with name temporary_suffix
is_temporary (s ∷ t ∷ p) = is_temporary (t ∷ p)

-- Every entry that is no directory, by its name alone.
unfoldable pub sweep_temporaries : Tree → Tree
sweep_temporaries seed = retain (λ (p, e). not (is_temporary p)) seed

unfoldable pub sweep_snapshots : (String → Tree) → String → Tree
sweep_snapshots work uid = []

-- purity.rs, `PurityChecker::restore`, from the records of the log of verdicts.
unfoldable pub restore_checker : PurityChecker → List PurityRecord → PurityChecker
unfolding restore
restore_checker static log = static
restore_checker (learned _) log = learned (restore log)

abbrev pub swept : Persistence → Persistence
swept disk = record disk { seed = sweep_temporaries disk.seed; work = sweep_snapshots disk.work }

module _ (sha1 : List ℕ → String) (git : Tree → GitState) where
  abbrev pub session_on : PurityChecker → List PurityRecord → Persistence → Session
  session_on checker verdicts disk =
      let recovered = load disk.history in
      record {
        authority = record {
          history = reconcile (git disk.seed) recovered.history;
          generations = recovered.generations;
          seq = recovered.seq;
        };
        disk = disk;
        purity = restore_checker checker verdicts;
        readers = record { users = []; trees = [] };
      }

  unfoldable pub new :
      ℕ → ℕ → PurityChecker → List PurityRecord → Persistence → Result MuxError Session
  unfolding validate_size recover sweep_temporaries sweep_snapshots load reconcile restore_checker
  new rows cols checker verdicts disk = do
    _ ← validate_size rows cols
    recovered ← recover sha1 disk
    ok (session_on checker verdicts (swept recovered))
