-- ===== src/Mux/Startup/Sweep.antt =====
-- mux.rs, `ShellMux::new` after a crash: what recovery and the sweeps leave of the seed.
use marsh.Base.{
  ℕ, String, ◌≡◌, ap, ◌∙◌, true, false, ◌||◌, List, [], ◌∷◌, Option, none, arith, ◌=?◌, nat_has_eq,
  list_has_eq, string_has_eq, if◌then◌else◌, ◌⊎◌, inl, inr,
}
use marsh.Base.Results.{ok}
use marsh.Validator.Model.{Event}
use marsh.Mux.Tree.{TreePath, Tree, Entry, lookup, path_eq}
use marsh.Mux.History.{CommitOp, HistoryRecord, is_committed, append as append_history}
use marsh.Mux.Commit.{Persistence, WalRecord, begin_of, apply, op_records, recover}
use marsh.Mux.Commit.Recovery.{is_quiet, IsCrashed, all_or_nothing}
use marsh.Mux.Commit.Frames.{has_entries}
use marsh.Mux.Commit.Again.{keeps_directories}
use marsh.Mux.Purity.{PurityChecker, PurityRecord}
use marsh.Mux.Reconcile.{GitState}
use marsh.Mux.Conclude.{Session}
use marsh.Mux.Startup.{new, session_on, swept, sweep_temporaries, is_temporary, validate_size}

-- The entry of a path that a startup leaves.
abbrev pub entry_left : Tree → TreePath → Option Entry
entry_left t p = if is_temporary p then none else lookup t p

lookup-sweep_temporaries :
    (t : Tree) (p : TreePath) → lookup (sweep_temporaries t) p ≡ entry_left t p
unfolding sweep_temporaries
lookup-sweep_temporaries [] p = ground arith
lookup-sweep_temporaries ((q, e) ∷ t) p = ground (arith, lookup-sweep_temporaries t p, same_name)
  where
    same_name : (q =? p) ≡ true → is_temporary q ≡ is_temporary p
    same_name y = ap is_temporary (path_eq q p y)

module _ (sha1 : List ℕ → String) (git : Tree → GitState) where
  new-recovered :
      (rows cols : ℕ) (checker : PurityChecker) (verdicts : List PurityRecord)
      (disk recovered : Persistence)
      → (rows =? 0) || (cols =? 0) ≡ false
      → recover sha1 disk ≡ ok recovered
      → new sha1 git rows cols checker verdicts disk
        ≡ ok (session_on sha1 git checker verdicts (swept recovered))
  unfolding new validate_size
  new-recovered rows cols checker verdicts disk recovered size e = ground (arith, size, e)

  -- The seed has the entries of `seed` but for temporaries, and the history log is `log`.
  abbrev pub IsLeft : Tree → List HistoryRecord → Session → Type 0
  IsLeft seed log s =
      ((p : TreePath) → lookup s.disk.seed p ≡ entry_left seed p) × (s.disk.history ≡ log)

  -- Take a commit that succeeds when nothing interrupts it, of a job whose snapshot has a file or a
  -- link for every path written, where no written path, nor the temporary of one, is above a changed
  -- path or below a temporary, on a disk that is quiet and has no history entry of its number. After a
  -- crash of this commit a startup with a terminal that has a size succeeds. The history log is then
  -- as before the commit and each path of the seed has its entry of before, or both are as after the
  -- whole commit, except that the seed has nothing at a path whose name ends as a temporary's, whoever
  -- wrote it.
  pub new-all_or_nothing :
      (rows cols : ℕ) (checker : PurityChecker) (verdicts : List PurityRecord)
      (disk done crashed : Persistence) (uid : String) (seq : ℕ) (principal cmd : String)
      (events : List Event) (ops : List CommitOp) (rs : List WalRecord)
      → (rows =? 0) || (cols =? 0) ≡ false
      → is_quiet disk ≡ true
      → is_committed disk.history seq ≡ false
      → has_entries (disk.work uid) ops ≡ true
      → op_records sha1 (disk.work uid) ops ≡ ok rs
      → keeps_directories rs ≡ true
      → apply sha1 disk uid seq principal cmd events ops ≡ ok done
      → IsCrashed sha1 disk (begin_of sha1 uid seq principal cmd events ops) rs crashed
      → (s : Session) × (new sha1 git rows cols checker verdicts crashed ≡ ok s)
        × (IsLeft disk.seed disk.history s
            ⊎ IsLeft done.seed (append_history seq principal cmd events ops disk.history) s)
  new-all_or_nothing rows cols checker verdicts disk done crashed uid seq principal cmd events ops
        rs size q fresh has e k d c =
      let (r, recovered, _, which) =
        all_or_nothing sha1 disk done crashed uid seq principal cmd events ops rs q fresh has e k d
          c in
      (
        session_on sha1 git checker verdicts (swept r),
        new-recovered rows cols checker verdicts crashed r size recovered,
        elim which [
          | inl (seed, log) ↦
              inl ((λ p. lookup-sweep_temporaries r.seed p ∙ ap (λ t. entry_left t p) seed), log)
          | inr (seed, log) ↦ inr (
            (λ p.
                lookup-sweep_temporaries r.seed p
                ∙ ap (λ o. if is_temporary p then none else o) (seed p)),
            log,
          )
        ],
      )
