-- ===== src/Mux/Conclude.antt =====
-- shellmux/src/mux.rs: the conclusion of a command, from its trace to the seed and the history.
-- The translation of a trace (translate.rs), the walk of two trees, which may fail, and the hash
-- of contents are parameters; what a command printed is carried along unread. A conclusion returns
-- its outcome, or its error, and the session after it.
pub mod Stale
pub mod Outcomes
pub mod Restart
pub mod Failures
pub mod Snapshot
pub mod Tests
use marsh.Base.{
  ℕ, suc, ◌+◌, String, Bool, true, false, not, ◌&&◌, ◌||◌, ltb, List, [], ◌∷◌, ◌++◌, map, Option,
  none, some, ◌=?◌, length, is_some_and, any, all, is_none, is_empty, list_has_eq, string_has_eq,
  nat_has_eq, if◌then◌else◌,
}
use Prim.Native.Nat.{Ordering}
use Prim.Native.String.{compare as compare_text}
use marsh.Base.Strings.{join_path}
use marsh.Mux.Diff.{sort_by}
use marsh.Base.Results.{Result, ok, err, ◌>>=◌}
use marsh.Validator.Model.{Principal, Event, Action, action_has_eq}
use marsh.Policy.{PolicyDecision}
use marsh.Mux.Tree.{TreePath, Tree, MuxError}
use marsh.Mux.History.{
  CommitOp, path, Generations, generation, insert_all, append as append_history,
}
use marsh.Mux.Commit.{Persistence, apply}
use marsh.Mux.Authority.{AuthorityState, CapDenial, check_events, truncate}
use marsh.Mux.Purity.{Verdict, pure, sandboxed, PurityChecker, observe}
use marsh.Mux.Readers.{Readers, release_reader, discard_reader}

pub data Plan : Type 0 where
  transaction bypass : Plan

pub record Sandbox : Type 0 where
  pub principal : Principal
  pub uid : String
  pub dir : String

pub record Translation : Type 0 where
  pub events : List Event
  pub unsupported : Option String
  pub git_reads : List TreePath
  pub wrote_in_root : Bool

-- Exit status, and what the outcomes carry of the run: its output and its syscall record.
pub record ExecutionResult (Evidence : Type 0) : Type 0 where
  pub exit_code : ℕ
  pub output : String
  pub evidence : Option Evidence

pub record StalePath : Type 0 where
  pub path : TreePath
  pub merged_seq : ℕ

pub data CmdOutcome : Type 0 where
  committed : ℕ → List Event → CmdOutcome
  denied_caps : List Event → List CapDenial → CmdOutcome
  stale_snapshot : List Event → List StalePath → CmdOutcome
  exec_failed : ℕ → CmdOutcome
  unsupported_command : String → CmdOutcome
  bypassed : List Event → CmdOutcome
  escaped : List Event → Bool → CmdOutcome

pub record Session : Type 0 where
  pub authority : AuthorityState
  pub disk : Persistence
  pub purity : PurityChecker
  pub readers : Readers

-- Read-only, and nothing else.
abbrev pub only_reads : List Event → Bool
only_reads events = all (λ e. e.action =? Action.read) events

unfoldable pub verdict_of : Translation → ℕ → Verdict
verdict_of t exit_code =
    if is_none t.unsupported && (not t.wrote_in_root && (only_reads t.events && (exit_code =? 0)))
    then pure
    else sandboxed

-- The paths that are checked: those written, those of the events, and those that git read.
unfoldable pub checked_paths : List CommitOp → List Event → List TreePath → List TreePath
checked_paths ops events git_reads = map path ops ++ (map (λ e. e.resource) events ++ git_reads)

-- `sort` compares the joined texts; `dedup` drops an element that equals the one before it.
abbrev pub text_leb : TreePath → TreePath → Bool
text_leb a b = elim (compare_text (join_path a) (join_path b)) [ Ordering.gt ↦ false | _ ↦ true ]

unfoldable pub dedup : List TreePath → List TreePath
dedup [] = []
dedup (p ∷ []) = p ∷ []
dedup (p ∷ q ∷ ps) = let rest = dedup (q ∷ ps) in if p =? q then rest else p ∷ rest

unfoldable pub stale_among : Generations → ℕ → List TreePath → List StalePath
stale_among generations base_seq [] = []
stale_among generations base_seq (p ∷ ps) =
    let rest = stale_among generations base_seq ps in
    elim (generation generations p) [
      | none ↦ rest
      | some merged ↦
          if ltb base_seq merged then record { path = p; merged_seq = merged } ∷ rest else rest
    ]

unfoldable pub stale_paths :
    Generations → ℕ → List CommitOp → List Event → List TreePath → List StalePath
unfolding checked_paths stale_among dedup sort_by
stale_paths generations base_seq ops events git_reads =
    stale_among generations base_seq (dedup (sort_by text_leb (checked_paths ops events git_reads)))

abbrev pub Concluded : Type 0
Concluded = Result MuxError CmdOutcome × Session

abbrev pub learn_from : Session → Sandbox → String → Verdict → Session
learn_from s sandbox cmd v = record s {
  purity = observe s.purity (record { cmd = cmd; dir = sandbox.dir }) v;
}

module _ (sha1 : List ℕ → String) (decide : List Event → Event → PolicyDecision)
    (diff_trees : Tree → Tree → Result MuxError (List CommitOp)) where
  -- The seed, then the history, then the generations. The granted events are already in the history.
  unfoldable pub record_commit :
      AuthorityState
      → Persistence
      → Sandbox
      → String
      → List Event
      → List CommitOp
      → Result (MuxError × Persistence) (ℕ × AuthorityState × Persistence)
  unfolding apply append_history insert_all
  record_commit state disk sandbox cmd events ops = do
    disk' ← apply sha1 disk sandbox.uid (state.seq + 1) sandbox.principal cmd events ops
    ok (
      state.seq + 1,
      record state {
        seq = state.seq + 1;
        generations = insert_all (map path ops) (state.seq + 1) state.generations;
      },
      record disk' {
        history = append_history (state.seq + 1) sandbox.principal cmd events ops disk'.history;
      },
    )

  -- What follows once the commit lock is held and the difference is known.
  unfoldable pub merge : Session → Sandbox → String → ℕ → Translation → List CommitOp → Concluded
  unfolding check_events record_commit stale_paths
  merge s sandbox cmd base_seq t ops =
      if is_empty t.events && is_empty ops
      then (ok (committed base_seq []), s)
      else let stale = stale_paths s.authority.generations base_seq ops t.events t.git_reads in
        if not (is_empty stale)
        then (ok (stale_snapshot t.events stale), s)
        else let (history, denials) = check_events decide s.authority.history t.events in
          if not (is_empty denials)
          then (
            ok (denied_caps t.events denials),
            record s {
              authority = record s.authority {
                history = truncate (length s.authority.history) history;
              };
            },
          )
          else let granted = record s.authority { history = history } in
            elim (record_commit granted s.disk sandbox cmd t.events ops) [
              | err (e, disk) ↦ (err e, record s { authority = granted; disk = disk })
              | ok (seq, state, disk) ↦
                  (ok (committed seq t.events), record s { authority = state; disk = disk })
            ]

  unfoldable pub conclude_bypass : Session → Sandbox → String → ℕ → Translation → ℕ → Concluded
  unfolding check_events append_history discard_reader
  conclude_bypass s sandbox cmd exit_code t base_seq =
      if not (is_none t.unsupported) || (t.wrote_in_root || not (only_reads t.events))
      then (
        ok (escaped t.events t.wrote_in_root),
        record (learn_from s sandbox cmd sandboxed) { readers = discard_reader s.readers base_seq },
      )
      else if not (exit_code =? 0)
      then (ok (exec_failed exit_code), s)
      else if is_empty t.events
      then (ok (bypassed []), s)
      else let (history, denials) = check_events decide s.authority.history t.events in
        if not (is_empty denials)
        then (
          ok (denied_caps t.events denials),
          record s {
            authority = record s.authority {
              history = truncate (length s.authority.history) history;
            };
          },
        )
        else (
          ok (bypassed t.events),
          record s {
            authority = record s.authority { history = history };
            disk = record s.disk {
              history =
                  append_history s.authority.seq sandbox.principal cmd t.events [] s.disk.history;
            };
          },
        )

  -- A transaction, translated: what it showed is learned before anything else.
  unfoldable pub conclude_transaction : Session → Sandbox → String → ℕ → Translation → ℕ → Concluded
  unfolding verdict_of merge
  conclude_transaction s sandbox cmd exit_code t base_seq =
      let s' = learn_from s sandbox cmd (verdict_of t exit_code) in
      elim t.unsupported [
        | some reason ↦ (ok (unsupported_command reason), s')
        | none ↦
            if not (exit_code =? 0)
            then (ok (exec_failed exit_code), s')
            else elim (if t.wrote_in_root
                then diff_trees s'.disk.seed (s'.disk.work sandbox.uid)
                else ok []) [ err e ↦ (err e, s') | ok ops ↦ merge s' sandbox cmd base_seq t ops ]
      ]

  module _ {Evidence : Type 0} (translate : Evidence → Sandbox → Translation) where
    unfoldable pub conclude :
        Session
        → Sandbox
        → String
        → Result MuxError (ExecutionResult Evidence)
        → ℕ
        → Plan
        → Concluded
    unfolding conclude_transaction conclude_bypass
    conclude s sandbox cmd completed base_seq plan =
        let s' : Session = elim plan [
          | bypass ↦ record s { readers = release_reader s.readers base_seq s.authority.seq }
          | transaction ↦ s
        ] in
        elim completed [
          | err e ↦ (err e, s')
          | ok result ↦ elim result.evidence [
            | none ↦ (ok (exec_failed result.exit_code), s')
            | some evidence ↦ elim plan [
              | bypass ↦
                  conclude_bypass s' sandbox cmd result.exit_code (translate evidence sandbox)
                    base_seq
              | transaction ↦
                  conclude_transaction s' sandbox cmd result.exit_code (translate evidence sandbox)
                    base_seq
            ]
          ]
        ]
