-- ===== src/Mux/Startup/Reached.antt =====
-- The sessions that a startup and then conclusions lead to, and what their policy decides from.
use marsh.Base.{ℕ, String, ◌≡◌, List, unwrap_or}
use marsh.Base.Results.{Result, ok}
use marsh.Validator.Model.{Event, Resource}
use marsh.Validator.Engine.{Engine}
use marsh.Policy.{PolicyDecision}
use marsh.Policy.Git.States.{Row, settled, last_row}
use marsh.Policy.Git.Decision.{new as new_policy}
use marsh.Mux.Tree.{Tree, MuxError}
use marsh.Mux.History.{CommitOp}
use marsh.Mux.Reconcile.{GitState}
use marsh.Mux.Reconcile.Restart.{kept}
use marsh.Mux.Conclude.{Session, Sandbox, Translation, ExecutionResult, Plan, CmdOutcome, conclude}
use marsh.Mux.Startup.{new}

module _ (sha1 : List ℕ → String) (decide : List Event → Event → PolicyDecision)
    (diff_trees : Tree → Tree → Result MuxError (List CommitOp)) {Evidence : Type 0}
    (translate : Evidence → Sandbox → Translation) where
  -- By conclusions that do not fail, of any commands of any principals, one after the other.
  pub data IsReached (first : Session) : Session → Type 0 where
    at_start : IsReached first first
    concluded :
        (s s' : Session) (sandbox : Sandbox) (cmd : String)
        (completed : Result MuxError (ExecutionResult Evidence)) (base_seq : ℕ) (plan : Plan)
        (o : CmdOutcome)
        → IsReached first s
        → conclude sha1 decide diff_trees translate s sandbox cmd completed base_seq plan
          ≡ (ok o, s')
        → IsReached first s'

-- The row of a resource, from what the log held at the start, what git then said of the seed, and
-- the events since.
abbrev pub resumed_row : GitState → List Event → List Event → Resource → Row
resumed_row git old since r =
    unwrap_or (unwrap_or settled (kept git r (last_row r old))) (last_row r since)
