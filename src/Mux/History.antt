-- ===== src/Mux/History.antt =====
-- shellmux/src/history.rs: the durable history that the policy decides from, and what a restart
-- reads back of it. The log file is the list of its records (Mux/Log has its bytes).
pub mod Reload
use marsh.Base.{
  ℕ, String, Bool, List, [], ◌∷◌, ◌++◌, map, Option, none, some, ◌=?◌, leb, any, list_has_eq,
  string_has_eq, nat_has_eq, if◌then◌else◌,
}
use marsh.Validator.Model.{Action, Event}
use marsh.Mux.Tree.{TreePath}

-- diff.rs: one change of the seed.
pub data CommitOp : Type 0 where
  write : TreePath → CommitOp
  remove : TreePath → CommitOp

unfoldable pub path : CommitOp → TreePath
path (write p) = p
path (remove p) = p

pub data HistoryAction : Type 0 where
  read edit stage unstage : HistoryAction
  commit : Option String → HistoryAction
  checkout stash delete clean diff history : HistoryAction

pub record HistoryEvent : Type 0 where
  pub principal : String
  pub action : HistoryAction
  pub resource : List String

-- `HistoryAction::from` and `Action::from`.
unfoldable pub logged_action : Action → HistoryAction
logged_action Action.read = HistoryAction.read
logged_action Action.edit = HistoryAction.edit
logged_action Action.stage = HistoryAction.stage
logged_action Action.unstage = HistoryAction.unstage
logged_action (Action.commit m) = HistoryAction.commit m
logged_action Action.checkout = HistoryAction.checkout
logged_action Action.stash = HistoryAction.stash
logged_action Action.delete = HistoryAction.delete
logged_action Action.clean = HistoryAction.clean
logged_action Action.diff = HistoryAction.diff
logged_action Action.history = HistoryAction.history

unfoldable pub replayed_action : HistoryAction → Action
replayed_action HistoryAction.read = Action.read
replayed_action HistoryAction.edit = Action.edit
replayed_action HistoryAction.stage = Action.stage
replayed_action HistoryAction.unstage = Action.unstage
replayed_action (HistoryAction.commit m) = Action.commit m
replayed_action HistoryAction.checkout = Action.checkout
replayed_action HistoryAction.stash = Action.stash
replayed_action HistoryAction.delete = Action.delete
replayed_action HistoryAction.clean = Action.clean
replayed_action HistoryAction.diff = Action.diff
replayed_action HistoryAction.history = Action.history

-- `HistoryEvent::from` and `Event::from`.
unfoldable pub logged : Event → HistoryEvent
unfolding logged_action
logged e = record {
  principal = e.principal;
  action = logged_action e.action;
  resource = e.resource;
}

unfoldable pub replayed : HistoryEvent → Event
unfolding replayed_action
replayed e = record {
  principal = e.principal;
  action = replayed_action e.action;
  resource = e.resource;
}

pub record HistoryRecord : Type 0 where
  pub seq : ℕ
  pub principal : String
  pub cmd : String
  pub events : List HistoryEvent
  pub paths : List TreePath

unfoldable pub append :
    ℕ → String → String → List Event → List CommitOp → List HistoryRecord → List HistoryRecord
unfolding logged path
append seq principal cmd events ops log =
    log
    ++ record {
      seq = seq;
      principal = principal;
      cmd = cmd;
      events = map logged events;
      paths = map path ops;
    }
      ∷ []

-- Whether a sequence number is in `committed_sequences`.
unfoldable pub is_committed : List HistoryRecord → ℕ → Bool
is_committed log seq = any (λ r. r.seq =? seq) log

-- The last writer of each path: the first entry of a path is the current one.
abbrev pub Generations : Type 0
Generations = List (TreePath × ℕ)

abbrev pub generation : Generations → TreePath → Option ℕ
generation [] p = none
generation ((q, n) ∷ g) p = if q =? p then some n else generation g p

unfoldable pub insert_all : List TreePath → ℕ → Generations → Generations
insert_all [] n g = g
insert_all (p ∷ ps) n g = insert_all ps n ((p, n) ∷ g)

pub record Loaded : Type 0 where
  pub history : List Event
  pub generations : Generations
  pub seq : ℕ

abbrev pub max : ℕ → ℕ → ℕ
max m n = if leb m n then n else m

abbrev pub load_record : Loaded → HistoryRecord → Loaded
load_record l r = record {
  history = l.history ++ map replayed r.events;
  generations = insert_all r.paths r.seq l.generations;
  seq = max l.seq r.seq;
}

unfoldable pub load_from : Loaded → List HistoryRecord → Loaded
unfolding replayed insert_all
load_from l [] = l
load_from l (r ∷ rs) = load_from (load_record l r) rs

unfoldable pub load : List HistoryRecord → Loaded
unfolding load_from
load log = load_from (record { history = []; generations = []; seq = 0 }) log
