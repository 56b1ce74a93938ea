-- ===== src/Mux/Commit.antt =====
-- shellmux/src/commit.rs: a job's snapshot into the seed, through the write-ahead log. The files of
-- a persistence layer are its trees and the records of its two logs. A step fails as its code does;
-- a disk that refuses a write altogether is not modelled.
pub mod Replay
pub mod Again
pub mod Frames
pub mod Recovery
pub mod Stuck
pub mod Tests
use marsh.Base.{
  ℕ, suc, ◌+◌, String, Bool, true, false, not, ◌&&◌, ◌||◌, ltb, List, [], ◌∷◌, ◌++◌, map, Option,
  none, some, ◌=?◌, length, is_some_and, list_has_eq, string_has_eq, nat_has_eq, if◌then◌else◌,
}
use mathlib.Core.List.{reverse}
use marsh.Base.Results.{Result, ok, err, ◌>>=◌}
use marsh.Validator.Model.{Event}
use marsh.Mux.Tree.{
  TreePath, Entry, file, symlink, other, Tree, MuxError, wal_error, not_found, lookup, exists,
  apply_write, write_left, apply_remove,
}
use marsh.Mux.History.{
  CommitOp, write, remove, HistoryEvent, HistoryRecord, logged, replayed, append as append_history,
  is_committed,
}

pub record Begin : Type 0 where
  pub seq : ℕ
  pub uid : String
  pub principal : String
  pub cmd : String
  pub events : List HistoryEvent
  pub op_count : Option ℕ

-- `move from to sha1`
pub data WalRecord : Type 0 where
  begin : Begin → WalRecord
  move : TreePath → TreePath → String → WalRecord
  delete : TreePath → WalRecord
  end : ℕ → WalRecord

-- The commit operation of a record, none for the framing records.
unfoldable pub operation : WalRecord → Option CommitOp
operation (move from to sha1) = some (write to)
operation (delete p) = some (remove p)
operation (begin b) = none
operation (end seq) = none

pub record Transaction : Type 0 where
  pub opened : Begin
  pub records : List WalRecord
  pub finished : Bool

pub record Persistence : Type 0 where
  pub seed : Tree
  pub work : String → Tree
  pub wal : List WalRecord
  pub history : List HistoryRecord

-- `ids::content_hash` is a hash of another crate.
module _ (sha1 : List ℕ → String) where
  abbrev pub hash_entry : Entry → String
  hash_entry (file bytes mode) = sha1 bytes
  hash_entry (symlink target) = sha1 target
  hash_entry (other mode) = sha1 []

  unfoldable pub content_hash : Tree → TreePath → Result MuxError String
  content_hash t p = elim (lookup t p) [
    | some e ↦ ok (hash_entry e)
    | none ↦ if exists t p then ok (sha1 []) else err (not_found p)
  ]

  unfoldable pub write_path : Tree → Tree → TreePath → TreePath → String → Result MuxError Tree
  unfolding content_hash apply_write
  write_path seed work from to hash =
      if exists work from
      then apply_write seed to (lookup work from)
      else if exists seed to
      then (do
        actual ← content_hash seed to
        if actual =? hash then ok seed else err (wal_error "the source is gone"))
      else err (wal_error "the source is gone")

  unfoldable pub apply_record : Tree → WalRecord → Tree → Result MuxError Tree
  unfolding write_path apply_remove
  apply_record work (begin b) seed = ok seed
  apply_record work (end seq) seed = ok seed
  apply_record work (delete p) seed = apply_remove seed p
  apply_record work (move from to hash) seed = write_path seed work from to hash

  unfoldable pub apply_records : Tree → List WalRecord → Tree → Result MuxError Tree
  unfolding apply_record
  apply_records work [] seed = ok seed
  apply_records work (r ∷ rs) seed = do
    seed' ← apply_record work r seed
    apply_records work rs seed'

  -- The records of the operations, as `apply` logs them.
  unfoldable pub op_records : Tree → List CommitOp → Result MuxError (List WalRecord)
  unfolding content_hash
  op_records work [] = ok []
  op_records work (remove p ∷ ops) = do rs ← op_records work ops; ok (delete p ∷ rs)
  op_records work (write p ∷ ops) = do
    hash ← content_hash work p
    rs ← op_records work ops
    ok (move p p hash ∷ rs)

  abbrev pub begin_of : String → ℕ → String → String → List Event → List CommitOp → Begin
  begin_of uid seq principal cmd events ops = record {
    seq = seq;
    uid = uid;
    principal = principal;
    cmd = cmd;
    events = map logged events;
    op_count = some (length ops);
  }

  abbrev pub left_by : Tree → WalRecord → Tree → Tree
  left_by work (move from to hash) seed = if exists work from then write_left seed to else seed
  left_by work r seed = seed

  -- The seed where the first record that fails leaves it.
  unfoldable pub applied_part : Tree → List WalRecord → Tree → Tree
  unfolding apply_record write_left
  applied_part work [] seed = seed
  applied_part work (r ∷ rs) seed = elim (apply_record work r seed) [
    | err e ↦ left_by work r seed
    | ok seed' ↦ applied_part work rs seed'
  ]

  -- An error comes with the disk that it leaves.
  unfoldable pub apply :
      Persistence
      → String
      → ℕ
      → String
      → String
      → List Event
      → List CommitOp
      → Result (MuxError × Persistence) Persistence
  unfolding op_records apply_records applied_part
  apply disk uid seq principal cmd events ops = elim (op_records (disk.work uid) ops) [
    | err e ↦ err (e, disk)
    | ok rs ↦
        let records = begin (begin_of uid seq principal cmd events ops) ∷ rs in
        elim (apply_records (disk.work uid) records disk.seed) [
          | err e ↦ err (
            e,
            record disk {
              seed = applied_part (disk.work uid) records disk.seed;
              wal = disk.wal ++ records;
            },
          )
          | ok seed ↦ ok (record disk { seed = seed; wal = disk.wal ++ (records ++ end seq ∷ []) })
        ]
  ]

-- The transactions of a log, the last one first.
abbrev pub opened_by : Begin → Transaction
opened_by b = record { opened = b; records = []; finished = false }

-- `End` closes the latest transaction of its number.
unfoldable pub finish : ℕ → List Transaction → List Transaction
finish seq [] = []
finish seq (t ∷ ts) =
    if t.opened.seq =? seq then record t { finished = true } ∷ ts else t ∷ finish seq ts

-- A record before any `Begin` belongs to no transaction.
unfoldable pub add_record : WalRecord → List Transaction → List Transaction
add_record r [] = []
add_record r (t ∷ ts) = record t { records = t.records ++ r ∷ [] } ∷ ts

unfoldable pub group : List Transaction → List WalRecord → List Transaction
unfolding finish add_record
group ts [] = ts
group ts (begin b ∷ rs) = group (opened_by b ∷ ts) rs
group ts (end seq ∷ rs) = group (finish seq ts) rs
group ts (move from to hash ∷ rs) = group (add_record (move from to hash) ts) rs
group ts (delete p ∷ rs) = group (add_record (delete p) ts) rs

-- The frame check of `recover`, before anything is replayed.
unfoldable pub is_framed : Transaction → Bool
is_framed t = elim t.opened.op_count [
  | some expected ↦
      not (ltb expected (length t.records) || (t.finished && not (length t.records =? expected)))
  | none ↦ t.finished
]

-- The log holds fewer records than the transaction declares.
unfoldable pub is_partial : Transaction → Bool
is_partial t = is_some_and (λ expected. ltb (length t.records) expected) t.opened.op_count

unfoldable pub operations : List WalRecord → List CommitOp
unfolding operation
operations [] = []
operations (r ∷ rs) = elim (operation r) [ some op ↦ op ∷ operations rs | none ↦ operations rs ]

module _ (sha1 : List ℕ → String) where
  unfoldable pub replay : (ℕ → Bool) → Persistence → Transaction → Result MuxError Persistence
  unfolding apply_records operations is_partial append_history
  replay remembered disk t = if is_partial t then ok disk else do
    disk' ←
        (if t.finished then ok disk else do
          seed ← apply_records sha1 (disk.work t.opened.uid) t.records disk.seed
          ok (record disk { seed = seed; wal = disk.wal ++ end t.opened.seq ∷ [] }))
    ok (
        if remembered t.opened.seq then disk' else record disk' {
          history =
              append_history t.opened.seq t.opened.principal t.opened.cmd
                (map replayed t.opened.events) (operations t.records) disk'.history;
        })

  unfoldable pub replay_all :
      (ℕ → Bool) → Persistence → List Transaction → Result MuxError Persistence
  unfolding replay
  replay_all remembered disk [] = ok disk
  replay_all remembered disk (t ∷ ts) = do
    disk' ← replay remembered disk t
    replay_all remembered disk' ts

  abbrev pub check_frames : List Transaction → Result MuxError (List Transaction)
  check_frames [] = ok []
  check_frames (t ∷ ts) =
      let rest = check_frames ts in
      if is_framed t
      then (do ts' ← rest; ok (t ∷ ts'))
      else err (wal_error "the declared operations are not those of the log")

  -- An empty log returns at once, which the walk of no transactions is.
  unfoldable pub recover : Persistence → Result MuxError Persistence
  unfolding group is_framed replay_all is_committed
  recover disk = do
    ts ← check_frames (reverse (group [] disk.wal))
    replay_all (is_committed disk.history) disk ts
