-- ===== src/Mux/Commit/Recovery.antt =====
-- shellmux/src/commit.rs: a commit is all or nothing. Whatever a crash leaves of it, the next start
-- either keeps the seed as it was, with no history entry, or finishes the commit and records it.
use marsh.Base.{
  all-take, ℕ, suc, ◌<◌, ◌≡◌, refl, sym, ap, ◌∙◌, ◌⊎◌, inl, inr, Bool, true, false, List, [], ◌∷◌,
  ◌++◌, map, some, arith, all, take, get_elem?, length, ◌=?◌, nat_has_eq, String, zero, list_has_eq,
  string_has_eq, ◌||◌,
}
use mathlib.Core.List.{reverse}
use marsh.Base.Results.{ok}
use marsh.Validator.Model.{Event}
use marsh.Mux.Tree.{TreePath, Tree, lookup}
use marsh.Mux.History.{CommitOp, replayed, HistoryRecord, append as append_history, is_committed}
use marsh.Mux.History.Reload.{map-replayed-logged}
use marsh.Mux.Commit.{
  Begin, WalRecord, begin, end, Persistence, group, apply, apply_records, apply_record, begin_of,
  op_records, recover, replay, operations, is_framed, is_partial,
}
use marsh.Mux.Commit.Replay.{has_source}
use marsh.Mux.Commit.Again.{keeps_directories, IsAmid, apply_records-again, apply_records-amid}
use marsh.Mux.Commit.Frames.{
  is_operation, transaction, group-transaction, group-finished, is_settled, recover-last,
  op_records-operations, has_entries, op_records-has_source, recover-settled, settled-cons,
}

-- Everything that the log holds is in the history, or was never whole.
unfoldable pub is_quiet : Persistence → Bool
is_quiet disk = all (is_settled (is_committed disk.history)) (reverse (group [] disk.wal))

-- The disk that a crash leaves during the commit of `ops`, with `rs` the records of the operations:
-- in the middle of the first append (of which a prefix of the records stays), with a number of the
-- records applied, in the middle of the next of them, or after `End` and before the history.
pub data IsCrashed (sha1 : List ℕ → String) (disk : Persistence) (b : Begin) (rs : List WalRecord)
    : Persistence → Type 0 where
  torn :
      (n : ℕ)
      → n < length rs
      → IsCrashed sha1 disk b rs (record disk { wal = disk.wal ++ begin b ∷ take n rs })
  unlogged : IsCrashed sha1 disk b rs disk
  applying :
      (n : ℕ) (seed : Tree)
      → apply_records sha1 (disk.work b.uid) (take n rs) disk.seed ≡ ok seed
      → IsCrashed sha1 disk b rs (record disk { seed = seed; wal = disk.wal ++ begin b ∷ rs })
  writing :
      (n : ℕ) (r : WalRecord) (seed amid : Tree)
      → apply_records sha1 (disk.work b.uid) (take n rs) disk.seed ≡ ok seed
      → get_elem? rs n ≡ some r
      → IsAmid r seed amid
      → IsCrashed sha1 disk b rs (record disk { seed = amid; wal = disk.wal ++ begin b ∷ rs })
  ended :
      (seed : Tree)
      → apply_records sha1 (disk.work b.uid) rs disk.seed ≡ ok seed
      → IsCrashed sha1 disk b rs
          (record disk { seed = seed; wal = (disk.wal ++ begin b ∷ rs) ++ end b.seq ∷ [] })

module _ (sha1 : List ℕ → String) where
  -- A quiet disk is recovered as it is.
  pub recover-quiet : (disk : Persistence) → is_quiet disk ≡ true → recover sha1 disk ≡ ok disk
  unfolding is_quiet
  recover-quiet disk h = recover-settled sha1 disk h

is_committed-append :
    (log : List HistoryRecord) (seq : ℕ) (principal cmd : String) (events : List Event)
    (ops : List CommitOp) (n : ℕ)
    → is_committed (append_history seq principal cmd events ops log) n
      ≡ (is_committed log n || (seq =? n))
unfolding is_committed append_history
is_committed-append [] seq principal cmd events ops n = ground arith
is_committed-append (r ∷ log) seq principal cmd events ops n =
    ground (arith, is_committed-append log seq principal cmd events ops n)

length-take_lt : {A : Type 0} (n : ℕ) (xs : List A) → n < length xs → length (take n xs) ≡ n
length-take_lt zero xs h = refl
length-take_lt (suc n) [] h = absurd (omega arith)
length-take_lt (suc n) (x ∷ xs) h = ap suc (length-take_lt n xs (omega arith))

module _ (sha1 : List ℕ → String) (disk : Persistence) (b : Begin) (rs : List WalRecord) where
  module _ (quiet : is_quiet disk ≡ true) (ops : all is_operation rs ≡ true)
      (count : b.op_count ≡ some (length rs)) where
    -- A torn append is no transaction.
    quiet_torn :
        (n : ℕ)
        → n < length rs
        → is_quiet (record disk { wal = disk.wal ++ begin b ∷ take n rs }) ≡ true
    unfolding is_quiet is_framed is_partial
    quiet_torn n lt =
        rw (group-transaction disk.wal b (take n rs) (all-take is_operation n rs ops)) (
          settled-cons (is_committed disk.history) (is_committed disk.history)
            (transaction b (take n rs) false) (group [] disk.wal) (λ m e. e) quiet
            (ground (arith, length-take_lt n rs)))

    abbrev pub logged_after : List HistoryRecord
    logged_after =
        append_history b.seq b.principal b.cmd (map replayed b.events) (operations rs) disk.history

    pub framed :
        (fin : Bool)
        → (is_framed (transaction b rs fin) ≡ true) × (is_partial (transaction b rs fin) ≡ false)
    unfolding is_framed is_partial
    framed fin = (ground (arith, count), ground (arith, count))

    -- A commit that ended and is in the history is settled.
    quiet_done :
        (seed : Tree)
        → is_quiet (record disk {
          seed = seed;
          wal = (disk.wal ++ begin b ∷ rs) ++ end b.seq ∷ [];
          history = logged_after;
        })
          ≡ true
    unfolding is_quiet
    quiet_done seed = rw (group-finished disk.wal b rs ops) (
        settled-cons (is_committed disk.history) (is_committed logged_after) (transaction b rs true)
          (group [] disk.wal)
          (λ m e. ground (
            arith,
            is_committed-append disk.history b.seq b.principal b.cmd (map replayed b.events)
                (operations rs) m,
          ))
          quiet
          (ground (
            arith,
            framed true,
            is_committed-append disk.history b.seq b.principal b.cmd (map replayed b.events)
                (operations rs) b.seq,
            nat_has_eq.is_same_iff b.seq b.seq,
          )))

    module _ (fresh : is_committed disk.history b.seq ≡ false) where
      recover-applying :
          (seed again : Tree)
          → apply_records sha1 (disk.work b.uid) rs seed ≡ ok again
          → recover sha1 (record disk { seed = seed; wal = disk.wal ++ begin b ∷ rs })
            ≡ ok (record disk {
              seed = again;
              wal = (disk.wal ++ begin b ∷ rs) ++ end b.seq ∷ [];
              history = logged_after;
            })
      recover-applying seed again e =
          recover-last sha1 (record disk { seed = seed; wal = disk.wal ++ begin b ∷ rs })
            (group [] disk.wal) (transaction b rs false) (group-transaction disk.wal b rs ops)
            (unfold is_quiet in quiet) (framed false).0
          ∙ (unfold replay in rw ((framed false).1, e, fresh) refl)

      recover-ended :
          (seed : Tree)
          → recover sha1
              (record disk { seed = seed; wal = (disk.wal ++ begin b ∷ rs) ++ end b.seq ∷ [] })
            ≡ ok (record disk {
              seed = seed;
              wal = (disk.wal ++ begin b ∷ rs) ++ end b.seq ∷ [];
              history = logged_after;
            })
      recover-ended seed =
          recover-last sha1
            (record disk { seed = seed; wal = (disk.wal ++ begin b ∷ rs) ++ end b.seq ∷ [] })
            (group [] disk.wal) (transaction b rs true) (group-finished disk.wal b rs ops)
            (unfold is_quiet in quiet) (framed true).0
          ∙ (unfold replay in rw ((framed true).1, fresh) refl)

-- Recovery of the crashed disk succeeds and leaves a quiet disk: as before, or with the seed `whole`
-- at every path and the history `after`.
abbrev pub RecoversTo :
    (List ℕ → String) → Persistence → Tree → List HistoryRecord → Persistence → Type 0
RecoversTo sha1 disk whole after crashed =
    (r : Persistence) × (recover sha1 crashed ≡ ok r)
    × (is_quiet r ≡ true)
    × (((r.seed ≡ disk.seed) × (r.history ≡ disk.history))
        ⊎ (((p : TreePath) → lookup r.seed p ≡ lookup whole p) × (r.history ≡ after)))

module _ (sha1 : List ℕ → String) (disk : Persistence) (b : Begin) (rs : List WalRecord) where
  from_crash :
      (crashed : Persistence)
      → IsCrashed sha1 disk b rs crashed
      → (quiet : is_quiet disk ≡ true) (ops : all is_operation rs ≡ true)
        (count : b.op_count ≡ some (length rs))
      → is_committed disk.history b.seq ≡ false
      → all (has_source (disk.work b.uid)) rs ≡ true
      → keeps_directories rs ≡ true
      → (whole : Tree) → apply_records sha1 (disk.work b.uid) rs disk.seed ≡ ok whole
      → RecoversTo sha1 disk whole (logged_after sha1 disk b rs quiet ops count) crashed
  from_crash _ (torn n lt) q is_op count fresh has k whole e =
      let quiet = quiet_torn sha1 disk b rs q is_op count n lt in
      (
        record disk { wal = disk.wal ++ begin b ∷ take n rs },
        recover-quiet sha1 _ quiet,
        quiet,
        inl (refl, refl),
      )
  from_crash _ unlogged q is_op count fresh has k whole e =
      (disk, recover-quiet sha1 disk q, q, inl (refl, refl))
  from_crash _ (applying n seed x) q is_op count fresh has k whole e =
      let (again, y, same) =
        apply_records-again sha1 (disk.work b.uid) rs n disk.seed seed whole has k e x in
      (
        _,
        recover-applying sha1 disk b rs q is_op count fresh seed again y,
        quiet_done sha1 disk b rs q is_op count again,
        inr (same, refl),
      )
  from_crash _ (writing n r seed amid x g m) q is_op count fresh has k whole e =
      let (again, y, same) =
        apply_records-amid sha1 (disk.work b.uid) rs n r disk.seed seed amid whole has k e x g m in
      (
        _,
        recover-applying sha1 disk b rs q is_op count fresh amid again y,
        quiet_done sha1 disk b rs q is_op count again,
        inr (same, refl),
      )
  from_crash _ (ended seed x) q is_op count fresh has k whole e =
      let same : seed ≡ whole = cc in
      (
        _,
        recover-ended sha1 disk b rs q is_op count fresh seed,
        quiet_done sha1 disk b rs q is_op count seed,
        inr ((λ p. ap (λ t. lookup t p) same), refl),
      )

module _ (sha1 : List ℕ → String) where
  -- The seed of a commit that nothing interrupts.
  apply-ok :
      (disk done : Persistence) (uid : String) (seq : ℕ) (principal cmd : String)
      (events : List Event) (ops : List CommitOp) (rs : List WalRecord)
      → op_records sha1 (disk.work uid) ops ≡ ok rs
      → apply sha1 disk uid seq principal cmd events ops ≡ ok done
      → apply_records sha1 (disk.work uid) rs disk.seed ≡ ok done.seed
  unfolding apply apply_records apply_record
  apply-ok disk done uid seq principal cmd events ops rs e h = ground arith

  -- Take a commit that succeeds when nothing interrupts it, of a job whose snapshot has a file or a
  -- link for every path written, where no written path, nor the temporary of one, is above a changed
  -- path or below a temporary, on a disk that is quiet and has no history entry of its number. From
  -- any disk that a crash of this commit leaves, in the middle of the append, between two records, in
  -- the middle of one, or after `End`, recovery succeeds and leaves a quiet disk, on which either seed and history are as before
  -- the commit, or every path of the seed has the entry that the commit gives it and the history has
  -- gained exactly the commit's entry.
  pub all_or_nothing :
      (disk done crashed : Persistence) (uid : String) (seq : ℕ) (principal cmd : String)
      (events : List Event) (ops : List CommitOp) (rs : List WalRecord)
      → is_quiet disk ≡ true
      → is_committed disk.history seq ≡ false
      → has_entries (disk.work uid) ops ≡ true
      → op_records sha1 (disk.work uid) ops ≡ ok rs
      → keeps_directories rs ≡ true
      → apply sha1 disk uid seq principal cmd events ops ≡ ok done
      → IsCrashed sha1 disk (begin_of sha1 uid seq principal cmd events ops) rs crashed
      → RecoversTo sha1 disk done.seed
          (append_history seq principal cmd events ops disk.history)
          crashed
  all_or_nothing disk done crashed uid seq principal cmd events ops rs q fresh has e k d c =
      let (is_op, ops', len) = op_records-operations sha1 (disk.work uid) ops rs e in
      rw (← map-replayed-logged events, ← ops')
        (from_crash sha1 disk (begin_of sha1 uid seq principal cmd events ops) rs crashed c q is_op
          (ap some (sym len)) fresh (op_records-has_source sha1 (disk.work uid) ops rs e has) k
          done.seed (apply-ok disk done uid seq principal cmd events ops rs e d))
