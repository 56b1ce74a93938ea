-- ===== src/Mux/Conclude/Snapshot.antt =====
-- shellmux/src/mux.rs with diff.rs and commit.rs: a merge that nothing refuses commits, and the
-- seed is then the snapshot.
use marsh.Base.{
  ℕ, ◌+◌, String, ◌≡◌, refl, ap, ◌∙◌, true, false, ◌&&◌, List, [], ◌∷◌, ◌++◌, arith, is_empty, map,
  all,
}
use marsh.Base.Results.{Result, ok}
use marsh.Validator.Model.{Event}
use marsh.Policy.{PolicyDecision}
use marsh.Mux.Tree.{TreePath, Tree, MuxError, lookup}
use marsh.Mux.History.{CommitOp, path, insert_all, append as append_history}
use marsh.Mux.Commit.{
  WalRecord, Persistence, apply, op_records, apply_records, apply_record, begin, begin_of, end,
}
use marsh.Mux.Diff.{writes, diff_trees}
use marsh.Mux.Diff.Paths.{is_tree}
use marsh.Mux.Diff.Commits.{is_writable, diff_trees-applies}
use marsh.Mux.Authority.{all_granted, check_events, check_events-all_granted}
use marsh.Mux.Conclude.{Sandbox, Translation, committed, Session, stale_paths, merge, record_commit}

module _ (sha1 : List ℕ → String) where
  apply-runs :
      (disk : Persistence) (uid : String) (seq : ℕ) (principal cmd : String) (events : List Event)
      (ops : List CommitOp) (rs : List WalRecord) (t : Tree)
      → op_records sha1 (disk.work uid) ops ≡ ok rs
      → apply_records sha1 (disk.work uid) rs disk.seed ≡ ok t
      → apply sha1 disk uid seq principal cmd events ops
        ≡ ok (record disk {
          seed = t;
          wal =
              disk.wal
              ++ ((begin (begin_of sha1 uid seq principal cmd events ops) ∷ rs) ++ end seq ∷ []);
        })
  unfolding apply apply_records apply_record
  apply-runs disk uid seq principal cmd events ops rs t e r = ground (arith, e, r)

  apply-diff :
      (disk : Persistence) (uid : String) (seq : ℕ) (principal cmd : String) (events : List Event)
      → is_tree disk.seed ≡ true
      → is_tree (disk.work uid) ≡ true
      → all (is_writable disk.seed (disk.work uid)) (writes disk.seed (disk.work uid)) ≡ true
      → (d : Persistence) × (apply sha1 disk uid seq principal cmd events
            (diff_trees disk.seed (disk.work uid))
          ≡ ok d)
        × ((q : TreePath) → lookup d.seed q ≡ lookup (disk.work uid) q)
  apply-diff disk uid seq principal cmd events i j k =
      let (rs, t, e, r, same) = diff_trees-applies disk.seed (disk.work uid) i j sha1 k in
      let records =
        begin (begin_of sha1 uid seq principal cmd events (diff_trees disk.seed (disk.work uid)))
        ∷ rs in
      (
        record disk { seed = t; wal = disk.wal ++ (records ++ end seq ∷ []) },
        apply-runs disk uid seq principal cmd events (diff_trees disk.seed (disk.work uid)) rs t e
            r,
        same,
      )

  module _ (decide : List Event → Event → PolicyDecision)
      (walk : Tree → Tree → Result MuxError (List CommitOp)) where
    merge-apply :
        (s : Session) (sandbox : Sandbox) (cmd : String) (base_seq : ℕ) (t : Translation)
        (ops : List CommitOp) (d : Persistence)
        → is_empty t.events && is_empty ops ≡ false
        → is_empty (stale_paths s.authority.generations base_seq ops t.events t.git_reads) ≡ true
        → all_granted decide s.authority.history t.events ≡ true
        → apply sha1 s.disk sandbox.uid (s.authority.seq + 1) sandbox.principal cmd t.events ops
          ≡ ok d
        → (s' : Session) × (merge sha1 decide walk s sandbox cmd base_seq t ops
            ≡ (ok (committed (s.authority.seq + 1) t.events), s'))
          × (s'.disk.seed ≡ d.seed)
    unfolding merge record_commit
    merge-apply s sandbox cmd base_seq t ops d n f g e =
        let k = check_events-all_granted decide s.authority.history t.events in
        (
          record s {
            authority = record {
              history = (check_events decide s.authority.history t.events).0;
              generations = insert_all (map path ops) (s.authority.seq + 1) s.authority.generations;
              seq = s.authority.seq + 1;
            };
            disk = record d {
              history =
                  append_history (s.authority.seq + 1) sandbox.principal cmd t.events ops d.history;
            };
          },
          ground (arith, n, f, g, e, k),
          refl,
        )

    -- Where no entry of seed or snapshot stands above another, the snapshot has a file or a link at
    -- each path to be written and neither has anything at the temporary of one: if nothing is stale,
    -- every candidate is granted in turn and there is something to commit, the merge of the difference
    -- between seed and snapshot commits under the next number, and every path of the seed then has the
    -- entry that it has in the snapshot.
    pub merge-commits :
        (s : Session) (sandbox : Sandbox) (cmd : String) (base_seq : ℕ) (t : Translation)
        → is_tree s.disk.seed ≡ true
        → is_tree (s.disk.work sandbox.uid) ≡ true
        → all
            (is_writable s.disk.seed (s.disk.work sandbox.uid))
            (writes s.disk.seed (s.disk.work sandbox.uid))
          ≡ true
        → let ops = diff_trees s.disk.seed (s.disk.work sandbox.uid) in
          is_empty t.events && is_empty ops ≡ false
          → is_empty (stale_paths s.authority.generations base_seq ops t.events t.git_reads) ≡ true
          → all_granted decide s.authority.history t.events ≡ true
          → (s' : Session) × (merge sha1 decide walk s sandbox cmd base_seq t ops
              ≡ (ok (committed (s.authority.seq + 1) t.events), s'))
            × ((q : TreePath) → lookup s'.disk.seed q ≡ lookup (s.disk.work sandbox.uid) q)
    merge-commits s sandbox cmd base_seq t i j k n f g =
        let ops = diff_trees s.disk.seed (s.disk.work sandbox.uid) in
        let (d, e, same) =
          apply-diff s.disk sandbox.uid (s.authority.seq + 1) sandbox.principal cmd t.events i j
            k in
        let (s', m, seed) = merge-apply s sandbox cmd base_seq t ops d n f g e in
        (s', m, λ q. ap (λ x. lookup x q) seed ∙ same q)
