-- ===== src/Mux/Diff/Commits.antt =====
-- shellmux/src/diff.rs with shellmux/src/commit.rs: the difference of a seed and a snapshot can be
-- committed, and turns the seed into the snapshot.
use marsh.Base.{
  ℕ, String, ◌≡◌, refl, ap, sym, ◌∙◌, not, none, is_empty, unwrap_or, Bool-cases, inl, inr, Bool,
  true, false, ◌&&◌, List, [], ◌∷◌, ◌++◌, map, arith, ◌=?◌, all, is_none, is_some_and, list_has_eq,
  string_has_eq,
}
use marsh.Base.Results.{ok, >>=-eq-ok}
use marsh.Mux.Tree.{TreePath, Tree, lookup, covers, copied, temporary}
use marsh.Mux.History.{CommitOp, write, remove}
use marsh.Mux.Commit.{WalRecord, content_hash, op_records, apply_record, apply_records}
use marsh.Mux.Commit.Replay.{has_source, target, effects, apply_records-lookup}
use marsh.Mux.Commit.Frames.{has_entries, op_records-has_source}
use marsh.Mux.Diff.{key_leb, removes, writes, diff_trees}
use marsh.Mux.Diff.Paths.{is_tree, any-sort_by, all-sort_by}
use marsh.Mux.Diff.Select.{has_path, removes_complete}
use marsh.Mux.Diff.Apply.{
  off_temporaries, effects-op_records, effects-absent, removes-agree, removes-touch,
}
use marsh.Mux.Diff.Whole.{
  removed, written, removed-in, written-in, diff-effects, IsWithin, op_records-ok,
  has_entries-append, runs_within, all-implies, is_vacant, vacant-lookup, leaves_free,
}

-- The path has a name, the snapshot has a file or a link there, and neither tree has anything at the
-- temporary of the path.
abbrev pub is_writable : Tree → Tree → TreePath → Bool
is_writable seed work p =
    not (is_empty p)
    && (not (is_none (copied (lookup work p)))
        && (is_vacant seed (temporary p) && is_vacant work (temporary p)))

module _ (work : Tree) (q : TreePath) where
  removes-off : (ps : List TreePath) → off_temporaries work q (map remove ps) ≡ true
  removes-off [] = refl
  removes-off (p ∷ ps) = removes-off ps

  off-append :
      (xs ys : List TreePath)
      → off_temporaries work q (map remove xs ++ map write ys)
        ≡ off_temporaries work q (map write ys)
  off-append [] ys = refl
  off-append (x ∷ xs) ys = off-append xs ys

  -- At a temporary neither tree has an entry.
  at_temporary :
      (seed : Tree) (ps : List TreePath)
      → all (is_writable seed work) ps ≡ true
      → off_temporaries work q (map write ps) ≡ false
      → (lookup seed q ≡ none) × (lookup work q ≡ none)
  at_temporary seed [] h o = ground arith
  at_temporary seed (p ∷ ps) h o = elim (Bool-cases (covers (temporary p) q)) [
    | inl y ↦ (
      vacant-lookup seed (temporary p) q (ground arith) y,
      vacant-lookup work (temporary p) q (ground arith) y,
    )
    | inr n ↦ at_temporary seed ps (ground arith) (ground (arith, n))
  ]

module _ (sha1 : List ℕ → String) (work : Tree) where
  op_records-append :
      (xs ys : List CommitOp) (rx ry : List WalRecord)
      → op_records sha1 work xs ≡ ok rx
      → op_records sha1 work ys ≡ ok ry
      → op_records sha1 work (xs ++ ys) ≡ ok (rx ++ ry)
  unfolding op_records
  op_records-append [] ys rx ry e f = ground (arith, e, f)
  op_records-append (remove p ∷ xs) ys rx ry e f =
      let (rx', e₁, e₂) = >>=-eq-ok (op_records sha1 work xs) _ e in
      ground (arith, op_records-append xs ys rx' ry e₁ f)
  op_records-append (write p ∷ xs) ys rx ry e f =
      let (hash, e₀, e') = >>=-eq-ok (content_hash sha1 work p) _ e in
      let (rx', e₁, e₂) = >>=-eq-ok (op_records sha1 work xs) _ e' in
      ground (arith, op_records-append xs ys rx' ry e₁ f)

  apply_records-append :
      (rx ry : List WalRecord) (t t₁ t₂ : Tree)
      → apply_records sha1 work rx t ≡ ok t₁
      → apply_records sha1 work ry t₁ ≡ ok t₂
      → apply_records sha1 work (rx ++ ry) t ≡ ok t₂
  unfolding apply_records
  apply_records-append [] ry t t₁ t₂ e f = ground arith
  apply_records-append (r ∷ rx) ry t t₁ t₂ e f =
      let (t', e₁, e₂) = >>=-eq-ok (apply_record sha1 work r t) _ e in
      rw e₁ (apply_records-append rx ry t' t₁ t₂ e₂ f)

  removes-targets :
      (g : TreePath → Bool) (ps : List TreePath) (rs : List WalRecord)
      → op_records sha1 work (map remove ps) ≡ ok rs
      → all g ps ≡ true
      → all (λ r. is_some_and g (target r)) rs ≡ true
  unfolding op_records
  removes-targets g [] rs e h = ground arith
  removes-targets g (p ∷ ps) rs e h =
      let (rs', e₁, e₂) = >>=-eq-ok (op_records sha1 work (map remove ps)) _ e in
      ground (arith, removes-targets g ps rs' e₁)

  writes-targets :
      (g : TreePath → Bool) (ps : List TreePath) (rs : List WalRecord)
      → op_records sha1 work (map write ps) ≡ ok rs
      → all g ps ≡ true
      → all (λ r. is_some_and g (target r)) rs ≡ true
  unfolding op_records
  writes-targets g [] rs e h = ground arith
  writes-targets g (p ∷ ps) rs e h =
      let (hash, e₀, e') = >>=-eq-ok (content_hash sha1 work p) _ e in
      let (rs', e₁, e₂) = >>=-eq-ok (op_records sha1 work (map write ps)) _ e' in
      ground (arith, writes-targets g ps rs' e₁)

  removes-leaves_free :
      (bound : Tree) (ps : List TreePath) (rs : List WalRecord)
      → op_records sha1 work (map remove ps) ≡ ok rs
      → all (leaves_free bound) rs ≡ true
  unfolding op_records
  removes-leaves_free bound [] rs e = ground arith
  removes-leaves_free bound (p ∷ ps) rs e =
      let (rs', e₁, e₂) = >>=-eq-ok (op_records sha1 work (map remove ps)) _ e in
      ground (arith, removes-leaves_free bound ps rs' e₁)

  writes-leaves_free :
      (seed : Tree) (ps : List TreePath) (rs : List WalRecord)
      → op_records sha1 work (map write ps) ≡ ok rs
      → all (is_writable seed work) ps ≡ true
      → all (leaves_free work) rs ≡ true
  unfolding op_records
  writes-leaves_free seed [] rs e h = ground arith
  writes-leaves_free seed (p ∷ ps) rs e h =
      let (hash, e₀, e') = >>=-eq-ok (content_hash sha1 work p) _ e in
      let (rs', e₁, e₂) = >>=-eq-ok (op_records sha1 work (map write ps)) _ e' in
      ground (arith, writes-leaves_free seed ps rs' e₁)

  removes-has_entries : (ps : List TreePath) → has_entries work (map remove ps) ≡ true
  removes-has_entries [] = refl
  removes-has_entries (p ∷ ps) = removes-has_entries ps

module _ (seed work : Tree) (seed_is : is_tree seed ≡ true) (work_is : is_tree work ≡ true) where
  -- After the removals nothing is left that the snapshot does not have.
  removed-IsWithin :
      (sha1 : List ℕ → String) (rs : List WalRecord) (t : Tree)
      → op_records sha1 work (map remove (removed seed work seed_is work_is)) ≡ ok rs
      → all (has_source work) rs ≡ true
      → apply_records sha1 work rs seed ≡ ok t
      → IsWithin work t
  removed-IsWithin sha1 rs t e h a q n = ground (
    arith,
    apply_records-lookup sha1 work rs seed t h a q,
    effects-op_records work sha1 (map remove (removed seed work seed_is work_is)) rs e q
        (removes-off work q (removed seed work seed_is work_is)),
    removes-agree work q (removed seed work seed_is work_is),
    removes-touch work q (removed seed work seed_is work_is),
    any-sort_by (λ p. p =? q) (λ a b. key_leb b a) (removes seed work),
    removes_complete seed work q,
  )

  effects-diff_trees :
      (sha1 : List ℕ → String) (rs : List WalRecord)
      → op_records sha1 work (diff_trees seed work) ≡ ok rs
      → all (is_writable seed work) (written seed work seed_is work_is) ≡ true
      → (q : TreePath) → unwrap_or (lookup seed q) (effects work rs q) ≡ lookup work q
  effects-diff_trees sha1 rs e ready q =
      let gone = removed seed work seed_is work_is in
      let new = written seed work seed_is work_is in
      let same : off_temporaries work q (diff_trees seed work)
          ≡ off_temporaries work q (map write new) =
        unfold diff_trees in off-append work q gone new in
      elim (Bool-cases (off_temporaries work q (map write new))) [
        | inl y ↦
            ap (unwrap_or (lookup seed q))
              (effects-op_records work sha1 (diff_trees seed work) rs e q (same ∙ y))
            ∙ diff-effects seed work seed_is work_is q
        | inr n ↦
            let (in_seed, in_work) = at_temporary work q seed new ready n in
            ap (λ o. unwrap_or o (effects work rs q)) in_seed
            ∙ effects-absent work sha1 (diff_trees seed work) rs e q in_work
            ∙ sym in_work
      ]

  -- Of two trees in which no entry stands above another, where the second has a file or a link at each
  -- path that is to be written and neither has anything at the temporary of one, the difference has
  -- records, these apply to the first tree, directories replaced by files and files by directories
  -- included, and afterwards every path has the entry that it has in the second.
  pub diff_trees-applies :
      (sha1 : List ℕ → String)
      → all (is_writable seed work) (writes seed work) ≡ true
      → (rs : List WalRecord) × (t : Tree) × (op_records sha1 work (diff_trees seed work) ≡ ok rs)
        × (apply_records sha1 work rs seed ≡ ok t)
        × ((q : TreePath) → lookup t q ≡ lookup work q)
  diff_trees-applies sha1 writable =
      let gone = removed seed work seed_is work_is in
      let new = written seed work seed_is work_is in
      let all_there = written-in seed work seed_is work_is in
      let ready : all (is_writable seed work) new ≡ true =
        all-sort_by (is_writable seed work) key_leb (writes seed work) ∙ writable in
      let copies : all (λ p. not (is_none (copied (lookup work p)))) new ≡ true =
        all-implies seed work seed_is work_is (is_writable seed work)
          (λ p. not (is_none (copied (lookup work p)))) new (λ p i. ground arith) ready in
      let none_there = removes-has_entries sha1 work gone in
      let some_there = has_entries-append sha1 work [] new copies in
      let (rx, ex) = op_records-ok sha1 work (map remove gone) none_there in
      let (ry, ey) = op_records-ok sha1 work (map write new) some_there in
      let hx = op_records-has_source sha1 work (map remove gone) rx ex none_there in
      let hy = op_records-has_source sha1 work (map write new) ry ey some_there in
      let in_seed =
        all-implies seed work seed_is work_is (λ p. has_path seed p && is_none (lookup work p))
          (has_path seed) gone (λ p i. ground arith) (removed-in seed work seed_is work_is) in
      let (t₁, a) =
        runs_within sha1 work seed seed_is rx seed hx
          (removes-targets sha1 work (has_path seed) gone rx ex in_seed)
          (removes-leaves_free sha1 work seed gone rx ex) (λ q n. n) in
      let (t₂, b) =
        runs_within sha1 work work work_is ry t₁ hy
          (writes-targets sha1 work (has_path work) new ry ey all_there)
          (writes-leaves_free sha1 work seed new ry ey ready)
          (removed-IsWithin sha1 rx t₁ ex hx a) in
      let records : op_records sha1 work (diff_trees seed work) ≡ ok (rx ++ ry) =
        unfold diff_trees in
        op_records-append sha1 work (map remove gone) (map write new) rx ry ex ey in
      let runs = apply_records-append sha1 work rx ry seed t₁ t₂ a b in
      let sources : all (has_source work) (rx ++ ry) ≡ true =
        op_records-has_source sha1 work (diff_trees seed work) (rx ++ ry) records
          (unfold diff_trees in has_entries-append sha1 work gone new copies) in
      (
        rx ++ ry,
        t₂,
        records,
        runs,
        λ q.
            apply_records-lookup sha1 work (rx ++ ry) seed t₂ sources runs q
            ∙ effects-diff_trees sha1 (rx ++ ry) records ready q,
      )
