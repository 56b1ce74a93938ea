-- ===== src/Mux/Diff/Whole.antt =====
-- shellmux/src/diff.rs with shellmux/src/commit.rs: the difference of a seed and a snapshot
-- commits, and makes the seed the snapshot.
use marsh.Base.{
  ℕ, String, ◌≡◌, refl, ap, ◌∙◌, Bool, true, false, not, ◌&&◌, List, [], ◌∷◌, ◌++◌, map, Option,
  none, some, arith, ◌=?◌, all, is_none, is_empty, is_some_and, unwrap_or, list_has_eq, nat_has_eq,
  string_has_eq, Option-cases, Bool-cases, inl, inr,
}
use marsh.Base.Results.{ok}
use marsh.Mux.Tree.{
  TreePath, Tree, path_eq, lookup, covers, copied, temporary, ancestors, is_blocked,
}
use marsh.Mux.History.{CommitOp, write, remove}
use marsh.Mux.Commit.{
  WalRecord, begin, end, move, delete, content_hash, hash_entry, op_records, apply_record,
  apply_records,
}
use marsh.Mux.Commit.Replay.{
  has_source, is_open, effect, target, apply_record-lookup, apply_record-ok,
}
use marsh.Mux.Commit.Again.{no_directory}
use marsh.Mux.Commit.Frames.{has_entries}
use marsh.Mux.Commit.Stuck.{any-member}
use marsh.Mux.Diff.{sort_by, key_leb, removes, writes, diff_trees}
use marsh.Mux.Diff.Paths.{is_tree, any-sort_by, all-sort_by, not-above, unblocked}
use marsh.Mux.Diff.Select.{has_path, removes-in, writes-in, removes_complete, writes_complete}
use marsh.Mux.Diff.Apply.{
  op_effects, op_effects-append, spares, writes-agree, writes-touch, removes-agree, removes-touch,
  removes-spare,
}

-- What an operation list leaves is what the snapshot has.
module _ (seed work : Tree) (seed_is : is_tree seed ≡ true) (work_is : is_tree work ≡ true) where
  pub all-implies :
      (f g : TreePath → Bool) (ps : List TreePath)
      → ((p : TreePath) → f p ≡ true → g p ≡ true)
      → all f ps ≡ true
      → all g ps ≡ true
  all-implies f g [] le h = refl
  all-implies f g (p ∷ ps) le h = ground (arith, all-implies f g ps le, le p)

  abbrev pub removed : List TreePath
  removed = sort_by (λ a b. key_leb b a) (removes seed work)

  abbrev pub written : List TreePath
  written = sort_by key_leb (writes seed work)

  pub removed-in : all (λ p. has_path seed p && is_none (lookup work p)) removed ≡ true
  removed-in =
      all-sort_by (λ p. has_path seed p && is_none (lookup work p)) (λ a b. key_leb b a)
        (removes seed work)
      ∙ removes-in seed work

  pub written-in : all (has_path work) written ≡ true
  written-in = all-sort_by (has_path work) key_leb (writes seed work) ∙ writes-in seed work

  written-spares : (q : TreePath) → all (spares work q) written ≡ true
  written-spares q =
      all-implies (has_path work) (spares work q) written
        (λ p h. ground (arith, not-above work p q work_is)) written-in

  removed-spares :
      (q : TreePath)
      → has_path seed q && has_path work q ≡ true
      → all (λ p. not (covers p q)) removed ≡ true
  removed-spares q h =
      all-implies (λ p. has_path seed p && is_none (lookup work p)) (λ p. not (covers p q)) removed
        (λ p i. ground (arith, not-above seed p q seed_is, ap (lookup work), path_eq p q))
        removed-in

  pub diff-effects :
      (q : TreePath)
      → unwrap_or (lookup seed q) (op_effects work (diff_trees seed work) q) ≡ lookup work q
  unfolding diff_trees
  diff-effects q = ground (
    arith,
    op_effects-append work (map remove removed) (map write written) q,
    writes-agree work q written (written-spares q),
    writes-touch work q written,
    any-sort_by (λ p. p =? q) key_leb (writes seed work),
    any-sort_by (λ p. p =? q) (λ a b. key_leb b a) (removes seed work),
    removes-agree work q removed,
    removes-touch work q removed,
    removes-spare work q removed,
    removed-spares q,
    writes_complete seed work q,
    removes_complete seed work q,
  )

-- `s` has an entry only where `t` has one.
abbrev pub IsWithin : Tree → Tree → Type 0
IsWithin t s = (q : TreePath) → lookup t q ≡ none → lookup s q ≡ none

within-unblocked :
    (t s : Tree) (p : TreePath) → IsWithin t s → is_blocked t p ≡ false → is_blocked s p ≡ false
within-unblocked t s p w h = elim (Bool-cases (is_blocked s p)) [
  | inr n ↦ n
  | inl y ↦
      let f : (a : TreePath)
          → not (is_none (lookup s a)) ≡ true
          → not (is_none (lookup t a)) ≡ true =
        λ a x. ground (arith, w a) in
      ground (
        arith,
        any-member (λ a. not (is_none (lookup t a))) (λ a. not (is_none (lookup s a))) (ancestors p)
            f y,
        h,
      )
]

-- The tree has nothing at the path or below it.
abbrev pub is_vacant : Tree → TreePath → Bool
is_vacant t p = all (λ (q, e). not (covers p q)) t

pub vacant-lookup :
    (t : Tree) (p q : TreePath) → is_vacant t p ≡ true → covers p q ≡ true → lookup t q ≡ none
vacant-lookup [] p q v c = refl
vacant-lookup ((r, e) ∷ t) p q v c = ground (arith, vacant-lookup t p q, same)
  where
    same : (r =? q) ≡ true → covers p r ≡ covers p q
    same i = ap (covers p) (path_eq r q i)

-- A write has a name, and the tree has nothing at its temporary.
abbrev pub leaves_free : Tree → WalRecord → Bool
leaves_free t (move from to hash) = not (is_empty to) && is_vacant t (temporary to)
leaves_free t _ = true

open_within :
    (bound t : Tree) (r : WalRecord)
    → IsWithin bound t
    → is_some_and (is_blocked bound) (target r) ≡ false
    → leaves_free bound r ≡ true
    → is_open t r ≡ true
open_within bound t (begin b) w o l = refl
open_within bound t (end seq) w o l = refl
open_within bound t (delete p) w o l = ground (arith, within-unblocked bound t p w o)
open_within bound t (move from to hash) w o l = ground (
  arith,
  within-unblocked bound t to w o,
  no_directory t (temporary to)
      (λ q b. w q (vacant-lookup bound (temporary to) q (ground arith) (ground arith))),
)

module _ (sha1 : List ℕ → String) (work : Tree) where
  pub op_records-ok :
      (ops : List CommitOp)
      → has_entries work ops ≡ true
      → (rs : List WalRecord) × (op_records sha1 work ops ≡ ok rs)
  unfolding op_records content_hash
  op_records-ok [] h = ([], refl)
  op_records-ok (remove p ∷ ops) h = let (rs, e) = op_records-ok ops h in (delete p ∷ rs, rw e refl)
  op_records-ok (write p ∷ ops) h = elim (Option-cases (lookup work p)) [
    | inl n ↦ ground (arith, n)
    | inr (entry, n) ↦
        let (rs, e) = op_records-ok ops (ground arith) in
        (move p p (hash_entry sha1 entry) ∷ rs, ground (arith, n, e))
  ]

  pub has_entries-append :
      (xs ys : List TreePath)
      → all (λ p. not (is_none (copied (lookup work p)))) ys ≡ true
      → has_entries work (map remove xs ++ map write ys) ≡ true
  has_entries-append [] [] h = refl
  has_entries-append [] (y ∷ ys) h = ground (arith, has_entries-append [] ys)
  has_entries-append (x ∷ xs) ys h = has_entries-append xs ys h

  effect-elsewhere :
      (r : WalRecord) (p q : TreePath)
      → target r ≡ some p
      → (p =? q) ≡ false
      → unwrap_or none (effect work r q) ≡ none
  effect-elsewhere (move from to hash) p q n d =
      ground (arith, list_has_eq.is_same_iff p q, same_target to p q n)
    where
      same_target : (to p q : TreePath) → some to ≡ some p → (to =? q) ≡ (p =? q)
      same_target to p q n = ap (λ o. unwrap_or false (map_same q o)) n
        where
          map_same : TreePath → Option TreePath → Option Bool
          map_same q none = none
          map_same q (some x) = some (x =? q)
  effect-elsewhere (delete x) p q n d = ground arith
  effect-elsewhere r p q n d = ground arith

  stays :
      (bound : Tree) (r : WalRecord) (t t₁ : Tree) (p : TreePath)
      → target r ≡ some p
      → has_path bound p ≡ true
      → has_source work r ≡ true
      → apply_record sha1 work r t ≡ ok t₁
      → IsWithin bound t
      → IsWithin bound t₁
  stays bound r t t₁ p n here h e w q o = ground (
    arith,
    apply_record-lookup sha1 work r t t₁ h e q,
    effect-elsewhere r p q n,
    w q o,
    o,
    here,
    lookup_same,
  )
    where
      lookup_same : (p =? q) ≡ true → lookup bound p ≡ lookup bound q
      lookup_same i = ap (lookup bound) (path_eq p q i)

  -- Operations on paths of a tree run on what lies within it, and stay within it.
  pub runs_within :
      (bound : Tree)
      → is_tree bound ≡ true
      → (rs : List WalRecord) (t : Tree) → all (has_source work) rs ≡ true
      → all (λ r. is_some_and (has_path bound) (target r)) rs ≡ true
      → all (leaves_free bound) rs ≡ true
      → IsWithin bound t
      → (t' : Tree) × (apply_records sha1 work rs t ≡ ok t')
  unfolding apply_records
  runs_within bound is [] t h g l w = (t, refl)
  runs_within bound is (r ∷ rs) t h g l w = elim (Option-cases (target r)) [
    | inl n ↦ ground (arith, n)
    | inr (p, n) ↦
        let here : has_path bound p ≡ true = ground (arith, n) in
        let clear : is_open t r ≡ true =
          open_within bound t r w
            (ap (λ o. is_some_and (is_blocked bound) o) n
              ∙ unblocked bound bound p is (ground arith))
            (ground arith) in
        let (t₁, e₁) = apply_record-ok sha1 work r t (ground arith) clear in
        let (t', e₂) =
          runs_within bound is rs t₁ (ground arith) (ground arith) (ground arith)
            (stays bound r t t₁ p n here (ground arith) e₁ w) in
        (t', rw e₁ e₂)
  ]
