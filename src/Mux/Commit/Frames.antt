-- ===== src/Mux/Commit/Frames.antt =====
-- shellmux/src/commit.rs, `recover`: how a log divides into transactions, and which of them it
-- leaves alone.
use marsh.Base.{
  ℕ, ◌≡◌, refl, sym, ap, ◌∙◌, Bool, true, false, not, ◌&&◌, ◌||◌, List, [], ◌∷◌, ◌++◌, arith, ◌=?◌,
  all, is_none, nat_has_eq, length, String,
}
use mathlib.Core.List.{reverse, append_assoc, append-nil, reverse-cons}
use marsh.Base.Results.{ok, >>=-ok, >>=-eq-ok}
use marsh.Mux.Tree.{copied, Tree, lookup}
use marsh.Mux.History.{CommitOp, write, remove, is_committed}
use marsh.Mux.Commit.{
  Begin, WalRecord, begin, move, delete, end, Transaction, finish, add_record, group, is_framed,
  is_partial, Persistence, check_frames, replay, replay_all, recover, operation, operations,
  op_records, content_hash,
}
use marsh.Mux.Commit.Replay.{has_source}

abbrev pub is_operation : WalRecord → Bool
is_operation (move from to hash) = true
is_operation (delete p) = true
is_operation _ = false

-- A transaction with its records, its `End` seen or not.
abbrev pub transaction : Begin → List WalRecord → Bool → Transaction
transaction b rs fin = record { opened = b; records = rs; finished = fin }

pub group-append :
    (new : List WalRecord) (old : List WalRecord) (ts : List Transaction)
    → group ts (old ++ new) ≡ group (group ts old) new
unfolding group
group-append new [] ts = refl
group-append new (begin b ∷ old) ts = group-append new old _
group-append new (end seq ∷ old) ts = group-append new old _
group-append new (move from to hash ∷ old) ts = group-append new old _
group-append new (delete p ∷ old) ts = group-append new old _

-- Operation records go to the transaction that is open.
group-operations :
    (rs : List WalRecord) (b : Begin) (before : List WalRecord) (fin : Bool) (ts : List Transaction)
    → all is_operation rs ≡ true
    → group (transaction b before fin ∷ ts) rs ≡ transaction b (before ++ rs) fin ∷ ts
unfolding group add_record
group-operations [] b before fin ts h = ap (λ l. transaction b l fin ∷ ts) (sym (append-nil before))
group-operations (begin c ∷ rs) b before fin ts h = ground arith
group-operations (end c ∷ rs) b before fin ts h = ground arith
group-operations (move from to hash ∷ rs) b before fin ts h =
    group-operations rs b (before ++ move from to hash ∷ []) fin ts (ground arith)
    ∙ ap (λ l. transaction b l fin ∷ ts) (append_assoc before (move from to hash ∷ []) rs)
group-operations (delete p ∷ rs) b before fin ts h =
    group-operations rs b (before ++ delete p ∷ []) fin ts (ground arith)
    ∙ ap (λ l. transaction b l fin ∷ ts) (append_assoc before (delete p ∷ []) rs)

pub group-transaction :
    (old : List WalRecord) (b : Begin) (rs : List WalRecord)
    → all is_operation rs ≡ true
    → group [] (old ++ begin b ∷ rs) ≡ transaction b rs false ∷ group [] old
unfolding group
group-transaction old b rs h =
    group-append (begin b ∷ rs) old [] ∙ group-operations rs b [] false (group [] old) h

pub group-finished :
    (old : List WalRecord) (b : Begin) (rs : List WalRecord)
    → all is_operation rs ≡ true
    → group [] ((old ++ begin b ∷ rs) ++ end b.seq ∷ []) ≡ transaction b rs true ∷ group [] old
unfolding group finish
group-finished old b rs h =
    let self : (b.seq =? b.seq) ≡ true = (nat_has_eq.is_same_iff b.seq b.seq).1 refl in
    rw (group-append (end b.seq ∷ []) (old ++ begin b ∷ rs) [], group-transaction old b rs h, self)
      refl

-- Recovery leaves the transaction alone: it is in the history, or its intent never got to the log
-- whole.
abbrev pub is_settled : (ℕ → Bool) → Transaction → Bool
is_settled remembered t = is_framed t && (is_partial t || (t.finished && remembered t.opened.seq))

module _ (sha1 : List ℕ → String) where
  replay-settled :
      (remembered : ℕ → Bool) (disk : Persistence) (t : Transaction)
      → is_settled remembered t ≡ true
      → replay sha1 remembered disk t ≡ ok disk
  unfolding replay
  replay-settled remembered disk t h = ground arith

  replay_all-append :
      (remembered : ℕ → Bool) (disk : Persistence) (ts new : List Transaction)
      → all (is_settled remembered) ts ≡ true
      → replay_all sha1 remembered disk (ts ++ new) ≡ replay_all sha1 remembered disk new
  unfolding replay_all
  replay_all-append remembered disk [] new h = refl
  replay_all-append remembered disk (t ∷ ts) new h =
      rw (replay-settled remembered disk t (ground arith))
        (replay_all-append remembered disk ts new (ground arith))

  check_frames-append :
      (remembered : ℕ → Bool) (t : Transaction) (ts : List Transaction)
      → all (is_settled remembered) ts ≡ true
      → is_framed t ≡ true
      → check_frames sha1 (ts ++ t ∷ []) ≡ ok (ts ++ t ∷ [])
  check_frames-append remembered t [] h f = rw f refl
  check_frames-append remembered t (t' ∷ ts) h f =
      let g : is_framed t' ≡ true = ground arith in
      rw (g, check_frames-append remembered t ts (ground arith) f) refl

  -- Recovery comes down to the last transaction, where those before it are settled.
  pub recover-last :
      (disk : Persistence) (old : List Transaction) (t : Transaction)
      → group [] disk.wal ≡ t ∷ old
      → all (is_settled (is_committed disk.history)) (reverse old) ≡ true
      → is_framed t ≡ true
      → recover sha1 disk ≡ replay sha1 (is_committed disk.history) disk t
  unfolding recover replay_all
  recover-last disk old t g h f =
      rw
        (
          g,
          reverse-cons t old,
          check_frames-append (is_committed disk.history) t (reverse old) h f,
          replay_all-append (is_committed disk.history) disk (reverse old) (t ∷ []) h,
        )
        (>>=-ok (replay sha1 (is_committed disk.history) disk t))

  check_frames-settled :
      (remembered : ℕ → Bool) (ts : List Transaction)
      → all (is_settled remembered) ts ≡ true
      → check_frames sha1 ts ≡ ok ts
  check_frames-settled remembered [] h = refl
  check_frames-settled remembered (t ∷ ts) h =
      let g : is_framed t ≡ true = ground arith in
      rw (g, check_frames-settled remembered ts (ground arith)) refl

  replay_all-settled :
      (remembered : ℕ → Bool) (disk : Persistence) (ts : List Transaction)
      → all (is_settled remembered) ts ≡ true
      → replay_all sha1 remembered disk ts ≡ ok disk
  unfolding replay_all
  replay_all-settled remembered disk [] h = refl
  replay_all-settled remembered disk (t ∷ ts) h =
      rw (replay-settled remembered disk t (ground arith))
        (replay_all-settled remembered disk ts (ground arith))

  -- Where every transaction is settled, recovery changes nothing.
  pub recover-settled :
      (disk : Persistence)
      → all (is_settled (is_committed disk.history)) (reverse (group [] disk.wal)) ≡ true
      → recover sha1 disk ≡ ok disk
  unfolding recover
  recover-settled disk h =
      rw (check_frames-settled (is_committed disk.history) (reverse (group [] disk.wal)) h)
        (replay_all-settled (is_committed disk.history) disk (reverse (group [] disk.wal)) h)

all-append-one :
    {A : Type 0} (p : A → Bool) (xs : List A) (x : A)
    → all p xs ≡ true
    → p x ≡ true
    → all p (xs ++ x ∷ []) ≡ true
all-append-one p [] x h k = ground arith
all-append-one p (y ∷ xs) x h k = ground (arith, all-append-one p xs x)

-- A history that grows keeps transactions settled.
settled-grows :
    (f g : ℕ → Bool) (ts : List Transaction)
    → ((n : ℕ) → f n ≡ true → g n ≡ true)
    → all (is_settled f) ts ≡ true
    → all (is_settled g) ts ≡ true
settled-grows f g [] le h = refl
settled-grows f g (t ∷ ts) le h = ground (arith, settled-grows f g ts le, le t.opened.seq)

pub settled-cons :
    (f g : ℕ → Bool) (t : Transaction) (ts : List Transaction)
    → ((n : ℕ) → f n ≡ true → g n ≡ true)
    → all (is_settled f) (reverse ts) ≡ true
    → is_settled g t ≡ true
    → all (is_settled g) (reverse (t ∷ ts)) ≡ true
settled-cons f g t ts le h k =
    rw (reverse-cons t ts)
      (all-append-one (is_settled g) (reverse ts) t (settled-grows f g (reverse ts) le h) k)

-- What the records of operations have in common.
pub op_records-operations :
    (sha1 : List ℕ → String) (work : Tree) (ops : List CommitOp) (rs : List WalRecord)
    → op_records sha1 work ops ≡ ok rs
    → (all is_operation rs ≡ true) × (operations rs ≡ ops) × (length rs ≡ length ops)
unfolding op_records operations operation
op_records-operations sha1 work [] rs e = (ground arith, ground arith, ground arith)
op_records-operations sha1 work (remove p ∷ ops) rs e =
    let (rs', e₁, e₂) = >>=-eq-ok (op_records sha1 work ops) _ e in
    let (a, b, c) = op_records-operations sha1 work ops rs' e₁ in
    (ground arith, ground arith, ground arith)
op_records-operations sha1 work (write p ∷ ops) rs e =
    let (hash, e₀, e') = >>=-eq-ok (content_hash sha1 work p) _ e in
    let (rs', e₁, e₂) = >>=-eq-ok (op_records sha1 work ops) _ e' in
    let (a, b, c) = op_records-operations sha1 work ops rs' e₁ in
    (ground arith, ground arith, ground arith)

-- The snapshot has a file or a link for every path that is written.
abbrev pub has_entries : Tree → List CommitOp → Bool
has_entries work [] = true
has_entries work (remove p ∷ ops) = has_entries work ops
has_entries work (write p ∷ ops) = not (is_none (copied (lookup work p))) && has_entries work ops

pub op_records-has_source :
    (sha1 : List ℕ → String) (work : Tree) (ops : List CommitOp) (rs : List WalRecord)
    → op_records sha1 work ops ≡ ok rs
    → has_entries work ops ≡ true
    → all (has_source work) rs ≡ true
unfolding op_records
op_records-has_source sha1 work [] rs e h = ground arith
op_records-has_source sha1 work (remove p ∷ ops) rs e h =
    let (rs', e₁, e₂) = >>=-eq-ok (op_records sha1 work ops) _ e in
    ground (arith, op_records-has_source sha1 work ops rs' e₁ h)
op_records-has_source sha1 work (write p ∷ ops) rs e h =
    let (hash, e₀, e') = >>=-eq-ok (content_hash sha1 work p) _ e in
    let (rs', e₁, e₂) = >>=-eq-ok (op_records sha1 work ops) _ e' in
    ground (arith, op_records-has_source sha1 work ops rs' e₁ (ground arith))
