-- ===== src/Mux/Readers.antt =====
-- shellmux/src/mux.rs, `acquire_reader`, `release_reader` and `discard_reader`: the snapshots that
-- bypassed commands share, one for each version of the seed, with the number of their users.
use marsh.Base.{
  ℕ, ◌+◌, ◌-◌, ◌≡◌, refl, true, false, not, ◌&&◌, ◌||◌, [], ◌∷◌, none, some, arith, ◌=?◌, ltb,
  is_none, is_some_and, unwrap_or, ◌∙◌, nat_has_eq, if◌then◌else◌,
}
use marsh.Base.Maps.{Map, get, delete, insert, get-delete, get-insert}
use marsh.Mux.Tree.{Tree}

pub record Readers : Type 0 where
  pub users : Map ℕ ℕ
  pub trees : Map ℕ Tree

abbrev forget : Readers → ℕ → Readers
forget readers seq = record { users = delete readers.users seq; trees = delete readers.trees seq }

-- Versions that nobody reads and that are not `seq` are reclaimed.
unfoldable pub reclaim : ℕ → Map ℕ ℕ → Readers → Readers
reclaim seq [] readers = readers
reclaim seq ((version, users) ∷ rest) readers =
    let reclaimed = reclaim seq rest readers in
    if not (version =? seq) && (users =? 0) then forget reclaimed version else reclaimed

unfoldable pub take_reader : Readers → ℕ → Tree → Readers
take_reader readers seq seed = elim (get readers.users seq) [
  | some users ↦ record readers { users = insert readers.users seq (users + 1) }
  | none ↦ record { users = insert readers.users seq 1; trees = insert readers.trees seq seed }
]

-- `seq` is the version of the seed, held still by the read lock.
unfoldable pub acquire_reader : Readers → ℕ → Tree → Readers
unfolding reclaim take_reader
acquire_reader readers seq seed =
    let taken = take_reader readers seq seed in reclaim seq taken.users taken

unfoldable pub release_reader : Readers → ℕ → ℕ → Readers
release_reader readers seq current = elim (get readers.users seq) [
  | none ↦ readers
  | some users ↦
      let left = record readers { users = insert readers.users seq (users - 1) } in
      if ltb 0 (users - 1) || (seq =? current) then left else forget left seq
]

unfoldable pub discard_reader : Readers → ℕ → Readers
discard_reader readers seq = elim (get readers.users seq) [
  | none ↦ readers
  | some users ↦ if ltb 0 users then readers else forget readers seq
]

-- Every version that is counted has its tree.
abbrev pub IsKept : Readers → Type 0
IsKept readers =
    (seq : ℕ) → is_none (get readers.users seq) ≡ false → is_none (get readers.trees seq) ≡ false

forget-IsKept : (readers : Readers) (n : ℕ) → IsKept readers → IsKept (forget readers n)
forget-IsKept readers n k seq h =
    ground (arith, get-delete readers.users n seq, get-delete readers.trees n seq, k seq)

reclaim-IsKept :
    (seq : ℕ) (m : Map ℕ ℕ) (readers : Readers) → IsKept readers → IsKept (reclaim seq m readers)
unfolding reclaim
reclaim-IsKept seq [] readers k n h = k n h
reclaim-IsKept seq ((version, users) ∷ rest) readers k n h = ground (
  arith,
  reclaim-IsKept seq rest readers k n,
  forget-IsKept (reclaim seq rest readers) version (reclaim-IsKept seq rest readers k) n,
)

reclaim-seq :
    (seq : ℕ) (m : Map ℕ ℕ) (readers : Readers)
    → get (reclaim seq m readers).users seq ≡ get readers.users seq
unfolding reclaim
reclaim-seq seq [] readers = refl
reclaim-seq seq ((version, users) ∷ rest) readers =
    ground
      (arith, reclaim-seq seq rest readers, get-delete (reclaim seq rest readers).users version seq)

same_version : (a b : ℕ) → (a =? b) ≡ true → a ≡ b
same_version a b = (nat_has_eq.is_same_iff a b).0

take_reader-count :
    (readers : Readers) (seq : ℕ) (seed : Tree)
    → get (take_reader readers seq seed).users seq ≡ some (unwrap_or 0 (get readers.users seq) + 1)
unfolding take_reader
take_reader-count readers seq seed =
    ground (arith, get-insert readers.users seq seq (unwrap_or 0 (get readers.users seq) + 1))

take_reader-IsKept :
    (readers : Readers) (seq : ℕ) (seed : Tree)
    → IsKept readers
    → IsKept (take_reader readers seq seed)
unfolding take_reader
take_reader-IsKept readers seq seed k v h = ground (
  arith,
  get-insert readers.users seq v (unwrap_or 0 (get readers.users seq) + 1),
  get-insert readers.trees seq v seed,
  k v,
  k seq,
  same_version seq v,
)

-- After `acquire_reader` every counted version still has its tree, and the acquired one is counted
-- once more.
pub acquire_reader-IsKept :
    (readers : Readers) (seq : ℕ) (seed : Tree)
    → IsKept readers
    → IsKept (acquire_reader readers seq seed)
      × (get (acquire_reader readers seq seed).users seq
          ≡ some (unwrap_or 0 (get readers.users seq) + 1))
unfolding acquire_reader
acquire_reader-IsKept readers seq seed k =
    let taken = take_reader readers seq seed in
    (
      reclaim-IsKept seq taken.users taken (take_reader-IsKept readers seq seed k),
      (reclaim-seq seq taken.users taken ∙ take_reader-count readers seq seed),
    )

-- After a release every counted version still has its tree.
pub release_reader-IsKept :
    (readers : Readers) (seq current : ℕ)
    → IsKept readers
    → IsKept (release_reader readers seq current)
unfolding release_reader
release_reader-IsKept readers seq current k v h =
    let n = unwrap_or 0 (get readers.users seq) - 1 in
    ground (
      arith,
      get-insert readers.users seq v n,
      get-delete (insert readers.users seq n) seq v,
      get-delete readers.trees seq v,
      k v,
      k seq,
      same_version seq v,
    )

-- A version that a release leaves in use keeps its tree, the released one included.
pub release_reader-used :
    (readers : Readers) (seq current v : ℕ)
    → is_some_and (λ n. ltb 0 n) (get (release_reader readers seq current).users v) ≡ true
    → get (release_reader readers seq current).trees v ≡ get readers.trees v
unfolding release_reader
release_reader-used readers seq current v h =
    let n = unwrap_or 0 (get readers.users seq) - 1 in
    ground (
      arith,
      get-insert readers.users seq v n,
      get-delete (insert readers.users seq n) seq v,
      get-delete readers.trees seq v,
    )

-- A version that is in use is not discarded.
pub discard_reader-used :
    (readers : Readers) (seq v : ℕ)
    → is_some_and (λ n. ltb 0 n) (get readers.users v) ≡ true
    → (get (discard_reader readers seq).users v ≡ get readers.users v)
      × (get (discard_reader readers seq).trees v ≡ get readers.trees v)
unfolding discard_reader
discard_reader-used readers seq v h =
    ground
      (arith, get-delete readers.users seq v, get-delete readers.trees seq v, same_version seq v)
