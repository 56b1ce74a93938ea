-- ===== src/Mux/Commit/Replay.antt =====
-- Applying the records of a transaction: each one decides its path and what is below it, whatever
-- was there, so a second run over a seed that a first run has partly changed ends the same.
use marsh.Base.{
  ℕ, String, ◌≡◌, refl, sym, ap, ◌∙◌, Bool, true, not, List, [], ◌∷◌, Option, none, some, arith,
  ◌=?◌, all, is_none, is_empty, ◌&&◌, unwrap_or, or_else, list_has_eq, string_has_eq, if◌then◌else◌,
  ℕ, Option-cases, inl, inr,
}
use marsh.Base.Results.{ok, >>=-eq-ok}
use marsh.Mux.Tree.{
  path_eq, TreePath, Entry, file, symlink, other, Tree, lookup, covers, is_blocked, is_directory,
  temporary, copied, without, apply_write, apply_remove,
}
use marsh.Mux.Commit.{WalRecord, begin, move, delete, end, write_path, apply_record, apply_records}

lookup-without :
    (t : Tree) (p q : TreePath) → lookup (without t p) q ≡ (if covers p q then none else lookup t q)
lookup-without [] p q = ground arith
lookup-without ((r, e) ∷ t) p q = ground (arith, lookup-without t p q, path_eq r q)

pub covers_self : (p : TreePath) → covers p p ≡ true
covers_self [] = refl
covers_self (s ∷ p) = ground (arith, covers_self p, string_has_eq.is_same_iff s s)

-- The path that a record changes.
abbrev pub target : WalRecord → Option TreePath
target (move from to hash) = some to
target (delete p) = some p
target (begin b) = none
target (end seq) = none

module _ (work : Tree) where
  -- The snapshot still has what the record copies, a file or a link.
  abbrev pub has_source : WalRecord → Bool
  has_source (move from to hash) = not (is_none (copied (lookup work from)))
  has_source _ = true

  -- What a record decides of a path, if it touches it. A write leaves nothing at its temporary.
  abbrev pub effect : WalRecord → TreePath → Option (Option Entry)
  effect (move from to hash) q =
      if covers to q
      then some (if to =? q then lookup work from else none)
      else if covers (temporary to) q
      then some none
      else none
  effect (delete p) q = if covers p q then some none else none
  effect (begin b) q = none
  effect (end seq) q = none

  abbrev pub effects : List WalRecord → TreePath → Option (Option Entry)
  effects [] q = none
  effects (r ∷ rs) q = or_else (effects rs q) (effect r q)

-- Nothing stands in the way of the record: no file on the way to its path, and no directory at the
-- temporary of a write.
abbrev pub is_open : Tree → WalRecord → Bool
is_open t (move from to hash) =
    not (is_blocked t to) && (not (is_empty to) && not (is_directory t (temporary to)))
is_open t (delete p) = not (is_blocked t p)
is_open t (begin b) = true
is_open t (end seq) = true

copied-some : (o : Option Entry) (e : Entry) → copied o ≡ some e → o ≡ some e
copied-some (some (file bytes mode)) e h = h
copied-some (some (symlink to)) e h = h
copied-some (some (other mode)) e h = ground arith
copied-some none e h = ground arith

module _ (sha1 : List ℕ → String) (work : Tree) where
  covers_target : (p q : TreePath) → (p =? q) ≡ true → covers p q ≡ true
  covers_target p q h = ap (covers p) (sym (path_eq p q h)) ∙ covers_self p

  pub apply_record-lookup :
      (r : WalRecord) (t t' : Tree)
      → has_source work r ≡ true
      → apply_record sha1 work r t ≡ ok t'
      → (q : TreePath) → lookup t' q ≡ unwrap_or (lookup t q) (effect work r q)
  unfolding apply_record apply_write apply_remove write_path
  apply_record-lookup (begin b) t t' h e q = ground arith
  apply_record-lookup (end seq) t t' h e q = ground arith
  apply_record-lookup (delete p) t t' h e q = ground (arith, lookup-without t p q)
  apply_record-lookup (move from to hash) t t' h e q =
      elim (Option-cases (copied (lookup work from))) [
        | inl n ↦ ground (arith, n)
        | inr (entry, n) ↦ ground (
          arith,
          n,
          copied-some (lookup work from) entry n,
          lookup-without (without t (temporary to)) to q,
          lookup-without t (temporary to) q,
          covers_target to q,
        )
      ]

  -- A record that its source and its way are there for is applied.
  pub apply_record-ok :
      (r : WalRecord) (t : Tree)
      → has_source work r ≡ true
      → is_open t r ≡ true
      → (t' : Tree) × (apply_record sha1 work r t ≡ ok t')
  unfolding apply_record apply_write apply_remove write_path
  apply_record-ok (begin b) t h o = (t, refl)
  apply_record-ok (end seq) t h o = (t, refl)
  apply_record-ok (delete p) t h o = (without t p, ground arith)
  apply_record-ok (move from to hash) t h o = elim (Option-cases (copied (lookup work from))) [
    | inl n ↦ ground (arith, n)
    | inr (e, n) ↦ (
      (to, e) ∷ without (without t (temporary to)) to,
      ground (arith, n, copied-some (lookup work from) e n),
    )
  ]

  pub apply_record-is_open :
      (r : WalRecord) (t t' : Tree)
      → has_source work r ≡ true
      → apply_record sha1 work r t ≡ ok t'
      → is_open t r ≡ true
  unfolding apply_record apply_write apply_remove write_path
  apply_record-is_open (begin b) t t' h e = refl
  apply_record-is_open (end seq) t t' h e = refl
  apply_record-is_open (delete p) t t' h e = ground arith
  apply_record-is_open (move from to hash) t t' h e = ground arith

  -- The last record that touches a path decides it.
  pub apply_records-lookup :
      (rs : List WalRecord) (t t' : Tree)
      → all (has_source work) rs ≡ true
      → apply_records sha1 work rs t ≡ ok t'
      → (q : TreePath) → lookup t' q ≡ unwrap_or (lookup t q) (effects work rs q)
  unfolding apply_records
  apply_records-lookup [] t t' h e q = ground arith
  apply_records-lookup (r ∷ rs) t t' h e q =
      let (t₁, e₁, e₂) = >>=-eq-ok (apply_record sha1 work r t) _ e in
      ground (
        arith,
        apply_record-lookup r t t₁ (ground arith) e₁ q,
        apply_records-lookup rs t₁ t' (ground arith) e₂ q,
      )
