-- ===== src/Mux/Diff/Apply.antt =====
-- shellmux/src/diff.rs: applying the difference of two trees to the first gives the second.
use marsh.Base.{
  ℕ, String, ◌≡◌, refl, ap, Bool, true, false, not, ◌&&◌, ◌||◌, List, [], ◌∷◌, ◌++◌, map, Option,
  none, some, arith, ◌=?◌, all, any, is_none, unwrap_or, or_else, list_has_eq, nat_has_eq,
  string_has_eq, if◌then◌else◌,
}
use marsh.Base.Results.{ok, >>=-eq-ok}
use marsh.Mux.Tree.{TreePath, Tree, Entry, path_eq, lookup, covers, temporary}
use marsh.Mux.History.{CommitOp, write, remove}
use marsh.Mux.Commit.{WalRecord, content_hash, op_records}
use marsh.Mux.Commit.Replay.{effects, covers_self}

module _ (work : Tree) where
  -- What an operation decides of a path, and what a list of them does.
  abbrev pub op_effect : CommitOp → TreePath → Option (Option Entry)
  op_effect (write p) q = if covers p q then some (if p =? q then lookup work p else none) else none
  op_effect (remove p) q = if covers p q then some none else none

  abbrev pub op_effects : List CommitOp → TreePath → Option (Option Entry)
  op_effects [] q = none
  op_effects (op ∷ ops) q = or_else (op_effects ops q) (op_effect op q)

  pub op_effects-append :
      (xs ys : List CommitOp) (q : TreePath)
      → op_effects (xs ++ ys) q ≡ or_else (op_effects ys q) (op_effects xs q)
  op_effects-append [] ys q = ground arith
  op_effects-append (x ∷ xs) ys q = ground (arith, op_effects-append xs ys q)

  -- The path is at or below no temporary of the operations.
  abbrev pub off_temporaries : TreePath → List CommitOp → Bool
  off_temporaries q [] = true
  off_temporaries q (write p ∷ ops) = not (covers (temporary p) q) && off_temporaries q ops
  off_temporaries q (remove p ∷ ops) = off_temporaries q ops

  pub effects-op_records :
      (sha1 : List ℕ → String) (ops : List CommitOp) (rs : List WalRecord)
      → op_records sha1 work ops ≡ ok rs
      → (q : TreePath) → off_temporaries q ops ≡ true
      → effects work rs q ≡ op_effects ops q
  unfolding op_records
  effects-op_records sha1 [] rs e q o = ground arith
  effects-op_records sha1 (remove p ∷ ops) rs e q o =
      let (rs', e₁, e₂) = >>=-eq-ok (op_records sha1 work ops) _ e in
      ground (arith, effects-op_records sha1 ops rs' e₁ q)
  effects-op_records sha1 (write p ∷ ops) rs e q o =
      let (hash, e₀, e') = >>=-eq-ok (content_hash sha1 work p) _ e in
      let (rs', e₁, e₂) = >>=-eq-ok (op_records sha1 work ops) _ e' in
      ground (arith, effects-op_records sha1 ops rs' e₁ q)

  -- A path that the snapshot has not is left without an entry by all that touches it.
  pub effects-absent :
      (sha1 : List ℕ → String) (ops : List CommitOp) (rs : List WalRecord)
      → op_records sha1 work ops ≡ ok rs
      → (q : TreePath) → lookup work q ≡ none
      → unwrap_or none (effects work rs q) ≡ none
  unfolding op_records
  effects-absent sha1 [] rs e q o = ground arith
  effects-absent sha1 (remove p ∷ ops) rs e q o =
      let (rs', e₁, e₂) = >>=-eq-ok (op_records sha1 work ops) _ e in
      ground (arith, effects-absent sha1 ops rs' e₁ q o)
  effects-absent sha1 (write p ∷ ops) rs e q o =
      let (hash, e₀, e') = >>=-eq-ok (content_hash sha1 work p) _ e in
      let (rs', e₁, e₂) = >>=-eq-ok (op_records sha1 work ops) _ e' in
      ground (arith, effects-absent sha1 ops rs' e₁ q o, o, same_entry)
    where
      same_entry : (p =? q) ≡ true → lookup work p ≡ lookup work q
      same_entry i = ap (lookup work) (path_eq p q i)

  module _ (q : TreePath) where
    abbrev pub spares : TreePath → Bool
    spares p = not (covers p q) || ((p =? q) || is_none (lookup work q))

    moved : (p : TreePath) → (p =? q) ≡ true → lookup work p ≡ lookup work q
    moved p i = ap (lookup work) (path_eq p q i)

    -- Writes that stand above no other entry give the path what the snapshot has.
    pub writes-agree :
        (ps : List TreePath)
        → all spares ps ≡ true
        → unwrap_or (lookup work q) (op_effects (map write ps) q) ≡ lookup work q
    writes-agree [] h = refl
    writes-agree (p ∷ ps) h = ground (arith, writes-agree ps, moved p)

    covers_same : (p : TreePath) → (p =? q) ≡ true → covers p q ≡ true
    covers_same p i = ground (arith, path_eq p q i, covers_self q)

    pub writes-touch :
        (ps : List TreePath)
        → is_none (op_effects (map write ps) q) ≡ true
        → any (λ p. p =? q) ps ≡ false
    writes-touch [] h = refl
    writes-touch (p ∷ ps) h = ground (arith, writes-touch ps, covers_same p)

    pub removes-agree : (ps : List TreePath) → unwrap_or none (op_effects (map remove ps) q) ≡ none
    removes-agree [] = refl
    removes-agree (p ∷ ps) = ground (arith, removes-agree ps)

    pub removes-touch :
        (ps : List TreePath)
        → is_none (op_effects (map remove ps) q) ≡ true
        → any (λ p. p =? q) ps ≡ false
    removes-touch [] h = refl
    removes-touch (p ∷ ps) h = ground (arith, removes-touch ps, covers_same p)

    pub removes-spare :
        (ps : List TreePath)
        → all (λ p. not (covers p q)) ps ≡ true
        → op_effects (map remove ps) q ≡ none
    removes-spare [] h = refl
    removes-spare (p ∷ ps) h = ground (arith, removes-spare ps)
