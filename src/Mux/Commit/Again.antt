-- ===== src/Mux/Commit/Again.antt =====
-- shellmux/src/commit.rs: a transaction again, over what a first run of a part of it left.
use marsh.Base.{
  all-take, ℕ, zero, suc, String, ◌≡◌, refl, sym, ap, ◌∙◌, get_elem?, Bool, true, false, not, List,
  [], ◌∷◌, none, some, arith, ◌=?◌, any, all, is_none, unwrap_or, list_has_eq, string_has_eq, take,
  =?_refl, ◌&&◌, ◌||◌, Bool-cases, inl, inr,
}
use marsh.Base.Results.{ok, >>=-eq-ok}
use marsh.Mux.Tree.{
  path_eq, TreePath, Tree, lookup, ancestors, covers, is_blocked, is_directory, temporary,
}
use marsh.Mux.Commit.{WalRecord, begin, move, delete, end, apply_record, apply_records}
use marsh.Mux.Commit.Replay.{
  has_source, is_open, effect, effects, apply_record-lookup, apply_record-ok, apply_record-is_open,
  apply_records-lookup,
}

abbrev pub is_above : TreePath → TreePath → Bool
is_above a p = any (λ q. q =? a) (ancestors p)

-- The path is properly below another.
abbrev pub is_below : TreePath → TreePath → Bool
is_below p q = covers p q && not (q =? p)

-- The record needs nothing but directories at the path, or nothing at all: it is above the path that
-- the record changes, or below the temporary of a write.
abbrev pub needs_free : WalRecord → TreePath → Bool
needs_free (move from to hash) a = is_above a to || is_below (temporary to) a
needs_free (delete p) a = is_above a p
needs_free (begin b) a = false
needs_free (end seq) a = false

abbrev pub reserved : List WalRecord → TreePath → Bool
reserved rs a = any (λ r. needs_free r a) rs

-- The record writes none of these paths, and has its temporary at none.
abbrev pub writes_none : (TreePath → Bool) → WalRecord → Bool
writes_none dirs (move from to hash) = not (dirs to) && not (dirs (temporary to))
writes_none dirs _ = true

-- No path that is written, nor the temporary of one, is above a path that the transaction changes, or
-- below the temporary of a path that it writes.
abbrev pub keeps_directories : List WalRecord → Bool
keeps_directories rs = all (writes_none (reserved rs)) rs

-- The record can change the path, or uses it on the way.
abbrev pub is_touched : WalRecord → TreePath → Bool
is_touched (move from to hash) q = covers to q || covers (temporary to) q
is_touched (delete p) q = covers p q
is_touched (begin b) q = false
is_touched (end seq) q = false

abbrev pub is_at_temporary : WalRecord → TreePath → Bool
is_at_temporary (move from to hash) q = q =? temporary to
is_at_temporary _ q = false

-- In the middle of the record: any part of what it touches may be gone, and anything at all may stand
-- at the temporary of a write.
abbrev pub IsAmid : WalRecord → Tree → Tree → Type 0
IsAmid r t m =
    (q : TreePath)
    → (is_touched r q ≡ false → lookup m q ≡ lookup t q)
      × (is_at_temporary r q ≡ false → lookup t q ≡ none → lookup m q ≡ none)

some_below :
    (t : Tree) (p : TreePath)
    → is_directory t p ≡ true
    → (q : TreePath) × (is_below p q ≡ true) × (is_none (lookup t q) ≡ false)
some_below [] p h = ground arith
some_below ((q, e) ∷ t) p h = elim (Bool-cases (is_below p q)) [
  | inl y ↦ (q, y, ground (arith, =?_refl q))
  | inr n ↦ let (r, b, here) = some_below t p (ground (arith, n)) in (r, b, ground (arith, here))
]

pub nothing_below :
    (t : Tree) (p q : TreePath) → is_directory t p ≡ false → is_below p q ≡ true → lookup t q ≡ none
nothing_below [] p q h b = refl
nothing_below ((r, e) ∷ t) p q h b = ground (arith, nothing_below t p q, same)
  where
    same : (r =? q) ≡ true → is_below p r ≡ is_below p q
    same i = ap (is_below p) (path_eq r q i)

pub no_directory :
    (t : Tree) (p : TreePath)
    → ((q : TreePath) → is_below p q ≡ true → lookup t q ≡ none)
    → is_directory t p ≡ false
no_directory t p f = elim (Bool-cases (is_directory t p)) [
  | inr n ↦ n
  | inl y ↦ let (q, b, here) = some_below t p y in ground (arith, f q b, here)
]

module _ (dirs : TreePath → Bool) where
  -- Where `t` has nothing, on these paths, `s` has nothing.
  abbrev Follows : Tree → Tree → Type 0
  Follows t s = (q : TreePath) → dirs q ≡ true → lookup t q ≡ none → lookup s q ≡ none

  abbrev WayIn : List TreePath → Type 0
  WayIn ds = (a : TreePath) → any (λ q. q =? a) ds ≡ true → dirs a ≡ true

  open_all :
      (ds : List TreePath) (t s : Tree)
      → Follows t s
      → WayIn ds
      → any (λ a. not (is_none (lookup t a))) ds ≡ false
      → any (λ a. not (is_none (lookup s a))) ds ≡ false
  open_all [] t s f w h = refl
  open_all (a ∷ ds) t s f w h = ground (
    arith,
    open_all ds t s f (λ b e. w b (ground arith)) (ground arith),
    f a (w a (ground (arith, =?_refl a))),
  )

  is_blocked-Follows :
      (p : TreePath) (t s : Tree)
      → Follows t s
      → ((a : TreePath) → is_above a p ≡ true → dirs a ≡ true)
      → is_blocked t p ≡ false
      → is_blocked s p ≡ false
  is_blocked-Follows p t s f w h = open_all (ancestors p) t s f w h

  is_directory-Follows :
      (p : TreePath) (t s : Tree)
      → Follows t s
      → ((a : TreePath) → is_below p a ≡ true → dirs a ≡ true)
      → is_directory t p ≡ false
      → is_directory s p ≡ false
  is_directory-Follows p t s f w h = no_directory s p (λ q b. f q (w q b) (nothing_below t p q h b))

  is_open-Follows :
      (r : WalRecord) (t s : Tree)
      → Follows t s
      → ((a : TreePath) → needs_free r a ≡ true → dirs a ≡ true)
      → is_open t r ≡ true
      → is_open s r ≡ true
  is_open-Follows (begin b) t s f w h = refl
  is_open-Follows (end seq) t s f w h = refl
  is_open-Follows (delete p) t s f w h = ground (arith, is_blocked-Follows p t s f w)
  is_open-Follows (move from to hash) t s f w h = ground (
    arith,
    is_blocked-Follows to t s f (λ a x. w a (ground (arith, x))),
    is_directory-Follows (temporary to) t s f (λ a x. w a (ground (arith, x))),
  )

  module _ (sha1 : List ℕ → String) (work : Tree) where
    Follows-step :
        (r : WalRecord) (t t' s s' : Tree)
        → has_source work r ≡ true
        → apply_record sha1 work r t ≡ ok t'
        → apply_record sha1 work r s ≡ ok s'
        → Follows t s
        → Follows t' s'
    Follows-step r t t' s s' h e₁ e₂ f q d n = ground (
      arith,
      apply_record-lookup sha1 work r t t' h e₁ q,
      apply_record-lookup sha1 work r s s' h e₂ q,
      f q d,
    )

    -- The records run on a tree that follows one that they ran on.
    runs_again :
        (rs : List WalRecord) (t t' s : Tree)
        → all (has_source work) rs ≡ true
        → ((a : TreePath) → reserved rs a ≡ true → dirs a ≡ true)
        → Follows t s
        → apply_records sha1 work rs t ≡ ok t'
        → (s' : Tree) × (apply_records sha1 work rs s ≡ ok s')
    unfolding apply_records
    runs_again [] t t' s h w f e = (s, refl)
    runs_again (r ∷ rs) t t' s h w f e =
        let (t₁, e₁, e₂) = >>=-eq-ok (apply_record sha1 work r t) _ e in
        let h₁ : has_source work r ≡ true = ground arith in
        let w₁ : (a : TreePath) → needs_free r a ≡ true → dirs a ≡ true =
          λ a x. w a (ground arith) in
        let (s₁, d₁) =
          apply_record-ok sha1 work r s h₁
            (is_open-Follows r t s f w₁ (apply_record-is_open sha1 work r t t₁ h₁ e₁)) in
        let (s', d₂) =
          runs_again rs t₁ t' s₁ (ground arith) (λ a x. w a (ground arith))
            (Follows-step r t t₁ s s₁ h₁ e₁ d₁ f) e₂ in
        (s', rw d₁ d₂)

    same : (to q : TreePath) → to ≡ q → dirs to ≡ dirs q
    same to q e = ap dirs e

    writes_other : (to q : TreePath) → dirs q ≡ true → dirs to ≡ false → (to =? q) ≡ false
    writes_other to q d w = ground (arith, path_eq to q, same to q)

    effect-writes_none :
        (r : WalRecord) (q : TreePath)
        → dirs q ≡ true
        → writes_none dirs r ≡ true
        → unwrap_or none (effect work r q) ≡ none
    effect-writes_none (begin b) q d w = refl
    effect-writes_none (end seq) q d w = refl
    effect-writes_none (delete p) q d w = ground arith
    effect-writes_none (move from to hash) q d w = ground (arith, writes_other to q)

    -- Records that write none of the directories leave a tree that follows the one they ran on.
    run-Follows :
        (rs : List WalRecord) (t t' : Tree)
        → all (has_source work) rs ≡ true
        → all (writes_none dirs) rs ≡ true
        → apply_records sha1 work rs t ≡ ok t'
        → Follows t t'
    unfolding apply_records
    run-Follows [] t t' h w e q d n = ground arith
    run-Follows (r ∷ rs) t t' h w e q d n =
        let (t₁, e₁, e₂) = >>=-eq-ok (apply_record sha1 work r t) _ e in
        run-Follows rs t₁ t' (ground arith) (ground arith) e₂ q d (
          ground (
            arith,
            apply_record-lookup sha1 work r t t₁ (ground arith) e₁ q,
            effect-writes_none r q d,
          ))

effects-take :
    (work : Tree) (n : ℕ) (rs : List WalRecord) (q : TreePath)
    → effects work rs q ≡ none
    → effects work (take n rs) q ≡ none
effects-take work zero rs q h = refl
effects-take work (suc n) [] q h = refl
effects-take work (suc n) (r ∷ rs) q h = ground (arith, effects-take work n rs q)

effects-untouched :
    (work : Tree) (rs : List WalRecord) (n : ℕ) (r : WalRecord) (q : TreePath)
    → get_elem? rs n ≡ some r
    → effects work rs q ≡ none
    → is_touched r q ≡ false
effects-untouched work [] n r q g h = ground arith
effects-untouched work (x ∷ rs) zero r q g h = untouched x r (ground arith) (ground arith)
  where
    untouched : (x r : WalRecord) → x ≡ r → effect work x q ≡ none → is_touched r q ≡ false
    untouched x r e h = ap (λ y. is_touched y q) (sym e) ∙ own x h
      where
        own : (x : WalRecord) → effect work x q ≡ none → is_touched x q ≡ false
        own (move from to hash) h = ground arith
        own (delete p) h = ground arith
        own (begin b) h = refl
        own (end seq) h = refl
effects-untouched work (x ∷ rs) (suc n) r q g h = effects-untouched work rs n r q g (ground arith)

off_temporary :
    (dirs : TreePath → Bool) (rs : List WalRecord) (n : ℕ) (r : WalRecord) (q : TreePath)
    → get_elem? rs n ≡ some r
    → all (writes_none dirs) rs ≡ true
    → dirs q ≡ true
    → is_at_temporary r q ≡ false
off_temporary dirs [] n r q g h d = ground arith
off_temporary dirs (x ∷ rs) zero r q g h d =
    ap (λ y. is_at_temporary y q) (sym x_is_r) ∙ own x (ground arith)
  where
    x_is_r : x ≡ r
    x_is_r = ground arith

    own : (x : WalRecord) → writes_none dirs x ≡ true → is_at_temporary x q ≡ false
    own (move from to hash) w = ground (arith, d, same_path)
      where
        same_path : (q =? temporary to) ≡ true → dirs q ≡ dirs (temporary to)
        same_path i = ap dirs (path_eq q (temporary to) i)
    own (delete p) w = refl
    own (begin b) w = refl
    own (end seq) w = refl
off_temporary dirs (x ∷ rs) (suc n) r q g h d = off_temporary dirs rs n r q g (ground arith) d

module _ (sha1 : List ℕ → String) (work : Tree) where
  -- From a seed that has nothing more where nothing may be, and what it had where no record comes.
  again_from :
      (rs : List WalRecord) (seed resumed whole : Tree)
      → all (has_source work) rs ≡ true
      → apply_records sha1 work rs seed ≡ ok whole
      → Follows (reserved rs) seed resumed
      → ((q : TreePath) → effects work rs q ≡ none → lookup resumed q ≡ lookup seed q)
      → (again : Tree) × (apply_records sha1 work rs resumed ≡ ok again)
        × ((q : TreePath) → lookup again q ≡ lookup whole q)
  again_from rs seed resumed whole h e f same =
      let (again, d) = runs_again (reserved rs) sha1 work rs seed whole resumed h (λ a x. x) f e in
      (
        again,
        d,
        λ q. ground (
          arith,
          apply_records-lookup sha1 work rs seed whole h e q,
          apply_records-lookup sha1 work rs resumed again h d q,
          same q,
        ),
      )

  part-Follows :
      (rs : List WalRecord) (n : ℕ) (seed seed_then : Tree)
      → all (has_source work) rs ≡ true
      → keeps_directories rs ≡ true
      → apply_records sha1 work (take n rs) seed ≡ ok seed_then
      → Follows (reserved rs) seed seed_then
  part-Follows rs n seed seed_then h k e =
      run-Follows (reserved rs) sha1 work (take n rs) seed seed_then
        (all-take (has_source work) n rs h) (all-take (writes_none (reserved rs)) n rs k) e

  part-same :
      (rs : List WalRecord) (n : ℕ) (seed seed_then : Tree)
      → all (has_source work) rs ≡ true
      → apply_records sha1 work (take n rs) seed ≡ ok seed_then
      → (q : TreePath) → effects work rs q ≡ none
      → lookup seed_then q ≡ lookup seed q
  part-same rs n seed seed_then h e q o = ground (
    arith,
    apply_records-lookup sha1 work (take n rs) seed seed_then (all-take (has_source work) n rs h) e
        q,
    effects-take work n rs q,
    o,
  )

  -- Take records whose sources are files or links in the snapshot, where no written path, nor the
  -- temporary of one, is above a changed path or below a temporary, and which run on a seed. Run on
  -- that seed up to any record, then again from the start, they run to their end, and every path has
  -- the entry that the one whole run gives it.
  pub apply_records-again :
      (rs : List WalRecord) (n : ℕ) (seed seed_then whole : Tree)
      → all (has_source work) rs ≡ true
      → keeps_directories rs ≡ true
      → apply_records sha1 work rs seed ≡ ok whole
      → apply_records sha1 work (take n rs) seed ≡ ok seed_then
      → (again : Tree) × (apply_records sha1 work rs seed_then ≡ ok again)
        × ((q : TreePath) → lookup again q ≡ lookup whole q)
  apply_records-again rs n seed seed_then whole h k e e' =
      again_from rs seed seed_then whole h e (part-Follows rs n seed seed_then h k e')
        (part-same rs n seed seed_then h e')

  -- The same from the middle of a record.
  pub apply_records-amid :
      (rs : List WalRecord) (n : ℕ) (r : WalRecord) (seed seed_then amid whole : Tree)
      → all (has_source work) rs ≡ true
      → keeps_directories rs ≡ true
      → apply_records sha1 work rs seed ≡ ok whole
      → apply_records sha1 work (take n rs) seed ≡ ok seed_then
      → get_elem? rs n ≡ some r
      → IsAmid r seed_then amid
      → (again : Tree) × (apply_records sha1 work rs amid ≡ ok again)
        × ((q : TreePath) → lookup again q ≡ lookup whole q)
  apply_records-amid rs n r seed seed_then amid whole h k e e' g m =
      again_from rs seed amid whole h e
        (λ q d o.
          (m q).1 (off_temporary (reserved rs) rs n r q g k d)
            (part-Follows rs n seed seed_then h k e' q d o))
        (λ q o.
          (m q).0 (effects-untouched work rs n r q g o) ∙ part-same rs n seed seed_then h e' q o)
