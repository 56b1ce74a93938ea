-- ===== src/Mux/Diff/Paths.antt =====
-- shellmux/src/diff.rs: lemmas on selections and orders of paths, and on trees whose entries stand
-- above no other.
use marsh.Base.{
  String, ◌≡◌, refl, ap, ◌∙◌, Bool, true, false, not, ◌&&◌, ◌||◌, List, [], ◌∷◌, ◌++◌, map, some,
  arith, ◌=?◌, =?_refl, all, any, is_none, list_has_eq, nat_has_eq, string_has_eq,
}
use marsh.Mux.Tree.{
  TreePath, Tree, Entry, file, symlink, other, path_eq, lookup, covers, ancestors, is_blocked,
}
use marsh.Mux.Commit.Again.{is_above}
use marsh.Mux.Commit.Stuck.{blocked_above}
use marsh.Mux.Diff.{entry_beq, select, insert_by, sort_by}

-- No entry of the tree stands above another.
abbrev pub is_tree : Tree → Bool
is_tree t = all (λ (p, e). not (is_blocked t p)) t

pub entry_beq-true : (a b : Entry) → entry_beq a b ≡ true → a ≡ b
entry_beq-true (file b m) (file b' m') h =
    ap (λ l. file l m) ((list_has_eq.is_same_iff b b').0 (ground arith))
    ∙ ap (file b') ((nat_has_eq.is_same_iff m m').0 (ground arith))
entry_beq-true (symlink t) (symlink t') h = ap symlink ((list_has_eq.is_same_iff t t').0 h)
entry_beq-true (other m) (other m') h = ap other ((nat_has_eq.is_same_iff m m').0 h)
entry_beq-true a b h = ground arith

any-map-cons :
    (s s' : String) (p : TreePath) (qs : List TreePath)
    → any (λ q. q =? (s ∷ p)) (map (λ q. s' ∷ q) qs) ≡ (s' =? s) && any (λ q. q =? p) qs
any-map-cons s s' p [] = ground arith
any-map-cons s s' p (q ∷ qs) = ground (arith, any-map-cons s s' p qs)

covers-cases : (p q : TreePath) → covers p q ≡ true → ((p =? q) || is_above p q) ≡ true
covers-cases [] [] h = refl
covers-cases [] (s ∷ q) h = refl
covers-cases (s ∷ p) [] h = ground arith
covers-cases (s ∷ p) (s' ∷ q) h = ground (
  arith,
  covers-cases p q,
  any-map-cons s s' p (ancestors q),
  string_has_eq.is_same_iff s s',
  =?_refl s,
)

module _ (f : TreePath → Bool) (le : TreePath → TreePath → Bool) where
  any-insert_by :
      (p : TreePath) (qs : List TreePath) → any f (insert_by le p qs) ≡ (f p || any f qs)
  unfolding insert_by
  any-insert_by p [] = refl
  any-insert_by p (q ∷ qs) = ground (arith, any-insert_by p qs)

  pub any-sort_by : (ps : List TreePath) → any f (sort_by le ps) ≡ any f ps
  unfolding sort_by
  any-sort_by [] = refl
  any-sort_by (p ∷ ps) = any-insert_by p (sort_by le ps) ∙ ap (λ b. f p || b) (any-sort_by ps)

  all-insert_by :
      (p : TreePath) (qs : List TreePath) → all f (insert_by le p qs) ≡ (f p && all f qs)
  unfolding insert_by
  all-insert_by p [] = refl
  all-insert_by p (q ∷ qs) = ground (arith, all-insert_by p qs)

  pub all-sort_by : (ps : List TreePath) → all f (sort_by le ps) ≡ all f ps
  unfolding sort_by
  all-sort_by [] = refl
  all-sort_by (p ∷ ps) = all-insert_by p (sort_by le ps) ∙ ap (λ b. f p && b) (all-sort_by ps)

pub all-append :
    (f : TreePath → Bool) (xs ys : List TreePath) → all f (xs ++ ys) ≡ (all f xs && all f ys)
all-append f [] ys = refl
all-append f (x ∷ xs) ys = ground (arith, all-append f xs ys)

pub any-append :
    (f : TreePath → Bool) (xs ys : List TreePath) → any f (xs ++ ys) ≡ (any f xs || any f ys)
any-append f [] ys = refl
any-append f (x ∷ xs) ys = ground (arith, any-append f xs ys)

-- What holds of every path of the tree that the test selects holds of the selection.
pub all-select :
    (f : TreePath → Entry → Bool) (g : TreePath → Bool) (t : Tree)
    → ((p : TreePath) (e : Entry) → is_none (lookup t p) ≡ false → f p e ≡ true → g p ≡ true)
    → all g (select f t) ≡ true
unfolding select
all-select f g [] h = refl
all-select f g ((p, e) ∷ t) h =
    let rest = all-select f g t (λ q e' i. h q e' (ground arith)) in
    ground (arith, rest, h p e (ground (arith, =?_refl p)))

pub any-select :
    (f : TreePath → Entry → Bool) (t : Tree) (q : TreePath) (e : Entry)
    → lookup t q ≡ some e
    → f q e ≡ true
    → any (λ p. p =? q) (select f t) ≡ true
unfolding select
any-select f [] q e l h = ground arith
any-select f ((p, e') ∷ t) q e l h = ground (arith, any-select f t q e, moved)
  where
    moved : (p =? q) ≡ true → f p e ≡ f q e
    moved i = ap (λ r. f r e) (path_eq p q i)

-- An entry of a tree has no entry above it.
pub unblocked :
    (full t : Tree) (q : TreePath)
    → all (λ (p, e). not (is_blocked full p)) t ≡ true
    → is_none (lookup t q) ≡ false
    → is_blocked full q ≡ false
unblocked full [] q h n = ground arith
unblocked full ((p, e) ∷ t) q h n = ground (arith, unblocked full t q, same)
  where
    same : (p =? q) ≡ true → is_blocked full p ≡ is_blocked full q
    same i = ap (is_blocked full) (path_eq p q i)

pub not-above :
    (t : Tree) (p q : TreePath)
    → is_tree t ≡ true
    → is_none (lookup t p) ≡ false
    → is_none (lookup t q) ≡ false
    → covers p q ≡ true
    → (p =? q) ≡ true
not-above t p q h i j c =
    ground (arith, covers-cases p q c, blocked_above t p q, unblocked t t q h j)
