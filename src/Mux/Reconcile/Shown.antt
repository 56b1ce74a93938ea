-- ===== src/Mux/Reconcile/Shown.antt =====
-- reconcile.rs: what the git state of the seed shows of a resource, and that `corroborated` asks for it.
use marsh.Base.{
  String, ◌≡◌, refl, sym, ap, ◌∙◌, Bool, true, false, not, ◌&&◌, ◌||◌, List, [], ◌∷◌, ◌++◌, map,
  Option, none, some, arith, any, if◌then◌else◌,
}
use mathlib.Core.List.{reverse, reverse-cons, reverse-reverse}
use marsh.Validator.Model.{Resource}
use marsh.Mux.Tree.{ancestors}
use marsh.Mux.Reconcile.{
  Status, FileStatus, not_found, other_error, found, GitState, Row, unstaged, staged,
  worktree_dirty, has_staged, repo_root, status_shows, corroborated_in, corroborated_below,
}

-- The last directory of a list with a `.git` entry; `has_git` takes the last segment first.
abbrev last_root : (List String → Bool) → List (List String) → Option (List String)
last_root has_git [] = none
last_root has_git (d ∷ ds) = elim (last_root has_git ds) [
  | some root ↦ some root
  | none ↦ if has_git (reverse d) then some (reverse d) else none
]

-- A change in the worktree, a conflict or a file that cannot be read.
abbrev pub is_dirty : Status → Bool
is_dirty s =
    any (λ bit. bit)
      (s.conflicted ∷ s.wt_unreadable ∷ s.wt_renamed ∷ s.wt_typechange ∷ s.wt_deleted
        ∷ s.wt_modified ∷ s.wt_new ∷ [])

abbrev pub is_indexed : Status → Bool
is_indexed s =
    any (λ bit. bit)
      (s.index_typechange ∷ s.index_renamed ∷ s.index_deleted ∷ s.index_modified ∷ s.index_new ∷ [])

abbrev pub shows_unstaged : FileStatus → Bool
shows_unstaged (found s) = is_dirty s
shows_unstaged other_error = true
shows_unstaged not_found = false

abbrev pub shows_staged : FileStatus → Bool
shows_staged (found s) = not (is_dirty s) && is_indexed s
shows_staged other_error = true
shows_staged not_found = false

-- The nearest repository above the resource and not above the seed does not open, or its answer for
-- the resource passes the test. Without a repository nothing is shown.
abbrev pub is_shown : GitState → (FileStatus → Bool) → Resource → Bool
is_shown git shows r = elim (last_root git.has_git (ancestors r)) [
  | none ↦ false
  | some root ↦ not (git.opens root) || shows (git.status_file root r)
]

abbrev shows_row : Row → FileStatus → Bool
shows_row unstaged = shows_unstaged
shows_row staged = shows_staged

map-append :
    (s : String) (xs ys : List (List String))
    → map (λ p. s ∷ p) (xs ++ ys) ≡ map (λ p. s ∷ p) xs ++ map (λ p. s ∷ p) ys
map-append s [] ys = refl
map-append s (x ∷ xs) ys = ap (λ zs. (s ∷ x) ∷ zs) (map-append s xs ys)

ancestors-snoc : (p : List String) (s : String) → ancestors (p ++ s ∷ []) ≡ ancestors p ++ (p ∷ [])
ancestors-snoc [] s = refl
ancestors-snoc (t ∷ p) s =
    ap (λ ds. [] ∷ map (λ q. t ∷ q) ds) (ancestors-snoc p s)
    ∙ ap (λ ds. [] ∷ ds) (map-append t (ancestors p) (p ∷ []))

last_root-snoc :
    (has_git : List String → Bool) (ds : List (List String)) (d : List String)
    → last_root has_git (ds ++ d ∷ [])
      ≡ (if has_git (reverse d) then some (reverse d) else last_root has_git ds)
last_root-snoc has_git [] d = ground arith
last_root-snoc has_git (e ∷ ds) d = ground (arith, last_root-snoc has_git ds d)

-- The walk upwards finds the last of the directories above the path.
repo_root-last_root :
    (has_git : List String → Bool) (above : List String) (file : String)
    → repo_root has_git above ≡ last_root has_git (ancestors (reverse (file ∷ above)))
unfolding repo_root
repo_root-last_root has_git [] file = refl
repo_root-last_root has_git (s ∷ above) file =
    ap (λ o. if has_git (s ∷ above) then some (s ∷ above) else o)
      (repo_root-last_root has_git above s)
    ∙ ap (λ d. if has_git d then some d else last_root has_git (ancestors (reverse (s ∷ above))))
        (sym (reverse-reverse (s ∷ above)))
    ∙ sym (last_root-snoc has_git (ancestors (reverse (s ∷ above))) (reverse (s ∷ above)))
    ∙ ap (last_root has_git) (sym (ancestors-snoc (reverse (s ∷ above)) file))
    ∙ ap (λ p. last_root has_git (ancestors p)) (sym (reverse-cons file (s ∷ above)))

status_shows-shows_row :
    (row : Row) (answer : FileStatus) → status_shows row answer ≡ shows_row row answer
unfolding worktree_dirty has_staged
status_shows-shows_row unstaged answer = ground arith
status_shows-shows_row staged answer = ground arith

module _ (git : GitState) (row : Row) where
  corroborated_in-root :
      (r : Resource) (root : Option (List String))
      → corroborated_in git row r root ≡ elim root [
        | none ↦ false
        | some d ↦ not (git.opens d) || shows_row row (git.status_file d r)
      ]
  corroborated_in-root r none = refl
  corroborated_in-root r (some d) = ground (arith, status_shows-shows_row row (git.status_file d r))

  corroborated_below-is_shown :
      (r : Resource) (up : List String)
      → reverse up ≡ r
      → corroborated_below git row r up ≡ is_shown git (shows_row row) r
  corroborated_below-is_shown r [] e = ap (is_shown git (shows_row row)) e
  corroborated_below-is_shown r (file ∷ above) e =
      corroborated_in-root r (repo_root git.has_git above)
      ∙ ap
          (λ (o : Option (List String)). elim o [
            | none ↦ false
            | some d ↦ not (git.opens d) || shows_row row (git.status_file d r)
          ])
          (repo_root-last_root git.has_git above file
            ∙ ap (λ p. last_root git.has_git (ancestors p)) e)

  -- The code asks for what the git state shows.
  pub corroborated-is_shown :
      (r : Resource) → corroborated_below git row r (reverse r) ≡ is_shown git (shows_row row) r
  corroborated-is_shown r = corroborated_below-is_shown r (reverse r) (reverse-reverse r)
