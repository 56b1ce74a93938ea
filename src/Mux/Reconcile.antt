-- ===== src/Mux/Reconcile.antt =====
-- shellmux/src/reconcile.rs: at a restart, the claims of the history that the git state of the seed
-- still shows. Directories below the seed are their segments, the last first. Git is a parameter;
-- opening a repository is a function of its root, so the cache of open repositories is left out.
pub mod Shown
pub mod Rows
pub mod Restart
use marsh.Base.{
  ℕ, zero, suc, String, Bool, true, false, not, ◌&&◌, ◌||◌, List, [], ◌∷◌, ◌++◌, Option, none, some,
  is_some_and, get_elem?, retain, if◌then◌else◌, nat_has_eq, ◌=?◌,
}
use mathlib.Core.List.{reverse}
use marsh.Validator.Model.{
  Resource, Action, Event, read, edit, stage, unstage, commit, checkout, stash, delete, clean, diff,
  history,
}
use marsh.Policy.Git.Capabilities.{active_git_capability_indices}

-- The bits of `git2::Status` that are tested.
pub record Status : Type 0 where
  pub wt_new : Bool
  pub wt_modified : Bool
  pub wt_deleted : Bool
  pub wt_typechange : Bool
  pub wt_renamed : Bool
  pub wt_unreadable : Bool
  pub conflicted : Bool
  pub index_new : Bool
  pub index_modified : Bool
  pub index_deleted : Bool
  pub index_renamed : Bool
  pub index_typechange : Bool

-- What `status_file` returns.
pub data FileStatus : Type 0 where
  not_found other_error : FileStatus
  found : Status → FileStatus

-- What git and the file system say of the seed: which directories have a `.git` entry, which
-- repositories open, and the status of a file, its segments in order, in the repository of a root.
pub record GitState : Type 0 where
  pub has_git : List String → Bool
  pub opens : List String → Bool
  pub status_file : List String → Resource → FileStatus

pub data Row : Type 0 where
  unstaged staged : Row

unfoldable pub row_of : Action → Option Row
row_of edit = some unstaged
row_of unstage = some unstaged
row_of stage = some staged
row_of delete = some staged
row_of (commit _) = none
row_of checkout = none
row_of stash = none
row_of read = none
row_of diff = none
row_of history = none
row_of clean = none

unfoldable pub worktree_dirty : Status → Bool
worktree_dirty s =
    s.wt_new || s.wt_modified || s.wt_deleted || s.wt_typechange || s.wt_renamed || s.wt_unreadable
    || s.conflicted

unfoldable pub has_staged : Status → Bool
has_staged s =
    s.index_new || s.index_modified || s.index_deleted || s.index_renamed || s.index_typechange

-- gitshell.rs: the nearest directory with a `.git` entry, not above the seed.
unfoldable pub repo_root : (List String → Bool) → List String → Option (List String)
repo_root has_git [] = if has_git [] then some [] else none
repo_root has_git (s ∷ above) =
    if has_git (s ∷ above) then some (s ∷ above) else repo_root has_git above

abbrev pub shows : Row → Status → Bool
shows unstaged s = worktree_dirty s
shows staged s = has_staged s && not (worktree_dirty s)

abbrev pub status_shows : Row → FileStatus → Bool
status_shows row not_found = false
status_shows row other_error = true
status_shows row (found s) = shows row s

-- The ordered walk, from index `i` on.
unfoldable pub walk : ℕ → List ℕ → List Event → List Event
walk i js [] = []
walk i [] (e ∷ h) = walk (suc i) [] h
walk i (j ∷ js) (e ∷ h) = if j =? i then e ∷ walk (suc i) js h else walk (suc i) (j ∷ js) h

module _ (git : GitState) where
  -- In the repository of the root, if there is one.
  abbrev pub corroborated_in : Row → Resource → Option (List String) → Bool
  corroborated_in row r none = false
  corroborated_in row r (some root) =
      if git.opens root then status_shows row (git.status_file root r) else true

  -- The seed itself has its parent outside, where no repository is looked for.
  abbrev pub corroborated_below : Row → Resource → List String → Bool
  corroborated_below row r [] = false
  corroborated_below row r (file ∷ parent) = corroborated_in row r (repo_root git.has_git parent)

  unfoldable pub corroborated : Event → Bool
  unfolding row_of worktree_dirty has_staged repo_root
  corroborated e =
      is_some_and (λ row. corroborated_below row e.resource (reverse e.resource)) (row_of e.action)

  -- `corroborated` of the event at an index.
  abbrev pub is_retained : List Event → ℕ → Bool
  is_retained h i = is_some_and corroborated (get_elem? h i)

  unfoldable pub reconcile : List Event → List Event
  unfolding corroborated active_git_capability_indices walk
  reconcile h = walk 0 (retain (is_retained h) (active_git_capability_indices h)) h
