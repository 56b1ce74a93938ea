-- ===== src/Mux/Tree.antt =====
-- shellmux/src/wal.rs, `apply_write` and `apply_remove`, over the entries of a tree (diff.rs). A
-- path is kept as its segments, where the source joins them with `/`. As in the source's
-- `diff_trees`, directories are implicit: a path is one when an entry is below it, so creating the
-- parents of a write and pruning the empty parents of a removal change no entry. A symbolic link
-- that stands for a directory on the way to a path is not followed: it blocks the path as a file
-- does.
use marsh.Base.{
  ◌≡◌, ℕ, String, Bool, true, false, not, ◌&&◌, List, [], ◌∷◌, map, Option, none, some, ◌=?◌, any,
  retain, is_none, is_empty, ◌||◌, list_has_eq, string_has_eq, if◌then◌else◌,
}
use marsh.Base.Strings.{◌<>◌}
use marsh.Base.Results.{Result, ok, err}

abbrev pub TreePath : Type 0
TreePath = List String

pub path_eq : (p q : TreePath) → (p =? q) ≡ true → p ≡ q
path_eq p q = (list_has_eq.is_same_iff p q).0

-- A file with its bytes and permission bits, a link with its target, anything else with its mode.
pub data Entry : Type 0 where
  file : List ℕ → ℕ → Entry
  symlink : List ℕ → Entry
  other : ℕ → Entry

abbrev pub Tree : Type 0
Tree = List (TreePath × Entry)

pub data MuxError : Type 0 where
  wal_error : String → MuxError
  not_a_directory : TreePath → MuxError
  not_found : TreePath → MuxError
  occupied : TreePath → MuxError
  invalid_input : TreePath → MuxError
  invalid_terminal_size : ℕ → ℕ → MuxError

abbrev pub lookup : Tree → TreePath → Option Entry
lookup [] p = none
lookup ((q, e) ∷ t) p = if q =? p then some e else lookup t p

-- `p` is `q` or a directory above it.
abbrev pub covers : TreePath → TreePath → Bool
covers [] q = true
covers (s ∷ p) [] = false
covers (s ∷ p) (s' ∷ q) = (s =? s') && covers p q

-- The directories above a path, from the root on.
abbrev pub ancestors : TreePath → List TreePath
ancestors [] = []
ancestors (s ∷ p) = [] ∷ map (λ q. s ∷ q) (ancestors p)

-- Something that is not a directory stands on the way to the path.
abbrev pub is_blocked : Tree → TreePath → Bool
is_blocked t p = any (λ a. not (is_none (lookup t a))) (ancestors p)

abbrev pub is_directory : Tree → TreePath → Bool
is_directory t p = any (λ (q, e). covers p q && not (q =? p)) t

-- `symlink_metadata().is_ok()`
abbrev pub exists : Tree → TreePath → Bool
exists t p = if is_none (lookup t p) then is_directory t p else true

-- The tree without a path and what is below it.
abbrev pub without : Tree → TreePath → Tree
without t p = retain (λ (q, e). not (covers p q)) t

abbrev pub temporary_suffix : String
temporary_suffix = ".tmp-wal"

-- The temporary beside the target. The root has no name, and is refused below.
abbrev pub temporary : TreePath → TreePath
temporary [] = []
temporary (name ∷ []) = (name <> temporary_suffix) ∷ []
temporary (s ∷ t ∷ p) = s ∷ temporary (t ∷ p)

-- What a copy of the source gives; a source with no entry is a directory. `fs::copy` takes nothing
-- but files.
abbrev pub copied : Option Entry → Option Entry
copied (some (file bytes mode)) = some (file bytes mode)
copied (some (symlink to)) = some (symlink to)
copied (some (other mode)) = none
copied none = none

-- `remove_file(&temporary)`, whose failure on a directory is ignored.
unfoldable pub clear_temporary : Tree → TreePath → Tree
clear_temporary t p = if is_directory t (temporary p) then t else without t (temporary p)

-- The entry replaces what is at the path, a directory included; `create_dir_all` fails on a path
-- that something blocks. The copy goes to the temporary first, which replaces an entry there and
-- fails on a directory, and the temporary is then renamed.
unfoldable pub apply_write : Tree → TreePath → Option Entry → Result MuxError Tree
apply_write t p source =
    if is_blocked t p
    then err (not_a_directory p)
    else if is_empty p
    then err (wal_error "the write target has no name")
    else elim (copied source) [
      | none ↦ err (invalid_input p)
      | some e ↦
          if is_directory t (temporary p)
          then err (occupied (temporary p))
          else ok ((p, e) ∷ without (without t (temporary p)) p)
    ]

-- What a failed write leaves: the temporary is gone before the copy is tried.
unfoldable pub write_left : Tree → TreePath → Tree
unfolding clear_temporary
write_left t p = if is_blocked t p || is_empty p then t else clear_temporary t p

-- An absent path is tolerated. `symlink_metadata` of a blocked path is `ENOTDIR`, which is not
-- `NotFound`.
unfoldable pub apply_remove : Tree → TreePath → Result MuxError Tree
apply_remove t p = if is_blocked t p then err (not_a_directory p) else ok (without t p)
