-- ===== src/Mux/Purity/Tests.antt =====
-- A learned cache, the readers of two versions, and a normalized directory.
use marsh.Base.{true, ◌≡◌, refl, [], ◌∷◌, some, arith, string_has_eq, nat_has_eq}
use marsh.Mux.Purity.{
  pure, CommandKey, LearnedPurity, verdict_in, observe_learned, restore, restore_from,
}
use marsh.Mux.Purity.Restore.{verdict_in-observe_learned, restore-observe_learned}
use marsh.Mux.Paths.{seed_relative, seed_relative-contained}
use marsh.Mux.Readers.{Readers, IsKept}

abbrev list_files : CommandKey
list_files = record { cmd = "ls"; dir = "" }

abbrev list_elsewhere : CommandKey
list_elsewhere = record { cmd = "ls"; dir = "src" }

abbrev nothing : LearnedPurity
nothing = record { known = []; log = [] }

verdict_in-observe_learned_example :
    verdict_in (observe_learned nothing list_files pure).known list_files ≡ pure
verdict_in-observe_learned_example = verdict_in-observe_learned nothing list_files list_files pure

restore-nothing : restore [] ≡ nothing
unfolding restore restore_from
restore-nothing = refl

restore-observe_learned_example :
    restore (observe_learned nothing list_files pure).log ≡ observe_learned nothing list_files pure
restore-observe_learned_example = restore-observe_learned nothing list_files pure restore-nothing

-- Version 3 has one reader, version 2 none.
abbrev two_versions : Readers
two_versions = record { users = (3, 1) ∷ (2, 0) ∷ []; trees = (3, []) ∷ (2, []) ∷ [] }

no_readers : IsKept (record { users = []; trees = [] })
no_readers seq h = ground arith

two_versions-IsKept : IsKept two_versions
two_versions-IsKept seq h = ground arith

seed_relative-contained_example : (true ≡ true) × (seed_relative ("src" ∷ []) ≡ some ("src" ∷ []))
unfolding seed_relative
seed_relative-contained_example =
    seed_relative-contained ("" ∷ "src" ∷ "." ∷ "bin" ∷ ".." ∷ []) ("src" ∷ []) refl
