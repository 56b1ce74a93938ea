-- ===== src/Base/Strings.antt =====
-- Text as the source builds it: `format!` by concatenation, and `join("/")`.
use Prim.Native.String.{String, ◌++◌ as append}
use mathlib.Core.List.{List, [], ◌∷◌}

infixr 65 ◌<>◌
abbrev pub ◌<>◌ : String → String → String
s <> t = append s t

-- `segments.join("/")`
unfoldable pub join_path : List String → String
join_path [] = ""
join_path (s ∷ []) = s
join_path (s ∷ t ∷ rest) = s <> "/" <> join_path (t ∷ rest)
