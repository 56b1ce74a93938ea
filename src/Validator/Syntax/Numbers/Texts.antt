-- ===== src/Validator/Syntax/Numbers/Texts.antt =====
-- An interner, whose symbols are numbers of texts.
use marsh.Base.{ℕ, ◌≡◌, refl, List, [], ◌∷◌}
use Prim.Native.Char.{code}
use Prim.Native.String.{String}
use text.Mathlib.TextEquality.{Char-path}
use marsh.Validator.Syntax.Component.{Interner}
use marsh.Validator.Syntax.Numbers.Codes.{pair, code_list, code_list-injective}

pub codes : String → List ℕ
codes String.[] = []
codes (String.◌∷◌ c s) = code c ∷ codes s

pub codes-injective : (s t : String) → codes s ≡ codes t → s ≡ t
unfolding codes
codes-injective String.[] String.[] h = refl
codes-injective String.[] (String.◌∷◌ d t) h = cc
codes-injective (String.◌∷◌ c s) String.[] h = cc
codes-injective (String.◌∷◌ c s) (String.◌∷◌ d t) h =
    let heads : code c ≡ code d = cc in
    let tails : codes s ≡ codes t = cc in cc (Char-path c d heads, codes-injective s t tails)

unfoldable pub intern : String → ℕ
unfolding codes code_list pair
intern s = code_list (codes s)

pub intern-injective : (s t : String) → intern s ≡ intern t → s ≡ t
unfolding intern
intern-injective s t h = codes-injective s t (code_list-injective (codes s) (codes t) h)

-- An interner whose symbols are the numbers of the texts.
unfoldable pub interner : Interner
unfolding intern
interner = record { intern = intern; intern_injective = intern-injective }
