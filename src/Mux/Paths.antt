-- ===== src/Mux/Paths.antt =====
-- shellmux/src/mux.rs, `seed_relative`: a directory of the seed, normalized by its text alone. The
-- components are those that splitting at `/` gives.
use marsh.Base.{
  String, ◌≡◌, refl, ap, sym, Bool, true, not, ◌&&◌, ◌||◌, List, [], ◌∷◌, ◌++◌, Option, none, some,
  arith, ◌=?◌, all, string_has_eq, Option-cases, inl, inr, if◌then◌else◌,
}
use mathlib.Core.List.{append_assoc, append-nil}

-- `segments.pop()?`
unfoldable pub pop : List String → Option (List String)
pop [] = none
pop (s ∷ []) = some []
pop (s ∷ t ∷ segments) = elim (pop (t ∷ segments)) [ none ↦ none | some rest ↦ some (s ∷ rest) ]

-- The loop, with the segments so far.
unfoldable pub normalize : List String → List String → Option (List String)
unfolding pop
normalize segments [] = some segments
normalize segments (c ∷ cs) =
    if c =? "" || c =? "."
    then normalize segments cs
    else if c =? ".."
    then elim (pop segments) [ none ↦ none | some rest ↦ normalize rest cs ]
    else normalize (segments ++ c ∷ []) cs

unfoldable pub seed_relative : List String → Option (List String)
unfolding normalize
seed_relative components = normalize [] components

-- A component that names something.
abbrev pub is_name : String → Bool
is_name c = not (c =? "" || (c =? "." || c =? ".."))

pop-names : (ps qs : List String) → all is_name ps ≡ true → pop ps ≡ some qs → all is_name qs ≡ true
unfolding pop
pop-names [] qs h e = ground arith
pop-names (s ∷ []) qs h e = ground arith
pop-names (s ∷ t ∷ ps) [] h e = refl
pop-names (s ∷ t ∷ ps) (q ∷ qs) h e = elim (Option-cases (pop (t ∷ ps))) [
  | inl n ↦ ground (arith, n)
  | inr (rest, n) ↦ ground (arith, n, pop-names (t ∷ ps) rest)
]

all-append : (f : String → Bool) (xs ys : List String) → all f (xs ++ ys) ≡ (all f xs && all f ys)
all-append f [] ys = refl
all-append f (x ∷ xs) ys = ground (arith, all-append f xs ys)

normalize-names :
    (cs ps qs : List String)
    → all is_name ps ≡ true
    → normalize ps cs ≡ some qs
    → all is_name qs ≡ true
unfolding normalize
normalize-names [] ps qs h e = ground arith
normalize-names (c ∷ cs) ps qs h e = elim (Option-cases (pop ps)) [
  | inl n ↦ ground (
    arith,
    n,
    normalize-names cs ps qs h,
    normalize-names cs (ps ++ c ∷ []) qs,
    all-append is_name ps (c ∷ []),
  )
  | inr (rest, n) ↦ ground (
    arith,
    n,
    normalize-names cs ps qs h,
    normalize-names cs rest qs (pop-names ps rest h n),
    normalize-names cs (ps ++ c ∷ []) qs,
    all-append is_name ps (c ∷ []),
  )
]

normalize-kept : (cs ps : List String) → all is_name cs ≡ true → normalize ps cs ≡ some (ps ++ cs)
unfolding normalize
normalize-kept [] ps h = ap some (sym (append-nil ps))
normalize-kept (c ∷ cs) ps h =
    ground (arith, normalize-kept cs (ps ++ c ∷ []), append_assoc ps (c ∷ []) cs)

-- A directory that is accepted names no parent and no place but below the seed: each of its
-- components is a name, and normalizing it again changes nothing.
pub seed_relative-contained :
    (components dir : List String)
    → seed_relative components ≡ some dir
    → (all is_name dir ≡ true) × (seed_relative dir ≡ some dir)
unfolding seed_relative
seed_relative-contained components dir e =
    let names = normalize-names components [] dir refl e in (names, normalize-kept dir [] names)
