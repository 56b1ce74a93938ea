-- ===== src/Base/Options.antt =====
-- Rust's `Option`, with what its `?` does as the bind of a `do` block.
use mathlib.Core.Option.{Option, none, some}

infixl 5 ◌>>=◌
abbrev pub ◌>>=◌ : {A B : Type 0} → Option A → (A → Option B) → Option B
none >>= f = none
some a >>= f = f a
