-- ===== src/Policy/Git/Capabilities.antt =====
-- capabilities.rs: which events of a history are still active claims. A map from resources to their
-- claims is an association list; its order does not matter, since the indices are sorted.
use marsh.Base.{
  ℕ, suc, List, [], ◌∷◌, ◌++◌, Option, none, some, ◌=?◌, leb, list_has_eq, string_has_eq,
  if◌then◌else◌,
}
use marsh.Validator.Model.{
  Action, Event, Resource, read, edit, stage, unstage, commit, checkout, stash, delete, clean, diff,
  history,
}

pub record Claims : Type 0 where
  pub row : Option ℕ
  pub read : Option ℕ

-- `Claims::default()`
abbrev pub no_claims : Claims
no_claims = record { row = none; read = none }

unfoldable pub apply : Claims → Action → ℕ → Claims
apply c edit i = record c { row = some i }
apply c unstage i = record c { row = some i }
apply c stage i = record c { row = some i }
apply c delete i = record c { row = some i }
apply c (commit _) i = record c { row = none }
apply c checkout i = record c { row = none }
apply c stash i = record c { row = none }
apply c read i = record c { read = some i }
apply c clean i = c
apply c diff i = c
apply c history i = c

-- The loop of `claims_for`, from the event at index `i` on.
unfoldable pub claims_from : ℕ → Claims → List Event → Resource → Claims
unfolding apply
claims_from i c [] r = c
claims_from i c (e ∷ h) r =
    claims_from (suc i) (if e.resource =? r then apply c e.action i else c) h r

unfoldable pub claims_for : List Event → Resource → Claims
unfolding claims_from
claims_for h r = claims_from 0 no_claims h r

abbrev pub ClaimMap : Type 0
ClaimMap = List (Resource × Claims)

-- `apply(claims.entry(resource).or_default(), action, index)`
unfoldable pub apply_at : ClaimMap → Event → ℕ → ClaimMap
unfolding apply
apply_at [] e i = (e.resource, apply no_claims e.action i) ∷ []
apply_at ((r, c) ∷ m) e i =
    if r =? e.resource then (r, apply c e.action i) ∷ m else (r, c) ∷ apply_at m e i

unfoldable pub all_claims_from : ℕ → ClaimMap → List Event → ClaimMap
unfolding apply_at
all_claims_from i m [] = m
all_claims_from i m (e ∷ h) = all_claims_from (suc i) (apply_at m e i) h

abbrev pub option_list {ℓ} : {A : Type ℓ} → Option A → List A
option_list none = []
option_list (some a) = a ∷ []

unfoldable pub claimed_indices : ClaimMap → List ℕ
claimed_indices [] = []
claimed_indices ((r, c) ∷ m) = option_list c.row ++ (option_list c.read ++ claimed_indices m)

-- `sort_unstable`
unfoldable pub insert_sorted : ℕ → List ℕ → List ℕ
insert_sorted i [] = i ∷ []
insert_sorted i (j ∷ js) = if leb i j then i ∷ j ∷ js else j ∷ insert_sorted i js

unfoldable pub sort : List ℕ → List ℕ
unfolding insert_sorted
sort [] = []
sort (i ∷ is) = insert_sorted i (sort is)

unfoldable pub active_git_capability_indices : List Event → List ℕ
unfolding all_claims_from claimed_indices sort
active_git_capability_indices h = sort (claimed_indices (all_claims_from 0 [] h))
