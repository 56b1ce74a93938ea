-- ===== src/Policy/Git/Diagnostics.antt =====
-- diagnostics.rs: what a denial says.
use marsh.Base.{
  ℕ, String, Bool, true, false, List, [], ◌∷◌, Option, none, some, get_elem?, unwrap_or,
  if◌then◌else◌,
}
use marsh.Base.Strings.{◌<>◌, join_path}
use marsh.Validator.Model.{Action, Event, edit, unstage}
use marsh.Policy.Git.Capabilities.{claims_for}

pub record GitContext : Type 0 where
  pub principal : String
  pub resource : String
  pub owner : String
  pub reader : String

abbrev is_unstaging : Action → Bool
is_unstaging edit = true
is_unstaging unstage = true
is_unstaging _ = false

-- `claims.row.and_then(|index| history.get(index))`, and so for `read`.
abbrev pub event_at : List Event → Option ℕ → Option Event
event_at h none = none
event_at h (some i) = get_elem? h i

abbrev row_principal : Option Event → Option String
row_principal none = none
row_principal (some e) = if is_unstaging e.action then some e.principal else none

abbrev read_principal : Option Event → Option String
read_principal none = none
read_principal (some e) = some e.principal

unfoldable pub git_context : List Event → Event → GitContext
unfolding claims_for join_path
git_context h candidate =
    let claims = claims_for h candidate.resource in
    record {
      principal = candidate.principal;
      resource = join_path candidate.resource;
      owner = unwrap_or "another principal" (row_principal (event_at h claims.row));
      reader = unwrap_or "another principal" (read_principal (event_at h claims.read));
    }

-- Owner-protection fixes and read-claim fixes.
unfoldable pub opf : String → String → String → List String
opf p r q =
    (q <> " stage " <> r)
    ∷ (q <> " checkout " <> r)
    ∷ (q <> " stash " <> r)
    ∷ (p <> " only reads, diffs, or histories " <> r)
    ∷ []

unfoldable pub rcf : String → String → List String
rcf p r = (p <> " read " <> r) ∷ []
