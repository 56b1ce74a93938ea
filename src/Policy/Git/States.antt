-- ===== src/Policy/Git/States.antt =====
-- What the languages of languages.rs say of a history: the state that it leaves a resource in.
use marsh.Base.{
  ◌≡◌, ap, ◌∙◌, fun_ext, Bool, true, false, not, List, [], ◌∷◌, Option, none, some, arith, ◌=?◌,
  is_none, is_some_and, all, is_empty, unwrap_or, list_has_eq, string_has_eq, if◌then◌else◌,
}
use marsh.Validator.Model.{
  Principal, Resource, Action, Event, action_has_eq, read, edit, stage, unstage, commit, checkout,
  stash, delete, clean, diff, history,
}
use marsh.Validator.Source.{TestExpr}
use marsh.Validator.Language.{Bindings, principal_value, resource_value, holds, member}
use marsh.Validator.Language.Words.{
  splits, single, splits-is_empty, repeats-single, splits-all-single, ends_with, last_set,
  all-last_set, ends_with-last_set,
}
use marsh.Policy.{last_state_change, never_state_change}
use marsh.Policy.Git.Predicates.{
  read_only_not_r, stage_delete_on_r, edit_unstage_on_r_on_p, edit_unstage_on_r_not_p,
  commit_checkout_stash_on_r, read_on_r_not_p, not_read_on_r, clean_lang, staged_lang,
  unstaged_self_lang, unstaged_other_lang, read_claimed_other_lang,
}

-- The row of a resource: settled, staged, or unstaged by a principal.
pub data Row : Type 0 where
  settled staged : Row
  unstaged : Principal → Row

abbrev pub row_after : Action → Principal → Option Row
row_after edit q = some (unstaged q)
row_after unstage q = some (unstaged q)
row_after stage q = some staged
row_after delete q = some staged
row_after (commit _) q = some settled
row_after checkout q = some settled
row_after stash q = some settled
row_after read q = none
row_after clean q = none
row_after diff q = none
row_after history q = none

-- The row that an event puts `r` in, if it changes the row.
abbrev pub row_set : Resource → Event → Option Row
row_set r e = if r =? e.resource then row_after e.action e.principal else none

abbrev is_read : Action → Bool
is_read read = true
is_read _ = false

-- The principal that takes the read claim on `r`, if the event reads `r`.
abbrev pub claim_set : Resource → Event → Option Principal
claim_set r e =
    if r =? e.resource then (if is_read e.action then some e.principal else none) else none

-- The last change of the row in a history, and the last reader.
unfoldable pub last_row : Resource → List Event → Option Row
last_row r = last_set (row_set r)

unfoldable pub last_reader : Resource → List Event → Option Principal
last_reader r = last_set (claim_set r)

abbrev pub is_settled : Row → Bool
is_settled settled = true
is_settled _ = false

abbrev pub is_staged : Row → Bool
is_staged staged = true
is_staged _ = false

abbrev pub is_unstaged_by : Principal → Row → Bool
is_unstaged_by p (unstaged q) = p =? q
is_unstaged_by p _ = false

abbrev pub is_unstaged_by_other : Principal → Row → Bool
is_unstaged_by_other p (unstaged q) = not (p =? q)
is_unstaged_by_other p _ = false

abbrev pub bindings : Principal → Resource → Bindings
bindings p r = ("p", principal_value p) ∷ ("r", resource_value r) ∷ []

module _ (b : Bindings) (setter stable : TestExpr) where
  member-stable : (h : List Event) → member b (never_state_change stable) h ≡ all (holds b stable) h
  unfolding member
  member-stable h = repeats-single (holds b stable) h

  stable_tail :
      (h : List Event)
      → splits (member b (never_state_change stable)) is_empty h ≡ all (holds b stable) h
  stable_tail h = splits-is_empty _ h ∙ member-stable h

  member-last_state_change :
      (h : List Event)
      → member b (last_state_change setter stable) h ≡ ends_with (holds b setter) (holds b stable) h
  unfolding member
  member-last_state_change h =
      ap (λ g. splits (λ _. true) (splits (single (holds b setter)) g) h) (fun_ext stable_tail)
      ∙ splits-all-single (holds b setter) (holds b stable) h

module _ (p : Principal) (r : Resource) where
  stable_row : (e : Event) → holds (bindings p r) read_only_not_r e ≡ is_none (row_set r e)
  unfolding holds
  stable_row e = ground arith

  setter_staged :
      (e : Event) → holds (bindings p r) stage_delete_on_r e ≡ is_some_and is_staged (row_set r e)
  unfolding holds
  setter_staged e = ground arith

  setter_settled :
      (e : Event)
      → holds (bindings p r) commit_checkout_stash_on_r e ≡ is_some_and is_settled (row_set r e)
  unfolding holds
  setter_settled e = ground arith

  setter_self :
      (e : Event)
      → holds (bindings p r) edit_unstage_on_r_on_p e ≡ is_some_and (is_unstaged_by p) (row_set r e)
  unfolding holds
  setter_self e = ground arith

  setter_other :
      (e : Event)
      → holds (bindings p r) edit_unstage_on_r_not_p e
        ≡ is_some_and (is_unstaged_by_other p) (row_set r e)
  unfolding holds
  setter_other e = ground arith

  stable_claim : (e : Event) → holds (bindings p r) not_read_on_r e ≡ is_none (claim_set r e)
  unfolding holds
  stable_claim e = ground arith

  setter_claim :
      (e : Event)
      → holds (bindings p r) read_on_r_not_p e ≡ is_some_and (λ q. not (p =? q)) (claim_set r e)
  unfolding holds
  setter_claim e = ground arith

  pub member-clean_lang :
      (h : List Event)
      → member (bindings p r) clean_lang h ≡ is_settled (unwrap_or settled (last_row r h))
  unfolding member last_row
  member-clean_lang h = ground (
    arith,
    member-stable (bindings p r) read_only_not_r read_only_not_r h,
    member-last_state_change (bindings p r) commit_checkout_stash_on_r read_only_not_r h,
    all-last_set (row_set r) _ stable_row h,
    ends_with-last_set (row_set r) _ _ is_settled stable_row setter_settled h,
  )

  pub member-staged_lang :
      (h : List Event)
      → member (bindings p r) staged_lang h ≡ is_staged (unwrap_or settled (last_row r h))
  unfolding last_row
  member-staged_lang h = ground (
    arith,
    member-last_state_change (bindings p r) stage_delete_on_r read_only_not_r h,
    ends_with-last_set (row_set r) _ _ is_staged stable_row setter_staged h,
  )

  pub member-unstaged_self_lang :
      (h : List Event)
      → member (bindings p r) unstaged_self_lang h
        ≡ is_unstaged_by p (unwrap_or settled (last_row r h))
  unfolding last_row
  member-unstaged_self_lang h = ground (
    arith,
    member-last_state_change (bindings p r) edit_unstage_on_r_on_p read_only_not_r h,
    ends_with-last_set (row_set r) _ _ (is_unstaged_by p) stable_row setter_self h,
  )

  pub member-unstaged_other_lang :
      (h : List Event)
      → member (bindings p r) unstaged_other_lang h
        ≡ is_unstaged_by_other p (unwrap_or settled (last_row r h))
  unfolding last_row
  member-unstaged_other_lang h = ground (
    arith,
    member-last_state_change (bindings p r) edit_unstage_on_r_not_p read_only_not_r h,
    ends_with-last_set (row_set r) _ _ (is_unstaged_by_other p) stable_row setter_other h,
  )

  pub member-read_claimed_other_lang :
      (h : List Event)
      → member (bindings p r) read_claimed_other_lang h
        ≡ is_some_and (λ q. not (p =? q)) (last_reader r h)
  unfolding last_reader
  member-read_claimed_other_lang h = ground (
    arith,
    member-last_state_change (bindings p r) read_on_r_not_p not_read_on_r h,
    ends_with-last_set (claim_set r) _ _ (λ q. not (p =? q)) stable_claim setter_claim h,
  )

-- The row of `r` after a whole history: settled, until an event changes it.
unfoldable pub row_of : Resource → List Event → Row
row_of r h = unwrap_or settled (last_row r h)
