-- ===== src/Policy/Git/Predicates.antt =====
-- predicates.rs and languages.rs: one-event git tests over the head's principal `p` and resource
-- `r`, and the languages of the states that a history leaves `r` in.
use marsh.Base.{[], ◌∷◌}
use marsh.Validator.Model.{read, edit, stage, unstage, delete, clean, diff, history}
use marsh.Validator.Source.{eq, neq, TestExpr, all_of, any_of, RegexExpr, union_of}
use marsh.Policy.{principal_is, resource_is, action_is, last_state_change, never_state_change}

abbrev pub read_only_not_r : TestExpr
read_only_not_r = any_of (
    resource_is neq
    ∷ action_is read eq
    ∷ action_is diff eq
    ∷ action_is history eq
    ∷ action_is clean eq
    ∷ [])

abbrev pub stage_delete_on_r : TestExpr
stage_delete_on_r =
    all_of (resource_is eq ∷ any_of (action_is stage eq ∷ action_is delete eq ∷ []) ∷ [])

abbrev pub edit_unstage_on_r_on_p : TestExpr
edit_unstage_on_r_on_p =
    all_of (
      resource_is eq
      ∷ any_of (action_is edit eq ∷ action_is unstage eq ∷ [])
      ∷ principal_is eq
      ∷ [])

abbrev pub edit_unstage_on_r_not_p : TestExpr
edit_unstage_on_r_not_p = all_of (
    resource_is eq ∷ any_of (action_is edit eq ∷ action_is unstage eq ∷ []) ∷ principal_is neq ∷ [])

abbrev pub commit_checkout_stash_on_r : TestExpr
commit_checkout_stash_on_r = all_of (
    resource_is eq
    ∷ action_is read neq
    ∷ action_is diff neq
    ∷ action_is history neq
    ∷ action_is edit neq
    ∷ action_is stage neq
    ∷ action_is unstage neq
    ∷ action_is delete neq
    ∷ action_is clean neq
    ∷ [])

abbrev pub read_on_r_not_p : TestExpr
read_on_r_not_p = all_of (resource_is eq ∷ action_is read eq ∷ principal_is neq ∷ [])

abbrev pub not_read_on_r : TestExpr
not_read_on_r = any_of (resource_is neq ∷ action_is read neq ∷ [])

abbrev pub clean_lang : RegexExpr
clean_lang = union_of (
    never_state_change read_only_not_r
    ∷ last_state_change commit_checkout_stash_on_r read_only_not_r
    ∷ [])

abbrev pub staged_lang : RegexExpr
staged_lang = last_state_change stage_delete_on_r read_only_not_r

abbrev pub unstaged_self_lang : RegexExpr
unstaged_self_lang = last_state_change edit_unstage_on_r_on_p read_only_not_r

abbrev pub unstaged_other_lang : RegexExpr
unstaged_other_lang = last_state_change edit_unstage_on_r_not_p read_only_not_r

abbrev pub read_claimed_other_lang : RegexExpr
read_claimed_other_lang = last_state_change read_on_r_not_p not_read_on_r
