-- ===== src/Policy/Git/Rules.antt =====
-- rules.rs: the table of 23 deny cells, each with the text of its denial.
use marsh.Base.{[], ◌∷◌, ◌++◌, List, none}
use marsh.Base.Strings.{◌<>◌}
use marsh.Validator.Model.{edit, stage, unstage, commit, checkout, stash, delete, clean}
use marsh.Policy.{PolicyRule, forbid_rule}
use marsh.Policy.Git.Predicates.{
  clean_lang, staged_lang, unstaged_self_lang, unstaged_other_lang, read_claimed_other_lang,
}
use marsh.Policy.Git.Diagnostics.{GitContext, opf, rcf}

-- Row cells 1-2.
abbrev pub edit_and_checkout_row_rules : List (PolicyRule GitContext)
edit_and_checkout_row_rules =
    forbid_rule edit unstaged_other_lang (λ c. (
      c.resource <> " is unstaged by " <> c.owner <> "; " <> c.principal
          <> " may read, diff, or history it but may not edit it",
      opf c.principal c.resource c.owner,
    ))
    ∷ forbid_rule checkout unstaged_other_lang (λ c. (
      c.resource <> " is unstaged by " <> c.owner <> "; checkout would discard or replace "
          <> c.owner <> "'s dirty resource",
      opf c.principal c.resource c.owner,
    ))
    ∷ []

-- Row cells 3-5.
abbrev pub stage_row_rules : List (PolicyRule GitContext)
stage_row_rules =
    forbid_rule stage clean_lang (λ c. (
      "stage requires an unstaged resource owned by the acting principal",
      (c.principal <> " edit " <> c.resource <> " before staging") ∷ [],
    ))
    ∷ forbid_rule stage staged_lang (λ c. (
      "stage requires an unstaged resource owned by the acting principal",
      (c.principal <> " unstage " <> c.resource <> " before staging again") ∷ [],
    ))
    ∷ forbid_rule stage unstaged_other_lang (λ c. (
      c.resource <> " is unstaged by " <> c.owner <> "; only " <> c.owner <> " may stage it",
      opf c.principal c.resource c.owner,
    ))
    ∷ []

-- Row cells 6-8.
abbrev pub stash_row_rules : List (PolicyRule GitContext)
stash_row_rules =
    forbid_rule stash clean_lang (λ c. (
      "stash requires an unstaged resource owned by the acting principal",
      (c.principal <> " edit " <> c.resource <> " before stashing") ∷ [],
    ))
    ∷ forbid_rule stash staged_lang (λ c. (
      "stash requires an unstaged resource owned by the acting principal",
      (c.principal <> " unstage " <> c.resource <> " before stashing") ∷ [],
    ))
    ∷ forbid_rule stash unstaged_other_lang (λ c. (
      c.resource <> " is unstaged by " <> c.owner <> "; only " <> c.owner <> " may stash it",
      opf c.principal c.resource c.owner,
    ))
    ∷ []

-- Row cells 9-11.
abbrev pub unstage_row_rules : List (PolicyRule GitContext)
unstage_row_rules =
    forbid_rule unstage unstaged_other_lang
      (λ c. ("unstage requires a staged resource", opf c.principal c.resource c.owner))
    ∷ forbid_rule unstage clean_lang (λ c. (
      "unstage requires a staged resource",
      (c.principal <> " stage " <> c.resource <> " before unstaging") ∷ [],
    ))
    ∷ forbid_rule unstage unstaged_self_lang (λ c. (
      "unstage requires a staged resource",
      (c.principal <> " stage " <> c.resource <> " before unstaging") ∷ [],
    ))
    ∷ []

-- Row cells 12-14. The head is the commit with no message.
abbrev pub commit_row_rules : List (PolicyRule GitContext)
commit_row_rules =
    forbid_rule (commit none) clean_lang (λ c. (
      "commit requires a staged resource",
      (c.principal <> " edit " <> c.resource)
          ∷ (c.principal <> " stage " <> c.resource <> " before committing")
          ∷ [],
    ))
    ∷ forbid_rule (commit none) unstaged_self_lang (λ c. (
      "commit requires a staged resource",
      (c.principal <> " stage " <> c.resource <> " before committing") ∷ [],
    ))
    ∷ forbid_rule (commit none) unstaged_other_lang
        (λ c. ("commit requires a staged resource", opf c.principal c.resource c.owner))
    ∷ []

-- Row cells 15-18.
abbrev pub delete_and_clean_row_rules : List (PolicyRule GitContext)
delete_and_clean_row_rules =
    forbid_rule delete staged_lang (λ c. (
      "delete requires a resource with no staged or unstaged changes",
      (c.principal <> " commit " <> c.resource <> " before deleting")
          ∷ (c.principal <> " checkout " <> c.resource <> " before deleting")
          ∷ [],
    ))
    ∷ forbid_rule delete unstaged_self_lang (λ c. (
      "delete requires a resource with no staged or unstaged changes",
      (c.principal <> " checkout " <> c.resource <> " before deleting")
          ∷ (c.principal <> " stash " <> c.resource <> " before deleting")
          ∷ [],
    ))
    ∷ forbid_rule delete unstaged_other_lang (λ c. (
      c.resource <> " is unstaged by " <> c.owner <> "; delete would discard " <> c.owner
          <> "'s dirty resource",
      opf c.principal c.resource c.owner,
    ))
    ∷ forbid_rule clean unstaged_other_lang (λ c. (
      c.resource <> " is unstaged by " <> c.owner <> "; clean would discard " <> c.owner
          <> "'s dirty resource",
      opf c.principal c.resource c.owner,
    ))
    ∷ []

-- Claim cells 19-23.
abbrev pub read_claim_rules : List (PolicyRule GitContext)
read_claim_rules =
    forbid_rule edit read_claimed_other_lang (λ c. (
      c.resource <> " was last read by " <> c.reader <> "; " <> c.principal
          <> " must read it before editing it",
      rcf c.principal c.resource,
    ))
    ∷ forbid_rule delete read_claimed_other_lang (λ c. (
      c.resource <> " was last read by " <> c.reader <> "; " <> c.principal
          <> " must read it before deleting it",
      rcf c.principal c.resource,
    ))
    ∷ forbid_rule clean read_claimed_other_lang (λ c. (
      c.resource <> " was last read by " <> c.reader <> "; " <> c.principal
          <> " must read it before cleaning it",
      rcf c.principal c.resource,
    ))
    ∷ forbid_rule checkout read_claimed_other_lang (λ c. (
      c.resource <> " was last read by " <> c.reader <> "; " <> c.principal
          <> " must read it before checking it out",
      rcf c.principal c.resource,
    ))
    ∷ forbid_rule stash read_claimed_other_lang (λ c. (
      c.resource <> " was last read by " <> c.reader <> "; " <> c.principal
          <> " must read it before stashing it",
      rcf c.principal c.resource,
    ))
    ∷ []

abbrev pub git_rules : List (PolicyRule GitContext)
git_rules =
    edit_and_checkout_row_rules
    ++ (stage_row_rules
        ++ (stash_row_rules
            ++ (unstage_row_rules
                ++ (commit_row_rules ++ (delete_and_clean_row_rules ++ read_claim_rules)))))
