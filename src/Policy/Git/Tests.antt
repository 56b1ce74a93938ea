-- ===== src/Policy/Git/Tests.antt =====
-- The git table on small histories, with an engine that runs rules by their meaning.
use marsh.Base.{
  ◌↔◌, String, retain, ◌≡◌, ◌≢◌, refl, true, false, List, [], ◌∷◌, ◌++◌, some, if◌then◌else◌, ap,
  arith, string_has_eq, list_has_eq,
}
use marsh.Base.Results.{Result, ok, err}
use marsh.Validator.Model.{Event, Resource, read, edit, stage, commit, checkout, delete}
use marsh.Validator.Source.{Rule}
use marsh.Validator.Language.{tail_accepts}
use marsh.Validator.Engine.{Engine, CompileError, unbound_variable, well_scoped}
use marsh.Policy.{compile_policy, decide-is_broken, compile_policy_total, decide, answer, is_broken}
use marsh.Policy.Git.Rules.{git_rules}
use marsh.Policy.Git.Diagnostics.{git_context}
use marsh.Policy.Git.States.{row_of, last_reader, last_row}
use marsh.Policy.Git.Decision.{GitPolicy, new, new_total, git_decide, git_decide-table, is_grant}
use marsh.Policy.Git.Capabilities.{claims_for, active_git_capability_indices}
use marsh.Policy.Git.Active.{contains, is_claimed, active-iff_claimed}
use marsh.Policy.Git.Ownership.{event, edit_excludes_others, owner_stages_and_commits}
use marsh.Policy.Git.Owners.{git_context-names}

unfoldable pub compile_checked : Rule → Result CompileError Rule
compile_checked rule = if well_scoped rule then ok rule else err (unbound_variable "")

pub compile_checked-ok : (rule : Rule) → well_scoped rule ≡ true → compile_checked rule ≡ ok rule
unfolding compile_checked
compile_checked-ok rule h = ap (λ b. if b then ok rule else err (unbound_variable "")) h

pub compile_checked-same : (rule r : Rule) → compile_checked rule ≡ ok r → r ≡ rule
unfolding compile_checked
compile_checked-same rule r h = ground arith

abbrev pub by_meaning : Engine Rule
by_meaning = record {
  compile_rule = compile_checked;
  accepts_history = tail_accepts;
  compile_total = λ rule h. (rule, compile_checked-ok rule h);
  accepts_history_lem =
      λ rule r h c e. ap (λ x. tail_accepts x h c) (compile_checked-same rule r e);
}

abbrev pub policy : GitPolicy Rule
policy = (new_total by_meaning).0

pub built : new by_meaning ≡ ok policy
built = (new_total by_meaning).1

abbrev file : Resource
file = "src" ∷ "main.rs" ∷ []

abbrev alice_edits : List Event
alice_edits = event "bob" read file ∷ event "alice" edit file ∷ []

git_decide-table_example :
    is_grant (git_decide by_meaning policy alice_edits (event "bob" checkout file)) ≡ false
unfolding row_of last_reader last_row
git_decide-table_example =
    git_decide-table by_meaning policy built alice_edits (event "bob" checkout file)

bob_is_not_alice : ◌≢◌ {A = String} "bob" "alice"
bob_is_not_alice h = ground (arith, h, string_has_eq.is_same_iff "bob" "alice")

edit_excludes_others_example :
    is_grant (
      git_decide by_meaning policy
        ([] ++ event "alice" edit file ∷ event "bob" read file ∷ [])
        (event "bob" delete file))
    ≡ false
edit_excludes_others_example =
    edit_excludes_others by_meaning policy built [] (event "bob" read file ∷ []) "alice" "bob" file
      delete bob_is_not_alice refl refl

abbrev alice_owns : List Event
alice_owns = event "bob" read file ∷ event "alice" edit file ∷ event "bob" read file ∷ []

owner_stages_and_commits_example :
    (is_grant (git_decide by_meaning policy alice_owns (event "alice" stage file)) ≡ true)
    × (is_grant (
          git_decide by_meaning policy
            (alice_owns ++ event "alice" stage file ∷ [])
            (event "alice" (commit (some "done")) file))
        ≡ true)
owner_stages_and_commits_example =
    owner_stages_and_commits by_meaning policy built (event "bob" read file ∷ [])
      (event "bob" read file ∷ []) "alice" file (some "done") refl

git_context-names_example :
    ((git_context alice_edits (event "bob" edit file)).owner ≡ "alice")
    × ((git_context alice_edits (event "bob" edit file)).reader ≡ "bob")
unfolding row_of last_reader last_row
git_context-names_example = git_context-names alice_edits (event "bob" edit file)

new_total_example : (compiled : GitPolicy Rule) × (new by_meaning ≡ ok compiled)
new_total_example = new_total by_meaning

abbrev compiled : GitPolicy Rule
compiled = (compile_policy_total by_meaning git_rules refl).0

compiles : compile_policy by_meaning git_rules ≡ ok compiled
compiles = (compile_policy_total by_meaning git_rules refl).1

decide-is_broken_example :
    decide by_meaning compiled alice_edits
      (event "bob" checkout file)
      (git_context [] (event "bob" checkout file))
    ≡ answer
        (retain (is_broken alice_edits (event "bob" checkout file)) git_rules)
        (git_context [] (event "bob" checkout file))
decide-is_broken_example =
    decide-is_broken by_meaning git_rules compiled compiles alice_edits (event "bob" checkout file)
      (git_context [] (event "bob" checkout file))

active-iff_claimed_example :
    (contains 1 (active_git_capability_indices alice_edits) ≡ true)
    ↔ ((r : Resource) × (is_claimed (claims_for alice_edits r) 1 ≡ true))
active-iff_claimed_example = active-iff_claimed alice_edits 1
