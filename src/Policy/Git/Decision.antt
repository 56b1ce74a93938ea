-- ===== src/Policy/Git/Decision.antt =====
-- policy/git/mod.rs: `GitPolicy`, and the table that its decisions implement. `new` panics in the
-- source where it is an error here.
use marsh.Base.{
  ◌≡◌, refl, Bool, true, false, not, ◌||◌, List, Option, none, arith, is_some_and, ◌=?◌,
  string_has_eq, list_has_eq,
}
use marsh.Base.Results.{Result, ok, ◌>>=◌}
use marsh.Validator.Model.{
  Principal, Resource, Action, Event, action_has_eq, read, edit, stage, unstage, commit, checkout,
  stash, delete, clean, diff, history,
}
use marsh.Validator.Engine.{Engine, CompileError}
use marsh.Policy.{
  PolicyDecision, grant, deny, CompiledPolicy, decide-compile_policy, compile_policy, decide,
  decide_source, compile_policy_total,
}
use marsh.Policy.Git.Diagnostics.{GitContext, git_context}
use marsh.Policy.Git.Rules.{git_rules}
use marsh.Policy.Git.States.{
  Row, is_settled, is_staged, is_unstaged_by, is_unstaged_by_other, row_of, last_reader,
  member-clean_lang, member-staged_lang, member-unstaged_self_lang, member-unstaged_other_lang,
  member-read_claimed_other_lang,
}

abbrev pub GitPolicy : Type 0 → Type 0
GitPolicy R = CompiledPolicy R GitContext

-- Commit candidates are matched with no message.
unfoldable pub probe_action : Action → Action
probe_action (commit _) = commit none
probe_action a = a

abbrev pub probe_of : Event → Event
probe_of candidate = record candidate { action = probe_action candidate.action }

module _ {R : Type 0} (engine : Engine R) where
  pub new : Result CompileError (GitPolicy R)
  new = compile_policy engine git_rules

  unfoldable pub git_decide : GitPolicy R → List Event → Event → PolicyDecision
  unfolding probe_action
  git_decide policy h candidate =
      decide engine policy h (probe_of candidate) (git_context h candidate)

  pub git_decision : List Event → Event → Result CompileError PolicyDecision
  unfolding new git_decide
  git_decision h candidate = do policy ← new; ok (git_decide policy h candidate)

  -- `GitPolicy::new` does not panic: every rule of the table compiles.
  pub new_total : (policy : GitPolicy R) × (new ≡ ok policy)
  unfolding new
  new_total = compile_policy_total engine git_rules refl

abbrev pub is_grant : PolicyDecision → Bool
is_grant grant = true
is_grant (deny _ _) = false

-- What the git table refuses a principal, by the row of the resource and whether another principal
-- holds the read claim.
abbrev pub refuses : Principal → Row → Bool → Action → Bool
refuses p row claimed edit = is_unstaged_by_other p row || claimed
refuses p row claimed checkout = is_unstaged_by_other p row || claimed
refuses p row claimed stage = not (is_unstaged_by p row)
refuses p row claimed stash = not (is_unstaged_by p row) || claimed
refuses p row claimed unstage = not (is_staged row)
refuses p row claimed (commit _) = not (is_staged row)
refuses p row claimed delete = not (is_settled row) || claimed
refuses p row claimed clean = is_unstaged_by_other p row || claimed
refuses p row claimed read = false
refuses p row claimed diff = false
refuses p row claimed history = false

-- Another principal was the last to read the resource.
abbrev pub claimed_by_other : Principal → Option Principal → Bool
claimed_by_other p reader = is_some_and (λ q. not (p =? q)) reader

module _ (p : Principal) (r : Resource) (h : List Event) (context : GitContext) where
  table :
      (a : Action)
      → is_grant (
          decide_source git_rules h
            (record { principal = p; action = probe_action a; resource = r })
            context)
        ≡ not (refuses p (row_of r h) (claimed_by_other p (last_reader r h)) a)
  unfolding decide_source probe_action row_of
  table (commit m) = ground (
    arith,
    member-clean_lang p r h,
    member-unstaged_self_lang p r h,
    member-unstaged_other_lang p r h,
  )
  table a = ground (
    arith,
    member-clean_lang p r h,
    member-staged_lang p r h,
    member-unstaged_self_lang p r h,
    member-unstaged_other_lang p r h,
    member-read_claimed_other_lang p r h,
  )

module _ {R : Type 0} (engine : Engine R) (policy : GitPolicy R)
    (built : new engine ≡ ok policy) where
  -- With any engine, the git policy grants a candidate exactly when the table does not refuse it,
  -- whatever the action, the committed history and the commit message.
  pub git_decide-table :
      (h : List Event) (c : Event)
      → is_grant (git_decide engine policy h c)
        ≡ not (
            refuses c.principal
              (row_of c.resource h)
              (claimed_by_other c.principal (last_reader c.resource h))
              c.action)
  unfolding new git_decide
  git_decide-table h c =
      rw (decide-compile_policy engine git_rules policy built h (probe_of c) (git_context h c))
        (table c.principal c.resource h (git_context h c) c.action)
