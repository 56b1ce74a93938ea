-- ===== src/Validator/Stateful/Tests.antt =====
-- A validator that forbids a deletion by a principal that has edited something before.
use marsh.Base.{String, ◌≡◌, refl, false, List, [], ◌∷◌, some}
use marsh.Base.Results.{ok}
use marsh.Validator.Model.{Event, Action}
use marsh.Validator.Source.{
  constant, variable, eq, principal_atom, action_atom, atom, all_of, all, test, concat_of, Rule,
  forbid,
}
use marsh.Validator.Language.{tail_accepts, holds}
use marsh.Validator.Language.Words.{splits}
use marsh.Validator.Stateful.{
  Request, RuntimeRule, Validator, compile_rules, check, checkpoint, rollback,
}
use marsh.Validator.Stateful.Checks.{
  is_granted, satisfies, check-satisfies, check_all, rollback-checkpoint,
}
use marsh.Policy.Git.Tests.{by_meaning, compile_checked}

abbrev edited_before : Rule
edited_before = record {
  mode = forbid;
  head = record {
    principal = variable "p";
    action = constant Action.delete;
    resource = variable "r";
  };
  tail = concat_of (
      all
      ∷ test (
          all_of (
            atom eq (principal_atom (variable "p"))
            ∷ atom eq (action_atom (constant Action.edit))
            ∷ []))
      ∷ all
      ∷ []);
}

abbrev by : String → Action → Event
by p a = record { principal = p; action = a; resource = "f" ∷ [] }

abbrev deletion : Request String
deletion = record { event = by "p0" Action.delete; metadata = "m" }

abbrev runtime : List (RuntimeRule Rule)
runtime = record { runtime = edited_before; mode = forbid } ∷ []

compiles : compile_rules by_meaning (edited_before ∷ []) ≡ ok runtime
unfolding compile_rules compile_checked
compiles = refl

abbrev edited : Validator Rule
edited = record { rules = runtime; history = by "p0" Action.edit ∷ [] }

refused : satisfies (edited_before ∷ []) (by "p0" Action.edit ∷ []) (by "p0" Action.delete) ≡ false
unfolding tail_accepts splits holds
refused = refl

check-satisfies_example :
    (is_granted (check by_meaning edited deletion).0 ≡ false)
    × ((check by_meaning edited deletion).1 ≡ edited)
unfolding tail_accepts splits holds
check-satisfies_example =
    check-satisfies by_meaning (edited_before ∷ []) runtime (by "p0" Action.edit ∷ []) deletion
      compiles

rollback-checkpoint_example :
    rollback
      (check_all by_meaning edited
        (deletion ∷ record { event = by "p1" Action.delete; metadata = "n" } ∷ []))
      (checkpoint edited)
    ≡ some edited
rollback-checkpoint_example =
    rollback-checkpoint by_meaning edited
      (deletion ∷ record { event = by "p1" Action.delete; metadata = "n" } ∷ [])
