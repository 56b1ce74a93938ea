-- ===== src/Validator/Stateful.antt =====
-- rust-validator/src/validator.rs: a fixed rule list over a committed history, which a granted
-- request extends and a rollback cuts. The compiled rules are those of an engine.
pub mod Checks
pub mod Tests
use marsh.Base.{
  ℕ, String, Bool, true, false, not, leb, List, [], ◌∷◌, ◌++◌, Option, none, some, length, take,
  if◌then◌else◌,
}
use marsh.Base.Results.{Result, ok, err, ◌>>=◌}
use marsh.Base.Strings.{◌<>◌}
use marsh.Validator.Model.{Event}
use marsh.Validator.Source.{Rule, RuleMode, require, forbid}
use marsh.Validator.Engine.{Engine, CompileError}

-- model.rs: a request and its grant carry metadata of the caller.
pub record Request (Metadata : Type 0) : Type 0 where
  pub event : Event
  pub metadata : Metadata

pub record Grant (Metadata : Type 0) : Type 0 where
  pub event : Event
  pub metadata : Metadata

pub record Denial : Type 0 where
  pub mode : RuleMode
  pub event : Event
  pub message : String

pub data Decision (Metadata : Type 0) : Type 0 where
  granted : Grant Metadata → Decision Metadata
  denied : Denial → Decision Metadata

pub record RuntimeRule (R : Type 0) : Type 0 where
  pub runtime : R
  pub mode : RuleMode

pub record Validator (R : Type 0) : Type 0 where
  pub rules : List (RuntimeRule R)
  pub history : List Event

abbrev pub is_violated : RuleMode → Bool → Bool
is_violated require accepted = not accepted
is_violated forbid accepted = accepted

abbrev relation : RuleMode → String
relation require = "does not satisfy required"
relation forbid = "satisfies forbidden"

module _ {R : Type 0} (engine : Engine R) where
  -- `add_rule` for each rule, then `finish`.
  unfoldable pub compile_rules : List Rule → Result CompileError (List (RuntimeRule R))
  compile_rules [] = ok []
  compile_rules (rule ∷ rules) = do
    runtime ← engine.compile_rule rule
    rest ← compile_rules rules
    ok (record { runtime = runtime; mode = rule.mode } ∷ rest)

  unfoldable pub finish : List Rule → Result CompileError (Validator R)
  unfolding compile_rules
  finish rules = do compiled ← compile_rules rules; ok (record { rules = compiled; history = [] })

  -- The first violated rule; a head that does not match does not fire.
  unfoldable pub first_violated : List (RuntimeRule R) → List Event → Event → Option RuleMode
  first_violated [] history event = none
  first_violated (rule ∷ rules) history event =
      let rest = first_violated rules history event in
      elim (engine.accepts_history rule.runtime history event) [
        | none ↦ rest
        | some accepted ↦ if is_violated rule.mode accepted then some rule.mode else rest
      ]

  unfoldable pub check :
      {Metadata : Type 0} → Validator R → Request Metadata → Decision Metadata × Validator R
  unfolding first_violated
  check validator request = elim (first_violated validator.rules validator.history request.event) [
    | some mode ↦ (
      denied (record {
        mode = mode;
        event = request.event;
        message = "committed history " <> relation mode <> " past-regex rule";
      }),
      validator,
    )
    | none ↦ (
      granted (record { event = request.event; metadata = request.metadata }),
      record validator { history = validator.history ++ request.event ∷ [] },
    )
  ]

unfoldable pub checkpoint : {R : Type 0} → Validator R → ℕ
checkpoint validator = length validator.history

-- `none` is the panic on a checkpoint past the history.
unfoldable pub rollback : {R : Type 0} → Validator R → ℕ → Option (Validator R)
rollback validator position =
    if leb position (length validator.history)
    then some (record validator { history = take position validator.history })
    else none
