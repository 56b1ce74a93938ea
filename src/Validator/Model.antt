-- ===== src/Validator/Model.antt =====
-- rust-validator/src/model.rs: principals, resources, actions and events.
use marsh.Base.{
  ℕ, String, ◌≡◌, ◌↔◌, Bool, true, ◌&&◌, List, Option, none, arith, DecidableEq, ◌=?◌, =?_refl,
  option_beq_iff, option_has_eq, string_has_eq, nat_has_eq,
}

-- The newtypes over `String` and `Vec<String>`.
abbrev pub Principal : Type 0
Principal = String

abbrev pub Resource : Type 0
Resource = List String

pub data Action : Type 0 where
  read edit stage unstage : Action
  commit : Option String → Action
  checkout stash delete clean diff history : Action

pub record Event : Type 0 where
  pub principal : Principal
  pub action : Action
  pub resource : Resource

-- The derived equality compares the variants, then their fields.
abbrev pub discriminant : Action → ℕ
discriminant read = 0
discriminant edit = 1
discriminant stage = 2
discriminant unstage = 3
discriminant (commit _) = 4
discriminant checkout = 5
discriminant stash = 6
discriminant delete = 7
discriminant clean = 8
discriminant diff = 9
discriminant history = 10

abbrev pub message : Action → Option String
message (commit m) = m
message _ = none

abbrev pub action_beq : Action → Action → Bool
action_beq a b = (discriminant a =? discriminant b) && (message a =? message b)

of_discriminant : (a b : Action) → discriminant a ≡ discriminant b → message a ≡ message b → a ≡ b
of_discriminant read b h m = ground arith
of_discriminant a b h m = ground arith

pub action_beq_iff : (a b : Action) → (action_beq a b ≡ true) ↔ (a ≡ b)
action_beq_iff a b = (
  λ h.
      of_discriminant a b (ground (arith, option_beq_iff (message a) (message b)))
        (ground (arith, option_beq_iff (message a) (message b))),
  λ e. rw e (ground (arith, =?_refl (message b))),
)

instance abbrev pub action_has_eq : DecidableEq Action
action_has_eq = record { is_same = action_beq; is_same_iff = action_beq_iff }
