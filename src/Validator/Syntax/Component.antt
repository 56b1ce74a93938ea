-- ===== src/Validator/Syntax/Component.antt =====
-- rust-validator/src/syntax/component.rs: resolved values and patterns, and the substitution that a
-- head makes. The string interner is a parameter: equal texts, and only those, have one symbol.
use marsh.Base.{
  ℕ, String, ◌≡◌, ◌↔◌, Bool, true, false, not, ◌&&◌, List, [], ◌∷◌, ◌++◌, map, Option, none, some,
  arith, DecidableEq, ◌=?◌, =?_refl, option_beq_iff, option_has_eq, list_has_eq, nat_has_eq, any,
  is_some_and, if◌then◌else◌,
}
use marsh.Validator.Model.{Principal, Action, Resource, Event}
use marsh.Validator.Source.{ComponentPattern, constant, variable}

-- `DefaultSymbol` is a number.
abbrev pub Symbol : Type 0
Symbol = ℕ

pub record Interner : Type 0 where
  pub intern : String → Symbol
  pub intern_injective : (s t : String) → intern s ≡ intern t → s ≡ t

pub data ResolvedAction : Type 0 where
  read edit stage unstage : ResolvedAction
  commit : Option Symbol → ResolvedAction
  checkout stash delete clean diff history : ResolvedAction

abbrev pub ResolvedResource : Type 0
ResolvedResource = List Symbol

pub data ResolvedValue : Type 0 where
  principal_value : Symbol → ResolvedValue
  action_value : ResolvedAction → ResolvedValue
  resource_value : ResolvedResource → ResolvedValue

abbrev pub resolved_discriminant : ResolvedAction → ℕ
resolved_discriminant read = 0
resolved_discriminant edit = 1
resolved_discriminant stage = 2
resolved_discriminant unstage = 3
resolved_discriminant (commit _) = 4
resolved_discriminant checkout = 5
resolved_discriminant stash = 6
resolved_discriminant delete = 7
resolved_discriminant clean = 8
resolved_discriminant diff = 9
resolved_discriminant history = 10

abbrev pub resolved_message : ResolvedAction → Option Symbol
resolved_message (commit m) = m
resolved_message _ = none

abbrev resolved_action_beq : ResolvedAction → ResolvedAction → Bool
resolved_action_beq a b =
    (resolved_discriminant a =? resolved_discriminant b)
    && (resolved_message a =? resolved_message b)

pub of_resolved_discriminant :
    (a b : ResolvedAction)
    → resolved_discriminant a ≡ resolved_discriminant b
    → resolved_message a ≡ resolved_message b
    → a ≡ b
of_resolved_discriminant read b h m = ground arith
of_resolved_discriminant a b h m = ground arith

pub resolved_action_beq_iff : (a b : ResolvedAction) → (resolved_action_beq a b ≡ true) ↔ (a ≡ b)
resolved_action_beq_iff a b = (
  λ h.
      of_resolved_discriminant a b
        (ground (arith, option_beq_iff (resolved_message a) (resolved_message b)))
        (ground (arith, option_beq_iff (resolved_message a) (resolved_message b))),
  λ e. rw e (ground (arith, =?_refl (resolved_message b))),
)

instance abbrev pub resolved_action_has_eq : DecidableEq ResolvedAction
resolved_action_has_eq = record {
  is_same = resolved_action_beq;
  is_same_iff = resolved_action_beq_iff;
}

abbrev pub resolved_value_beq : ResolvedValue → ResolvedValue → Bool
resolved_value_beq (principal_value p) (principal_value q) = p =? q
resolved_value_beq (action_value a) (action_value b) = a =? b
resolved_value_beq (resource_value r) (resource_value s) = r =? s
resolved_value_beq _ _ = false

-- A constant or a variable, in one component.
abbrev pub CompiledPattern : Type 0 → Type 0
CompiledPattern T = ComponentPattern T Symbol

module _ {T : Type 0} ⦃e : DecidableEq T⦄ where
  abbrev pattern_beq : CompiledPattern T → CompiledPattern T → Bool
  pattern_beq (constant a) (constant b) = a =? b
  pattern_beq (variable x) (variable y) = x =? y
  pattern_beq _ _ = false

  pub pattern_beq_iff : (p q : CompiledPattern T) → (pattern_beq p q ≡ true) ↔ (p ≡ q)
  pattern_beq_iff (constant a) (constant b) = ground (arith, e.is_same_iff a b)
  pattern_beq_iff (constant a) (variable y) = ground arith
  pattern_beq_iff (variable x) (constant b) = ground arith
  pattern_beq_iff (variable x) (variable y) = ground arith

instance abbrev pub pattern_has_eq :
    {T : Type 0} ⦃e : DecidableEq T⦄ → DecidableEq (CompiledPattern T)
pattern_has_eq = record { is_same = pattern_beq; is_same_iff = pattern_beq_iff }

pub data CompiledAtomPattern : Type 0 where
  principal_atom : CompiledPattern Symbol → CompiledAtomPattern
  action_atom : CompiledPattern ResolvedAction → CompiledAtomPattern
  resource_atom : CompiledPattern ResolvedResource → CompiledAtomPattern

abbrev atom_beq : CompiledAtomPattern → CompiledAtomPattern → Bool
atom_beq (principal_atom p) (principal_atom q) = p =? q
atom_beq (action_atom p) (action_atom q) = p =? q
atom_beq (resource_atom p) (resource_atom q) = p =? q
atom_beq _ _ = false

pub atom_beq_iff : (a b : CompiledAtomPattern) → (atom_beq a b ≡ true) ↔ (a ≡ b)
atom_beq_iff (principal_atom p) (principal_atom q) = ground (arith, pattern_beq_iff p q)
atom_beq_iff (action_atom p) (action_atom q) = ground (arith, pattern_beq_iff p q)
atom_beq_iff (resource_atom p) (resource_atom q) = ground (arith, pattern_beq_iff p q)
atom_beq_iff (principal_atom p) (action_atom q) = ground arith
atom_beq_iff (principal_atom p) (resource_atom q) = ground arith
atom_beq_iff (action_atom p) (principal_atom q) = ground arith
atom_beq_iff (action_atom p) (resource_atom q) = ground arith
atom_beq_iff (resource_atom p) (principal_atom q) = ground arith
atom_beq_iff (resource_atom p) (action_atom q) = ground arith

instance abbrev pub atom_has_eq : DecidableEq CompiledAtomPattern
atom_has_eq = record { is_same = atom_beq; is_same_iff = atom_beq_iff }

-- `values`: the substitution assigns resolved values to variables.
abbrev pub CandidateSubstitution : Type 0
CandidateSubstitution = List (Symbol × ResolvedValue)

unfoldable pub value_at : Symbol → CandidateSubstitution → Option ResolvedValue
value_at x [] = none
value_at x ((y, v) ∷ s) = if y =? x then some v else value_at x s

abbrev pub singleton : Symbol → ResolvedValue → CandidateSubstitution
singleton x v = (x, v) ∷ []

-- `merge`: `none` if the other substitution gives a variable another value.
unfoldable pub merge : CandidateSubstitution → CandidateSubstitution → Option CandidateSubstitution
unfolding value_at
merge s s' =
    if any (λ (x, v). is_some_and (λ w. not (resolved_value_beq w v)) (value_at x s)) s'
    then none
    else some (s ++ s')

-- `project`
abbrev pub project_principal : ResolvedValue → Option Symbol
project_principal (principal_value p) = some p
project_principal _ = none

abbrev pub project_action : ResolvedValue → Option ResolvedAction
project_action (action_value a) = some a
project_action _ = none

abbrev pub project_resource : ResolvedValue → Option ResolvedResource
project_resource (resource_value r) = some r
project_resource _ = none

-- `subst` of one component.
unfoldable pub subst_pattern :
    {T : Type 0} → (ResolvedValue → Option T) → CandidateSubstitution → CompiledPattern T → Option T
unfolding value_at
subst_pattern project s (constant expected) = some expected
subst_pattern project s (variable x) = elim (value_at x s) [ none ↦ none | some v ↦ project v ]

module _ (strings : Interner) where
  abbrev pub resolve_principal : Principal → Symbol
  resolve_principal p = strings.intern p

  unfoldable pub resolve_action : Action → ResolvedAction
  resolve_action Action.read = read
  resolve_action Action.edit = edit
  resolve_action Action.stage = stage
  resolve_action Action.unstage = unstage
  resolve_action (Action.commit none) = commit none
  resolve_action (Action.commit (some m)) = commit (some (strings.intern m))
  resolve_action Action.checkout = checkout
  resolve_action Action.stash = stash
  resolve_action Action.delete = delete
  resolve_action Action.clean = clean
  resolve_action Action.diff = diff
  resolve_action Action.history = history

  unfoldable pub resolve_resource : Resource → ResolvedResource
  resolve_resource r = map strings.intern r

  -- `subst`, then `matches`: whether the event has the value that the pattern stands for.
  unfoldable pub atom_matches : CandidateSubstitution → CompiledAtomPattern → Event → Bool
  unfolding subst_pattern resolve_action resolve_resource
  atom_matches s (principal_atom p) e =
      is_some_and (λ v. v =? resolve_principal e.principal) (subst_pattern project_principal s p)
  atom_matches s (action_atom p) e =
      is_some_and (λ v. v =? resolve_action e.action) (subst_pattern project_action s p)
  atom_matches s (resource_atom p) e =
      is_some_and (λ v. v =? resolve_resource e.resource) (subst_pattern project_resource s p)
