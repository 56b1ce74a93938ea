-- ===== src/Validator/Stateful/Checks.antt =====
-- What the stateful validator decides, and that a rollback undoes any number of checks.
use mathlib.Core.List.{append_assoc, append-nil}
use marsh.Base.{
  ◌≡◌, ap, ◌∙◌, sym, Bool, true, false, not, ◌&&◌, List, [], ◌∷◌, ◌++◌, none, some, arith, length,
  length-append, take-append, is_none, if◌then◌else◌, Option-cases, inl, inr,
}
use marsh.Base.Results.{Result, ok, >>=-eq-ok}
use marsh.Validator.Model.{Event}
use marsh.Validator.Source.{Rule, require, forbid}
use marsh.Validator.Language.{tail_accepts}
use marsh.Validator.Engine.{Engine, CompileError}
use marsh.Validator.Stateful.{
  Request, Decision, granted, denied, RuntimeRule, Validator, compile_rules, first_violated, check,
  checkpoint, rollback,
}

abbrev pub is_granted : {M : Type 0} → Decision M → Bool
is_granted (granted g) = true
is_granted (denied d) = false

-- Of every rule whose head matches, the history is in the tail where the rule requires it, and is not
-- where the rule forbids it.
abbrev pub satisfies : List Rule → List Event → Event → Bool
satisfies [] history event = true
satisfies (rule ∷ rules) history event =
    elim (tail_accepts rule history event) [
      | none ↦ true
      | some accepted ↦ elim rule.mode [ require ↦ accepted | forbid ↦ not accepted ]
    ]
    && satisfies rules history event

module _ {R : Type 0} (engine : Engine R) where
  first_violated-satisfies :
      (rules : List Rule) (compiled : List (RuntimeRule R))
      → compile_rules engine rules ≡ ok compiled
      → (history : List Event) (event : Event)
      → is_none (first_violated engine compiled history event) ≡ satisfies rules history event
  unfolding compile_rules first_violated
  first_violated-satisfies [] compiled e history event = ground arith
  first_violated-satisfies (rule ∷ rules) compiled e history event =
      let (runtime, e₁, e') = >>=-eq-ok (engine.compile_rule rule) _ e in
      let (rest, e₂, e₃) = >>=-eq-ok (compile_rules engine rules) _ e' in
      step rule rules compiled runtime rest e₁ e₃ history event
        (first_violated-satisfies rules rest e₂ history event)
    where
      step :
          (rule : Rule) (rules : List Rule) (compiled : List (RuntimeRule R)) (runtime : R)
          (rest : List (RuntimeRule R))
          → engine.compile_rule rule ≡ ok runtime
          → ◌≡◌ {A = Result CompileError (List (RuntimeRule R))}
              (ok (record { runtime = runtime; mode = rule.mode } ∷ rest))
              (ok compiled)
          → (history : List Event) (event : Event)
          → is_none (first_violated engine rest history event) ≡ satisfies rules history event
          → is_none (first_violated engine compiled history event)
            ≡ satisfies (rule ∷ rules) history event
      step rule rules compiled runtime rest e₁ e₃ history event ih =
          ground (arith, engine.accepts_history_lem rule runtime history event e₁, ih)

  -- A validator built from source rules grants a request exactly when, of the rules whose head
  -- matches, the tail of each one that requires has the committed history and the tail of each one
  -- that forbids has it not, by the meaning of tails. A grant appends the request's event, and a
  -- denial leaves the validator as it was.
  pub check-satisfies :
      {M : Type 0} (rules : List Rule) (compiled : List (RuntimeRule R)) (history : List Event)
      (request : Request M)
      → compile_rules engine rules ≡ ok compiled
      → let validator : Validator R = record { rules = compiled; history = history } in
        let holds = satisfies rules history request.event in
        (is_granted (check engine validator request).0 ≡ holds)
        × ((check engine validator request).1 ≡ (
            if holds
            then record validator { history = history ++ request.event ∷ [] }
            else validator))
  unfolding check
  check-satisfies rules compiled history request e =
      ground (arith, first_violated-satisfies rules compiled e history request.event)

  -- The validator after a list of requests.
  abbrev pub check_all : {M : Type 0} → Validator R → List (Request M) → Validator R
  check_all validator [] = validator
  check_all validator (r ∷ rs) = check_all (check engine validator r).1 rs

  check-grows :
      {M : Type 0} (validator : Validator R) (request : Request M)
      → (more : List Event) × ((check engine validator request).1
          ≡ record validator { history = validator.history ++ more })
  unfolding check
  check-grows validator request =
      elim (Option-cases (first_violated engine validator.rules validator.history request.event)) [
        | inl n ↦ (request.event ∷ [], ground (arith, n))
        | inr (mode, n) ↦ ([], ground (arith, n, append-nil validator.history))
      ]

  check_all-grows :
      {M : Type 0} (requests : List (Request M)) (validator : Validator R)
      → (more : List Event) × (check_all validator requests
          ≡ record validator { history = validator.history ++ more })
  check_all-grows [] validator = (
    [],
    ap {A = List Event} {B = Validator R} (λ h. record validator { history = h })
        (sym (append-nil validator.history)),
  )
  check_all-grows (r ∷ rs) validator =
      let (one, e) = check-grows validator r in
      let (more, e') = check_all-grows rs (check engine validator r).1 in
      (
        one ++ more,
        e'
            ∙ ap {A = Validator R} {B = Validator R} (λ v. record v { history = v.history ++ more })
                e
            ∙ ap {A = List Event} {B = Validator R} (λ h. record validator { history = h })
                (append_assoc validator.history one more),
      )

  -- Rolled back to a checkpoint, a validator is what it was there, whatever was requested since.
  pub rollback-checkpoint :
      {M : Type 0} (validator : Validator R) (requests : List (Request M))
      → rollback (check_all validator requests) (checkpoint validator) ≡ some validator
  unfolding rollback checkpoint
  rollback-checkpoint validator requests =
      let (more, e) = check_all-grows requests validator in
      ap (λ v. rollback v (length validator.history)) e
      ∙ ground (arith, length-append validator.history more, take-append validator.history more)
