-- ===== src/Policy.antt =====
-- rust-validator/src/policy: the kernel of trace policies. A policy is a table of rules, each with
-- the diagnostic of its violation, walked in order.
pub mod Git
use marsh.Base.{
  arith, refl, all as all_items, ◌&&◌, ◌∙◌, ap, sym, String, ◌≡◌, Bool, true, false, not, retain,
  List, [], ◌∷◌, Option, none, some, if◌then◌else◌,
}
use marsh.Base.Results.{Result, ok, ◌>>=◌, >>=-eq-ok}
use marsh.Validator.Model.{Action, Event}
use marsh.Validator.Source.{
  constant, variable, Comparison, principal_atom, action_atom, resource_atom, TestExpr, atom,
  RegexExpr, all, test, star, concat_of, RuleMode, require, forbid, Rule,
}
use marsh.Validator.Engine.{Engine, CompileError, well_scoped}
use marsh.Validator.Language.{tail_accepts}

-- decision.rs
pub data PolicyDecision : Type 0 where
  grant : PolicyDecision
  deny : String → List String → PolicyDecision

-- atoms.rs
abbrev pub principal_var : String
principal_var = "p"

abbrev pub resource_var : String
resource_var = "r"

abbrev pub principal_is : Comparison → TestExpr
principal_is c = atom c (principal_atom (variable principal_var))

abbrev pub resource_is : Comparison → TestExpr
resource_is c = atom c (resource_atom (variable resource_var))

abbrev pub action_is : Action → Comparison → TestExpr
action_is a c = atom c (action_atom (constant a))

-- language.rs
abbrev pub last_state_change : TestExpr → TestExpr → RegexExpr
last_state_change setter stable = concat_of (all ∷ test setter ∷ star (test stable) ∷ [])

abbrev pub never_state_change : TestExpr → RegexExpr
never_state_change stable = star (test stable)

-- rule.rs
abbrev pub Diagnostic : Type 0 → Type 0
Diagnostic C = C → String × List String

pub record PolicyRule (C : Type 0) : Type 0 where
  pub rule : Rule
  pub diagnostic : Diagnostic C

-- `forbid`: the head is the acting principal, a constant action and the resource.
abbrev pub forbid_rule : {C : Type 0} → Action → RegexExpr → Diagnostic C → PolicyRule C
forbid_rule action tail diagnostic = record {
  rule = record {
    mode = forbid;
    head = record {
      principal = variable principal_var;
      action = constant action;
      resource = variable resource_var;
    };
    tail = tail;
  };
  diagnostic = diagnostic;
}

-- evaluate.rs: rules are compiled once, and walked in the table's order. The derivative caches that
-- a compiled rule carries do not change an answer and are left out.
pub record CompiledPolicyRule (R C : Type 0) : Type 0 where
  pub runtime : R
  pub mode : RuleMode
  pub diagnostic : Diagnostic C

abbrev pub CompiledPolicy : Type 0 → Type 0 → Type 0
CompiledPolicy R C = List (CompiledPolicyRule R C)

abbrev pub violates : RuleMode → Bool → Bool
violates forbid inside = inside
violates require inside = not inside

abbrev pub denial : {C : Type 0} → Diagnostic C → C → PolicyDecision
denial diagnostic context = let (failed, fixes) = diagnostic context in deny failed fixes

module _ {R : Type 0} (engine : Engine R) {C : Type 0} where
  unfoldable pub compile_policy : List (PolicyRule C) → Result CompileError (CompiledPolicy R C)
  compile_policy [] = ok []
  compile_policy (r ∷ rules) = do
    runtime ← engine.compile_rule r.rule
    compiled ← compile_policy rules
    ok (record { runtime = runtime; mode = r.rule.mode; diagnostic = r.diagnostic } ∷ compiled)

  -- `context` is what the closure of the source computes when it is called.
  unfoldable pub decide : CompiledPolicy R C → List Event → Event → C → PolicyDecision
  decide [] h probe context = grant
  decide (r ∷ rules) h probe context =
      let next = decide rules h probe context in
      elim (engine.accepts_history r.runtime h probe) [
        | none ↦ next
        | some inside ↦ if violates r.mode inside then denial r.diagnostic context else next
      ]

-- The same walk over source rules, by the meaning of their tails.
module _ {C : Type 0} where
  unfoldable pub decide_source : List (PolicyRule C) → List Event → Event → C → PolicyDecision
  unfolding tail_accepts
  decide_source [] h probe context = grant
  decide_source (r ∷ rules) h probe context =
      let next = decide_source rules h probe context in
      elim (tail_accepts r.rule h probe) [
        | none ↦ next
        | some inside ↦ if violates r.rule.mode inside then denial r.diagnostic context else next
      ]

-- A history outside a tail that a rule requires, or inside one that it forbids; nothing is broken where
-- the head does not match.
abbrev pub broken_by : RuleMode → Option Bool → Bool
broken_by require none = false
broken_by require (some inside) = not inside
broken_by forbid none = false
broken_by forbid (some inside) = inside

module _ {C : Type 0} where
  abbrev pub is_broken : List Event → Event → PolicyRule C → Bool
  is_broken h probe r = broken_by r.rule.mode (tail_accepts r.rule h probe)

  -- The text of the first of some broken rules.
  abbrev pub answer : List (PolicyRule C) → C → PolicyDecision
  answer [] context = grant
  answer (r ∷ rules) context = deny (r.diagnostic context).0 (r.diagnostic context).1

  answer-step :
      (o : Option Bool) (mode : RuleMode) (r : PolicyRule C) (rest : List (PolicyRule C))
      (context : C)
      → elim o [
        | none ↦ answer rest context
        | some inside ↦
            if violates mode inside then denial r.diagnostic context else answer rest context
      ]
        ≡ answer (if broken_by mode o then r ∷ rest else rest) context
  answer-step none require r rest context = refl
  answer-step none forbid r rest context = refl
  answer-step (some true) require r rest context = refl
  answer-step (some true) forbid r rest context = refl
  answer-step (some false) require r rest context = refl
  answer-step (some false) forbid r rest context = refl

  decide_source-is_broken :
      (rules : List (PolicyRule C)) (h : List Event) (probe : Event) (context : C)
      → decide_source rules h probe context ≡ answer (retain (is_broken h probe) rules) context
  unfolding decide_source
  decide_source-is_broken [] h probe context = refl
  decide_source-is_broken (r ∷ rules) h probe context =
      ap
        (λ (next : PolicyDecision). elim (tail_accepts r.rule h probe) [
          | none ↦ next
          | some inside ↦ if violates r.rule.mode inside then denial r.diagnostic context else next
        ])
        (decide_source-is_broken rules h probe context)
      ∙ answer-step (tail_accepts r.rule h probe) r.rule.mode r (retain (is_broken h probe) rules)
          context

module _ {R : Type 0} (engine : Engine R) {C : Type 0} where
  decide-cons :
      (rules : List (PolicyRule C)) (r : PolicyRule C) (compiled : CompiledPolicy R C) (runtime : R)
      (cs : CompiledPolicy R C)
      → engine.compile_rule r.rule ≡ ok runtime
      → ◌≡◌ {A = Result CompileError (CompiledPolicy R C)}
          (ok (record { runtime = runtime; mode = r.rule.mode; diagnostic = r.diagnostic } ∷ cs))
          (ok compiled)
      → (h : List Event) (probe : Event) (context : C)
      → decide engine cs h probe context ≡ decide_source rules h probe context
      → decide engine compiled h probe context ≡ decide_source (r ∷ rules) h probe context
  unfolding decide decide_source
  decide-cons rules r compiled runtime cs e₁ e₃ h probe context ih =
      ground (arith, engine.accepts_history_lem r.rule runtime h probe e₁)

  -- A compiled table decides as its source rules mean.
  pub decide-compile_policy :
      (rules : List (PolicyRule C)) (compiled : CompiledPolicy R C)
      → compile_policy engine rules ≡ ok compiled
      → (h : List Event) (probe : Event) (context : C)
      → decide engine compiled h probe context ≡ decide_source rules h probe context
  unfolding compile_policy decide decide_source
  decide-compile_policy [] compiled e h probe context = ground arith
  decide-compile_policy (r ∷ rules) compiled e h probe context =
      let (runtime, e₁, e') = >>=-eq-ok (engine.compile_rule r.rule) _ e in
      let (cs, e₂, e₃) = >>=-eq-ok (compile_policy engine rules) _ e' in
      decide-cons rules r compiled runtime cs e₁ e₃ h probe context
        (decide-compile_policy rules cs e₂ h probe context)

  -- With any engine that keeps its contract, a compiled table grants where no source rule is broken,
  -- and otherwise denies with the text of the first rule that is.
  pub decide-is_broken :
      (rules : List (PolicyRule C)) (compiled : CompiledPolicy R C)
      → compile_policy engine rules ≡ ok compiled
      → (h : List Event) (probe : Event) (context : C)
      → decide engine compiled h probe context ≡ answer (retain (is_broken h probe) rules) context
  decide-is_broken rules compiled e h probe context =
      decide-compile_policy rules compiled e h probe context
      ∙ decide_source-is_broken rules h probe context

  abbrev all_well_scoped : List (PolicyRule C) → Bool
  all_well_scoped rules = all_items (λ r. well_scoped r.rule) rules

  -- A table whose rules are all well scoped compiles.
  pub compile_policy_total :
      (rules : List (PolicyRule C))
      → all_well_scoped rules ≡ true
      → (compiled : CompiledPolicy R C) × (compile_policy engine rules ≡ ok compiled)
  unfolding compile_policy
  compile_policy_total [] h = ([], refl)
  compile_policy_total (r ∷ rules) h =
      let (runtime, e₁) = engine.compile_total r.rule (ground arith) in
      let (cs, e₂) = compile_policy_total rules (ground arith) in
      (
        record { runtime = runtime; mode = r.rule.mode; diagnostic = r.diagnostic } ∷ cs,
        rw (e₁, e₂),
      )
