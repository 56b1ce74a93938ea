-- ===== src/Validator/Syntax/Compile/Values.antt =====
-- Resolved values, substitutions and matched heads of rust-validator/src/syntax stand for the
-- values, bindings and matches of the rule language.
use marsh.Base.{
  String, ◌≡◌, refl, true, false, not, ◌&&◌, Option, none, some, arith, DecidableEq, ◌=?◌,
  string_has_eq, nat_has_eq, list_has_eq, option_has_eq, is_some_and, Bool-cases, inl, inr,
}
use marsh.Base.Options.{◌>>=◌}
use marsh.Validator.Model.{Principal, Action, Resource, Event, action_has_eq}
use marsh.Validator.Source.{
  ComponentPattern, constant, variable, Head, AtomPattern, principal_atom, action_atom,
  resource_atom,
}
use marsh.Validator.Language.{
  Value, principal_value, action_value, resource_value, Bindings, value_of, as_principal, as_action,
  as_resource, bind_component, join, bind_head, value_in, is_value, atom_holds,
}
use marsh.Validator.Syntax.Component.{
  Interner, CompiledPattern, CompiledAtomPattern, principal_atom as compiled_principal,
  action_atom as compiled_action, resource_atom as compiled_resource, ResolvedValue,
  principal_value as resolved_principal, action_value as resolved_action,
  resource_value as resolved_resource, resolved_action_has_eq, CandidateSubstitution, merge,
  subst_pattern, project_principal, project_action, project_resource, resolve_principal,
  resolve_action, resolve_resource, atom_matches,
}
use marsh.Validator.Syntax.Normalize.{distinct_constant_patterns}
use marsh.Validator.Syntax.Normalize.Meaning.{IsConsistent}
use marsh.Validator.Syntax.Environment.{CompiledHead, match_head_pattern, match_candidate}
use marsh.Validator.Syntax.Compile.Resolved.{
  same_symbol, same_resource, same_action, resolve_value, substitution_of, resolve_bindings,
  resolve_option, value_at-substitution, merge-join,
}

module _ (strings : Interner) where
  open strings use {intern}

  abbrev pub translate : {T R : Type 0} → (T → R) → ComponentPattern T String → CompiledPattern R
  translate resolve_one (constant v) = constant (resolve_one v)
  translate resolve_one (variable x) = variable (intern x)

  -- One component: how its values are resolved, and how they enter and leave a substitution.
  module _ {T R : Type 0} ⦃e : DecidableEq T⦄ ⦃f : DecidableEq R⦄ (resolve_one : T → R)
      (same : (a b : T) → (resolve_one a =? resolve_one b) ≡ (a =? b)) where
    match_head_pattern-bind :
        (inject : T → Value) (inject' : R → ResolvedValue)
        → ((t : T) → resolve_value strings (inject t) ≡ inject' (resolve_one t))
        → (p : ComponentPattern T String) (actual : T)
        → match_head_pattern inject' (translate resolve_one p) (resolve_one actual)
          ≡ resolve_bindings strings (bind_component inject p actual)
    unfolding match_head_pattern
    match_head_pattern-bind inject inject' law (constant expected) actual =
        elim (Bool-cases (expected =? actual)) [
          | inl yes_same ↦ rw (same expected actual, yes_same)
          | inr no_same ↦ rw (same expected actual, no_same)
        ]
    match_head_pattern-bind inject inject' law (variable x) actual = rw (law actual)

    module _ (project : Value → Option T) (project' : ResolvedValue → Option R) where
      abbrev Projects : Value → Type 0
      Projects v =
          (actual : T)
          → is_some_and (λ w. w =? resolve_one actual) (project' (resolve_value strings v))
            ≡ is_some_and (λ w. w =? actual) (project v)

      projected-value :
          ((v : Value) → Projects v)
          → (o : Option Value) (actual : T)
          → is_some_and
              (λ w. w =? resolve_one actual)
              (elim (resolve_option strings o) [ none ↦ none | some v ↦ project' v ])
            ≡ is_some_and (λ w. w =? actual) (elim o [ none ↦ none | some v ↦ project v ])
      projected-value law none actual = refl
      projected-value law (some v) actual = law v actual

      subst_pattern-value :
          ((v : Value) → Projects v)
          → (b : Bindings) (p : ComponentPattern T String) (actual : T)
          → is_some_and
              (λ w. w =? resolve_one actual)
              (subst_pattern project' (substitution_of strings b) (translate resolve_one p))
            ≡ is_value (value_in project b p) actual
      unfolding subst_pattern
      subst_pattern-value law b (constant v) actual = same v actual
      subst_pattern-value law b (variable x) actual =
          rw (value_at-substitution strings x b, subst_pattern)
            (projected-value law (value_of x b) actual)

  abbrev pub translate_head : Head → CompiledHead
  translate_head head = record {
    principal = translate (resolve_principal strings) head.principal;
    action = translate (resolve_action strings) head.action;
    resource = translate (resolve_resource strings) head.resource;
  }

  abbrev pub translate_atom : AtomPattern → CompiledAtomPattern
  translate_atom (principal_atom p) = compiled_principal (translate (resolve_principal strings) p)
  translate_atom (action_atom p) = compiled_action (translate (resolve_action strings) p)
  translate_atom (resource_atom p) = compiled_resource (translate (resolve_resource strings) p)

  joined_last :
      (pa r : Option Bindings)
      → (do p ← (resolve_bindings strings) pa; q ← (resolve_bindings strings) r; merge p q)
        ≡ resolve_bindings strings (do p ← pa; q ← r; join p q)
  joined_last none r = refl
  joined_last (some p) none = refl
  joined_last (some p) (some q) = merge-join strings p q

  joined :
      (p a r : Option Bindings)
      → (do
        p' ← (resolve_bindings strings) p
        a' ← (resolve_bindings strings) a
        pa ← merge p' a'
        r' ← (resolve_bindings strings) r
        merge pa r')
        ≡ resolve_bindings strings (do p' ← p; a' ← a; pa ← join p' a'; r' ← r; join pa r')
  joined none a r = refl
  joined (some p) none r = refl
  joined (some p) (some a) r = rw (merge-join strings p a) (joined_last (join p a) r)

  -- A head that matches gives the substitution that stands for its bindings.
  pub match_candidate-bind_head :
      (head : Head) (e : Event)
      → match_candidate strings (translate_head head) e
        ≡ resolve_bindings strings (bind_head head e)
  unfolding match_candidate bind_head
  match_candidate-bind_head head e =
      let p =
        match_head_pattern-bind (resolve_principal strings) (same_symbol strings) principal_value
          resolved_principal (λ t. refl) head.principal e.principal in
      let a =
        match_head_pattern-bind (resolve_action strings) (same_action strings) action_value
          resolved_action (λ t. refl) head.action e.action in
      let r =
        match_head_pattern-bind (resolve_resource strings) (same_resource strings) resource_value
          resolved_resource (λ t. refl) head.resource e.resource in
      rw (p, a, r)
        (joined (bind_component principal_value head.principal e.principal)
          (bind_component action_value head.action e.action)
          (bind_component resource_value head.resource e.resource))

  pub atom_matches-holds :
      (b : Bindings) (p : AtomPattern) (e : Event)
      → atom_matches strings (substitution_of strings b) (translate_atom p) e ≡ atom_holds b p e
  unfolding atom_matches
  atom_matches-holds b (principal_atom p) e =
      subst_pattern-value (resolve_principal strings) (same_symbol strings) as_principal
        project_principal law b p e.principal
    where
      law :
          (v : Value) (actual : Principal)
          → is_some_and
              (λ w. w =? resolve_principal strings actual)
              (project_principal (resolve_value strings v))
            ≡ is_some_and (λ w. w =? actual) (as_principal v)
      law (principal_value q) actual = same_symbol strings q actual
      law (action_value q) actual = refl
      law (resource_value q) actual = refl
  atom_matches-holds b (action_atom p) e =
      subst_pattern-value (resolve_action strings) (same_action strings) as_action project_action
        law b p e.action
    where
      law :
          (v : Value) (actual : Action)
          → is_some_and
              (λ w. w =? resolve_action strings actual)
              (project_action (resolve_value strings v))
            ≡ is_some_and (λ w. w =? actual) (as_action v)
      law (principal_value q) actual = refl
      law (action_value q) actual = same_action strings q actual
      law (resource_value q) actual = refl
  atom_matches-holds b (resource_atom p) e =
      subst_pattern-value (resolve_resource strings) (same_resource strings) as_resource
        project_resource law b p e.resource
    where
      law :
          (v : Value) (actual : Resource)
          → is_some_and
              (λ w. w =? resolve_resource strings actual)
              (project_resource (resolve_value strings v))
            ≡ is_some_and (λ w. w =? actual) (as_resource v)
      law (principal_value q) actual = refl
      law (action_value q) actual = refl
      law (resource_value q) actual = same_resource strings q actual

  one_value :
      {R : Type 0} ⦃f : DecidableEq R⦄ (a b v : R)
      → not (a =? b) ≡ true
      → ((a =? v) && (b =? v)) ≡ false
  one_value ⦃f⦄ a b v h = ground (arith, f.is_same_iff a v, f.is_same_iff b v, f.is_same_iff a b)

  -- No component of an event has two values.
  pub atom_matches-IsConsistent :
      (s : CandidateSubstitution) (e : Event) → IsConsistent (λ p. atom_matches strings s p e)
  unfolding distinct_constant_patterns atom_matches
  atom_matches-IsConsistent s e (compiled_principal (constant a)) (compiled_principal (constant b))
        h =
      one_value a b _ h
  atom_matches-IsConsistent s e (compiled_action (constant a)) (compiled_action (constant b)) h =
      one_value a b _ h
  atom_matches-IsConsistent s e (compiled_resource (constant a)) (compiled_resource (constant b))
        h =
      one_value a b _ h
  atom_matches-IsConsistent s e p q h = cc
