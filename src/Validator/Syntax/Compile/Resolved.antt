-- ===== src/Validator/Syntax/Compile/Resolved.antt =====
-- component.rs: texts that the interner resolves alike are equal, and substitutions stand for
-- bindings.
use marsh.Base.{
  ℕ, String, ◌≡◌, refl, sym, ap, not, [], ◌∷◌, ◌++◌, Option, none, some, arith, any, ◌=?◌,
  string_has_eq, nat_has_eq, list_has_eq, option_has_eq, option_beq, is_some_and, Bool-cases, inl,
  inr,
}
use marsh.Validator.Model.{Action, Resource, action_has_eq, discriminant, message}
use marsh.Validator.Language.{
  Value, principal_value, action_value, resource_value, Bindings, value_of, value_beq, join,
}
use marsh.Validator.Syntax.Component.{
  Interner, ResolvedValue, principal_value as resolved_principal, action_value as resolved_action,
  resource_value as resolved_resource, resolved_value_beq, resolved_discriminant, resolved_message,
  resolved_action_has_eq, CandidateSubstitution, value_at, merge, resolve_principal, resolve_action,
  resolve_resource,
}

module _ (strings : Interner) where
  open strings use {intern}

  pub same_symbol : (a b : String) → (intern a =? intern b) ≡ (a =? b)
  same_symbol a b = ground (
    arith,
    string_has_eq.is_same_iff a b,
    nat_has_eq.is_same_iff (intern a) (intern b),
    strings.intern_injective a b,
    ap intern {x = a} {y = b},
  )

  pub same_resource :
      (r s : Resource) → (resolve_resource strings r =? resolve_resource strings s) ≡ (r =? s)
  unfolding resolve_resource
  same_resource [] [] = refl
  same_resource [] (y ∷ s) = refl
  same_resource (x ∷ r) [] = refl
  same_resource (x ∷ r) (y ∷ s) = rw (same_symbol x y, same_resource r s)

  abbrev pub resolve_message : Option String → Option ℕ
  resolve_message none = none
  resolve_message (some m) = some (intern m)

  pub same_message :
      (m n : Option String) → option_beq (resolve_message m) (resolve_message n) ≡ option_beq m n
  same_message none none = refl
  same_message none (some y) = refl
  same_message (some x) none = refl
  same_message (some x) (some y) = same_symbol x y

  pub resolve_action-parts :
      (a : Action)
      → (resolved_discriminant (resolve_action strings a) ≡ discriminant a)
        × (resolved_message (resolve_action strings a) ≡ resolve_message (message a))
  unfolding resolve_action
  resolve_action-parts (Action.commit none) = (refl, refl)
  resolve_action-parts (Action.commit (some m)) = (refl, refl)
  resolve_action-parts Action.read = (refl, refl)
  resolve_action-parts a = (refl, refl)

  pub same_action :
      (a b : Action) → (resolve_action strings a =? resolve_action strings b) ≡ (a =? b)
  same_action a b =
      let (da, ma) = resolve_action-parts a in
      let (db, mb) = resolve_action-parts b in
      rw (da, db, ma, mb, same_message (message a) (message b))

  abbrev pub resolve_value : Value → ResolvedValue
  resolve_value (principal_value p) = resolved_principal (resolve_principal strings p)
  resolve_value (action_value a) = resolved_action (resolve_action strings a)
  resolve_value (resource_value r) = resolved_resource (resolve_resource strings r)

  pub same_value :
      (v w : Value) → resolved_value_beq (resolve_value v) (resolve_value w) ≡ value_beq v w
  same_value (principal_value p) (principal_value q) = same_symbol p q
  same_value (action_value a) (action_value b) = same_action a b
  same_value (resource_value r) (resource_value s) = same_resource r s
  same_value (principal_value p) (action_value b) = refl
  same_value (principal_value p) (resource_value b) = refl
  same_value (action_value p) (principal_value b) = refl
  same_value (action_value p) (resource_value b) = refl
  same_value (resource_value p) (principal_value b) = refl
  same_value (resource_value p) (action_value b) = refl

  -- The substitution that stands for some bindings.
  abbrev pub substitution_of : Bindings → CandidateSubstitution
  substitution_of [] = []
  substitution_of ((x, v) ∷ b) = (intern x, resolve_value v) ∷ substitution_of b

  abbrev pub resolve_bindings : Option Bindings → Option CandidateSubstitution
  resolve_bindings none = none
  resolve_bindings (some b) = some (substitution_of b)

  abbrev pub resolve_option : Option Value → Option ResolvedValue
  resolve_option none = none
  resolve_option (some v) = some (resolve_value v)

  pub value_at-substitution :
      (x : String) (b : Bindings)
      → value_at (intern x) (substitution_of b) ≡ resolve_option (value_of x b)
  unfolding value_at value_of
  value_at-substitution x [] = refl
  value_at-substitution x ((y, v) ∷ b) = elim (Bool-cases (y =? x)) [
    | inl same ↦ rw (same_symbol y x, same)
    | inr other ↦ rw (same_symbol y x, other) (value_at-substitution x b)
  ]

  pub differs_from :
      (v : Value) (o : Option Value)
      → is_some_and (λ w. not (resolved_value_beq w (resolve_value v))) (resolve_option o)
        ≡ is_some_and (λ w. not (value_beq w v)) o
  differs_from v none = refl
  differs_from v (some w) = ap not (same_value w v)

  pub conflicts :
      (b b' : Bindings)
      → any
          (λ (x, v).
            is_some_and (λ w. not (resolved_value_beq w v)) (value_at x (substitution_of b)))
          (substitution_of b')
        ≡ any (λ (x, v). is_some_and (λ w. not (value_beq w v)) (value_of x b)) b'
  conflicts b [] = refl
  conflicts b ((x, v) ∷ b') =
      rw (value_at-substitution x b, differs_from v (value_of x b), conflicts b b')

  pub substitution-append :
      (b b' : Bindings) → substitution_of (b ++ b') ≡ substitution_of b ++ substitution_of b'
  substitution-append [] b' = refl
  substitution-append ((x, v) ∷ b) b' =
      ap (λ s. (intern x, resolve_value v) ∷ s) (substitution-append b b')

  pub merge-join :
      (b b' : Bindings)
      → merge (substitution_of b) (substitution_of b') ≡ resolve_bindings (join b b')
  unfolding merge join
  merge-join b b' =
      elim (Bool-cases (any (λ (x, v). is_some_and (λ w. not (value_beq w v)) (value_of x b)) b')) [
        | inl e ↦ rw (conflicts b b', e)
        | inr e ↦ rw (conflicts b b', e) (ap some (sym (substitution-append b b')))
      ]
