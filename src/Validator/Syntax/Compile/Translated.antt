-- ===== src/Validator/Syntax/Compile/Translated.antt =====
-- What compilation returns in rust-validator/src/syntax/compile.rs, when it returns: patterns,
-- atoms and heads are translated as they stand.
use marsh.Base.{String, ◌≡◌, sym, ap, ◌∙◌, []}
use marsh.Base.Results.{ok, ◌>>=◌, >>=-eq-ok, map-eq-ok}
use marsh.Validator.Source.{
  ComponentPattern, constant, variable, Head, Component, AtomPattern, principal_atom, action_atom,
  resource_atom,
}
use marsh.Validator.Syntax.Component.{
  Symbol, ResolvedAction, ResolvedResource, Interner, CompiledPattern, CompiledAtomPattern,
  principal_atom as compiled_principal, action_atom as compiled_action,
  resource_atom as compiled_resource, resolve_principal, resolve_action, resolve_resource,
}
use marsh.Validator.Syntax.Environment.{CompiledHead, VariableEnvironment, bind, resolve}
use marsh.Validator.Syntax.Compile.{
  compile_head_pattern, compile_head, compile_pattern, compile_atom_pattern, name_conflict,
  name_resolve_error,
}
use marsh.Validator.Syntax.Compile.Values.{translate, translate_head, translate_atom}

module _ (strings : Interner) where
  open strings use {intern}

  module _ {T R : Type 0} (resolve_value : T → R) (c : Component) where
    compile_head_pattern-translate :
        (p : ComponentPattern T String) (env : VariableEnvironment)
        (r : CompiledPattern R × VariableEnvironment)
        → compile_head_pattern strings resolve_value c p env ≡ ok r
        → r.0 ≡ translate strings resolve_value p
    unfolding compile_head_pattern
    compile_head_pattern-translate (constant v) env r e = cc
    compile_head_pattern-translate (variable x) env r e =
        let (env', _, last) =
          >>=-eq-ok (name_conflict x (bind env (intern x) c))
            (λ env'. ok (variable (intern x), env')) e in
        cc

    compile_pattern-translate :
        (env : VariableEnvironment) (p : ComponentPattern T String) (r : CompiledPattern R)
        → compile_pattern strings resolve_value c env p ≡ ok r
        → r ≡ translate strings resolve_value p
    unfolding compile_pattern
    compile_pattern-translate env (constant v) r e = cc
    compile_pattern-translate env (variable x) r e =
        let (u, _, last) =
          >>=-eq-ok (name_resolve_error x (resolve env (intern x) c))
            (λ _. ok (variable (intern x))) e in
        cc

  pub compile_atom_pattern-translate :
      (env : VariableEnvironment) (p : AtomPattern) (q : CompiledAtomPattern)
      → compile_atom_pattern strings env p ≡ ok q
      → q ≡ translate_atom strings p
  unfolding compile_atom_pattern
  compile_atom_pattern-translate env (principal_atom p) q e =
      let (r, e', last) =
        map-eq-ok (compile_pattern strings (resolve_principal strings) Component.principal env p)
          compiled_principal e in
      sym last
      ∙ ap compiled_principal
          (compile_pattern-translate (resolve_principal strings) Component.principal env p r e')
  compile_atom_pattern-translate env (action_atom p) q e =
      let (r, e', last) =
        map-eq-ok (compile_pattern strings (resolve_action strings) Component.action env p)
          compiled_action e in
      sym last
      ∙ ap compiled_action
          (compile_pattern-translate (resolve_action strings) Component.action env p r e')
  compile_atom_pattern-translate env (resource_atom p) q e =
      let (r, e', last) =
        map-eq-ok (compile_pattern strings (resolve_resource strings) Component.resource env p)
          compiled_resource e in
      sym last
      ∙ ap compiled_resource
          (compile_pattern-translate (resolve_resource strings) Component.resource env p r e')

  abbrev head_of :
      CompiledPattern Symbol
      → CompiledPattern ResolvedAction
      → CompiledPattern ResolvedResource
      → CompiledHead
  head_of p a r = record { principal = p; action = a; resource = r }

  pub compile_head-translate :
      (head : Head) (r : CompiledHead × VariableEnvironment)
      → compile_head strings head ≡ ok r
      → r.0 ≡ translate_head strings head
  unfolding compile_head
  compile_head-translate head r e =
      let first =
        compile_head_pattern strings (resolve_principal strings) Component.principal
          head.principal in
      let second =
        compile_head_pattern strings (resolve_action strings) Component.action head.action in
      let third =
        compile_head_pattern strings (resolve_resource strings) Component.resource head.resource in
      let ((p, env), ep, e₁) =
        >>=-eq-ok (first [])
          (λ (p, env). do
            (a, env') ← second env
            (r, env'') ← third env'
            ok (head_of p a r, env''))
          e in
      let ((a, env'), ea, e₂) =
        >>=-eq-ok (second env) (λ (a, env'). do (r, env'') ← third env'; ok (head_of p a r, env''))
          e₁ in
      let ((s, env''), es, last) =
        map-eq-ok (third env') (λ (r, env''). (head_of p a r, env'')) e₂ in
      let same_p =
        compile_head_pattern-translate (resolve_principal strings) Component.principal
          head.principal [] (p, env) ep in
      let same_a =
        compile_head_pattern-translate (resolve_action strings) Component.action head.action env
          (a, env') ea in
      let same_s =
        compile_head_pattern-translate (resolve_resource strings) Component.resource head.resource
          env' (s, env'') es in
      sym (ap (λ x. x.0) last) ∙ rw (same_p, same_a, same_s)
