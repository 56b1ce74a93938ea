-- ===== src/Validator/Syntax/Compile/Filled.antt =====
-- The engine of rust-validator/src/syntax keeps the contract that the policies rely on.
use marsh.Base.{◌≡◌, refl, true}
use marsh.Base.Results.{Result, err, ok, is_ok}
use marsh.Validator.Source.{Rule}
use marsh.Validator.Engine.{Engine, well_scoped}
use marsh.Validator.Syntax.Component.{Interner}
use marsh.Validator.Syntax.Transition.{TransitionNumbering}
use marsh.Validator.Syntax.Compile.{RuntimeRule, compile_rule, accepts_history}
use marsh.Validator.Syntax.Compile.Answers.{accepts_history-tail_accepts}
use marsh.Validator.Syntax.Compile.Scopes.{is_ok-compile_rule}

of_is_ok :
    {Failure Value : Type 0} (m : Result Failure Value)
    → is_ok m ≡ true
    → (value : Value) × (m ≡ ok value)
of_is_ok (err failure) h = cc
of_is_ok (ok value) h = (value, refl)

module _ (strings : Interner) (ns : TransitionNumbering) where
  pub compile_total :
      (rule : Rule)
      → well_scoped rule ≡ true
      → (r : RuntimeRule) × (compile_rule strings ns rule ≡ ok r)
  compile_total rule h =
      of_is_ok (compile_rule strings ns rule) (rw (is_ok-compile_rule strings ns rule) h)

  unfoldable pub engine : Engine RuntimeRule
  unfolding compile_rule accepts_history
  engine = record {
    compile_rule = compile_rule strings ns;
    accepts_history = accepts_history strings ns;
    compile_total = compile_total;
    accepts_history_lem = accepts_history-tail_accepts strings ns;
  }
