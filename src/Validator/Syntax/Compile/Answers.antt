-- ===== src/Validator/Syntax/Compile/Answers.antt =====
-- A rule that rust-validator/src/syntax/compile.rs compiles answers as the rule means.
use marsh.Base.{◌≡◌, ap, ◌∙◌, List, some, Option-cases, inl, inr}
use marsh.Base.Results.{ok, ◌>>=◌, >>=-eq-ok, map-eq-ok}
use marsh.Validator.Model.{Event}
use marsh.Validator.Source.{Rule}
use marsh.Validator.Language.{bind_head, tail_accepts}
use marsh.Validator.Syntax.Component.{Interner}
use marsh.Validator.Syntax.Transition.{TransitionNumbering}
use marsh.Validator.Syntax.Symbolic.Precompile.{precompile, table_at}
use marsh.Validator.Syntax.Symbolic.Budget.{precompile_bounded, table_at-built}
use marsh.Validator.Syntax.Symbolic.Replay.{replay_history-accepts}
use marsh.Validator.Syntax.Compile.{
  RuntimeRule, compile_head, compile_regex, compile_rule, accepts_history,
}
use marsh.Validator.Syntax.Compile.Resolved.{substitution_of}
use marsh.Validator.Syntax.Compile.Values.{match_candidate-bind_head, atom_matches-IsConsistent}
use marsh.Validator.Syntax.Compile.Translated.{compile_head-translate}
use marsh.Validator.Syntax.Compile.Sound.{matching, compile_regex-accepts}

module _ (strings : Interner) (ns : TransitionNumbering) where
  -- A compiled rule answers on every history and candidate as its source rule means: nothing where
  -- the head does not match, and otherwise whether the history is in the language of the tail.
  pub accepts_history-tail_accepts :
      (rule : Rule) (r : RuntimeRule) (h : List Event) (candidate : Event)
      → compile_rule strings ns rule ≡ ok r
      → accepts_history strings ns r h candidate ≡ tail_accepts rule h candidate
  unfolding compile_rule accepts_history tail_accepts
  accepts_history-tail_accepts rule r h candidate e =
      let ((head, env), eh, e₁) =
        >>=-eq-ok (compile_head strings rule.head)
          (λ (head, env). do
            tail ← compile_regex strings ns env rule.tail
            ok (record { mode = rule.mode; head = head; tail = tail; tables = precompile ns tail }))
          e in
      let (tail, et, last) =
        map-eq-ok (compile_regex strings ns env rule.tail)
          (λ tail. (record {
            mode = rule.mode;
            head = head;
            tail = tail;
            tables = precompile ns tail;
          }))
          e₁ in
      let built = (precompile_bounded ns tail).3 in
      rw
        (
          ← last,
          compile_head-translate strings rule.head (head, env) eh,
          match_candidate-bind_head strings rule.head candidate,
        )
        (elim (Option-cases (bind_head rule.head candidate)) [
          | inl none_matches ↦ rw none_matches
          | inr (b, matches) ↦
              let (canonical, f) = compile_regex-accepts strings ns env b rule.tail tail et in
              rw matches (
                replay_history-accepts ns (matching strings ns env b)
                  (λ t. table_at ns t (precompile ns tail))
                  (λ t rows at. (table_at-built ns t (precompile ns tail) rows built at).0)
                  (λ e'. atom_matches-IsConsistent strings (substitution_of strings b) e') tail h
                  canonical
                ∙ ap some (f h))
        ])
