-- ===== src/Validator/Syntax/Compile/Sound.antt =====
-- A tail that compiles becomes a canonical expression with the language of the tail.
use marsh.Base.{◌≡◌, refl, ap, ◌∙◌, fun_ext, Bool, not, List, [], ◌∷◌, any, all as all_of_list}
use marsh.Base.Results.{ok, map-eq-ok, map2-eq-ok}
use marsh.Base.Members.{All}
use marsh.Validator.Model.{Event, read}
use marsh.Validator.Source.{
  Comparison, eq, neq, TestExpr, TestExprs, true_test, false_test, atom, and, or, RegexExpr,
  RegexExprs, empty, all, epsilon, test, union, concat, star, intersect, complement,
}
use marsh.Validator.Language.{
  Bindings, compared, holds, all_hold, any_holds, member, in_some, in_each, in_sequence,
}
use marsh.Validator.Language.Words.{WordSet, splits, repeats, single}
use marsh.Validator.Syntax.Component.{Interner, CompiledAtomPattern, atom_matches}
use marsh.Validator.Syntax.Node.{
  TestNode, true_node, false_node, atom_node, RegexNode, empty_node, all_node, epsilon_node,
  eval_test, compare_with,
}
use marsh.Validator.Syntax.Normalize.{TestConnective, test_and, test_or}
use marsh.Validator.Syntax.Normalize.Meaning.{IsConsistent}
use marsh.Validator.Syntax.Normalize.Shape.{IsCanonical as IsCanonicalTest}
use marsh.Validator.Syntax.Normalize.Sound.{test_and-all, test_or-any}
use marsh.Validator.Syntax.Regexes.{
  regex_test, regex_union, regex_concat, regex_star, regex_intersect, regex_not,
}
use marsh.Validator.Syntax.Regexes.Words.{accepts, sequence}
use marsh.Validator.Syntax.Regexes.Laws.{
  regex_concat-sequence, regex_not-complement, regex_test-single, regex_star-repeats,
}
use marsh.Validator.Syntax.Regexes.Parts.{IsCanonical, regex_test-IsPart}
use marsh.Validator.Syntax.Regexes.Shape.{
  regex_concat-Canonical, regex_not-Canonical, regex_star-Canonical, regex_union-Canonical,
  regex_intersect-Canonical,
}
use marsh.Validator.Syntax.Regexes.Sound.{regex_union-any, regex_intersect-all}
use marsh.Validator.Syntax.Transition.{TransitionNumbering}
use marsh.Validator.Syntax.Environment.{VariableEnvironment}
use marsh.Validator.Syntax.Compile.{
  compile_atom_pattern, compile_test, compile_tests, compile_regex, compile_regexes,
}
use marsh.Validator.Syntax.Compile.Resolved.{substitution_of}
use marsh.Validator.Syntax.Compile.Values.{atom_matches-holds, atom_matches-IsConsistent}
use marsh.Validator.Syntax.Compile.Translated.{compile_atom_pattern-translate}

module _ (strings : Interner) (ns : TransitionNumbering) (env : VariableEnvironment)
    (b : Bindings) where
  open ns use {nodes as ids}

  -- The atoms that match an event.
  abbrev pub matching : Event → CompiledAtomPattern → Bool
  matching e p = atom_matches strings (substitution_of strings b) p e

  apart : (e : Event) → IsConsistent (matching e)
  apart e = atom_matches-IsConsistent strings (substitution_of strings b) e

  -- Whether a test is canonical does not depend on the event.
  any_event : Event
  any_event = record { principal = ""; action = read; resource = [] }

  compare-same : (c : Comparison) {m n : Bool} → m ≡ n → compare_with c m ≡ compared c n
  compare-same eq e = e
  compare-same neq e = ap not e

  mutual
    unfolding compile_test eval_test holds

    compile_test-holds :
        (t : TestExpr) (n : TestNode)
        → compile_test strings ns env t ≡ ok n
        → IsCanonicalTest ids n × ((e : Event) → eval_test (matching e) n ≡ holds b t e)
    compile_test-holds true_test n e = let same : true_node ≡ n = cc in rw (← same) (tt, λ e'. refl)
    compile_test-holds false_test n e =
        let same : false_node ≡ n = cc in rw (← same) (tt, λ e'. refl)
    compile_test-holds (atom c p) n e =
        let (q, eq', last) =
          map-eq-ok (compile_atom_pattern strings env p) (λ q. atom_node c q) e in
        rw (← last, compile_atom_pattern-translate strings env p q eq')
          (tt, λ e'. compare-same c (atom_matches-holds strings b p e'))
    compile_test-holds (and ts) n e =
        let (ms, es, last) = map-eq-ok (compile_tests strings ns env ts) (test_and ids) e in
        let (cs, alls, anys) = compile_tests-hold ts ms es in
        rw (← last) (
          (test_and-all ids (matching any_event) (apart any_event) ms cs).0,
          λ e'. (test_and-all ids (matching e') (apart e') ms cs).1 ∙ alls e',
        )
    compile_test-holds (or ts) n e =
        let (ms, es, last) = map-eq-ok (compile_tests strings ns env ts) (test_or ids) e in
        let (cs, alls, anys) = compile_tests-hold ts ms es in
        rw (← last) (
          (test_or-any ids (matching any_event) (apart any_event) ms cs).0,
          λ e'. (test_or-any ids (matching e') (apart e') ms cs).1 ∙ anys e',
        )

    compile_tests-hold :
        (ts : TestExprs) (ms : List TestNode)
        → compile_tests strings ns env ts ≡ ok ms
        → All (IsCanonicalTest ids) ms
          × ((e : Event) → all_of_list (eval_test (matching e)) ms ≡ all_hold b ts e)
          × ((e : Event) → any (eval_test (matching e)) ms ≡ any_holds b ts e)
    compile_tests-hold TestExprs.nil ms e =
        let same : [] ≡ ms = cc in rw (← same) (tt, λ e'. refl, λ e'. refl)
    compile_tests-hold (TestExprs.cons t ts) ms e =
        let (m, rest, em, es, last) =
          map2-eq-ok (compile_test strings ns env t) (compile_tests strings ns env ts)
            (λ m rest. m ∷ rest) e in
        let (c, f) = compile_test-holds t m em in
        let (cs, alls, anys) = compile_tests-hold ts rest es in
        rw (← last) ((c, cs), λ e'. rw (f e', alls e'), λ e'. rw (f e', anys e'))

  mutual
    unfolding compile_regex accepts member

    compile_regex-member :
        (r : RegexExpr) (n : RegexNode)
        → compile_regex strings ns env r ≡ ok n
        → IsCanonical ids n × ((h : List Event) → accepts matching n h ≡ member b r h)
    compile_regex-member empty n e = let same : empty_node ≡ n = cc in rw (← same) (tt, λ h. refl)
    compile_regex-member all n e = let same : all_node ≡ n = cc in rw (← same) (tt, λ h. refl)
    compile_regex-member epsilon n e =
        let same : epsilon_node ≡ n = cc in rw (← same) (tt, λ h. refl)
    compile_regex-member (test t) n e =
        let (m, em, last) = map-eq-ok (compile_test strings ns env t) (regex_test ids) e in
        let (c, f) = compile_test-holds t m em in
        rw (← last) (
          (regex_test-IsPart ids TestConnective.and m c).0,
          λ h. regex_test-single matching ids m h ∙ ap (λ p. single p h) (fun_ext f),
        )
    compile_regex-member (union rs) n e =
        let (ms, es, last) = map-eq-ok (compile_regexes strings ns env rs) (regex_union ids) e in
        let (cs, somes, eachs, seqs) = compile_regexes-member rs ms es in
        rw (← last) (
          regex_union-Canonical ids ms cs,
          λ h. regex_union-any ids matching apart ms cs h ∙ somes h,
        )
    compile_regex-member (concat rs) n e =
        let (ms, es, last) = map-eq-ok (compile_regexes strings ns env rs) regex_concat e in
        let (cs, somes, eachs, seqs) = compile_regexes-member rs ms es in
        rw (← last)
          (regex_concat-Canonical ids ms cs, λ h. regex_concat-sequence matching ms h ∙ seqs h)
    compile_regex-member (star r) n e =
        let (m, em, last) = map-eq-ok (compile_regex strings ns env r) (regex_star ids) e in
        let (c, f) = compile_regex-member r m em in
        rw (← last) (
          regex_star-Canonical ids m c,
          λ h.
              regex_star-repeats matching ids m h
              ∙ ap (λ (g : WordSet Event). repeats g h) (fun_ext f),
        )
    compile_regex-member (intersect rs) n e =
        let (ms, es, last) =
          map-eq-ok (compile_regexes strings ns env rs) (regex_intersect ids) e in
        let (cs, somes, eachs, seqs) = compile_regexes-member rs ms es in
        rw (← last) (
          regex_intersect-Canonical ids ms cs,
          λ h. regex_intersect-all ids matching apart ms cs h ∙ eachs h,
        )
    compile_regex-member (complement r) n e =
        let (m, em, last) = map-eq-ok (compile_regex strings ns env r) regex_not e in
        let (c, f) = compile_regex-member r m em in
        rw (← last)
          (regex_not-Canonical ids m c, λ h. regex_not-complement matching m h ∙ ap not (f h))

    compile_regexes-member :
        (rs : RegexExprs) (ms : List RegexNode)
        → compile_regexes strings ns env rs ≡ ok ms
        → All (IsCanonical ids) ms
          × ((h : List Event) → any (λ m. accepts matching m h) ms ≡ in_some b rs h)
          × ((h : List Event) → all_of_list (λ m. accepts matching m h) ms ≡ in_each b rs h)
          × ((h : List Event) → sequence matching ms h ≡ in_sequence b rs h)
    compile_regexes-member RegexExprs.nil ms e =
        let same : [] ≡ ms = cc in rw (← same) (tt, λ h. refl, λ h. refl, λ h. refl)
    compile_regexes-member (RegexExprs.cons r rs) ms e =
        let (m, rest, em, es, last) =
          map2-eq-ok (compile_regex strings ns env r) (compile_regexes strings ns env rs)
            (λ m rest. m ∷ rest) e in
        let (c, f) = compile_regex-member r m em in
        let (cs, somes, eachs, seqs) = compile_regexes-member rs rest es in
        rw (← last) (
          (c, cs),
          λ h. rw (f h, somes h),
          λ h. rw (f h, eachs h),
          λ h.
              ap (λ (g : WordSet Event). splits g (sequence matching rest) h) (fun_ext f)
              ∙ ap (λ (g : WordSet Event). splits (member b r) g h) (fun_ext seqs),
        )

  -- A tail that compiles becomes a canonical expression, which accepts the histories of the tail
  -- under the bindings.
  pub compile_regex-accepts :
      (r : RegexExpr) (n : RegexNode)
      → compile_regex strings ns env r ≡ ok n
      → IsCanonical ids n × ((h : List Event) → accepts matching n h ≡ member b r h)
  compile_regex-accepts r n e = compile_regex-member r n e
