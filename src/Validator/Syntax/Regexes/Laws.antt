-- ===== src/Validator/Syntax/Regexes/Laws.antt =====
-- Concatenation, star and complement as rust-validator/src/syntax/normalize.rs builds them.
use marsh.Base.{
  ◌≡◌, refl, sym, ap, ◌∙◌, fun_ext, Bool, true, false, not, List, [], ◌∷◌, arith, is_empty, any,
  Bool-cases, inl, inr, ◌==◌,
}
use marsh.Validator.Language.Words.{
  WordSet, splits, repeats, single, splits-epsilon, splits-nothing, splits-is_empty,
}
use marsh.Validator.Language.Sequences.{
  repeats-none, repeats-everything, repeats-any_event, repeats-repeats,
}
use marsh.Validator.Syntax.Component.{CompiledAtomPattern}
use marsh.Validator.Syntax.Node.{
  TestNode, true_node, false_node, RegexNode, empty_node, all_node, epsilon_node, test_node,
  union_node, concat_node, star_node, intersect_node, not_node, regex_list, regex_slice,
  regex_list-slice, eval_test, Numbering,
}
use marsh.Validator.Syntax.Regexes.{
  is_empty_node, flatten_factors, close_concat, regex_concat, regex_not, regex_star, regex_test,
}
use marsh.Validator.Syntax.Regexes.Words.{accepts, sequence, sequence-list, sequence-append}

module _ {E : Type 0} (sat : E → CompiledAtomPattern → Bool) where
  pub splits-never : (f : WordSet E) (h : List E) → splits f (λ _. false) h ≡ false
  unfolding splits
  splits-never f [] = ground arith
  splits-never f (e ∷ h) = ground (arith, splits-never (λ k. f (e ∷ k)) h)

  any-is_empty_node :
      (rs : List RegexNode) (h : List E) → any is_empty_node rs ≡ true → sequence sat rs h ≡ false
  unfolding accepts
  any-is_empty_node [] h e = cc
  any-is_empty_node (empty_node ∷ rs) h e = splits-nothing (sequence sat rs) h
  any-is_empty_node (r ∷ rs) h e =
      ap (λ (g : WordSet E). splits (accepts sat r) g h) (fun_ext (λ k. any-is_empty_node rs k e))
      ∙ splits-never (accepts sat r) h

  flatten_factors-sequence :
      (rs : List RegexNode) (h : List E) → sequence sat (flatten_factors rs) h ≡ sequence sat rs h
  unfolding flatten_factors accepts
  flatten_factors-sequence [] h = refl
  flatten_factors-sequence (epsilon_node ∷ rs) h =
      flatten_factors-sequence rs h ∙ sym (splits-epsilon (sequence sat rs) h)
  flatten_factors-sequence (concat_node qs ∷ rs) h =
      sequence-append sat (regex_list qs) (flatten_factors rs) h
      ∙ ap (λ (g : WordSet E). splits (sequence sat (regex_list qs)) g h)
          (fun_ext (flatten_factors-sequence rs))
      ∙ ap (λ (f : WordSet E). splits f (sequence sat rs) h)
          (fun_ext (λ k. sym (sequence-list sat qs k)))
  flatten_factors-sequence (r ∷ rs) h =
      ap (λ (g : WordSet E). splits (accepts sat r) g h) (fun_ext (flatten_factors-sequence rs))

  close_concat-sequence :
      (rs : List RegexNode) (h : List E) → accepts sat (close_concat rs) h ≡ sequence sat rs h
  unfolding accepts
  close_concat-sequence [] h = refl
  close_concat-sequence (r ∷ []) h = sym (splits-is_empty (accepts sat r) h)
  close_concat-sequence (r ∷ s ∷ rs) h =
      sequence-list sat (regex_slice (r ∷ s ∷ rs)) h
      ∙ ap (λ l. sequence sat l h) (regex_list-slice (r ∷ s ∷ rs))

  -- A concatenation accepts the histories that its factors accept one after the other.
  pub regex_concat-sequence :
      (rs : List RegexNode) (h : List E) → accepts sat (regex_concat rs) h ≡ sequence sat rs h
  unfolding regex_concat accepts
  regex_concat-sequence rs h = elim (Bool-cases (any is_empty_node rs)) [
    | inl e ↦ rw e (sym (any-is_empty_node rs h e))
    | inr e ↦ rw e (close_concat-sequence (flatten_factors rs) h ∙ flatten_factors-sequence rs h)
  ]

  -- A complement accepts exactly the histories that its operand does not.
  pub regex_not-complement :
      (r : RegexNode) (h : List E) → accepts sat (regex_not r) h ≡ not (accepts sat r h)
  unfolding regex_not accepts
  regex_not-complement (not_node r) h = ground arith
  regex_not-complement r h = refl

  module _ (ids : Numbering) where
    pub regex_test-single :
        (t : TestNode) (h : List E)
        → accepts sat (regex_test ids t) h ≡ single (λ e. eval_test (sat e) t) h
    unfolding regex_test accepts eval_test
    regex_test-single t h = elim (Bool-cases (ids.test_uid t == ids.test_uid false_node)) [
      | inl e ↦ rw (e, ids.test_uid_injective t false_node (ground (arith, e))) (sym (never h))
      | inr e ↦ rw e refl
    ]
      where
        never : (k : List E) → single (λ _. false) k ≡ false
        never [] = refl
        never (x ∷ []) = refl
        never (x ∷ y ∷ k) = refl

    -- A star accepts the histories that are sequences of histories of its operand.
    pub regex_star-repeats :
        (r : RegexNode) (h : List E) → accepts sat (regex_star ids r) h ≡ repeats (accepts sat r) h
    unfolding regex_star accepts
    regex_star-repeats empty_node h = sym (repeats-none (λ _. false) (λ e k. refl) h)
    regex_star-repeats epsilon_node h = sym (repeats-none is_empty (λ e k. refl) h)
    regex_star-repeats all_node h = sym (repeats-everything h)
    regex_star-repeats (test_node t) h =
        elim (Bool-cases (ids.test_uid t == ids.test_uid true_node)) [
          | inl e ↦
              rw (e, ids.test_uid_injective t true_node (ground (arith, e)))
                (sym (unfold eval_test in repeats-any_event h))
          | inr e ↦ rw e refl
        ]
    regex_star-repeats (star_node r) h = sym (repeats-repeats (accepts sat r) h)
    regex_star-repeats (union_node rs) h = refl
    regex_star-repeats (concat_node rs) h = refl
    regex_star-repeats (intersect_node rs) h = refl
    regex_star-repeats (not_node r) h = refl
