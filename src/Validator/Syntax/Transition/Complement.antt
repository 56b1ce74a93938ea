-- ===== src/Validator/Syntax/Transition/Complement.antt =====
-- Complement and append of rust-validator/src/syntax/transition.rs.
use marsh.Base.{
  ◌≡◌, refl, sym, ap, ◌∙◌, fun_ext, Bool, true, false, not, ◌&&◌, ◌||◌, List, [], ◌∷◌, arith, any,
  all, Bool-cases, inl, inr, if◌then◌else◌, is_empty,
}
use marsh.Base.Members.{All}
use marsh.Validator.Language.Words.{WordSet, splits, splits-is_empty, splits-nothing}
use marsh.Validator.Language.Sequences.{splits-or}
use marsh.Validator.Syntax.Component.{CompiledAtomPattern}
use marsh.Validator.Syntax.Node.{
  TestNode, RegexNode, empty_node, all_node, epsilon_node, concat_node, eval_test,
}
use marsh.Validator.Syntax.Normalize.{test_not}
use marsh.Validator.Syntax.Normalize.Meaning.{IsConsistent}
use marsh.Validator.Syntax.Normalize.Shape.{IsCanonical as IsCanonicalTest}
use marsh.Validator.Syntax.Normalize.Sound.{test_not-complement}
use marsh.Validator.Syntax.Regexes.{regex_is, regex_concat, regex_not}
use marsh.Validator.Syntax.Regexes.Words.{accepts, sequence, sequence-list}
use marsh.Validator.Syntax.Regexes.Laws.{regex_concat-sequence, regex_not-complement, splits-never}
use marsh.Validator.Syntax.Regexes.Parts.{IsCanonical, factors-list}
use marsh.Validator.Syntax.Regexes.Shape.{regex_concat-Canonical, regex_not-Canonical}
use marsh.Validator.Syntax.Transition.{
  TransitionNode, TransitionNodes, const_node, if_node, union_node, intersect_node, not_node,
  append_node, transition_list, transition_empty, transition_all, is_transition_empty,
  is_transition_all, TransitionNumbering, transition_const, Constructors, if_with, transition_union,
  not_with, nots_with, append_with, appends_with, with_suffix, factors_of, transition_not,
  transition_append, transition_if, top,
}
use marsh.Validator.Syntax.Transition.Plain.{
  IsPlain, ArePlain, denote, denote_some, Leads, transition_const-Leads,
}
use marsh.Validator.Syntax.Transition.Denote.{transition_union-Leads}
use marsh.Validator.Syntax.Transition.Clean.{if_with-Leads}
use marsh.Validator.Syntax.Transition.Pairs.{empty-denote}
use marsh.Validator.Syntax.Transition.Distinct.{transition_intersect-Leads}

module _ (ns : TransitionNumbering) {E : Type 0} (sat : E → CompiledAtomPattern → Bool)
    (apart : (a : E) → IsConsistent (sat a)) (e : E) (lower : Constructors) where
  open ns use {nodes as ids}

  all_true :
      (a : TransitionNode) → is_transition_all a ≡ true → (h : List E) → denote sat e a h ≡ true
  unfolding denote accepts
  all_true (const_node all_node) t h = refl
  all_true a t h = cc

  module _
      (meets : (ts : List TransitionNode)
        → All (IsPlain ns) ts
        → Leads sat e ns (lower.intersect ts) (λ h. all (λ t. denote sat e t h) ts)) where
    mutual
      unfolding not_with denote

      not_with-Leads :
          (t : TransitionNode)
          → IsPlain ns t
          → Leads sat e ns (not_with ns lower t) (λ h. not (denote sat e t h))
      not_with-Leads (const_node r) p =
          let (plain, leads) =
            transition_const-Leads sat e ns (regex_not r) (regex_not-Canonical ids r p) in
          (plain, λ h. leads h ∙ regex_not-complement sat r h)
      not_with-Leads (if_node test a b) p =
          let (ct, negated) = test_not-complement ids (sat e) (apart e) test p.0 in
          let guarded =
            if_with-Leads ns sat apart e lower (test_not ids test) transition_all transition_empty
              (λ h. true) (λ h. false) ct (tt, λ h. all_true transition_all refl h)
              (tt, λ h. empty-denote ns sat apart e transition_empty refl h) in
          let spread =
            if_with-Leads ns sat apart e lower test (not_with ns lower a) (not_with ns lower b)
              (λ h. not (denote sat e a h)) (λ h. not (denote sat e b h)) p.0 (not_with-Leads a p.1)
              (not_with-Leads b p.2) in
          elim (Bool-cases (is_transition_all a && is_transition_empty b)) [
            | inl t ↦
                let is_a : is_transition_all a ≡ true = ground (arith, t) in
                let is_b : is_transition_empty b ≡ true = ground (arith, t) in
                rw t (
                  guarded.0,
                  λ h.
                      guarded.1 h
                      ∙ marked (eval_test (sat e) test) (eval_test (sat e) (test_not ids test))
                          (denote sat e a h) (denote sat e b h) negated (all_true a is_a h)
                          (empty-denote ns sat apart e b is_b h),
                )
            | inr t ↦ rw t (
              spread.0,
              λ h.
                  spread.1 h
                  ∙ outside (eval_test (sat e) test) (denote sat e a h) (denote sat e b h),
            )
          ]
        where
          marked :
              (t u x y : Bool)
              → u ≡ not t
              → x ≡ true
              → y ≡ false
              → (if u then true else false) ≡ not (if t then x else y)
          marked t u x y q r s = ground arith

          outside : (t x y : Bool) → (if t then not x else not y) ≡ not (if t then x else y)
          outside t x y = ground arith
      not_with-Leads (union_node ts) p =
          let (ps, fs) = nots-each ts p in
          let (plain, leads) = meets (nots_with ns lower ts) ps in (plain, λ h. leads h ∙ fs h)
      not_with-Leads (intersect_node ts) p = elim p [ ]
      not_with-Leads (not_node t) p = elim p [ ]
      not_with-Leads (append_node t s) p = elim p [ ]

      nots-each :
          (ts : TransitionNodes)
          → ArePlain ns ts
          → All (IsPlain ns) (nots_with ns lower ts)
            × ((h : List E)
                → all (λ t. denote sat e t h) (nots_with ns lower ts)
                  ≡ not (denote_some sat e ts h))
      nots-each TransitionNodes.nil p = (tt, λ h. refl)
      nots-each (TransitionNodes.cons t ts) p =
          let (q, f) = not_with-Leads t p.0 in
          let (qs, fs) = nots-each ts p.1 in ((q, qs), λ h. ground (arith, f h, fs h))

  -- The histories after a transition with a suffix.
  abbrev then_sequence : TransitionNode → List RegexNode → WordSet E
  then_sequence t s = splits (denote sat e t) (sequence sat s)

  abbrev SameSequence : List RegexNode → List RegexNode → Type 0
  SameSequence f s = All (IsCanonical ids) f × ((h : List E) → sequence sat f h ≡ sequence sat s h)

  factors-sequence :
      (r : RegexNode)
      → IsCanonical ids r
      → All (IsCanonical ids) (factors_of ns r)
        × ((h : List E) → sequence sat (factors_of ns r) h ≡ accepts sat r h)
  unfolding accepts
  factors-sequence (concat_node rs) c = (factors-list ids rs c, λ h. sym (sequence-list sat rs h))
  factors-sequence r c = ((c, tt), λ h. splits-is_empty (accepts sat r) h)

  with_suffix-Leads :
      (t : TransitionNode) (s : List RegexNode) (k : List RegexNode → TransitionNode)
      → IsPlain ns t
      → All (IsCanonical ids) s
      → ((f : List RegexNode) → SameSequence f s → Leads sat e ns (k f) (then_sequence t f))
      → Leads sat e ns (with_suffix ns t s k) (then_sequence t s)
  unfolding with_suffix
  with_suffix-Leads t [] k p c right = (p, λ h. sym (splits-is_empty (denote sat e t) h))
  with_suffix-Leads t (r ∷ rs) k p c right =
      let normal : RegexNode = regex_concat (r ∷ rs) in
      let is_sequence = regex_concat-sequence sat (r ∷ rs) in
      let (cf, ff) = factors-sequence normal (regex_concat-Canonical ids (r ∷ rs) c) in
      let (plain, leads) = right (factors_of ns normal) (cf, λ h. ff h ∙ is_sequence h) in
      elim (Bool-cases (regex_is ids normal epsilon_node)) [
        | inl t' ↦
            let same = ids.regex_uid_injective normal epsilon_node (ground (arith, t')) in
            rw t' (
              p,
              λ h.
                  sym (splits-is_empty (denote sat e t) h)
                  ∙ ap (λ (g : WordSet E). splits (denote sat e t) g h)
                      (fun_ext (λ w.
                        epsilon-accepts w ∙ ap (λ x. accepts sat x w) (sym same) ∙ is_sequence w)),
            )
        | inr t' ↦ rw t' (elim (Bool-cases (regex_is ids normal empty_node)) [
          | inl u ↦
              let same = ids.regex_uid_injective normal empty_node (ground (arith, u)) in
              rw u (
                tt,
                λ h.
                    empty-denote ns sat apart e transition_empty refl h
                    ∙ sym (splits-never sat (denote sat e t) h)
                    ∙ ap (λ (g : WordSet E). splits (denote sat e t) g h)
                        (fun_ext (λ w.
                          empty-accepts w ∙ ap (λ x. accepts sat x w) (sym same) ∙ is_sequence w)),
              )
          | inr u ↦ rw u (
            plain,
            λ h.
                leads h
                ∙ ap (λ (g : WordSet E). splits (denote sat e t) g h)
                    (fun_ext (λ w. ff w ∙ is_sequence w)),
          )
        ])
      ]
    where
      epsilon-accepts : (w : List E) → is_empty w ≡ accepts sat epsilon_node w
      epsilon-accepts w = unfold accepts in refl

      empty-accepts : (w : List E) → false ≡ accepts sat empty_node w
      empty-accepts w = unfold accepts in refl

  const_then :
      (r : RegexNode) (f : List RegexNode)
      → IsCanonical ids r
      → All (IsCanonical ids) f
      → Leads sat e ns (transition_const ns (regex_concat (r ∷ f))) (then_sequence (const_node r) f)
  unfolding denote
  const_then r f c cf =
      let (plain, leads) =
        transition_const-Leads sat e ns (regex_concat (r ∷ f))
          (regex_concat-Canonical ids (r ∷ f) (c, cf)) in
      (plain, λ h. leads h ∙ regex_concat-sequence sat (r ∷ f) h)

  if_then :
      (test : TestNode) (a b : TransitionNode) (f : List RegexNode) (h : List E)
      → (if eval_test (sat e) test then then_sequence a f h else then_sequence b f h)
        ≡ then_sequence (if_node test a b) f h
  unfolding denote
  if_then test a b f h = go (eval_test (sat e) test)
    where
      go :
          (t : Bool)
          → (if t then then_sequence a f h else then_sequence b f h)
            ≡ splits (λ w. if t then denote sat e a w else denote sat e b w) (sequence sat f) h
      go true = refl
      go false = refl

  some_then :
      (ts : TransitionNodes) (f : List RegexNode) (h : List E)
      → any (λ t. then_sequence t f h) (transition_list ts)
        ≡ splits (denote_some sat e ts) (sequence sat f) h
  unfolding denote
  some_then TransitionNodes.nil f h = sym (splits-nothing (sequence sat f) h)
  some_then (TransitionNodes.cons t ts) f h =
      ap (λ b. then_sequence t f h || b) (some_then ts f h)
      ∙ sym (splits-or (denote sat e t) (denote_some sat e ts) (sequence sat f) h)

  mutual
    unfolding append_with denote

    -- A suffix is appended to what a plain transition leads to.
    append_with-Leads :
        (t : TransitionNode) (s : List RegexNode)
        → IsPlain ns t
        → All (IsCanonical ids) s
        → Leads sat e ns (append_with ns lower t s) (then_sequence t s)
    append_with-Leads (const_node r) s p c =
        with_suffix-Leads (const_node r) s (λ f. transition_const ns (regex_concat (r ∷ f))) p c
          (λ f same. const_then r f p same.0)
    append_with-Leads (if_node test a b) s p c =
        let leads_a =
          λ (f : List RegexNode) (cf : All (IsCanonical ids) f). append_with-Leads a f p.1 cf in
        let leads_b =
          λ (f : List RegexNode) (cf : All (IsCanonical ids) f). append_with-Leads b f p.2 cf in
        with_suffix-Leads (if_node test a b) s
          (λ f. if_with ns lower test (append_with ns lower a f) (append_with ns lower b f)) p c
          (λ f same.
            let both_branches =
              if_with-Leads ns sat apart e lower test (append_with ns lower a f)
                (append_with ns lower b f) (then_sequence a f) (then_sequence b f) p.0
                (leads_a f same.0) (leads_b f same.0) in
            (both_branches.0, λ h. both_branches.1 h ∙ if_then test a b f h))
    append_with-Leads (union_node ts) s p c =
        let each = λ (f : List RegexNode) (cf : All (IsCanonical ids) f). appends-each ts f p cf in
        with_suffix-Leads (union_node ts) s (λ f. transition_union ns (appends_with ns lower ts f))
          p c
          (λ f same.
            let (qs, fs) = each f same.0 in
            let (plain, leads) =
              transition_union-Leads sat e ns apart (appends_with ns lower ts f) qs in
            (plain, λ h. leads h ∙ fs h ∙ some_then ts f h))
    append_with-Leads (intersect_node ts) s p c = elim p [ ]
    append_with-Leads (not_node t) s p c = elim p [ ]
    append_with-Leads (append_node t f) s p c = elim p [ ]

    appends-each :
        (ts : TransitionNodes) (f : List RegexNode)
        → ArePlain ns ts
        → All (IsCanonical ids) f
        → All (IsPlain ns) (appends_with ns lower ts f)
          × ((h : List E)
              → any (λ t. denote sat e t h) (appends_with ns lower ts f)
                ≡ any (λ t. then_sequence t f h) (transition_list ts))
    appends-each TransitionNodes.nil f p c = (tt, λ h. refl)
    appends-each (TransitionNodes.cons t ts) f p c =
        let (q, g) = append_with-Leads t f p.0 c in
        let (qs, gs) = appends-each ts f p.1 c in ((q, qs), λ h. rw (g h, gs h))

module _ (ns : TransitionNumbering) {E : Type 0} (sat : E → CompiledAtomPattern → Bool)
    (apart : (a : E) → IsConsistent (sat a)) (e : E) where
  -- The complement of a plain transition is plain, and leads where the transition does not.
  pub transition_not-Leads :
      (t : TransitionNode)
      → IsPlain ns t
      → Leads sat e ns (transition_not ns t) (λ h. not (denote sat e t h))
  unfolding transition_not
  transition_not-Leads t p =
      not_with-Leads ns sat apart e (top ns) (transition_intersect-Leads ns sat apart e) t p

  -- An appended suffix is plain, and leads to what the transition does before the suffix.
  pub transition_append-Leads :
      (t : TransitionNode) (s : List RegexNode)
      → IsPlain ns t
      → All (IsCanonical ns.nodes) s
      → Leads sat e ns (transition_append ns t s) (splits (denote sat e t) (sequence sat s))
  unfolding transition_append
  transition_append-Leads t s p c = append_with-Leads ns sat apart e (top ns) t s p c

  -- A conditional of plain transitions is plain, and leads where the branch of the test does.
  pub transition_if-Leads :
      (test : TestNode) (a b : TransitionNode)
      → IsCanonicalTest ns.nodes test
      → IsPlain ns a
      → IsPlain ns b
      → Leads sat e ns
          (transition_if ns test a b)
          (λ h. if eval_test (sat e) test then denote sat e a h else denote sat e b h)
  unfolding transition_if
  transition_if-Leads test a b ct pa pb =
      if_with-Leads ns sat apart e (top ns) test a b (denote sat e a) (denote sat e b) ct
        (pa, λ h. refl) (pb, λ h. refl)
