-- ===== src/Validator/Syntax/Transition/Plain.antt =====
-- Transitions of rust-validator/src/syntax/node.rs: which are plain, what they lead to, and the
-- smallest ones that transition.rs builds.
use marsh.Base.{
  ◌≡◌, refl, ap, ◌∙◌, Bool, true, false, not, ◌&&◌, ◌||◌, List, [], ◌∷◌, ◌++◌, arith, any,
  Bool-cases, inl, inr, if◌then◌else◌,
}
use marsh.Base.Members.{All}
use marsh.Validator.Language.Words.{WordSet, splits}
use marsh.Validator.Syntax.Component.{CompiledAtomPattern}
use marsh.Validator.Syntax.Node.{
  TestNode, true_node, false_node, RegexNode, empty_node, all_node, epsilon_node, eval_test,
}
use marsh.Validator.Syntax.Normalize.{test_is}
use marsh.Validator.Syntax.Normalize.Shape.{IsCanonical as IsCanonicalTest}
use marsh.Validator.Syntax.Regexes.Words.{accepts, sequence}
use marsh.Validator.Syntax.Regexes.Parts.{IsCanonical}
use marsh.Validator.Syntax.Transition.{
  TransitionNode, TransitionNodes, const_node, if_node, union_node, intersect_node, not_node,
  append_node, transition_list, transition_slice, constants_of, non_constants, TransitionNumbering,
  transition_is, transition_const, intern_transition_if,
}

abbrev mutual
  pub IsPlain : TransitionNumbering → TransitionNode → Type 0
  IsPlain ns (const_node r) = IsCanonical ns.nodes r
  IsPlain ns (if_node test a b) = IsCanonicalTest ns.nodes test × IsPlain ns a × IsPlain ns b
  IsPlain ns (union_node ts) = ArePlain ns ts
  IsPlain ns (intersect_node ts) = ⊥
  IsPlain ns (not_node t) = ⊥
  IsPlain ns (append_node t s) = ⊥

  pub ArePlain : TransitionNumbering → TransitionNodes → Type 0
  ArePlain ns TransitionNodes.nil = Unit
  ArePlain ns (TransitionNodes.cons t ts) = IsPlain ns t × ArePlain ns ts

pub ArePlain-list :
    (ns : TransitionNumbering) (ts : TransitionNodes)
    → ArePlain ns ts
    → All (IsPlain ns) (transition_list ts)
ArePlain-list ns TransitionNodes.nil h = tt
ArePlain-list ns (TransitionNodes.cons t ts) h = (h.0, ArePlain-list ns ts h.1)

pub ArePlain-slice :
    (ns : TransitionNumbering) (ts : List TransitionNode)
    → All (IsPlain ns) ts
    → ArePlain ns (transition_slice ts)
ArePlain-slice ns [] h = tt
ArePlain-slice ns (t ∷ ts) h = (h.0, ArePlain-slice ns ts h.1)

module _ {E : Type 0} (sat : E → CompiledAtomPattern → Bool) (e : E) where
  unfoldable mutual
    pub denote : TransitionNode → WordSet E
    denote (const_node r) h = accepts sat r h
    denote (if_node test a b) h = if eval_test (sat e) test then denote a h else denote b h
    denote (union_node ts) h = denote_some ts h
    denote (intersect_node ts) h = denote_each ts h
    denote (not_node t) h = not (denote t h)
    denote (append_node t s) h = splits (denote t) (sequence sat s) h

    pub denote_some : TransitionNodes → WordSet E
    denote_some TransitionNodes.nil h = false
    denote_some (TransitionNodes.cons t ts) h = denote t h || denote_some ts h

    pub denote_each : TransitionNodes → WordSet E
    denote_each TransitionNodes.nil h = true
    denote_each (TransitionNodes.cons t ts) h = denote t h && denote_each ts h

  pub some-list :
      (ts : TransitionNodes) (h : List E)
      → denote_some ts h ≡ any (λ t. denote t h) (transition_list ts)
  unfolding denote
  some-list TransitionNodes.nil h = refl
  some-list (TransitionNodes.cons t ts) h = ap (λ b. denote t h || b) (some-list ts h)

  pub some-slice :
      (ts : List TransitionNode) (h : List E)
      → denote_some (transition_slice ts) h ≡ any (λ t. denote t h) ts
  unfolding denote
  some-slice [] h = refl
  some-slice (t ∷ ts) h = ap (λ b. denote t h || b) (some-slice ts h)

  pub any-append :
      {T : Type 0} (f : T → Bool) (xs ys : List T) → any f (xs ++ ys) ≡ (any f xs || any f ys)
  any-append f [] ys = refl
  any-append f (x ∷ xs) ys = ground (arith, any-append f xs ys)

  pub split_constants-any :
      (ts : List TransitionNode) (h : List E)
      → any (λ t. denote t h) ts
        ≡ (any (λ t. denote t h) (non_constants ts) || any (λ r. accepts sat r h) (constants_of ts))
  unfolding non_constants constants_of denote
  split_constants-any [] h = refl
  split_constants-any (const_node r ∷ ts) h = ground (arith, split_constants-any ts h)
  split_constants-any (t ∷ ts) h = ground (arith, split_constants-any ts h)

  module _ (ns : TransitionNumbering) where
    open ns use {nodes as ids, transition_uid, transition_uid_injective}

    -- A plain transition that leads to the given histories.
    abbrev pub Leads : TransitionNode → WordSet E → Type 0
    Leads t f = IsPlain ns t × ((h : List E) → denote t h ≡ f h)

    pub transition_const-eq : (r : RegexNode) → transition_const ns r ≡ const_node r
    unfolding transition_const
    transition_const-eq r = ground (
      arith,
      λ (p : ids.regex_uid r ≡ ids.regex_uid empty_node).
          ap const_node (ids.regex_uid_injective r empty_node p),
      λ (p : ids.regex_uid r ≡ ids.regex_uid all_node).
          ap const_node (ids.regex_uid_injective r all_node p),
      λ (p : ids.regex_uid r ≡ ids.regex_uid epsilon_node).
          ap const_node (ids.regex_uid_injective r epsilon_node p),
    )

    pub transition_const-Leads :
        (r : RegexNode) → IsCanonical ids r → Leads (transition_const ns r) (accepts sat r)
    unfolding denote
    transition_const-Leads r c = rw (transition_const-eq r) (c, λ h. refl)

    -- Each branch leads to the histories where its test has it taken.
    pub intern_if-Leads :
        (test : TestNode) (a b : TransitionNode) (m : WordSet E)
        → IsCanonicalTest ids test
        → IsPlain ns a
        → IsPlain ns b
        → (eval_test (sat e) test ≡ true → (h : List E) → denote a h ≡ m h)
        → (eval_test (sat e) test ≡ false → (h : List E) → denote b h ≡ m h)
        → Leads (intern_transition_if ns test a b) m
    unfolding intern_transition_if
    intern_if-Leads test a b m c pa pb la lb = elim (Bool-cases (test_is ids test true_node)) [
      | inl t ↦
          let holds =
            ap (eval_test (sat e)) (ids.test_uid_injective test true_node (ground (arith, t))) in
          rw t (pa, la (holds ∙ eval_true))
      | inr t ↦ rw t (elim (Bool-cases (test_is ids test false_node)) [
        | inl u ↦
            let fails =
              ap (eval_test (sat e)) (ids.test_uid_injective test false_node (ground (arith, u))) in
            rw u (pb, lb (fails ∙ eval_false))
        | inr u ↦ rw u (elim (Bool-cases (transition_is ns a b)) [
          | inl s ↦ rw s (pa, λ h. either h (transition_uid_injective a b (ground (arith, s))))
          | inr s ↦ rw s ((c, pa, pb), λ h. unfold denote in choice h)
        ])
      ])
    ]
      where
        eval_true : eval_test (sat e) true_node ≡ true
        eval_true = unfold eval_test in refl

        eval_false : eval_test (sat e) false_node ≡ false
        eval_false = unfold eval_test in refl

        choice : (h : List E) → (if eval_test (sat e) test then denote a h else denote b h) ≡ m h
        choice h = elim (Bool-cases (eval_test (sat e) test)) [
          | inl t ↦ rw t (la t h)
          | inr t ↦ rw t (lb t h)
        ]

        either : (h : List E) → a ≡ b → denote a h ≡ m h
        either h same = elim (Bool-cases (eval_test (sat e) test)) [
          | inl t ↦ la t h
          | inr t ↦ ap (λ x. denote x h) same ∙ lb t h
        ]

    pub intern_if-IsPlain :
        (test : TestNode) (a b : TransitionNode)
        → IsCanonicalTest ids test
        → IsPlain ns a
        → IsPlain ns b
        → IsPlain ns (intern_transition_if ns test a b)
    unfolding intern_transition_if
    intern_if-IsPlain test a b c pa pb = elim (Bool-cases (test_is ids test true_node)) [
      | inl t ↦ rw t pa
      | inr t ↦ rw t (elim (Bool-cases (test_is ids test false_node)) [
        | inl u ↦ rw u pb
        | inr u ↦ rw u (elim (Bool-cases (transition_is ns a b)) [
          | inl s ↦ rw s pa
          | inr s ↦ rw s (c, pa, pb)
        ])
      ])
    ]
