-- ===== src/Validator/Syntax/Regexes/Words.antt =====
-- The histories that a regular expression of rust-validator/src/syntax/node.rs accepts, over any
-- events and any account of the atoms that match them.
use marsh.Base.{
  ◌≡◌, refl, sym, ap, ◌∙◌, fun_ext, Bool, true, false, not, ◌&&◌, ◌||◌, List, [], ◌∷◌, ◌++◌,
  is_empty, any, all,
}
use marsh.Validator.Language.Words.{WordSet, splits, repeats, single, splits-epsilon}
use marsh.Validator.Language.Sequences.{splits_assoc, repeats-nil}
use marsh.Validator.Syntax.Component.{CompiledAtomPattern}
use marsh.Validator.Syntax.Node.{
  RegexNode, RegexNodes, empty_node, all_node, epsilon_node, test_node, union_node, concat_node,
  star_node, intersect_node, not_node, regex_list, eval_test,
}
use marsh.Validator.Syntax.Regexes.{nullable, any_nullable, all_nullable}

module _ {E : Type 0} (sat : E → CompiledAtomPattern → Bool) where
  unfoldable mutual
    pub accepts : RegexNode → WordSet E
    accepts empty_node h = false
    accepts all_node h = true
    accepts epsilon_node h = is_empty h
    accepts (test_node t) h = single (λ e. eval_test (sat e) t) h
    accepts (union_node rs) h = accepts_some rs h
    accepts (concat_node rs) h = accepts_sequence rs h
    accepts (star_node r) h = repeats (accepts r) h
    accepts (intersect_node rs) h = accepts_each rs h
    accepts (not_node r) h = not (accepts r h)

    pub accepts_some : RegexNodes → WordSet E
    accepts_some RegexNodes.nil h = false
    accepts_some (RegexNodes.cons r rs) h = accepts r h || accepts_some rs h

    pub accepts_each : RegexNodes → WordSet E
    accepts_each RegexNodes.nil h = true
    accepts_each (RegexNodes.cons r rs) h = accepts r h && accepts_each rs h

    pub accepts_sequence : RegexNodes → WordSet E
    accepts_sequence RegexNodes.nil h = is_empty h
    accepts_sequence (RegexNodes.cons r rs) h = splits (accepts r) (accepts_sequence rs) h

  pub some-list :
      (rs : RegexNodes) (h : List E) → accepts_some rs h ≡ any (λ r. accepts r h) (regex_list rs)
  unfolding accepts
  some-list RegexNodes.nil h = refl
  some-list (RegexNodes.cons r rs) h = ap (λ b. accepts r h || b) (some-list rs h)

  pub each-list :
      (rs : RegexNodes) (h : List E) → accepts_each rs h ≡ all (λ r. accepts r h) (regex_list rs)
  unfolding accepts
  each-list RegexNodes.nil h = refl
  each-list (RegexNodes.cons r rs) h = ap (λ b. accepts r h && b) (each-list rs h)

  -- The cached nullability is whether the empty history is accepted.
  mutual
    unfolding accepts nullable splits

    nullable-lem : (r : RegexNode) → accepts r [] ≡ nullable r
    nullable-lem empty_node = refl
    nullable-lem all_node = refl
    nullable-lem epsilon_node = refl
    nullable-lem (test_node t) = refl
    nullable-lem (union_node rs) = nullable-some rs
    nullable-lem (concat_node rs) = nullable-sequence rs
    nullable-lem (star_node r) = repeats-nil (accepts r)
    nullable-lem (intersect_node rs) = nullable-each rs
    nullable-lem (not_node r) = ap not (nullable-lem r)

    nullable-some : (rs : RegexNodes) → accepts_some rs [] ≡ any_nullable rs
    nullable-some RegexNodes.nil = refl
    nullable-some (RegexNodes.cons r rs) = rw (nullable-lem r, nullable-some rs)

    nullable-each : (rs : RegexNodes) → accepts_each rs [] ≡ all_nullable rs
    nullable-each RegexNodes.nil = refl
    nullable-each (RegexNodes.cons r rs) = rw (nullable-lem r, nullable-each rs)

    nullable-sequence : (rs : RegexNodes) → accepts_sequence rs [] ≡ all_nullable rs
    nullable-sequence RegexNodes.nil = refl
    nullable-sequence (RegexNodes.cons r rs) = rw (nullable-lem r, nullable-sequence rs)

  pub accepts-nil : (r : RegexNode) → accepts r [] ≡ nullable r
  accepts-nil r = nullable-lem r

  -- The histories of a list of factors.
  abbrev pub sequence : List RegexNode → WordSet E
  sequence [] h = is_empty h
  sequence (r ∷ rs) h = splits (accepts r) (sequence rs) h

  pub sequence-list :
      (rs : RegexNodes) (h : List E) → accepts_sequence rs h ≡ sequence (regex_list rs) h
  unfolding accepts
  sequence-list RegexNodes.nil h = refl
  sequence-list (RegexNodes.cons r rs) h =
      ap (λ (g : WordSet E). splits (accepts r) g h) (fun_ext (sequence-list rs))

  pub sequence-append :
      (xs ys : List RegexNode) (h : List E)
      → sequence (xs ++ ys) h ≡ splits (sequence xs) (sequence ys) h
  sequence-append [] ys h = sym (splits-epsilon (sequence ys) h)
  sequence-append (x ∷ xs) ys h =
      ap (λ (g : WordSet E). splits (accepts x) g h) (fun_ext (sequence-append xs ys))
      ∙ sym (splits_assoc (accepts x) (sequence xs) (sequence ys) h)
