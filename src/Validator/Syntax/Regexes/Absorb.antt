-- ===== src/Validator/Syntax/Regexes/Absorb.antt =====
-- Absorption among the operands of unions and intersections in rust-
-- validator/src/syntax/normalize.rs.
use marsh.Base.{
  ℕ, suc, ◌+◌, ◌<◌, ◌≡◌, ◌≢◌, inl, inr, refl, sym, ap, ◌∙◌, Bool, true, false, not, ◌&&◌, List,
  none, some, arith, any, all, is_some_and, Bool-cases,
}
use marsh.Base.Members.{All, In, any-In, In-any, In-all, All-In, All-intro, all-retain-covered}
use marsh.Base.Canonical.{IsStrict}
use marsh.Base.Subsets.{any-uid, total, In-le-total, subset-total}
use marsh.Validator.Syntax.Component.{CompiledAtomPattern}
use marsh.Validator.Syntax.Node.{
  RegexNode, RegexNodes, empty_node, all_node, epsilon_node, test_node, union_node, concat_node,
  star_node, intersect_node, not_node, regex_list, regex_slice, regex_slice-list, Numbering,
}
use marsh.Validator.Syntax.Normalize.{TestConnective, and, or, dual}
use marsh.Validator.Syntax.Regexes.{
  regex_children, regex_absorbs, regex_absorbed_by_sibling, has_regex, drop_absorbed,
}
use marsh.Validator.Syntax.Regexes.Meaning.{meaning, dual-children-meaning}

-- Nodes of a tree, other than those below a factor, a star or a complement.
mutual
  weight : RegexNode → ℕ
  weight empty_node = 1
  weight all_node = 1
  weight epsilon_node = 1
  weight (test_node t) = 1
  weight (union_node rs) = suc (weights rs)
  weight (concat_node rs) = 1
  weight (star_node r) = 1
  weight (intersect_node rs) = suc (weights rs)
  weight (not_node r) = 1

  weights : RegexNodes → ℕ
  weights RegexNodes.nil = 0
  weights (RegexNodes.cons r rs) = weight r + weights rs

weight-pos : (r : RegexNode) → 0 < weight r
unfolding weight
weight-pos empty_node = omega arith
weight-pos r = omega arith

module _ (ids : Numbering) where
  open ids use {regex_uid, regex_uid_injective}

  weights-total : (rs : RegexNodes) → weights rs ≡ total regex_uid weight (regex_list rs)
  unfolding weight
  weights-total RegexNodes.nil = refl
  weights-total (RegexNodes.cons r rs) = ap (λ n. weight r + n) (weights-total rs)

  abbrev pub IsOperand : TestConnective → RegexNode → Type 0
  IsOperand c r =
      (regex_children c r ≡ none)
      × ((rs : List RegexNode) → regex_children (dual c) r ≡ some rs → IsStrict regex_uid rs)

  children-weight :
      (d : TestConnective) (r : RegexNode) (rs : List RegexNode)
      → regex_children d r ≡ some rs
      → weight r ≡ suc (total regex_uid weight rs)
  unfolding weight
  children-weight and (intersect_node qs) rs e =
      let same : regex_list qs ≡ rs = cc in
      ap suc (weights-total qs ∙ ap (total regex_uid weight) same)
  children-weight or (union_node qs) rs e =
      let same : regex_list qs ≡ rs = cc in
      ap suc (weights-total qs ∙ ap (total regex_uid weight) same)
  children-weight and r rs e = cc
  children-weight or r rs e = cc

  children-injective :
      (d : TestConnective) (r s : RegexNode) (rs : List RegexNode)
      → regex_children d r ≡ some rs
      → regex_children d s ≡ some rs
      → r ≡ s
  children-injective and (intersect_node ps) (intersect_node qs) rs e f =
      ap intersect_node (sym (regex_slice-list ps) ∙ ap regex_slice (cc) ∙ regex_slice-list qs)
  children-injective or (union_node ps) (union_node qs) rs e f =
      ap union_node (sym (regex_slice-list ps) ∙ ap regex_slice (cc) ∙ regex_slice-list qs)
  children-injective and r s rs e f = cc
  children-injective or r s rs e f = cc

  data Absorption (c : TestConnective) (x y : RegexNode) : Type 0 where
    direct :
        (xs : List RegexNode)
        → regex_children (dual c) x ≡ some xs
        → has_regex ids xs y ≡ true
        → Absorption c x y
    general :
        (xs ys : List RegexNode)
        → regex_children (dual c) x ≡ some xs
        → regex_children (dual c) y ≡ some ys
        → all (has_regex ids xs) ys ≡ true
        → Absorption c x y

  and-true : (a b : Bool) → (a && b) ≡ true → b ≡ true
  and-true a b h = ground arith

  absorption :
      (d : TestConnective) (x y : RegexNode)
      → regex_children d x ≡ none
      → regex_children d y ≡ none
      → regex_absorbs ids x y ≡ true
      → Absorption d x y
  unfolding regex_absorbs
  absorption and (union_node xs) (union_node ys) nx ny h =
      general (regex_list xs) (regex_list ys) refl refl (and-true _ _ h)
  absorption or (intersect_node xs) (intersect_node ys) nx ny h =
      general (regex_list xs) (regex_list ys) refl refl (and-true _ _ h)
  absorption and (union_node xs) y nx ny h = direct (regex_list xs) refl (and-true _ _ h)
  absorption or (intersect_node xs) y nx ny h = direct (regex_list xs) refl (and-true _ _ h)
  absorption and x y nx ny h = absurd (ground arith)
  absorption or x y nx ny h = absurd (ground arith)

  absorbs-other : (x y : RegexNode) → regex_absorbs ids x y ≡ true → x ≢ y
  unfolding regex_absorbs
  absorbs-other x y h e = ground (arith, ap regex_uid e)

  module _ {E : Type 0} (sat : E → CompiledAtomPattern → Bool) (h : List E)
      (c : TestConnective) where
    abbrev Smaller : RegexNode → RegexNode → Type 0
    Smaller x y = (weight y < weight x) × (meaning sat h c y ≡ true → meaning sat h c x ≡ true)

    Absorption-Smaller :
        (x y : RegexNode) → IsOperand c x → IsOperand c y → x ≢ y → Absorption c x y → Smaller x y
    Absorption-Smaller x y px py ne (direct xs e has) =
        let at : In y xs = any-uid regex_uid regex_uid_injective y xs has in
        (
          omega (arith, children-weight (dual c) x xs e, In-le-total regex_uid weight y xs at),
          λ holds. dual-children-meaning sat h c x xs e ∙ In-any (meaning sat h c) y xs at holds,
        )
    Absorption-Smaller x y px py ne (general xs ys e f has) = (lighter, implied)
      where
        inside : (z : RegexNode) → In z ys → In z xs
        inside z at =
            any-uid regex_uid regex_uid_injective z xs (In-all (has_regex ids xs) z ys at has)

        lighter : weight y < weight x
        lighter =
            elim (subset-total regex_uid weight weight-pos xs ys (px.1 xs e) (py.1 ys f)
              (All-intro (λ z. In z xs) ys inside)) [
                | inl same ↦ absurd (ne (children-injective (dual c) x y xs e (f ∙ ap some same)))
                | inr lt ↦
                    omega (arith, children-weight (dual c) x xs e, children-weight (dual c) y ys f)
              ]

        implied : meaning sat h c y ≡ true → meaning sat h c x ≡ true
        implied holds =
            let (z, at, e') =
              any-In (meaning sat h c) ys (sym (dual-children-meaning sat h c y ys f) ∙ holds) in
            dual-children-meaning sat h c x xs e ∙ In-any (meaning sat h c) z xs (inside z at) e'

    module _ (flat : List RegexNode) (operands : All (IsOperand c) flat) where
      covered :
          (x : RegexNode)
          → In x flat
          → not (regex_absorbed_by_sibling ids flat x) ≡ false
          → (y : RegexNode) × In y flat
            × (weight y < weight x)
            × (meaning sat h c y ≡ true → meaning sat h c x ≡ true)
      unfolding regex_absorbed_by_sibling
      covered x at goes =
          let (y, at_y, e) = any-In (regex_absorbs ids x) flat (ground arith) in
          let px = All-In (IsOperand c) x flat operands at in
          let py = All-In (IsOperand c) y flat operands at_y in
          let smaller =
            Absorption-Smaller x y px py (absorbs-other x y e) (absorption c x y px.0 py.0 e) in
          (y, at_y, smaller.0, smaller.1)

      pub drop_absorbed-meaning :
          all (meaning sat h c) (drop_absorbed ids c flat) ≡ all (meaning sat h c) flat
      drop_absorbed-meaning =
          elim (Bool-cases (any (λ r. is_some_and (λ _. true) (regex_children (dual c) r)) flat)) [
            | inl e ↦ rw e (
                all-retain-covered (meaning sat h c) weight
                  (λ r. not (regex_absorbed_by_sibling ids flat r)) flat covered)
            | inr e ↦ rw e refl
          ]
