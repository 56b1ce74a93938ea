-- ===== src/Validator/Syntax/Transition/Operands.antt =====
-- Operands of an intersection in rust-validator/src/syntax/transition.rs, up to the fold over
-- pairs.
use marsh.Base.{
  ℕ, suc, ◌+◌, ◌≤◌, ◌≡◌, refl, sym, ap, ◌∙◌, Bool, true, false, ◌&&◌, List, [], ◌∷◌, ◌++◌, arith,
  any, all, length, length-append, Bool-cases, inl, inr, if◌then◌else◌, is_empty,
}
use marsh.Base.Members.{All, All-append, all-append}
use marsh.Base.Canonical.{sort, dedup, insert_sorted}
use marsh.Base.Subsets.{all-dedup-sort}
use marsh.Validator.Language.Words.{WordSet}
use marsh.Validator.Syntax.Component.{CompiledAtomPattern}
use marsh.Validator.Syntax.Node.{RegexNode, all_node}
use marsh.Validator.Syntax.Normalize.Meaning.{IsConsistent}
use marsh.Validator.Syntax.Regexes.{regex_is, regex_intersect}
use marsh.Validator.Syntax.Regexes.Words.{accepts}
use marsh.Validator.Syntax.Regexes.Parts.{IsCanonical}
use marsh.Validator.Syntax.Regexes.Shape.{regex_intersect-Canonical}
use marsh.Validator.Syntax.Regexes.Sound.{regex_intersect-all}
use marsh.Validator.Syntax.Transition.{
  TransitionNode, const_node, intersect_node, is_transition_empty, constants_of, non_constants,
  flatten_intersect, flatten_each, TransitionNumbering, transition_const, sorted, size,
}
use marsh.Validator.Syntax.Transition.Plain.{IsPlain, denote, transition_const-eq}
use marsh.Validator.Syntax.Transition.Denote.{
  sorted-IsPlain, constants-Canonical, non_constants-IsPlain,
}

-- The nodes of a list of transitions.
abbrev pub total_size : List TransitionNode → ℕ
total_size [] = 0
total_size (t ∷ ts) = size t + total_size ts

pub size-pos : (t : TransitionNode) → 1 ≤ size t
unfolding size
size-pos (const_node r) = omega arith
size-pos t = omega arith

module _ (uid : TransitionNode → ℕ) where
  insert-size :
      (t : TransitionNode) (ts : List TransitionNode)
      → (total_size (insert_sorted uid t ts) ≡ size t + total_size ts)
        × (length (insert_sorted uid t ts) ≡ suc (length ts))
  unfolding insert_sorted
  insert-size t [] = (refl, refl)
  insert-size t (u ∷ ts) = ground (arith, insert-size t ts)

  sort-size :
      (ts : List TransitionNode)
      → (total_size (sort uid ts) ≡ total_size ts) × (length (sort uid ts) ≡ length ts)
  unfolding sort
  sort-size [] = (refl, refl)
  sort-size (t ∷ ts) = omega (arith, insert-size t (sort uid ts), sort-size ts)

  dedup-size :
      (ts : List TransitionNode)
      → (total_size (dedup uid ts) ≤ total_size ts) × (length (dedup uid ts) ≤ length ts)
  unfolding dedup
  dedup-size [] = omega arith
  dedup-size (t ∷ []) = omega arith
  dedup-size (t ∷ u ∷ ts) = ground (arith, dedup-size (u ∷ ts))

  pub sorted-size :
      (ts : List TransitionNode)
      → (total_size (dedup uid (sort uid ts)) ≤ total_size ts)
        × (length (dedup uid (sort uid ts)) ≤ length ts)
  sorted-size ts = omega (arith, sort-size ts, dedup-size (sort uid ts))

-- The constants and the others make up a list.
split-size :
    (ts : List TransitionNode)
    → (total_size (non_constants ts) + length (constants_of ts) ≡ total_size ts)
      × (length (non_constants ts) + length (constants_of ts) ≡ length ts)
unfolding non_constants constants_of size
split-size [] = (refl, refl)
split-size (const_node r ∷ ts) = omega (arith, split-size ts)
split-size (t ∷ ts) = omega (arith, split-size ts)

append-size : (xs ys : List TransitionNode) → total_size (xs ++ ys) ≡ total_size xs + total_size ys
append-size [] ys = omega arith
append-size (x ∷ xs) ys = omega (arith, append-size xs ys)

-- One list is no larger than another.
abbrev pub NoLarger : List TransitionNode → List TransitionNode → Type 0
NoLarger xs ys = (total_size xs ≤ total_size ys) × (length xs ≤ length ys)

module _ {E : Type 0} (sat : E → CompiledAtomPattern → Bool) (e : E)
    (ns : TransitionNumbering) where
  open ns use {nodes as ids, transition_uid, transition_uid_injective}

  -- The transitions together lead where all of a list do.
  abbrev pub LeadsAll : List TransitionNode → WordSet E → Type 0
  LeadsAll ts f = All (IsPlain ns) ts × ((h : List E) → all (λ t. denote sat e t h) ts ≡ f h)

  abbrev pub all_of : List TransitionNode → WordSet E
  all_of ts h = all (λ t. denote sat e t h) ts

  pub sorted-LeadsAll :
      (ts : List TransitionNode) → All (IsPlain ns) ts → LeadsAll (sorted ns ts) (all_of ts)
  sorted-LeadsAll ts p = (
    sorted-IsPlain sat e ns ts p,
    λ h. all-dedup-sort transition_uid transition_uid_injective (λ t. denote sat e t h) ts,
  )

  pub flatten-LeadsAll :
      (ts : List TransitionNode)
      → All (IsPlain ns) ts
      → LeadsAll (flatten_each flatten_intersect ts) (all_of ts)
        × NoLarger (flatten_each flatten_intersect ts) ts
  unfolding flatten_each flatten_intersect denote accepts
  flatten-LeadsAll [] p = ((tt, λ h. refl), omega arith)
  flatten-LeadsAll (const_node all_node ∷ ts) p =
      let ((q, f), small) = flatten-LeadsAll ts p.1 in ((q, λ h. f h), omega (arith, small))
  flatten-LeadsAll (intersect_node us ∷ ts) p = elim p.0 [ ]
  flatten-LeadsAll (t ∷ ts) p =
      let ((q, f), small) = flatten-LeadsAll ts p.1 in
      (((p.0, q), λ h. ap (λ b. denote sat e t h && b) (f h)), omega (arith, small))

  pub split_constants-all :
      (ts : List TransitionNode) (h : List E)
      → all (λ t. denote sat e t h) ts ≡ (
          all (λ t. denote sat e t h) (non_constants ts)
          && all (λ r. accepts sat r h) (constants_of ts))
  unfolding non_constants constants_of denote
  split_constants-all [] h = refl
  split_constants-all (const_node r ∷ ts) h = ground (arith, split_constants-all ts h)
  split_constants-all (t ∷ ts) h = ground (arith, split_constants-all ts h)

  pub any-is_empty :
      (ts : List TransitionNode) (h : List E)
      → any is_transition_empty ts ≡ true
      → all (λ t. denote sat e t h) ts ≡ false
  unfolding denote accepts
  any-is_empty [] h a = cc
  any-is_empty (t ∷ ts) h a = ground (arith, any-is_empty ts h)

  -- The operands other than constants, and the constants put together.
  abbrev pub merged : List TransitionNode → RegexNode → List TransitionNode
  merged rest r = if regex_is ids r all_node then rest else rest ++ transition_const ns r ∷ []

  pub merged-LeadsAll :
      (rest : List TransitionNode) (r : RegexNode)
      → All (IsPlain ns) rest
      → IsCanonical ids r
      → LeadsAll (merged rest r) (λ h. all_of rest h && accepts sat r h)
        × (total_size (merged rest r) ≤ total_size rest + 1)
        × (length (merged rest r) ≤ length rest + 1)
  unfolding size
  merged-LeadsAll rest r p c = elim (Bool-cases (regex_is ids r all_node)) [
    | inl t ↦
        rw (t, ids.regex_uid_injective r all_node (ground (arith, t)))
          ((p, λ h. (unfold accepts in and_true (all_of rest h))), omega arith, omega arith)
    | inr t ↦
        rw (t, transition_const-eq sat e ns r)
          (
            (
              All-append (IsPlain ns) rest (const_node r ∷ []) p (c, tt),
              λ h.
                  all-append (λ t. denote sat e t h) rest (const_node r ∷ [])
                  ∙ unfold denote in
                    (ap (λ b. all_of rest h && b) (sym (and_true (accepts sat r h)))),
            ),
            omega (arith, append-size rest (const_node r ∷ [])),
            omega (arith, length-append rest (const_node r ∷ [])),
          )
  ]
    where
      and_true : (b : Bool) → b ≡ (b && true)
      and_true b = ground arith

  module _ (apart : (a : E) → IsConsistent (sat a)) where
    pub constants-merged :
        (ts : List TransitionNode)
        → All (IsPlain ns) ts
        → is_empty (constants_of ts) ≡ false
        → LeadsAll (merged (non_constants ts) (regex_intersect ids (constants_of ts))) (all_of ts)
          × NoLarger (merged (non_constants ts) (regex_intersect ids (constants_of ts))) ts
    constants-merged ts p some_constant =
        let canonical = constants-Canonical sat e ns ts p in
        let ((q, f), small, short) =
          merged-LeadsAll (non_constants ts) (regex_intersect ids (constants_of ts))
            (non_constants-IsPlain sat e ns ts p)
            (regex_intersect-Canonical ids (constants_of ts) canonical) in
        (
          (
            q,
            λ h.
                f h
                ∙ ap (λ b. all_of (non_constants ts) h && b)
                    (regex_intersect-all ids sat apart (constants_of ts) canonical h)
                ∙ sym (split_constants-all ts h),
          ),
          omega (arith, small, short, split-size ts, nonempty (constants_of ts) some_constant),
        )
      where
        nonempty : (rs : List RegexNode) → is_empty rs ≡ false → 1 ≤ length rs
        nonempty [] n = cc
        nonempty (r ∷ rs) n = omega arith

    pub no_constants :
        (ts : List TransitionNode)
        → All (IsPlain ns) ts
        → is_empty (constants_of ts) ≡ true
        → LeadsAll (non_constants ts) (all_of ts) × NoLarger (non_constants ts) ts
    no_constants ts p none_there = (
      (
        non_constants-IsPlain sat e ns ts p,
        λ h. left h (constants_of ts) none_there (split_constants-all ts h),
      ),
      omega (arith, split-size ts),
    )
      where
        left :
            (h : List E) (rs : List RegexNode)
            → is_empty rs ≡ true
            → all_of ts h ≡ (all_of (non_constants ts) h && all (λ r. accepts sat r h) rs)
            → all_of (non_constants ts) h ≡ all_of ts h
        left h [] n s = ground arith
        left h (r ∷ rs) n s = cc
