-- ===== src/Validator/Syntax/Symbolic/Tables.antt =====
-- The tables of rust-validator/src/syntax/symbolic.rs hold what their transitions evaluate to.
use marsh.Base.{
  ℕ, zero, suc, ◌+◌, ◌*◌, ◌<◌, ◌≡◌, refl, ap, ◌∙◌, Bool, true, false, List, [], ◌∷◌, ◌++◌, Option,
  none, some, map, arith, any, ◌=?◌, ◌==◌, Bool-cases, inl, inr, ◌⊎◌, if◌then◌else◌, length,
  get_elem?,
}
use Prim.Native.Nat.{◌/◌, ◌%◌, ◌^◌}
use marsh.Base.Members.{In, any-In}
use marsh.Validator.Syntax.Component.{CompiledAtomPattern, atom_has_eq}
use marsh.Validator.Syntax.Node.{
  TestNode, TestNodes, true_node, false_node, atom_node, and_node, or_node, RegexNode, eval_test,
  eval_all, eval_any, compare_with,
}
use marsh.Validator.Syntax.Regexes.{regex_union, regex_intersect, regex_not, regex_concat}
use marsh.Validator.Syntax.Transition.{
  TransitionNode, TransitionNodes, const_node, if_node, union_node as union_transition,
  intersect_node as intersect_transition, not_node as not_transition, append_node,
  TransitionNumbering,
}
use marsh.Validator.Syntax.Symbolic.{evaluate, evaluate_each}
use marsh.Validator.Syntax.Symbolic.Minterms.{
  collect_test_atoms, collect_tests_atoms, collect_atoms_into, collect_each_into, first_seen,
  collect_transition_atoms, minterm_of, bit_of, range, evaluate_minterm, compiled_successors,
  look_up, instantiate,
}

low-bit : (b : Bool) (m : ℕ) → ((if b then 1 else 0) + 2 * m) % 2 ≡ (if b then 1 else 0)
low-bit true m = omega arith
low-bit false m = omega arith

high-bits : (b : Bool) (m : ℕ) → ((if b then 1 else 0) + 2 * m) / 2 ≡ m
high-bits true m = omega arith
high-bits false m = omega arith

-- The bit of an atom of the list is its truth value.
pub bit_of-minterm_of :
    (v : CompiledAtomPattern → Bool) (ps : List CompiledAtomPattern) (p : CompiledAtomPattern)
    → In p ps
    → bit_of ps (minterm_of v ps) p ≡ v p
unfolding bit_of minterm_of
bit_of-minterm_of v [] p at = elim at [ ]
bit_of-minterm_of v (q ∷ qs) p at = elim (Bool-cases (p =? q)) [
  | inl same ↦
      rw (same, low-bit (v q) (minterm_of v qs), (atom_has_eq.is_same_iff p q).0 same)
        (as_bit (v q))
  | inr other ↦
      rw (other, high-bits (v q) (minterm_of v qs)) (bit_of-minterm_of v qs p (later at other))
]
  where
    as_bit : (b : Bool) → ((if b then 1 else 0) == 1) ≡ b
    as_bit true = refl
    as_bit false = refl

    later : In p (q ∷ qs) → (p =? q) ≡ false → In p qs
    later (inl e) f = absurd (ground (arith, atom_has_eq.is_same_iff p q, e, f))
    later (inr l) f = l

pow-suc : (n : ℕ) → 2 ^ suc n ≡ 2 * 2 ^ n
pow-suc n = grind arith

pub minterm_of-bounded :
    (v : CompiledAtomPattern → Bool) (ps : List CompiledAtomPattern)
    → minterm_of v ps < 2 ^ length ps
unfolding minterm_of
minterm_of-bounded v [] = omega arith
minterm_of-bounded v (p ∷ ps) = elim (Bool-cases (v p)) [
  | inl t ↦ rw (t, pow-suc (length ps)) (omega (arith, minterm_of-bounded v ps))
  | inr f ↦ rw (f, pow-suc (length ps)) (omega (arith, minterm_of-bounded v ps))
]

In-first_seen :
    (seen ps : List CompiledAtomPattern) (p : CompiledAtomPattern)
    → In p ps
    → In p seen ⊎ In p (first_seen seen ps)
unfolding first_seen
In-first_seen seen [] p at = elim at [ ]
In-first_seen seen (q ∷ qs) p at = elim (Bool-cases (any (λ r. q =? r) seen)) [
  | inl known ↦ rw known (elim at [
    | inl e ↦
        let (r, there, same) = any-In (λ r. q =? r) seen known in
        inl (rw (e, (atom_has_eq.is_same_iff q r).0 same) there)
    | inr l ↦ In-first_seen seen qs p l
  ])
  | inr new ↦ rw new (elim at [
    | inl e ↦ inr (inl e)
    | inr l ↦ elim (In-first_seen (q ∷ seen) qs p l) [
      | inl (inl e) ↦ inr (inl e)
      | inl (inr s) ↦ inl s
      | inr k ↦ inr (inr k)
    ]
  ])
]

In-left : (p : CompiledAtomPattern) (ps qs : List CompiledAtomPattern) → In p ps → In p (ps ++ qs)
In-left p [] qs at = elim at [ ]
In-left p (q ∷ ps) qs (inl e) = inl e
In-left p (q ∷ ps) qs (inr l) = inr (In-left p ps qs l)

In-right : (p : CompiledAtomPattern) (ps qs : List CompiledAtomPattern) → In p qs → In p (ps ++ qs)
In-right p [] qs at = at
In-right p (q ∷ ps) qs at = inr (In-right p ps qs at)

-- Two truth assignments that agree on the atoms of a test or a transition cannot be told apart by
-- it.
module _ (v w : CompiledAtomPattern → Bool) where
  Agrees : List CompiledAtomPattern → Type 0
  Agrees ps = (p : CompiledAtomPattern) → In p ps → v p ≡ w p

  Agrees-left : (ps qs : List CompiledAtomPattern) → Agrees (ps ++ qs) → Agrees ps
  unfolding Agrees
  Agrees-left ps qs f p at = f p (In-left p ps qs at)

  Agrees-right : (ps qs : List CompiledAtomPattern) → Agrees (ps ++ qs) → Agrees qs
  unfolding Agrees
  Agrees-right ps qs f p at = f p (In-right p ps qs at)

  Agrees-at : (p : CompiledAtomPattern) → Agrees (p ∷ []) → v p ≡ w p
  unfolding Agrees
  Agrees-at p f = f p (inl refl)

  mutual
    unfolding eval_test collect_test_atoms

    eval_test-Agrees :
        (t : TestNode) → Agrees (collect_test_atoms t) → eval_test v t ≡ eval_test w t
    eval_test-Agrees true_node f = refl
    eval_test-Agrees false_node f = refl
    eval_test-Agrees (atom_node c p) f = ap (compare_with c) (Agrees-at p f)
    eval_test-Agrees (and_node ts) f = eval_all-Agrees ts f
    eval_test-Agrees (or_node ts) f = eval_any-Agrees ts f

    eval_all-Agrees :
        (ts : TestNodes) → Agrees (collect_tests_atoms ts) → eval_all v ts ≡ eval_all w ts
    eval_all-Agrees TestNodes.nil f = refl
    eval_all-Agrees (TestNodes.cons t ts) f =
        let ps = collect_test_atoms t in
        let qs = collect_tests_atoms ts in
        let head = eval_test-Agrees t (Agrees-left ps qs f) in
        let tail = eval_all-Agrees ts (Agrees-right ps qs f) in rw (head, tail) refl

    eval_any-Agrees :
        (ts : TestNodes) → Agrees (collect_tests_atoms ts) → eval_any v ts ≡ eval_any w ts
    eval_any-Agrees TestNodes.nil f = refl
    eval_any-Agrees (TestNodes.cons t ts) f =
        let ps = collect_test_atoms t in
        let qs = collect_tests_atoms ts in
        let head = eval_test-Agrees t (Agrees-left ps qs f) in
        let tail = eval_any-Agrees ts (Agrees-right ps qs f) in rw (head, tail) refl

  module _ (ns : TransitionNumbering) where
    open ns use {nodes as ids}

    mutual
      unfolding evaluate collect_atoms_into

      evaluate-Agrees :
          (t : TransitionNode) → Agrees (collect_atoms_into t) → evaluate ns v t ≡ evaluate ns w t
      evaluate-Agrees (const_node r) f = refl
      evaluate-Agrees (if_node test a b) f =
          let rest = Agrees-right (collect_test_atoms test) _ f in
          let then_same = evaluate-Agrees a (Agrees-left _ (collect_atoms_into b) rest) in
          let else_same = evaluate-Agrees b (Agrees-right (collect_atoms_into a) _ rest) in
          rw
            (
              eval_test-Agrees test (Agrees-left (collect_test_atoms test) _ f),
              then_same,
              else_same,
            )
            refl
      evaluate-Agrees (union_transition ts) f = ap (regex_union ids) (evaluate_each-Agrees ts f)
      evaluate-Agrees (intersect_transition ts) f =
          ap (regex_intersect ids) (evaluate_each-Agrees ts f)
      evaluate-Agrees (not_transition t) f = ap regex_not (evaluate-Agrees t f)
      evaluate-Agrees (append_node t suffix) f =
          ap (λ r. regex_concat (r ∷ suffix)) (evaluate-Agrees t f)

      evaluate_each-Agrees :
          (ts : TransitionNodes)
          → Agrees (collect_each_into ts)
          → evaluate_each ns v ts ≡ evaluate_each ns w ts
      evaluate_each-Agrees TransitionNodes.nil f = refl
      evaluate_each-Agrees (TransitionNodes.cons t ts) f =
          let head = evaluate-Agrees t (Agrees-left _ (collect_each_into ts) f) in
          let tail = evaluate_each-Agrees ts (Agrees-right (collect_atoms_into t) _ f) in
          rw (head, tail) refl

get_elem-range :
    {A : Type 0} (f : ℕ → A) (start n i : ℕ)
    → i < n
    → get_elem? (map f (range start n)) i ≡ some (f (start + i))
unfolding range
get_elem-range f start zero i h = absurd (omega arith)
get_elem-range f start (suc n) zero h = ap (λ k. some (f k)) (omega arith)
get_elem-range f start (suc n) (suc i) h =
    get_elem-range f (suc start) n i (omega arith) ∙ ap (λ k. some (f k)) (omega arith)

get_elem-table :
    {A : Type 0} (f : ℕ → A) (n i : ℕ) → i < n → get_elem? (map f (range 0 n)) i ≡ some (f i)
get_elem-table f n i h = get_elem-range f 0 n i h ∙ ap (λ k. some (f k)) (omega arith)

module _ (ns : TransitionNumbering) where
  module _ (v : CompiledAtomPattern → Bool) (t : TransitionNode) where
    row-Agrees :
        Agrees
          (bit_of (collect_transition_atoms t) (minterm_of v (collect_transition_atoms t)))
          v
          (collect_atoms_into t)
    unfolding Agrees collect_transition_atoms
    row-Agrees p at =
        bit_of-minterm_of v (first_seen [] (collect_atoms_into t)) p
          (elim (In-first_seen [] (collect_atoms_into t) p at) [
            | inl nowhere ↦ elim nowhere [ ]
            | inr there ↦ there
          ])

    -- The row of an assignment holds what the transition evaluates to.
    successors_at :
        get_elem? (compiled_successors ns t) (minterm_of v (collect_transition_atoms t))
        ≡ some (evaluate ns v t)
    unfolding compiled_successors evaluate_minterm
    successors_at =
        let atoms = collect_transition_atoms t in
        get_elem-table (evaluate_minterm ns t atoms) (2 ^ length atoms) (minterm_of v atoms)
          (minterm_of-bounded v atoms)
        ∙ ap some (evaluate-Agrees (bit_of atoms (minterm_of v atoms)) v ns t row-Agrees)

    look_up-evaluate :
        (table : Option (List RegexNode))
        → ((rows : List RegexNode) → table ≡ some rows → rows ≡ compiled_successors ns t)
        → look_up ns v t table ≡ some (evaluate ns v t)
    unfolding look_up
    look_up-evaluate none built = refl
    look_up-evaluate (some rows) built = rw (built rows refl) successors_at

  -- Whichever transitions have a table, if each table is the one that is built for its transition,
  -- every transition has a successor, the one that it evaluates to.
  pub instantiate-evaluate :
      (compiled : TransitionNode → Option (List RegexNode)) (v : CompiledAtomPattern → Bool)
      (t : TransitionNode)
      → ((u : TransitionNode) (rows : List RegexNode)
          → compiled u ≡ some rows
          → rows ≡ compiled_successors ns u)
      → instantiate ns compiled v t ≡ some (evaluate ns v t)
  unfolding instantiate evaluate
  instantiate-evaluate compiled v (const_node r) built = refl
  instantiate-evaluate compiled v t built = look_up-evaluate v t (compiled t) (built t)
