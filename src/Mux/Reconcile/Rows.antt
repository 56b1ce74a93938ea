-- ===== src/Mux/Reconcile/Rows.antt =====
-- reconcile.rs: the rows and the read claims that a reconciled history leaves the resources in.
use marsh.Base.{
  ℕ, suc, ◌≤◌, ◌<◌, ◌≡◌, ◌↔◌, inl, inr, refl, ap, sym, ◌∙◌, Bool, true, false, ◌&&◌, List, [], ◌∷◌,
  arith, ◌=?◌, =?_refl, =?_sym, is_none, is_some_and, retain, if◌then◌else◌, nat_has_eq,
  list_has_eq, string_has_eq, Bool-cases,
}
use marsh.Validator.Model.{Resource, Action, Event}
use marsh.Policy.Git.Capabilities.{Claims, apply, claims_from}
use marsh.Policy.Git.Active.{contains, is_claimed}
use marsh.Policy.Git.Once.{is_ascending}
use marsh.Policy.Git.States.{last_row, last_reader}
use marsh.Mux.Reconcile.{walk, row_of as claim_of}

-- The events at the chosen indices, from index `i` on.
abbrev pub chosen : (ℕ → Bool) → ℕ → List Event → List Event
chosen p i [] = []
chosen p i (e ∷ h) = if p i then e ∷ chosen p (suc i) h else chosen p (suc i) h

ascending-contains : (i : ℕ) (js : List ℕ) → is_ascending (suc i) js ≡ true → contains i js ≡ false
ascending-contains i [] a = refl
ascending-contains i (j ∷ js) a = ground (arith, below j js)
  where
    below : (j : ℕ) (js : List ℕ) → i < j → is_ascending (suc j) js ≡ true → contains i js ≡ false
    below j [] lt a = refl
    below j (k ∷ ks) lt a = ground (arith, below k ks)

pub walk-chosen :
    (p : ℕ → Bool) (i : ℕ) (js : List ℕ) (h : List Event)
    → is_ascending i js ≡ true
    → ((n : ℕ) → i ≤ n → p n ≡ contains n js)
    → walk i js h ≡ chosen p i h
unfolding walk
walk-chosen p i js [] a same = refl
walk-chosen p i [] (e ∷ h) a same =
    ground (arith, same i, walk-chosen p (suc i) [] h refl (λ k le. same k (omega (arith, le))))
walk-chosen p i (j ∷ js) (e ∷ h) a same = elim (Bool-cases (j =? i)) [
  | inl y ↦
      ground (
        arith,
        y,
        same i,
        walk-chosen p (suc i) js h (ground arith) (λ k le. ground (arith, same k)),
      )
  | inr n ↦ ground (
    arith,
    n,
    same i,
    ascending-contains i (j ∷ js),
    walk-chosen p (suc i) (j ∷ js) h (ground arith) (λ k le. same k (omega (arith, le))),
  )
]

pub contains-retain :
    (p : ℕ → Bool) (n : ℕ) (js : List ℕ) → contains n (retain p js) ≡ (contains n js && p n)
contains-retain p n [] = refl
contains-retain p n (j ∷ js) = ground (arith, contains-retain p n js, same_answer j)
  where
    same_answer : (j : ℕ) → (j =? n) ≡ true → p j ≡ p n
    same_answer j y = ap p ((nat_has_eq.is_same_iff j n).0 y)

abbrev is_row_at : Claims → ℕ → Bool
is_row_at c n = is_some_and (λ i. i =? n) c.row

abbrev is_read_at : Claims → ℕ → Bool
is_read_at c n = is_some_and (λ i. i =? n) c.read

claims_from-is_row_at :
    (r : Resource) (n k : ℕ) (c : Claims) (t : List Event)
    → n < k
    → is_row_at (claims_from k c t r) n ≡ (is_none (last_row r t) && is_row_at c n)
unfolding claims_from last_row
claims_from-is_row_at r n k c [] lt = refl
claims_from-is_row_at r n k c (e ∷ t) lt =
    unfold apply in
    ground (
      arith,
      =?_sym r e.resource,
      claims_from-is_row_at r n (suc k) (if e.resource =? r then apply c e.action k else c) t,
    )

claims_from-is_read_at :
    (r : Resource) (n k : ℕ) (c : Claims) (t : List Event)
    → n < k
    → is_read_at (claims_from k c t r) n ≡ (is_none (last_reader r t) && is_read_at c n)
unfolding claims_from last_reader
claims_from-is_read_at r n k c [] lt = refl
claims_from-is_read_at r n k c (e ∷ t) lt =
    unfold apply in
    ground (
      arith,
      =?_sym r e.resource,
      claims_from-is_read_at r n (suc k) (if e.resource =? r then apply c e.action k else c) t,
    )

abbrev pub is_claim : Action → Bool
is_claim a = is_some_and (λ _. true) (claim_of a)

apply-claimed :
    (c : Claims) (a : Action) (i : ℕ)
    → is_claimed c i ≡ false
    → is_claim a ≡ true
    → (is_row_at (apply c a i) i ≡ true) × (is_read_at (apply c a i) i ≡ false)
unfolding apply claim_of
apply-claimed c a i free k = ground arith

-- The claims of every resource before an event, and the reported indices.
module _ (act : List ℕ) (e : Event) (t : List Event) (i : ℕ) (before : Resource → Claims)
    (free : (r : Resource) → is_claimed (before r) i ≡ false)
    (reported : (contains i act ≡ true)
      ↔ ((r : Resource) × (is_claimed (claims_from i (before r) (e ∷ t) r) i ≡ true)))
    (claim : is_claim e.action ≡ true) where
  abbrev pub after : Resource → Claims
  after r = if e.resource =? r then apply (before r) e.action i else before r

  row_at :
      (r : Resource)
      → is_row_at (claims_from i (before r) (e ∷ t) r) i
        ≡ (is_none (last_row r t) && is_row_at (after r) i)
  unfolding claims_from
  row_at r = claims_from-is_row_at r i (suc i) (after r) t (omega arith)

  read_at :
      (r : Resource)
      → is_read_at (claims_from i (before r) (e ∷ t) r) i
        ≡ (is_none (last_reader r t) && is_read_at (after r) i)
  unfolding claims_from
  read_at r = claims_from-is_read_at r i (suc i) (after r) t (omega arith)

  claimed_own :
      is_none (last_row e.resource t) ≡ true
      → is_claimed (claims_from i (before e.resource) (e ∷ t) e.resource) i ≡ true
  claimed_own y = ground (
    arith,
    y,
    row_at e.resource,
    =?_refl e.resource,
    apply-claimed (before e.resource) e.action i (free e.resource) claim,
  )

  claimed_other :
      (r : Resource)
      → is_claimed (claims_from i (before r) (e ∷ t) r) i ≡ true
      → is_none (last_row e.resource t) ≡ true
  claimed_other r k = ground (
    arith,
    k,
    row_at r,
    read_at r,
    free r,
    same_row,
    apply-claimed (before r) e.action i (free r) claim,
  )
    where
      same_row : (e.resource =? r) ≡ true → last_row e.resource t ≡ last_row r t
      same_row y = ap (λ q. last_row q t) ((list_has_eq.is_same_iff e.resource r).0 y)

  -- An event that claims a row is reported exactly when no later event changes the row.
  pub reported-last : contains i act ≡ is_none (last_row e.resource t)
  reported-last = elim (Bool-cases (is_none (last_row e.resource t))) [
    | inl y ↦ reported.1 (e.resource, claimed_own y) ∙ sym y
    | inr n ↦ elim (Bool-cases (contains i act)) [
      | inl y ↦ let (r, k) = reported.0 y in ground (arith, y, n, claimed_other r k)
      | inr m ↦ m ∙ sym n
    ]
  ]
