-- ===== src/Policy/Git/Active.antt =====
-- capabilities.rs, `active_git_capability_indices`: the indices that it reports are the claims that
-- the resources hold at the end of the history.
use marsh.Base.{
  ℕ, suc, ◌≡◌, ◌↔◌, inl, inr, refl, ap, ◌∙◌, sym, Bool, true, false, not, ◌&&◌, ◌||◌, List, [], ◌∷◌,
  ◌++◌, Option, none, some, arith, ◌=?◌, =?_refl, =?_sym, leb, any, is_some_and, string_has_eq,
  list_has_eq, nat_has_eq, if◌then◌else◌, Bool-cases,
}
use marsh.Validator.Model.{Resource, Event}
use marsh.Policy.Git.Capabilities.{
  Claims, no_claims, apply, claims_from, claims_for, ClaimMap, apply_at, all_claims_from,
  option_list, claimed_indices, insert_sorted, sort, active_git_capability_indices,
}

abbrev claims_at : ClaimMap → Resource → Claims
claims_at [] r = no_claims
claims_at ((q, c) ∷ m) r = if q =? r then c else claims_at m r

abbrev has_key : ClaimMap → Resource → Bool
has_key [] r = false
has_key ((q, c) ∷ m) r = (q =? r) || has_key m r

abbrev unique : ClaimMap → Bool
unique [] = true
unique ((q, c) ∷ m) = not (has_key m q) && unique m

-- The row or the read claim is the event at the index.
abbrev pub is_claimed : Claims → ℕ → Bool
is_claimed c i = is_some_and (λ j. j =? i) c.row || is_some_and (λ j. j =? i) c.read

resource_eq : (r s : Resource) → (r =? s) ≡ true → r ≡ s
resource_eq r s = (list_has_eq.is_same_iff r s).0

left_same : (q r s : Resource) → (q =? r) ≡ true → (q =? s) ≡ (r =? s)
left_same q r s h = ap (λ x. x =? s) (resource_eq q r h)

right_same : (q r s : Resource) → (r =? s) ≡ true → (q =? r) ≡ (q =? s)
right_same q r s h = ap (λ x. q =? x) (resource_eq r s h)

claims_at-apply_at :
    (m : ClaimMap) (e : Event) (i : ℕ) (r : Resource)
    → claims_at (apply_at m e i) r
      ≡ (if e.resource =? r then apply (claims_at m r) e.action i else claims_at m r)
unfolding apply_at
claims_at-apply_at [] e i r = ground arith
claims_at-apply_at ((q, c) ∷ m) e i r =
    ground (arith, claims_at-apply_at m e i r, left_same q e.resource r, right_same q e.resource r)

claims_at-all_claims_from :
    (h : List Event) (i : ℕ) (m : ClaimMap) (r : Resource)
    → claims_at (all_claims_from i m h) r ≡ claims_from i (claims_at m r) h r
unfolding all_claims_from claims_from
claims_at-all_claims_from [] i m r = refl
claims_at-all_claims_from (e ∷ h) i m r =
    claims_at-all_claims_from h (suc i) (apply_at m e i) r
    ∙ ap (λ c. claims_from (suc i) c h r) (claims_at-apply_at m e i r)

has_key-apply_at :
    (m : ClaimMap) (e : Event) (i : ℕ) (r : Resource)
    → has_key (apply_at m e i) r ≡ (has_key m r || (e.resource =? r))
unfolding apply_at
has_key-apply_at [] e i r = ground arith
has_key-apply_at ((q, c) ∷ m) e i r =
    ground (arith, has_key-apply_at m e i r, left_same q e.resource r)

unique-apply_at :
    (m : ClaimMap) (e : Event) (i : ℕ) → unique m ≡ true → unique (apply_at m e i) ≡ true
unfolding apply_at
unique-apply_at [] e i h = refl
unique-apply_at ((q, c) ∷ m) e i h =
    ground (arith, unique-apply_at m e i, has_key-apply_at m e i q, =?_sym q e.resource)

unique-all_claims_from :
    (h : List Event) (i : ℕ) (m : ClaimMap)
    → unique m ≡ true
    → unique (all_claims_from i m h) ≡ true
unfolding all_claims_from
unique-all_claims_from [] i m u = u
unique-all_claims_from (e ∷ h) i m u =
    unique-all_claims_from h (suc i) (apply_at m e i) (unique-apply_at m e i u)

abbrev pub contains : ℕ → List ℕ → Bool
contains i is = any (λ j. j =? i) is

contains-insert_sorted :
    (i j : ℕ) (js : List ℕ) → contains i (insert_sorted j js) ≡ ((j =? i) || contains i js)
unfolding insert_sorted
contains-insert_sorted i j [] = refl
contains-insert_sorted i j (k ∷ js) = ground (arith, contains-insert_sorted i j js)

contains-sort : (i : ℕ) (is : List ℕ) → contains i (sort is) ≡ contains i is
unfolding sort
contains-sort i [] = refl
contains-sort i (j ∷ js) =
    contains-insert_sorted i j (sort js) ∙ ap (λ b. (j =? i) || b) (contains-sort i js)

contains-append :
    (i : ℕ) (is js : List ℕ) → contains i (is ++ js) ≡ (contains i is || contains i js)
contains-append i [] js = refl
contains-append i (j ∷ is) js = ground (arith, contains-append i is js)

contains-option_list :
    (i : ℕ) (o : Option ℕ) → contains i (option_list o) ≡ is_some_and (λ j. j =? i) o
contains-option_list i none = refl
contains-option_list i (some j) = ground arith

contains-claimed_indices :
    (i : ℕ) (r : Resource) (c : Claims) (m : ClaimMap)
    → contains i (claimed_indices ((r, c) ∷ m)) ≡ (is_claimed c i || contains i (claimed_indices m))
unfolding claimed_indices
contains-claimed_indices i r c m = ground (
  arith,
  contains-append i (option_list c.row) (option_list c.read ++ claimed_indices m),
  contains-append i (option_list c.read) (claimed_indices m),
  contains-option_list i c.row,
  contains-option_list i c.read,
)

no_key : (m : ClaimMap) (r : Resource) → has_key m r ≡ false → claims_at m r ≡ no_claims
no_key [] r h = refl
no_key ((q, c) ∷ m) r h = ground (arith, no_key m r)

claimed_complete :
    (m : ClaimMap) (r : Resource) (i : ℕ)
    → is_claimed (claims_at m r) i ≡ true
    → contains i (claimed_indices m) ≡ true
claimed_complete [] r i h = ground arith
claimed_complete ((q, c) ∷ m) r i h =
    ground (arith, contains-claimed_indices i q c m, claimed_complete m r i)

claimed_sound :
    (m : ClaimMap) (i : ℕ)
    → unique m ≡ true
    → contains i (claimed_indices m) ≡ true
    → (r : Resource) × (is_claimed (claims_at m r) i ≡ true)
claimed_sound [] i u h = unfold claimed_indices in ground arith
claimed_sound ((q, c) ∷ m) i u h = elim (Bool-cases (is_claimed c i)) [
  | inl y ↦ (q, ground (arith, y, =?_refl q))
  | inr n ↦
      let (r, k) =
        claimed_sound m i (ground arith) (ground (arith, n, contains-claimed_indices i q c m)) in
      (r, ground (arith, k, u, no_key m r, same_key m q r))
]
  where
    same_key : (m : ClaimMap) (q r : Resource) → (q =? r) ≡ true → has_key m q ≡ has_key m r
    same_key m q r h = ap (has_key m) (resource_eq q r h)

-- An index is reported exactly when it is the row claim or the read claim of some resource at the end
-- of the history.
pub active-iff_claimed :
    (h : List Event) (i : ℕ)
    → (contains i (active_git_capability_indices h) ≡ true)
      ↔ ((r : Resource) × (is_claimed (claims_for h r) i ≡ true))
unfolding active_git_capability_indices claims_for
active-iff_claimed h i =
    let m = all_claims_from 0 [] h in
    let same : (r : Resource) → claims_at m r ≡ claims_from 0 no_claims h r =
      claims_at-all_claims_from h 0 [] in
    let sorted = contains-sort i (claimed_indices m) in
    (
      (λ y.
          let (r, k) = claimed_sound m i (unique-all_claims_from h 0 [] refl) (sym sorted ∙ y) in
          (r, ap (λ c. is_claimed c i) (sym (same r)) ∙ k)),
      λ (r, k). sorted ∙ claimed_complete m r i (ap (λ c. is_claimed c i) (same r) ∙ k),
    )

abbrev pub is_sorted : List ℕ → Bool
is_sorted [] = true
is_sorted (i ∷ []) = true
is_sorted (i ∷ j ∷ js) = leb i j && is_sorted (j ∷ js)

is_sorted-insert_sorted :
    (i : ℕ) (js : List ℕ) → is_sorted js ≡ true → is_sorted (insert_sorted i js) ≡ true
unfolding insert_sorted
is_sorted-insert_sorted i [] h = refl
is_sorted-insert_sorted i (j ∷ []) h = ground arith
is_sorted-insert_sorted i (j ∷ k ∷ js) h = ground (arith, is_sorted-insert_sorted i (k ∷ js))

is_sorted-sort : (is : List ℕ) → is_sorted (sort is) ≡ true
unfolding sort
is_sorted-sort [] = refl
is_sorted-sort (i ∷ is) = is_sorted-insert_sorted i (sort is) (is_sorted-sort is)

-- The indices are reported in the order of the history.
pub active-is_sorted : (h : List Event) → is_sorted (active_git_capability_indices h) ≡ true
unfolding active_git_capability_indices
active-is_sorted h = is_sorted-sort (claimed_indices (all_claims_from 0 [] h))
