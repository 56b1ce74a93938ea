-- ===== src/Policy/Git/Once.antt =====
-- capabilities.rs, `active_git_capability_indices`: no index is reported twice.
use marsh.Base.{
  ℕ, suc, ◌+◌, ◌≤◌, ◌≡◌, refl, Bool, true, ◌&&◌, List, [], ◌∷◌, ◌++◌, Option, none, some, arith,
  leb, ltb, ◌==◌, string_has_eq, list_has_eq, nat_has_eq, if◌then◌else◌, retain,
}
use marsh.Validator.Model.{Event, Resource}
use marsh.Policy.Git.Capabilities.{
  Claims, no_claims, apply, ClaimMap, apply_at, all_claims_from, option_list, claimed_indices,
  insert_sorted, sort, active_git_capability_indices,
}
use marsh.Policy.Git.Active.{is_sorted, active-is_sorted}

abbrev count : ℕ → List ℕ → ℕ
count n [] = 0
count n (i ∷ is) = (if i == n then 1 else 0) + count n is

count-append : (n : ℕ) (is js : List ℕ) → count n (is ++ js) ≡ count n is + count n js
count-append n [] js = omega arith
count-append n (i ∷ is) js = omega (arith, count-append n is js)

count-insert_sorted :
    (n i : ℕ) (js : List ℕ) → count n (insert_sorted i js) ≡ (if i == n then 1 else 0) + count n js
unfolding insert_sorted
count-insert_sorted n i [] = refl
count-insert_sorted n i (j ∷ js) = ground (arith, count-insert_sorted n i js)

count-sort : (n : ℕ) (is : List ℕ) → count n (sort is) ≡ count n is
unfolding sort
count-sort n [] = refl
count-sort n (i ∷ is) = omega (arith, count-insert_sorted n i (sort is), count-sort n is)

abbrev held : ℕ → Option ℕ → ℕ
held n none = 0
held n (some i) = if i == n then 1 else 0

count-option_list : (n : ℕ) (o : Option ℕ) → count n (option_list o) ≡ held n o
count-option_list n none = refl
count-option_list n (some i) = omega arith

count-claimed_indices :
    (n : ℕ) (r : Resource) (c : Claims) (m : ClaimMap)
    → count n (claimed_indices ((r, c) ∷ m))
      ≡ held n c.row + (held n c.read + count n (claimed_indices m))
unfolding claimed_indices
count-claimed_indices n r c m = omega (
  arith,
  count-append n (option_list c.row) (option_list c.read ++ claimed_indices m),
  count-append n (option_list c.read) (claimed_indices m),
  count-option_list n c.row,
  count-option_list n c.read,
)

-- One event adds its own index once at most.
held-apply :
    (n i : ℕ) (c : Claims) (e : Event)
    → held n (apply c e.action i).row + held n (apply c e.action i).read
      ≤ held n c.row + held n c.read + (if i == n then 1 else 0)
unfolding apply
held-apply n i c e = ground arith

count-apply_at :
    (n i : ℕ) (m : ClaimMap) (e : Event)
    → count n (claimed_indices (apply_at m e i))
      ≤ count n (claimed_indices m) + (if i == n then 1 else 0)
unfolding apply_at
count-apply_at n i [] e = omega (
  arith,
  held-apply n i no_claims e,
  count-claimed_indices n e.resource (apply no_claims e.action i) [],
)
count-apply_at n i ((r, c) ∷ m) e = ground (
  arith,
  held-apply n i c e,
  count-claimed_indices n r c m,
  count-claimed_indices n r (apply c e.action i) m,
  count-claimed_indices n r c (apply_at m e i),
  count-apply_at n i m e,
)

-- Before the event at index `i`, indices below `i` occur once at most, and no other.
abbrev AreOnce : ℕ → ClaimMap → Type 0
AreOnce i m = (n : ℕ) → count n (claimed_indices m) ≤ (if ltb n i then 1 else 0)

all_claims_from-once :
    (h : List Event) (i : ℕ) (m : ClaimMap)
    → AreOnce i m
    → (n : ℕ) → count n (claimed_indices (all_claims_from i m h)) ≤ 1
unfolding all_claims_from
all_claims_from-once [] i m once n = ground (arith, once n)
all_claims_from-once (e ∷ h) i m once n =
    all_claims_from-once h (suc i) (apply_at m e i)
      (λ k. ground (arith, once k, count-apply_at k i m e)) n

-- Strictly ascending indices, from `i` on.
abbrev pub is_ascending : ℕ → List ℕ → Bool
is_ascending i [] = true
is_ascending i (j ∷ js) = leb i j && is_ascending (suc j) js

sorted_once-is_ascending :
    (i : ℕ) (js : List ℕ)
    → is_sorted (i ∷ js) ≡ true
    → ((n : ℕ) → count n (i ∷ js) ≤ 1)
    → is_ascending (suc i) js ≡ true
sorted_once-is_ascending i [] s once = refl
sorted_once-is_ascending i (j ∷ js) s once =
    ground
      (arith, once i, sorted_once-is_ascending j js (ground arith) (λ n. omega (arith, once n)))

pub active-is_ascending : (h : List Event) → is_ascending 0 (active_git_capability_indices h) ≡ true
unfolding active_git_capability_indices
active-is_ascending h =
    from_start (sort (claimed_indices (all_claims_from 0 [] h))) (active-is_sorted h) λ n. omega (
      arith,
      count-sort n (claimed_indices (all_claims_from 0 [] h)),
      all_claims_from-once h 0 [] (λ k. unfold claimed_indices in ground arith) n,
    )
  where
    from_start :
        (js : List ℕ) → is_sorted js ≡ true → ((n : ℕ) → count n js ≤ 1) → is_ascending 0 js ≡ true
    from_start [] s once = refl
    from_start (j ∷ js) s once = ground (arith, sorted_once-is_ascending j js s once)

is_ascending-weaken :
    (i j : ℕ) (js : List ℕ) → i ≤ j → is_ascending j js ≡ true → is_ascending i js ≡ true
is_ascending-weaken i j [] le a = refl
is_ascending-weaken i j (k ∷ js) le a = ground arith

pub is_ascending-retain :
    (p : ℕ → Bool) (i : ℕ) (js : List ℕ)
    → is_ascending i js ≡ true
    → is_ascending i (retain p js) ≡ true
is_ascending-retain p i [] a = refl
is_ascending-retain p i (j ∷ js) a =
    ground (arith, is_ascending-retain p (suc j) js, is_ascending-weaken i (suc j) (retain p js))
