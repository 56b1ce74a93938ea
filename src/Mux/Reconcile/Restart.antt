-- ===== src/Mux/Reconcile/Restart.antt =====
-- reconcile.rs: the rows and the read claims that a reconciled history leaves the resources in.
use marsh.Base.{
  ℕ, suc, ◌+◌, ◌≤◌, ◌≡◌, ◌↔◌, inl, inr, refl, ap, ◌∙◌, Bool, true, false, ◌&&◌, List, [], ◌∷◌,
  Option, none, some, arith, ◌=?◌, is_none, is_some_and, get_elem?, retain, if◌then◌else◌,
  nat_has_eq, list_has_eq, string_has_eq, Bool-cases,
}
use marsh.Validator.Model.{Resource, Action, Event}
use marsh.Policy.Git.Capabilities.{
  Claims, no_claims, apply, claims_from, claims_for, active_git_capability_indices,
}
use marsh.Policy.Git.Active.{contains, is_claimed, active-iff_claimed}
use marsh.Policy.Git.Once.{active-is_ascending, is_ascending-retain}
use marsh.Policy.Git.States.{
  Row, settled, staged, unstaged, row_set, row_after, claim_set, last_row, last_reader,
}
use marsh.Mux.Reconcile.{
  GitState, unstaged as unstaged_claim, staged as staged_claim, corroborated, is_retained, walk,
  reconcile, row_of as claim_of,
}
use marsh.Mux.Reconcile.Shown.{is_shown, shows_staged, shows_unstaged, corroborated-is_shown}
use marsh.Mux.Reconcile.Rows.{chosen, walk-chosen, contains-retain, is_claim, reported-last}

module _ (git : GitState) where
  -- What the seed still shows of a row: a staged one where git shows index changes and nothing in the
  -- worktree, an unstaged one where git shows changes in the worktree.
  abbrev pub kept : Resource → Option Row → Option Row
  kept r none = none
  kept r (some settled) = none
  kept r (some staged) = if is_shown git shows_staged r then some staged else none
  kept r (some (unstaged p)) = if is_shown git shows_unstaged r then some (unstaged p) else none

  kept-row_after :
      (e : Event)
      → (if corroborated git e then row_after e.action e.principal else none)
        ≡ kept e.resource (row_after e.action e.principal)
  unfolding corroborated claim_of
  kept-row_after e = ground (
    arith,
    corroborated-is_shown git staged_claim e.resource,
    corroborated-is_shown git unstaged_claim e.resource,
  )

  kept-row_set :
      (r : Resource) (e : Event)
      → (if corroborated git e then row_set r e else none) ≡ kept r (row_set r e)
  kept-row_set r e = elim (Bool-cases (r =? e.resource)) [
    | inl y ↦ ground (arith, y, kept-row_after e, same_kept y)
    | inr n ↦ ground (arith, n)
  ]
    where
      same_kept :
          (r =? e.resource) ≡ true
          → kept r (row_after e.action e.principal)
            ≡ kept e.resource (row_after e.action e.principal)
      same_kept y =
          ap (λ q. kept q (row_after e.action e.principal))
            ((list_has_eq.is_same_iff r e.resource).0 y)

  corroborated_claim : (e : Event) → corroborated git e ≡ true → is_claim e.action ≡ true
  unfolding corroborated claim_of
  corroborated_claim e k = ground arith

  unclaimed_row : (r : Resource) (e : Event) → corroborated git e ≡ true → claim_set r e ≡ none
  unfolding corroborated claim_of
  unclaimed_row r e k = ground arith

still_free :
    (c : Claims) (a : Action) (i n : ℕ)
    → suc i ≤ n
    → is_claimed c n ≡ false
    → is_claimed (apply c a i) n ≡ false
unfolding apply
still_free c a i n le k = ground arith

module _ (git : GitState) (act : List ℕ) (p : ℕ → Bool) where
  -- From index `i` on, `p` chooses the reported events that are corroborated.
  abbrev Chooses : ℕ → List Event → Type 0
  Chooses i h =
      (j : ℕ) → p (i + j) ≡ (contains (i + j) act && is_some_and (corroborated git) (get_elem? h j))

  abbrev AreFree : ℕ → (Resource → Claims) → Type 0
  AreFree i before = (r : Resource) (n : ℕ) → i ≤ n → is_claimed (before r) n ≡ false

  abbrev AreReported : ℕ → (Resource → Claims) → List Event → Type 0
  AreReported i before h =
      (n : ℕ)
      → (contains n act ≡ true)
        ↔ ((r : Resource) × (is_claimed (claims_from i (before r) h r) n ≡ true))

  Chooses-head :
      (i : ℕ) (e : Event) (h : List Event)
      → Chooses i (e ∷ h)
      → p i ≡ (contains i act && corroborated git e)
  Chooses-head i e h ch =
      ap p (omega arith) ∙ ch 0 ∙ ap (λ n. contains n act && corroborated git e) (omega arith)

  Chooses-tail : (i : ℕ) (e : Event) (h : List Event) → Chooses i (e ∷ h) → Chooses (suc i) h
  Chooses-tail i e h ch j =
      ap p (omega arith)
      ∙ ch (suc j)
      ∙ ap (λ n. contains n act && is_some_and (corroborated git) (get_elem? h j)) (omega arith)

  kept-step :
      (r : Resource) (e : Event) (h kept_h : List Event) (b : Bool)
      → b ≡ (corroborated git e && is_none (last_row e.resource h))
      → last_row r kept_h ≡ kept git r (last_row r h)
      → last_row r (if b then e ∷ kept_h else kept_h) ≡ kept git r (last_row r (e ∷ h))
  unfolding last_row
  kept-step r e h kept_h b choice ih = elim (Bool-cases (r =? e.resource)) [
    | inl y ↦ ground (arith, y, choice, ih, kept-row_set git r e, same_row y)
    | inr n ↦ ground (arith, n, choice, ih)
  ]
    where
      same_row : (r =? e.resource) ≡ true → last_row r h ≡ last_row e.resource h
      same_row y = ap (λ q. last_row q h) ((list_has_eq.is_same_iff r e.resource).0 y)

  unclaimed-step :
      (r : Resource) (e : Event) (kept_h : List Event) (b : Bool)
      → (b ≡ true → corroborated git e ≡ true)
      → last_reader r kept_h ≡ none
      → last_reader r (if b then e ∷ kept_h else kept_h) ≡ none
  unfolding last_reader
  unclaimed-step r e kept_h b choice ih = ground (arith, ih, choice, unclaimed_row git r e)

  Chooses-last :
      (e : Event) (h : List Event) (i : ℕ) (before : Resource → Claims)
      → AreFree i before
      → AreReported i before (e ∷ h)
      → Chooses i (e ∷ h)
      → p i ≡ (corroborated git e && is_none (last_row e.resource h))
  Chooses-last e h i before free rep ch = elim (Bool-cases (corroborated git e)) [
    | inl y ↦ ground (
      arith,
      y,
      Chooses-head i e h ch,
      reported-last act e h i before (λ r. free r i (omega arith)) (rep i)
          (corroborated_claim git e y),
    )
    | inr n ↦ ground (arith, n, Chooses-head i e h ch)
  ]

  chosen-rows :
      (h : List Event) (i : ℕ) (before : Resource → Claims)
      → AreFree i before
      → AreReported i before h
      → Chooses i h
      → (r : Resource)
      → (last_row r (chosen p i h) ≡ kept git r (last_row r h))
        × (last_reader r (chosen p i h) ≡ none)
  unfolding last_row last_reader claims_from
  chosen-rows [] i before free rep ch r = (refl, refl)
  chosen-rows (e ∷ h) i before free rep ch r =
      let after_e : Resource → Claims =
        λ q. if e.resource =? q then apply (before q) e.action i else before q in
      let (row, reader) =
        chosen-rows h (suc i) after_e
          (λ q n le. ground (arith, free q n, still_free (before q) e.action i n le)) rep
          (Chooses-tail i e h ch) r in
      let last : p i ≡ (corroborated git e && is_none (last_row e.resource h)) =
        Chooses-last e h i before free rep ch in
      (
        kept-step r e h (chosen p (suc i) h) (p i) last row,
        unclaimed-step r e (chosen p (suc i) h) (p i) (λ y. ground (arith, y, last)) reader,
      )

module _ (git : GitState) (h : List Event) where
  -- After a restart, each resource has the row that it had before where the seed still shows it, an
  -- unstaged row by a change in the worktree and a staged one by a change in the index alone, or where
  -- git cannot tell, and otherwise none; and nobody has a read claim.
  pub reconcile-rows :
      (r : Resource)
      → (last_row r (reconcile git h) ≡ kept git r (last_row r h))
        × (last_reader r (reconcile git h) ≡ none)
  unfolding reconcile claims_for
  reconcile-rows r =
      let act : List ℕ = active_git_capability_indices h in
      let js : List ℕ = retain (is_retained git h) act in
      let walked : walk 0 js h ≡ chosen (λ n. contains n js) 0 h =
        walk-chosen (λ n. contains n js) 0 js h
          (is_ascending-retain (is_retained git h) 0 act (active-is_ascending h)) (λ n le. refl) in
      let (row, reader) =
        chosen-rows git act (λ n. contains n js) h 0 (λ r. no_claims) (λ r n le. refl)
          (active-iff_claimed h)
          (λ j.
            contains-retain (is_retained git h) (0 + j) act
            ∙ ap (λ n. contains (0 + j) act && is_retained git h n) (omega arith))
          r in
      (ap (last_row r) walked ∙ row, ap (last_reader r) walked ∙ reader)
