-- ===== src/Mux/Authority.antt =====
-- shellmux/src/authority.rs: the history that all principals share, and `check_events`, which
-- grows it by what the policy grants. The policy is the decision function that it is called
-- through.
use marsh.Base.{
  ℕ, String, ◌≡◌, refl, ap, sym, ◌∙◌, Bool, true, ◌&&◌, List, [], ◌∷◌, ◌++◌, arith, take, length,
  take-append, ◌↔◌, ◌⊎◌, inl, inr,
}
use mathlib.Core.List.{append_assoc, append-nil}
use marsh.Validator.Model.{Event}
use marsh.Policy.{PolicyDecision, grant, deny}
use marsh.Policy.Git.Decision.{is_grant}
use marsh.Mux.History.{Generations}

-- The append handle of the history log is the history of the disk (Mux/Commit).
pub record AuthorityState : Type 0 where
  pub history : List Event
  pub generations : Generations
  pub seq : ℕ

pub record CapDenial : Type 0 where
  pub event : Event
  pub failed_precondition : String
  pub allowed_fixes : List String

-- Each candidate is judged on the history with the granted ones before it at its end.
unfoldable pub check_events :
    (List Event → Event → PolicyDecision) → List Event → List Event → List Event × List CapDenial
check_events decide history [] = (history, [])
check_events decide history (e ∷ es) = elim (decide history e) [
  | grant ↦ check_events decide (history ++ e ∷ []) es
  | deny failed fixes ↦
      let (history', denials) = check_events decide history es in
      (
        history',
        record { event = e; failed_precondition = failed; allowed_fixes = fixes } ∷ denials,
      )
]

-- `history.truncate(committed)`
abbrev pub truncate : ℕ → List Event → List Event
truncate = take

PolicyDecision-cases :
    (d : PolicyDecision)
    → (d ≡ grant) ⊎ ((failed : String) × (fixes : List String) × (d ≡ deny failed fixes))
PolicyDecision-cases grant = inl refl
PolicyDecision-cases (deny failed fixes) = inr (failed, fixes, refl)

module _ (decide : List Event → Event → PolicyDecision) where
  -- Every candidate is granted on the history with those before it.
  abbrev pub all_granted : List Event → List Event → Bool
  all_granted history [] = true
  all_granted history (e ∷ es) = is_grant (decide history e) && all_granted (history ++ e ∷ []) es

  granted-grows :
      (history es : List Event)
      → (granted : List Event) × ((check_events decide history es).0 ≡ history ++ granted)
  unfolding check_events
  granted-grows history [] = ([], sym (append-nil history))
  granted-grows history (e ∷ es) = elim (PolicyDecision-cases (decide history e)) [
    | inl g ↦
        let (granted, d) = granted-grows (history ++ e ∷ []) es in
        (e ∷ granted, rw (check_events, g) (d ∙ append_assoc history (e ∷ []) granted))
    | inr (failed, fixes, g) ↦
        let (granted, d) = granted-grows history es in (granted, rw (check_events, g) d)
  ]

  -- A refused transaction leaves no trace: cut to its old length, the history is the old one,
  -- whatever was granted before the refusal.
  pub truncate-check_events :
      (history es : List Event)
      → truncate (length history) (check_events decide history es).0 ≡ history
  truncate-check_events history es =
      let (granted, e) = granted-grows history es in
      ap (truncate (length history)) e ∙ take-append history granted

  -- Nothing is denied exactly when every candidate is granted in turn.
  pub check_events-all_granted :
      (history es : List Event)
      → ((check_events decide history es).1 ≡ []) ↔ (all_granted history es ≡ true)
  unfolding check_events
  check_events-all_granted history [] = ground arith
  check_events-all_granted history (e ∷ es) = elim (PolicyDecision-cases (decide history e)) [
    | inl g ↦ rw (check_events, g) (check_events-all_granted (history ++ e ∷ []) es)
    | inr (failed, fixes, g) ↦ rw (check_events, g) (ground arith)
  ]

  -- Where every candidate is granted in turn, the history gains exactly the candidates.
  pub check_events-history :
      (history es : List Event)
      → all_granted history es ≡ true
      → (check_events decide history es).0 ≡ history ++ es
  unfolding check_events
  check_events-history history [] h = sym (append-nil history)
  check_events-history history (e ∷ es) h = elim (PolicyDecision-cases (decide history e)) [
    | inl g ↦
        rw (check_events, g)
          (check_events-history (history ++ e ∷ []) es (ground arith)
            ∙ append_assoc history (e ∷ []) es)
    | inr (failed, fixes, g) ↦ ground arith
  ]
