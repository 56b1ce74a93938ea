-- ===== src/Policy/Git/Owners.antt =====
-- A denial names the principals that the decision was made on: the claims of capabilities.rs are
-- the events that decide the row and the read claim.
use marsh.Base.{
  ℕ, suc, ◌+◌, ◌≡◌, refl, ap, ◌∙◌, List, [], ◌∷◌, Option, none, some, arith, ◌=?◌, =?_sym,
  get_elem?, unwrap_or, or_else, string_has_eq, list_has_eq, if◌then◌else◌,
}
use marsh.Validator.Model.{
  Principal, Resource, Action, Event, read, edit, stage, unstage, commit, checkout, stash, delete,
  clean, diff, history,
}
use marsh.Policy.Git.Capabilities.{Claims, no_claims, claims_for, claims_from, apply}
use marsh.Policy.Git.Diagnostics.{git_context, event_at}
use marsh.Policy.Git.States.{
  Row, unstaged, settled, row_of, row_set, row_after, last_row, last_reader, claim_set,
}

resource_sym : (r s : Resource) → (r =? s) ≡ (s =? r)
resource_sym r s = =?_sym r s

-- The event that holds the row of `r` after one more event.
abbrev holder_after : Action → Event → Option Event → Option Event
holder_after edit e holder = some e
holder_after unstage e holder = some e
holder_after stage e holder = some e
holder_after delete e holder = some e
holder_after (commit _) e holder = none
holder_after checkout e holder = none
holder_after stash e holder = none
holder_after read e holder = holder
holder_after clean e holder = holder
holder_after diff e holder = holder
holder_after history e holder = holder

abbrev reading_after : Action → Event → Option Event → Option Event
reading_after read e reading = some e
reading_after _ e reading = reading

module _ (r : Resource) where
  abbrev holder_step : Option Event → Event → Option Event
  holder_step holder e = if e.resource =? r then holder_after e.action e holder else holder

  abbrev reading_step : Option Event → Event → Option Event
  reading_step reading e = if e.resource =? r then reading_after e.action e reading else reading

  row_holder : Option Event → List Event → Option Event
  row_holder holder [] = holder
  row_holder holder (e ∷ h) = row_holder (holder_step holder e) h

  last_reading : Option Event → List Event → Option Event
  last_reading reading [] = reading
  last_reading reading (e ∷ h) = last_reading (reading_step reading e) h

  abbrev claim_step : Claims → Event → ℕ → Claims
  claim_step c e i = if e.resource =? r then apply c e.action i else c

module _ (r : Resource) (full : List Event) where
  -- From index `i` on, `full` is `h`.
  abbrev IsRest : ℕ → List Event → Type 0
  IsRest i h = (j : ℕ) → get_elem? full (i + j) ≡ get_elem? h j

  IsRest-tail : (i : ℕ) (e : Event) (h : List Event) → IsRest i (e ∷ h) → IsRest (suc i) h
  IsRest-tail i e h rest j = ap (get_elem? full) (omega arith) ∙ rest (suc j)

  IsRest-head : (i : ℕ) (e : Event) (h : List Event) → IsRest i (e ∷ h) → get_elem? full i ≡ some e
  IsRest-head i e h rest = ap (get_elem? full) (omega arith) ∙ rest 0

  claim_step-events :
      (c : Claims) (i : ℕ) (e : Event)
      → get_elem? full i ≡ some e
      → (event_at full (claim_step r c e i).row ≡ holder_step r (event_at full c.row) e)
        × (event_at full (claim_step r c e i).read ≡ reading_step r (event_at full c.read) e)
  unfolding apply
  claim_step-events c i e here = ground arith

  claims_from-events :
      (i : ℕ) (c : Claims) (h : List Event)
      → IsRest i h
      → (event_at full (claims_from i c h r).row ≡ row_holder r (event_at full c.row) h)
        × (event_at full (claims_from i c h r).read ≡ last_reading r (event_at full c.read) h)
  unfolding claims_from row_holder last_reading
  claims_from-events i c [] rest = (refl, refl)
  claims_from-events i c (e ∷ h) rest =
      let ih = claims_from-events (suc i) (claim_step r c e i) h (IsRest-tail i e h rest) in
      let step = claim_step-events c i e (IsRest-head i e h rest) in
      (ih.0 ∙ ap (λ x. row_holder r x h) step.0, ih.1 ∙ ap (λ x. last_reading r x h) step.1)

-- The row that an event leaves its own resource in.
abbrev row_by : Option Event → Row
row_by none = settled
row_by (some e) = unwrap_or settled (row_after e.action e.principal)

abbrev principal_by : Option Event → Option Principal
principal_by none = none
principal_by (some e) = some e.principal

module _ (r : Resource) where
  row_by-holder_step :
      (holder : Option Event) (e : Event)
      → row_by (holder_step r holder e) ≡ unwrap_or (row_by holder) (row_set r e)
  row_by-holder_step holder e = ground (arith, resource_sym r e.resource)

  row_by-row_holder :
      (holder : Option Event) (h : List Event)
      → row_by (row_holder r holder h) ≡ unwrap_or (row_by holder) (last_row r h)
  unfolding row_holder last_row
  row_by-row_holder holder [] = refl
  row_by-row_holder holder (e ∷ h) =
      ground (arith, row_by-row_holder (holder_step r holder e) h, row_by-holder_step holder e)

  principal_by-reading_step :
      (reading : Option Event) (e : Event)
      → principal_by (reading_step r reading e) ≡ or_else (claim_set r e) (principal_by reading)
  principal_by-reading_step reading e = ground (arith, resource_sym r e.resource)

  principal_by-last_reading :
      (reading : Option Event) (h : List Event)
      → principal_by (last_reading r reading h) ≡ or_else (last_reader r h) (principal_by reading)
  unfolding last_reading last_reader
  principal_by-last_reading reading [] = ground arith
  principal_by-last_reading reading (e ∷ h) = ground (
    arith,
    principal_by-last_reading (reading_step r reading e) h,
    principal_by-reading_step reading e,
  )

-- The name that a denial gives to the owner of a row.
abbrev pub owner_name : Row → Principal
owner_name (unstaged q) = q
owner_name _ = "another principal"

-- A denial's owner is the principal whose unstaged change the row records, and its reader is the
-- last principal that read the resource; where there is none it says "another principal".
pub git_context-names :
    (h : List Event) (c : Event)
    → ((git_context h c).owner ≡ owner_name (row_of c.resource h))
      × ((git_context h c).reader ≡ unwrap_or "another principal" (last_reader c.resource h))
unfolding git_context claims_for row_of
git_context-names h c =
    let es = claims_from-events c.resource h 0 no_claims h (λ j. ap (get_elem? h) (omega arith)) in
    ground (
      arith,
      es.0,
      es.1,
      row_by-row_holder c.resource none h,
      principal_by-last_reading c.resource none h,
    )
