-- ===== src/Policy/Git/Ownership.antt =====
-- What the table gives the principals that share a history: reads are never refused, an edit takes
-- the resource, and only its owner can move it on.
use marsh.Base.{
  ◌≡◌, ◌≢◌, String, refl, Bool, true, false, List, [], ◌∷◌, ◌++◌, Option, none, arith, ◌=?◌,
  =?_refl, all, is_none, unwrap_or, or_else, string_has_eq, list_has_eq,
}
use marsh.Base.Results.{ok}
use marsh.Validator.Model.{
  Principal, Resource, Action, Event, read, edit, stage, commit, diff, history,
}
use marsh.Validator.Engine.{Engine}
use marsh.Validator.Language.Words.{last_set}
use marsh.Policy.Git.States.{unstaged, row_of, row_set, last_row, last_reader, claim_set}
use marsh.Policy.Git.Decision.{
  GitPolicy, new, git_decide, git_decide-table, is_grant, refuses, claimed_by_other,
}

last_set-append :
    {E X : Type 0} (f : E → Option X) (h k : List E)
    → last_set f (h ++ k) ≡ or_else (last_set f k) (last_set f h)
last_set-append f [] k = ground arith
last_set-append f (e ∷ h) k = ground (arith, last_set-append f h k)

-- The row is a fold of the events: one more event sets it or leaves it.
pub row_of-append :
    (r : Resource) (h k : List Event) → row_of r (h ++ k) ≡ unwrap_or (row_of r h) (last_row r k)
unfolding row_of last_row
row_of-append r h k = ground (arith, last_set-append (row_set r) h k)

pub last_reader-append :
    (r : Resource) (h k : List Event)
    → last_reader r (h ++ k) ≡ or_else (last_reader r k) (last_reader r h)
unfolding last_reader
last_reader-append r h k = last_set-append (claim_set r) h k

-- No event of `k` changes the row of `r`.
abbrev pub leaves_row : Resource → List Event → Bool
leaves_row r k = all (λ e. is_none (row_set r e)) k

last_row-leaves : (r : Resource) (k : List Event) → leaves_row r k ≡ true → last_row r k ≡ none
unfolding last_row
last_row-leaves r [] h = refl
last_row-leaves r (e ∷ k) h = ground (arith, last_row-leaves r k)

-- The actions that another principal cannot take on a resource that someone has unstaged.
abbrev pub needs_ownership : Action → Bool
needs_ownership read = false
needs_ownership diff = false
needs_ownership history = false
needs_ownership _ = true

abbrev pub event : Principal → Action → Resource → Event
event p a r = record { principal = p; action = a; resource = r }

refuses_owned :
    (p q : Principal) (claimed : Bool) (a : Action)
    → (q =? p) ≡ false
    → needs_ownership a ≡ true
    → refuses q (unstaged p) claimed a ≡ true
refuses_owned p q claimed (commit m) ne n = ground arith
refuses_owned p q claimed a ne n = ground arith

module _ {R : Type 0} (engine : Engine R) (policy : GitPolicy R)
    (built : new engine ≡ ok policy) where
  -- A read, a diff and a look at the log are granted to everybody, in every history.
  pub observation_granted :
      (h : List Event) (p : Principal) (r : Resource) (a : Action)
      → needs_ownership a ≡ false
      → is_grant (git_decide engine policy h (event p a r)) ≡ true
  observation_granted h p r (commit m) n = cc
  observation_granted h p r read n = git_decide-table engine policy built h (event p read r)
  observation_granted h p r a n =
      ground (arith, git_decide-table engine policy built h (event p a r))

  -- Once an edit of `r` by `p` is committed, and until an event changes the row of `r` again, no
  -- other principal is granted anything on `r` but to observe it.
  pub edit_excludes_others :
      (h k : List Event) (p q : Principal) (r : Resource) (a : Action)
      → q ≢ p
      → leaves_row r k ≡ true
      → needs_ownership a ≡ true
      → is_grant (git_decide engine policy (h ++ event p edit r ∷ k) (event q a r)) ≡ false
  unfolding last_row
  edit_excludes_others h k p q r a ne quiet n = ground (
    arith,
    git_decide-table engine policy built (h ++ event p edit r ∷ k) (event q a r),
    row_of-append r h (event p edit r ∷ k),
    last_row-leaves r k quiet,
    =?_refl r,
    string_has_eq.is_same_iff q p,
    refuses_owned p q (claimed_by_other q (last_reader r (h ++ event p edit r ∷ k))) a,
  )

  -- The owner is granted to stage what it edited, after any events that leave the row, and then to
  -- commit it.
  pub owner_stages_and_commits :
      (h k : List Event) (p : Principal) (r : Resource) (m : Option String)
      → leaves_row r k ≡ true
      → let mine = h ++ event p edit r ∷ k in
        (is_grant (git_decide engine policy mine (event p stage r)) ≡ true)
        × (is_grant (git_decide engine policy (mine ++ event p stage r ∷ []) (event p (commit m) r))
            ≡ true)
  unfolding last_row
  owner_stages_and_commits h k p r m quiet =
      let mine = h ++ event p edit r ∷ k in
      let now : row_of r mine ≡ unstaged p =
        ground
          (arith, row_of-append r h (event p edit r ∷ k), last_row-leaves r k quiet, =?_refl r) in
      (
        ground (arith, now, git_decide-table engine policy built mine (event p stage r), =?_refl p),
        ground (
          arith,
          row_of-append r mine (event p stage r ∷ []),
          git_decide-table engine policy built (mine ++ event p stage r ∷ [])
              (event p (commit m) r),
          =?_refl r,
        ),
      )
