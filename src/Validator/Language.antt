-- ===== src/Validator/Language.antt =====
-- What the rule language means, with no canonical nodes, derivatives or caches: a head binds its
-- variables to the candidate's components, and a tail is a set of complete histories, as the
-- comments of rust-validator/src/syntax/source.rs describe it.
pub mod Words
pub mod Sequences
use marsh.Base.{
  ◌≡◌, String, Bool, true, false, not, ◌&&◌, ◌||◌, List, [], ◌∷◌, Option, none, some, ◌=?◌,
  DecidableEq, is_some_and, is_empty, any, ◌++◌, string_has_eq, list_has_eq, if◌then◌else◌,
}
use marsh.Base.Options.{◌>>=◌}
use marsh.Validator.Model.{Principal, Action, Resource, Event, action_has_eq}
use marsh.Validator.Source.{
  ComponentPattern, constant, variable, Head, Comparison, eq, neq, AtomPattern, principal_atom,
  action_atom, resource_atom, TestExpr, TestExprs, true_test, false_test, atom, and, or, RegexExpr,
  RegexExprs, empty, all, epsilon, test, union, concat, star, intersect, complement, Rule,
}
use Words.{WordSet, splits, repeats, single}

-- A component's value, and the values that a head gives to its variables.
pub data Value : Type 0 where
  principal_value : Principal → Value
  action_value : Action → Value
  resource_value : Resource → Value

abbrev pub Bindings : Type 0
Bindings = List (String × Value)

unfoldable pub value_of : String → Bindings → Option Value
value_of x [] = none
value_of x ((y, v) ∷ b) = if y =? x then some v else value_of x b

abbrev pub as_principal : Value → Option Principal
as_principal (principal_value p) = some p
as_principal _ = none

abbrev pub as_action : Value → Option Action
as_action (action_value a) = some a
as_action _ = none

abbrev pub as_resource : Value → Option Resource
as_resource (resource_value r) = some r
as_resource _ = none

abbrev pub value_beq : Value → Value → Bool
value_beq (principal_value p) (principal_value q) = p =? q
value_beq (action_value a) (action_value b) = a =? b
value_beq (resource_value r) (resource_value s) = r =? s
value_beq _ _ = false

-- The binding of one coordinate of the head, or `none` where a constant differs.
abbrev pub bind_component :
    {T : Type 0} ⦃e : DecidableEq T⦄ → (T → Value) → ComponentPattern T String → T → Option Bindings
bind_component inject (constant expected) actual = if expected =? actual then some [] else none
bind_component inject (variable x) actual = some ((x, inject actual) ∷ [])

-- Two partial bindings together, if no variable has two values.
unfoldable pub join : Bindings → Bindings → Option Bindings
unfolding value_of
join b b' =
    if any (λ (x, v). is_some_and (λ w. not (value_beq w v)) (value_of x b)) b'
    then none
    else some (b ++ b')

unfoldable pub bind_head : Head → Event → Option Bindings
unfolding join
bind_head head e = do
  p ← bind_component principal_value head.principal e.principal
  a ← bind_component action_value head.action e.action
  pa ← join p a
  r ← bind_component resource_value head.resource e.resource
  join pa r

-- The value that a pattern stands for, and whether the event has it.
abbrev pub value_in :
    {T : Type 0} → (Value → Option T) → Bindings → ComponentPattern T String → Option T
value_in project b (constant v) = some v
value_in project b (variable x) = elim (value_of x b) [ none ↦ none | some v ↦ project v ]

abbrev pub is_value : {T : Type 0} ⦃e : DecidableEq T⦄ → Option T → T → Bool
is_value v actual = is_some_and (λ w. w =? actual) v

abbrev pub atom_holds : Bindings → AtomPattern → Event → Bool
atom_holds b (principal_atom p) e = is_value (value_in as_principal b p) e.principal
atom_holds b (action_atom p) e = is_value (value_in as_action b p) e.action
atom_holds b (resource_atom p) e = is_value (value_in as_resource b p) e.resource

abbrev pub compared : Comparison → Bool → Bool
compared eq equal = equal
compared neq equal = not equal

unfoldable mutual
  unfolding value_of

  pub holds : Bindings → TestExpr → Event → Bool
  holds b true_test e = true
  holds b false_test e = false
  holds b (atom c p) e = compared c (atom_holds b p e)
  holds b (and ts) e = all_hold b ts e
  holds b (or ts) e = any_holds b ts e

  pub all_hold : Bindings → TestExprs → Event → Bool
  all_hold b TestExprs.nil e = true
  all_hold b (TestExprs.cons t ts) e = holds b t e && all_hold b ts e

  pub any_holds : Bindings → TestExprs → Event → Bool
  any_holds b TestExprs.nil e = false
  any_holds b (TestExprs.cons t ts) e = holds b t e || any_holds b ts e

-- The histories in the language of a tail.
unfoldable mutual
  pub member : Bindings → RegexExpr → WordSet Event
  member b empty h = false
  member b all h = true
  member b epsilon h = is_empty h
  member b (test t) h = single (holds b t) h
  member b (union rs) h = in_some b rs h
  member b (concat rs) h = in_sequence b rs h
  member b (star r) h = repeats (member b r) h
  member b (intersect rs) h = in_each b rs h
  member b (complement r) h = not (member b r h)

  pub in_some : Bindings → RegexExprs → WordSet Event
  in_some b RegexExprs.nil h = false
  in_some b (RegexExprs.cons r rs) h = member b r h || in_some b rs h

  pub in_each : Bindings → RegexExprs → WordSet Event
  in_each b RegexExprs.nil h = true
  in_each b (RegexExprs.cons r rs) h = member b r h && in_each b rs h

  pub in_sequence : Bindings → RegexExprs → WordSet Event
  in_sequence b RegexExprs.nil h = is_empty h
  in_sequence b (RegexExprs.cons r rs) h = splits (member b r) (in_sequence b rs) h

-- `none` where the head does not match the candidate; otherwise whether the complete history is
-- in the language of the tail.
unfoldable pub tail_accepts : Rule → List Event → Event → Option Bool
unfolding bind_head member
tail_accepts rule h candidate = do b ← bind_head rule.head candidate; some (member b rule.tail h)
