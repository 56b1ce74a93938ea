-- ===== src/Validator/Source.antt =====
-- rust-validator/src/syntax/source.rs: the source language of policy rules.
use marsh.Base.{String, List, [], ◌∷◌}
use marsh.Validator.Model.{Principal, Action, Resource}

pub data ComponentPattern (T : Type 0) (Variable : Type 0) : Type 0 where
  constant : T → ComponentPattern T Variable
  variable : Variable → ComponentPattern T Variable

pub record Head : Type 0 where
  pub principal : ComponentPattern Principal String
  pub action : ComponentPattern Action String
  pub resource : ComponentPattern Resource String

pub data Component : Type 0 where
  principal action resource : Component

pub data Comparison : Type 0 where
  eq neq : Comparison

-- `!comparison`
unfoldable pub flip : Comparison → Comparison
flip eq = neq
flip neq = eq

pub data AtomPattern : Type 0 where
  principal_atom : ComponentPattern Principal String → AtomPattern
  action_atom : ComponentPattern Action String → AtomPattern
  resource_atom : ComponentPattern Resource String → AtomPattern

-- The product coordinate that an atom selects.
pub component : AtomPattern → Component
component (principal_atom _) = Component.principal
component (action_atom _) = Component.action
component (resource_atom _) = Component.resource

-- `And` and `Or` hold a vector of tests.
mutual
  pub data TestExpr : Type 0 where
    true_test : TestExpr
    false_test : TestExpr
    atom : Comparison → AtomPattern → TestExpr
    and : TestExprs → TestExpr
    or : TestExprs → TestExpr

  pub data TestExprs : Type 0 where
    nil : TestExprs
    cons : TestExpr → TestExprs → TestExprs

abbrev tests : List TestExpr → TestExprs
tests [] = nil
tests (t ∷ ts) = cons t (tests ts)

-- The constructors `TestExpr::and` and `TestExpr::or`.
abbrev pub all_of : List TestExpr → TestExpr
all_of ts = and (tests ts)

abbrev pub any_of : List TestExpr → TestExpr
any_of ts = or (tests ts)

mutual
  pub data RegexExpr : Type 0 where
    empty : RegexExpr
    all : RegexExpr
    epsilon : RegexExpr
    test : TestExpr → RegexExpr
    union : RegexExprs → RegexExpr
    concat : RegexExprs → RegexExpr
    star : RegexExpr → RegexExpr
    intersect : RegexExprs → RegexExpr
    complement : RegexExpr → RegexExpr

  pub data RegexExprs : Type 0 where
    nil : RegexExprs
    cons : RegexExpr → RegexExprs → RegexExprs

abbrev regexes : List RegexExpr → RegexExprs
regexes [] = RegexExprs.nil
regexes (r ∷ rs) = RegexExprs.cons r (regexes rs)

-- The constructors `RegexExpr::union`, `RegexExpr::concat` and `RegexExpr::intersect`.
abbrev pub union_of : List RegexExpr → RegexExpr
union_of rs = union (regexes rs)

abbrev pub concat_of : List RegexExpr → RegexExpr
concat_of rs = concat (regexes rs)

abbrev pub intersect_of : List RegexExpr → RegexExpr
intersect_of rs = intersect (regexes rs)

pub data RuleMode : Type 0 where
  require forbid : RuleMode

pub record Rule : Type 0 where
  pub mode : RuleMode
  pub head : Head
  pub tail : RegexExpr
