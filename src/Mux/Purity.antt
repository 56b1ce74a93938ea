-- ===== src/Mux/Purity.antt =====
-- shellmux/src/purity.rs: what a checker has learned about commands, and the log it is rebuilt
-- from. The static proof is a function of the command, of which only its answer is taken here.
pub mod Restore
pub mod Tests
use marsh.Base.{
  String, ◌&&◌, Bool, true, false, List, [], ◌∷◌, ◌++◌, Option, none, some, unwrap_or, ◌=?◌,
  string_has_eq, DecidableEq, if◌then◌else◌,
}
use marsh.Base.Maps.{Map, get, insert}

pub data Verdict : Type 0 where
  pure sandboxed : Verdict

abbrev pub verdict_beq : Verdict → Verdict → Bool
verdict_beq pure pure = true
verdict_beq sandboxed sandboxed = true
verdict_beq _ _ = false

pub record CommandKey : Type 0 where
  pub cmd : String
  pub dir : String

pub record PurityRecord : Type 0 where
  pub cmd : String
  pub dir : String
  pub is_pure : Bool

-- Directory to command line to verdict.
abbrev pub Known : Type 0
Known = Map String (Map String Verdict)

pub record LearnedPurity : Type 0 where
  pub known : Known
  pub log : List PurityRecord

pub data PurityChecker : Type 0 where
  static : PurityChecker
  learned : LearnedPurity → PurityChecker

abbrev pub commands_of : Known → String → Map String Verdict
commands_of known dir = unwrap_or [] (get known dir)

-- `entry(dir).or_default().insert(cmd, verdict)`
unfoldable pub learn : Known → String → String → Verdict → Known
learn known dir cmd v = insert known dir (insert (commands_of known dir) cmd v)

unfoldable pub verdict_in : Known → CommandKey → Verdict
verdict_in known key = unwrap_or sandboxed (get (commands_of known key.dir) key.cmd)

abbrev pub verdict_of_record : PurityRecord → Verdict
verdict_of_record r = if r.is_pure then pure else sandboxed

-- File order, so the last record of a key stands.
unfoldable pub restore_from : Known → List PurityRecord → Known
unfolding learn
restore_from known [] = known
restore_from known (r ∷ rs) = restore_from (learn known r.dir r.cmd (verdict_of_record r)) rs

unfoldable pub restore : List PurityRecord → LearnedPurity
unfolding restore_from
restore log = record { known = restore_from [] log; log = log }

-- Only a change is recorded.
unfoldable pub observe_learned : LearnedPurity → CommandKey → Verdict → LearnedPurity
unfolding verdict_in learn
observe_learned l key v = if verdict_beq (verdict_in l.known key) v then l else record {
  known = learn l.known key.dir key.cmd v;
  log = l.log ++ record { cmd = key.cmd; dir = key.dir; is_pure = verdict_beq v pure } ∷ [];
}

unfoldable pub observe : PurityChecker → CommandKey → Verdict → PurityChecker
unfolding observe_learned
observe static key v = static
observe (learned l) key v = learned (observe_learned l key v)

-- `check`, where `proved` is the static proof's answer.
unfoldable pub check : PurityChecker → Bool → CommandKey → Verdict
unfolding verdict_in
check static proved key = if proved then pure else sandboxed
check (learned l) proved key = verdict_in l.known key
