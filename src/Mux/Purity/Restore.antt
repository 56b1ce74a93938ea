-- ===== src/Mux/Purity/Restore.antt =====
-- The learned cache is what its log rebuilds, and it answers with the last observation of a
-- command.
use marsh.Base.{
  ◌≡◌, refl, ap, ◌∙◌, sym, Bool, true, false, ◌&&◌, List, [], ◌∷◌, ◌++◌, unwrap_or, arith, ◌=?◌,
  string_has_eq, if◌then◌else◌,
}
use marsh.Base.Maps.{get, insert, get-insert}
use marsh.Mux.Purity.{
  Verdict, pure, sandboxed, verdict_beq, CommandKey, PurityRecord, Known, LearnedPurity,
  commands_of, learn, verdict_in, restore_from, restore, observe_learned, verdict_of_record,
}

abbrev pub key_beq : CommandKey → CommandKey → Bool
key_beq j k = (j.dir =? k.dir) && (j.cmd =? k.cmd)

dir_of :
    (known : Known) (k j : CommandKey)
    → (k.dir =? j.dir) ≡ true
    → commands_of known k.dir ≡ commands_of known j.dir
dir_of known k j h = ap (commands_of known) ((string_has_eq.is_same_iff k.dir j.dir).0 h)

verdict_in-learn :
    (known : Known) (k j : CommandKey) (v : Verdict)
    → verdict_in (learn known k.dir k.cmd v) j ≡ (if key_beq k j then v else verdict_in known j)
unfolding verdict_in learn
verdict_in-learn known k j v = ground (
  arith,
  get-insert known k.dir j.dir (insert (commands_of known k.dir) k.cmd v),
  get-insert (commands_of known k.dir) k.cmd j.cmd v,
  dir_of known k j,
)

verdict_beq-true : (v w : Verdict) → verdict_beq v w ≡ true → v ≡ w
verdict_beq-true v w h = ground arith

key_beq-true :
    (known : Known) (k j : CommandKey)
    → key_beq k j ≡ true
    → verdict_in known j ≡ verdict_in known k
unfolding verdict_in
key_beq-true known k j h =
    let d = (string_has_eq.is_same_iff k.dir j.dir).0 (ground arith) in
    let c = (string_has_eq.is_same_iff k.cmd j.cmd).0 (ground arith) in
    sym (
      ap (λ x. unwrap_or sandboxed (get (commands_of known x) k.cmd)) d
      ∙ ap (λ x. unwrap_or sandboxed (get (commands_of known j.dir) x)) c)

-- After an observation the command has the observed verdict, and every other command, one with the
-- same text in another directory included, keeps its own.
pub verdict_in-observe_learned :
    (l : LearnedPurity) (k j : CommandKey) (v : Verdict)
    → verdict_in (observe_learned l k v).known j ≡ (if key_beq k j then v else verdict_in l.known j)
unfolding observe_learned
verdict_in-observe_learned l k j v = ground (
  arith,
  verdict_in-learn l.known k j v,
  verdict_beq-true (verdict_in l.known k) v,
  key_beq-true l.known k j,
)

restore_from-append :
    (log : List PurityRecord) (known : Known) (r : PurityRecord)
    → restore_from known (log ++ r ∷ [])
      ≡ learn (restore_from known log) r.dir r.cmd (verdict_of_record r)
unfolding restore_from
restore_from-append [] known r = refl
restore_from-append (r' ∷ log) known r = restore_from-append log _ r

verdict_of_record-pure : (v : Verdict) → (if verdict_beq v pure then pure else sandboxed) ≡ v
verdict_of_record-pure v = ground arith

restore-either :
    (b : Bool) (l l' : LearnedPurity)
    → restore l.log ≡ l
    → restore l'.log ≡ l'
    → restore (if b then l else l').log ≡ (if b then l else l')
restore-either true l l' h h' = h
restore-either false l l' h h' = h'

-- A cache that its log rebuilds is still one after an observation, whatever it records.
pub restore-observe_learned :
    (l : LearnedPurity) (k : CommandKey) (v : Verdict)
    → restore l.log ≡ l
    → restore (observe_learned l k v).log ≡ observe_learned l k v
unfolding restore observe_learned
restore-observe_learned l k v h =
    let r : PurityRecord = record { cmd = k.cmd; dir = k.dir; is_pure = verdict_beq v pure } in
    let known : restore_from [] (l.log ++ r ∷ []) ≡ learn l.known k.dir k.cmd v =
      restore_from-append l.log [] r
      ∙ ap (λ m. learn m k.dir k.cmd (verdict_of_record r)) (ap (λ x. x.known) h)
      ∙ ap (learn l.known k.dir k.cmd) (verdict_of_record-pure v) in
    restore-either (verdict_beq (verdict_in l.known k) v) l
      (record { known = learn l.known k.dir k.cmd v; log = l.log ++ r ∷ [] }) h
      (ap (λ m. record { known = m; log = l.log ++ r ∷ [] }) known)
