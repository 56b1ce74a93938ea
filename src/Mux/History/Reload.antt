-- ===== src/Mux/History/Reload.antt =====
-- What a restart reads back of the history log: exactly what was appended to it.
use marsh.Base.{ℕ, ◌≤◌, String, ◌≡◌, refl, ap, List, [], ◌∷◌, ◌++◌, map, arith}
use marsh.Validator.Model.{Action, Event}
use marsh.Mux.History.{
  CommitOp, path, logged_action, replayed_action, logged, replayed, HistoryRecord, append,
  insert_all, Loaded, load_from, load, load_record,
}

-- Every action, a commit's message included, survives the log.
pub replayed_action-logged_action : (a : Action) → replayed_action (logged_action a) ≡ a
unfolding logged_action replayed_action
replayed_action-logged_action (Action.commit m) = refl
replayed_action-logged_action a = ground arith

-- An event reads back as it was logged.
pub replayed-logged : (e : Event) → replayed (logged e) ≡ e
unfolding logged replayed
replayed-logged e =
    ap (λ a. record { principal = e.principal; action = a; resource = e.resource })
      (replayed_action-logged_action e.action)

pub map-replayed-logged : (es : List Event) → map replayed (map logged es) ≡ es
map-replayed-logged [] = refl
map-replayed-logged (e ∷ es) = rw (replayed-logged e, map-replayed-logged es) refl

load_from-append :
    (log : List HistoryRecord) (l : Loaded) (r : HistoryRecord)
    → load_from l (log ++ r ∷ []) ≡ load_from (load_from l log) (r ∷ [])
unfolding load_from
load_from-append [] l r = refl
load_from-append (r' ∷ log) l r = load_from-append log (load_record l r') r

-- A restart after an append reads the old state with the new events at its end, the paths of the
-- operations last written by the new number, and that number where it is the largest.
pub load-append :
    (log : List HistoryRecord) (seq : ℕ) (principal cmd : String) (events : List Event)
    (ops : List CommitOp)
    → (load log).seq ≤ seq
    → load (append seq principal cmd events ops log) ≡ record {
      history = (load log).history ++ events;
      generations = insert_all (map path ops) seq (load log).generations;
      seq = seq;
    }
unfolding load append load_from
load-append log seq principal cmd events ops le =
    rw (load_from-append log _ _, map-replayed-logged events)
      (ap
        (λ n. record {
          history = (load log).history ++ events;
          generations = insert_all (map path ops) seq (load log).generations;
          seq = n;
        })
        (ground arith))
