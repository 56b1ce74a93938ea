-- ===== src/Mux/Conclude/Restart.antt =====
-- The session's memory is what a restart would read back of the history log.
use marsh.Base.{
  ℕ, ◌≤◌, String, ◌≡◌, refl, ap, ◌∙◌, sym, true, false, ◌&&◌, List, [], ◌++◌, map, arith, is_empty,
  if◌then◌else◌, Option-cases, Bool-cases, inl, inr, ◌≢◌,
}
use mathlib.Core.List.{append_assoc}
use marsh.Base.Results.{Result, ok, err, Result-cases}
use marsh.Validator.Model.{Event}
use marsh.Policy.{PolicyDecision}
use marsh.Mux.Tree.{Tree, MuxError}
use marsh.Mux.History.{
  CommitOp, HistoryRecord, path, insert_all, append as append_history, Loaded, load,
}
use marsh.Mux.History.Reload.{load-append}
use marsh.Mux.Commit.{Persistence, apply}
use marsh.Mux.Readers.{release_reader}
use marsh.Mux.Authority.{AuthorityState}
use marsh.Mux.Conclude.{
  Plan, transaction, bypass, Sandbox, Translation, ExecutionResult, CmdOutcome, committed, bypassed,
  Session, learn_from, verdict_of, merge, conclude_bypass, conclude_transaction, conclude,
}
use marsh.Mux.Conclude.Outcomes.{
  is_success, SameState, merge-refused, merge-committed, conclude_bypass-refused,
  conclude_bypass-idle, conclude_bypass-recorded,
}

-- The log loads an old history and then some events, and the session has these after the history
-- that it started with; generations and number are those of the log.
abbrev pub HasSince : List Event → List Event → Loaded → AuthorityState → Type 0
HasSince start old l a =
    (events : List Event) × (a.history ≡ start ++ events)
    × (l ≡ record { history = old ++ events; generations = a.generations; seq = a.seq })

abbrev pub IsResumed : List Event → List Event → Session → Type 0
IsResumed start old s = HasSince start old (load s.disk.history) s.authority

abbrev loaded : AuthorityState → Loaded
loaded a = record { history = a.history; generations = a.generations; seq = a.seq }

-- A restart would load what the authority holds.
abbrev pub IsLoaded : Session → Type 0
IsLoaded s = load s.disk.history ≡ loaded s.authority

resumed-append :
    (start old : List Event) (a : AuthorityState) (disk : Persistence) (seq : ℕ)
    (principal cmd : String) (events : List Event) (ops : List CommitOp)
    → HasSince start old (load disk.history) a
    → a.seq ≤ seq
    → HasSince start old (load (append_history seq principal cmd events ops disk.history)) (record {
      history = a.history ++ events;
      generations = insert_all (map path ops) seq a.generations;
      seq = seq;
    })
resumed-append start old a disk seq principal cmd events ops (since, here, l) le = (
  since ++ events,
  ap (λ h. h ++ events) here ∙ append_assoc start since events,
  load-append disk.history seq principal cmd events ops (omega (arith, ap (λ x. x.seq) l, le))
      ∙ ap
          (λ x. record {
            history = x.history ++ events;
            generations = insert_all (map path ops) seq x.generations;
            seq = seq;
          })
          l
      ∙ ap
          (λ h. record {
            history = h;
            generations = insert_all (map path ops) seq a.generations;
            seq = seq;
          })
          (append_assoc old since events),
)

module _ (sha1 : List ℕ → String) (decide : List Event → Event → PolicyDecision)
    (diff_trees : Tree → Tree → Result MuxError (List CommitOp)) (start old : List Event) where
  apply-history :
      (disk disk' : Persistence) (uid : String) (seq : ℕ) (principal cmd : String)
      (events : List Event) (ops : List CommitOp)
      → apply sha1 disk uid seq principal cmd events ops ≡ ok disk'
      → disk'.history ≡ disk.history
  unfolding apply
  apply-history disk disk' uid seq principal cmd events ops e = ground arith

  moved :
      {log log' : List HistoryRecord} {a a' : AuthorityState}
      → log' ≡ log
      → a' ≡ a
      → HasSince start old (load log) a
      → HasSince start old (load log') a'
  moved d e (since, here, l) = (
    since,
    ap (λ x. x.history) e ∙ here,
    ap load d
        ∙ l
        ∙ ap (λ x. record { history = old ++ since; generations = x.generations; seq = x.seq })
            (sym e),
  )

  same-IsResumed :
      (s s' : Session) → IsResumed start old s → SameState s s' → IsResumed start old s'
  same-IsResumed s s' l (a, d) = moved (ap (λ x. x.history) d) a l

  merge-idle :
      (s s' : Session) (sandbox : Sandbox) (cmd : String) (base_seq : ℕ) (t : Translation)
      (ops : List CommitOp) (o : CmdOutcome)
      → merge sha1 decide diff_trees s sandbox cmd base_seq t ops ≡ (ok o, s')
      → is_empty t.events && is_empty ops ≡ true
      → SameState s s'
  unfolding merge
  merge-idle s s' sandbox cmd base_seq t ops o e n = ground arith

  merge-not_bypassed :
      (s s' : Session) (sandbox : Sandbox) (cmd : String) (base_seq : ℕ) (t : Translation)
      (ops : List CommitOp) (granted : List Event)
      → merge sha1 decide diff_trees s sandbox cmd base_seq t ops ≢ (ok (bypassed granted), s')
  unfolding merge
  merge-not_bypassed s s' sandbox cmd base_seq t ops granted e = ground arith

  committed-IsResumed :
      (s s' : Session) (sandbox : Sandbox) (cmd : String) (base_seq : ℕ) (t : Translation)
      (ops : List CommitOp) (seq : ℕ) (granted : List Event)
      → IsResumed start old s
      → merge sha1 decide diff_trees s sandbox cmd base_seq t ops ≡ (ok (committed seq granted), s')
      → is_empty t.events && is_empty ops ≡ false
      → IsResumed start old s'
  committed-IsResumed s s' sandbox cmd base_seq t ops seq granted l e n =
      let (fresh, granted', number, same, authority, log) =
        merge-committed sha1 decide diff_trees s s' sandbox cmd base_seq t ops seq granted e n in
      moved log authority (
        resumed-append start old s.authority s.disk seq sandbox.principal cmd t.events ops l
          (omega (arith, number)))

  merge-IsResumed :
      (s s' : Session) (sandbox : Sandbox) (cmd : String) (base_seq : ℕ) (t : Translation)
      (ops : List CommitOp) (o : CmdOutcome)
      → IsResumed start old s
      → merge sha1 decide diff_trees s sandbox cmd base_seq t ops ≡ (ok o, s')
      → IsResumed start old s'
  merge-IsResumed s s' sandbox cmd base_seq t ops (committed seq granted) l e =
      elim (Bool-cases (is_empty t.events && is_empty ops)) [
        | inl n ↦
            same-IsResumed s s' l
              (merge-idle s s' sandbox cmd base_seq t ops (committed seq granted) e n)
        | inr n ↦ committed-IsResumed s s' sandbox cmd base_seq t ops seq granted l e n
      ]
  merge-IsResumed s s' sandbox cmd base_seq t ops (bypassed granted) l e =
      absurd (merge-not_bypassed s s' sandbox cmd base_seq t ops granted e)
  merge-IsResumed s s' sandbox cmd base_seq t ops o l e =
      same-IsResumed s s' l
        (merge-refused sha1 decide diff_trees s s' sandbox cmd base_seq t ops o e (ground arith))

  conclude_bypass-IsResumed :
      (s s' : Session) (sandbox : Sandbox) (cmd : String) (exit_code : ℕ) (t : Translation)
      (base_seq : ℕ) (o : CmdOutcome)
      → IsResumed start old s
      → conclude_bypass sha1 decide diff_trees s sandbox cmd exit_code t base_seq ≡ (ok o, s')
      → IsResumed start old s'
  unfolding insert_all
  conclude_bypass-IsResumed s s' sandbox cmd exit_code t base_seq o l e =
      elim (Bool-cases (is_success o)) [
        | inr h ↦ same-IsResumed s s' l (
            conclude_bypass-refused sha1 decide diff_trees s s' sandbox cmd exit_code t base_seq o e
              h)
        | inl h ↦ elim (Bool-cases (is_empty t.events)) [
          | inl n ↦ same-IsResumed s s' l (
              conclude_bypass-idle sha1 decide diff_trees s s' sandbox cmd exit_code t base_seq o e
                h n)
          | inr n ↦
              let (_, _, a, d) =
                conclude_bypass-recorded sha1 decide diff_trees s s' sandbox cmd exit_code t
                  base_seq o e h n in
              moved (ap (λ x. x.history) d) a (
                resumed-append start old s.authority s.disk s.authority.seq sandbox.principal cmd
                  t.events [] l (omega arith))
        ]
      ]

  conclude_transaction-IsResumed :
      (s s' : Session) (sandbox : Sandbox) (cmd : String) (exit_code : ℕ) (t : Translation)
      (base_seq : ℕ) (o : CmdOutcome)
      → IsResumed start old s
      → conclude_transaction sha1 decide diff_trees s sandbox cmd exit_code t base_seq ≡ (ok o, s')
      → IsResumed start old s'
  unfolding conclude_transaction
  conclude_transaction-IsResumed s s' sandbox cmd exit_code t base_seq o l e =
      let s₁ = learn_from s sandbox cmd (verdict_of t exit_code) in
      elim (Result-cases
        (if t.wrote_in_root then diff_trees s₁.disk.seed (s₁.disk.work sandbox.uid) else ok [])) [
          | inl (ops, d) ↦
              ground (arith, d, l, merge-IsResumed s₁ s' sandbox cmd base_seq t ops o l)
          | inr (_, d) ↦ ground (arith, d, l)
        ]

  -- Where the session has, after the history that it started with, the events that the log gained
  -- since, and the generations and number of the log, it still has after any conclusion that does not
  -- fail.
  pub conclude-IsResumed :
      {Evidence : Type 0} (translate : Evidence → Sandbox → Translation) (s s' : Session)
      (sandbox : Sandbox) (cmd : String) (completed : Result MuxError (ExecutionResult Evidence))
      (base_seq : ℕ) (plan : Plan) (o : CmdOutcome)
      → IsResumed start old s
      → conclude sha1 decide diff_trees translate s sandbox cmd completed base_seq plan ≡ (ok o, s')
      → IsResumed start old s'
  unfolding conclude
  conclude-IsResumed translate s s' sandbox cmd (err _) base_seq plan o l e = ground arith
  conclude-IsResumed translate s s' sandbox cmd (ok result) base_seq transaction o l e =
      elim (Option-cases result.evidence) [
        | inl n ↦ ground (arith, n, l)
        | inr (evidence, n) ↦ ground (
          arith,
          n,
          conclude_transaction-IsResumed s s' sandbox cmd result.exit_code
              (translate evidence sandbox) base_seq o l,
        )
      ]
  conclude-IsResumed translate s s' sandbox cmd (ok result) base_seq bypass o l e =
      let s₁ : Session = record s { readers = release_reader s.readers base_seq s.authority.seq } in
      elim (Option-cases result.evidence) [
        | inl n ↦ ground (arith, n, l)
        | inr (evidence, n) ↦ ground (
          arith,
          n,
          conclude_bypass-IsResumed s₁ s' sandbox cmd result.exit_code (translate evidence sandbox)
              base_seq o l,
        )
      ]

module _ (sha1 : List ℕ → String) (decide : List Event → Event → PolicyDecision)
    (diff_trees : Tree → Tree → Result MuxError (List CommitOp)) where
  -- Where the session's history, generations and number are those that the log would load, they
  -- still are after any conclusion that does not fail.
  pub conclude-IsLoaded :
      {Evidence : Type 0} (translate : Evidence → Sandbox → Translation) (s s' : Session)
      (sandbox : Sandbox) (cmd : String) (completed : Result MuxError (ExecutionResult Evidence))
      (base_seq : ℕ) (plan : Plan) (o : CmdOutcome)
      → IsLoaded s
      → conclude sha1 decide diff_trees translate s sandbox cmd completed base_seq plan ≡ (ok o, s')
      → IsLoaded s'
  conclude-IsLoaded translate s s' sandbox cmd completed base_seq plan o l e =
      let (since, here, l') =
        conclude-IsResumed sha1 decide diff_trees [] [] translate s s' sandbox cmd completed
          base_seq plan o (s.authority.history, refl, l) e in
      l'
      ∙ ap
          (λ h. record {
            history = h;
            generations = s'.authority.generations;
            seq = s'.authority.seq;
          })
          (sym here)
