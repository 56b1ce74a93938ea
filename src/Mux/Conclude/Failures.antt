-- ===== src/Mux/Conclude/Failures.antt =====
-- shellmux/src/mux.rs: the conclusions that end in an error, and those that cannot be denied.
use marsh.Base.{ℕ, String, ◌≡◌, ◌≢◌, refl, ap, ◌∙◌, true, List, [], ◌∷◌, ◌++◌, arith, ◌=?◌}
use marsh.Base.Results.{Result, ok, err}
use marsh.Validator.Model.{Event, Action, action_beq_iff, action_has_eq}
use marsh.Validator.Engine.{Engine}
use marsh.Policy.{PolicyDecision}
use marsh.Policy.Git.Decision.{GitPolicy, new, git_decide, is_grant}
use marsh.Policy.Git.Ownership.{event, observation_granted}
use marsh.Mux.Tree.{Tree, MuxError}
use marsh.Mux.History.{CommitOp}
use marsh.Mux.Commit.{apply}
use marsh.Mux.Authority.{CapDenial, all_granted, check_events-all_granted, check_events-history}
use marsh.Mux.Conclude.{
  Sandbox, Translation, denied_caps, Session, only_reads, merge, conclude_bypass, record_commit,
}

module _ (sha1 : List ℕ → String) (decide : List Event → Event → PolicyDecision)
    (diff_trees : Tree → Tree → Result MuxError (List CommitOp)) where
  -- A merge that fails while it records the commit keeps the granted events in the history that the
  -- next commands are judged on, while the number and the history log are as before.
  pub merge-failed :
      (s s' : Session) (sandbox : Sandbox) (cmd : String) (base_seq : ℕ) (t : Translation)
      (ops : List CommitOp) (e : MuxError)
      → merge sha1 decide diff_trees s sandbox cmd base_seq t ops ≡ (err e, s')
      → (s'.authority.history ≡ s.authority.history ++ t.events)
        × (s'.authority.seq ≡ s.authority.seq)
        × (s'.disk.history ≡ s.disk.history)
  unfolding merge record_commit apply
  merge-failed s s' sandbox cmd base_seq t ops e h =
      let g = check_events-all_granted decide s.authority.history t.events in
      let k = check_events-history decide s.authority.history t.events in ground (arith, g, k)

module _ {R : Type 0} (engine : Engine R) (policy : GitPolicy R)
    (built : new engine ≡ ok policy) where
  read_granted :
      (h : List Event) (e : Event)
      → (e.action =? Action.read) ≡ true
      → is_grant (git_decide engine policy h e) ≡ true
  read_granted h e r =
      let is_read : e.action ≡ Action.read = (action_beq_iff e.action Action.read).0 r in
      ap (λ a. is_grant (git_decide engine policy h (event e.principal a e.resource))) is_read
      ∙ observation_granted engine policy built h e.principal e.resource Action.read refl

  -- With the git policy, a run of reads is granted whole, on any history.
  pub reads_granted :
      (h es : List Event)
      → only_reads es ≡ true
      → all_granted (git_decide engine policy) h es ≡ true
  reads_granted h [] r = refl
  reads_granted h (e ∷ es) r = ground (arith, read_granted h e, reads_granted (h ++ e ∷ []) es)

  -- With the git policy, a bypassed command is never denied.
  bypass_not_denied :
      (sha1 : List ℕ → String) (diff_trees : Tree → Tree → Result MuxError (List CommitOp))
      (s s' : Session) (sandbox : Sandbox) (cmd : String) (exit_code : ℕ) (t : Translation)
      (base_seq : ℕ) (requested : List Event) (denials : List CapDenial)
      → conclude_bypass sha1
          (git_decide engine policy)
          diff_trees
          s
          sandbox
          cmd
          exit_code
          t
          base_seq
        ≢ (ok (denied_caps requested denials), s')
  unfolding conclude_bypass
  bypass_not_denied sha1 diff_trees s s' sandbox cmd exit_code t base_seq requested denials =
      let g = check_events-all_granted (git_decide engine policy) s.authority.history t.events in
      let r = reads_granted s.authority.history t.events in ground (arith, g, r)
