-- ===== src/Mux/Conclude/Outcomes.antt =====
-- What a conclusion leaves: nothing but for a commit or the reads of a bypass, and for a commit
-- exactly the granted events under the next number.
use marsh.Base.{
  ℕ, ◌+◌, String, ◌≡◌, ap, Bool, true, false, ◌&&◌, List, [], ◌++◌, map, arith, length, is_empty,
  if◌then◌else◌, nat_has_eq, Option-cases, inl, inr,
}
use marsh.Base.Results.{Result, ok, err, Result-cases}
use marsh.Mux.Readers.{release_reader}
use marsh.Validator.Model.{Event}
use marsh.Policy.{PolicyDecision}
use marsh.Mux.Tree.{Tree, MuxError}
use marsh.Mux.History.{CommitOp, path, insert_all, append as append_history}
use marsh.Mux.Commit.{apply}
use marsh.Mux.Authority.{
  AuthorityState, check_events, truncate, truncate-check_events, all_granted,
  check_events-all_granted, check_events-history,
}
use marsh.Mux.Conclude.{
  Plan, transaction, bypass, Sandbox, Translation, ExecutionResult, CmdOutcome, committed, bypassed,
  Session, stale_paths, learn_from, record_commit, merge, conclude_bypass, conclude_transaction,
  conclude, verdict_of, only_reads,
}

-- The outcomes that may change the seed or the history.
abbrev pub is_success : CmdOutcome → Bool
is_success (committed seq granted) = true
is_success (bypassed granted) = true
is_success _ = false

-- The session has the authority and the disk of another.
abbrev pub SameState : Session → Session → Type 0
SameState s s' = (s'.authority ≡ s.authority) × (s'.disk ≡ s.disk)

module _ (sha1 : List ℕ → String) (decide : List Event → Event → PolicyDecision)
    (diff_trees : Tree → Tree → Result MuxError (List CommitOp)) where
  truncated :
      (a : AuthorityState) (es : List Event)
      → ◌≡◌ {A = AuthorityState}
          (record a { history = truncate (length a.history) (check_events decide a.history es).0 })
          a
  truncated a es = ap (λ h. record a { history = h }) (truncate-check_events decide a.history es)

  pub merge-refused :
      (s s' : Session) (sandbox : Sandbox) (cmd : String) (base_seq : ℕ) (t : Translation)
      (ops : List CommitOp) (o : CmdOutcome)
      → merge sha1 decide diff_trees s sandbox cmd base_seq t ops ≡ (ok o, s')
      → is_success o ≡ false
      → SameState s s'
  unfolding merge
  merge-refused s s' sandbox cmd base_seq t ops o e h =
      ground (arith, truncated s.authority t.events)

  pub conclude_bypass-refused :
      (s s' : Session) (sandbox : Sandbox) (cmd : String) (exit_code : ℕ) (t : Translation)
      (base_seq : ℕ) (o : CmdOutcome)
      → conclude_bypass sha1 decide diff_trees s sandbox cmd exit_code t base_seq ≡ (ok o, s')
      → is_success o ≡ false
      → SameState s s'
  unfolding conclude_bypass
  conclude_bypass-refused s s' sandbox cmd exit_code t base_seq o e h =
      ground (arith, truncated s.authority t.events)

  conclude_transaction-refused :
      (s s' : Session) (sandbox : Sandbox) (cmd : String) (exit_code : ℕ) (t : Translation)
      (base_seq : ℕ) (o : CmdOutcome)
      → conclude_transaction sha1 decide diff_trees s sandbox cmd exit_code t base_seq ≡ (ok o, s')
      → is_success o ≡ false
      → SameState s s'
  unfolding conclude_transaction
  conclude_transaction-refused s s' sandbox cmd exit_code t base_seq o e h =
      let s₁ = learn_from s sandbox cmd (verdict_of t exit_code) in
      elim (Result-cases
        (if t.wrote_in_root then diff_trees s₁.disk.seed (s₁.disk.work sandbox.uid) else ok [])) [
          | inl (ops, d) ↦ ground (arith, d, merge-refused s₁ s' sandbox cmd base_seq t ops o)
          | inr (_, d) ↦ ground (arith, d)
        ]

  -- A command that is denied, stale, failed, unsupported or escaped leaves the seed, both logs, the
  -- history, the generations and the sequence number as they were, whichever way it ran.
  pub conclude-refused :
      {Evidence : Type 0} (translate : Evidence → Sandbox → Translation) (s s' : Session)
      (sandbox : Sandbox) (cmd : String) (completed : Result MuxError (ExecutionResult Evidence))
      (base_seq : ℕ) (plan : Plan) (o : CmdOutcome)
      → conclude sha1 decide diff_trees translate s sandbox cmd completed base_seq plan ≡ (ok o, s')
      → is_success o ≡ false
      → SameState s s'
  unfolding conclude
  conclude-refused translate s s' sandbox cmd (err _) base_seq plan o e h = ground arith
  conclude-refused translate s s' sandbox cmd (ok result) base_seq transaction o e h =
      elim (Option-cases result.evidence) [
        | inl n ↦ ground (arith, n)
        | inr (evidence, n) ↦ ground (
          arith,
          n,
          conclude_transaction-refused s s' sandbox cmd result.exit_code
              (translate evidence sandbox) base_seq o,
        )
      ]
  conclude-refused translate s s' sandbox cmd (ok result) base_seq bypass o e h =
      let s₁ : Session = record s { readers = release_reader s.readers base_seq s.authority.seq } in
      elim (Option-cases result.evidence) [
        | inl n ↦ ground (arith, n)
        | inr (evidence, n) ↦ ground (
          arith,
          n,
          conclude_bypass-refused s₁ s' sandbox cmd result.exit_code (translate evidence sandbox)
              base_seq o,
        )
      ]

  -- A merge that commits, where there is an event or an operation, takes the next number, and only when nothing is stale and every
  -- candidate was granted in turn; the history gains exactly the candidates, the paths written get
  -- the new number, and the log gains the one entry.
  pub merge-committed :
      (s s' : Session) (sandbox : Sandbox) (cmd : String) (base_seq : ℕ) (t : Translation)
      (ops : List CommitOp) (seq : ℕ) (granted : List Event)
      → merge sha1 decide diff_trees s sandbox cmd base_seq t ops ≡ (ok (committed seq granted), s')
      → is_empty t.events && is_empty ops ≡ false
      → (is_empty (stale_paths s.authority.generations base_seq ops t.events t.git_reads) ≡ true)
        × (all_granted decide s.authority.history t.events ≡ true)
        × (seq ≡ s.authority.seq + 1)
        × (granted ≡ t.events)
        × (s'.authority ≡ record {
          history = s.authority.history ++ t.events;
          generations = insert_all (map path ops) seq s.authority.generations;
          seq = seq;
        })
        × (s'.disk.history ≡ append_history seq sandbox.principal cmd t.events ops s.disk.history)
  unfolding merge record_commit apply
  merge-committed s s' sandbox cmd base_seq t ops seq granted e n =
      let h = check_events-history decide s.authority.history t.events in
      let g = check_events-all_granted decide s.authority.history t.events in ground (arith, h, g)

  pub conclude_bypass-idle :
      (s s' : Session) (sandbox : Sandbox) (cmd : String) (exit_code : ℕ) (t : Translation)
      (base_seq : ℕ) (o : CmdOutcome)
      → conclude_bypass sha1 decide diff_trees s sandbox cmd exit_code t base_seq ≡ (ok o, s')
      → is_success o ≡ true
      → is_empty t.events ≡ true
      → SameState s s'
  unfolding conclude_bypass
  conclude_bypass-idle s s' sandbox cmd exit_code t base_seq o e h n = ground arith

  -- A bypassed command that succeeds and requested something only read, was granted every read, and
  -- leaves the history and its log longer by these reads under the current number; the seed, the
  -- generations and the number stay.
  pub conclude_bypass-recorded :
      (s s' : Session) (sandbox : Sandbox) (cmd : String) (exit_code : ℕ) (t : Translation)
      (base_seq : ℕ) (o : CmdOutcome)
      → conclude_bypass sha1 decide diff_trees s sandbox cmd exit_code t base_seq ≡ (ok o, s')
      → is_success o ≡ true
      → is_empty t.events ≡ false
      → (o ≡ bypassed t.events)
        × (only_reads t.events && all_granted decide s.authority.history t.events ≡ true)
        × (s'.authority ≡ record s.authority { history = s.authority.history ++ t.events })
        × (s'.disk ≡ record s.disk {
          history = append_history s.authority.seq sandbox.principal cmd t.events [] s.disk.history;
        })
  unfolding conclude_bypass
  conclude_bypass-recorded s s' sandbox cmd exit_code t base_seq o e h n =
      let g = check_events-all_granted decide s.authority.history t.events in
      let k = check_events-history decide s.authority.history t.events in ground (arith, g, k)
