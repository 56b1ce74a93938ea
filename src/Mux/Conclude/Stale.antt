-- ===== src/Mux/Conclude/Stale.antt =====
-- Optimistic concurrency: what the staleness check of shellmux/src/mux.rs lets through.
use marsh.Base.{
  ◌∙◌, ℕ, ◌≡◌, refl, ap, Bool, true, not, ltb, List, [], ◌∷◌, ◌++◌, ◌&&◌, map, arith, ◌=?◌, all,
  is_some_and, is_empty, list_has_eq, string_has_eq,
}
use marsh.Validator.Model.{Event}
use marsh.Mux.Tree.{path_eq, TreePath}
use marsh.Mux.History.{CommitOp, write, remove, path, Generations, generation}
use marsh.Mux.Diff.{sort_by}
use marsh.Mux.Diff.Paths.{all-sort_by, all-append}
use marsh.Mux.Conclude.{dedup, text_leb, checked_paths, stale_among, stale_paths}

-- No merge after `base_seq` wrote the path.
abbrev pub is_fresh : Generations → ℕ → TreePath → Bool
is_fresh generations base_seq p =
    not (is_some_and (λ merged. ltb base_seq merged) (generation generations p))

module _ (generations : Generations) (base_seq : ℕ) where
  all-dedup :
      (ps : List TreePath)
      → all (is_fresh generations base_seq) (dedup ps) ≡ all (is_fresh generations base_seq) ps
  unfolding dedup
  all-dedup [] = refl
  all-dedup (p ∷ []) = refl
  all-dedup (p ∷ q ∷ ps) = ground (arith, all-dedup (q ∷ ps), same)
    where
      same : (p =? q) ≡ true → is_fresh generations base_seq p ≡ is_fresh generations base_seq q
      same e = ap (is_fresh generations base_seq) (path_eq p q e)

  stale_among-empty :
      (ps : List TreePath)
      → is_empty (stale_among generations base_seq ps) ≡ all (is_fresh generations base_seq) ps
  unfolding stale_among
  stale_among-empty [] = refl
  stale_among-empty (p ∷ ps) = ground (arith, stale_among-empty ps)

  -- What an operation writes or removes was not merged.
  abbrev pub is_op_fresh : CommitOp → Bool
  is_op_fresh (write p) = is_fresh generations base_seq p
  is_op_fresh (remove p) = is_fresh generations base_seq p

  all-ops :
      (ops : List CommitOp)
      → all (is_fresh generations base_seq) (map path ops) ≡ all is_op_fresh ops
  unfolding path
  all-ops [] = refl
  all-ops (write p ∷ ops) = ap (λ b. is_fresh generations base_seq p && b) (all-ops ops)
  all-ops (remove p ∷ ops) = ap (λ b. is_fresh generations base_seq p && b) (all-ops ops)

  all-events :
      (events : List Event)
      → all (is_fresh generations base_seq) (map (λ e. e.resource) events)
        ≡ all (λ e. is_fresh generations base_seq e.resource) events
  all-events [] = refl
  all-events (e ∷ events) =
      ap (λ b. is_fresh generations base_seq e.resource && b) (all-events events)

  -- Nothing is stale exactly when no path that an operation writes or removes, no resource of an event
  -- and no path that git read was merged after the command's base version.
  pub stale_paths-empty :
      (ops : List CommitOp) (events : List Event) (git_reads : List TreePath)
      → is_empty (stale_paths generations base_seq ops events git_reads) ≡ (
          all is_op_fresh ops
          && (all (λ e. is_fresh generations base_seq e.resource) events
              && all (is_fresh generations base_seq) git_reads))
  unfolding stale_paths checked_paths
  stale_paths-empty ops events git_reads =
      let fresh = is_fresh generations base_seq in
      let checked = checked_paths ops events git_reads in
      let touched = map (λ (e : Event). e.resource) events in
      stale_among-empty (dedup (sort_by text_leb checked))
      ∙ all-dedup (sort_by text_leb checked)
      ∙ all-sort_by fresh text_leb checked
      ∙ all-append fresh (map path ops) (touched ++ git_reads)
      ∙ ap (λ b. all fresh (map path ops) && b) (all-append fresh touched git_reads)
      ∙ ap (λ b. b && (all fresh touched && all fresh git_reads)) (all-ops ops)
      ∙ ap (λ b. all is_op_fresh ops && (b && all fresh git_reads)) (all-events events)
