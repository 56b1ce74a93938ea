-- ===== src/Lib.antt =====
-- marsh runs the commands of several principals over one shared tree, the seed. Each command runs
-- in a snapshot, its trace is translated into capability events, a policy over the shared history
-- grants or refuses them, and a granted command's changes are committed to the seed through a
-- write-ahead log. This library models that path from the policy language to the durable logs.
--
-- Parts, and the files that model them:
-- - rust-validator/src/model.rs and syntax/source.rs: Validator/Model and Validator/Source, with
--   the constructors of the source. Validator/Language says what a rule means: a head binds
--   variables to the candidate's components, a tail is a set of histories, as Boolean tests that
--   compute.
-- - rust-validator/src/syntax: Validator/Syntax. component.rs is Component (resolved values,
--   substitutions, atoms), node.rs is Node, with eval_test of evaluate.rs, normalize.rs is
--   Normalize (tests) and Regexes (regular expressions), transition.rs is Transition, symbolic.rs
--   is Symbolic (derivatives and their evaluation, Minterms with the atoms and tables of a
--   transition, Replay with the replay of a history, Precompile with the search for tables),
--   environment.rs is Environment and compile.rs is Compile. The hash-consed nodes of store.rs are
--   trees with a numbering, and an equality of node ids compares numbers; Numbers gives such a
--   numbering. Validator/Engine is the interface that the policies and the validator take of the
--   whole: a well-scoped rule compiles, and a compiled rule answers as its tail means.
--   Compile/Filled fills it with the modelled engine; most tests of the policies fill it with one
--   that runs rules by their meaning. Caches are left out.
-- - rust-validator/src/validator.rs: Validator/Stateful (ValidatorBuilder, check, checkpoint and
--   rollback), over the same interface.
-- - rust-validator/src/policy: Policy (PolicyRule, forbid, CompiledPolicy::new and decide) and
--   Policy/Git (predicates.rs and languages.rs in Predicates, rules.rs in Rules, capabilities.rs,
--   diagnostics.rs, mod.rs in Decision). States, Ownership and Owners hold the legality table
--   that the rules implement: the row of a resource and its last reader as folds of the history.
-- - shellmux/src/wal.rs: Mux/Log (JsonLog over the bytes of a file, serde_json a parameter that
--   writes one non-empty line a record and reads it back) and Mux/Tree (apply_write and
--   apply_remove over the entries of a tree, directories being implicit as in diff.rs; a write goes
--   through the temporary beside its target, which replaces an entry there, and takes no source but
--   a file or a link).
-- - shellmux/src/diff.rs: Mux/Diff (diff_trees with its order, over the entries of two trees).
-- - shellmux/src/history.rs: Mux/History (HistoryRecord, the conversions, append and load).
-- - shellmux/src/commit.rs: Mux/Commit (apply, recover and their records). Mux/Commit/Recovery
--   lists what a crash can leave of a commit, between and within its records, and what the next
--   start makes of it.
-- - shellmux/src/authority.rs: Mux/Authority (AuthorityState, check_events).
-- - shellmux/src/mux.rs: Mux/Conclude (conclude, conclude_bypass, record_commit, stale_paths and
--   verdict_of), Mux/Readers (acquire_reader, release_reader, discard_reader) and Mux/Paths
--   (seed_relative). A conclusion is a function of the session, and returns its outcome or error
--   with the session after it; the locks of the source make conclusions follow each other in some
--   order.
-- - shellmux/src/reconcile.rs: Mux/Reconcile, with repo_root of marsh-exec/src/gitshell.rs. What git
--   and the file system say of the seed is a parameter.
-- - shellmux/src/mux.rs, ShellMux::new: Mux/Startup (recovery, the sweeps, load, reconciliation and
--   the learned cache, in the order of the source). Startup/Reached has the sessions that follow.
-- - shellmux/src/purity.rs: Mux/Purity (the learned cache and its log).
--
-- Parameters are the content hash, the translation of a trace, the serializer, the string
-- interner, the unique numbers of hash-consed nodes and what git says of the seed. A conclusion
-- takes the difference of seed and snapshot as a function that may fail, as the walk of the file
-- system may. Sequence numbers are natural numbers: the u64 of the source does not wrap within the
-- life of a log. Three functions of the engine run on fuel: the complement of a test on its depth,
-- the intersection of two transitions on the sum of their sizes, and the search for tables on
-- 262,210 rounds. The proofs that the first two mean a complement and an intersection, and that
-- the third ends by its own test, show that this is enough. Every other loop is a recursion on its
-- data.
--
-- Not modelled: the trace translation, the static purity walk, the git builtins, the job table,
-- front ends, process execution and tracing, and the brush shell that is copied into the
-- repository. A disk that refuses a write is not modelled, a source that blocks when it is opened
-- is an error, and a symbolic link to a directory on the way to a path is not followed.

pub mod Base
pub mod Validator
pub mod Policy
pub mod Mux
