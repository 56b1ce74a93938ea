-- ===== src/Mux.antt =====
-- shellmux: the session that runs commands of several principals over one seed.
pub mod Log
pub mod Tree
pub mod History
pub mod Commit
pub mod Diff
pub mod Authority
pub mod Purity
pub mod Readers
pub mod Paths
pub mod Conclude
pub mod Reconcile
pub mod Startup
