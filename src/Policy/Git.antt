-- ===== src/Policy/Git.antt =====
-- rust-validator/src/policy/git: the git policy.
pub mod Predicates
pub mod Capabilities
pub mod Diagnostics
pub mod Rules
pub mod States
pub mod Decision
pub mod Ownership
pub mod Owners
pub mod Active
pub mod Once
pub mod Tests
