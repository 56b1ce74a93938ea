-- ===== src/Validator/Syntax.antt =====
-- rust-validator/src/syntax: compiled rules, from the resolution of values to symbolic matching.
pub mod Component
pub mod Node
pub mod Normalize
pub mod Regexes
pub mod Transition
pub mod Symbolic
pub mod Environment
pub mod Compile
pub mod Numbers
pub mod Tests
