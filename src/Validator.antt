-- ===== src/Validator.antt =====
-- The crate `rust-validator`: the capability model, the rule language, and its meaning.
pub mod Model
pub mod Source
pub mod Language
pub mod Engine
pub mod Syntax
pub mod Stateful
