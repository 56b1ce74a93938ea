-- ===== src/Validator/Syntax/Numbers.antt =====
-- Numbers for the hash-consed nodes of rust-validator/src/syntax/store.rs and for its interned
-- texts, to run the engine with.
mod Codes
mod Nodes
mod Transitions
mod Texts
unfoldable pub use Nodes.{numbering}
unfoldable pub use Transitions.{transition_numbering}
unfoldable pub use Texts.{interner}
