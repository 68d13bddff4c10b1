-- ===== src/Grammar.antt =====
-- src/grammar: the tables of a compiled grammar, what a match leaves behind, and the interpreted
-- matcher.
pub mod Chars
pub mod Rules
pub mod MatchResult
pub mod Result
pub mod Tables
pub mod Builder
pub mod Lines
pub mod Validator
pub mod Compile
pub mod Embedded
pub mod Program
pub mod Emit
pub mod Machine
pub mod Derivation
pub mod Walk
pub mod Tree
