-- ===== src/Grammar/Tree/Sound.antt =====
-- src/grammar/interpreted/TreeMatcher.cpp: a match is a derivation of the whole line.
pub mod Restored
pub mod Octets
pub mod Steps
pub mod Repeated
pub mod Continue
pub mod Nodes
pub mod Result
