-- ===== src/Grammar/Builder/Valid.antt =====
-- The recursive descent of src/grammar/GrammarBuilder.cpp ends, reads at least one byte of the text
-- for a piece, and leaves the tables in order.
pub mod Leaves
pub mod Loops
