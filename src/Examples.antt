-- ===== src/Examples.antt =====
-- The properties at concrete inputs, over concrete libraries.
mod Protocol
mod Libraries
mod Session
mod Course
mod Witnesses
mod Parts
