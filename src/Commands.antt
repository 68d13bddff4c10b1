-- ===== src/Commands.antt =====
-- The command handlers: one child for each src/Command*.cpp, and for the modes of
-- src/CommandOperator.cpp three more.
pub mod Registration
pub mod Channels
pub mod ModeLines
pub mod Modes
pub mod UserModes
pub mod Operator
pub mod Messaging
pub mod Query
