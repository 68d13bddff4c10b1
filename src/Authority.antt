-- ===== src/Authority.antt =====
-- Who may change the channel table: what the commands of an unregistered client, and of one that is
-- no operator, leave alone.
pub mod Unregistered
pub mod Departed
pub mod Join
pub mod Operators
