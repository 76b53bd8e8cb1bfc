-- ===== src/A1.antt =====
-- The first assignment (a1): a shell with a variable store.
mod Tests
pub mod Memory
pub mod Machine
pub mod Commands
pub mod Condition
pub mod Shell
