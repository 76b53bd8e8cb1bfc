-- ===== src/A2.antt =====
-- The second assignment (a2): a shell with processes, demand paging and scheduling.
mod Tests
pub mod Memory
pub mod Pcb
pub mod Paging
pub mod Machine
pub mod ReadyQueue
pub mod Kernel
pub mod Schedule
pub mod Commands
pub mod Shell
