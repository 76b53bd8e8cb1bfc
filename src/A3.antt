-- ===== src/A3.antt =====
-- The third assignment (a3): the shell over a kernel with linked lists, and a file system.
mod Tests
pub mod Memory
pub mod LinkedList
pub mod Pcb
pub mod Machine
pub mod Kernel
pub mod Schedule
pub mod Host
pub mod Disk
pub mod FileTools
pub mod Commands
pub mod Shell
