-- ===== src/VarStore.antt =====
-- The variable store that a1/shellmemory.c, a2/shellmemory.c and a3/shellmemory.c each contain: a
-- range of slots of the array `shellmemory`, searched from its first index, in which a slot whose
-- `var` is "none" is free. The slot type and the range differ between the three programs.
pub mod Slots
pub mod Laws
pub mod Distinct
