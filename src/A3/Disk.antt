-- ===== src/A3/Disk.antt =====
-- a3/fs: the block device, the buffer cache, and the sectors of a file, which Pintos leaves open.
pub mod Block
pub mod Cache
pub mod Sectors
pub mod Inode
pub mod Reserve
pub mod Transfer
pub mod OpenInodes
