-- ===== src/A3/Host.antt =====
-- What a3 calls and does not hold: the operating system, and the file system of Pintos under a3/fs with
-- the utilities of a3/fs/fsutil.c. The world is the disk, the open files and directories, and the
-- directory of the shell. Numbers name inodes, files and directories; `none` is a null pointer.
use mcgill_ecse_427_operatin.Prelude.{ℕ, Bool, Option, CString, Array}
use mcgill_ecse_427_operatin.Prelude.Int.{ℤ}

pub record Host (W : Type 0) : Type 0 where
  -- the bytes of a file that can be opened; a file opened for writing, with the bytes put there
  pub read_file : CString → W → Option CString
  pub write_file : CString → CString → W → Bool × W
  pub system : CString → W → ℤ × W
  -- `printf("%.6f", (float)a / b)`, and what memory from `malloc` holds before it is written
  pub show_ratio : ℕ → ℕ → CString
  pub unwritten : ℕ → CString
  -- fs/ide.h, fs/filesys.h and fs/file.h
  pub ide_init : CString → W → (Unit {0}) × W
  pub filesys_init : Bool → W → (Unit {0}) × W
  pub filesys_done : W → (Unit {0}) × W
  pub filesys_create : CString → ℕ → W → Bool × W
  pub filesys_open : CString → W → Option ℕ × W
  pub file_length : ℕ → W → ℤ × W
  pub file_read : ℕ → ℕ → W → CString × W
  pub file_write : ℕ → CString → W → ℕ × W
  pub file_write_at : ℕ → CString → ℕ → W → ℕ × W
  pub file_seek : ℕ → ℕ → W → (Unit {0}) × W
  pub file_close : ℕ → W → (Unit {0}) × W
  -- fs/directory.h
  pub dir_open_root : W → Option ℕ × W
  pub dir_readdir : ℕ → W → Option CString × W
  pub dir_readdir_inode : ℕ → W → Option (ℕ × CString) × W
  pub dir_add : ℕ → CString → ℕ → W → Bool × W
  pub dir_close : ℕ → W → (Unit {0}) × W
  -- fs/inode.h, fs/free-map.h, fs/cache.h and fs/block.h
  pub inode_open : ℕ → W → Option ℕ × W
  pub inode_close : Option ℕ → W → (Unit {0}) × W
  pub inode_is_directory : ℕ → W → Bool
  pub inode_is_removed : ℕ → W → Bool
  pub inode_length : ℕ → W → ℕ
  pub inode_read_at : ℕ → ℕ → W → CString × W
  pub inode_sector : ℕ → W → ℕ
  pub inode_data_sectors : ℕ → W → Array ℕ
  pub free_map_open : W → (Unit {0}) × W
  pub bitmap_size : W → ℕ
  pub bitmap_test : ℕ → W → Bool
  pub sector_magic : ℕ → W → ℕ
  pub sector_length : ℕ → W → ℕ
  pub cached_sector : ℕ → W → CString
  pub block_size : W → ℕ
  pub block_read : ℕ → W → CString
  -- fs/fsutil.h, with the text that is printed
  pub fsutil_ls : W → (ℤ × CString) × W
  pub fsutil_cat : CString → W → (ℤ × CString) × W
  pub fsutil_rm : CString → W → ℤ × W
  pub fsutil_create : CString → ℤ → W → (ℤ × CString) × W
  pub fsutil_write : CString → CString → W → ℤ × W
  pub fsutil_read : CString → ℕ → W → (ℤ × CString) × W
  pub fsutil_size : CString → W → ℤ × W
  pub fsutil_seek : CString → ℤ → W → ℤ × W
  pub fsutil_freespace : W → ℕ
