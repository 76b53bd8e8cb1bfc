-- ===== src/A3/Tests/Host.antt =====
-- A disk without files, and a machine at the start.
use mcgill_ecse_427_operatin.Prelude.{false, none, [], ◌∷◌, Array}
use mcgill_ecse_427_operatin.Prelude.Int.{pos, minus_one}
use mcgill_ecse_427_operatin.A3.Memory.{Slot, free_slot}
use mcgill_ecse_427_operatin.A3.Host.{Host}
use mcgill_ecse_427_operatin.A3.Machine.{Machine}

abbrev pub World : Type 0
World = Unit {0}

abbrev pub no_disk : Host World
no_disk = record {
  read_file = λ name w. none;
  write_file = λ name s w. (false, w);
  system = λ s w. (pos 0, w);
  show_ratio = λ a b. [];
  unwritten = λ n. 7 ∷ [];
  ide_init = λ hd w. (tt, w);
  filesys_init = λ b w. (tt, w);
  filesys_done = λ w. (tt, w);
  filesys_create = λ name n w. (false, w);
  filesys_open = λ name w. (none, w);
  file_length = λ f w. (pos 0, w);
  file_read = λ f n w. ([], w);
  file_write = λ f s w. (0, w);
  file_write_at = λ f s n w. (0, w);
  file_seek = λ f n w. (tt, w);
  file_close = λ f w. (tt, w);
  dir_open_root = λ w. (none, w);
  dir_readdir = λ d w. (none, w);
  dir_readdir_inode = λ d w. (none, w);
  dir_add = λ d name n w. (false, w);
  dir_close = λ d w. (tt, w);
  inode_open = λ n w. (none, w);
  inode_close = λ i w. (tt, w);
  inode_is_directory = λ i w. false;
  inode_is_removed = λ i w. false;
  inode_length = λ i w. 0;
  inode_read_at = λ i n w. ([], w);
  inode_sector = λ i w. 0;
  inode_data_sectors = λ i w n. 0;
  free_map_open = λ w. (tt, w);
  bitmap_size = λ w. 0;
  bitmap_test = λ n w. false;
  sector_magic = λ n w. 0;
  sector_length = λ n w. 0;
  cached_sector = λ n w. [];
  block_size = λ w. 0;
  block_read = λ n w. [];
  fsutil_ls = λ w. ((pos 1, []), w);
  fsutil_cat = λ name w. ((minus_one, []), w);
  fsutil_rm = λ name w. (pos 0, w);
  fsutil_create = λ name n w. ((pos 0, []), w);
  fsutil_write = λ name s w. (minus_one, w);
  fsutil_read = λ name n w. ((minus_one, []), w);
  fsutil_size = λ name w. (minus_one, w);
  fsutil_seek = λ name n w. (minus_one, w);
  fsutil_freespace = λ w. 0;
}

abbrev pub blank_memory : Array Slot
blank_memory i = free_slot

abbrev pub start : Machine World
start = record {
  world = tt;
  memory = blank_memory;
  output = [];
  pcbs = λ i. none;
  made = 0;
  queue = [];
  lru_cache = [];
  all_pcb = [];
  pid_counter = 1;
  new_name_count = 1;
  cursor = [];
}
