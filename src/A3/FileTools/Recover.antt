-- ===== src/A3/FileTools/Recover.antt =====
-- a3/fs/fsutil2.c, the recovery of deleted files, of data blocks, and of what is behind the end of files.
use mcgill_ecse_427_operatin.Prelude.{
  ℕ, zero, suc, ◌+◌, ◌-◌, ◌/◌, ◌%◌, Bool, true, false, not, ◌&&◌, ◌==◌, if◌then◌else◌, Option, none,
  some, [], ◌∷◌, ◌++◌, CString, codes,
}
use mcgill_ecse_427_operatin.Prelude.Decimal.{decimal}
use mcgill_ecse_427_operatin.Prelude.Int.{ℤ, pos, negsuc}
use mcgill_ecse_427_operatin.Prelude.Stdio.{length, drop}
use mcgill_ecse_427_operatin.A3.Host.{Host}
use mcgill_ecse_427_operatin.A3.Machine.{
  out_of_fuel, Cmd, ◌>>=◌, ◌>>◌, pure, crash, put, on_world, found,
}
use mcgill_ecse_427_operatin.A3.FileTools.{
  sector_size, until_zero, nonzero, keep, is_plain, open_root,
}

abbrev inode_magic : ℕ
inode_magic = 1229868868

-- `snprintf` into 30 bytes, the last of them a zero.
abbrev name_max : ℕ
name_max = 30

abbrev pub first_bytes : ℕ → CString → CString
first_bytes zero s = []
first_bytes (suc n) [] = []
first_bytes (suc n) (c ∷ s) = c ∷ first_bytes n s

abbrev in_name : CString → CString
in_name s = first_bytes (name_max - 1) s

abbrev is_nonempty : CString → Bool
is_nonempty [] = false
is_nonempty (c ∷ s) = true

-- The file for a data block: what stands before its first zero.
abbrev block_name : ℕ → CString
block_name i = codes "recovered1-" ++ (decimal i ++ codes ".txt")

-- The buffer of 512 bytes that takes what a block holds behind a file's last byte: the bytes from
-- `modulo` on, and behind them what was never written.
abbrev hidden_bytes : ℕ → CString → CString → CString
hidden_bytes modulo block fresh = nonzero (drop modulo block ++ fresh)

module _ {W : Type 0} (h : Host W) where
  abbrev save_block : ℕ → CString → Cmd W (Unit {0})
  save_block i bytes =
      if is_nonempty (nonzero bytes)
      then (do on_world (h.write_file (block_name i) (until_zero bytes)); pure tt)
      else pure tt

  -- `n` blocks from the block `i`.
  unfoldable pub recover_blocks_from : ℕ → ℕ → Cmd W (Unit {0})
  recover_blocks_from i zero = pure tt
  recover_blocks_from i (suc n) = do
    bytes ← keep h (h.block_read i)
    save_block i bytes
    recover_blocks_from (i + 1) n

  -- The blocks from 4 up to the one before the last; the block numbers have 32 bits and no sign.
  unfoldable pub recover_data_blocks : Cmd W (Unit {0})
  recover_data_blocks = do
    total ← keep h h.block_size
    recover_blocks_from 4 ((total + 4294967295) % 4294967296 - 4)

  abbrev add_entry : CString → ℕ → Option ℕ → Cmd W (Unit {0})
  add_entry filename sector none = pure tt
  add_entry filename sector (some dir) = do
    on_world (h.dir_add dir filename sector)
    on_world (h.dir_close dir)

  abbrev name_entry : CString → ℕ → Option ℕ → Cmd W (Unit {0})
  name_entry filename sector (some file) = pure tt
  name_entry filename sector none = do dir ← on_world h.dir_open_root; add_entry filename sector dir

  -- The data of a deleted file is read, the file gets a name if it has none, and the data is written
  -- back through it.
  abbrev recover_inode : ℕ → Cmd W (Unit {0})
  recover_inode sector = do
    opened ← on_world (h.inode_open sector)
    inode ← found opened
    size ← keep h (h.inode_length inode)
    bytes ← on_world (h.inode_read_at inode size)
    let filename = codes "recovered0-" ++ decimal sector
    named ← on_world (h.filesys_open filename)
    name_entry filename sector named
    again ← on_world (h.filesys_open filename)
    file ← found again
    on_world (h.file_write_at file (bytes ++ h.unwritten (size - length bytes)) 0)
    pure tt

  abbrev is_deleted : ℕ → W → Bool
  is_deleted sector w = not (h.bitmap_test sector w) && (h.sector_magic sector w == inode_magic)

  -- `n` sectors from `sector` on.
  unfoldable pub recover_files_from : ℕ → ℕ → Cmd W (Unit {0})
  recover_files_from sector zero = pure tt
  recover_files_from sector (suc n) = do
    deleted ← keep h (is_deleted sector)
    if deleted then recover_inode sector else pure tt
    recover_files_from (sector + 1) n

  -- The bitmap has the same size throughout.
  unfoldable pub recover_deleted_files : Cmd W (Unit {0})
  recover_deleted_files = do
    on_world h.free_map_open
    total ← keep h h.bitmap_size
    recover_files_from 0 total

  abbrev save_hidden_at : CString → ℕ → ℕ → Cmd W (Unit {0})
  save_hidden_at name last modulo = do
    block ← keep h (h.cached_sector last)
    on_world (
        h.write_file (in_name (codes "recovered2-" ++ (name ++ codes ".txt")))
          (hidden_bytes modulo block (h.unwritten modulo)))
    pure tt

  -- The last block of an inode of this length, whose file has the size `size`; a negative remainder is
  -- more bytes than the buffer has.
  abbrev save_hidden : CString → ℕ → ℤ → Cmd W (Unit {0})
  save_hidden name last (negsuc n) =
      if (n + 1) % sector_size == 0 then save_hidden_at name last 0 else crash
  save_hidden name last (pos size) = save_hidden_at name last (size % sector_size)

  abbrev last_sector : ℕ → ℕ → Cmd W ℕ
  last_sector inode size =
      if size == 0
      then crash
      else keep h (λ w. h.inode_data_sectors inode w ((size + 511) / sector_size - 1))

  abbrev hidden_in_inode : CString → ℕ → Cmd W (Unit {0})
  hidden_in_inode name inode = do
    sector ← keep h (h.inode_sector inode)
    hit ← keep h (λ w.
        (h.sector_magic sector w == inode_magic)
        && not (h.sector_length sector w % sector_size == 0))
    if hit
        then (do
          length ← keep h (h.inode_length inode)
          last ← last_sector inode length
          size ← on_world (h.fsutil_size name)
          save_hidden name last size)
        else pure tt

  abbrev hidden_in_opened : CString → Option ℕ → Cmd W (Unit {0})
  hidden_in_opened name none = pure tt
  hidden_in_opened name (some inode) = do
    plain ← keep h (λ w. is_plain h w (some inode))
    if plain then hidden_in_inode name inode else pure tt

  abbrev hidden_entry : ℕ → Option (ℕ × CString) → Cmd W (Unit {0}) → Cmd W (Unit {0})
  hidden_entry dir none rest = on_world (h.dir_close dir)
  hidden_entry dir (some (sector, name)) rest = do
    inode ← on_world (h.inode_open sector)
    hidden_in_opened name inode
    rest

  -- A round for each entry of the directory and one more; `fuel` bounds them.
  unfoldable pub hidden_from : ℕ → ℕ → Cmd W (Unit {0})
  hidden_from zero dir = λ m. out_of_fuel
  hidden_from (suc fuel) dir = do
    entry ← on_world (h.dir_readdir_inode dir)
    hidden_entry dir entry (hidden_from fuel dir)

  unfoldable pub find_hidden_data_in_files : ℕ → Cmd W (Unit {0})
  find_hidden_data_in_files fuel = do dir ← open_root h; hidden_from fuel dir

  abbrev invalid_flag : Cmd W (Unit {0})
  invalid_flag = put (codes "Invalid flag for recovery.\n")

  unfoldable pub recover : ℕ → ℤ → Cmd W (Unit {0})
  recover fuel (negsuc n) = invalid_flag
  recover fuel (pos flag) =
      if flag == 0
      then recover_deleted_files
      else if flag == 1
      then recover_data_blocks
      else if flag == 2
      then find_hidden_data_in_files fuel
      else invalid_flag
