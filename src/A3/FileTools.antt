-- ===== src/A3/FileTools.antt =====
-- a3/fs/fsutil2.c: copying files in and out, searching them, fragmentation, and the recovery of data.
pub mod Gaps
pub mod Defragment
pub mod Recover
use mcgill_ecse_427_operatin.Prelude.{
  ℕ, zero, suc, ◌+◌, ◌-◌, ◌/◌, ◌%◌, Bool, true, false, not, ◌&&◌, ◌||◌, ltb, ◌==◌, if◌then◌else◌,
  Option, none, some, List, [], ◌∷◌, ◌++◌, CString, codes, Array,
}
use mcgill_ecse_427_operatin.Prelude.Decimal.{decimal}
use mcgill_ecse_427_operatin.Prelude.Int.{ℤ, pos, negsuc}
use mcgill_ecse_427_operatin.Prelude.Stdio.{length}
use mcgill_ecse_427_operatin.A3.Host.{Host}
use mcgill_ecse_427_operatin.A3.Machine.{
  Machine, out_of_fuel, Cmd, ◌>>=◌, ◌>>◌, pure, crash, gets, put, on_world, found,
}

abbrev pub sector_size : ℕ
sector_size = 512

-- A C string in a buffer ends at the first zero.
unfoldable pub until_zero : CString → CString
until_zero [] = []
until_zero (c ∷ s) = let rest = until_zero s in if c == 0 then [] else c ∷ rest

unfoldable pub nonzero : CString → CString
nonzero [] = []
nonzero (c ∷ s) = let rest = nonzero s in if c == 0 then rest else c ∷ rest

unfoldable pub starts_with : CString → CString → Bool
starts_with [] s = true
starts_with (p ∷ ps) [] = false
starts_with (p ∷ ps) (c ∷ s) = (p == c) && starts_with ps s

-- `strstr(s, pattern) != NULL`.
unfoldable pub contains : CString → CString → Bool
contains pattern [] = starts_with pattern []
contains pattern (c ∷ s) = starts_with pattern (c ∷ s) || contains pattern s

-- The difference of two sector numbers, which have 32 bits and no sign.
abbrev pub sector_gap : ℕ → ℕ → ℕ
sector_gap a b = (a + 4294967296 - b) % 4294967296

-- The loop over `n` blocks from `i`.
unfoldable pub gap_from : Array ℕ → ℕ → ℕ → Bool
gap_from sectors i zero = false
gap_from sectors i (suc n) =
    let rest = gap_from sectors (i + 1) n in
    if ltb 3 (sector_gap (sectors i) (sectors (i - 1))) then true else rest

-- Whether two neighbours among the full blocks of a file of this length are more than 3 apart.
unfoldable pub is_fragmented : ℕ → Array ℕ → Bool
is_fragmented file_length sectors = gap_from sectors 1 (file_length / sector_size - 1)

module _ {W : Type 0} (h : Host W) where
  abbrev pub keep : {A : Type 0} → (W → A) → Cmd W A
  keep f = gets (λ m. f m.world)

  abbrev close_with : ℕ → Option ℤ → Cmd W (Option ℤ)
  close_with file code = do on_world (h.file_close file); pure code

  -- The write of one byte more than the file has; `none` is the end of the function without a value.
  abbrev copy_bytes : CString → ℕ → Cmd W (Option ℤ)
  copy_bytes bytes file = do
    written ← on_world (h.file_write file (bytes ++ h.unwritten 1))
    if not (written == length bytes + 1) then close_with file (some (pos 11)) else (do
      on_world (h.file_seek file ((written + 18446744073709551614) % 18446744073709551616))
      close_with file none)

  abbrev copy_opened : CString → Option ℕ → Cmd W (Option ℤ)
  copy_opened bytes none = pure (some (pos 10))
  copy_opened bytes (some file) = copy_bytes bytes file

  abbrev copy_found : CString → Option CString → Cmd W (Option ℤ)
  copy_found fname none = pure (some (pos 0))
  copy_found fname (some bytes) = do
    created ← on_world (h.filesys_create fname (length bytes))
    if not created
        then pure (some (pos 9))
        else (do file ← on_world (h.filesys_open fname); copy_opened bytes file)

  unfoldable pub copy_in : CString → Cmd W (Option ℤ)
  copy_in fname = do bytes ← keep (h.read_file fname); copy_found fname bytes

  abbrev save_copy : CString → CString → Cmd W ℤ
  save_copy fname bytes = do
    written ← on_world (h.write_file fname (nonzero bytes))
    pure (if written then pos 0 else pos 9)

  abbrev closing : ℕ → ℤ → Cmd W ℤ
  closing file code = do on_world (h.file_close file); pure code

  abbrev read_whole : CString → ℕ → ℤ → Cmd W ℤ
  read_whole fname file (negsuc n) = closing file (pos 10)
  read_whole fname file (pos size) = do
    bytes ← on_world (h.file_read file size)
    on_world (h.file_close file)
    if length bytes == size then save_copy fname bytes else pure (pos 12)

  abbrev copy_out_opened : CString → Option ℕ → Cmd W ℤ
  copy_out_opened fname none = pure (pos 0)
  copy_out_opened fname (some file) = do
    size ← on_world (h.file_length file)
    read_whole fname file size

  unfoldable pub copy_out : CString → Cmd W ℤ
  copy_out fname = do file ← on_world (h.filesys_open fname); copy_out_opened fname file

  abbrev show_match : CString → CString → CString → Cmd W (Unit {0})
  show_match pattern name bytes =
      if contains pattern (until_zero bytes) then put (name ++ codes "\n") else pure tt

  -- One file of the directory; a negative length cannot be read.
  abbrev search_sized : CString → CString → ℕ → ℤ → Cmd W (Unit {0})
  search_sized pattern name file (negsuc n) = crash
  search_sized pattern name file (pos size) = do
    bytes ← on_world (h.file_read file size)
    on_world (h.file_close file)
    show_match pattern name bytes

  abbrev search_file : CString → CString → Option ℕ → Cmd W (Unit {0})
  search_file pattern name none = pure tt
  search_file pattern name (some file) = do
    size ← on_world (h.file_length file)
    search_sized pattern name file size

  abbrev search_entry : CString → ℕ → Option CString → Cmd W (Unit {0}) → Cmd W (Unit {0})
  search_entry pattern dir none rest = do on_world (h.dir_close dir); pure tt
  search_entry pattern dir (some name) rest = do
    file ← on_world (h.filesys_open name)
    search_file pattern name file
    rest

  -- The loops over a directory have a round for each entry and one more; `fuel` bounds them.
  unfoldable pub search_dir : ℕ → CString → ℕ → Cmd W (Unit {0})
  search_dir zero pattern dir = λ m. out_of_fuel
  search_dir (suc fuel) pattern dir = do
    name ← on_world (h.dir_readdir dir)
    search_entry pattern dir name (search_dir fuel pattern dir)

  abbrev search_root : ℕ → CString → Option ℕ → Cmd W (Unit {0})
  search_root fuel pattern none = pure tt
  search_root fuel pattern (some dir) = search_dir fuel pattern dir

  unfoldable pub find_file : ℕ → CString → Cmd W (Unit {0})
  find_file fuel pattern = do dir ← on_world h.dir_open_root; search_root fuel pattern dir

  -- A file that is there, no directory and not removed.
  abbrev pub is_plain : W → Option ℕ → Bool
  is_plain w none = false
  is_plain w (some inode) = not (h.inode_is_directory inode w) && not (h.inode_is_removed inode w)

  abbrev length_of : W → Option ℕ → ℕ
  length_of w none = 0
  length_of w (some inode) = h.inode_length inode w

  abbrev close_plain : Bool → Option ℕ → Cmd W (Unit {0})
  close_plain plain inode = if plain then on_world (h.inode_close inode) else pure tt

  -- One entry: the inode is opened at the sector `stray` of an entry that `dir_readdir` does not write.
  abbrev count_entry : ℕ → ℕ → Option CString → ℕ → (ℕ → Cmd W ℕ) → Cmd W ℕ
  count_entry stray dir none count rest = do on_world (h.dir_close dir); pure count
  count_entry stray dir (some name) count rest = do
    inode ← on_world (h.inode_open stray)
    plain ← keep (λ w. is_plain w inode)
    last_block_size ← keep (λ w. length_of w inode % sector_size)
    close_plain plain inode
    rest (if plain && ltb 0 last_block_size then count + 1 else count)

  unfoldable pub count_fragmentable_files : ℕ → ℕ → ℕ → ℕ → Cmd W ℕ
  count_fragmentable_files zero stray dir count = λ m. out_of_fuel
  count_fragmentable_files (suc fuel) stray dir count = do
    name ← on_world (h.dir_readdir dir)
    count_entry stray dir name count (count_fragmentable_files fuel stray dir)

  abbrev pub fragmented : W → Option ℕ → Bool
  fragmented w none = false
  fragmented w (some inode) =
      is_plain w (some inode)
      && is_fragmented (h.inode_length inode w) (h.inode_data_sectors inode w)

  abbrev count_sector : ℕ → Option (ℕ × CString) → ℕ → (ℕ → Cmd W ℕ) → Cmd W ℕ
  count_sector dir none count rest = do on_world (h.dir_close dir); pure count
  count_sector dir (some entry) count rest = do
    inode ← on_world (h.inode_open entry.0)
    hit ← keep (λ w. fragmented w inode)
    rest (if hit then count + 1 else count)

  unfoldable pub count_fragmented_files : ℕ → ℕ → ℕ → Cmd W ℕ
  count_fragmented_files zero dir count = λ m. out_of_fuel
  count_fragmented_files (suc fuel) dir count = do
    entry ← on_world (h.dir_readdir_inode dir)
    count_sector dir entry count (count_fragmented_files fuel dir)

  abbrev pub open_root : Cmd W ℕ
  open_root = do dir ← on_world h.dir_open_root; found dir

  unfoldable pub fragmentation_degree : ℕ → ℕ → Cmd W (Unit {0})
  fragmentation_degree fuel stray = do
    first ← open_root
    fragmentable ← count_fragmentable_files fuel stray first 0
    second ← open_root
    fragmented ← count_fragmented_files fuel second 0
    put (codes "Num fragmentable files: " ++ (decimal fragmentable ++ codes "\n"))
    put (codes "Num fragmented files: " ++ (decimal fragmented ++ codes "\n"))
    put (
        codes "Fragmentation pct: "
        ++ ((if ltb 0 fragmentable then h.show_ratio fragmented fragmentable else h.show_ratio 0 1)
            ++ codes "\n"))
