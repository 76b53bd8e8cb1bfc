-- ===== src/A3/Disk/Inode.antt =====
-- a3/fs/inode.c: the sectors of a file behind its direct, indirect and doubly indirect blocks, and reading.
pub mod Index
pub mod Words
pub mod DataSectors
use mcgill_ecse_427_operatin.Prelude.{
  ℕ, zero, suc, ◌+◌, ◌-◌, ◌*◌, ◌/◌, ◌%◌, Bool, true, false, not, ◌&&◌, ltb, leb, ◌==◌,
  if◌then◌else◌, Option, none, some, List, [], ◌∷◌, ◌++◌, Array, update,
}
use mcgill_ecse_427_operatin.Prelude.Int.{ℤ, pos, negsuc, pos_part}
use mcgill_ecse_427_operatin.A3.Disk.Sectors.{Io, pure, stop, ◌>>=◌, ◌>>◌, Sectors}

abbrev pub block_sector_size : ℕ
block_sector_size = 512

-- The bytes of a sector.
abbrev pub Bytes : Type 0
Bytes = Array ℕ

-- `blocks[i]` of a `struct inode_indirect_block_sector`, with the low byte first.
unfoldable pub block_word : Bytes → ℕ → ℕ
block_word b i = b (4 * i) + 256 * b (4 * i + 1) + 65536 * b (4 * i + 2) + 16777216 * b (4 * i + 3)

pub record InodeDisk : Type 0 where
  pub direct_blocks : Array ℕ
  pub indirect_block : ℕ
  pub doubly_indirect_block : ℕ
  pub is_dir : Bool
  pub length : ℤ
  pub magic : ℕ

pub record Inode : Type 0 where
  pub sector : ℕ
  pub open_cnt : ℕ
  pub removed : Bool
  pub deny_write_cnt : ℕ
  pub content : InodeDisk

-- What is asked of an open inode.
abbrev inode_get_inumber : Inode → ℕ
inode_get_inumber inode = inode.sector

abbrev pub inode_length : Inode → ℤ
inode_length inode = inode.content.length

abbrev pub inode_is_directory : Inode → Bool
inode_is_directory inode = inode.content.is_dir

abbrev pub inode_is_removed : Inode → Bool
inode_is_removed inode = inode.removed

abbrev pub div_round_up : ℕ → ℕ → ℕ
div_round_up x step = (x + step - 1) / step

abbrev pub bytes_to_sectors : ℕ → ℕ
bytes_to_sectors size = div_round_up size block_sector_size

abbrev pub min : ℕ → ℕ → ℕ
min a b = if ltb a b then a else b

-- -1 as a `block_sector_t`.
abbrev pub no_sector : ℕ
no_sector = 4294967295

-- `for (i = from; i < from + n; i++) out[cur++] = f(i);`
unfoldable pub copy_words : ℕ → ℕ → ℕ → (ℕ → ℕ) → Array ℕ → Array ℕ
copy_words zero from cur f out = out
copy_words (suc n) from cur f out = copy_words n (from + 1) (cur + 1) f (update out cur (f from))

-- The bytes from `ofs` of a sector.
unfoldable pub slice : Bytes → ℕ → ℕ → List ℕ
slice b ofs zero = []
slice b ofs (suc n) = b ofs ∷ slice b (ofs + 1) n

module _ {S : Type 0} (io : Sectors S Bytes) where
  -- DIRECT_BLOCKS_COUNT is 123 and INDIRECT_BLOCKS_PER_SECTOR is 128: the direct blocks end at 123, the
  -- indirect ones at 123 + 128, and the doubly indirect ones at 123 + 128 + 128 * 128.
  unfoldable pub index_to_sector : InodeDisk → ℕ → Io S ℕ
  index_to_sector d index =
      if ltb index 123
      then pure (d.direct_blocks index)
      else if ltb index 251
      then (do b ← io.read d.indirect_block; pure (block_word b (index - 123)))
      else if ltb index 16635
      then (do
        b ← io.read d.doubly_indirect_block
        b' ← io.read (block_word b ((index - 251) / 128))
        pure (block_word b' ((index - 251) % 128)))
      else pure no_sector

  -- A position before the file or behind its end has no sector.
  unfoldable pub byte_to_sector : InodeDisk → ℤ → Io S ℕ
  byte_to_sector d (negsuc p) = pure no_sector
  byte_to_sector d (pos p) =
      if ltb p (pos_part d.length)
      then index_to_sector d (p / block_sector_size)
      else pure no_sector

  -- The rounds of the outer loop for the doubly indirect block: `i` of `l2`, with `left` sectors to come.
  unfoldable pub doubly_sectors : ℕ → ℕ → ℕ → ℕ → Bytes → Array ℕ → Io S (Array ℕ)
  doubly_sectors zero i left cur b out = pure out
  doubly_sectors (suc n) i left cur b out = do
    let subsize = min left 128
    b' ← io.read (block_word b i)
    doubly_sectors n (i + 1) (left - subsize) (cur + subsize) b
        (copy_words subsize 0 cur (block_word b') out)

  -- The sectors of `num_sectors` blocks; more than can be indexed fail the assertion.
  unfoldable pub data_sectors : InodeDisk → ℕ → Array ℕ → Io S (Array ℕ)
  data_sectors d num_sectors out = do
    let l = min num_sectors 123
    let direct = copy_words l 0 0 d.direct_blocks out
    let l' = min (num_sectors - l) 128
    single ←
        if ltb 0 l'
        then (do b ← io.read d.indirect_block; pure (copy_words l' 0 l (block_word b) direct))
        else pure direct
    let l'' = min (num_sectors - l - l') 16384
    all ←
        if ltb 0 l''
        then (do
          b ← io.read d.doubly_indirect_block
          doubly_sectors (div_round_up l'' 128) 0 l'' (l + l') b single)
        else pure single
    if num_sectors - l - l' - l'' == 0 then pure all else stop

  abbrev sectors_of_length : InodeDisk → ℤ → Array ℕ → Io S (Option (Array ℕ))
  sectors_of_length d (negsuc n) out = pure none
  sectors_of_length d (pos n) out = do
    sectors ← data_sectors d (bytes_to_sectors n) out
    pure (some sectors)

  -- A null pointer for a negative length; `out` is what the allocated memory holds.
  unfoldable pub get_inode_data_sectors : InodeDisk → Array ℕ → Io S (Option (Array ℕ))
  get_inode_data_sectors d = sectors_of_length d d.length
