-- ===== src/A3/Disk/Reserve.antt =====
-- a3/fs/inode.c: the sectors that a file is given, up to a length, and those that it gives back. The free map
-- of a3/fs/free-map.c, which is that of Pintos, is a parameter.
use mcgill_ecse_427_operatin.Prelude.{
  ℕ, zero, suc, ◌+◌, ◌-◌, ◌/◌, ◌%◌, Bool, true, false, not, ltb, ◌==◌, if◌then◌else◌, Option, none,
  some, Array, update,
}
use mcgill_ecse_427_operatin.Prelude.Int.{ℤ, pos, negsuc}
use mcgill_ecse_427_operatin.A3.Disk.Sectors.{Io, pure, stop, ◌>>=◌, ◌>>◌, Sectors}
use mcgill_ecse_427_operatin.A3.Disk.Inode.{
  Bytes, block_word, InodeDisk, div_round_up, bytes_to_sectors, min,
}

-- `free_map_allocate(1, &sector)` and `free_map_release(sector, 1)`.
pub record FreeMap (S : Type 0) : Type 0 where
  pub allocate : Io S (Option ℕ)
  pub release : ℕ → Io S (Unit {0})

abbrev pub zeros : Bytes
zeros i = 0

-- The byte of a number at a place, the low one at 0.
abbrev byte_of : ℕ → ℕ → ℕ
byte_of w zero = w % 256
byte_of w (suc zero) = w / 256 % 256
byte_of w (suc (suc zero)) = w / 65536 % 256
byte_of w (suc (suc (suc r))) = w / 16777216 % 256

-- The bytes of an array of words.
unfoldable pub words_block : Array ℕ → Bytes
words_block w i = byte_of (w (i / 4)) (i % 4)

abbrev pub get_or : Option ℕ → ℕ → ℕ
get_or none e = e
get_or (some s) e = s

module _ {S : Type 0} (io : Sectors S Bytes) (free_map : FreeMap S) where
  abbrev pub take_sector : ℕ → Option ℕ → Io S (Bool × ℕ)
  take_sector entry none = pure (false, entry)
  take_sector entry (some s) = do io.write s zeros; pure (true, s)

  -- An entry that is 0 has no sector yet.
  unfoldable pub reserve_entry : ℕ → Io S (Bool × ℕ)
  reserve_entry entry =
      if entry == 0 then free_map.allocate >>= take_sector entry else pure (true, entry)

  -- `n` rounds from the entry `i`, each for `unit` of the sectors that are left; also these are returned.
  unfoldable pub reserve_rounds :
      ℕ → ℕ → ℕ → ℕ → (ℕ → ℕ → Io S (Bool × ℕ)) → Array ℕ → Io S (Bool × Array ℕ × ℕ)
  reserve_rounds zero i num_sectors unit f blocks = pure (true, blocks, num_sectors)
  reserve_rounds (suc n) i num_sectors unit f blocks = do
    let subsize = min num_sectors unit
    (done, entry) ← f (blocks i) subsize
    if done
        then reserve_rounds n (i + 1) (num_sectors - subsize) unit f (update blocks i entry)
        else pure (false, update blocks i entry, num_sectors)

  -- The result of the allocation is not looked at: the entry stays 0 where it fails.
  unfoldable pub reserve_block : ℕ → Io S ℕ
  reserve_block entry =
      if entry == 0
      then (do s ← free_map.allocate; io.write (get_or s entry) zeros; pure (get_or s entry))
      else pure entry

  abbrev pub write_blocks : ℕ → Bool × Array ℕ × ℕ → Io S (Bool × ℕ)
  write_blocks entry (false, blocks, left) = pure (false, entry)
  write_blocks entry (true, blocks, left) =
      if left == 0 then (do io.write entry (words_block blocks); pure (true, entry)) else stop

  unfoldable pub inode_reserve_indirect : ℕ → ℕ → ℕ → Io S (Bool × ℕ)
  inode_reserve_indirect zero num_sectors entry = reserve_entry entry
  inode_reserve_indirect (suc level) num_sectors entry = do
    let unit = if level == 0 then 1 else 128
    entry' ← reserve_block entry
    b ← io.read entry'
    r ←
        reserve_rounds (div_round_up num_sectors unit) 0 num_sectors unit
          (λ e subsize. inode_reserve_indirect level subsize e) (block_word b)
    write_blocks entry' r

  -- The doubly indirect block, where `left` sectors are left.
  unfoldable pub reserve_doubly : InodeDisk → ℕ → Io S (Bool × InodeDisk)
  reserve_doubly d left = do
    let l = min left 16384
    (done, entry) ← inode_reserve_indirect 2 l d.doubly_indirect_block
    let d' = record d { doubly_indirect_block = entry }
    if not done then pure (false, d') else if left - l == 0 then pure (true, d') else stop

  unfoldable pub reserve_single : InodeDisk → ℕ → Io S (Bool × InodeDisk)
  reserve_single d left = do
    let l = min left 128
    (done, entry) ← inode_reserve_indirect 1 l d.indirect_block
    let d' = record d { indirect_block = entry }
    if not done
        then pure (false, d')
        else if left - l == 0
        then pure (true, d')
        else reserve_doubly d' (left - l)

  unfoldable pub inode_reserve : InodeDisk → ℤ → Io S (Bool × InodeDisk)
  inode_reserve d (negsuc length) = pure (false, d)
  inode_reserve d (pos length) = do
    let num_sectors = bytes_to_sectors length
    let l = min num_sectors 123
    (done, blocks, _) ← reserve_rounds l 0 l 1 (λ e subsize. reserve_entry e) d.direct_blocks
    let d' = record d { direct_blocks = blocks }
    if not done
        then pure (false, d')
        else if num_sectors - l == 0
        then pure (true, d')
        else reserve_single d' (num_sectors - l)

  -- `n` rounds from the entry `i`.
  unfoldable pub release_rounds : ℕ → ℕ → ℕ → ℕ → (ℕ → ℕ → Io S (Unit {0})) → Array ℕ → Io S ℕ
  release_rounds zero i num_sectors unit f blocks = pure num_sectors
  release_rounds (suc n) i num_sectors unit f blocks = do
    let subsize = min num_sectors unit
    f (blocks i) subsize
    release_rounds n (i + 1) (num_sectors - subsize) unit f blocks

  unfoldable pub inode_deallocate_indirect : ℕ → ℕ → ℕ → Io S (Unit {0})
  inode_deallocate_indirect zero num_sectors entry = free_map.release entry
  inode_deallocate_indirect (suc level) num_sectors entry = do
    let unit = if level == 0 then 1 else 128
    b ← io.read entry
    left ←
        release_rounds (div_round_up num_sectors unit) 0 num_sectors unit
          (λ e subsize. inode_deallocate_indirect level subsize e) (block_word b)
    if left == 0 then free_map.release entry else stop

  abbrev deallocate_if : ℕ → ℕ → ℕ → Io S (Unit {0})
  deallocate_if level l entry = if ltb 0 l then inode_deallocate_indirect level l entry else pure tt

  -- For a length that is not negative; more blocks than can be indexed fail the assertion.
  unfoldable pub deallocate_sectors : InodeDisk → ℕ → Io S Bool
  deallocate_sectors d num_sectors = do
    let l = min num_sectors 123
    _ ← release_rounds l 0 l 1 (λ e subsize. free_map.release e) d.direct_blocks
    let l' = min (num_sectors - l) 128
    deallocate_if 1 l' d.indirect_block
    let l'' = min (num_sectors - l - l') 16384
    deallocate_if 2 l'' d.doubly_indirect_block
    if num_sectors - l - l' - l'' == 0 then pure true else stop

  abbrev deallocate_length : InodeDisk → ℤ → Io S Bool
  deallocate_length d (negsuc length) = pure false
  deallocate_length d (pos length) = deallocate_sectors d (bytes_to_sectors length)

  unfoldable pub inode_deallocate : InodeDisk → Io S Bool
  inode_deallocate d = deallocate_length d d.length
