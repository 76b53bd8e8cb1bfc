-- ===== src/A3/Disk/Transfer.antt =====
-- a3/fs/inode.c: making a file, reading from it and writing to it.
pub mod Reading
pub mod Layout
pub mod Writing
pub mod RoundTrip
pub mod Extending
use mcgill_ecse_427_operatin.Prelude.{
  ℕ, zero, suc, ◌+◌, ◌-◌, ◌*◌, ◌/◌, ◌%◌, Bool, true, false, not, ◌&&◌, ◌||◌, ltb, leb, ◌==◌,
  if◌then◌else◌, List, [], ◌∷◌, ◌++◌, Array, in_range,
}
use mcgill_ecse_427_operatin.Prelude.Int.{ℤ, pos, negsuc, pos_part, ◌+ℤ◌, minus_one}
use mcgill_ecse_427_operatin.A3.Disk.Sectors.{Io, pure, stop, ◌>>=◌, ◌>>◌, Sectors}
use mcgill_ecse_427_operatin.A3.Disk.Inode.{
  Bytes, block_sector_size, InodeDisk, Inode, min, no_sector, slice, byte_to_sector,
}
use mcgill_ecse_427_operatin.A3.Disk.Reserve.{FreeMap, zeros, words_block, inode_reserve}

abbrev pub inode_magic : ℕ
inode_magic = 1229868868

-- A number of 32 bits, a negative one by its complement.
abbrev offset_word : ℤ → ℕ
offset_word (pos n) = n
offset_word (negsuc n) = 4294967295 - n

-- The 128 words of a `struct inode_disk`; the bytes behind `is_dir` are 0.
unfoldable pub inode_words : InodeDisk → Array ℕ
inode_words d i =
    if ltb i 123
    then d.direct_blocks i
    else if i == 123
    then d.indirect_block
    else if i == 124
    then d.doubly_indirect_block
    else if i == 125
    then (if d.is_dir then 1 else 0)
    else if i == 126
    then offset_word d.length
    else d.magic

abbrev pub inode_block : InodeDisk → Bytes
inode_block d = words_block (inode_words d)

abbrev pub extended : InodeDisk → ℕ → InodeDisk
extended d len = record d { length = pos len }

-- The bytes that a round copies: no further than the file, the sector and the request go. It is 0 where the
-- difference in the code is negative.
abbrev pub chunk_size : ℕ → ℕ → ℕ → ℕ
chunk_size len size offset = min size (min (len - offset) (512 - offset % 512))

-- The bytes of `buffer` from `from` over those of a sector.
abbrev pub overlay : Bytes → ℕ → ℕ → Array ℕ → ℕ → Bytes
overlay b ofs chunk buffer from i = if in_range ofs chunk i then buffer (from + (i - ofs)) else b i

module _ {S : Type 0} (io : Sectors S Bytes) where
  -- The loop, within a number of rounds; the sector is read whole also where all of it goes to the caller.
  unfoldable pub read_loop : ℕ → InodeDisk → ℕ → ℕ → Io S (List ℕ)
  read_loop zero d size offset = stop
  read_loop (suc rounds) d size offset =
      let chunk = chunk_size (pos_part d.length) size offset in
      if size == 0 then pure [] else (do
        sector ← byte_to_sector io d (pos offset)
        if chunk == 0 then pure [] else (do
          b ← io.read sector
          rest ← read_loop rounds d (size - chunk) (offset + chunk)
          pure (slice b (offset % 512) chunk ++ rest)))

  -- The bytes that are read; the code returns their number.
  abbrev pub inode_read_at : ℕ → Inode → ℕ → ℕ → Io S (List ℕ)
  inode_read_at rounds inode size offset = read_loop rounds inode.content size offset

  -- A part of a sector is put over what is there, or over zeros.
  unfoldable pub write_chunk : ℕ → ℕ → ℕ → Array ℕ → ℕ → Io S (Unit {0})
  write_chunk sector ofs chunk buffer from =
      if (ofs == 0) && (chunk == 512) then io.write sector (λ i. buffer (from + i)) else (do
        b ← if ltb 0 ofs || ltb chunk (512 - ofs) then io.read sector else pure zeros
        io.write sector (overlay b ofs chunk buffer from))

  -- The loop, within a number of rounds, with the number of bytes that are written.
  unfoldable pub write_loop : ℕ → InodeDisk → Array ℕ → ℕ → ℕ → ℕ → Io S ℕ
  write_loop zero d buffer size offset written = stop
  write_loop (suc rounds) d buffer size offset written =
      let chunk = chunk_size (pos_part d.length) size offset in
      if size == 0 then pure written else (do
        sector ← byte_to_sector io d (pos offset)
        if chunk == 0 then pure written else (do
          write_chunk sector (offset % 512) chunk buffer written
          write_loop rounds d buffer (size - chunk) (offset + chunk) (written + chunk)))

  module _ (free_map : FreeMap S) where
    -- A write that ends behind the file gives it sectors and a length first.
    unfoldable pub extend : Inode → ℕ → Io S (Bool × Inode)
    extend inode len = do
      (done, d) ← inode_reserve io free_map inode.content (pos len)
      if not done then pure (false, record inode { content = d }) else (do
        io.write inode.sector (inode_block (extended d len))
        pure (true, record inode { content = extended d len }))

    abbrev write_extended : ℕ → Array ℕ → ℕ → ℕ → Bool × Inode → Io S (ℕ × Inode)
    write_extended rounds buffer size offset (false, inode) = pure (0, inode)
    write_extended rounds buffer size offset (true, inode) = do
      written ← write_loop rounds inode.content buffer size offset 0
      pure (written, inode)

    unfoldable pub inode_write_at : ℕ → Inode → Array ℕ → ℕ → ℕ → Io S (ℕ × Inode)
    inode_write_at rounds inode buffer size offset =
        if not (inode.deny_write_cnt == 0) then pure (0, inode) else (do
          last ← byte_to_sector io inode.content (pos (offset + size) +ℤ minus_one)
          r ← if last == no_sector then extend inode (offset + size) else pure (true, inode)
          write_extended rounds buffer size offset r)

    abbrev inode_allocate : InodeDisk → Io S (Bool × InodeDisk)
    inode_allocate d = inode_reserve io free_map d d.length

    unfoldable inode_create : ℕ → ℤ → Bool → Io S Bool
    inode_create sector (negsuc length) is_dir = stop
    inode_create sector (pos length) is_dir = do
      (done, d) ← inode_allocate (record {
        direct_blocks = λ i. 0;
        indirect_block = 0;
        doubly_indirect_block = 0;
        is_dir = is_dir;
        length = pos length;
        magic = inode_magic;
      })
      if done then (do io.write sector (inode_block d); pure true) else pure false
