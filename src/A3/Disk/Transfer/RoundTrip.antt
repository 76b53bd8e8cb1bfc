-- ===== src/A3/Disk/Transfer/RoundTrip.antt =====
-- What is written within a file is read back; a write of no bytes at the start cuts the file off.
use mcgill_ecse_427_operatin.Prelude.{
  some, ℕ, zero, suc, ◌+◌, ◌-◌, ◌/◌, ◌≤◌, ◌<◌, ◌≡◌, refl, sym, ap, ◌∙◌, subst, true, false, ◌==◌,
  if◌then◌else◌, ◌∷◌, Array, arith,
}
use mcgill_ecse_427_operatin.Prelude.Int.{pos, ◌+ℤ◌, minus_one}
use mcgill_ecse_427_operatin.A3.Disk.Sectors.{◌>>=◌, pure, Sectors, Runs, pure-Runs, >>=-Runs}
use mcgill_ecse_427_operatin.A3.Disk.Inode.{
  Bytes, InodeDisk, Inode, min, no_sector, slice, byte_to_sector,
}
use mcgill_ecse_427_operatin.A3.Disk.Inode.Index.{sector_at}
use mcgill_ecse_427_operatin.A3.Disk.Reserve.{FreeMap}
use mcgill_ecse_427_operatin.A3.Disk.Transfer.{
  inode_read_at, write_loop, extend, write_extended, inode_write_at,
}
use mcgill_ecse_427_operatin.A3.Disk.Transfer.Reading.{
  byte_at, bytes_from, byte_to_sector-inside, read_loop-bytes,
}
use mcgill_ecse_427_operatin.A3.Disk.Transfer.Layout.{HasLayout}
use mcgill_ecse_427_operatin.A3.Disk.Transfer.Writing.{Written, write_loop-Written}

-- Bytes that are those of a buffer, as a list.
bytes_from-buffer :
    (v : Array Bytes) (d : InodeDisk) (buffer : Array ℕ) (p from m : ℕ)
    → ((i : ℕ) → i < m → byte_at v d (p + i) ≡ buffer (from + i))
    → bytes_from v d p m ≡ slice buffer from m
unfolding bytes_from slice
bytes_from-buffer v d buffer p from zero same = refl
bytes_from-buffer v d buffer p from (suc m) same =
    let at_p : p + 0 ≡ p = omega arith in
    let at_from : from + 0 ≡ from = omega arith in
    let first : byte_at v d p ≡ buffer from =
      ap (byte_at v d) (sym at_p) ∙ same 0 (omega arith) ∙ ap buffer at_from in
    rw first (
      ap (◌∷◌ (buffer from)) (
        bytes_from-buffer v d buffer (p + 1) (from + 1) m (λ i h.
          let shift_p : p + 1 + i ≡ p + suc i = omega arith in
          let shift_from : from + suc i ≡ from + 1 + i = omega arith in
          ap (byte_at v d) shift_p ∙ same (suc i) (omega arith) ∙ ap buffer shift_from)))

module _ {S : Type 0} (io : Sectors S Bytes) (free_map : FreeMap S) (n : ℕ) (small : n ≤ no_sector)
    (inode : Inode) (allowed : inode.deny_write_cnt ≡ 0) where
  last_byte : (k : ℕ) → pos (k + 1) +ℤ minus_one ≡ pos k
  last_byte k = ground arith

  writes :
      (v : Array Bytes) (len rounds size offset : ℕ) (buffer : Array ℕ)
      → HasLayout n v inode.content len
      → 0 < size
      → offset + size ≤ len
      → size < rounds
      → (v' : Array Bytes) × Runs io n
          (inode_write_at io free_map rounds inode buffer size offset)
          v
          (size, inode)
          v'
        × Written io n inode.content len buffer v v' offset size 0
  unfolding inode_write_at
  writes v len rounds size offset buffer has some_bytes within h =
      let d = inode.content in
      let last = offset + size - 1 in
      let s = sector_at v d (last / 512) in
      let at_last : pos (offset + size) +ℤ minus_one ≡ pos last =
        subst (λ k. pos k +ℤ minus_one ≡ pos last) (omega arith) (last_byte last) in
      let there : (s == no_sector) ≡ false =
        ground (arith, has.bytes.on_disk (last / 512) (omega arith)) in
      let count : min size (len - offset) ≡ size = ground arith in
      let whole : 0 + min size (len - offset) ≡ size = ground arith in
      let writable : (inode.deny_write_cnt == 0) ≡ true = ground (arith, allowed) in
      let (v', done, written) = write_loop-Written io n d len buffer rounds v size offset 0 h has in
      (
        v',
        rw writable (
            >>=-Runs io n (byte_to_sector io d (pos (offset + size) +ℤ minus_one))
              (λ last. do
                r ←
                    if last == no_sector
                    then extend io free_map inode (offset + size)
                    else pure (true, inode)
                write_extended io free_map rounds buffer size offset r)
              v v v' s (size, inode)
              (subst (λ k. Runs io n (byte_to_sector io d k) v s v) (sym at_last)
                (byte_to_sector-inside io n v d len has.bytes last (omega arith)))
              (rw there (
                >>=-Runs io n (write_loop io rounds d buffer size offset 0)
                  (λ written. pure (written, inode)) v v' v' size (size, inode)
                  (subst (λ k. Runs io n (write_loop io rounds d buffer size offset 0) v k v') whole
                    done)
                  (pure-Runs io n (size, inode) v')))),
        subst (λ m. Written io n d len buffer v v' offset m 0) count written,
      )

  -- On a disk of less than 2 ^ 32 sectors, for an inode that may be written, whose blocks have
  -- sectors of their own on the disk, for at least one byte and up to the end of the file at most,
  -- with one round more than bytes: `inode_write_at` returns the number of bytes with the inode as
  -- it was; the bytes from the position are those of the buffer, all other bytes of the file and all
  -- sectors that are none of the file's blocks are as they were, and no block has moved.
  pub inode_write_at-Written :
      (v : Array Bytes) (len rounds size offset : ℕ) (buffer : Array ℕ)
      → HasLayout n v inode.content len
      → 0 < size
      → offset + size ≤ len
      → size < rounds
      → (c : S) → io.Stands c n v
      → (v' : Array Bytes) × (c' : S) × (inode_write_at io free_map rounds inode buffer size offset
            c
          ≡ some ((size, inode), c'))
        × io.Stands c' n v'
        × Written io n inode.content len buffer v v' offset size 0
  inode_write_at-Written v len rounds size offset buffer has some_bytes within h c st =
      let (v', done, written) = writes v len rounds size offset buffer has some_bytes within h in
      let (c', e, st') = done c st in (v', c', e, st', written)

  -- On a disk of less than 2 ^ 32 sectors, for an inode that may be written, whose blocks have
  -- sectors of their own on the disk, for at least one byte and up to the end of the file at most,
  -- with one round more than bytes: after `inode_write_at`, which leaves the inode as it was,
  -- `inode_read_at` at the same place gives the bytes of the buffer.
  pub inode_read_at-inode_write_at :
      (v : Array Bytes) (len rounds size offset : ℕ) (buffer : Array ℕ)
      → HasLayout n v inode.content len
      → 0 < size
      → offset + size ≤ len
      → size < rounds
      → (c : S) → io.Stands c n v
      → (c' c'' : S) × (inode_write_at io free_map rounds inode buffer size offset c
          ≡ some ((size, inode), c'))
        × (inode_read_at io rounds inode size offset c' ≡ some (slice buffer 0 size, c''))
  inode_read_at-inode_write_at v len rounds size offset buffer has some_bytes within h c st =
      let d = inode.content in
      let (v', c', e, st', written) =
        inode_write_at-Written v len rounds size offset buffer has some_bytes within h c st in
      let count : min size (len - offset) ≡ size = ground arith in
      let bytes : bytes_from v' d offset (min size (len - offset)) ≡ slice buffer 0 size =
        ap (bytes_from v' d offset) count
        ∙ bytes_from-buffer v' d buffer offset 0 size
            (λ i below. ground (arith, written.bytes (offset + i) (omega arith))) in
      let (c'', e', _) =
        read_loop-bytes io n v' d len written.layout.bytes rounds size offset h c' st' in
      (c', c'', e, e' ∙ ap (λ l. some (l, c'')) bytes)
