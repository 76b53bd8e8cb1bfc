-- ===== src/A3/Disk/Transfer/Extending.antt =====
-- Growing a file: a write of no bytes, and a disk with no free sector.
use mcgill_ecse_427_operatin.Prelude.{
  some, ℕ, zero, suc, ◌+◌, ◌-◌, ◌*◌, ◌<◌, ◌≡◌, ◌≢◌, refl, sym, ap, subst, fun_ext, Bool, true,
  false, not, ◌==◌, if◌then◌else◌, none, Array, update, arith,
}
use mcgill_ecse_427_operatin.Prelude.Int.{pos}
use mcgill_ecse_427_operatin.A3.Disk.Sectors.{
  ◌>>=◌, ◌>>◌, pure, Sectors, Runs, pure-Runs, read_then-Runs, write_then-Runs, >>=-Runs,
}
use mcgill_ecse_427_operatin.A3.Disk.Inode.{
  byte_to_sector, Bytes, block_word, InodeDisk, Inode, min, bytes_to_sectors, div_round_up,
}
use mcgill_ecse_427_operatin.A3.Disk.Reserve.{
  FreeMap, zeros, get_or, take_sector, reserve_entry, reserve_rounds, reserve_block, write_blocks,
  inode_reserve_indirect, reserve_single, reserve_doubly, inode_reserve,
}
use mcgill_ecse_427_operatin.A3.Disk.Transfer.{
  inode_block, write_loop, extended, extend, write_extended, inode_write_at,
}

update_same : (a : Array ℕ) (i j : ℕ) → update a i (a i) j ≡ a j
update_same a i j = ground arith

module _ {S : Type 0} (io : Sectors S Bytes) (free_map : FreeMap S) (n : ℕ) where
  -- No bytes need no sector.
  inode_reserve-none :
      (d : InodeDisk) (v : Array Bytes)
      → Runs io n (inode_reserve io free_map d (pos 0)) v (true, d) v
  unfolding inode_reserve reserve_rounds
  inode_reserve-none d v c st = (c, refl, st)

  -- A write of no bytes at position 0, on an inode that may be written and is on the disk, returns 0
  -- and sets the length of the file to 0, whatever it was, also on the disk, where the inode keeps
  -- its sectors.
  pub inode_write_at-empty :
      (inode : Inode) (rounds : ℕ) (buffer : Array ℕ) (v : Array Bytes)
      → inode.deny_write_cnt ≡ 0
      → inode.sector < n
      → (c : S) → io.Stands c n v
      → (c' : S) × (inode_write_at io free_map (suc rounds) inode buffer 0 0 c
          ≡ some ((0, record inode { content = extended inode.content 0 }), c'))
        × io.Stands c' n (update v inode.sector (inode_block (extended inode.content 0)))
  unfolding inode_write_at write_loop extend byte_to_sector
  inode_write_at-empty inode rounds buffer v allowed on_disk =
      let cut = record inode { content = extended inode.content 0 } in
      let v' = update v inode.sector (inode_block (extended inode.content 0)) in
      let writable : (inode.deny_write_cnt == 0) ≡ true = ground (arith, allowed) in
      rw writable (
        >>=-Runs io n (extend io free_map inode 0)
          (write_extended io free_map (suc rounds) buffer 0 0) v v' v' (true, cut) (0, cut)
          (>>=-Runs io n (inode_reserve io free_map inode.content (pos 0))
            (λ r. if not r.0 then pure (false, record inode { content = r.1 }) else (do
              io.write inode.sector (inode_block (extended r.1 0))
              pure (true, record inode { content = extended r.1 0 })))
            v v v' (true, inode.content) (true, cut) (inode_reserve-none inode.content v)
            (write_then-Runs io n inode.sector (inode_block (extended inode.content 0))
              (pure (true, cut)) v v' (true, cut) on_disk (pure-Runs io n (true, cut) v')))
          (pure-Runs io n (0, cut) v'))

  -- No sector is free: an allocation fails, and leaves the disk as it was.
  abbrev IsFull : Type 0
  IsFull = (v : Array Bytes) → Runs io n free_map.allocate v none v

  module _ (full : IsFull) where
    reserve_entry-full : (v : Array Bytes) → Runs io n (reserve_entry io free_map 0) v (false, 0) v
    unfolding reserve_entry
    reserve_entry-full v =
        >>=-Runs io n free_map.allocate (take_sector io free_map 0) v v v none (false, 0) (full v)
          (pure-Runs io n (false, 0) v)

    reserve_block-full :
        (v : Array Bytes) → 0 < n → Runs io n (reserve_block io free_map 0) v 0 (update v 0 zeros)
    unfolding reserve_block
    reserve_block-full v some_sector =
        >>=-Runs io n free_map.allocate (λ s. do io.write (get_or s 0) zeros; pure (get_or s 0)) v v
          (update v 0 zeros) none 0 (full v)
          (write_then-Runs io n 0 zeros (pure 0) v (update v 0 zeros) 0 some_sector
            (pure-Runs io n 0 (update v 0 zeros)))

    -- The first block fails, the index block is sector 0 and has been written.
    reserve_indirect-full :
        (v : Array Bytes) (num : ℕ)
        → 0 < n
        → Runs io n
            (inode_reserve_indirect io free_map 1 (suc num) 0)
            v
            (false, 0)
            (update v 0 zeros)
    unfolding inode_reserve_indirect reserve_rounds block_word
    reserve_indirect-full v num some_sector =
        let v' = update v 0 zeros in
        let rounds : div_round_up (suc num) 1 ≡ suc num = omega arith in
        let blocks = update (block_word zeros) 0 0 in
        let f = λ (e subsize : ℕ). inode_reserve_indirect io free_map 0 subsize e in
        >>=-Runs io n (reserve_block io free_map 0)
          (λ entry'. do
            b ← io.read entry'
            r ← reserve_rounds io free_map (div_round_up (suc num) 1) 0 (suc num) 1 f (block_word b)
            write_blocks io free_map entry' r)
          v v' v' 0 (false, 0) (reserve_block-full v some_sector)
          (read_then-Runs io n 0
            (λ b. do
              r ←
                  reserve_rounds io free_map (div_round_up (suc num) 1) 0 (suc num) 1 f
                    (block_word b)
              write_blocks io free_map 0 r)
            v' v' (false, 0) some_sector
            (rw rounds (
              >>=-Runs io n
                (reserve_rounds io free_map (suc num) 0 (suc num) 1 f (block_word zeros))
                (write_blocks io free_map 0) v' v' v' (false, blocks, suc num) (false, 0)
                (>>=-Runs io n (f (block_word zeros 0) (min (suc num) 1))
                  (λ r.
                    if r.0
                    then reserve_rounds io free_map num 1 (suc num - min (suc num) 1) 1 f
                        (update (block_word zeros) 0 r.1)
                    else pure (false, update (block_word zeros) 0 r.1, suc num))
                  v' v' v' (false, 0) (false, blocks, suc num) (reserve_entry-full v')
                  (pure-Runs io n (false, blocks, suc num) v'))
                (pure-Runs io n (false, 0) v'))))

    reserve_entry-there :
        (e : ℕ) (v : Array Bytes) → e ≢ 0 → Runs io n (reserve_entry io free_map e) v (true, e) v
    unfolding reserve_entry
    reserve_entry-there e v there =
        let taken : (e == 0) ≡ false = ground arith in rw taken (pure-Runs io n (true, e) v)

    -- The direct blocks that have a sector keep it.
    reserve_direct :
        (m i : ℕ) (blocks : Array ℕ) (v : Array Bytes)
        → ((j : ℕ) → j < i + m → blocks j ≢ 0)
        → Runs io n
            (reserve_rounds io free_map m i m 1 (λ e subsize. reserve_entry io free_map e) blocks)
            v
            (true, blocks, 0)
            v
    unfolding reserve_rounds
    reserve_direct zero i blocks v there = pure-Runs io n (true, blocks, 0) v
    reserve_direct (suc m) i blocks v there =
        let one : suc m - min (suc m) 1 ≡ m = ground arith in
        let same : update blocks i (blocks i) ≡ blocks = fun_ext (λ j. update_same blocks i j) in
        >>=-Runs io n (reserve_entry io free_map (blocks i))
          (λ r.
            if r.0
            then reserve_rounds io free_map m (i + 1) (suc m - min (suc m) 1) 1
                (λ e subsize. reserve_entry io free_map e) (update blocks i r.1)
            else pure (false, update blocks i r.1, suc m))
          v v v (true, blocks i) (true, blocks, 0)
          (reserve_entry-there (blocks i) v (there i (omega arith)))
          (rw (one, same) (reserve_direct m (i + 1) blocks v (λ j h. there j (omega arith))))

    reserve_single-full :
        (d : InodeDisk) (left : ℕ) (v : Array Bytes)
        → 0 < n
        → d.indirect_block ≡ 0
        → 0 < left
        → Runs io n (reserve_single io free_map d left) v (false, d) (update v 0 zeros)
    unfolding reserve_single
    reserve_single-full d left v some_sector no_index some_left =
        let l = min left 128 in
        let one_more : suc (l - 1) ≡ l = ground arith in
        let same : record d { indirect_block = 0 } ≡ d =
          sym (ap (λ e. record d { indirect_block = e }) no_index) in
        >>=-Runs io n (inode_reserve_indirect io free_map 1 l d.indirect_block)
          (λ r.
            if not r.0
            then pure (false, record d { indirect_block = r.1 })
            else if left - l == 0
            then pure (true, record d { indirect_block = r.1 })
            else reserve_doubly io free_map (record d { indirect_block = r.1 }) (left - l))
          v (update v 0 zeros) (update v 0 zeros) (false, 0) (false, d)
          (subst
            (λ e.
              Runs io n (inode_reserve_indirect io free_map 1 l e) v (false, 0) (update v 0 zeros))
            (sym no_index)
            (subst
              (λ m.
                Runs io n (inode_reserve_indirect io free_map 1 m 0) v (false, 0)
                  (update v 0 zeros))
              one_more (reserve_indirect-full v (l - 1) some_sector)))
          (subst
            (λ e.
              Runs io n {A = Bool × InodeDisk} (pure (false, record d { indirect_block = 0 }))
                (update v 0 zeros) (false, e) (update v 0 zeros))
            same (pure-Runs io n (false, record d { indirect_block = 0 }) (update v 0 zeros)))

    -- On a disk with no free sector, where a file has all its direct blocks and no indirect block,
    -- `inode_reserve` for more than the direct blocks hold returns false with the inode as it was,
    -- but sector 0 of the disk, which has the inode of the free map, is filled with zeros.
    pub inode_reserve-full :
        (d : InodeDisk) (len : ℕ) (v : Array Bytes)
        → 0 < n
        → ((i : ℕ) → i < 123 → d.direct_blocks i ≢ 0)
        → d.indirect_block ≡ 0
        → 123 * 512 < len
        → (c : S) → io.Stands c n v
        → (c' : S) × (inode_reserve io free_map d (pos len) c ≡ some ((false, d), c'))
          × io.Stands c' n (update v 0 zeros)
    unfolding inode_reserve
    inode_reserve-full d len v some_sector there no_index long =
        let k = bytes_to_sectors len in
        let l = min k 123 in
        let more : (k - l == 0) ≡ false = ground arith in
        >>=-Runs io n
          (reserve_rounds io free_map l 0 l 1 (λ e subsize. reserve_entry io free_map e)
            d.direct_blocks)
          (λ r.
            if not r.0
            then pure (false, record d { direct_blocks = r.1 })
            else if k - l == 0
            then pure (true, record d { direct_blocks = r.1 })
            else reserve_single io free_map (record d { direct_blocks = r.1 }) (k - l))
          v v (update v 0 zeros) (true, d.direct_blocks, 0) (false, d)
          (reserve_direct l 0 d.direct_blocks v (λ i h. there i (ground arith)))
          (rw more (reserve_single-full d (k - l) v some_sector no_index (ground arith)))
