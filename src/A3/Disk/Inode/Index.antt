-- ===== src/A3/Disk/Inode/Index.antt =====
-- The sector of a block of a file, on a disk that is an array of sectors.
use mcgill_ecse_427_operatin.Prelude.{
  ℕ, ◌+◌, ◌-◌, ◌*◌, ◌/◌, ◌%◌, ◌≤◌, ◌<◌, inl, inr, Bool-cases, ltb, lt→ltb, if◌then◌else◌, Array,
  arith,
}
use mcgill_ecse_427_operatin.A3.Disk.Sectors.{◌>>=◌, pure, Sectors, Runs, pure-Runs, read_then-Runs}
use mcgill_ecse_427_operatin.A3.Disk.Inode.{
  Bytes, block_word, InodeDisk, no_sector, index_to_sector,
}

-- The blocks that can be indexed.
abbrev pub max_blocks : ℕ
max_blocks = 16635

unfoldable pub sector_at : Array Bytes → InodeDisk → ℕ → ℕ
sector_at v d index =
    if ltb index 123
    then d.direct_blocks index
    else if ltb index 251
    then block_word (v d.indirect_block) (index - 123)
    else if ltb index 16635
    then block_word (v (block_word (v d.doubly_indirect_block) ((index - 251) / 128)))
        ((index - 251) % 128)
    else no_sector

-- On a disk of `n` sectors, the blocks that hold the index of the first `k` blocks are on the disk.
pub record HasIndex (n : ℕ) (v : Array Bytes) (d : InodeDisk) (k : ℕ) : Type 0 where
  pub indirect : 123 < k → d.indirect_block < n
  pub doubly : 251 < k → d.doubly_indirect_block < n
  pub second : (i : ℕ) → 251 + 128 * i < k → block_word (v d.doubly_indirect_block) i < n

module _ {S : Type 0} (io : Sectors S Bytes) (n : ℕ) (v : Array Bytes) (d : InodeDisk) where
  -- Where the blocks of the index are on the disk, `index_to_sector` gives the sector of the block.
  pub index_to_sector-sector_at :
      (k index : ℕ)
      → HasIndex n v d k
      → index < k
      → k ≤ max_blocks
      → Runs io n (index_to_sector io d index) v (sector_at v d index) v
  unfolding index_to_sector sector_at
  index_to_sector-sector_at k index has h max = elim (Bool-cases (ltb index 123)) [
    | inl direct ↦ rw direct (pure-Runs io n (d.direct_blocks index) v)
    | inr far ↦ elim (Bool-cases (ltb index 251)) [
      | inl single ↦
          rw (far, single)
            (read_then-Runs io n d.indirect_block (λ b. pure (block_word b (index - 123))) v v
              (block_word (v d.indirect_block) (index - 123)) (has.indirect (ground arith))
              (pure-Runs io n (block_word (v d.indirect_block) (index - 123)) v))
      | inr double ↦
          let first = block_word (v d.doubly_indirect_block) ((index - 251) / 128) in
          let found = block_word (v first) ((index - 251) % 128) in
          rw (far, double, lt→ltb index 16635 (omega arith))
            (read_then-Runs io n d.doubly_indirect_block
              (λ b. io.read (block_word b ((index - 251) / 128)) >>= λ b'.
                pure (block_word b' ((index - 251) % 128)))
              v v found (has.doubly (ground arith))
              (read_then-Runs io n first (λ b'. pure (block_word b' ((index - 251) % 128))) v v
                found (has.second ((index - 251) / 128) (ground arith)) (pure-Runs io n found v)))
    ]
  ]
