-- ===== src/A3/Disk/Inode/DataSectors.antt =====
-- The list of a file's sectors against the sector of each block.
use mcgill_ecse_427_operatin.Prelude.{
  ℕ, zero, suc, ◌+◌, ◌-◌, ◌≤◌, ◌<◌, ◌≡◌, inl, inr, sym, subst, ◌==◌, Bool-cases, ltb, ltb→lt,
  if◌then◌else◌, some, Array, arith,
}
use mcgill_ecse_427_operatin.Prelude.Int.{pos}
use mcgill_ecse_427_operatin.A3.Disk.Sectors.{
  Io, ◌>>=◌, pure, stop, Sectors, Runs, pure-Runs, read_then-Runs, >>=-Runs,
}
use mcgill_ecse_427_operatin.A3.Disk.Inode.{
  Bytes, block_word, index_to_sector, InodeDisk, min, div_round_up, bytes_to_sectors, copy_words,
  doubly_sectors, data_sectors, sectors_of_length, get_inode_data_sectors,
}
use mcgill_ecse_427_operatin.A3.Disk.Inode.Index.{max_blocks, HasIndex, index_to_sector-sector_at}
use mcgill_ecse_427_operatin.A3.Disk.Inode.Words.{
  doubly_words, single_words, all_words, all_words-at, copy_words-none, doubly_words-none,
  none_left,
}

module _ {S : Type 0} (io : Sectors S Bytes) (n : ℕ) (v : Array Bytes) (d : InodeDisk) where
  doubly_sectors-words :
      (m i left cur : ℕ) (out : Array ℕ)
      → ((j : ℕ) → i ≤ j → j < i + m → block_word (v d.doubly_indirect_block) j < n)
      → Runs io n
          (doubly_sectors io m i left cur (v d.doubly_indirect_block) out)
          v
          (doubly_words v m i left cur (v d.doubly_indirect_block) out)
          v
  unfolding doubly_sectors doubly_words
  doubly_sectors-words zero i left cur out on = pure-Runs io n out v
  doubly_sectors-words (suc m) i left cur out on =
      let b = v d.doubly_indirect_block in
      let subsize = min left 128 in
      read_then-Runs io n (block_word b i)
        (λ b'.
          doubly_sectors io m (i + 1) (left - subsize) (cur + subsize) b
            (copy_words subsize 0 cur (block_word b') out))
        v v (doubly_words v (suc m) i left cur b out) (on i (omega arith) (omega arith))
        (doubly_sectors-words m (i + 1) (left - subsize) (cur + subsize)
          (copy_words subsize 0 cur (block_word (v (block_word b i))) out)
          (λ j lo hi. on j (omega arith) (omega arith)))

  -- A loop that is not entered for no blocks.
  unless_none :
      (l : ℕ) (m : Io S (Array ℕ)) (none_there some_there : Array ℕ)
      → (0 < l → Runs io n m v some_there v)
      → (l ≡ 0 → some_there ≡ none_there)
      → Runs io n (if ltb 0 l then m else pure none_there) v some_there v
  unless_none l m none_there some_there some_case none_case = elim (Bool-cases (ltb 0 l)) [
    | inl more ↦ rw more (some_case (ltb→lt _ _ more))
    | inr empty ↦ rw (empty, none_case (ground arith)) (pure-Runs io n none_there v)
  ]

  data_sectors-all_words :
      (k : ℕ) (out : Array ℕ)
      → HasIndex n v d k
      → k ≤ max_blocks
      → Runs io n (data_sectors io d k out) v (all_words v d k out) v
  unfolding data_sectors all_words single_words
  data_sectors-all_words k out has max =
      let l = min k 123 in
      let l' = min (k - l) 128 in
      let l'' = min (k - l - l') 16384 in
      let direct = copy_words l 0 0 d.direct_blocks out in
      let single = single_words v d k out in
      let rounds = div_round_up l'' 128 in
      let b = v d.doubly_indirect_block in
      let all = all_words v d k out in
      >>=-Runs io n
        (if ltb 0 l'
          then (do b ← io.read d.indirect_block; pure (copy_words l' 0 l (block_word b) direct))
          else pure direct)
        (λ single. do
          all ←
              if ltb 0 l''
              then (do
                b ← io.read d.doubly_indirect_block
                doubly_sectors io rounds 0 l'' (l + l') b single)
              else pure single
          if k - l - l' - l'' == 0 then pure all else stop)
        v v v single all
        (unless_none l'
          (io.read d.indirect_block >>= λ b. pure (copy_words l' 0 l (block_word b) direct)) direct
          single
          (λ some_left.
            read_then-Runs io n d.indirect_block
              (λ b. pure (copy_words l' 0 l (block_word b) direct)) v v single
              (has.indirect (ground arith)) (pure-Runs io n single v))
          (λ e. copy_words-none l' 0 l (block_word (v d.indirect_block)) direct e))
        (>>=-Runs io n
          (if ltb 0 l''
            then (do
              b ← io.read d.doubly_indirect_block
              doubly_sectors io rounds 0 l'' (l + l') b single)
            else pure single)
          (λ all. if k - l - l' - l'' == 0 then pure all else stop) v v v all all
          (unless_none l''
            (io.read d.doubly_indirect_block >>= λ b.
              doubly_sectors io rounds 0 l'' (l + l') b single)
            single all
            (λ some_left.
              read_then-Runs io n d.doubly_indirect_block
                (λ b. doubly_sectors io rounds 0 l'' (l + l') b single) v v all
                (has.doubly (ground arith))
                (doubly_sectors-words rounds 0 l'' (l + l') single
                  (λ j lo hi. has.second j (ground arith))))
            (λ e. doubly_words-none v l'' (l + l') b single e))
          (rw (none_left k max) (pure-Runs io n all v)))

  -- For a file with a length that is not negative, whose blocks can be indexed and whose index is on
  -- the disk, `get_inode_data_sectors` gives an array that has at each block of the file the sector
  -- that `index_to_sector` gives for it; both leave every sector of the disk as it was.
  pub get_inode_data_sectors-index_to_sector :
      (len : ℕ) (out : Array ℕ)
      → d.length ≡ pos len
      → HasIndex n v d (bytes_to_sectors len)
      → bytes_to_sectors len ≤ max_blocks
      → (c : S) → io.Stands c n v
      → (sectors : Array ℕ) × (c' : S) × (get_inode_data_sectors io d out c
          ≡ some (some sectors, c'))
        × io.Stands c' n v
        × ((i : ℕ)
            → i < bytes_to_sectors len
            → (c'' : S) × (index_to_sector io d i c' ≡ some (sectors i, c'')) × io.Stands c'' n v)
  unfolding get_inode_data_sectors
  get_inode_data_sectors-index_to_sector len out e has max c st =
      let k = bytes_to_sectors len in
      let sectors = all_words v d k out in
      let (c', done, st') =
        subst (λ l. Runs io n (sectors_of_length io d l out) v (some sectors) v) (sym e)
          (>>=-Runs io n (data_sectors io d k out) (λ sectors. pure (some sectors)) v v v sectors
            (some sectors) (data_sectors-all_words k out has max) (pure-Runs io n (some sectors) v))
          c st in
      (
        sectors,
        c',
        done,
        st',
        λ i h.
            rw (all_words-at v d k out i h max)
              (index_to_sector-sector_at io n v d k i has h max c' st'),
      )
