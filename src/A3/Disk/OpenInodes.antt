-- ===== src/A3/Disk/OpenInodes.antt =====
-- a3/fs/inode.c: the list of open inodes. A pointer to an inode is the sector of the inode, of which the list
-- has one entry at most; `none` of the list is an inode that was freed, and a use of it stops.
pub mod Twice
pub mod Stored
use mcgill_ecse_427_operatin.Prelude.{
  ℕ, zero, suc, ◌+◌, ◌-◌, ◌*◌, Bool, true, false, not, ltb, leb, ◌==◌, if◌then◌else◌, Option, none,
  some, List, [], ◌∷◌, Array,
}
use mcgill_ecse_427_operatin.Prelude.Int.{ℤ, pos, negsuc}
use mcgill_ecse_427_operatin.A3.Disk.Sectors.{Io, pure, stop, ◌>>=◌, ◌>>◌, Sectors}
use mcgill_ecse_427_operatin.A3.Disk.Inode.{Bytes, block_word, InodeDisk, Inode}
use mcgill_ecse_427_operatin.A3.Disk.Reserve.{FreeMap, inode_deallocate}

-- A number of 32 bits with a sign.
abbrev word_offset : ℕ → ℤ
word_offset w = if ltb w 2147483648 then pos w else negsuc (4294967295 - w)

-- The `struct inode_disk` in the bytes of a sector.
unfoldable pub inode_of_block : Bytes → InodeDisk
inode_of_block b = record {
  direct_blocks = block_word b;
  indirect_block = block_word b 123;
  doubly_indirect_block = block_word b 124;
  is_dir = not (b 500 == 0);
  length = word_offset (block_word b 126);
  magic = block_word b 127;
}

unfoldable pub find_open : ℕ → List Inode → Option Inode
find_open sector [] = none
find_open sector (i ∷ opens) = if i.sector == sector then some i else find_open sector opens

unfoldable pub list_remove : ℕ → List Inode → List Inode
list_remove sector [] = []
list_remove sector (i ∷ opens) = if i.sector == sector then opens else i ∷ list_remove sector opens

unfoldable pub change_open : ℕ → (Inode → Inode) → List Inode → List Inode
change_open sector f [] = []
change_open sector f (i ∷ opens) =
    if i.sector == sector then f i ∷ opens else i ∷ change_open sector f opens

-- It does not count the opener.
unfoldable pub inode_reopen : Inode → Inode
inode_reopen inode = inode

unfoldable inode_remove : ℕ → List Inode → List Inode
inode_remove sector = change_open sector (λ i. record i { removed = true })

-- The assertion fails where more openers deny writes than there are.
unfoldable inode_deny_write : Inode → Option Inode
inode_deny_write inode =
    if leb (inode.deny_write_cnt + 1) inode.open_cnt
    then some (record inode { deny_write_cnt = inode.deny_write_cnt + 1 })
    else none

unfoldable inode_allow_write : Inode → Option Inode
inode_allow_write inode =
    if ltb 0 inode.deny_write_cnt
    then (if leb inode.deny_write_cnt inode.open_cnt
        then some (record inode { deny_write_cnt = inode.deny_write_cnt - 1 })
        else none)
    else none

abbrev pub fresh_inode : ℕ → Bytes → Inode
fresh_inode sector b = record {
  sector = sector;
  open_cnt = 1;
  removed = false;
  deny_write_cnt = 0;
  content = inode_of_block b;
}

module _ {S : Type 0} (io : Sectors S Bytes) (free_map : FreeMap S) where
  -- The inode and the list, in which a new one is in front.
  unfoldable pub inode_open : ℕ → List Inode → Io S (Inode × List Inode)
  inode_open sector opens = elim (find_open sector opens) [
    | some inode ↦ pure (inode_reopen inode, opens)
    | none ↦ do b ← io.read sector; pure (fresh_inode sector b, fresh_inode sector b ∷ opens)
  ]

  abbrev count_down : Inode → Inode
  count_down i = record i { open_cnt = i.open_cnt - 1 }

  -- The last opener takes the inode off the list, and frees the sectors of a removed one.
  abbrev close_open : ℕ → List Inode → Option Inode → Io S (List Inode)
  close_open sector opens none = stop
  close_open sector opens (some inode) =
      if inode.open_cnt == 1
      then (if inode.removed
          then (do
            free_map.release sector
            _ ← inode_deallocate io free_map inode.content
            pure (list_remove sector opens))
          else pure (list_remove sector opens))
      else pure (change_open sector count_down opens)

  abbrev close_pointer : Option ℕ → List Inode → Io S (List Inode)
  close_pointer none opens = pure opens
  close_pointer (some sector) opens = close_open sector opens (find_open sector opens)

  -- A null pointer is ignored.
  unfoldable pub inode_close : Option ℕ → List Inode → Io S (List Inode)
  inode_close = close_pointer
