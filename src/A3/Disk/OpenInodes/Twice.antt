-- ===== src/A3/Disk/OpenInodes/Twice.antt =====
-- A file that is opened twice is gone after it is closed once.
use mcgill_ecse_427_operatin.Prelude.{
  ℕ, ◌<◌, ◌≡◌, refl, true, ==_iff, ◌==◌, none, some, List, ◌∷◌, Array,
}
use mcgill_ecse_427_operatin.A3.Disk.Sectors.{
  ◌>>=◌, pure, Sectors, pure-Runs, read_then-Runs, >>=-Runs,
}
use mcgill_ecse_427_operatin.A3.Disk.Inode.{Bytes, Inode}
use mcgill_ecse_427_operatin.A3.Disk.Reserve.{FreeMap}
use mcgill_ecse_427_operatin.A3.Disk.OpenInodes.{
  find_open, list_remove, inode_reopen, fresh_inode, inode_open, inode_close,
}

module _ {S : Type 0} (io : Sectors S Bytes) (free_map : FreeMap S) (n : ℕ) where
  -- For an inode on the disk that is not open: after it is opened twice and closed once, the list of
  -- open inodes is the one of before, without the inode that the other opener uses.
  pub inode_close-inode_open :
      (sector : ℕ) (opens : List Inode) (v : Array Bytes)
      → sector < n
      → find_open sector opens ≡ none
      → (c : S) → io.Stands c n v
      → (c' : S) × ((do
        (_, opens') ← inode_open io free_map sector opens
        (_, opens'') ← inode_open io free_map sector opens'
        inode_close io free_map (some sector) opens'')
            c
          ≡ some (opens, c'))
        × io.Stands c' n v
  unfolding inode_open inode_close find_open list_remove inode_reopen
  inode_close-inode_open sector opens v on_disk closed =
      let new = fresh_inode sector (v sector) in
      let self : (sector == sector) ≡ true = (==_iff sector sector).1 refl in
      let found : find_open sector (new ∷ opens) ≡ some new = rw self in
      let removed : list_remove sector (new ∷ opens) ≡ opens = rw self in
      >>=-Runs io n (inode_open io free_map sector opens)
        (λ r. do
          (_, opens'') ← inode_open io free_map sector r.1
          inode_close io free_map (some sector) opens'')
        v v v (new, new ∷ opens) opens
        (rw (closed, inode_open)
          (read_then-Runs io n sector
            (λ b. pure (fresh_inode sector b, fresh_inode sector b ∷ opens)) v v (new, new ∷ opens)
            on_disk (pure-Runs io n (new, new ∷ opens) v)))
        (>>=-Runs io n (inode_open io free_map sector (new ∷ opens))
          (λ r. inode_close io free_map (some sector) r.1) v v v (new, new ∷ opens) opens
          (rw (found, inode_open) (pure-Runs io n (new, new ∷ opens) v))
          (rw (found, inode_close, removed) (pure-Runs io n opens v)))
