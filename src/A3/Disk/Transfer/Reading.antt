-- ===== src/A3/Disk/Transfer/Reading.antt =====
-- Reading gives the bytes of the file, on a disk that is an array of sectors.
use mcgill_ecse_427_operatin.Prelude.{
  some, ℕ, zero, suc, ◌+◌, ◌-◌, ◌*◌, ◌/◌, ◌%◌, ◌≤◌, ◌<◌, ◌≡◌, inl, inr, refl, ap, ◌∙◌, false,
  Bool-cases, ==_iff, ltb, lt→ltb, ◌==◌, if◌then◌else◌, List, [], ◌∷◌, ◌++◌, Array, arith,
}
use mcgill_ecse_427_operatin.Prelude.Int.{pos, pos_part}
use mcgill_ecse_427_operatin.A3.Disk.Sectors.{
  ◌>>=◌, pure, Sectors, Runs, pure-Runs, read_then-Runs, >>=-Runs,
}
use mcgill_ecse_427_operatin.A3.Disk.Inode.{
  Bytes, InodeDisk, min, bytes_to_sectors, no_sector, slice, byte_to_sector,
}
use mcgill_ecse_427_operatin.A3.Disk.Inode.Index.{
  max_blocks, sector_at, HasIndex, index_to_sector-sector_at,
}
use mcgill_ecse_427_operatin.A3.Disk.Transfer.{chunk_size, read_loop}

-- The byte of a file at a position.
abbrev pub byte_at : Array Bytes → InodeDisk → ℕ → ℕ
byte_at v d p = v (sector_at v d (p / 512)) (p % 512)

unfoldable pub bytes_from : Array Bytes → InodeDisk → ℕ → ℕ → List ℕ
bytes_from v d p zero = []
bytes_from v d p (suc m) = byte_at v d p ∷ bytes_from v d (p + 1) m

bytes_from-add :
    (v : Array Bytes) (d : InodeDisk) (p a b : ℕ)
    → bytes_from v d p (a + b) ≡ bytes_from v d p a ++ bytes_from v d (p + a) b
unfolding bytes_from
bytes_from-add v d p zero b =
    let none_more : 0 + b ≡ b = omega arith in
    let here : p + 0 ≡ p = omega arith in rw (none_more, here)
bytes_from-add v d p (suc a) b =
    let e : suc a + b ≡ suc (a + b) = omega arith in
    rw e (
      ap (◌∷◌ (byte_at v d p)) (
        bytes_from-add v d (p + 1) a b
        ∙ ap (λ q. bytes_from v d (p + 1) a ++ bytes_from v d q b) (omega arith)))

-- Within one sector.
bytes_from-slice :
    (v : Array Bytes) (d : InodeDisk) (p q ofs m : ℕ)
    → p ≡ 512 * q + ofs
    → ofs + m ≤ 512
    → bytes_from v d p m ≡ slice (v (sector_at v d q)) ofs m
unfolding bytes_from slice
bytes_from-slice v d p q ofs zero e h = refl
bytes_from-slice v d p q ofs (suc m) e h =
    let row : p / 512 ≡ q = omega arith in
    let column : p % 512 ≡ ofs = omega arith in
    rw (row, column)
      (ap (◌∷◌ (v (sector_at v d q) ofs))
        (bytes_from-slice v d (p + 1) q (ofs + 1) m (omega arith) (omega arith)))

-- The file has a length, the blocks that index it are on the disk, and so are its own.
pub record HasBytes (n : ℕ) (v : Array Bytes) (d : InodeDisk) (len : ℕ) : Type 0 where
  pub length : d.length ≡ pos len
  pub bounded : bytes_to_sectors len ≤ max_blocks
  pub index : HasIndex n v d (bytes_to_sectors len)
  pub on_disk : (i : ℕ) → i < bytes_to_sectors len → sector_at v d i < n

module _ {S : Type 0} (io : Sectors S Bytes) (n : ℕ) (v : Array Bytes) (d : InodeDisk) (len : ℕ)
    (has : HasBytes n v d len) where
  part : pos_part d.length ≡ len
  part = ap pos_part has.length

  pub byte_to_sector-inside :
      (p : ℕ) → p < len → Runs io n (byte_to_sector io d (pos p)) v (sector_at v d (p / 512)) v
  unfolding byte_to_sector
  byte_to_sector-inside p h = rw (lt→ltb p (pos_part d.length) (omega (arith, part))) (
      index_to_sector-sector_at io n v d (bytes_to_sectors len) (p / 512) has.index (omega arith)
        has.bounded)

  pub byte_to_sector-outside :
      (p : ℕ) → len ≤ p → Runs io n (byte_to_sector io d (pos p)) v no_sector v
  unfolding byte_to_sector
  byte_to_sector-outside p h =
      let past : ltb p (pos_part d.length) ≡ false = ground (arith, part) in
      rw past (pure-Runs io n no_sector v)

  module _ (size offset : ℕ) where
    chunk_len : ℕ
    chunk_len = chunk_size (pos_part d.length) size offset

    none_read : chunk_len ≡ 0 → bytes_from v d offset (min size (len - offset)) ≡ []
    unfolding chunk_len bytes_from
    none_read e =
        ap (λ (m : ℕ). bytes_from v d offset m)
          (let m : min size (len - offset) ≡ 0 = ground (arith, part) in m)

    -- The bytes of one round, and of those behind it.
    chunk_read :
        bytes_from v d offset (min size (len - offset))
        ≡ slice (v (sector_at v d (offset / 512))) (offset % 512) chunk_len
          ++ bytes_from v d
              (offset + chunk_len)
              (min (size - chunk_len) (len - (offset + chunk_len)))
    unfolding chunk_len
    chunk_read =
        let chunk = chunk_size (pos_part d.length) size offset in
        let rest = min (size - chunk) (len - (offset + chunk)) in
        let whole : min size (len - offset) ≡ chunk + rest = ground (arith, part) in
        ap (bytes_from v d offset) whole
        ∙ bytes_from-add v d offset chunk rest
        ∙ ap (λ l. l ++ bytes_from v d (offset + chunk) rest)
            (bytes_from-slice v d offset (offset / 512) (offset % 512) chunk (omega arith)
              (ground arith))

  -- For a file of a length whose blocks can be indexed, with its index and its blocks on the disk,
  -- and with one round more than bytes are asked for: the loop of `inode_read_at` returns the bytes
  -- of the file from the position, as many as are asked for or as the file has there, and leaves
  -- every sector of the disk as it was.
  pub read_loop-bytes :
      (rounds size offset : ℕ)
      → size < rounds
      → (c : S) → io.Stands c n v
      → (c' : S) × (read_loop io rounds d size offset c
          ≡ some (bytes_from v d offset (min size (len - offset)), c'))
        × io.Stands c' n v
  unfolding read_loop chunk_len
  read_loop-bytes zero size offset h = absurd (omega arith)
  read_loop-bytes (suc rounds) size offset h =
      let chunk = chunk_size (pos_part d.length) size offset in
      let body = λ (sector : ℕ). if chunk == 0 then pure [] else (do
        b ← io.read sector
        rest ← read_loop io rounds d (size - chunk) (offset + chunk)
        pure (slice b (offset % 512) chunk ++ rest)) in
      elim (Bool-cases (size == 0)) [
        | inl done ↦ rw (done, none_read size offset (ground arith)) (pure-Runs io n [] v)
        | inr more ↦ rw more (elim (Bool-cases (chunk == 0)) [
          | inl past ↦
              >>=-Runs io n (byte_to_sector io d (pos offset)) body v v v no_sector
                (bytes_from v d offset (min size (len - offset)))
                (byte_to_sector-outside offset (ground (arith, part)))
                (rw (past, none_read size offset ((==_iff _ _).0 past)) (pure-Runs io n [] v))
          | inr inside ↦
              let q = offset / 512 in
              let s = sector_at v d q in
              let rest =
                bytes_from v d (offset + chunk) (min (size - chunk) (len - (offset + chunk))) in
              let more_bytes = slice (v s) (offset % 512) chunk ++ rest in
              rw (chunk_read size offset) (
                >>=-Runs io n (byte_to_sector io d (pos offset)) body v v v s more_bytes
                  (byte_to_sector-inside offset (ground (arith, part)))
                  (rw inside (
                    read_then-Runs io n s
                      (λ b. read_loop io rounds d (size - chunk) (offset + chunk) >>= λ rest.
                        pure (slice b (offset % 512) chunk ++ rest))
                      v v more_bytes (has.on_disk q (ground (arith, part)))
                      (>>=-Runs io n (read_loop io rounds d (size - chunk) (offset + chunk))
                        (λ rest. pure (slice (v s) (offset % 512) chunk ++ rest)) v v v rest
                        more_bytes
                        (read_loop-bytes rounds (size - chunk) (offset + chunk) (ground arith))
                        (pure-Runs io n more_bytes v)))))
        ])
      ]
