-- ===== src/A3/Disk/Transfer/Writing.antt =====
-- Writing within a file changes the bytes that are written and no others.
use mcgill_ecse_427_operatin.Prelude.{
  ℕ, zero, suc, ◌+◌, ◌-◌, ◌/◌, ◌%◌, ◌≤◌, ◌<◌, ◌≡◌, ◌≢◌, inl, inr, refl, sym, ap, ◌∙◌, true, false,
  ◌&&◌, ◌||◌, Bool-cases, ==_iff, ◌==◌, ltb, if◌then◌else◌, Array, update, update_ne, in_range,
  arith,
}
use mcgill_ecse_427_operatin.Prelude.Int.{pos, pos_part}
use mcgill_ecse_427_operatin.A3.Disk.Sectors.{
  ◌>>◌, pure, Sectors, Runs, pure-Runs, write-Runs, read_then-Runs, >>=-Runs,
}
use mcgill_ecse_427_operatin.A3.Disk.Inode.{
  Bytes, InodeDisk, min, bytes_to_sectors, no_sector, byte_to_sector,
}
use mcgill_ecse_427_operatin.A3.Disk.Inode.Index.{sector_at}
use mcgill_ecse_427_operatin.A3.Disk.Transfer.{chunk_size, overlay, write_chunk, write_loop}
use mcgill_ecse_427_operatin.A3.Disk.Transfer.Reading.{
  byte_at, byte_to_sector-inside, byte_to_sector-outside,
}
use mcgill_ecse_427_operatin.A3.Disk.Transfer.Layout.{
  HasLayout, sector_at-rewritten, rewritten-HasLayout, byte_at-rewritten,
}

whole_sector :
    (ofs chunk : ℕ)
    → (ofs == 0) && (chunk == 512) ≡ false
    → ofs + chunk ≤ 512
    → 0 < chunk
    → ltb 0 ofs || ltb chunk (512 - ofs) ≡ true
whole_sector ofs chunk e h more = ground arith

-- The sector after a chunk was put into it.
merged : Bytes → ℕ → ℕ → Array ℕ → ℕ → Bytes
merged b ofs chunk buffer from =
    if (ofs == 0) && (chunk == 512)
    then (λ i. buffer (from + i))
    else overlay b ofs chunk buffer from

merged-at :
    (b : Bytes) (ofs chunk : ℕ) (buffer : Array ℕ) (from i : ℕ)
    → i < 512
    → merged b ofs chunk buffer from i ≡ overlay b ofs chunk buffer from i
unfolding merged
merged-at b ofs chunk buffer from i h = ground arith

module _ {S : Type 0} (io : Sectors S Bytes) (n : ℕ) where
  write_chunk-merged :
      (v : Array Bytes) (s ofs chunk : ℕ) (buffer : Array ℕ) (from : ℕ)
      → s < n
      → ofs + chunk ≤ 512
      → 0 < chunk
      → Runs io n
          (write_chunk io s ofs chunk buffer from)
          v
          tt
          (update v s (merged (v s) ofs chunk buffer from))
  unfolding write_chunk merged
  write_chunk-merged v s ofs chunk buffer from h fits more =
      elim (Bool-cases ((ofs == 0) && (chunk == 512))) [
        | inl whole ↦ rw whole (write-Runs io n s (λ i. buffer (from + i)) v h)
        | inr part ↦
            rw (part, whole_sector ofs chunk part fits more)
              (read_then-Runs io n s (λ b. io.write s (overlay b ofs chunk buffer from)) v
                (update v s (overlay (v s) ofs chunk buffer from)) tt h
                (write-Runs io n s (overlay (v s) ofs chunk buffer from) v h))
      ]

  module _ (d : InodeDisk) (len : ℕ) (buffer : Array ℕ) where
    -- The `m` bytes from the position are those of the buffer from `from`, all other bytes of the file
    -- and all other sectors of the disk are as they were, and no block has moved.
    pub record Written (v v' : Array Bytes) (offset m from : ℕ) : Type 0 where
      pub layout : HasLayout n v' d len
      pub bytes :
          (p : ℕ)
          → p < len
          → byte_at v' d p
            ≡ (if in_range offset m p then buffer (from + (p - offset)) else byte_at v d p)
      pub moved : (i : ℕ) → i < bytes_to_sectors len → sector_at v' d i ≡ sector_at v d i
      pub others : (t : ℕ) → ((i : ℕ) → i < bytes_to_sectors len → sector_at v d i ≢ t) → v' t ≡ v t

    Written-none :
        (v : Array Bytes) (offset m from : ℕ)
        → HasLayout n v d len
        → m ≡ 0
        → Written v v offset m from
    Written-none v offset m from has e = record {
      layout = has;
      bytes = λ p h. ground (arith, e);
      moved = λ i h. refl;
      others = λ t h. refl;
    }

    module _ (v : Array Bytes) (has : HasLayout n v d len) (offset chunk from : ℕ)
        (inside : offset < len) (fits : offset % 512 + chunk ≤ 512) where
      q : ℕ
      q = offset / 512

      q-inside : q < bytes_to_sectors len
      unfolding q
      q-inside = omega arith

      block : Bytes
      block = merged (v (sector_at v d q)) (offset % 512) chunk buffer from

      after : Array Bytes
      after = update v (sector_at v d q) block

      chunk_bytes :
          (p : ℕ)
          → (if p / 512 == q then block (p % 512) else byte_at v d p)
            ≡ (if in_range offset chunk p then buffer (from + (p - offset)) else byte_at v d p)
      unfolding q block
      chunk_bytes p = elim (Bool-cases (p / 512 == offset / 512)) [
        | inl same ↦
            let here : p / 512 ≡ offset / 512 = (==_iff _ _).0 same in
            ground (
              arith,
              merged-at (v (sector_at v d q)) (offset % 512) chunk buffer from (p % 512),
              ap (λ j. v (sector_at v d j) (p % 512)) here,
            )
        | inr other ↦ ground arith
      ]

      chunk-Written : Written v after offset chunk from
      unfolding q block after
      chunk-Written = record {
        layout = rewritten-HasLayout n v d len has q q-inside block;
        bytes = λ p h. byte_at-rewritten n v d len has q q-inside block p h ∙ chunk_bytes p;
        moved = sector_at-rewritten n v d len has q q-inside block;
        others = λ t out. update_ne v (sector_at v d q) block t (out q q-inside);
      }

    Written-then :
        (v v1 v2 : Array Bytes) (offset chunk rest m from : ℕ)
        → m ≡ chunk + rest
        → Written v v1 offset chunk from
        → Written v1 v2 (offset + chunk) rest (from + chunk)
        → Written v v2 offset m from
    Written-then v v1 v2 offset chunk rest m from e f g = record {
      layout = g.layout;
      bytes = λ p h. ground (arith, e, f.bytes p h, g.bytes p h);
      moved = λ i h. g.moved i h ∙ f.moved i h;
      others =
          λ t out. g.others t (λ i h same. out i h (sym (f.moved i h) ∙ same)) ∙ f.others t out;
    }

    -- With one round more than bytes are to be written, on a file whose blocks have sectors of their own,
    -- the loop writes the bytes that lie within the file and returns their number with those before.
    pub write_loop-Written :
        (rounds : ℕ) (v : Array Bytes) (size offset from : ℕ)
        → size < rounds
        → HasLayout n v d len
        → (v' : Array Bytes) × Runs io n
            (write_loop io rounds d buffer size offset from)
            v
            (from + min size (len - offset))
            v'
          × Written v v' offset (min size (len - offset)) from
    unfolding write_loop after block q
    write_loop-Written zero v size offset from h has = absurd (omega arith)
    write_loop-Written (suc rounds) v size offset from h has =
        let part : pos_part d.length ≡ len = ap pos_part has.bytes.length in
        let chunk = chunk_size (pos_part d.length) size offset in
        let m = min size (len - offset) in
        let body = λ (sector : ℕ). if chunk == 0 then pure from else (do
          write_chunk io sector (offset % 512) chunk buffer from
          write_loop io rounds d buffer (size - chunk) (offset + chunk) (from + chunk)) in
        elim (Bool-cases (size == 0)) [
          | inl done ↦
              let nothing : m ≡ 0 = ground arith in
              let same : from + m ≡ from = omega arith in
              (v, rw (done, same) (pure-Runs io n from v), Written-none v offset m from has nothing)
          | inr more ↦ elim (Bool-cases (chunk == 0)) [
            | inl past ↦
                let nothing : m ≡ 0 = ground (arith, part) in
                let same : from + m ≡ from = omega arith in
                (
                  v,
                  rw (more, same)
                      (>>=-Runs io n (byte_to_sector io d (pos offset)) body v v v no_sector from
                        (byte_to_sector-outside io n v d len has.bytes offset
                          (ground (arith, part)))
                        (rw past (pure-Runs io n from v))),
                  Written-none v offset m from has nothing,
                )
            | inr inside ↦
                let start : offset < len = ground (arith, part) in
                let fits : offset % 512 + chunk ≤ 512 = ground arith in
                let s = sector_at v d (offset / 512) in
                let v1 = after v has offset chunk from start fits in
                let first = chunk-Written v has offset chunk from start fits in
                let (v', rest, then_) =
                  write_loop-Written rounds v1 (size - chunk) (offset + chunk) (from + chunk)
                    (ground arith) first.layout in
                let count : from + chunk + min (size - chunk) (len - (offset + chunk)) ≡ from + m =
                  ground (arith, part) in
                (
                  v',
                  rw (more, ← count)
                      (>>=-Runs io n (byte_to_sector io d (pos offset)) body v v v' s
                        (from + chunk + min (size - chunk) (len - (offset + chunk)))
                        (byte_to_sector-inside io n v d len has.bytes offset start)
                        (rw inside (
                          >>=-Runs io n (write_chunk io s (offset % 512) chunk buffer from)
                            (λ _.
                              write_loop io rounds d buffer (size - chunk) (offset + chunk)
                                (from + chunk))
                            v v1 v' tt (from + chunk + min (size - chunk) (len - (offset + chunk)))
                            (write_chunk-merged v s (offset % 512) chunk buffer from
                              (has.bytes.on_disk (offset / 512) (omega arith)) fits (ground arith))
                            rest))),
                  Written-then v v1 v' offset chunk (min (size - chunk) (len - (offset + chunk))) m
                      from (ground (arith, part)) first then_,
                )
          ]
        ]
