-- ===== src/A3/Disk/Transfer/Layout.antt =====
-- A file whose blocks have sectors of their own: writing one of them moves no block and changes no other.
use mcgill_ecse_427_operatin.Prelude.{
  ℕ, ◌+◌, ◌-◌, ◌*◌, ◌/◌, ◌%◌, ◌<◌, ◌≡◌, ◌≢◌, inl, inr, sym, ap, ◌∙◌, true, Bool-cases, ==_iff, ◌==◌,
  ltb, lt→ltb, if◌then◌else◌, Array, update, update_self, update_ne, arith,
}
use mcgill_ecse_427_operatin.A3.Disk.Inode.{Bytes, block_word, InodeDisk, bytes_to_sectors}
use mcgill_ecse_427_operatin.A3.Disk.Inode.Index.{sector_at}
use mcgill_ecse_427_operatin.A3.Disk.Transfer.Reading.{byte_at, HasBytes}

-- The sectors of the blocks differ from one another and from those of the index.
pub record HasLayout (n : ℕ) (v : Array Bytes) (d : InodeDisk) (len : ℕ) : Type 0 where
  pub bytes : HasBytes n v d len
  pub distinct :
      (i j : ℕ)
      → i < bytes_to_sectors len
      → j < bytes_to_sectors len
      → sector_at v d i ≡ sector_at v d j
      → i ≡ j
  pub not_indirect :
      (i : ℕ)
      → i < bytes_to_sectors len
      → 123 < bytes_to_sectors len
      → sector_at v d i ≢ d.indirect_block
  pub not_doubly :
      (i : ℕ)
      → i < bytes_to_sectors len
      → 251 < bytes_to_sectors len
      → sector_at v d i ≢ d.doubly_indirect_block
  pub not_second :
      (i j : ℕ)
      → i < bytes_to_sectors len
      → 251 + 128 * j < bytes_to_sectors len
      → sector_at v d i ≢ block_word (v d.doubly_indirect_block) j

module _ (n : ℕ) (v : Array Bytes) (d : InodeDisk) (len : ℕ) (has : HasLayout n v d len) (q : ℕ)
    (in_file : q < bytes_to_sectors len) (b : Bytes) where
  abbrev rewritten : Array Bytes
  rewritten = update v (sector_at v d q) b

  doubly-rewritten :
      251 < bytes_to_sectors len → rewritten d.doubly_indirect_block ≡ v d.doubly_indirect_block
  doubly-rewritten far =
      update_ne v (sector_at v d q) b d.doubly_indirect_block (has.not_doubly q in_file far)

  pub sector_at-rewritten :
      (i : ℕ) → i < bytes_to_sectors len → sector_at rewritten d i ≡ sector_at v d i
  unfolding sector_at
  sector_at-rewritten i h = elim (Bool-cases (ltb i 123)) [
    | inl direct ↦ rw direct
    | inr far ↦ elim (Bool-cases (ltb i 251)) [
      | inl single ↦
          rw (far, single)
            (ap (λ c. block_word c (i - 123))
              (update_ne v (sector_at v d q) b d.indirect_block
                (has.not_indirect q in_file (ground arith))))
      | inr double ↦
          let same = doubly-rewritten (ground arith) in
          let second = block_word (v d.doubly_indirect_block) ((i - 251) / 128) in
          let low : ltb i 16635 ≡ true = lt→ltb i 16635 (omega (arith, has.bytes.bounded)) in
          rw (far, double, low)
            (ap (λ c. block_word (rewritten (block_word c ((i - 251) / 128))) ((i - 251) % 128))
                same
              ∙ ap (λ c. block_word c ((i - 251) % 128))
                  (update_ne v (sector_at v d q) b second
                    (has.not_second q ((i - 251) / 128) in_file (ground arith))))
    ]
  ]

  second-rewritten :
      (j : ℕ)
      → 251 + 128 * j < bytes_to_sectors len
      → block_word (rewritten d.doubly_indirect_block) j ≡ block_word (v d.doubly_indirect_block) j
  second-rewritten j h = ap (λ c. block_word c j) (doubly-rewritten (omega arith))

  pub rewritten-HasLayout : HasLayout n rewritten d len
  rewritten-HasLayout = record {
    bytes = record {
      length = has.bytes.length;
      bounded = has.bytes.bounded;
      index = record {
        indirect = has.bytes.index.indirect;
        doubly = has.bytes.index.doubly;
        second = λ j h. rw (second-rewritten j h) (has.bytes.index.second j h);
      };
      on_disk = λ i h. rw (sector_at-rewritten i h) (has.bytes.on_disk i h);
    };
    distinct = λ i j h h' same.
        has.distinct i j h h' (sym (sector_at-rewritten i h) ∙ same ∙ sector_at-rewritten j h');
    not_indirect = λ i h far same. has.not_indirect i h far (sym (sector_at-rewritten i h) ∙ same);
    not_doubly = λ i h far same. has.not_doubly i h far (sym (sector_at-rewritten i h) ∙ same);
    not_second = λ i j h far same.
        has.not_second i j h far (sym (sector_at-rewritten i h) ∙ same ∙ second-rewritten j far);
  }

  pub byte_at-rewritten :
      (p : ℕ)
      → p < len
      → byte_at rewritten d p ≡ (if p / 512 == q then b (p % 512) else byte_at v d p)
  byte_at-rewritten p h =
      ap (λ s. rewritten s (p % 512)) (sector_at-rewritten (p / 512) (omega arith))
      ∙ elim (Bool-cases (p / 512 == q)) [
        | inl same ↦
            rw (same, (==_iff (p / 512) q).0 same)
              (ap (λ c. c (p % 512)) (update_self v (sector_at v d q) b))
        | inr other ↦ rw other (
            ap (λ c. c (p % 512))
              (update_ne v (sector_at v d q) b (sector_at v d (p / 512))
                (λ e. ground (arith, has.distinct q (p / 512) in_file (omega arith) e))))
      ]
