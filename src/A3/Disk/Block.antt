-- ===== src/A3/Disk/Block.antt =====
-- a3/fs/block.c: a device of sectors behind the two functions of its driver. The driver of a3/fs/ide.c reads
-- and writes the file of the disk at the offset of a sector: that file is the state `D`, and what the
-- system's `lseek`, `read` and `write` promise are the laws.
use mcgill_ecse_427_operatin.Prelude.{ℕ, ◌+◌, ◌%◌, ◌≡◌, ◌≢◌, ltb, if◌then◌else◌, Option, none, some}

infixl 5 ◌>>=◌
-- `none` is a panic, or an assertion that fails.
abbrev pub ◌>>=◌ : {A C : Type 0} → Option A → (A → Option C) → Option C
none >>= f = none
some a >>= f = f a

-- `struct block_operations`: a sector that was written is read back, the others stay.
pub record Driver (D B : Type 0) : Type 0 where
  pub read : ℕ → D → B
  pub write : ℕ → B → D → D
  pub read-write_self : (s : ℕ) (b : B) (d : D) → read s (write s b d) ≡ b
  pub read-write_ne : (s t : ℕ) (b : B) (d : D) → s ≢ t → read t (write s b d) ≡ read t d

-- The state of the driver, the size in sectors, and the two counters of 64 bits.
pub record Block (D : Type 0) : Type 0 where
  pub aux : D
  pub size : ℕ
  pub read_cnt : ℕ
  pub write_cnt : ℕ

abbrev pub count_up : ℕ → ℕ
count_up n = (n + 1) % 18446744073709551616

module _ {D B : Type 0} (ops : Driver D B) where
  -- With `check_sector`, which panics past the end of the device.
  unfoldable pub block_read : ℕ → Block D → Option (B × Block D)
  block_read sector block =
      if ltb sector block.size
      then some (ops.read sector block.aux, record block { read_cnt = count_up block.read_cnt })
      else none

  unfoldable pub block_write : ℕ → B → Block D → Option (Block D)
  block_write sector buffer block =
      if ltb sector block.size
      then some (record block {
        aux = ops.write sector buffer block.aux;
        write_cnt = count_up block.write_cnt;
      })
      else none
