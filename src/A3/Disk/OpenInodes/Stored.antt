-- ===== src/A3/Disk/OpenInodes/Stored.antt =====
-- The words of a block of numbers, as they are written and read.
use mcgill_ecse_427_operatin.Prelude.{ℕ, ◌+◌, ◌*◌, ◌/◌, ◌%◌, ◌<◌, ◌≡◌, Array, arith}
use mcgill_ecse_427_operatin.A3.Disk.Inode.{block_word}
use mcgill_ecse_427_operatin.A3.Disk.Reserve.{words_block}

pub block_word-words_block :
    (w : Array ℕ) (i : ℕ) → w i < 4294967296 → block_word (words_block w) i ≡ w i
unfolding block_word words_block
block_word-words_block w i h =
    let r0 : (4 * i) / 4 ≡ i = omega arith in
    let r1 : (4 * i + 1) / 4 ≡ i = omega arith in
    let r2 : (4 * i + 2) / 4 ≡ i = omega arith in
    let r3 : (4 * i + 3) / 4 ≡ i = omega arith in
    let c0 : (4 * i) % 4 ≡ 0 = omega arith in
    let c1 : (4 * i + 1) % 4 ≡ 1 = omega arith in
    let c2 : (4 * i + 2) % 4 ≡ 2 = omega arith in
    let c3 : (4 * i + 3) % 4 ≡ 3 = omega arith in rw (r0, r1, r2, r3, c0, c1, c2, c3) (omega arith)
