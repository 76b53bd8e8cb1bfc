-- ===== src/A3/Disk/Inode/Words.antt =====
-- The words that `get_inode_data_sectors` copies, and the sector of the block at each place.
use mcgill_ecse_427_operatin.Prelude.{
  ℕ, zero, suc, ◌+◌, ◌-◌, ◌*◌, ◌/◌, ◌%◌, ◌≤◌, ◌<◌, ◌≡◌, ◌⊎◌, inl, inr, refl, sym, ap, ◌∙◌, true,
  ◌==◌, Bool-cases, ltb, ltb→lt, if◌then◌else◌, Array, update, in_range, arith,
}
use mcgill_ecse_427_operatin.A3.Disk.Inode.{
  Bytes, block_word, InodeDisk, min, div_round_up, copy_words,
}
use mcgill_ecse_427_operatin.A3.Disk.Inode.Index.{max_blocks, sector_at}

copy_words-at :
    (n from cur : ℕ) (f : ℕ → ℕ) (out : Array ℕ) (j : ℕ)
    → copy_words n from cur f out j ≡ (if in_range cur n j then f (from + (j - cur)) else out j)
unfolding copy_words
copy_words-at zero from cur f out j = ground arith
copy_words-at (suc n) from cur f out j =
    ground (arith, copy_words-at n (from + 1) (cur + 1) f (update out cur (f from)) j)

-- What the rounds for the doubly indirect block put into the array.
unfoldable pub doubly_words : Array Bytes → ℕ → ℕ → ℕ → ℕ → Bytes → Array ℕ → Array ℕ
doubly_words v zero i left cur b out = out
doubly_words v (suc n) i left cur b out =
    let subsize = min left 128 in
    doubly_words v n (i + 1) (left - subsize) (cur + subsize) b
      (copy_words subsize 0 cur (block_word (v (block_word b i))) out)

word_at : Array Bytes → Bytes → ℕ → ℕ
word_at v b m = block_word (v (block_word b (m / 128))) (m % 128)

doubly_words-outside :
    (v : Array Bytes) (n i left cur : ℕ) (b : Bytes) (out : Array ℕ) (j : ℕ)
    → (j < cur) ⊎ (cur + left ≤ j)
    → doubly_words v n i left cur b out j ≡ out j
unfolding doubly_words
doubly_words-outside v zero i left cur b out j h = refl
doubly_words-outside v (suc n) i left cur b out j h =
    let subsize = min left 128 in
    let words = block_word (v (block_word b i)) in
    doubly_words-outside v n (i + 1) (left - subsize) (cur + subsize) b
      (copy_words subsize 0 cur words out) j (ground arith)
    ∙ ground (arith, copy_words-at subsize 0 cur words out j)

word_at-first :
    (v : Array Bytes) (b : Bytes) (i m : ℕ)
    → m < 128
    → word_at v b (128 * i + m) ≡ block_word (v (block_word b i)) m
unfolding word_at
word_at-first v b i m h =
    let row : (128 * i + m) / 128 ≡ i = omega arith in
    let column : (128 * i + m) % 128 ≡ m = omega arith in rw (row, column)

doubly_words-inside :
    (v : Array Bytes) (n i left cur : ℕ) (b : Bytes) (out : Array ℕ) (j : ℕ)
    → left ≤ 128 * n
    → cur ≤ j
    → j < cur + left
    → doubly_words v n i left cur b out j ≡ word_at v b (128 * i + (j - cur))
unfolding doubly_words
doubly_words-inside v zero i left cur b out j h lo hi = absurd (omega arith)
doubly_words-inside v (suc n) i left cur b out j h lo hi =
    let subsize = min left 128 in
    let words = block_word (v (block_word b i)) in
    elim (Bool-cases (ltb j (cur + subsize))) [
      | inl now ↦
          doubly_words-outside v n (i + 1) (left - subsize) (cur + subsize) b
            (copy_words subsize 0 cur words out) j (inl (ltb→lt _ _ now))
          ∙ ground (arith, copy_words-at subsize 0 cur words out j)
          ∙ sym (word_at-first v b i (j - cur) (ground arith))
      | inr later ↦
          doubly_words-inside v n (i + 1) (left - subsize) (cur + subsize) b
            (copy_words subsize 0 cur words out) j (ground arith) (ground arith) (ground arith)
          ∙ ap (word_at v b) (ground arith)
    ]

unfoldable pub single_words : Array Bytes → InodeDisk → ℕ → Array ℕ → Array ℕ
single_words v d k out =
    let l = min k 123 in
    copy_words (min (k - l) 128) 0 l (block_word (v d.indirect_block))
      (copy_words l 0 0 d.direct_blocks out)

unfoldable pub all_words : Array Bytes → InodeDisk → ℕ → Array ℕ → Array ℕ
all_words v d k out =
    let l = min k 123 in
    let l' = min (k - l) 128 in
    let l'' = min (k - l - l') 16384 in
    doubly_words v (div_round_up l'' 128) 0 l'' (l + l') (v d.doubly_indirect_block)
      (single_words v d k out)

single_words-at :
    (v : Array Bytes) (d : InodeDisk) (k : ℕ) (out : Array ℕ) (i : ℕ)
    → i < k
    → i < 251
    → single_words v d k out i ≡ sector_at v d i
unfolding single_words sector_at
single_words-at v d k out i h below =
    let l = min k 123 in
    ground (
      arith,
      copy_words-at (min (k - l) 128) 0 l (block_word (v d.indirect_block))
          (copy_words l 0 0 d.direct_blocks out) i,
      copy_words-at l 0 0 d.direct_blocks out i,
    )

word_at-far :
    (v : Array Bytes) (d : InodeDisk) (m i : ℕ)
    → m ≡ i - 251
    → 251 ≤ i
    → i < max_blocks
    → word_at v (v d.doubly_indirect_block) m ≡ sector_at v d i
unfolding word_at sector_at
word_at-far v d m i e lo hi = ground (arith, ap (λ k. k / 128) e, ap (λ k. k % 128) e)

pub all_words-at :
    (v : Array Bytes) (d : InodeDisk) (k : ℕ) (out : Array ℕ) (i : ℕ)
    → i < k
    → k ≤ max_blocks
    → all_words v d k out i ≡ sector_at v d i
unfolding all_words
all_words-at v d k out i h max =
    let l = min k 123 in
    let l' = min (k - l) 128 in
    let l'' = min (k - l - l') 16384 in
    elim (Bool-cases (ltb i 251)) [
      | inl near ↦
          doubly_words-outside v (div_round_up l'' 128) 0 l'' (l + l') (v d.doubly_indirect_block)
            (single_words v d k out) i (ground arith)
          ∙ single_words-at v d k out i h (ltb→lt _ _ near)
      | inr far ↦
          doubly_words-inside v (div_round_up l'' 128) 0 l'' (l + l') (v d.doubly_indirect_block)
            (single_words v d k out) i (ground arith) (ground arith) (ground arith)
          ∙ word_at-far v d (128 * 0 + (i - (l + l'))) i (ground arith) (ground arith) (omega arith)
    ]

pub copy_words-none :
    (l from cur : ℕ) (f : ℕ → ℕ) (out : Array ℕ) → l ≡ 0 → copy_words l from cur f out ≡ out
unfolding copy_words
copy_words-none l from cur f out e = ap (λ m. copy_words m from cur f out) e

pub doubly_words-none :
    (v : Array Bytes) (l cur : ℕ) (b : Bytes) (out : Array ℕ)
    → l ≡ 0
    → doubly_words v (div_round_up l 128) 0 l cur b out ≡ out
unfolding doubly_words
doubly_words-none v l cur b out e = ap (λ m. doubly_words v (div_round_up m 128) 0 m cur b out) e

-- No block is left behind the three kinds.
pub none_left :
    (k : ℕ)
    → k ≤ max_blocks
    → (k - min k 123 - min (k - min k 123) 128 - min (k - min k 123 - min (k - min k 123) 128) 16384
        == 0)
      ≡ true
none_left k h = ground arith
