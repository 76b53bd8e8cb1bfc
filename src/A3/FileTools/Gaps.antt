-- ===== src/A3/FileTools/Gaps.antt =====
-- Which files count as fragmented.
use mcgill_ecse_427_operatin.Prelude.{
  ℕ, zero, suc, ◌+◌, ◌-◌, ◌/◌, ◌≤◌, ◌<◌, ◌≡◌, ◌↔◌, inl, inr, Bool, true, false, ltb, if◌then◌else◌,
  ◌⊎◌, refl, subst, Array, arith,
}
use mcgill_ecse_427_operatin.A3.FileTools.{sector_size, sector_gap, gap_from, is_fragmented}

-- The second sector is the first or one of the three behind it.
abbrev IsNear : ℕ → ℕ → Type 0
IsNear a b = (a ≤ b) × (b ≤ a + 3)

-- The sector numbers that a disk can have.
abbrev IsSector : ℕ → Type 0
IsSector a = a < 2147483648

gap_iff : (a b : ℕ) → IsSector a → IsSector b → (ltb 3 (sector_gap b a) ≡ false) ↔ IsNear a b
gap_iff a b h k = ground arith

or_false : (b r : Bool) → ((if b then true else r) ≡ false) ↔ ((b ≡ false) × (r ≡ false))
or_false b r = ground arith

first_cases : (i j : ℕ) → i ≤ j → (i ≡ j) ⊎ (i + 1 ≤ j)
first_cases i j h = ground arith

-- The blocks from `i` for `n` are each near the one before.
abbrev AllNear : Array ℕ → ℕ → ℕ → Type 0
AllNear sectors i n = (j : ℕ) → i ≤ j → j < i + n → IsNear (sectors (j - 1)) (sectors j)

module _ (sectors : Array ℕ) (small : (j : ℕ) → IsSector (sectors j)) where
  gap_from-AllNear : (i n : ℕ) → gap_from sectors i n ≡ false → AllNear sectors i n
  unfolding gap_from
  gap_from-AllNear i zero e = λ j a b. absurd (omega arith)
  gap_from-AllNear i (suc n) e =
      let both =
        (or_false (ltb 3 (sector_gap (sectors i) (sectors (i - 1)))) (gap_from sectors (i + 1) n)).0
          e in
      let near = (gap_iff (sectors (i - 1)) (sectors i) (small (i - 1)) (small i)).0 both.0 in
      λ j a b. elim (first_cases i j a) [
        | inl same ↦ subst (λ l. IsNear (sectors (l - 1)) (sectors l)) same near
        | inr later ↦ gap_from-AllNear (i + 1) n both.1 j later (omega arith)
      ]

  AllNear-gap_from : (i n : ℕ) → AllNear sectors i n → gap_from sectors i n ≡ false
  unfolding gap_from
  AllNear-gap_from i zero near = refl
  AllNear-gap_from i (suc n) near =
      (or_false (ltb 3 (sector_gap (sectors i) (sectors (i - 1)))) (gap_from sectors (i + 1) n)).1 (
        (gap_iff (sectors (i - 1)) (sectors i) (small (i - 1)) (small i)).1
            (near i (omega arith) (omega arith)),
        AllNear-gap_from (i + 1) n (λ j a b. near j (omega arith) (omega arith)),
      )

  -- Where all sectors are below 2 ^ 31, a file does not count as fragmented if and only if each of
  -- its full blocks but the first is at, or at most three sectors behind, the block before it; a
  -- block in front of the one before it makes the file fragmented.
  is_fragmented_iff :
      (file_length : ℕ)
      → (is_fragmented file_length sectors ≡ false)
        ↔ AllNear sectors 1 (file_length / sector_size - 1)
  unfolding is_fragmented
  is_fragmented_iff file_length = (
    gap_from-AllNear 1 (file_length / sector_size - 1),
    AllNear-gap_from 1 (file_length / sector_size - 1),
  )
