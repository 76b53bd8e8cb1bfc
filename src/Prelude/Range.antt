-- ===== src/Prelude/Range.antt =====
-- `for (i = lo; i < lo + n; i++) a[i] = f(a[i]);`, the loop that resets or fills slots.
use Prim.Native.Nat.{ℕ, zero, suc, ◌+◌, ◌≤◌, ◌<◌}
use mathlib.Core.Path.{◌≡◌, refl, sym, ap}
use mathlib.Core.Logic.{◌≢◌, ◌⊎◌, inl, inr}
use mathlib.Core.Bool.{Bool, true, false, ◌&&◌}
use native.Mathlib.Omega.{arith}
use mcgill_ecse_427_operatin.Prelude.Tests.{ltb, leb, if◌then◌else◌}
use mcgill_ecse_427_operatin.Prelude.Scan.{Array, update}

-- `lo ≤ j < lo + n`.
abbrev pub in_range : ℕ → ℕ → ℕ → Bool
in_range lo n j = leb lo j && ltb j (lo + n)

module _ {ℓ} {A : Type ℓ} where
  unfoldable pub map_range : ℕ → ℕ → (A → A) → Array A → Array A
  map_range lo zero f a = a
  map_range lo (suc n) f a = map_range (lo + 1) n f (update a lo (f (a lo)))

  pub map_range-at :
      (lo n : ℕ) (f : A → A) (a : Array A) (j : ℕ)
      → map_range lo n f a j ≡ (if in_range lo n j then f (a j) else a j)
  unfolding map_range
  map_range-at lo zero f a j = ground arith
  map_range-at lo (suc n) f a j =
      ground (arith, map_range-at (lo + 1) n f (update a lo (f (a lo))) j)

  -- The two cases, with the order as numbers.
  pub map_range-inside :
      (lo n : ℕ) (f : A → A) (a : Array A) (j : ℕ)
      → lo ≤ j
      → j < lo + n
      → map_range lo n f a j ≡ f (a j)
  map_range-inside lo n f a j h h' = ground (arith, map_range-at lo n f a j)

  pub map_range-outside :
      (lo n : ℕ) (f : A → A) (a : Array A) (j : ℕ)
      → (j < lo) ⊎ (lo + n ≤ j)
      → map_range lo n f a j ≡ a j
  map_range-outside lo n f a j h = ground (arith, map_range-at lo n f a j)

-- The number of indices of a range that pass a test.
unfoldable pub count_range : (ℕ → Bool) → ℕ → ℕ → ℕ
count_range test lo zero = 0
count_range test lo (suc n) = (if test lo then 1 else 0) + count_range test (lo + 1) n

pub count_range-le : (test : ℕ → Bool) (lo n : ℕ) → count_range test lo n ≤ n
unfolding count_range
count_range-le test lo zero = omega arith
count_range-le test lo (suc n) = ground (arith, count_range-le test (lo + 1) n)

lo_cases : (lo i : ℕ) → lo ≤ i → (lo ≡ i) ⊎ (lo + 1 ≤ i)
lo_cases lo i h = ground arith

above : (lo i l : ℕ) → lo ≡ i → lo + 1 ≤ l → i ≢ l
above lo i l e h e' = omega arith

pub count_range-congr :
    (t u : ℕ → Bool) (lo n : ℕ)
    → ((l : ℕ) → lo ≤ l → l < lo + n → t l ≡ u l)
    → count_range t lo n ≡ count_range u lo n
unfolding count_range
count_range-congr t u lo zero h = refl
count_range-congr t u lo (suc n) h =
    ground
      (arith, h lo, count_range-congr t u (lo + 1) n (λ l a b. h l (omega arith) (omega arith)))

-- A test that fails at one more index of the range counts one less.
pub count_range-drop :
    (t u : ℕ → Bool) (lo n i : ℕ)
    → lo ≤ i
    → i < lo + n
    → t i ≡ true
    → u i ≡ false
    → ((l : ℕ) → i ≢ l → u l ≡ t l)
    → count_range t lo n ≡ count_range u lo n + 1
unfolding count_range
count_range-drop t u lo zero i h h' on off same = absurd (omega arith)
count_range-drop t u lo (suc n) i h h' on off same = elim (lo_cases lo i h) [
  | inl e ↦
      let rest = count_range-congr t u (lo + 1) n (λ l a b. sym (same l (above lo i l e a))) in
      ground (arith, rest, ap t e, ap u e)
  | inr more ↦
      ground (arith, same lo, count_range-drop t u (lo + 1) n i more (omega arith) on off same)
]

pub count_range-misses :
    (t : ℕ → Bool) (lo n : ℕ)
    → ((l : ℕ) → lo ≤ l → l < lo + n → t l ≡ false)
    → count_range t lo n ≡ 0
unfolding count_range
count_range-misses t lo zero h = refl
count_range-misses t lo (suc n) h =
    ground (arith, h lo, count_range-misses t (lo + 1) n (λ l a b. h l (omega arith) (omega arith)))
