-- ===== src/A3/Memory/Frames.antt =====
-- The frame store of a3: `frame_alloc` finds the first three free slots in a row.
use mcgill_ecse_427_operatin.Prelude.{
  ℕ, ◌+◌, ◌≤◌, ◌<◌, ◌≡◌, refl, true, false, Option, none, some, CString, Array, arith, inl, inr,
  ◌⊎◌, scan-cases, map_range-inside, map_range-outside, str_eq_refl,
}
use mcgill_ecse_427_operatin.VarStore.Slots.{none_text}
use mcgill_ecse_427_operatin.A3.Memory.{
  Slot, frame_size, is_free, free_slot, clear_frame, fits, occupy, frame_alloc,
}

not_less : (j i : ℕ) → ¬ (i < j) → j ≤ i
not_less j i h = ground arith

module _ (frame_store_size var_store_size : ℕ) where
  -- The three slots from `i` lie in the frame store and are free.
  pub record IsFreeFrame (m : Array Slot) (i : ℕ) : Type 0 where
    pub inside : i + frame_size ≤ frame_store_size
    pub free : (j : ℕ) → i ≤ j → j < i + frame_size → is_free m j ≡ true

  fits-parts :
      (m : Array Slot) (i : ℕ)
      → fits frame_store_size var_store_size m i ≡ true
      → (i + frame_size ≤ frame_store_size)
        × (is_free m i ≡ true)
        × (is_free m (i + 1) ≡ true)
        × (is_free m (i + 1 + 1) ≡ true)
  unfolding fits
  fits-parts m i h = ground arith

  three_cases : (i j : ℕ) → i ≤ j → j < i + frame_size → (j ≡ i) ⊎ ((j ≡ i + 1) ⊎ (j ≡ i + 1 + 1))
  three_cases i j a b = ground arith

  fits-IsFreeFrame :
      (m : Array Slot) (i : ℕ) → fits frame_store_size var_store_size m i ≡ true → IsFreeFrame m i
  fits-IsFreeFrame m i h =
      let parts = fits-parts m i h in
      record {
        inside = parts.0;
        free = λ j a b. elim (three_cases i j a b) [
          | inl e ↦ rw e parts.1
          | inr (inl e) ↦ rw e parts.2
          | inr (inr e) ↦ rw e parts.3
        ];
      }

  IsFreeFrame-fits :
      (m : Array Slot) (i : ℕ) → IsFreeFrame m i → fits frame_store_size var_store_size m i ≡ true
  unfolding fits
  IsFreeFrame-fits m i f = ground (
    arith,
    f.inside,
    f.free i (omega arith) (omega arith),
    f.free (i + 1) (omega arith) (omega arith),
    f.free (i + 1 + 1) (omega arith) (omega arith),
  )

  -- What `frame_alloc` did: it took the first free frame, or there is none.
  pub data Allocation (pid : CString) (m : Array Slot) : Option (ℕ × Array Slot) → Type 0 where
    allocated :
        (i : ℕ) (m' : Array Slot)
        → IsFreeFrame m i
        → ((l : ℕ) → l < i → ¬ IsFreeFrame m l)
        → ((j : ℕ) → i ≤ j → j < i + frame_size → m' j ≡ record { var = pid; value = (m j).value })
        → ((j : ℕ) → (j < i) ⊎ (i + frame_size ≤ j) → m' j ≡ m j)
        → Allocation pid m (some (i, m'))
    no_space : ((l : ℕ) → ¬ IsFreeFrame m l) → Allocation pid m none

  not_free :
      (m : Array Slot) (l : ℕ)
      → fits frame_store_size var_store_size m l ≡ false
      → ¬ IsFreeFrame m l
  not_free m l e f = cc (e, IsFreeFrame-fits m l f)

  -- On any memory `frame_alloc` takes the lowest position with three free slots inside the frame
  -- store, gives exactly these to the process with their values as they were, and changes no other
  -- slot; it reports no space where there is no such position.
  pub frame_alloc-Allocation :
      (pid : CString) (m : Array Slot)
      → Allocation pid m (frame_alloc frame_store_size var_store_size pid m)
  unfolding frame_alloc
  frame_alloc-Allocation pid m =
      elim (scan-cases (fits frame_store_size var_store_size m) 0 frame_store_size) [
        | inl (e, miss) ↦
            rw e (no_space (λ l f. not_free m l (miss l (omega arith) (omega (arith, f.inside))) f))
        | inr (i, e, f) ↦ rw e (
            allocated i (occupy frame_store_size var_store_size pid i m)
              (fits-IsFreeFrame m i f.hit) (λ l h. not_free m l (f.before l (omega arith) h))
              (λ j a b. map_range-inside i frame_size _ m j a b)
              (λ j h. map_range-outside i frame_size _ m j h))
      ]

  cleared :
      (m : Array Slot) (i : ℕ) → i + frame_size ≤ frame_store_size → IsFreeFrame (clear_frame i m) i
  unfolding clear_frame
  cleared m i h = record {
    inside = h;
    free = λ j a b.
        rw (map_range-inside i frame_size (λ (s : Slot). free_slot) m j a b)
          (str_eq_refl none_text);
  }

  -- The position that an allocation gave.
  abbrev allocated_at : Option (ℕ × Array Slot) → Option ℕ
  allocated_at none = none
  allocated_at (some (i, m)) = some i

  position :
      (pid : CString) (m : Array Slot) (i : ℕ) {r : Option (ℕ × Array Slot)}
      → Allocation pid m r
      → IsFreeFrame m i
      → (j : ℕ) × (allocated_at r ≡ some j) × (j ≤ i)
  position pid m i (allocated j m' f first own other) free =
      (j, refl, not_less j i (λ h. first i h free))
  position pid m i (no_space none_free) free = absurd (none_free i free)

  -- After three slots inside the frame store are cleared, an allocation succeeds, at their position
  -- or below it.
  clear_frame-frame_alloc :
      (pid : CString) (m : Array Slot) (i : ℕ)
      → i + frame_size ≤ frame_store_size
      → (j : ℕ) × (allocated_at (frame_alloc frame_store_size var_store_size pid (clear_frame i m))
          ≡ some j)
        × (j ≤ i)
  clear_frame-frame_alloc pid m i h =
      position pid (clear_frame i m) i (frame_alloc-Allocation pid (clear_frame i m))
        (cleared m i h)
