-- ===== src/A2/Paging/Stamps.antt =====
-- What the clock of `increment_lastused` does to the choice of a victim.
use mcgill_ecse_427_operatin.Prelude.{
  ℕ, zero, suc, ◌+◌, ◌*◌, ◌%◌, ◌≡◌, ◌≢◌, refl, ap, Array, arith, ltb, Bool-cases, inl, inr,
  update_ne,
}
use mcgill_ecse_427_operatin.Prelude.Int.{pos}
use mcgill_ecse_427_operatin.A2.Memory.{Slot, ShellMemory, frame_size, increment_lastused}
use mcgill_ecse_427_operatin.A2.Paging.{lru_from, lru_frame}
use mcgill_ecse_427_operatin.A2.Paging.Lru.{stamp}

-- The loop reads only the stamps.
lru_from-congr :
    (m m' : Array Slot) (f n best : ℕ)
    → ((g : ℕ) → stamp m g ≡ stamp m' g)
    → lru_from m f n best ≡ lru_from m' f n best
unfolding lru_from
lru_from-congr m m' f zero best h = refl
lru_from-congr m m' f (suc n) best h = rw (h f, h best) (lru_from-congr m m' (f + 1) n _ h)

not_first : (n g : ℕ) → n % frame_size ≢ 0 → n ≢ g * frame_size
not_first n g h e = omega arith

stamp-increment :
    (threshold n : ℕ) (m : ShellMemory) (g : ℕ)
    → n % frame_size ≢ 0
    → stamp (increment_lastused threshold (pos n) m).slots g ≡ stamp m.slots g
unfolding increment_lastused
stamp-increment threshold n m g h = elim (Bool-cases (ltb n threshold)) [
  | inl e ↦
      rw e
        (ap (λ (s : Slot). s.last_used) (update_ne m.slots n _ (g * frame_size) (not_first n g h)))
  | inr e ↦ rw e
]

-- The use of a line that is not the first of its frame leaves the choice of the victim as it was: of
-- a frame's three slots the policy reads the first, and the clock is written to the line's own slot.
increment_lastused-lru_frame :
    (threshold varmemsize n : ℕ) (m : ShellMemory)
    → n % frame_size ≢ 0
    → lru_frame threshold varmemsize (increment_lastused threshold (pos n) m).slots
      ≡ lru_frame threshold varmemsize m.slots
unfolding lru_frame
increment_lastused-lru_frame threshold varmemsize n m h =
    lru_from-congr _ _ 0 _ 0 (λ g. stamp-increment threshold n m g h)
