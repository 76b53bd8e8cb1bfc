-- ===== src/A3/Pcb/Evicting.antt =====
-- `PAGE_evict`, and `load_PAGE` after it.
use mcgill_ecse_427_operatin.Prelude.{
  ℕ, ◌+◌, ◌≤◌, ◌<◌, ◌≡◌, refl, ◌⊎◌, false, Option, some, ◌++◌, CString, codes, Array, arith,
  str_eq_refl,
}
use mcgill_ecse_427_operatin.Prelude.Decimal.{decimal}
use mcgill_ecse_427_operatin.VarStore.Slots.{none_text}
use mcgill_ecse_427_operatin.A3.Memory.{Slot, free_slot, frame_size}
use mcgill_ecse_427_operatin.A3.Memory.Frames.{
  IsFreeFrame, Allocation, allocated, no_space, frame_alloc-Allocation,
}
use mcgill_ecse_427_operatin.A3.Pcb.{Page, Pcb, evict_lines, page_evict, load_page, load_placed}

-- What an eviction of a page at `start` did: the values were printed in order, the three slots are free
-- and the others as they were, and the page has no line.
record IsEvicted (start : ℕ) (page : Page) (m : Array Slot) (r : CString × Array Slot × Page)
    : Type 0 where
  pub text :
      r.0
      ≡ (((codes "Page fault! Victim page contents:\n" ++ (m start).value) ++ (m (start + 1)).value)
          ++ (m (start + 2)).value)
        ++ codes "End of victim page contents.\n"
  pub freed : (j : ℕ) → start ≤ j → j < start + frame_size → r.1 j ≡ free_slot
  pub others : (j : ℕ) → (j < start) ⊎ (start + frame_size ≤ j) → r.1 j ≡ m j
  pub invalid : (j : ℕ) → j < 3 → r.2.valid_bit j ≡ false
  pub positions : (j : ℕ) → j < 3 → r.2.index j ≡ 0
  pub names : (r.2.page_index ≡ page.page_index) × (r.2.page_pid ≡ page.page_pid)

abbrev StandsAt : ℕ → Page → Type 0
StandsAt start page =
    (page.index 0 ≡ start) × (page.index 1 ≡ start + 1) × (page.index 2 ≡ start + 2)

-- For a page whose lines stand at `start` and the two positions behind it: `page_evict` prints the
-- three values in order between its two messages, the three slots are free afterwards and every
-- other one is as it was, and the page keeps its names, has no valid line and has the position 0
-- three times.
page_evict-IsEvicted :
    (start : ℕ) (page : Page) (m : Array Slot)
    → StandsAt start page
    → IsEvicted start page m (page_evict page m)
unfolding page_evict evict_lines
page_evict-IsEvicted start page m s = record {
  text = ground (arith, s.0, s.1, s.2);
  freed = λ j h k. ground (arith, s.0, s.1, s.2);
  others = λ j h. ground (arith, s.0, s.1, s.2);
  invalid = λ j h. ground arith;
  positions = λ j h. ground arith;
  names = (refl, refl);
}

module _ (frame_store_size var_store_size : ℕ) where
  evicted-IsFreeFrame :
      (start : ℕ) (page : Page) (m : Array Slot) (r : CString × Array Slot × Page)
      → IsEvicted start page m r
      → start + frame_size ≤ frame_store_size
      → IsFreeFrame frame_store_size var_store_size r.1 start
  evicted-IsFreeFrame start page m r e h = record {
    inside = h;
    free = λ j a b. rw (e.freed j a b) (str_eq_refl none_text);
  }

  load_allocated :
      (p : Pcb) (i : ℕ) (m : Array Slot) (start : ℕ) {r : Option (ℕ × Array Slot)}
      → Allocation frame_store_size var_store_size (decimal p.pid) m r
      → IsFreeFrame frame_store_size var_store_size m start
      → (q : Pcb × Array Slot) × (load_placed frame_store_size var_store_size p i r ≡ some q)
  load_allocated p i m start (allocated j m' f first own other) free = (_, refl)
  load_allocated p i m start (no_space none_free) free = absurd (none_free start free)

  -- After the eviction of a page whose three lines stand one behind another inside the frame store,
  -- any load succeeds.
  pub page_evict-load_page :
      (start : ℕ) (page : Page) (m : Array Slot) (p : Pcb) (i : ℕ)
      → StandsAt start page
      → start + frame_size ≤ frame_store_size
      → (q : Pcb × Array Slot) × (load_page frame_store_size var_store_size p i
            (page_evict page m).1
          ≡ some q)
  unfolding load_page
  page_evict-load_page start page m p i s h =
      let e = page_evict-IsEvicted start page m s in
      let m' : Array Slot = (page_evict page m).1 in
      load_allocated p i m' start
        (frame_alloc-Allocation frame_store_size var_store_size (decimal p.pid) m')
        (evicted-IsFreeFrame start page m (page_evict page m) e h)
