-- ===== src/A2/Paging/Evict.antt =====
-- What `pick_victim_frame` evicts: the victim's slots, and the page-table entries that name it.
use mcgill_ecse_427_operatin.Prelude.{
  ℕ, ◌+◌, ◌-◌, ◌*◌, ◌≤◌, ◌<◌, ◌≡◌, ◌≢◌, ◌⊎◌, inl, inr, refl, ap, true, false, List, [], ◌∷◌, Array,
  update, update_self, update_ne, scan-cases, Misses, map_range, map_range-at, map_range-inside,
  map_range-outside, count_range, count_range-drop, count_range-congr, count_range-misses, ==_iff,
  arith,
}
use mcgill_ecse_427_operatin.Prelude.Int.{ℤ, pos, minus_one, ◌==ℤ◌, ==ℤ_iff}
use mcgill_ecse_427_operatin.A2.Memory.{frame_size, evicted_slot}
use mcgill_ecse_427_operatin.A2.Pcb.{Pcb, page_table_size}
use mcgill_ecse_427_operatin.A2.Paging.{
  Pager, forget, names_frame, forget_in_queue, lru_frame, pick_victim_frame,
}

-- How many of the 20 entries of a page table name a frame.
unfoldable pub entries : ℕ → Array ℤ → ℕ
entries frame t = count_range (names_frame frame t) 0 page_table_size

-- How many entries of the blocks in the queue name a frame.
unfoldable pub queue_entries : ℕ → List Pcb → ℕ
queue_entries frame [] = 0
queue_entries frame (p ∷ q) = entries frame p.page_table + queue_entries frame q

minus_one_names : (v : ℕ) → (minus_one ==ℤ pos v) ≡ false
minus_one_names v = ground arith

-- Clearing one entry that names the victim.
entries-clear :
    (v : ℕ) (t : Array ℤ) (i : ℕ)
    → i < page_table_size
    → names_frame v t i ≡ true
    → entries v t ≡ entries v (update t i minus_one) + 1
unfolding entries
entries-clear v t i h on =
    count_range-drop (names_frame v t) (names_frame v (update t i minus_one)) 0 page_table_size i
      (omega arith) (omega arith) on (rw (update_self t i minus_one) (minus_one_names v))
      (λ l ne. ap (λ (e : ℤ). e ==ℤ pos v) (update_ne t i minus_one l ne))

entries-other :
    (v w : ℕ) (t : Array ℤ) (i : ℕ)
    → v ≢ w
    → names_frame v t i ≡ true
    → entries w (update t i minus_one) ≡ entries w t
unfolding entries
entries-other v w t i ne on =
    count_range-congr (names_frame w (update t i minus_one)) (names_frame w t) 0 page_table_size
      (λ l _ _. ground (arith, ==_iff i l, ==ℤ_iff (t i) (pos v), ==ℤ_iff (t i) (pos w)))

entries-none : (v : ℕ) (t : Array ℤ) → Misses (names_frame v t) 0 page_table_size → entries v t ≡ 0
unfolding entries
entries-none v t miss = count_range-misses (names_frame v t) 0 page_table_size miss

-- The queue loses exactly one entry that names the victim, if there is any.
forget_in_queue-victim :
    (v : ℕ) (q : List Pcb) → queue_entries v (forget_in_queue v q) ≡ queue_entries v q - 1
unfolding forget_in_queue queue_entries
forget_in_queue-victim v [] = omega arith
forget_in_queue-victim v (p ∷ q) =
    elim (scan-cases (names_frame v p.page_table) 0 page_table_size) [
      | inl (e, miss) ↦
          rw e (omega (arith, entries-none v p.page_table miss, forget_in_queue-victim v q))
      | inr (i, e, f) ↦
          rw e (omega (arith, entries-clear v p.page_table i (omega (arith, f.upper)) f.hit))
    ]

forget_in_queue-other :
    (v w : ℕ) (q : List Pcb) → v ≢ w → queue_entries w (forget_in_queue v q) ≡ queue_entries w q
unfolding forget_in_queue queue_entries
forget_in_queue-other v w [] ne = refl
forget_in_queue-other v w (p ∷ q) ne =
    elim (scan-cases (names_frame v p.page_table) 0 page_table_size) [
      | inl (e, miss) ↦ rw e (omega (arith, forget_in_queue-other v w q ne))
      | inr (i, e, f) ↦ rw e (omega (arith, entries-other v w p.page_table i ne f.hit))
    ]

-- What an eviction leaves: `v` is the victim, `p'` and `t'` the pager and the page table after it.
pub record Evicted (p : Pager) (t : Array ℤ) (v : ℕ) (p' : Pager) (t' : Array ℤ) : Type 0 where
  -- the victim's three slots are free
  pub freed :
      (j : ℕ)
      → v * frame_size ≤ j
      → j < v * frame_size + frame_size
      → p'.memory.slots j ≡ evicted_slot
  -- and every other slot is as it was
  pub kept :
      (j : ℕ)
      → (j < v * frame_size) ⊎ (v * frame_size + frame_size ≤ j)
      → p'.memory.slots j ≡ p.memory.slots j
  -- the faulting process names the victim no more, and its other entries are as they were
  pub own_forgot : (i : ℕ) → i < page_table_size → t' i ≢ pos v
  pub own_kept : (i : ℕ) → t i ≢ pos v → t' i ≡ t i
  -- the ready queue names it once less, and every other frame as often
  pub queue_forgot : queue_entries v p'.queue ≡ queue_entries v p.queue - 1
  pub queue_kept : (w : ℕ) → v ≢ w → queue_entries w p'.queue ≡ queue_entries w p.queue

forget_own :
    (v : ℕ) (t : Array ℤ) (i : ℕ)
    → i < page_table_size
    → map_range 0 page_table_size (forget v) t i ≢ pos v
forget_own v t i h e =
    ground (arith, map_range-inside 0 page_table_size (forget v) t i, ==ℤ_iff (t i) (pos v))

forget_keeps :
    (v : ℕ) (t : Array ℤ) (i : ℕ) → t i ≢ pos v → map_range 0 page_table_size (forget v) t i ≡ t i
forget_keeps v t i ne =
    ground (arith, map_range-at 0 page_table_size (forget v) t i, ==ℤ_iff (t i) (pos v))

-- For every page table and pager, the victim of `pick_victim_frame` is the frame that `lru_frame`
-- finds. Its three slots are free afterwards and every other slot is as it was; the given page table
-- names the victim no more and keeps its other entries; and the tables of the ready queue name it
-- once less, if they did, and every other frame as often.
pub pick_victim_frame-Evicted :
    (threshold varmemsize : ℕ) (t : Array ℤ) (p : Pager)
    → (let r = pick_victim_frame threshold varmemsize t p in
        (r.0 ≡ lru_frame threshold varmemsize p.memory.slots) × Evicted p t r.0 r.1 r.2)
unfolding pick_victim_frame
pick_victim_frame-Evicted threshold varmemsize t p =
    let v = lru_frame threshold varmemsize p.memory.slots in
    (
      refl,
      record {
        freed = map_range-inside (v * frame_size) frame_size (λ _. evicted_slot) p.memory.slots;
        kept = map_range-outside (v * frame_size) frame_size (λ _. evicted_slot) p.memory.slots;
        own_forgot = forget_own v t;
        own_kept = forget_keeps v t;
        queue_forgot = forget_in_queue-victim v p.queue;
        queue_kept = λ w. forget_in_queue-other v w p.queue;
      },
    )
