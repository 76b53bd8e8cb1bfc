-- ===== src/A3/Schedule/Starved.antt =====
-- A block whose next line was not loaded and whose script has ended, under loads and evictions.
use mcgill_ecse_427_operatin.Prelude.{
  update-holds, ltb, ◌==◌, ◌∙◌, ℕ, zero, suc, ◌+◌, ◌≤◌, ◌≡◌, refl, ap, ◌⊎◌, inl, inr, Option-cases,
  true, false, none, some, [], Array, update, arith,
}
use mcgill_ecse_427_operatin.Prelude.Stdio.{Stream, remaining}
use mcgill_ecse_427_operatin.A3.Pcb.Loading.{load_lines-end}
use mcgill_ecse_427_operatin.A3.Pcb.{
  Page, Pcb, done_from, load_page, page_evict, evict_lines, place_page, with_load,
}
use mcgill_ecse_427_operatin.A3.Memory.{Slot, frame_alloc}
use mcgill_ecse_427_operatin.Prelude.Decimal.{decimal}
use mcgill_ecse_427_operatin.A3.Schedule.{first_open}

-- A block with lines left to run, the next of them at page `i` and not loaded, of a script with no bytes
-- left.
pub record IsStarved (i : ℕ) (b : Pcb) : Type 0 where
  pub left : 1 ≤ b.size
  pub next : first_open b.program_counter 0 b.page_table_size ≡ some i
  pub unloaded : (b.page_table i).valid_bit (b.program_counter i) ≡ false
  pub ended : remaining b.source_file ≡ []
  pub pids : (k : ℕ) → (b.page_table k).page_pid ≡ b.pid
  pub indices : (k : ℕ) → (b.page_table k).page_index ≡ k

-- The block after a load that found a frame.
abbrev pub reloaded : ℕ → ℕ → Pcb → Pcb
reloaded i start b = record b {
  page_table = update b.page_table i (place_page start (b.page_table i));
  source_file = record b.source_file { at_eof = true };
}

module _ (frame_store_size var_store_size : ℕ) where
  pub load_page-end :
      (i : ℕ) (b : Pcb) (m : Array Slot)
      → remaining b.source_file ≡ []
      → (load_page frame_store_size var_store_size b i m ≡ none)
        ⊎ ((start : ℕ) × (m' : Array Slot) × (load_page frame_store_size var_store_size b i m
              ≡ some (reloaded i start b, m')))
  unfolding load_page
  load_page-end i b m e =
      elim (Option-cases (frame_alloc frame_store_size var_store_size (decimal b.pid) m)) [
        | inl none_left ↦ inl (rw none_left)
        | inr ((start, m'), found) ↦ inr (
          start,
          m',
          rw found (
              ap (λ l. some (with_load i b l))
                (load_lines-end 2 0 (decimal b.pid)
                  (record {
                    page = place_page start (b.page_table i);
                    memory = m';
                    file = b.source_file;
                  })
                  e)),
        )
      ]

-- A page that was placed anew or evicted has the same names and no line.
abbrev Emptied : Page → Page → Type 0
Emptied page q =
    (q.page_pid ≡ page.page_pid)
    × (q.page_index ≡ page.page_index)
    × ((j : ℕ) → page.valid_bit j ≡ false → q.valid_bit j ≡ false)

pub IsStarved-update :
    (i k : ℕ) (b : Pcb) (q : Page) (f : Stream)
    → IsStarved i b
    → Emptied (b.page_table k) q
    → remaining f ≡ []
    → IsStarved i (record b { page_table = update b.page_table k q; source_file = f })
IsStarved-update i k b q f s e at_end = record {
  left = s.left;
  next = s.next;
  unloaded =
      update-holds
        (λ (l : ℕ) (page : Page).
          (b.page_table l).valid_bit (b.program_counter i) ≡ false
          → page.valid_bit (b.program_counter i) ≡ false)
        b.page_table k q i (e.2 (b.program_counter i)) (λ old. old) s.unloaded;
  ended = at_end;
  pids = λ l.
      update-holds (λ (l : ℕ) (page : Page). page.page_pid ≡ b.pid) b.page_table k q l
        (e.0 ∙ s.pids k) (s.pids l);
  indices = λ l.
      update-holds (λ (l : ℕ) (page : Page). page.page_index ≡ l) b.page_table k q l
        (e.1 ∙ s.indices k) (s.indices l);
}

pub page_evict-Emptied : (page : Page) (m : Array Slot) → Emptied page (page_evict page m).2
unfolding page_evict evict_lines
page_evict-Emptied page m = (refl, refl, λ j h. ground arith)

pub size_cases : (n : ℕ) → 1 ≤ n → (ltb 1 n ≡ true) ⊎ (((n == 1) ≡ true) × (ltb 1 n ≡ false))
size_cases n h = ground arith

pub first_open-done :
    (counters : Array ℕ) (lo n j : ℕ)
    → first_open counters lo n ≡ some j
    → done_from counters lo n ≡ false
unfolding first_open done_from
first_open-done counters lo zero j e = cc e
first_open-done counters lo (suc n) j e = ground (arith, e, first_open-done counters (lo + 1) n j)
