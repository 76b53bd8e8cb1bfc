-- ===== src/A3/Schedule.antt =====
-- a3/cpu.c and the schedulers of a3/kernel.c. `parse` is what `parseInput` does with a line.
pub mod Faults
pub mod Starved
pub mod Stuck
pub mod Newline
use mcgill_ecse_427_operatin.Prelude.{
  ℕ, zero, suc, ◌+◌, ◌-◌, Bool, true, false, not, ltb, ◌==◌, if◌then◌else◌, Option, none, some,
  List, [], ◌∷◌, CString, Array, update,
}
use mcgill_ecse_427_operatin.Prelude.Int.{ℤ, pos, ◌==ℤ◌}
use mcgill_ecse_427_operatin.A3.Memory.{mem_get_value_at}
use mcgill_ecse_427_operatin.A3.Pcb.{Page, Pcb, pcb_done}
use mcgill_ecse_427_operatin.A3.Kernel.{
  add_queue, pop_queue, touch_page, page_fault, free_all, free_pcb,
}
use mcgill_ecse_427_operatin.A3.Machine.{
  ok, out_of_fuel, Cmd, ◌>>=◌, ◌>>◌, pure, modify, gets, found, read_pcb, write_pcb,
}

-- The first page whose counter is not 3.
unfoldable pub first_open : Array ℕ → ℕ → ℕ → Option ℕ
first_open counters i zero = none
first_open counters i (suc n) =
    let rest = first_open counters (i + 1) n in if counters i == 3 then rest else some i

-- `queue_done`: whether every block of the list is done.
abbrev done_then : Option Pcb → Option Bool → Option Bool
done_then none rest = none
done_then (some b) rest = if pcb_done b then rest else some false

unfoldable pub queue_done : Array (Option Pcb) → List ℕ → Option Bool
queue_done pcbs [] = some true
queue_done pcbs (p ∷ ps) = done_then (pcbs p) (queue_done pcbs ps)

abbrev first_line : Array Bool → Option ℕ
first_line valid =
    if valid 0 then some 0 else if valid 1 then some 1 else if valid 2 then some 2 else none

abbrev line_of_page : ℕ → Option ℕ → Option (ℕ × ℕ) → Option (ℕ × ℕ)
line_of_page i none rest = rest
line_of_page i (some j) rest = some (i, j)

-- The first line that is loaded, as its page and its place there.
unfoldable pub first_valid : Array Page → ℕ → ℕ → Option (ℕ × ℕ)
first_valid pages i zero = none
first_valid pages i (suc n) =
    line_of_page i (first_line (pages i).valid_bit) (first_valid pages (i + 1) n)

module _ {W : Type 0} (frame_store_size var_store_size : ℕ) (parse : CString → Cmd W ℤ) where
  -- A loaded line is run; then its page's counter is stepped and a line less is left.
  unfoldable pub run_line : ℕ → ℕ → ℕ → Cmd W ℤ
  run_line p i position = do
    line ← gets (λ m. mem_get_value_at position m.memory)
    code ← parse line
    b ← read_pcb p
    write_pcb p (record b {
      program_counter = update b.program_counter i (b.program_counter i + 1);
      size = b.size - 1;
    })
    pure code

  -- Line `j` of page `i`; the code 1 stands for a page fault.
  unfoldable pub cpu_run : ℕ → ℕ → ℕ → Cmd W ℤ
  cpu_run p i j = do
    b ← read_pcb p
    if not ((b.page_table i).valid_bit j)
        then pure (pos 1)
        else run_line p i ((b.page_table i).index j)

  unfoldable pub run_proc : ℕ → ℕ → ℕ → Cmd W ℤ
  run_proc p i j = do
    ret ← cpu_run p i j
    if ret ==ℤ pos 1
        then page_fault frame_store_size var_store_size p i
        else (do touch_page p i; pure (pos 0))

  -- The line at the first page that is not finished.
  unfoldable pub run_next : ℕ → Cmd W ℤ
  run_next p = do
    b ← read_pcb p
    i ← found (first_open b.program_counter 0 b.page_table_size)
    run_proc p i (b.program_counter i)

  abbrev unless_fault : ℤ → Cmd W (Unit {0}) → Cmd W (Unit {0})
  unless_fault ret next = if ret ==ℤ pos 1 then pure tt else next

  abbrev one_line : ℕ → Cmd W (Unit {0})
  one_line p = do run_next p; pure tt

  abbrev two_lines : ℕ → Cmd W (Unit {0})
  two_lines p = do
    first ← run_next p
    unless_fault first (do second ← run_next p; unless_fault second (add_queue p))

  -- Two lines of a block with more than one left, and then the block goes to the tail; one line of a
  -- block with one left; nothing of a block with none. A block that is not put back is dropped.
  unfoldable pub turn : ℕ → Cmd W (Unit {0})
  turn p = do
    b ← read_pcb p
    if ltb 1 b.size then two_lines p else if b.size == 1 then one_line p else pure tt

  unfoldable pub finish_rr : Cmd W ℤ
  finish_rr = do
    all ← gets (λ m. m.all_pcb)
    free_all frame_store_size var_store_size all
    modify (λ m. record m { queue = []; lru_cache = []; all_pcb = [] })
    pure (pos 0)

  unfoldable pub run_proc_rr : ℕ → Cmd W ℤ
  run_proc_rr zero m = out_of_fuel
  run_proc_rr (suc fuel) m =
      let again = run_proc_rr fuel in
      (do
        all_done ← gets (λ m. queue_done m.pcbs m.queue)
        done ← found all_done
        if done then finish_rr else (do p ← pop_queue; turn p; again))
        m

  -- The loop of `run_proc_FIFO` on one block: each round runs the first line that is loaded.
  unfoldable pub fifo_lines : ℕ → ℕ → Cmd W (Unit {0})
  fifo_lines zero p m = out_of_fuel
  fifo_lines (suc fuel) p m =
      let again = fifo_lines fuel p in
      (do
        b ← read_pcb p
        if b.size == 0 then pure tt else (do
          at ← found (first_valid b.page_table 0 b.page_table_size)
          run_proc p at.0 at.1
          again))
        m

  unfoldable pub run_proc_fifo : ℕ → Cmd W ℤ
  run_proc_fifo zero m = out_of_fuel
  run_proc_fifo (suc fuel) m =
      let again = run_proc_fifo fuel in
      elim m.queue [
        | [] ↦ ok (pos 0) m
        | p ∷ q ↦
            (do fifo_lines fuel p; free_pcb frame_store_size var_store_size p; again)
              (record m { queue = q })
      ]
