-- ===== src/A2/Schedule.antt =====
-- a2/kernel.c, the part that runs: `execute_process`, the schedulers and `schedule_by_policy`. What
-- `parseInput` does with a line is an argument, `parse`; a2/shell.c is in A2/Shell.
pub mod Unloaded
pub mod Lines
use mcgill_ecse_427_operatin.Prelude.{
  ℕ, zero, suc, ◌+◌, ◌/◌, Bool, true, false, not, ◌&&◌, ◌||◌, ltb, if◌then◌else◌, Option, none,
  some, List, [], ◌∷◌, CString, codes, str_eq, scan,
}
use mcgill_ecse_427_operatin.Prelude.Int.{ℤ, pos, minus_one, ◌==ℤ◌, ◌+ℤ◌, divides}
use mcgill_ecse_427_operatin.Prelude.Stdio.{seek_back}
use mcgill_ecse_427_operatin.VarStore.Slots.{none_text}
use mcgill_ecse_427_operatin.A2.Memory.{
  frame_size, Fetched, null, out_of_bounds, line, mem_get_value_at_line, increment_lastused,
}
use mcgill_ecse_427_operatin.A2.Pcb.{Pcb, page_table_size}
use mcgill_ecse_427_operatin.A2.Machine.{
  Machine, ok, exited, crashed, out_of_fuel, Cmd, ◌>>=◌, ◌>>◌, pure, modify, set_background,
}
use mcgill_ecse_427_operatin.A2.Kernel.{
  scheduling_error, empty_table, add_to_tail, rotate, page_start, is_frame, handle_page_fault,
}

-- `PC == page_table[n] * FRAME_SIZE + l && page_table[n] != -1`.
abbrev at_line : Pcb → ℕ → ℕ → Bool
at_line p n l = p.pc ==ℤ (page_start p.page_table n +ℤ pos l) && not (p.page_table n ==ℤ minus_one)

abbrev line_num : Option ℕ → ℕ
line_num none = frame_size
line_num (some l) = l

-- The inner loop stops at the line of the page that the counter names, or behind the last one; the
-- test after it is made at that place.
abbrev on_page : Pcb → ℕ → Bool
on_page p n = at_line p n (line_num (scan (at_line p n) 0 frame_size))

abbrev cannot_run : {W A : Type 0} → Cmd W A
cannot_run m = crashed

-- The counter after the fetch of a line, and what was fetched.
pub data Next : Type 0 where
  ended : Pcb → Next
  fetch : Pcb → ℕ → Next

-- The counter moves to the start of a page.
abbrev jump : Pcb → ℕ → Next
jump p n = fetch (record p { pc = page_start p.page_table n }) n

module _ {W : Type 0} (threshold varmemsize : ℕ) where
  -- The loop that looks for the page of the program counter: the block and the page's number, or
  -- `ended` where no page could be brought in again.
  unfoldable pub find_page : ℕ → Pcb → ℕ → Cmd W Next
  find_page zero p n = λ m. out_of_fuel
  find_page (suc fuel) p n =
      let next = find_page fuel p (n + 1) in
      let reset : Cmd W Next = (do
        (loaded, q) ←
            handle_page_fault threshold varmemsize
              (record p { fp = seek_back frame_size p.fp; page_table = empty_table }) 0
        let again = find_page fuel q 0
        if loaded then again else pure (ended q)) in
      if p.pc ==ℤ page_start p.page_table n
      then pure (fetch p n)
      else if on_page p n
      then pure (fetch p n)
      else if ltb (n + 1) page_table_size
      then next
      else reset

  -- The page fault at the end of a page: the head of the ready queue goes to its tail, and the page is
  -- loaded.
  unfoldable pub next_page_fault : Pcb → ℕ → Cmd W Next
  next_page_fault p n = do
    modify (λ m. record m { pager = record m.pager { queue = rotate m.pager.queue } })
    (loaded, q) ← handle_page_fault threshold varmemsize p n
    pure (if loaded then jump q n else ended q)

  -- Where the counter has left its page it moves to the page behind it.
  unfoldable pub next_line : Pcb → ℕ → Cmd W Next
  next_line p n =
      if divides frame_size p.pc && not (p.pc ==ℤ page_start p.page_table n)
      then if ltb (n + 1) page_table_size
          && is_frame (threshold / frame_size) (p.page_table (n + 1))
        then pure (jump p (n + 1))
        else if ltb (n + 1) page_table_size && (p.page_table (n + 1) ==ℤ minus_one)
        then next_page_fault p (n + 1)
        else pure (ended p)
      else pure (fetch p n)

  module _ (parse : CString → Cmd W ℤ) where
    abbrev finish : Pcb → Cmd W (Bool × Pcb)
    finish p = do set_background false; pure (true, p)

    -- A fetched line is run, with the counter behind it; a padding line ends the process, and a
    -- pointer that is null or outside the array cannot be compared with "none".
    abbrev run_line : Pcb → Fetched → Cmd W (Bool × Pcb) → Cmd W (Bool × Pcb)
    run_line p null rest = cannot_run
    run_line p out_of_bounds rest = cannot_run
    run_line p (line text) rest = if str_eq text none_text then finish p else do
      parse text
      modify (λ m. record m {
        pager = record m.pager {
          memory = increment_lastused threshold (p.pc +ℤ minus_one) m.pager.memory;
        };
      })
      set_background false
      rest

    abbrev pub past : Pcb → Pcb
    past p = record p { pc = p.pc +ℤ pos 1; priority = false }

    -- At most `quanta` lines. The result is whether the process has ended, and its block.
    unfoldable pub run_lines : ℕ → Pcb → ℕ → Cmd W (Bool × Pcb)
    run_lines zero p n m = ok (false, p) m
    run_lines (suc quanta) p n m = elim (next_line p n m) [
      | ok (ended q) m' ↦ finish q m'
      | ok (fetch q k) m' ↦
          let fetched = mem_get_value_at_line threshold varmemsize q.pc m'.pager.memory in
          run_line (past q) fetched (run_lines quanta (past q) k)
            (record m' { in_background = true })
      | exited c m' ↦ exited c m'
      | crashed ↦ crashed
      | out_of_fuel ↦ out_of_fuel
    ]

    unfoldable pub execute_process : ℕ → Pcb → ℕ → Cmd W (Bool × Pcb)
    execute_process fuel p quanta m = elim (find_page fuel p 0 m) [
      | ok (ended q) m' ↦ finish q m'
      | ok (fetch q n) m' ↦ run_lines quanta q n m'
      | exited c m' ↦ exited c m'
      | crashed ↦ crashed
      | out_of_fuel ↦ out_of_fuel
    ]

    abbrev max_int : ℕ
    max_int = 2147483646

    abbrev set_queue : List Pcb → Machine W → Machine W
    set_queue q m = record m { pager = record m.pager { queue = q } }

    -- The head of the queue is taken off and run to its end; a process that comes back before its end
    -- is dropped.
    unfoldable pub scheduler_fcfs : ℕ → Cmd W (Unit {0})
    scheduler_fcfs zero m = out_of_fuel
    scheduler_fcfs (suc fuel) m = elim m.pager.queue [
      | [] ↦ let spin = scheduler_fcfs fuel m in if m.active then spin else ok tt m
      | p ∷ q ↦ (do execute_process fuel p max_int; scheduler_fcfs fuel) (set_queue q m)
    ]

    -- The head of the queue runs for a quantum, and goes to the tail unless it ended.
    unfoldable pub scheduler_rr : ℕ → ℕ → Cmd W (Unit {0})
    scheduler_rr zero quanta m = out_of_fuel
    scheduler_rr (suc fuel) quanta m = elim m.pager.queue [
      | [] ↦ let spin = scheduler_rr fuel quanta m in if m.active then spin else ok tt m
      | p ∷ q ↦
          (do
            (done, p') ← execute_process fuel p quanta
            modify (λ m. if done then m else set_queue (add_to_tail m.pager.queue p') m)
            scheduler_rr fuel quanta)
            (set_queue q m)
    ]

    abbrev run_policy : ℕ → CString → Cmd W (Unit {0})
    run_policy fuel policy =
        if str_eq (codes "FCFS") policy
        then scheduler_fcfs fuel
        else if str_eq (codes "RR") policy
        then scheduler_rr fuel 2
        else if str_eq (codes "RR30") policy
        then scheduler_rr fuel 30
        else pure tt

    abbrev known_policy : CString → Bool
    known_policy policy =
        str_eq policy (codes "FCFS") || str_eq policy (codes "RR") || str_eq policy (codes "RR30")

    unfoldable pub schedule_by_policy : ℕ → CString → Cmd W ℤ
    schedule_by_policy fuel policy m =
        if not (known_policy policy)
        then ok scheduling_error m
        else if m.active
        then ok (pos 0) m
        else if m.in_background
        then ok (pos 0) m
        else (do run_policy fuel policy; pure (pos 0)) m
