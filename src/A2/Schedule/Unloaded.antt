-- ===== src/A2/Schedule/Unloaded.antt =====
-- A process none of whose pages could be loaded, as for an empty script.
use mcgill_ecse_427_operatin.Prelude.{
  ℕ, suc, ◌≡◌, refl, true, Bool-cases, inl, inr, CString, Array, arith,
}
use mcgill_ecse_427_operatin.Prelude.Int.{ℤ, negsuc, minus_one, ◌==ℤ◌, ==ℤ_iff, divides}
use mcgill_ecse_427_operatin.Prelude.Stdio.{Stream}
use mcgill_ecse_427_operatin.A2.Memory.{frame_size, mem_get_value_at_line}
use mcgill_ecse_427_operatin.A2.Pcb.{Pcb, make_pcb}
use mcgill_ecse_427_operatin.A2.Machine.{Machine, ok, crashed, Cmd}
use mcgill_ecse_427_operatin.A2.Kernel.{page_start}
use mcgill_ecse_427_operatin.A2.Schedule.{fetch, execute_process, find_page, next_line, run_lines}

below_zero : (t : Array ℤ) → t 0 ≡ minus_one → page_start t 0 ≡ negsuc 2
below_zero t e = rw e (ground arith)

module _ {W : Type 0} (threshold varmemsize : ℕ) where
  pub find_page-start :
      (rounds : ℕ) (p : Pcb) (m : Machine W)
      → (p.pc ==ℤ page_start p.page_table 0) ≡ true
      → find_page threshold varmemsize (suc rounds) p 0 m ≡ ok (fetch p 0) m
  unfolding find_page
  find_page-start rounds p m e = rw e

  next_line-start :
      (p : Pcb) (m : Machine W)
      → (p.pc ==ℤ page_start p.page_table 0) ≡ true
      → next_line threshold varmemsize p 0 m ≡ ok (fetch p 0) m
  unfolding next_line
  next_line-start p m e = elim (Bool-cases (divides frame_size p.pc)) [
    | inl d ↦ rw (d, e)
    | inr d ↦ rw d
  ]

  run_lines-below :
      (parse : CString → Cmd W ℤ) (quanta : ℕ) (p : Pcb) (m : Machine W)
      → (p.pc ==ℤ page_start p.page_table 0) ≡ true
      → p.pc ≡ negsuc 2
      → run_lines threshold varmemsize parse (suc quanta) p 0 m ≡ crashed
  unfolding run_lines mem_get_value_at_line
  run_lines-below parse quanta p m e f = rw (run_lines, next_line-start p m e, f)

  -- A new block whose first page is in no frame, run for any quantum of at least one line: the line
  -- in front of the memory's first slot is fetched, and the null pointer that comes back is compared
  -- as a string, which crashes.
  pub execute_process-unloaded :
      (parse : CString → Cmd W ℤ) (rounds quanta pid : ℕ) (t : Array ℤ) (fp : Stream)
      (filename : CString) (m : Machine W)
      → t 0 ≡ minus_one
      → execute_process threshold varmemsize parse
          (suc rounds)
          (make_pcb pid t fp filename).0
          (suc quanta)
          m
        ≡ crashed
  unfolding execute_process make_pcb
  execute_process-unloaded parse rounds quanta pid t fp filename m e =
      let p = (make_pcb pid t fp filename).0 in
      let here : (p.pc ==ℤ page_start p.page_table 0) ≡ true = (==ℤ_iff p.pc p.pc).1 refl in
      rw (execute_process, find_page-start rounds p m here)
        (run_lines-below parse quanta p m here (below_zero t e))
