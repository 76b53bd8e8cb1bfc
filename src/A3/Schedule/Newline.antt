-- ===== src/A3/Schedule/Newline.antt =====
-- A script of one line with a newline behind it, from `new_proc` to the scheduler.
use mcgill_ecse_427_operatin.Prelude.{
  ℕ, zero, suc, ◌+◌, ◌<◌, ◌≡◌, ◌≢◌, refl, ap, ◌∙◌, true, false, some, [], ◌∷◌, ◌++◌, CString, Array,
  update, update_self, subst, sym, update-holds, arith,
}
use mcgill_ecse_427_operatin.Prelude.Decimal.{decimal}
use mcgill_ecse_427_operatin.Prelude.Int.{ℤ, pos, ◌==ℤ◌}
use mcgill_ecse_427_operatin.Prelude.Stdio.{open_stream, remaining, length}
use mcgill_ecse_427_operatin.Prelude.Stdio.Lines.{NoNewline, line_of, fgets-line, remaining-line}
use mcgill_ecse_427_operatin.A3.Memory.{Slot, frame_alloc, mem_set_value_at, mem_get_value_at}
use mcgill_ecse_427_operatin.A3.Pcb.{
  Page, Pcb, Load, line_room, put_line, load_lines, load_page, load_pages, place_page, page_init,
  pcb_init, count_lines, page_table_size_of, pcb_done, done_from,
}
use mcgill_ecse_427_operatin.A3.Pcb.Count.{count_lines-lines}
use mcgill_ecse_427_operatin.A3.Pcb.Loading.{behind, load_lines-step, load_lines-end}
use mcgill_ecse_427_operatin.A3.Machine.{Machine, ok, out_of_fuel, Cmd, and_then}
use mcgill_ecse_427_operatin.A3.Kernel.{new_proc}
use mcgill_ecse_427_operatin.A3.Schedule.Faults.{stepped, counted, run_proc-line}
use mcgill_ecse_427_operatin.A3.Schedule.Starved.{IsStarved}
use mcgill_ecse_427_operatin.A3.Schedule.Stuck.{
  IsStuck, run_next-Faulted, run_proc_rr-stuck, Faulted,
}
use mcgill_ecse_427_operatin.A3.Machine.Returns.{Returns, Returns-and_then, and_then-out_of_fuel}
use mcgill_ecse_427_operatin.A3.Schedule.{first_open, queue_done, run_next, turn, run_proc_rr}

-- On this line and machine the parser returns with another code than 1 and leaves the processes, the
-- queue, the cache and the list of all processes as they are.
abbrev pub LeavesKernel : {W : Type 0} → (CString → Cmd W ℤ) → CString → Machine W → Type 0
LeavesKernel {W} parse line m =
    (code : ℤ) × (m' : Machine W) × (parse line m ≡ ok code m')
    × ((code ==ℤ pos 1) ≡ false)
    × (m'.pcbs ≡ m.pcbs)
    × (m'.queue ≡ m.queue)
    × (m'.lru_cache ≡ m.lru_cache)
    × (m'.all_pcb ≡ m.all_pcb)

-- The block after its line was loaded and the end of the file was met.
abbrev one_line_page : ℕ → ℕ → Page
one_line_page pid start = record {
  index = λ j. start + j;
  valid_bit = update (λ j. false) 0 true;
  page_index = 0;
  page_pid = pid;
}

abbrev one_line_block : ℕ → CString → ℕ → Pcb
one_line_block pid w start = record {
  pid = pid;
  size = 2;
  program_counter = λ i. 0;
  page_table = update (page_init pid) 0 (one_line_page pid start);
  page_table_size = 1;
  source_file = record (behind w (open_stream (line_of w))) { at_eof = true };
}

load_lines-one :
    (pid_str : CString) (l : Load) (w : CString)
    → remaining l.file ≡ line_of w
    → NoNewline w
    → length w + 1 < line_room
    → load_lines 3 0 pid_str l
      ≡ (let f = behind w l.file in put_line pid_str 0 (line_of w) (record f { at_eof = true }) l)
load_lines-one pid_str l w e p h =
    let f = behind w l.file in
    load_lines-step 2 0 pid_str (line_of w) f l (fgets-line line_room l.file w p h [] e)
    ∙ load_lines-end 1 1 pid_str (put_line pid_str 0 (line_of w) f l)
        (remaining-line line_room l.file w p h [] e)

module _ {W : Type 0} (frame_store_size var_store_size : ℕ) (parse : CString → Cmd W ℤ)
    (w script : CString) (m : Machine W) (start : ℕ) (m0 : Array Slot) (some_byte : w ≢ [])
    (one : NoNewline w) (fits : length w + 1 < line_room)
    (alloc : frame_alloc frame_store_size var_store_size (decimal m.pid_counter) m.memory
      ≡ some (start, m0)) where
  two_counted : count_lines (line_of w) ≡ 2
  two_counted = count_lines-lines (w ∷ []) [] ((some_byte, one), tt) tt

  -- The machine after the process was made.
  abbrev made_one : Machine W
  made_one = record m {
    pid_counter = m.pid_counter + 1;
    memory = mem_set_value_at (start + 0) (decimal m.pid_counter) (line_of w) m0;
    pcbs = update m.pcbs m.made (some (one_line_block m.pid_counter w start));
    made = m.made + 1;
    all_pcb = m.all_pcb ++ (m.made ∷ []);
    queue = m.queue ++ (m.made ∷ []);
    lru_cache = (m.made, 0) ∷ m.lru_cache;
  }

  new_proc-one :
      new_proc frame_store_size var_store_size script (some (line_of w)) m ≡ ok 0 made_one
  unfolding new_proc pcb_init load_pages load_page page_table_size_of
  new_proc-one = rw (
    two_counted,
    alloc,
    load_lines-one (decimal m.pid_counter)
        (record {
          page = place_page start (page_init m.pid_counter 0);
          memory = m0;
          file = open_stream (line_of w);
        })
        w refl one fits,
  )

  abbrev after_line : Pcb
  after_line = stepped 0 (one_line_block m.pid_counter w start)

  after_line-IsStarved : IsStarved 0 after_line
  unfolding first_open
  after_line-IsStarved = record {
    left = omega arith;
    next = refl;
    unloaded = refl;
    ended = remaining-line line_room (open_stream (line_of w)) w one fits [] refl;
    pids = λ k.
        update-holds (λ (l : ℕ) (page : Page). page.page_pid ≡ m.pid_counter)
          (page_init m.pid_counter) 0 (one_line_page m.pid_counter start) k refl refl;
    indices = λ k.
        update-holds (λ (l : ℕ) (page : Page). page.page_index ≡ l) (page_init m.pid_counter) 0
          (one_line_page m.pid_counter start) k refl refl;
  }

  -- The machine when the scheduler has taken the process off the queue.
  abbrev pub taken_off : Machine W
  taken_off = record made_one { queue = [] }

  abbrev the_line : CString
  the_line = mem_get_value_at (start + 0) taken_off.memory

  line_stored : the_line ≡ line_of w
  unfolding mem_set_value_at
  line_stored =
      ap (λ (slot : Slot). slot.value)
        (update_self m0 (start + 0) (record { var = decimal m.pid_counter; value = line_of w }))

  module _ (leaves : LeavesKernel parse (line_of w) taken_off) (idle : m.queue ≡ [])
      (cold : m.lru_cache ≡ []) (alone : m.all_pcb ≡ []) where
    leaves_here : LeavesKernel parse the_line taken_off
    leaves_here = subst (λ line. LeavesKernel parse line taken_off) (sym line_stored) leaves

    at_made : taken_off.pcbs m.made ≡ some (one_line_block m.pid_counter w start)
    at_made = update_self m.pcbs m.made (some (one_line_block m.pid_counter w start))

    -- The machine after the line, its page in front of the cache.
    abbrev line_done : Machine W
    line_done =
        record (counted frame_store_size var_store_size parse m.made 0 0 leaves_here.1
          (one_line_block m.pid_counter w start)) { lru_cache = (m.made, 0) ∷ [] }

    run_next-line :
        run_next frame_store_size var_store_size parse m.made taken_off ≡ ok (pos 0) line_done
    unfolding run_next first_open
    run_next-line =
        let b = one_line_block m.pid_counter w start in
        let l = leaves_here in
        rw at_made (
          run_proc-line frame_store_size var_store_size parse m.made 0 0 taken_off l.0 l.1 b [] []
            (record {
              block = b;
              at_p = at_made;
              loaded = refl;
              parsed = l.2;
              after = ap (λ pcbs. pcbs m.made) l.4 ∙ at_made;
            })
            l.3 (l.6 ∙ ap (λ lru. (m.made, 0) ∷ lru) cold) tt)

    line_done-IsStuck : IsStuck m.made 0 line_done
    line_done-IsStuck =
        let l = leaves_here in
        record {
          block = after_line;
          at_p = update_self l.1.pcbs m.made (some after_line);
          starved = after_line-IsStarved;
          cache = (refl, tt);
          all = l.7 ∙ ap (λ all. all ++ (m.made ∷ [])) alone;
        }

    turn-line :
        Returns
          (λ (_ : Unit {0}).
            Faulted frame_store_size var_store_size m.made 0 line_done.queue (pos 1))
          (turn frame_store_size var_store_size parse m.made taken_off)
    unfolding turn
    turn-line =
        rw (at_made, run_next-line)
          (Returns-and_then (Faulted frame_store_size var_store_size m.made 0 line_done.queue)
            (λ (_ : Unit {0}).
              Faulted frame_store_size var_store_size m.made 0 line_done.queue (pos 1))
            _ (run_next frame_store_size var_store_size parse m.made line_done)
            (run_next-Faulted frame_store_size var_store_size m.made 0 parse line_done (m.made, 0)
              [] line_done-IsStuck refl)
            (λ ret m1 f. rw f.0 (refl, f.1, f.2, f.3)))

    run_proc_rr-made :
        (fuel : ℕ) → run_proc_rr frame_store_size var_store_size parse fuel made_one ≡ out_of_fuel
    unfolding run_proc_rr queue_done pcb_done done_from
    run_proc_rr-made zero = refl
    run_proc_rr-made (suc fuel) =
        let l = leaves_here in
        rw (idle, at_made)
          (and_then-out_of_fuel
            (λ (_ : Unit {0}).
              Faulted frame_store_size var_store_size m.made 0 line_done.queue (pos 1))
            _ (turn frame_store_size var_store_size parse m.made taken_off) turn-line
            (λ _ m1 f.
              run_proc_rr-stuck frame_store_size var_store_size m.made 0 parse fuel m1 (m.made, 0)
                f.3.0 f.1 (f.2 ∙ ap (λ q. q ++ (m.made ∷ [])) l.5) f.3.1))

    -- For a script of one line with at least one byte and a newline behind it, short enough for the
    -- line buffer, on a machine without processes where a frame is free, and a parser that, on this
    -- line and on the machine where the process was made and taken off the queue, returns with
    -- another code than 1 and leaves the processes, the queue and the cache as they are: `new_proc`
    -- and then the round-robin scheduler never return, with any fuel.
    pub new_proc-stuck :
        (fuel : ℕ)
        → and_then
            (new_proc frame_store_size var_store_size script (some (line_of w)) m)
            (λ code. run_proc_rr frame_store_size var_store_size parse fuel)
          ≡ out_of_fuel
    new_proc-stuck fuel = rw new_proc-one (run_proc_rr-made fuel)
