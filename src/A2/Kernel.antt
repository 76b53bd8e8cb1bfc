-- ===== src/A2/Kernel.antt =====
-- a2/kernel.c: loading a script as a process, running a process for a number of lines, and the two
-- schedulers. The ready queue of ready_queue.c is the list of its blocks, head first; a block that runs
-- is not in the list.
pub mod Initialize
pub mod Kept
use mcgill_ecse_427_operatin.Prelude.{
  ℕ, zero, suc, ◌+◌, Bool, ◌&&◌, ltb, ◌==◌, if◌then◌else◌, is_some, Option, none, some, List, [],
  ◌∷◌, ◌++◌, CString, codes, Array,
}
use mcgill_ecse_427_operatin.Prelude.Int.{ℤ, pos, pos_part, neg_part, minus_one, ◌*ℤ◌}
use mcgill_ecse_427_operatin.Prelude.Decimal.{decimal}
use mcgill_ecse_427_operatin.Prelude.Stdio.{Stream, open_stream}
use mcgill_ecse_427_operatin.A2.Memory.{frame_size}
use mcgill_ecse_427_operatin.A2.Pcb.{Pcb, make_pcb}
use mcgill_ecse_427_operatin.A2.Paging.{load_page_into_frame_store}
use mcgill_ecse_427_operatin.A2.Machine.{
  Host, ok, out_of_fuel, Cmd, ◌>>=◌, ◌>>◌, pure, modify, gets, on_world,
}

abbrev pub file_does_not_exist : ℤ
file_does_not_exist = pos 1

abbrev pub scheduling_error : ℤ
scheduling_error = pos 5

abbrev pub backing_store : CString
backing_store = codes "./backing_store/"

abbrev pub empty_table : Array ℤ
empty_table i = minus_one

-- `ready_queue_add_to_tail` and `ready_queue_pop_head` on the list, and the two after one another, by
-- which `execute_process` means to put the running process behind the others.
abbrev pub add_to_tail : List Pcb → Pcb → List Pcb
add_to_tail q p = q ++ (p ∷ [])

abbrev pub rotate : List Pcb → List Pcb
rotate [] = []
rotate (p ∷ q) = add_to_tail q p

-- `shellmemory`'s entry of a page as a slot number, and the test that it is a frame of the store.
abbrev pub page_start : Array ℤ → ℕ → ℤ
page_start t n = t n *ℤ frame_size

abbrev pub is_frame : ℕ → ℤ → Bool
is_frame frames e = neg_part e == 0 && ltb (pos_part e) frames

module _ {W : Type 0} (threshold varmemsize : ℕ) where
  -- The loader on the machine's memory and queue; the code, the page table and the stream.
  abbrev pub load_page : Stream → CString → Array ℤ → ℕ → Cmd W (ℕ × Array ℤ × Stream)
  load_page fp filename t n m =
      let r = load_page_into_frame_store threshold varmemsize fp filename t n m.pager in
      ok (r.0, r.2, r.3) (record m { pager = r.1 })

  -- Whether the page was brought in, with the block after it.
  unfoldable pub handle_page_fault : Pcb → ℕ → Cmd W (Bool × Pcb)
  handle_page_fault p n = do
    r ← load_page p.fp p.filename p.page_table n
    pure (r.0 == 0, record p { page_table = r.1; fp = r.2 })

module _ {W : Type 0} (h : Host W) (threshold varmemsize : ℕ) where
  -- The loop that counts `i` up until the name with that number is not taken.
  unfoldable pub fresh_name : ℕ → CString → ℕ → Cmd W CString
  fresh_name zero base i m = out_of_fuel
  fresh_name (suc fuel) base i m =
      let next = fresh_name fuel base (i + 1) m in
      if is_some (h.read_file (base ++ decimal i) m.world) then next else ok (base ++ decimal i) m

  abbrev copy_name : ℕ → CString → Cmd W CString
  copy_name fuel base m =
      let numbered = fresh_name fuel base 1 m in
      if is_some (h.read_file base m.world) then numbered else ok base m

  -- The copy in the backing store is loaded: two pages, a new block, the tail of the queue.
  abbrev start_process : CString → CString → Cmd W ℤ
  start_process filename bytes = do
    a ← load_page threshold varmemsize (open_stream bytes) filename empty_table 0
    b ← load_page threshold varmemsize a.2 filename a.1 1
    modify (λ m.
        let made = make_pcb m.pid_counter b.1 b.2 filename in
        record m {
          pid_counter = made.1;
          pager = record m.pager { queue = add_to_tail m.pager.queue made.0 };
        })
    pure (pos 0)

  abbrev start_copy : CString → Option CString → Cmd W ℤ
  start_copy filename none = pure file_does_not_exist
  start_copy filename (some bytes) = start_process filename bytes

  abbrev copy_and_start : ℕ → CString → Option CString → Cmd W ℤ
  copy_and_start fuel filename none = pure file_does_not_exist
  copy_and_start fuel filename (some script) = do
    name ← copy_name fuel (backing_store ++ filename)
    on_world (h.system (codes "cp " ++ (filename ++ (codes " " ++ name))))
    bytes ← gets (λ m. h.read_file name m.world)
    start_copy filename bytes

  -- `fuel` bounds the number of copies of one script in the backing store.
  unfoldable pub process_initialize : ℕ → CString → Cmd W ℤ
  process_initialize fuel filename m = copy_and_start fuel filename (h.read_file filename m.world) m
