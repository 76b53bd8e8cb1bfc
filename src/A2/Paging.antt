-- ===== src/A2/Paging.antt =====
-- a2/shellmemory.c, the demand pager: the least-recently-used victim, its eviction, and the loader.
-- The sizes are those of the build; a page table is an array of PAGE_TABLE_SIZE entries.
pub mod Lru
pub mod Evict
pub mod Load
pub mod Rounds
pub mod Page
pub mod Outcome
pub mod Gap
pub mod Stamps
use mcgill_ecse_427_operatin.Prelude.{
  ℕ, zero, suc, ◌+◌, ◌-◌, ◌*◌, ◌/◌, ◌%◌, Bool, not, ◌&&◌, ltb, leb, ◌==◌, if◌then◌else◌, Option,
  none, some, List, [], ◌∷◌, ◌++◌, CString, codes, str_eq, Array, update, scan, map_range,
}
use mcgill_ecse_427_operatin.Prelude.Int.{ℤ, pos, minus_one, ◌==ℤ◌}
use mcgill_ecse_427_operatin.Prelude.Stdio.{Stream, fgets}
use mcgill_ecse_427_operatin.Prelude.Decimal.{decimal}
use mcgill_ecse_427_operatin.VarStore.Slots.{none_text}
use mcgill_ecse_427_operatin.A2.Memory.{Slot, ShellMemory, frame_size, is_free, evicted_slot}
use mcgill_ecse_427_operatin.A2.Pcb.{Pcb, page_table_size}

-- What the pager reads and writes besides the page table that it is given: the memory, the blocks of
-- the ready queue in order, and the text printed so far.
pub record Pager : Type 0 where
  pub memory : ShellMemory
  pub queue : List Pcb
  pub output : CString

-- The loop that looks for the least `last_used`, from frame `f` for `n` rounds.
unfoldable pub lru_from : Array Slot → ℕ → ℕ → ℕ → ℕ
lru_from m f zero best = best
lru_from m f (suc n) best =
    lru_from m (f + 1) n
      (if ltb (m (f * frame_size)).last_used (m (best * frame_size)).last_used then f else best)

abbrev pub forget : ℕ → ℤ → ℤ
forget victim e = if e ==ℤ pos victim then minus_one else e

abbrev pub names_frame : ℕ → Array ℤ → ℕ → Bool
names_frame victim t i = t i ==ℤ pos victim

abbrev forget_at : Pcb → List Pcb → List Pcb → Option ℕ → List Pcb
forget_at p rest searched none = p ∷ searched
forget_at p rest searched (some i) =
    record p { page_table = update p.page_table i minus_one } ∷ rest

-- The first entry of the first block in the queue that names the frame becomes -1.
unfoldable pub forget_in_queue : ℕ → List Pcb → List Pcb
forget_in_queue victim [] = []
forget_in_queue victim (p ∷ rest) =
    forget_at p rest (forget_in_queue victim rest)
      (scan (names_frame victim p.page_table) 0 page_table_size)

-- The lines of the victim that are printed, up to one that holds "none".
abbrev victim_text : Array Slot → ℕ → ℕ → CString
victim_text m j zero = []
victim_text m j (suc n) =
    let rest = victim_text m (j + 1) n in
    if str_eq none_text (m j).value then codes "\n" else (m j).value ++ rest

abbrev fault_text : Array Slot → ℕ → CString
fault_text m victim =
    codes "Page fault! Victim page contents:\n"
    ++ (victim_text m (victim * frame_size) frame_size ++ codes "End of victim page contents.\n")

-- Padding of a page behind the end of the file: the loop runs until a page is full.
unfoldable pub pad : ℕ → CString → ℕ → ℕ → Array Slot → Array Slot
pad zero filename i j m = m
pad (suc fuel) filename i j m =
    let rest =
      pad fuel filename i (j + 1)
        (update m j (record { var = filename; value = none_text; last_used = 0 })) in
    if not ((j - i) % frame_size == 0) then rest else m

-- The variables of the loading loop.
pub record Loading : Type 0 where
  pub slots : Array Slot
  pub file : Stream
  pub page_table : Array ℤ
  pub error_code : ℕ
  pub report : CString

abbrev pub no_space : ℕ
no_space = 21

abbrev full_text : ℕ → CString
full_text frame =
    codes "Page table not large enough to record frame# " ++ (decimal frame ++ codes "\n")

-- `line` was read for slot `j`; at the start of a page the page table takes the frame's number.
abbrev pub store_line : CString → ℕ → ℕ → ℕ → ℕ → Loading → Option CString → Stream → Loading
store_line filename timer page_num i j s none file = record s { file = file }
store_line filename timer page_num i j s (some text) file =
    let starts = (j - i) % frame_size == 0 in
    let fits = ltb page_num page_table_size in
    record {
      slots = update s.slots j (record { var = filename; value = text; last_used = timer });
      file = file;
      page_table =
          if starts && fits
          then update s.page_table page_num (pos (j / frame_size))
          else s.page_table;
      error_code = 0;
      report = if starts && not fits then s.report ++ full_text (j / frame_size) else s.report;
    }

module _ (threshold varmemsize : ℕ) where
  abbrev pub frame_store_size : ℕ
  frame_store_size = threshold / frame_size

  unfoldable pub lru_frame : Array Slot → ℕ
  lru_frame m = lru_from m 0 frame_store_size 0

  -- The victim, the pager and the given page table after its eviction.
  unfoldable pub pick_victim_frame : Array ℤ → Pager → ℕ × Pager × Array ℤ
  pick_victim_frame page_table p =
      let victim = lru_frame p.memory.slots in
      (
        victim,
        record {
          memory = record p.memory {
            slots = map_range (victim * frame_size) frame_size (λ _. evicted_slot) p.memory.slots;
          };
          queue = forget_in_queue victim p.queue;
          output = p.output ++ fault_text p.memory.slots victim;
        },
        map_range 0 page_table_size (forget victim) page_table,
      )

  -- The loop over `j` for one page that starts at slot `i`.
  unfoldable pub load_loop : ℕ → CString → ℕ → ℕ → ℕ → ℕ → Loading → Loading
  load_loop zero filename timer page_num i j s = s
  load_loop (suc fuel) filename timer page_num i j s =
      let read = fgets (varmemsize + threshold) s.file in
      let next =
        load_loop fuel filename timer page_num i (j + 1)
          (store_line filename timer page_num i j s read.0 read.1) in
      if not (leb j threshold)
      then s
      else if s.file.at_eof
      then record s { slots = pad frame_size filename i j s.slots }
      else if j == threshold
      then s
      else if (j - i) % frame_size == 0 && not (j == i)
      then s
      else next

  -- A page is at most three rounds and the one that leaves.
  abbrev load_fuel : ℕ
  load_fuel = 4

  unfoldable pub load_at : CString → ℕ → ℕ → Array ℤ → Stream → Pager → Loading
  load_at filename page_num i page_table fp p =
      load_loop load_fuel filename p.memory.timer page_num i i (record {
        slots = p.memory.slots;
        file = fp;
        page_table = page_table;
        error_code = no_space;
        report = [];
      })

  abbrev pub finish : Pager → Loading → ℕ × Pager × Array ℤ × Stream
  finish p l = (
    l.error_code,
    record p { memory = record p.memory { slots = l.slots }; output = p.output ++ l.report },
    l.page_table,
    l.file,
  )

  -- With no free slot: a victim is evicted and its frame is used, unless the file has ended.
  unfoldable pub load_evicting :
      CString → ℕ → Array ℤ → Stream → Pager → ℕ × Pager × Array ℤ × Stream
  load_evicting filename page_num page_table fp p =
      let (victim, p', page_table') = pick_victim_frame page_table p in
      if fp.at_eof
      then finish p (load_at filename page_num threshold page_table fp p)
      else finish p' (load_at filename page_num (victim * frame_size) page_table' fp p')

  abbrev load_into :
      CString → ℕ → Array ℤ → Stream → Pager → Option ℕ → ℕ × Pager × Array ℤ × Stream
  load_into filename page_num page_table fp p none = load_evicting filename page_num page_table fp p
  load_into filename page_num page_table fp p (some i) =
      finish p (load_at filename page_num i page_table fp p)

  -- The result code, the pager, the page table and the stream after the call.
  unfoldable pub load_page_into_frame_store :
      Stream → CString → Array ℤ → ℕ → Pager → ℕ × Pager × Array ℤ × Stream
  load_page_into_frame_store fp filename page_table page_num p =
      load_into filename page_num page_table fp p (scan (is_free p.memory.slots) 0 threshold)
