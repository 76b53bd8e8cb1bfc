-- ===== src/A3/Pcb.antt =====
-- a3/pcb.c and pcb.h: process control blocks and their pages, on the slots of A3/Memory.
pub mod Count
pub mod Evicting
pub mod Loading
use mcgill_ecse_427_operatin.Prelude.{
  ℕ, zero, suc, ◌+◌, ◌/◌, ◌%◌, Bool, true, false, not, ◌&&◌, ◌==◌, ltb, if◌then◌else◌, Option, none,
  some, [], ◌∷◌, ◌++◌, CString, codes, Array, update,
}
use mcgill_ecse_427_operatin.Prelude.Decimal.{decimal}
use mcgill_ecse_427_operatin.Prelude.Stdio.{Stream, open_stream, newline, fgets}
use mcgill_ecse_427_operatin.A3.Memory.{
  Slot, mem_free_at, mem_set_value_at, mem_get_value_at, frame_alloc,
}

-- A page has three lines: their positions in the memory, and whether each was loaded.
pub record Page : Type 0 where
  pub index : Array ℕ
  pub valid_bit : Array Bool
  pub page_index : ℕ
  pub page_pid : ℕ

-- `program_counter` and `page_table` have `page_table_size` entries. The size is the number of lines
-- still to run.
pub record Pcb : Type 0 where
  pub pid : ℕ
  pub size : ℕ
  pub program_counter : Array ℕ
  pub page_table : Array Page
  pub page_table_size : ℕ
  pub source_file : Stream

-- `last` is the byte before the text.
unfoldable pub count_from : ℕ → CString → ℕ
count_from last [] = 0
count_from last (c ∷ s) =
    let rest = count_from c s in if c == newline && not (last == newline) then rest + 1 else rest

-- The count for a file with these bytes; the code -1 of a file that is not there is never read.
unfoldable pub count_lines : CString → ℕ
count_lines bytes = count_from newline bytes + 1

unfoldable pub page_table_size_of : ℕ → ℕ
page_table_size_of lines = if lines % 3 == 0 then lines / 3 else lines / 3 + 1

abbrev pub page_init : ℕ → ℕ → Page
page_init page_pid page_table_index = record {
  index = λ i. 1000;
  valid_bit = λ i. false;
  page_index = page_table_index;
  page_pid = page_pid;
}

-- All of the first `n` counters from `i` are 3.
unfoldable pub done_from : Array ℕ → ℕ → ℕ → Bool
done_from counters i zero = true
done_from counters i (suc n) = (counters i == 3) && done_from counters (i + 1) n

unfoldable pub pcb_done : Pcb → Bool
pcb_done p = done_from p.program_counter 0 p.page_table_size

abbrev pcb_equal : Pcb → Pcb → Bool
pcb_equal p q = p.pid == q.pid

abbrev pub page_equal : Page → Page → Bool
page_equal p q = p.index 0 == q.index 0

-- The page, the memory and the stream that the loading of lines changes.
pub record Load : Type 0 where
  pub page : Page
  pub memory : Array Slot
  pub file : Stream

abbrev pub line_room : ℕ
line_room = 999

-- The line `j` of the page takes the text.
abbrev pub put_line : CString → ℕ → CString → Stream → Load → Load
put_line pid_str j line f l = record {
  page = record l.page { valid_bit = update l.page.valid_bit j true };
  memory = mem_set_value_at (l.page.index j) pid_str line l.memory;
  file = f;
}

-- The loop over the lines of a page, which stops where the file has ended.
unfoldable pub load_lines : ℕ → ℕ → CString → Load → Load
load_lines zero j pid_str l = l
load_lines (suc n) j pid_str l =
    let read = fgets line_room l.file in
    elim read.0 [
      | none ↦ record l { file = read.1 }
      | some line ↦ load_lines n (j + 1) pid_str (put_line pid_str j line read.1 l)
    ]

-- What `frame_alloc` writes to the page that it is given.
abbrev pub place_page : ℕ → Page → Page
place_page start page = record page { index = λ j. start + j; valid_bit = λ j. false }

abbrev pub with_load : ℕ → Pcb → Load → Pcb × Array Slot
with_load page_index p l = (
  record p { page_table = update p.page_table page_index l.page; source_file = l.file },
  l.memory,
)

-- `PAGE_evict`, from line `i` of the page for `n` lines: the text printed, the memory and the page.
unfoldable pub evict_lines : ℕ → ℕ → CString × Array Slot × Page → CString × Array Slot × Page
evict_lines zero i (text, m, page) = (text, m, page)
evict_lines (suc n) i (text, m, page) = evict_lines n (i + 1) (
  text ++ mem_get_value_at (page.index i) m,
  mem_free_at (page.index i) m,
  record page { index = update page.index i 0; valid_bit = update page.valid_bit i false },
)

unfoldable pub page_evict : Page → Array Slot → CString × Array Slot × Page
page_evict page m =
    let r = evict_lines 3 0 (codes "Page fault! Victim page contents:\n", m, page) in
    (r.0 ++ codes "End of victim page contents.\n", r.1, r.2)

module _ (frame_store_size var_store_size : ℕ) where
  abbrev pub load_placed : Pcb → ℕ → Option (ℕ × Array Slot) → Option (Pcb × Array Slot)
  load_placed p page_index none = none
  load_placed p page_index (some (start, m)) = some (
      with_load page_index p (
        load_lines 3 0 (decimal p.pid) (record {
          page = place_page start (p.page_table page_index);
          memory = m;
          file = p.source_file;
        })))

  -- The next three lines of the script go to a new frame; `none` is the code 1, for no frame.
  unfoldable pub load_page : Pcb → ℕ → Array Slot → Option (Pcb × Array Slot)
  load_page p page_index m =
      load_placed p page_index (frame_alloc frame_store_size var_store_size (decimal p.pid) m)

  -- A block before any page is loaded.
  abbrev pub new_pcb : ℕ → CString → Pcb
  new_pcb pid bytes = record {
    pid = pid;
    size = count_lines bytes;
    program_counter = λ i. 0;
    page_table = page_init pid;
    page_table_size = page_table_size_of (count_lines bytes);
    source_file = open_stream bytes;
  }

  abbrev pub page_limit : Pcb → ℕ
  page_limit p = if ltb p.page_table_size 2 then p.page_table_size else 2

  abbrev with_loaded :
      (Pcb → Array Slot → (Option Pcb) × Array Slot)
      → Array Slot
      → Option (Pcb × Array Slot)
      → (Option Pcb) × Array Slot
  with_loaded next m none = (none, m)
  with_loaded next m (some (q, m')) = next q m'

  -- The first `n` pages from `i` are loaded. Where one finds no frame the
  -- result is `none` and the memory.
  unfoldable pub load_pages : ℕ → ℕ → Pcb → Array Slot → (Option Pcb) × Array Slot
  load_pages zero i p m = (some p, m)
  load_pages (suc n) i p m = with_loaded (load_pages n (i + 1)) m (load_page p i m)

  -- The block for a file with these bytes, or `none` where the program prints the memory and exits.
  unfoldable pub pcb_init : ℕ → CString → Array Slot → (Option Pcb) × Array Slot
  pcb_init pid bytes m = let p = new_pcb pid bytes in load_pages (page_limit p) 0 p m
