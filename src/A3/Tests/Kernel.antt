-- ===== src/A3/Tests/Kernel.antt =====
-- The theorems on the processes of a3 at concrete inputs.
use mcgill_ecse_427_operatin.Prelude.{
  ◌+◌, ◌*◌, ◌≤◌, ◌<◌, ◌≡◌, refl, true, ◌==◌, some, [], ◌∷◌, CString, codes, Array, update, arith,
}
use mcgill_ecse_427_operatin.Prelude.Scan.{scan}
use mcgill_ecse_427_operatin.Prelude.Text.{str_eq}
use mcgill_ecse_427_operatin.Prelude.Stdio.Lines.{NoNewline, line_of}
use mcgill_ecse_427_operatin.Prelude.Int.{ℤ, pos}
use mcgill_ecse_427_operatin.Prelude.Decimal.{decimal}
use mcgill_ecse_427_operatin.Prelude.Stdio.{open_stream}
use mcgill_ecse_427_operatin.A3.Memory.{Slot, frame_alloc, fits, occupy}
use mcgill_ecse_427_operatin.A3.Pcb.{Page, Pcb, new_pcb, load_page, page_evict}
use mcgill_ecse_427_operatin.A3.Pcb.Count.{script_text, page_table_size-lines}
use mcgill_ecse_427_operatin.A3.Pcb.Loading.{NextThree, IsLoaded, load_page-three}
use mcgill_ecse_427_operatin.A3.Pcb.Evicting.{page_evict-load_page}
use mcgill_ecse_427_operatin.A3.Machine.{Machine, ok, out_of_fuel, Cmd, pure, and_then}
use mcgill_ecse_427_operatin.A3.Schedule.{first_open, run_proc, run_proc_rr}
use mcgill_ecse_427_operatin.A3.Schedule.Faults.{
  RunsLine, counted, stepped, run_proc-line, run_proc-one,
}
use mcgill_ecse_427_operatin.A3.Schedule.Stuck.{IsStuck, run_proc_rr-stuck}
use mcgill_ecse_427_operatin.A3.Kernel.{new_proc}
use mcgill_ecse_427_operatin.Prelude.Words.{strip}
use mcgill_ecse_427_operatin.A3.Shell.{
  parse_input, parse_with, run_sections, next_token, strtok, until_semicolon, run_section, words_of,
  skip_spaces, read_word, words_loop, interpreter, dispatch,
}
use mcgill_ecse_427_operatin.A3.Schedule.Newline.{LeavesKernel, taken_off, new_proc-stuck}
use mcgill_ecse_427_operatin.A3.Tests.Host.{World, no_disk, blank_memory, start}

-- The script "help\nquit\n": the pages have a place more than it has lines.
page_table_size-lines_example :
    let b = new_pcb 6 4 1 (script_text (codes "help" ∷ (codes "quit" ∷ [])) []) in
    (b.size ≡ 3) × (3 ≤ 3 * b.page_table_size) × (3 * b.page_table_size < 6)
page_table_size-lines_example =
    page_table_size-lines 6 4 1 (codes "help" ∷ (codes "quit" ∷ [])) []
      (
        ((λ e. cc e), (refl, (refl, (refl, (refl, tt))))),
        (((λ e. cc e), (refl, (refl, (refl, (refl, tt))))), tt),
      )
      tt

is_help : (codes "help" ≡ []) → ⊥
is_help e = cc e

four : NoNewline (codes "help")
four = (refl, (refl, (refl, (refl, tt))))

-- A process with three lines and a rest to load.
abbrev script : CString
script = codes "help\nls\nquit\nset x 1\n"

abbrev fresh : Pcb
fresh = new_pcb 6 4 1 script

abbrev with_frame : Array Slot
with_frame = occupy 6 4 (decimal 1) 0 blank_memory

alloc : frame_alloc 6 4 (decimal 1) blank_memory ≡ some (0, with_frame)
unfolding frame_alloc scan fits str_eq
alloc = refl

three :
    NextThree (open_stream script) (codes "help") (codes "ls") (codes "quit") (codes "set x 1\n")
three = record {
  text = refl;
  first = (four, omega arith);
  second = ((refl, (refl, tt)), omega arith);
  third = ((refl, (refl, (refl, (refl, tt)))), omega arith);
}

load_page-three_example :
    (q : Pcb) × (m' : Array Slot) × (load_page 6 4 fresh 0 blank_memory ≡ some (q, m'))
    × IsLoaded 6 4 fresh 0 0 (codes "help") (codes "ls") (codes "quit") q m'
load_page-three_example =
    load_page-three 6 4 fresh 0 blank_memory with_frame 0 (codes "help") (codes "ls") (codes "quit")
      (codes "set x 1\n") alloc three

-- A page whose lines stand in the slots 3, 4 and 5.
abbrev page : Page
page = record { index = λ j. 3 + j; valid_bit = λ j. true; page_index = 0; page_pid = 1 }

abbrev used : Array Slot
used i = record { var = codes "1"; value = codes "ls\n" }

page_evict-load_page_example :
    (q : Pcb × Array Slot) × (load_page 6 4 fresh 0 (page_evict page used).1 ≡ some q)
page_evict-load_page_example =
    page_evict-load_page 6 4 3 page used fresh 0 (refl, refl, refl) (omega arith)

-- Every line returns the same code.
abbrev returns : ℤ → CString → Cmd World ℤ
returns code line = pure code

-- A block with its first page loaded and more of the script behind it.
abbrev ready : Pcb
ready = record {
  pid = 1;
  size = 5;
  program_counter = λ i. 0;
  page_table = λ i. record {
    index = λ j. 3 * i + 3 + j;
    valid_bit = λ j. true;
    page_index = i;
    page_pid = 1;
  };
  page_table_size = 2;
  source_file = open_stream script;
}

abbrev with_block : Pcb → Machine World
with_block b = record start {
  pcbs = update start.pcbs 0 (some b);
  lru_cache = (0, 1) ∷ ((0, 0) ∷ []);
  all_pcb = 0 ∷ [];
}

runs :
    (code : ℤ) → RunsLine 6 4 (returns code) 0 0 0 (with_block ready) code (with_block ready) ready
runs code = record { block = ready; at_p = refl; loaded = refl; parsed = refl; after = refl }

run_proc-line_example :
    run_proc 6 4 (returns (pos 0)) 0 0 0 (with_block ready)
    ≡ ok (pos 0) (record (counted 6 4 (returns (pos 0)) 0 0 0 (with_block ready) ready) {
      lru_cache = (0, 0) ∷ ((0, 1) ∷ []);
    })
run_proc-line_example =
    run_proc-line 6 4 (returns (pos 0)) 0 0 0 (with_block ready) (pos 0) (with_block ready) ready
      ((0, 1) ∷ []) [] (runs (pos 0)) refl refl ((ready, refl, λ e. absurd (omega arith)), tt)

run_proc-one_example :
    (q : Pcb) × (done : Machine World) × (run_proc 6 4 (returns (pos 1)) 0 0 0 (with_block ready)
      ≡ ok (pos 1) done)
    × (done.pcbs 0 ≡ some q)
    × IsLoaded 6 4 (stepped 0 ready) 0 0 (codes "help") (codes "ls") (codes "quit") q done.memory
    × (done.queue ≡ 0 ∷ [])
run_proc-one_example =
    run_proc-one 6 4 (returns (pos 1)) 0 0 0 (with_block ready) (with_block ready) ready 0
      with_frame (codes "help") (codes "ls") (codes "quit") (codes "set x 1\n") (runs (pos 1)) alloc
      three

-- The block for the script "help\n" after its line was run.
abbrev over : Pcb
over = record {
  pid = 1;
  size = 1;
  program_counter = update (λ i. 0) 0 1;
  page_table =
      λ i. record { index = λ j. j; valid_bit = λ j. j == 0; page_index = i; page_pid = 1 };
  page_table_size = 1;
  source_file = record { content = codes "help\n"; position = 5; at_eof = true };
}

abbrev stuck : Machine World
stuck = record start {
  pcbs = update start.pcbs 0 (some over);
  queue = 0 ∷ [];
  lru_cache = (0, 0) ∷ [];
  all_pcb = 0 ∷ [];
}

is_stuck : IsStuck 0 0 stuck
unfolding first_open
is_stuck = record {
  block = over;
  at_p = refl;
  starved = record {
    left = omega arith;
    next = refl;
    unloaded = refl;
    ended = refl;
    pids = λ k. refl;
    indices = λ k. refl;
  };
  cache = (refl, tt);
  all = refl;
}

run_proc_rr-stuck_example : run_proc_rr 6 4 (returns (pos 0)) 9 stuck ≡ out_of_fuel
run_proc_rr-stuck_example =
    run_proc_rr-stuck 6 4 0 0 (returns (pos 0)) 9 stuck (0, 0) [] is_stuck refl refl

-- The parser of a3, for one level of scripts.
abbrev parser : CString → Cmd World ℤ
parser = parse_input 6 4 no_disk (codes "/home") 9 0 1 1

quiet : LeavesKernel parser (line_of (codes "help")) (
    taken_off 6 4 parser
      (codes "help")
      (codes "s")
      start
      0
      with_frame
      is_help
      four
      (omega arith)
      alloc)
unfolding parse_input parse_with run_sections next_token strtok until_semicolon run_section words_of
    skip_spaces read_word words_loop interpreter dispatch str_eq strip
quiet = (pos 0, _, refl, refl, refl, refl, refl, refl)

new_proc-stuck_example :
    and_then
      (new_proc 6 4 (codes "s") (some (line_of (codes "help"))) start)
      (λ code. run_proc_rr 6 4 parser 50)
    ≡ out_of_fuel
new_proc-stuck_example =
    new_proc-stuck 6 4 parser (codes "help") (codes "s") start 0 with_frame is_help four
      (omega arith) alloc quiet refl refl refl 50
