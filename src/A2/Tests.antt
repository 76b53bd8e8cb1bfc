-- ===== src/A2/Tests.antt =====
-- The theorems on the memory and the ready queue of a2 at concrete inputs: six slots for frames and four for variables.
mod Commands
use mcgill_ecse_427_operatin.Prelude.{
  ℕ, ◌+◌, ◌/◌, ◌<◌, ◌≡◌, ◌≢◌, refl, false, ◌==◌, ◌||◌, none, some, [], ◌∷◌, ◌++◌, CString, codes,
  Array, update, if◌then◌else◌, arith, str_eq_refl,
}
use mcgill_ecse_427_operatin.Prelude.Int.{ℤ, pos, minus_one}
use mcgill_ecse_427_operatin.Prelude.Stdio.{Stream, open_stream, length}
use mcgill_ecse_427_operatin.Prelude.Stdio.Lines.{line_of, advance}
use mcgill_ecse_427_operatin.VarStore.Slots.{none_text}
use mcgill_ecse_427_operatin.A2.Memory.{
  ShellMemory, frame_size, evicted_slot, mem_set_value, mem_get_value,
}
use mcgill_ecse_427_operatin.A2.Memory.Store.{
  stores, IsDistinct, mem_set_value-map, mem_set_value-IsDistinct,
}
use mcgill_ecse_427_operatin.A2.Pcb.{Pcb}
use mcgill_ecse_427_operatin.A2.Paging.{
  Pager, Loading, no_space, frame_store_size, lru_frame, pick_victim_frame, load_loop, load_at,
  load_page_into_frame_store,
}
use mcgill_ecse_427_operatin.A2.Paging.Lru.{IsLru, lru_frame-IsLru}
use mcgill_ecse_427_operatin.A2.Paging.Evict.{Evicted, pick_victim_frame-Evicted}
use mcgill_ecse_427_operatin.A2.Paging.Load.{load_loop-enough}
use mcgill_ecse_427_operatin.A2.Paging.Rounds.{line_slot}
use mcgill_ecse_427_operatin.A2.Paging.Page.{load_at-page, ThreeLines}
use mcgill_ecse_427_operatin.A2.Paging.Outcome.{Outcome, load_at-Outcome}
use mcgill_ecse_427_operatin.A2.Paging.Gap.{OneLine, NextHole, OneLine-shares_frame}
use mcgill_ecse_427_operatin.A2.ReadyQueue.{
  null, ReadyQueue, ready_queue_add_to_tail, ready_queue_swap_with_next, ready_queue_destory,
}
use mcgill_ecse_427_operatin.A2.ReadyQueue.Chain.{IsQueue, ready_queue_add_to_tail-IsQueue}
use mcgill_ecse_427_operatin.A2.ReadyQueue.Destroy.{ready_queue_destory-IsQueue}
use mcgill_ecse_427_operatin.A2.ReadyQueue.Swap.{ready_queue_swap_with_next-IsQueue}

abbrev memory0 : ShellMemory
memory0 = record { slots = λ i. evicted_slot; timer = 7 }

-- Frame 0 was used at time 5, frame 1 at time 3; both hold lines of `a`.
abbrev used_memory : ShellMemory
used_memory = record {
  slots =
      λ i. record { var = codes "a"; value = codes "help\n"; last_used = if i == 3 then 3 else 5 };
  timer = 7;
}

abbrev pub empty_table : Array ℤ
empty_table i = minus_one

-- Page 0 is in frame 1, page 1 in frame 0.
abbrev crossed_table : Array ℤ
crossed_table i = if i == 0 then pos 1 else if i == 1 then pos 0 else minus_one

abbrev three_lines : Stream
three_lines = open_stream (codes "help\nmy_ls\nquit\n")

abbrev pub one_line : Stream
one_line = open_stream (codes "help\n")

abbrev pub process0 : Pcb
process0 = record {
  priority = false;
  pid = 0;
  pc = pos 3;
  job_length_score = 0;
  page_table = crossed_table;
  fp = one_line;
  filename = codes "a";
}

abbrev pub pager0 : Pager
pager0 = record { memory = memory0; queue = []; output = [] }

abbrev pub full_pager : Pager
full_pager = record { memory = used_memory; queue = process0 ∷ []; output = [] }

a_named : codes "a" ≢ none_text
a_named e = cc

whole_page : ThreeLines 10 three_lines (codes "help") (codes "my_ls") (codes "quit") []
whole_page = record {
  more = refl;
  text = refl;
  first = ((refl, (refl, (refl, (refl, tt)))), omega arith);
  second = ((refl, (refl, (refl, (refl, (refl, tt))))), omega arith);
  third = ((refl, (refl, (refl, (refl, tt)))), omega arith);
}

help_line : OneLine 10 one_line (codes "help")
help_line = record {
  more = refl;
  text = refl;
  fits = ((refl, (refl, (refl, (refl, tt)))), omega arith);
}

frame0_next : NextHole 6 pager0 0
frame0_next = record {
  aligned = omega arith;
  inside = omega arith;
  hole = record {
    lower = omega arith;
    upper = omega arith;
    hit = str_eq_refl none_text;
    before = λ l a b. absurd (omega arith);
  };
  neighbour = str_eq_refl none_text;
}

pick_victim_frame-Evicted_example :
    (let r = pick_victim_frame 6 4 crossed_table full_pager in
      (r.0 ≡ lru_frame 6 4 used_memory.slots) × Evicted full_pager crossed_table r.0 r.1 r.2)
pick_victim_frame-Evicted_example = pick_victim_frame-Evicted 6 4 crossed_table full_pager

lru_frame-IsLru_example :
    IsLru used_memory.slots (frame_store_size 6 4) (lru_frame 6 4 used_memory.slots)
lru_frame-IsLru_example = lru_frame-IsLru used_memory.slots 6 4 (omega arith)

load_at-page_example : load_at 6 4 (codes "a") 0 0 empty_table three_lines pager0 ≡ record {
  slots =
      update
        (update
          (update memory0.slots 0 (line_slot (codes "a") (line_of (codes "help")) 7))
          (0 + 1)
          (line_slot (codes "a") (line_of (codes "my_ls")) 7))
        (0 + 1 + 1)
        (line_slot (codes "a") (line_of (codes "quit")) 7);
  file = advance (length (line_of (codes "quit"))) (
      advance
        (length (line_of (codes "my_ls")))
        (advance (length (line_of (codes "help"))) three_lines));
  page_table = update empty_table 0 (pos (0 / frame_size));
  error_code = 0;
  report = [];
}
load_at-page_example =
    load_at-page 6 4 (codes "a") 0 0 empty_table three_lines pager0 (omega arith) (codes "help")
      (codes "my_ls") (codes "quit") [] whole_page (omega arith)

load_at-Outcome_example :
    (let l = load_at 6 4 (codes "a") 1 3 empty_table three_lines pager0 in
      Outcome three_lines 1 3 empty_table l.error_code l.page_table)
load_at-Outcome_example =
    load_at-Outcome 6 4 (codes "a") 1 3 empty_table three_lines pager0 (omega arith) (omega arith)
      (omega arith)

abbrev loading0 : Loading
loading0 = record {
  slots = memory0.slots;
  file = three_lines;
  page_table = empty_table;
  error_code = no_space;
  report = [];
}

OneLine-shares_frame_example :
    (let a = load_page_into_frame_store 6 4 one_line (codes "a") empty_table 0 pager0 in
      let b = load_page_into_frame_store 6 4 three_lines (codes "b") empty_table 0 a.1 in
      (a.0 ≡ 0) × (b.0 ≡ 0) × (a.2 0 ≡ pos (0 / frame_size)) × (b.2 0 ≡ pos (0 / frame_size)))
OneLine-shares_frame_example =
    OneLine-shares_frame 6 4 (codes "a") (codes "b") (codes "help") 0 empty_table empty_table
      one_line three_lines pager0 a_named help_line refl frame0_next

mem_set_value-map_example :
    (let m' = mem_set_value 6 4 (codes "x") (codes "5") memory0 in
      (mem_get_value 6 4 (codes "x") m' ≡ (
        if stores 6 4 (codes "x") memory0 || stores 6 4 none_text memory0
        then some (codes "5")
        else none))
      × ((j : CString)
          → j ≢ codes "x"
          → j ≢ none_text
          → mem_get_value 6 4 j m' ≡ mem_get_value 6 4 j memory0)
      × ((i : ℕ) → i < 6 → m'.slots i ≡ memory0.slots i)
      × (m'.timer ≡ memory0.timer))
mem_set_value-map_example = mem_set_value-map 6 4 (codes "x") (codes "5") memory0

-- The nodes 5 and 8.
abbrev queue0 : ReadyQueue
queue0 = record { head = 5; next = λ i. if i == 5 then 8 else null }

linked : IsQueue queue0 (5 ∷ (8 ∷ []))
linked = (refl, (λ e. omega arith), ((λ e. omega arith), tt), (refl, (λ e. omega arith), tt, refl))

ready_queue_add_to_tail-IsQueue_example :
    (q' : ReadyQueue) × (ready_queue_add_to_tail 2 9 queue0 ≡ some q')
    × IsQueue q' ((5 ∷ (8 ∷ [])) ++ (9 ∷ []))
ready_queue_add_to_tail-IsQueue_example =
    ready_queue_add_to_tail-IsQueue 2 9 queue0 (5 ∷ (8 ∷ [])) linked (λ e. omega arith)
      ((λ e. omega arith), ((λ e. omega arith), tt)) (omega arith)

-- The nodes 5, 8 and 9.
abbrev queue1 : ReadyQueue
queue1 = record { head = 5; next = λ i. if i == 5 then 8 else if i == 8 then 9 else null }

linked1 : IsQueue queue1 (5 ∷ (8 ∷ (9 ∷ [])))
linked1 = (
  refl,
  (λ e. omega arith),
  ((λ e. omega arith), ((λ e. omega arith), tt)),
  (refl, (λ e. omega arith), ((λ e. omega arith), tt), (refl, (λ e. omega arith), tt, refl)),
)

ready_queue_swap_with_next-IsQueue_example :
    (q' : ReadyQueue) × (ready_queue_swap_with_next 3 8 queue1 ≡ some q')
    × IsQueue q' ((5 ∷ []) ++ (9 ∷ (8 ∷ [])))
ready_queue_swap_with_next-IsQueue_example =
    ready_queue_swap_with_next-IsQueue 3 queue1 (5 ∷ []) 8 9 [] linked1 (omega arith)

ready_queue_destory-IsQueue_example : ready_queue_destory 3 queue1 ≡ some (5 ∷ (8 ∷ (9 ∷ [])))
ready_queue_destory-IsQueue_example =
    ready_queue_destory-IsQueue 3 queue1 (5 ∷ (8 ∷ (9 ∷ []))) linked1 (omega arith)
