-- ===== src/A3/Tests.antt =====
-- The theorems on a3 at concrete inputs.
mod Host
mod Kernel
mod Shell
mod Disk
use mcgill_ecse_427_operatin.Prelude.{
  ℕ, ◌≡◌, refl, Bool, ◌==◌, none, some, [], ◌∷◌, codes, Array, arith,
}
use mcgill_ecse_427_operatin.A3.Memory.{Slot, frame_alloc}
use mcgill_ecse_427_operatin.A3.Memory.Frames.{Allocation, frame_alloc-Allocation}
use mcgill_ecse_427_operatin.A3.LinkedList.{
  LinkedList, ok, list_init, add_tail, unlink, remove_elem,
}
use mcgill_ecse_427_operatin.A3.LinkedList.Ends.{
  IsList, IsFresh, list_init-IsList, add_tail-IsList, unlink-IsList,
}

-- Every slot is in use.
abbrev full_memory : Array Slot
full_memory i = record { var = codes "p"; value = codes "help" }

abbrev blank : LinkedList ℕ
blank = record {
  size = 0;
  dummy_head = 0;
  dummy_tail = 0;
  next = λ i. 0;
  prev = λ i. 0;
  contents = λ i. none;
}

-- The dummy nodes are 1 and 2; the nodes 3 and 4 hold 7 and 8.
abbrev list0 : LinkedList ℕ
list0 = list_init 1 2 blank

abbrev list1 : LinkedList ℕ
list1 = add_tail 3 7 list0

abbrev list2 : LinkedList ℕ
list2 = add_tail 4 8 list1

frame_alloc-Allocation_example :
    Allocation 6 4 (codes "q") full_memory (frame_alloc 6 4 (codes "q") full_memory)
frame_alloc-Allocation_example = frame_alloc-Allocation 6 4 (codes "q") full_memory

is0 : IsList list0 [] []
is0 = list_init-IsList 1 2 blank (λ e. omega arith) (λ e. omega arith)

fresh3 : IsFresh list0 [] 3
unfolding list_init
fresh3 = record {
  not_head = λ e. omega arith;
  not_tail = λ e. omega arith;
  not_node = tt;
  not_null = λ e. omega arith;
}

fresh4 : IsFresh list1 (3 ∷ []) 4
unfolding list_init add_tail
fresh4 = record {
  not_head = λ e. omega arith;
  not_tail = λ e. omega arith;
  not_node = ((λ e. omega arith), tt);
  not_null = λ e. omega arith;
}

add_tail-IsList_example : IsList (add_tail 3 7 list0) (3 ∷ []) (7 ∷ [])
add_tail-IsList_example = add_tail-IsList 3 7 is0 fresh3

is1 : IsList list1 (3 ∷ []) (7 ∷ [])
is1 = add_tail-IsList 3 7 is0 fresh3

is2 : IsList list2 (3 ∷ (4 ∷ [])) (7 ∷ (8 ∷ []))
is2 = add_tail-IsList 4 8 is1 fresh4
