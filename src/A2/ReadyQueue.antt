-- ===== src/A2/ReadyQueue.antt =====
-- a2/ready_queue.c: the ready queue as linked nodes. Nodes stand at addresses and the array `next` holds
-- their pointers. Only the printing reads the blocks of the nodes.
pub mod Chain
pub mod Destroy
pub mod Pointers
pub mod Swap
use mcgill_ecse_427_operatin.Prelude.{
  ℕ, zero, suc, Bool, not, ◌||◌, ◌==◌, if◌then◌else◌, Option, none, some, List, [], ◌∷◌, ◌++◌,
  CString, codes, Array, update,
}
use mcgill_ecse_427_operatin.Prelude.Decimal.{decimal}
use mcgill_ecse_427_operatin.A2.Pcb.{Pcb}

abbrev pub null : ℕ
null = 0

pub record ReadyQueue : Type 0 where
  pub head : ℕ
  pub next : Array ℕ

-- `while (cur->next != NULL) cur = cur->next;`, within a number of rounds.
unfoldable pub last_node : ℕ → Array ℕ → ℕ → Option ℕ
last_node zero nexts cur = none
last_node (suc rounds) nexts cur =
    let rest = last_node rounds nexts (nexts cur) in if nexts cur == null then some cur else rest

abbrev only_node : ℕ → ReadyQueue → ReadyQueue
only_node node q = record { head = node; next = update q.next node null }

abbrev pub behind : ℕ → ReadyQueue → Option ℕ → Option ReadyQueue
behind node q none = none
behind node q (some cur) = some (record q { next = update (update q.next cur node) node null })

unfoldable pub ready_queue_add_to_tail : ℕ → ℕ → ReadyQueue → Option ReadyQueue
ready_queue_add_to_tail rounds node q =
    if q.head == null
    then some (only_node node q)
    else behind node q (last_node rounds q.next q.head)

unfoldable ready_queue_add_to_head : ℕ → ReadyQueue → ReadyQueue
ready_queue_add_to_head node q =
    if q.head == null
    then only_node node q
    else record { head = node; next = update q.next node q.head }

unfoldable is_ready_empty : ReadyQueue → Bool
is_ready_empty q = q.head == null

-- The node, which is null for the empty queue, and the queue after it was taken off.
unfoldable pub ready_queue_pop_head : ReadyQueue → ℕ × ReadyQueue
ready_queue_pop_head q = (q.head, if q.head == null then q else record q { head = q.next q.head })

abbrev ready_queue_peek_head : ReadyQueue → ℕ
ready_queue_peek_head q = q.head

unfoldable ready_queue_peek_next : ReadyQueue → ℕ → ℕ
ready_queue_peek_next q current = if current == null then null else q.next current

-- `while (cur != NULL && cur->next != toSwap) cur = cur->next;`, within a number of rounds.
unfoldable pub node_before : ℕ → Array ℕ → ℕ → ℕ → Option ℕ
node_before zero nexts to_swap cur = none
node_before (suc rounds) nexts to_swap cur =
    let rest = node_before rounds nexts to_swap (nexts cur) in
    if cur == null || nexts cur == to_swap then some cur else rest

-- The first node and the second one change places; both are there, or a null pointer is read.
unfoldable pub swap_head : ℕ → ReadyQueue → Option ReadyQueue
swap_head to_swap q =
    let second = q.next q.head in
    if not (q.head == to_swap)
    then some q
    else if q.head == null || second == null
    then none
    else some (record {
      head = second;
      next = update (update q.next q.head (q.next second)) second q.head;
    })

-- The node behind `cur` and the one behind that change places; without a node `cur` nothing does.
unfoldable pub swap_behind : ℕ → ReadyQueue → ℕ → Option ReadyQueue
swap_behind to_swap q cur =
    let after = q.next (q.next cur) in
    if cur == null
    then some q
    else if q.next cur == null || after == null
    then none
    else some (record q {
      next = update (update (update q.next cur after) after to_swap) to_swap (q.next after);
    })

abbrev pub or_none : {A B : Type 0} → Option A → (A → Option B) → Option B
or_none none k = none
or_none (some a) k = k a

-- The loop starts at the node that was the first, also where that one has changed places.
unfoldable pub ready_queue_swap_with_next : ℕ → ℕ → ReadyQueue → Option ReadyQueue
ready_queue_swap_with_next rounds to_swap q =
    or_none (swap_head to_swap q)
      (λ q'. or_none (node_before rounds q'.next to_swap q.head) (swap_behind to_swap q'))

abbrev in_front : {A : Type 0} → A → Option (List A) → Option (List A)
in_front a none = none
in_front a (some rest) = some (a ∷ rest)

-- The nodes that the loop frees, in its order: the pointer of a node is read before the node is freed.
unfoldable pub nodes_from : ℕ → Array ℕ → ℕ → Option (List ℕ)
nodes_from zero nexts cur = none
nodes_from (suc rounds) nexts cur =
    let rest = nodes_from rounds nexts (nexts cur) in
    if nexts cur == null then some (cur ∷ []) else in_front cur rest

-- The nodes that are freed, within a number of rounds. The head still points at the first one after it.
unfoldable pub ready_queue_destory : ℕ → ReadyQueue → Option (List ℕ)
ready_queue_destory rounds q = if q.head == null then some [] else nodes_from rounds q.next q.head

abbrev line_of_pcb : Pcb → CString
line_of_pcb p =
    codes "\tPID: "
    ++ (decimal p.pid
        ++ (codes ", length: "
            ++ (decimal p.job_length_score
                ++ (codes ", priority: "
                    ++ (decimal (if p.priority then 1 else 0) ++ codes "\n")))))

abbrev text_behind : CString → Option CString → Option CString
text_behind line none = none
text_behind line (some rest) = some (line ++ rest)

-- The text that `print_ready_queue` prints for the blocks of the nodes, within a number of rounds.
unfoldable print_from : ℕ → Array Pcb → Array ℕ → ℕ → Option CString
print_from zero pcbs nexts cur = none
print_from (suc rounds) pcbs nexts cur =
    let rest = print_from rounds pcbs nexts (nexts cur) in
    if cur == null then some [] else text_behind (line_of_pcb (pcbs cur)) rest

unfoldable print_ready_queue : ℕ → Array Pcb → ReadyQueue → Option CString
print_ready_queue rounds pcbs q =
    if q.head == null
    then some (codes "ready queue is empty\n")
    else text_behind (codes "Ready queue: \n") (print_from rounds pcbs q.next q.head)
