-- ===== src/A3/LinkedList.antt =====
-- a3/linked_list.c: doubly linked lists with a dummy node at each end. Nodes stand at addresses, and
-- the arrays give their fields. The address that `malloc` returns is an argument.
use mcgill_ecse_427_operatin.Prelude.{
  ℕ, zero, suc, ◌+◌, ◌-◌, Bool, true, false, not, ◌==◌, leb, ltb, if◌then◌else◌, Option, none, some,
  Array, update,
}
pub mod Links
pub mod Ends
pub mod Search

abbrev pub null : ℕ
null = 0

-- `data` is `none` where it was never written, as in the dummy nodes.
pub record LinkedList (D : Type 0) : Type 0 where
  pub size : ℕ
  pub dummy_head : ℕ
  pub dummy_tail : ℕ
  pub next : Array ℕ
  pub prev : Array ℕ
  pub contents : Array (Option D)

-- What a call gives: a value, `exit(99)`, or a use of a null pointer or of data never written.
pub data Result (A : Type 0) : Type 0 where
  ok : A → Result A
  exit_99 crashed out_of_fuel : Result A

-- `index` steps from a node.
unfoldable pub walk : ℕ → Array ℕ → ℕ → ℕ
walk zero nexts node = node
walk (suc n) nexts node = walk n nexts (nexts node)

module _ {D : Type 0} where
  unfoldable pub list_init : (head tail : ℕ) → LinkedList D → LinkedList D
  list_init head tail l = record {
    size = 0;
    dummy_head = head;
    dummy_tail = tail;
    next = update (update l.next tail null) head tail;
    prev = update l.prev tail head;
    contents = update (update l.contents head none) tail none;
  }

  unfoldable list_clear : LinkedList D → LinkedList D
  list_clear l = record l {
    size = 0;
    next = update l.next l.dummy_head l.dummy_tail;
    prev = update l.prev l.dummy_tail l.dummy_head;
  }

  unfoldable has_next : LinkedList D → ℕ → Bool
  has_next l node = not (l.next node == null)

  -- The data of the node, and the pointer moved to the next one.
  unfoldable pub next : LinkedList D → ℕ → Option D × ℕ
  next l node = (l.contents node, l.next node)

  unfoldable pub add_tail : ℕ → D → LinkedList D → LinkedList D
  add_tail new d l =
      let old_tail = l.prev l.dummy_tail in
      record l {
        contents = update l.contents new (some d);
        next = update (update l.next old_tail new) new l.dummy_tail;
        prev = update (update l.prev new old_tail) l.dummy_tail new;
        size = l.size + 1;
      }

  unfoldable pub add_head : ℕ → D → LinkedList D → LinkedList D
  add_head new d l =
      let old_head = l.next l.dummy_head in
      record l {
        contents = update l.contents new (some d);
        prev = update (update l.prev old_head new) new l.dummy_head;
        next = update (update l.next new old_head) l.dummy_head new;
        size = l.size + 1;
      }

  -- `node->prev->next = node->next; node->next->prev = node->prev; size--`.
  unfoldable pub unlink : ℕ → LinkedList D → LinkedList D
  unlink node l =
      let next' = update l.next (l.prev node) (l.next node) in
      record l { next = next'; prev = update l.prev (next' node) (l.prev node); size = l.size - 1 }

  -- The data of the removed node, and the list without it.
  unfoldable pub pop_head : LinkedList D → Result (Option D × LinkedList D)
  pop_head l =
      let node = l.next l.dummy_head in
      if leb l.size 0 then exit_99 else ok (l.contents node, unlink node l)

  unfoldable pub pop_tail : LinkedList D → Result (Option D × LinkedList D)
  pop_tail l =
      let node = l.prev l.dummy_tail in
      if leb l.size 0 then exit_99 else ok (l.contents node, unlink node l)

  -- `none` is the null pointer for an invalid index; an index below 0 is one of these too.
  unfoldable pub get_node_by_index : LinkedList D → ℕ → Option ℕ
  get_node_by_index l index =
      if leb l.size index then none else some (walk index l.next (l.next l.dummy_head))

  abbrev data_at : LinkedList D → Option ℕ → Result (Option D)
  data_at l none = crashed
  data_at l (some node) = ok (l.contents node)

  unfoldable pub get_by_index : LinkedList D → ℕ → Result (Option D)
  get_by_index l index = data_at l (get_node_by_index l index)

  -- The first node that is equal by `equal`, which reads the data; behind the last node the loop reads
  -- the data of the dummy tail.
  module _ (equal : D → D → Bool) where
    abbrev pub test : D → Option D → Option Bool
    test target none = none
    test target (some d) = some (equal target d)

    unfoldable pub search_from : ℕ → LinkedList D → D → ℕ → Result (Option ℕ)
    search_from zero l target node = out_of_fuel
    search_from (suc fuel) l target node =
        let rest = search_from fuel l target (l.next node) in
        if node == null then ok none else elim (test target (l.contents node)) [
          | none ↦ crashed
          | some b ↦ if b then ok (some node) else rest
        ]

    -- The nodes and the dummy tail are `size + 1` rounds.
    unfoldable pub get_node_by_value : LinkedList D → D → Result (Option ℕ)
    get_node_by_value l target = search_from (l.size + 1) l target (l.next l.dummy_head)

    abbrev data_found : LinkedList D → Result (Option ℕ) → Result (Option D)
    data_found l (ok node) = data_at l node
    data_found l exit_99 = exit_99
    data_found l crashed = crashed
    data_found l out_of_fuel = out_of_fuel

    unfoldable pub get_by_value : LinkedList D → D → Result (Option D)
    get_by_value l target = data_found l (get_node_by_value l target)

    abbrev remove_found : LinkedList D → Result (Option ℕ) → Result (Option D × LinkedList D)
    remove_found l (ok none) = crashed
    remove_found l (ok (some node)) = ok (l.contents node, unlink node l)
    remove_found l exit_99 = exit_99
    remove_found l crashed = crashed
    remove_found l out_of_fuel = out_of_fuel

    unfoldable pub remove_elem : D → LinkedList D → Result (Option D × LinkedList D)
    remove_elem target l = remove_found l (get_node_by_value l target)

  unfoldable swap : ℕ → ℕ → LinkedList D → LinkedList D
  swap node1 node2 l = record l {
    contents = update (update l.contents node1 (l.contents node2)) node2 (l.contents node1);
  }
