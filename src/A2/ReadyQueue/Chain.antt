-- ===== src/A2/ReadyQueue/Chain.antt =====
-- The linked nodes as a list: adding to the tail appends, and popping takes the first.
use mcgill_ecse_427_operatin.Prelude.{
  ℕ, zero, suc, ◌≤◌, ◌≡◌, ◌≢◌, refl, sym, ap, ◌∙◌, false, ◌==◌, ==_iff, some, List, [], ◌∷◌, ◌++◌,
  Array, update, update_self, update_ne, arith,
}
use mcgill_ecse_427_operatin.Prelude.Stdio.{length}
use mcgill_ecse_427_operatin.A2.ReadyQueue.{
  null, ReadyQueue, last_node, ready_queue_add_to_tail, ready_queue_pop_head,
}

abbrev pub NotIn : ℕ → List ℕ → Type 0
NotIn a [] = Unit {0}
NotIn a (x ∷ xs) = (a ≢ x) × NotIn a xs

-- From the pointer `p` the nodes `xs` follow one another, up to a null pointer.
abbrev pub Chain : Array ℕ → ℕ → List ℕ → Type 0
Chain nexts p [] = p ≡ null
Chain nexts p (x ∷ xs) = (p ≡ x) × (x ≢ null) × NotIn x xs × Chain nexts (nexts x) xs

abbrev pub IsQueue : ReadyQueue → List ℕ → Type 0
IsQueue q xs = Chain q.next q.head xs

NotIn-snoc : (a n : ℕ) (xs : List ℕ) → NotIn a xs → a ≢ n → NotIn a (xs ++ (n ∷ []))
NotIn-snoc a n [] out ne = (ne, tt)
NotIn-snoc a n (x ∷ xs) out ne = (out.0, NotIn-snoc a n xs out.1 ne)

-- The last node of a chain, where it stands, and the chain with a node behind it.
record Appended (rounds : ℕ) (nexts : Array ℕ) (x : ℕ) (xs : List ℕ) (n : ℕ) : Type 0 where
  cur : ℕ
  found : last_node rounds nexts x ≡ some cur
  inside : (y : ℕ) → NotIn y (x ∷ xs) → y ≢ cur
  chain : Chain (update (update nexts cur n) n null) x (x ∷ (xs ++ (n ∷ [])))

last_here :
    (rounds : ℕ) (nexts : Array ℕ) (x : ℕ)
    → nexts x ≡ null
    → last_node (suc rounds) nexts x ≡ some x
unfolding last_node
last_here rounds nexts x e = rw e

last_further :
    (rounds : ℕ) (nexts : Array ℕ) (x : ℕ)
    → nexts x ≢ null
    → last_node (suc rounds) nexts x ≡ last_node rounds nexts (nexts x)
unfolding last_node
last_further rounds nexts x ne = ground (arith, ==_iff (nexts x) null)

append :
    (rounds : ℕ) (nexts : Array ℕ) (x : ℕ) (xs : List ℕ) (n : ℕ)
    → Chain nexts x (x ∷ xs)
    → n ≢ null
    → NotIn n (x ∷ xs)
    → length (x ∷ xs) ≤ rounds
    → Appended rounds nexts x xs n
append zero nexts x xs n c ne out k = absurd (omega arith)
append (suc rounds) nexts x [] n c ne out k = record {
  cur = x;
  found = last_here rounds nexts x c.3;
  inside = λ y h. h.0;
  chain = (
    refl,
    c.1,
    ((λ e. out.0 (sym e)), tt),
    (
      update_ne (update nexts x n) n null x out.0 ∙ update_self nexts x n,
      ne,
      tt,
      update_self (update nexts x n) n null,
    ),
  );
}
append (suc rounds) nexts x (y ∷ ys) n c ne out k =
    let step = c.3.0 in
    let rest = append rounds nexts y ys n (refl, c.3.1, c.3.2, c.3.3) ne out.1 (omega arith) in
    let other : x ≢ rest.cur = rest.inside x c.2 in
    record {
      cur = rest.cur;
      found =
          last_further rounds nexts x (λ e. c.3.1 (sym step ∙ e))
          ∙ ap (last_node rounds nexts) step
          ∙ rest.found;
      inside = λ z h. rest.inside z h.1;
      chain = (
        refl,
        c.1,
        (c.2.0, NotIn-snoc x n ys c.2.1 (λ e. out.0 (sym e))),
        (
          update_ne (update nexts rest.cur n) n null x out.0
              ∙ update_ne nexts rest.cur n x (λ e. other (sym e))
              ∙ step,
          rest.chain.1,
          rest.chain.2,
          rest.chain.3,
        ),
      );
    }

-- On nodes that are linked as the list `xs` and a new node that is not null and not among them,
-- `ready_queue_add_to_tail` returns, with as many rounds as the queue has nodes, and the nodes are
-- then linked as `xs` with the new one behind.
pub ready_queue_add_to_tail-IsQueue :
    (rounds node : ℕ) (q : ReadyQueue) (xs : List ℕ)
    → IsQueue q xs
    → node ≢ null
    → NotIn node xs
    → length xs ≤ rounds
    → (q' : ReadyQueue) × (ready_queue_add_to_tail rounds node q ≡ some q')
      × IsQueue q' (xs ++ (node ∷ []))
unfolding ready_queue_add_to_tail
ready_queue_add_to_tail-IsQueue rounds node q [] is ne out k = (
  record { head = node; next = update q.next node null },
  ground (arith, is),
  (refl, ne, tt, update_self q.next node null),
)
ready_queue_add_to_tail-IsQueue rounds node q (x ∷ xs) is ne out k =
    let a = append rounds q.next x xs node (refl, is.1, is.2, is.3) ne out k in
    (
      record q { next = update (update q.next a.cur node) node null },
      ground (arith, is.0, is.1, a.found),
      (is.0, a.chain.1, a.chain.2, a.chain.3),
    )

popped :
    (q : ReadyQueue) (x : ℕ)
    → q.head ≡ x
    → x ≢ null
    → (ready_queue_pop_head q).1 ≡ record q { head = q.next x }
unfolding ready_queue_pop_head
popped q x e ne = rw (e, sound x ne)
  where
    sound : (x : ℕ) → x ≢ null → (x == null) ≡ false
    sound x ne = ground (arith, ==_iff x null)

-- On nodes that are linked as a list with a first node, `ready_queue_pop_head` returns that node and
-- the others stay linked in order.
ready_queue_pop_head-IsQueue :
    (q : ReadyQueue) (x : ℕ) (xs : List ℕ)
    → IsQueue q (x ∷ xs)
    → ((ready_queue_pop_head q).0 ≡ x) × IsQueue (ready_queue_pop_head q).1 xs
unfolding ready_queue_pop_head
ready_queue_pop_head-IsQueue q x xs is = (is.0, rw (popped q x is.0 is.1) is.3)
