-- ===== src/A2/ReadyQueue/Swap.antt =====
-- The linked nodes as a list: a node and the one behind it change places.
use mcgill_ecse_427_operatin.Prelude.{
  ℕ, zero, suc, ◌≤◌, ◌≡◌, ◌≢◌, refl, sym, ap, ◌∙◌, subst, ==_iff, some, List, [], ◌∷◌, ◌++◌, Array,
  update, update_self, update_ne, arith,
}
use mcgill_ecse_427_operatin.Prelude.Stdio.{length}
use mcgill_ecse_427_operatin.A2.ReadyQueue.{
  null, ReadyQueue, node_before, swap_head, swap_behind, or_none, ready_queue_swap_with_next,
}
use mcgill_ecse_427_operatin.A2.ReadyQueue.Chain.{NotIn, Chain, IsQueue}
use mcgill_ecse_427_operatin.A2.ReadyQueue.Pointers.{
  Chain-update, differs, head_differs, node_before-step, node_before-absent, NotIn-swap,
  NotIn-parts, swapped, swapped-cur, swapped-other, swapped-Chain, NotIn-front,
}

-- The node in front of `a`, where it stands, and the chain after the swap.
record Swapped (rounds : ℕ) (nexts : Array ℕ) (x : ℕ) (xs : List ℕ) (a b : ℕ) (ys : List ℕ)
    : Type 0 where
  cur : ℕ
  found : node_before rounds nexts a x ≡ some cur
  not_null : cur ≢ null
  points : nexts cur ≡ a
  first_there : a ≢ null
  next : nexts a ≡ b
  second_there : b ≢ null
  inside : (y : ℕ) → NotIn y (x ∷ xs) → y ≢ cur
  chain : Chain (swapped nexts cur a b) x (x ∷ (xs ++ (b ∷ a ∷ ys)))

found_here :
    (rounds : ℕ) (nexts : Array ℕ) (a p : ℕ)
    → p ≢ null
    → nexts p ≡ a
    → node_before (suc rounds) nexts a p ≡ some p
unfolding node_before
found_here rounds nexts a p ne e = rw (differs p null ne, (==_iff (nexts p) a).1 e)

swap_inside :
    (rounds : ℕ) (nexts : Array ℕ) (x : ℕ) (xs : List ℕ) (a b : ℕ) (ys : List ℕ)
    → Chain nexts x (x ∷ (xs ++ (a ∷ b ∷ ys)))
    → length (x ∷ xs) ≤ rounds
    → Swapped rounds nexts x xs a b ys
swap_inside zero nexts x xs a b ys c k = absurd (omega arith)
swap_inside (suc rounds) nexts x [] a b ys c k =
    let behind = subst (λ q. Chain nexts q (a ∷ b ∷ ys)) c.3.0 c.3 in
    record {
      cur = x;
      found = found_here rounds nexts a x c.1 c.3.0;
      not_null = c.1;
      points = c.3.0;
      first_there = behind.1;
      next = behind.3.0;
      second_there = behind.3.1;
      inside = λ y h. h.0;
      chain = (
        refl,
        c.1,
        NotIn-swap x [] a b ys c.2,
        subst (λ q. Chain (swapped nexts x a b) q (b ∷ a ∷ ys))
            (sym (swapped-cur nexts x a b c.2.0 c.2.1.0))
            (swapped-Chain nexts x a b ys behind c.2.1.1),
      );
    }
swap_inside (suc rounds) nexts x (y ∷ zs) a b ys c k =
    let step = c.3.0 in
    let from_y = subst (λ q. Chain nexts q (y ∷ (zs ++ (a ∷ b ∷ ys)))) step c.3 in
    let rest = swap_inside rounds nexts y zs a b ys from_y (omega arith) in
    let parts = NotIn-parts x (y ∷ zs) a b ys c.2 in
    let y_parts = NotIn-parts y zs a b ys from_y.2 in
    record {
      cur = rest.cur;
      found =
          node_before-step rounds nexts a x c.1 (λ e. y_parts.0 (sym step ∙ e))
          ∙ ap (node_before rounds nexts a) step
          ∙ rest.found;
      not_null = rest.not_null;
      points = rest.points;
      first_there = rest.first_there;
      next = rest.next;
      second_there = rest.second_there;
      inside = λ z h. rest.inside z h.1;
      chain = (
        refl,
        c.1,
        NotIn-swap x (y ∷ zs) a b ys c.2,
        subst (λ q. Chain (swapped nexts rest.cur a b) q (y ∷ (zs ++ (b ∷ a ∷ ys))))
            (sym (
              swapped-other nexts rest.cur a b x
                (rest.inside x (NotIn-front x (y ∷ zs) (a ∷ b ∷ ys) c.2)) parts.0 parts.1
              ∙ step))
            rest.chain,
      );
    }

swap_behind-points :
    (q : ReadyQueue) (cur a b : ℕ)
    → cur ≢ null
    → q.next cur ≡ a
    → a ≢ null
    → q.next a ≡ b
    → b ≢ null
    → swap_behind a q cur ≡ some (record q { next = swapped q.next cur a b })
unfolding swap_behind
swap_behind-points q cur a b ne points na next nb =
    rw (differs cur null ne, points, differs a null na, next, differs b null nb)

swap_head-other : (q : ReadyQueue) (a : ℕ) → q.head ≢ a → swap_head a q ≡ some q
unfolding swap_head
swap_head-other q a ne = rw (differs q.head a ne)

-- The queue after its first two nodes changed places.
abbrev head_swapped : ReadyQueue → ℕ → ℕ → ReadyQueue
head_swapped q a b = record { head = b; next = update (update q.next a (q.next b)) b a }

swap_head-first :
    (q : ReadyQueue) (a b : ℕ)
    → q.head ≡ a
    → a ≢ null
    → q.next a ≡ b
    → b ≢ null
    → swap_head a q ≡ some (head_swapped q a b)
unfolding swap_head
swap_head-first q a b e na next nb =
    rw (e, (==_iff a a).1 refl, differs a null na, next, differs b null nb)

length-front : (xs ys : List ℕ) → length xs ≤ length (xs ++ ys)
length-front [] ys = omega arith
length-front (_ ∷ xs) ys = let rest = length-front xs ys in omega arith

-- On nodes that are linked as a list with a node `a` in front of a node `b`, and with a round for
-- each node, `ready_queue_swap_with_next` on `a` returns, and the nodes are then linked with these
-- two in the other order, the others in their places.
pub ready_queue_swap_with_next-IsQueue :
    (rounds : ℕ) (q : ReadyQueue) (xs : List ℕ) (a b : ℕ) (ys : List ℕ)
    → IsQueue q (xs ++ (a ∷ b ∷ ys))
    → length (xs ++ (a ∷ b ∷ ys)) ≤ rounds
    → (q' : ReadyQueue) × (ready_queue_swap_with_next rounds a q ≡ some q')
      × IsQueue q' (xs ++ (b ∷ a ∷ ys))
unfolding ready_queue_swap_with_next swap_behind
ready_queue_swap_with_next-IsQueue zero q [] a b ys is k = absurd (omega arith)
ready_queue_swap_with_next-IsQueue (suc rounds) q [] a b ys is k =
    let q1 = head_swapped q a b in
    let ne : a ≢ b = is.2.0 in
    let next_a : q1.next a ≡ q.next b =
      update_ne (update q.next a (q.next b)) b a a (λ e. ne (sym e))
      ∙ update_self q.next a (q.next b) in
    let tail : Chain q1.next (q1.next a) ys =
      subst (λ p. Chain q1.next p ys) (sym next_a)
        (Chain-update (update q.next a (q.next b)) (q.next b) ys b a
          (Chain-update q.next (q.next b) ys a (q.next b)
            (subst (λ p. Chain q.next (q.next p) ys) refl is.3.3) is.2.1)
          is.3.2) in
    let none_before =
      ap (node_before (suc rounds) q1.next a) is.0
      ∙ node_before-step rounds q1.next a a is.1
          (head_differs q1.next (q1.next a) ys a tail is.1 is.2.1)
      ∙ node_before-absent rounds q1.next (q1.next a) ys a tail (omega arith) is.1 is.2.1 in
    (
      q1,
      ap
            (λ o.
              or_none o
                (λ q'. or_none (node_before (suc rounds) q'.next a q.head) (swap_behind a q')))
            (swap_head-first q a b is.0 is.1 is.3.0 is.3.1)
          ∙ ap (λ o. or_none o (swap_behind a q1)) none_before,
      (
        refl,
        is.3.1,
        ((λ e. ne (sym e)), is.3.2),
        (update_self (update q.next a (q.next b)) b a, is.1, is.2.1, tail),
      ),
    )
ready_queue_swap_with_next-IsQueue rounds q (x ∷ xs) a b ys is k =
    let rest =
      swap_inside rounds q.next x xs a b ys (refl, is.1, is.2, is.3)
        (omega (arith, k, length-front xs (a ∷ b ∷ ys))) in
    let parts = NotIn-parts x xs a b ys is.2 in
    (
      record q { next = swapped q.next rest.cur a b },
      ap (λ o. or_none o (λ q'. or_none (node_before rounds q'.next a q.head) (swap_behind a q')))
            (swap_head-other q a (λ e. parts.0 (sym is.0 ∙ e)))
          ∙ ap (λ o. or_none o (swap_behind a q))
              (ap (node_before rounds q.next a) is.0 ∙ rest.found)
          ∙ swap_behind-points q rest.cur a b rest.not_null rest.points rest.first_there rest.next
              rest.second_there,
      (is.0, rest.chain.1, rest.chain.2, rest.chain.3),
    )
