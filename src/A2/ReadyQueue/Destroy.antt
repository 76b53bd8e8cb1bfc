-- ===== src/A2/ReadyQueue/Destroy.antt =====
-- The nodes that the destruction of the queue frees.
use mcgill_ecse_427_operatin.Prelude.{
  ℕ, zero, suc, ◌≤◌, ◌≡◌, ◌≢◌, refl, false, ◌==◌, ==_iff, some, List, [], ◌∷◌, Array, arith,
}
use mcgill_ecse_427_operatin.Prelude.Stdio.{length}
use mcgill_ecse_427_operatin.A2.ReadyQueue.{null, ReadyQueue, nodes_from, ready_queue_destory}
use mcgill_ecse_427_operatin.A2.ReadyQueue.Chain.{Chain, IsQueue}

not_null : (x : ℕ) → x ≢ null → (x == null) ≡ false
not_null x ne = ground (arith, ==_iff x null)

nodes_from-Chain :
    (rounds : ℕ) (nexts : Array ℕ) (x : ℕ) (xs : List ℕ)
    → Chain nexts x (x ∷ xs)
    → length (x ∷ xs) ≤ rounds
    → nodes_from rounds nexts x ≡ some (x ∷ xs)
unfolding nodes_from
nodes_from-Chain zero nexts x xs c k = absurd (omega arith)
nodes_from-Chain (suc rounds) nexts x [] c k = rw c.3
nodes_from-Chain (suc rounds) nexts x (y ∷ ys) c k =
    let step = c.3.0 in
    rw (
      step,
      not_null y c.3.1,
      nodes_from-Chain rounds nexts y ys (refl, c.3.1, c.3.2, c.3.3) (omega arith),
    )

-- On nodes that are linked as a list, `ready_queue_destory` returns, with as many rounds as the
-- queue has nodes, and frees these nodes in their order, each of them once.
pub ready_queue_destory-IsQueue :
    (rounds : ℕ) (q : ReadyQueue) (xs : List ℕ)
    → IsQueue q xs
    → length xs ≤ rounds
    → ready_queue_destory rounds q ≡ some xs
unfolding ready_queue_destory
ready_queue_destory-IsQueue rounds q [] is k = rw is
ready_queue_destory-IsQueue rounds q (x ∷ xs) is k =
    rw (is.0, not_null x is.1, nodes_from-Chain rounds q.next x xs (refl, is.1, is.2, is.3) k)
