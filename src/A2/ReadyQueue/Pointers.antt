-- ===== src/A2/ReadyQueue/Pointers.antt =====
-- The pointers between linked nodes: the node before another one, and two neighbours exchanged.
use mcgill_ecse_427_operatin.Prelude.{
  ℕ, zero, suc, ◌+◌, ◌≤◌, ◌≡◌, ◌≢◌, refl, sym, ◌∙◌, subst, false, ◌==◌, ==_iff, some, List, [], ◌∷◌,
  ◌++◌, Array, update, update_self, update_ne, arith,
}
use mcgill_ecse_427_operatin.Prelude.Stdio.{length}
use mcgill_ecse_427_operatin.A2.ReadyQueue.{null, node_before}
use mcgill_ecse_427_operatin.A2.ReadyQueue.Chain.{NotIn, Chain}

-- A chain reads only the pointers of its nodes.
pub Chain-update :
    (nexts : Array ℕ) (p : ℕ) (xs : List ℕ) (a v : ℕ)
    → Chain nexts p xs
    → NotIn a xs
    → Chain (update nexts a v) p xs
Chain-update nexts p [] a v c out = c
Chain-update nexts p (x ∷ xs) a v c out = (
  c.0,
  c.1,
  c.2,
  subst (λ q. Chain (update nexts a v) q xs) (sym (update_ne nexts a v x out.0))
      (Chain-update nexts (nexts x) xs a v c.3 out.1),
)

pub differs : (a b : ℕ) → a ≢ b → (a == b) ≡ false
differs a b ne = ground (arith, ==_iff a b)

pub head_differs :
    (nexts : Array ℕ) (p : ℕ) (xs : List ℕ) (a : ℕ)
    → Chain nexts p xs
    → a ≢ null
    → NotIn a xs
    → p ≢ a
head_differs nexts p [] a c ne out e = ne (sym e ∙ c)
head_differs nexts p (x ∷ xs) a c ne out e = out.0 (sym e ∙ c.0)

pub node_before-step :
    (rounds : ℕ) (nexts : Array ℕ) (a p : ℕ)
    → p ≢ null
    → nexts p ≢ a
    → node_before (suc rounds) nexts a p ≡ node_before rounds nexts a (nexts p)
unfolding node_before
node_before-step rounds nexts a p ne ne' = rw (differs p null ne, differs (nexts p) a ne')

-- Without a pointer to the node the loop ends at null.
pub node_before-absent :
    (rounds : ℕ) (nexts : Array ℕ) (p : ℕ) (xs : List ℕ) (a : ℕ)
    → Chain nexts p xs
    → length xs + 1 ≤ rounds
    → a ≢ null
    → NotIn a xs
    → node_before rounds nexts a p ≡ some null
unfolding node_before
node_before-absent zero nexts p xs a c k ne out = absurd (omega arith)
node_before-absent (suc rounds) nexts p [] a c k ne out = rw ((==_iff p null).1 c, c)
node_before-absent (suc rounds) nexts p (x ∷ xs) a c k ne out =
    let next = subst (λ q. Chain nexts (nexts q) xs) (sym c.0) c.3 in
    node_before-step rounds nexts a p (λ e. c.1 (sym c.0 ∙ e))
      (head_differs nexts (nexts p) xs a next ne out.1)
    ∙ node_before-absent rounds nexts (nexts p) xs a next (omega arith) ne out.1

pub NotIn-swap :
    (x : ℕ) (xs : List ℕ) (a b : ℕ) (ys : List ℕ)
    → NotIn x (xs ++ (a ∷ b ∷ ys))
    → NotIn x (xs ++ (b ∷ a ∷ ys))
NotIn-swap x [] a b ys out = (out.1.0, (out.0, out.1.1))
NotIn-swap x (z ∷ zs) a b ys out = (out.0, NotIn-swap x zs a b ys out.1)

pub NotIn-parts :
    (x : ℕ) (xs : List ℕ) (a b : ℕ) (ys : List ℕ) → NotIn x (xs ++ (a ∷ b ∷ ys)) → (x ≢ a) × (x ≢ b)
NotIn-parts x [] a b ys out = (out.0, out.1.0)
NotIn-parts x (z ∷ zs) a b ys out = NotIn-parts x zs a b ys out.1

-- The pointers after the node `b` behind `a` came in front of it.
abbrev pub swapped : Array ℕ → ℕ → ℕ → ℕ → Array ℕ
swapped nexts cur a b = update (update (update nexts cur b) b a) a (nexts b)

pub swapped-cur :
    (nexts : Array ℕ) (cur a b : ℕ) → cur ≢ a → cur ≢ b → swapped nexts cur a b cur ≡ b
swapped-cur nexts cur a b ne ne' =
    update_ne (update (update nexts cur b) b a) a (nexts b) cur (λ e. ne (sym e))
    ∙ update_ne (update nexts cur b) b a cur (λ e. ne' (sym e))
    ∙ update_self nexts cur b

pub swapped-other :
    (nexts : Array ℕ) (cur a b x : ℕ) → x ≢ cur → x ≢ a → x ≢ b → swapped nexts cur a b x ≡ nexts x
swapped-other nexts cur a b x n1 n2 n3 =
    update_ne (update (update nexts cur b) b a) a (nexts b) x (λ e. n2 (sym e))
    ∙ update_ne (update nexts cur b) b a x (λ e. n3 (sym e))
    ∙ update_ne nexts cur b x (λ e. n1 (sym e))

pub swapped-Chain :
    (nexts : Array ℕ) (cur a b : ℕ) (ys : List ℕ)
    → Chain nexts a (a ∷ b ∷ ys)
    → NotIn cur ys
    → Chain (swapped nexts cur a b) b (b ∷ a ∷ ys)
swapped-Chain nexts cur a b ys c out =
    let ne : a ≢ b = c.2.0 in
    let rest = c.3.3 in
    let step = c.3.0 in
    let tail =
      Chain-update (update (update nexts cur b) b a) (nexts b) ys a (nexts b)
        (Chain-update (update nexts cur b) (nexts b) ys b a
          (Chain-update nexts (nexts b) ys cur b rest out) c.3.2)
        c.2.1 in
    (
      refl,
      c.3.1,
      ((λ e. ne (sym e)), c.3.2),
      (
        update_ne (update (update nexts cur b) b a) a (nexts b) b ne
            ∙ update_self (update nexts cur b) b a,
        c.1,
        c.2.1,
        subst (λ q. Chain (swapped nexts cur a b) q ys)
            (sym (update_self (update (update nexts cur b) b a) a (nexts b))) tail,
      ),
    )

NotIn-behind :
    (x : ℕ) (xs : List ℕ) (a b : ℕ) (ys : List ℕ) → NotIn x (xs ++ (a ∷ b ∷ ys)) → NotIn x ys
NotIn-behind x [] a b ys out = out.1.1
NotIn-behind x (z ∷ zs) a b ys out = NotIn-behind x zs a b ys out.1

pub NotIn-front : (x : ℕ) (xs ys : List ℕ) → NotIn x (xs ++ ys) → NotIn x xs
NotIn-front x [] ys out = tt
NotIn-front x (z ∷ zs) ys out = (out.0, NotIn-front x zs ys out.1)
