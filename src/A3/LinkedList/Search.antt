-- ===== src/A3/LinkedList/Search.antt =====
-- Finding nodes: by index, and by value up to the equality that the list was made with.
use mcgill_ecse_427_operatin.Prelude.{
  ℕ, zero, suc, ◌+◌, ◌≡◌, ◌≢◌, sym, ap, ◌∙◌, Bool, true, false, List, [], ◌∷◌, ◌++◌, Array, arith,
  Option, some, none, ◌<◌,
}
use mcgill_ecse_427_operatin.Prelude.Stdio.{length}
use mcgill_ecse_427_operatin.A3.LinkedList.{
  LinkedList, null, ok, crashed, unlink, walk, get_node_by_index, get_by_index, search_from,
  get_node_by_value, remove_elem, get_by_value,
}
use mcgill_ecse_427_operatin.A3.LinkedList.Links.{Links, NotIn}
use mcgill_ecse_427_operatin.A3.LinkedList.Ends.{Holds, IsList, unlink-IsList}

walk-node :
    (nx pv : Array ℕ) (p : ℕ) (xs : List ℕ) (x : ℕ) (ys : List ℕ) (t : ℕ)
    → Links nx pv p (xs ++ (x ∷ ys)) t
    → walk (length xs) nx (nx p) ≡ x
unfolding walk
walk-node nx pv p [] x ys t l = l.0
walk-node nx pv p (w ∷ ws) x ys t l = rw l.0 (walk-node nx pv w ws x ys t l.2)

length-middle :
    {A : Type 0} (xs : List A) (x : A) (ys : List A) → length xs < length (xs ++ (x ∷ ys))
length-middle [] x ys = omega arith
length-middle (w ∷ ws) x ys = omega (arith, length-middle ws x ys)

contents-middle :
    {D : Type 0} (c : Array (Option D)) (xs : List ℕ) (x : ℕ) (ys : List ℕ) (ds : List D) (d : D)
    (es : List D)
    → length xs ≡ length ds
    → Holds c (xs ++ (x ∷ ys)) (ds ++ (d ∷ es))
    → c x ≡ some d
contents-middle c [] x ys [] d es len h = h.0
contents-middle c [] x ys (b ∷ ds) d es len h = absurd (omega arith)
contents-middle c (w ∷ ws) x ys [] d es len h = absurd (omega arith)
contents-middle c (w ∷ ws) x ys (b ∷ ds) d es len h =
    contents-middle c ws x ys ds d es (omega arith) h.1

module _ {D : Type 0} where
  -- On a well-formed list with as many nodes as values in front of the value `d`, `get_by_index` at
  -- the number of values in front of it returns `d`.
  get_by_index-at :
      {l : LinkedList D} (xs : List ℕ) (x : ℕ) (ys : List ℕ) (ds : List D) (d : D) (es : List D)
      → length xs ≡ length ds
      → IsList l (xs ++ (x ∷ ys)) (ds ++ (d ∷ es))
      → get_by_index l (length ds) ≡ ok (some d)
  unfolding get_by_index get_node_by_index
  get_by_index-at {l} xs x ys ds d es len is =
      let here = walk-node l.next l.prev l.dummy_head xs x ys l.dummy_tail is.chain in
      rw (← len) (
        ground (
          arith,
          is.count,
          length-middle xs x ys,
          here,
          contents-middle l.contents xs x ys ds d es len is.holds,
        ))

  module _ (equal : D → D → Bool) (target : D) where
    -- No value of the list is equal to the target.
    abbrev NoneEqual : List D → Type 0
    NoneEqual [] = Unit {0}
    NoneEqual (d ∷ ds) = (equal target d ≡ false) × NoneEqual ds

    -- A node whose value is not equal is passed over.
    pass :
        (l : LinkedList D) (fuel node : ℕ) (d : D)
        → node ≢ null
        → l.contents node ≡ some d
        → equal target d ≡ false
        → search_from equal (suc fuel) l target node ≡ search_from equal fuel l target (l.next node)
    unfolding search_from
    pass l fuel node d ne held miss = ground arith

    -- The nodes of a list are not null, so the loop goes on to the first equal value.
    search_from-first :
        (l : LinkedList D) (fuel p : ℕ) (xs : List ℕ) (x : ℕ) (ys : List ℕ) (ds : List D) (d : D)
        (es : List D)
        → length xs ≡ length ds
        → length xs < fuel
        → Links l.next l.prev p (xs ++ (x ∷ ys)) l.dummy_tail
        → Holds l.contents (xs ++ (x ∷ ys)) (ds ++ (d ∷ es))
        → NotIn null (xs ++ (x ∷ ys))
        → NoneEqual ds
        → equal target d ≡ true
        → search_from equal fuel l target (l.next p) ≡ ok (some x)
    unfolding search_from
    search_from-first l zero p xs x ys ds d es len f c h n no_match hit = absurd (omega arith)
    search_from-first l (suc fuel) p [] x ys [] d es len f c h n no_match hit =
        rw c.0 (ground (arith, h.0, n.0))
    search_from-first l (suc fuel) p [] x ys (b ∷ ds) d es len f c h n no_match hit =
        absurd (omega arith)
    search_from-first l (suc fuel) p (w ∷ ws) x ys [] d es len f c h n no_match hit =
        absurd (omega arith)
    search_from-first l (suc fuel) p (w ∷ ws) x ys (b ∷ ds) d es len f c h n no_match hit =
        let rest =
          search_from-first l fuel w ws x ys ds d es (omega arith) (omega arith) c.2 h.1 n.1
            no_match.1 hit in
        ap (search_from equal (suc fuel) l target) c.0
        ∙ pass l fuel w b (λ e. n.0 (sym e)) h.0 no_match.0
        ∙ rest

    -- On a well-formed list whose first value equal to the target is `d`, with as many nodes as
    -- values in front of it, `remove_elem` returns `d` and leaves a well-formed list of the values
    -- before and behind it.
    remove_elem-first :
        {l : LinkedList D} (xs : List ℕ) (x : ℕ) (ys : List ℕ) (ds : List D) (d : D) (es : List D)
        → length xs ≡ length ds
        → IsList l (xs ++ (x ∷ ys)) (ds ++ (d ∷ es))
        → NoneEqual ds
        → equal target d ≡ true
        → (remove_elem equal target l ≡ ok (some d, unlink x l))
          × IsList (unlink x l) (xs ++ ys) (ds ++ es)
    unfolding remove_elem get_node_by_value
    remove_elem-first {l} xs x ys ds d es len is no_match hit =
        let (held, rest) = unlink-IsList xs x ys ds d es len is in
        let bound : length xs < l.size + 1 = omega (arith, is.count, length-middle xs x ys) in
        let found =
          search_from-first l (l.size + 1) l.dummy_head xs x ys ds d es len bound is.chain is.holds
            is.nonnull.0 no_match hit in
        (rw (found, held), rest)

    search_from-absent :
        (l : LinkedList D) (fuel p : ℕ) (xs : List ℕ) (ds : List D)
        → length xs < fuel
        → Links l.next l.prev p xs l.dummy_tail
        → Holds l.contents xs ds
        → NotIn null xs
        → null ≢ l.dummy_tail
        → l.contents l.dummy_tail ≡ none
        → NoneEqual ds
        → search_from equal fuel l target (l.next p) ≡ crashed
    unfolding search_from
    search_from-absent l zero p xs ds f c h n nt bl no_match = absurd (omega arith)
    search_from-absent l (suc fuel) p [] ds f c h n nt bl no_match = rw c.0 (ground arith)
    search_from-absent l (suc fuel) p (x ∷ xs) [] f c h n nt bl no_match = absurd h
    search_from-absent l (suc fuel) p (x ∷ xs) (d ∷ ds) f c h n nt bl no_match =
        let rest = search_from-absent l fuel x xs ds (omega arith) c.2 h.1 n.1 nt bl no_match.1 in
        ap (search_from equal (suc fuel) l target) c.0
        ∙ pass l fuel x d (λ e. n.0 (sym e)) h.0 no_match.0
        ∙ rest

    -- On a well-formed list without a value equal to the target, `remove_elem` and `get_by_value`
    -- run into the dummy tail, whose data was never written.
    remove_elem-absent :
        {l : LinkedList D} {xs : List ℕ} {ds : List D}
        → IsList l xs ds
        → NoneEqual ds
        → (remove_elem equal target l ≡ crashed) × (get_by_value equal l target ≡ crashed)
    unfolding remove_elem get_by_value get_node_by_value
    remove_elem-absent {l} {xs} {ds} is no_match =
        let none_found =
          search_from-absent l (l.size + 1) l.dummy_head xs ds (omega (arith, is.count)) is.chain
            is.holds is.nonnull.0 is.nonnull.1 is.blank no_match in
        (rw none_found, rw none_found)
