-- ===== src/A3/LinkedList/Ends.antt =====
-- The list operations against a list of values: what the pointers stand for before and after.
use mathlib.Core.List.{append-nil}
use mcgill_ecse_427_operatin.Prelude.{
  ℕ, ◌+◌, ◌≡◌, ◌≢◌, refl, sym, ◌∙◌, List, [], ◌∷◌, ◌++◌, Array, update, update_self, update_ne,
  arith, Option, some, none,
}
use mcgill_ecse_427_operatin.Prelude.Stdio.{length}
use mcgill_ecse_427_operatin.A3.LinkedList.{
  LinkedList, null, ok, exit_99, list_init, add_tail, add_head, unlink, pop_head, pop_tail,
}
use mcgill_ecse_427_operatin.A3.LinkedList.Links.{
  Links, NotIn, Apart, Links-append, Links-cons, Links-unlink, Apart-append, Apart-remove,
  Apart-ends, Apart-NotIn, prev-ne, prev-in, NotIn-remove, Apart-front, Apart-tail,
}

-- The nodes `xs` hold the values `ds`, in order.
abbrev pub Holds : {D : Type 0} → Array (Option D) → List ℕ → List D → Type 0
Holds c [] [] = Unit {0}
Holds c [] (d ∷ ds) = ⊥
Holds c (x ∷ xs) [] = ⊥
Holds c (x ∷ xs) (d ∷ ds) = (c x ≡ some d) × Holds c xs ds

-- `l` is the list of the values `ds`, in the nodes `xs`.
pub record IsList {D : Type 0} (l : LinkedList D) (xs : List ℕ) (ds : List D) : Type 0 where
  pub chain : Links l.next l.prev l.dummy_head xs l.dummy_tail
  pub apart : Apart l.dummy_head xs l.dummy_tail
  pub count : l.size ≡ length xs
  pub holds : Holds l.contents xs ds
  pub stop : l.next l.dummy_tail ≡ null
  pub blank : l.contents l.dummy_tail ≡ none
  pub nonnull : NotIn null xs × (null ≢ l.dummy_tail)

-- What `malloc` returns: a node that is in no use.
pub record IsFresh {D : Type 0} (l : LinkedList D) (xs : List ℕ) (a : ℕ) : Type 0 where
  pub not_head : a ≢ l.dummy_head
  pub not_tail : a ≢ l.dummy_tail
  pub not_node : NotIn a xs
  pub not_null : null ≢ a

length-snoc : (xs : List ℕ) (a : ℕ) → length (xs ++ (a ∷ [])) ≡ length xs + 1
length-snoc [] a = omega arith
length-snoc (x ∷ xs) a = omega (arith, length-snoc xs a)

nonnull-snoc : (a : ℕ) (xs : List ℕ) → NotIn null xs → null ≢ a → NotIn null (xs ++ (a ∷ []))
nonnull-snoc a [] out ne = (ne, tt)
nonnull-snoc a (x ∷ xs) out ne = (out.0, nonnull-snoc a xs out.1 ne)

length-remove :
    (xs : List ℕ) (x : ℕ) (ys : List ℕ) → length (xs ++ (x ∷ ys)) ≡ length (xs ++ ys) + 1
length-remove [] x ys = omega arith
length-remove (w ∷ ws) x ys = omega (arith, length-remove ws x ys)

last_node :
    (nx pv : Array ℕ) (p : ℕ) (xs : List ℕ) (x t : ℕ) → Links nx pv p (xs ++ (x ∷ [])) t → pv t ≡ x
last_node nx pv p [] x t l = l.2.1
last_node nx pv p (w ∷ ws) x t l = last_node nx pv w ws x t l.2

module _ {D : Type 0} where
  Holds-frame :
      (c : Array (Option D)) (a : ℕ) (v : Option D) (xs : List ℕ) (ds : List D)
      → NotIn a xs
      → Holds c xs ds
      → Holds (update c a v) xs ds
  Holds-frame c a v [] [] out h = tt
  Holds-frame c a v [] (d ∷ ds) out h = h
  Holds-frame c a v (x ∷ xs) [] out h = h
  Holds-frame c a v (x ∷ xs) (d ∷ ds) out h =
      (update_ne c a v x out.0 ∙ h.0, Holds-frame c a v xs ds out.1 h.1)

  Holds-append :
      (c : Array (Option D)) (a : ℕ) (d : D) (xs : List ℕ) (ds : List D)
      → Holds c xs ds
      → c a ≡ some d
      → Holds c (xs ++ (a ∷ [])) (ds ++ (d ∷ []))
  Holds-append c a d [] [] h e = (e, tt)
  Holds-append c a d [] (b ∷ ds) h e = absurd h
  Holds-append c a d (x ∷ xs) [] h e = absurd h
  Holds-append c a d (x ∷ xs) (b ∷ ds) h e = (h.0, Holds-append c a d xs ds h.1 e)

  last_ne :
      {l : LinkedList D} {xs : List ℕ} {ds : List D}
      → IsList l xs ds
      → l.prev l.dummy_tail ≢ l.dummy_tail
  last_ne {l} {xs} is =
      prev-ne l.next l.prev l.dummy_tail l.dummy_head xs l.dummy_tail is.chain
        (λ e. Apart-ends l.dummy_head xs l.dummy_tail is.apart (sym e))
        (Apart-tail l.dummy_head xs l.dummy_tail is.apart)

  -- With two different dummy nodes, the tail not null, `list_init` gives a well-formed list without
  -- values.
  pub list_init-IsList :
      (head tail : ℕ) (l : LinkedList D)
      → head ≢ tail
      → null ≢ tail
      → IsList (list_init head tail l) [] []
  unfolding list_init
  list_init-IsList head tail l ne nonnull = record {
    chain = (ground arith, ground arith);
    apart = ne;
    count = refl;
    holds = tt;
    stop = ground arith;
    blank = ground arith;
    nonnull = (tt, nonnull);
  }

  -- On a well-formed list of the values `ds` and a node that is in no use, `add_tail` gives a well-
  -- formed list of `ds` with the value behind them.
  pub add_tail-IsList :
      {l : LinkedList D} {xs : List ℕ} {ds : List D} (a : ℕ) (d : D)
      → IsList l xs ds
      → IsFresh l xs a
      → IsList (add_tail a d l) (xs ++ (a ∷ [])) (ds ++ (d ∷ []))
  unfolding add_tail
  add_tail-IsList {l} {xs} {ds} a d is f = record {
    chain =
        Links-append l.next l.prev a l.dummy_head xs l.dummy_tail is.chain is.apart f.not_head
          f.not_node f.not_tail;
    apart = Apart-append a l.dummy_head xs l.dummy_tail is.apart f.not_head f.not_node f.not_tail;
    count = omega (arith, is.count, length-snoc xs a);
    holds =
        Holds-append _ a d xs ds (Holds-frame l.contents a (some d) xs ds f.not_node is.holds)
          (update_self l.contents a (some d));
    stop =
        update_ne (update l.next (l.prev l.dummy_tail) a) a l.dummy_tail l.dummy_tail f.not_tail
        ∙ update_ne l.next (l.prev l.dummy_tail) a l.dummy_tail (last_ne is)
        ∙ is.stop;
    blank = update_ne l.contents a (some d) l.dummy_tail f.not_tail ∙ is.blank;
    nonnull = (nonnull-snoc a xs is.nonnull.0 f.not_null, is.nonnull.1);
  }

  -- On a well-formed list of the values `ds` and a node that is in no use, `add_head` gives a well-
  -- formed list of `ds` with the value in front of them.
  add_head-IsList :
      {l : LinkedList D} {xs : List ℕ} {ds : List D} (a : ℕ) (d : D)
      → IsList l xs ds
      → IsFresh l xs a
      → IsList (add_head a d l) (a ∷ xs) (d ∷ ds)
  unfolding add_head
  add_head-IsList {l} {xs} {ds} a d is f = record {
    chain =
        Links-cons l.next l.prev a l.dummy_head xs l.dummy_tail is.chain is.apart f.not_head
          f.not_node f.not_tail;
    apart = (
      λ e. f.not_head (sym e),
      Apart-NotIn l.dummy_head xs l.dummy_tail is.apart,
      Apart-ends l.dummy_head xs l.dummy_tail is.apart,
      Apart-front a l.dummy_head xs l.dummy_tail is.apart f.not_node f.not_tail,
    );
    count = omega (arith, is.count);
    holds = (
      update_self l.contents a (some d),
      Holds-frame l.contents a (some d) xs ds f.not_node is.holds,
    );
    stop =
        update_ne (update l.next a (l.next l.dummy_head)) l.dummy_head a l.dummy_tail
          (Apart-ends l.dummy_head xs l.dummy_tail is.apart)
        ∙ update_ne l.next a (l.next l.dummy_head) l.dummy_tail f.not_tail
        ∙ is.stop;
    blank = update_ne l.contents a (some d) l.dummy_tail f.not_tail ∙ is.blank;
    nonnull = ((f.not_null, is.nonnull.0), is.nonnull.1);
  }

  Holds-remove :
      (c : Array (Option D)) (xs : List ℕ) (x : ℕ) (ys : List ℕ) (ds : List D) (d : D) (es : List D)
      → length xs ≡ length ds
      → Holds c (xs ++ (x ∷ ys)) (ds ++ (d ∷ es))
      → (c x ≡ some d) × Holds c (xs ++ ys) (ds ++ es)
  Holds-remove c [] x ys [] d es len h = (h.0, h.1)
  Holds-remove c [] x ys (b ∷ ds) d es len h = absurd (omega arith)
  Holds-remove c (w ∷ ws) x ys [] d es len h = absurd (omega arith)
  Holds-remove c (w ∷ ws) x ys (b ∷ ds) d es len h =
      let (e, rest) = Holds-remove c ws x ys ds d es (omega arith) h.1 in (e, (h.0, rest))

  -- Taking a node out of a well-formed list, with as many nodes as values in front of it, leaves a
  -- well-formed list of the values before and behind it; the node held the value at its place.
  pub unlink-IsList :
      {l : LinkedList D} (xs : List ℕ) (x : ℕ) (ys : List ℕ) (ds : List D) (d : D) (es : List D)
      → length xs ≡ length ds
      → IsList l (xs ++ (x ∷ ys)) (ds ++ (d ∷ es))
      → (l.contents x ≡ some d) × IsList (unlink x l) (xs ++ ys) (ds ++ es)
  unfolding unlink
  unlink-IsList {l} xs x ys ds d es len is =
      let held = Holds-remove l.contents xs x ys ds d es len is.holds in
      let tail_out = Apart-tail l.dummy_head (xs ++ (x ∷ ys)) l.dummy_tail is.apart in
      let tail_ne : l.dummy_tail ≢ l.dummy_head =
        λ e. Apart-ends l.dummy_head (xs ++ (x ∷ ys)) l.dummy_tail is.apart (sym e) in
      (
        held.0,
        record {
          chain = Links-unlink l.next l.prev x l.dummy_head xs ys l.dummy_tail is.chain is.apart;
          apart = Apart-remove l.dummy_head xs x ys l.dummy_tail is.apart;
          count = omega (arith, is.count, length-remove xs x ys);
          holds = held.1;
          stop =
              update_ne l.next (l.prev x) (l.next x) l.dummy_tail (
                prev-in l.next l.prev l.dummy_tail l.dummy_head xs x ys l.dummy_tail is.chain
                  tail_ne tail_out)
              ∙ is.stop;
          blank = is.blank;
          nonnull = (NotIn-remove null xs x ys is.nonnull.0, is.nonnull.1);
        },
      )

  -- On a well-formed list with at least one value `pop_head` returns the first value and leaves a
  -- well-formed list of the rest.
  pop_head-IsList :
      {l : LinkedList D} {x : ℕ} {xs : List ℕ} {d : D} {ds : List D}
      → IsList l (x ∷ xs) (d ∷ ds)
      → (pop_head l ≡ ok (some d, unlink x l)) × IsList (unlink x l) xs ds
  unfolding pop_head
  pop_head-IsList {l} {x} {xs} {d} {ds} is =
      let (held, rest) = unlink-IsList [] x xs [] d ds refl is in
      (ground (arith, is.chain.0, held, is.count), rest)

  -- On a well-formed list with at least one value, and as many nodes as values, `pop_tail` returns
  -- the last value and leaves a well-formed list of those before it.
  pop_tail-IsList :
      {l : LinkedList D} (xs : List ℕ) (x : ℕ) (ds : List D) (d : D)
      → length xs ≡ length ds
      → IsList l (xs ++ (x ∷ [])) (ds ++ (d ∷ []))
      → (pop_tail l ≡ ok (some d, unlink x l)) × IsList (unlink x l) xs ds
  unfolding pop_tail
  pop_tail-IsList {l} xs x ds d len is =
      let (held, rest) = unlink-IsList xs x [] ds d [] len is in
      let last = last_node l.next l.prev l.dummy_head xs x l.dummy_tail is.chain in
      (
        ground (arith, last, held, is.count, length-snoc xs x),
        rw (append-nil xs, append-nil ds) at rest,
      )

  -- On a well-formed list without values `pop_head` and `pop_tail` end the program with the code 99.
  pop-empty : {l : LinkedList D} → IsList l [] [] → (pop_head l ≡ exit_99) × (pop_tail l ≡ exit_99)
  unfolding pop_head pop_tail
  pop-empty is = (ground (arith, is.count), ground (arith, is.count))
