-- ===== src/A3/LinkedList/Links.antt =====
-- The shape of a list between its two dummy nodes, and what a change of pointers does to it.
use mcgill_ecse_427_operatin.Prelude.{
  ℕ, ◌≡◌, ◌≢◌, sym, ◌∙◌, subst, List, [], ◌∷◌, ◌++◌, Array, update, update_ne, arith,
}

-- Forwards and backwards the pointers lead from `p` through `xs` to `t`.
abbrev pub Links : Array ℕ → Array ℕ → ℕ → List ℕ → ℕ → Type 0
Links nx pv p [] t = (nx p ≡ t) × (pv t ≡ p)
Links nx pv p (x ∷ xs) t = (nx p ≡ x) × (pv x ≡ p) × Links nx pv x xs t

abbrev pub NotIn : ℕ → List ℕ → Type 0
NotIn a [] = Unit {0}
NotIn a (x ∷ xs) = (a ≢ x) × NotIn a xs

-- `p`, the nodes and `t` are different addresses.
abbrev pub Apart : ℕ → List ℕ → ℕ → Type 0
Apart p [] t = p ≢ t
Apart p (x ∷ xs) t = (p ≢ x) × NotIn p xs × (p ≢ t) × Apart x xs t

pub Apart-ends : (p : ℕ) (xs : List ℕ) (t : ℕ) → Apart p xs t → p ≢ t
Apart-ends p [] t a = a
Apart-ends p (x ∷ xs) t a = a.2

pub Apart-NotIn : (p : ℕ) (xs : List ℕ) (t : ℕ) → Apart p xs t → NotIn p xs
Apart-NotIn p [] t a = tt
Apart-NotIn p (x ∷ xs) t a = (a.0, a.1)

-- A node that is in none of these places is not the last one either.
pub prev-ne :
    (nx pv : Array ℕ) (q p : ℕ) (xs : List ℕ) (t : ℕ)
    → Links nx pv p xs t
    → q ≢ p
    → NotIn q xs
    → pv t ≢ q
prev-ne nx pv q p [] t l ne out e = ne (sym e ∙ l.1)
prev-ne nx pv q p (x ∷ xs) t l ne out e = prev-ne nx pv q x xs t l.2 out.0 out.1 e

-- Pointers may change outside: forwards at no node before `t`, backwards at no node behind `p`.
frame-next :
    (nx pv : Array ℕ) (a v p : ℕ) (xs : List ℕ) (t : ℕ)
    → a ≢ p
    → NotIn a xs
    → Links nx pv p xs t
    → Links (update nx a v) pv p xs t
frame-next nx pv a v p [] t ne out l = (update_ne nx a v p ne ∙ l.0, l.1)
frame-next nx pv a v p (x ∷ xs) t ne out l =
    (update_ne nx a v p ne ∙ l.0, l.1, frame-next nx pv a v x xs t out.0 out.1 l.2)

frame-prev :
    (nx pv : Array ℕ) (a v p : ℕ) (xs : List ℕ) (t : ℕ)
    → a ≢ t
    → NotIn a xs
    → Links nx pv p xs t
    → Links nx (update pv a v) p xs t
frame-prev nx pv a v p [] t ne out l = (l.0, update_ne pv a v t ne ∙ l.1)
frame-prev nx pv a v p (x ∷ xs) t ne out l =
    (l.0, update_ne pv a v x out.0 ∙ l.1, frame-prev nx pv a v x xs t ne out.1 l.2)

-- The writes of `add_tail` put a new node behind the last one.
pub Links-append :
    (nx pv : Array ℕ) (a p : ℕ) (xs : List ℕ) (t : ℕ)
    → Links nx pv p xs t
    → Apart p xs t
    → a ≢ p
    → NotIn a xs
    → a ≢ t
    → Links (update (update nx (pv t) a) a t) (update (update pv a (pv t)) t a) p (xs ++ (a ∷ [])) t
Links-append nx pv a p [] t l d ne out ne' = ground arith
Links-append nx pv a p (x ∷ xs) t l d ne out ne' =
    let last = prev-ne nx pv p x xs t l.2 d.0 d.1 in
    let here = Apart-ends x xs t d.3 in
    (ground (arith, l.0), ground (arith, l.1), Links-append nx pv a x xs t l.2 d.3 out.0 out.1 ne')

-- The writes of `add_head`.
pub Links-cons :
    (nx pv : Array ℕ) (a p : ℕ) (xs : List ℕ) (t : ℕ)
    → Links nx pv p xs t
    → Apart p xs t
    → a ≢ p
    → NotIn a xs
    → a ≢ t
    → Links (update (update nx a (nx p)) p a) (update (update pv (nx p) a) a p) p (a ∷ xs) t
Links-cons nx pv a p [] t l d ne out ne' = ground arith
Links-cons nx pv a p (x ∷ xs) t l d ne out ne' =
    let here = Apart-ends x xs t d.3 in
    let here' : nx p ≢ t = λ e. here (sym l.0 ∙ e) in
    let out' = subst (λ q. NotIn q xs) (sym l.0) (Apart-NotIn x xs t d.3) in
    let forwards = frame-next nx pv a (nx p) x xs t out.0 out.1 l.2 in
    let forwards' = frame-next (update nx a (nx p)) pv p a x xs t d.0 d.1 forwards in
    let back = frame-prev _ pv (nx p) a x xs t here' out' forwards' in
    (
      ground (arith, l.0),
      ground (arith, l.0),
      (
        ground (arith, l.0),
        ground (arith, l.0),
        frame-prev _ (update pv (nx p) a) a p x xs t ne' out.1 back,
      ),
    )

unlink-first :
    (nx pv : Array ℕ) (x p : ℕ) (ys : List ℕ) (t : ℕ)
    → Links nx pv p (x ∷ ys) t
    → Apart p (x ∷ ys) t
    → (let nx' = update nx (pv x) (nx x) in Links nx' (update pv (nx' x) (pv x)) p ys t)
unlink-first nx pv x p [] t l d = ground arith
unlink-first nx pv x p (y ∷ ys) t l d =
    let nx' = update nx (pv x) (nx x) in
    let away : nx' x ≡ y = ground (arith, l.1, l.2.0) in
    let before_ne : pv x ≢ y = λ e. d.1.0 (sym l.1 ∙ e) in
    let before_out = subst (λ q. NotIn q ys) (sym l.1) d.1.1 in
    let after_ne : nx' x ≢ t = λ e. Apart-ends y ys t d.3.3 (sym away ∙ e) in
    let after_out = subst (λ q. NotIn q ys) (sym away) (Apart-NotIn y ys t d.3.3) in
    (
      ground (arith, l.1, l.2.0),
      ground (arith, l.1, away),
      frame-prev nx' pv (nx' x) (pv x) y ys t after_ne after_out
          (frame-next nx pv (pv x) (nx x) y ys t before_ne before_out l.2.2),
    )

-- The node before a node of the list is in front of it.
pub prev-in :
    (nx pv : Array ℕ) (q p : ℕ) (xs : List ℕ) (x : ℕ) (ys : List ℕ) (t : ℕ)
    → Links nx pv p (xs ++ (x ∷ ys)) t
    → q ≢ p
    → NotIn q (xs ++ (x ∷ ys))
    → pv x ≢ q
prev-in nx pv q p [] x ys t l ne out e = ne (sym e ∙ l.1)
prev-in nx pv q p (w ∷ ws) x ys t l ne out e = prev-in nx pv q w ws x ys t l.2 out.0 out.1 e

-- Nor is an address outside the list the one behind a node.
next-in :
    (nx pv : Array ℕ) (q p : ℕ) (xs : List ℕ) (x : ℕ) (ys : List ℕ) (t : ℕ)
    → Links nx pv p (xs ++ (x ∷ ys)) t
    → NotIn q (xs ++ (x ∷ ys))
    → q ≢ t
    → nx x ≢ q
next-in nx pv q p [] x [] t l out ne e = ne (sym e ∙ l.2.0)
next-in nx pv q p [] x (y ∷ ys) t l out ne e = out.1.0 (sym e ∙ l.2.0)
next-in nx pv q p (w ∷ ws) x ys t l out ne e = next-in nx pv q w ws x ys t l.2 out.1 ne e

-- The writes of a removal, at any place.
pub Links-unlink :
    (nx pv : Array ℕ) (x p : ℕ) (xs ys : List ℕ) (t : ℕ)
    → Links nx pv p (xs ++ (x ∷ ys)) t
    → Apart p (xs ++ (x ∷ ys)) t
    → (let nx' = update nx (pv x) (nx x) in Links nx' (update pv (nx' x) (pv x)) p (xs ++ ys) t)
Links-unlink nx pv x p [] ys t l d = unlink-first nx pv x p ys t l d
Links-unlink nx pv x p (w ∷ ws) ys t l d =
    let last = prev-in nx pv p w ws x ys t l.2 d.0 d.1 in
    let step = next-in nx pv w w ws x ys t l.2 (Apart-NotIn w _ t d.3) (Apart-ends w _ t d.3) in
    let kept : nx x ≡ update nx (pv x) (nx x) x = ground arith in
    (
      update_ne nx (pv x) (nx x) p last ∙ l.0,
      update_ne pv _ (pv x) w (λ e. step (kept ∙ e)) ∙ l.1,
      Links-unlink nx pv x w ws ys t l.2 d.3,
    )

NotIn-append : (p : ℕ) (xs : List ℕ) (a : ℕ) → NotIn p xs → p ≢ a → NotIn p (xs ++ (a ∷ []))
NotIn-append p [] a out ne = (ne, tt)
NotIn-append p (x ∷ xs) a out ne = (out.0, NotIn-append p xs a out.1 ne)

pub Apart-append :
    (a p : ℕ) (xs : List ℕ) (t : ℕ)
    → Apart p xs t
    → a ≢ p
    → NotIn a xs
    → a ≢ t
    → Apart p (xs ++ (a ∷ [])) t
Apart-append a p [] t d ne out ne' = ((λ e. ne (sym e)), tt, d, ne')
Apart-append a p (x ∷ xs) t d ne out ne' =
    (d.0, NotIn-append p xs a d.1 (λ e. ne (sym e)), d.2, Apart-append a x xs t d.3 out.0 out.1 ne')

pub NotIn-remove :
    (p : ℕ) (xs : List ℕ) (x : ℕ) (ys : List ℕ) → NotIn p (xs ++ (x ∷ ys)) → NotIn p (xs ++ ys)
NotIn-remove p [] x ys out = out.1
NotIn-remove p (w ∷ ws) x ys out = (out.0, NotIn-remove p ws x ys out.1)

Apart-second : (p x : ℕ) (ys : List ℕ) (t : ℕ) → Apart p (x ∷ ys) t → Apart p ys t
Apart-second p x [] t d = d.2
Apart-second p x (y ∷ ys) t d = (d.1.0, d.1.1, d.2, d.3.3)

pub Apart-remove :
    (p : ℕ) (xs : List ℕ) (x : ℕ) (ys : List ℕ) (t : ℕ)
    → Apart p (xs ++ (x ∷ ys)) t
    → Apart p (xs ++ ys) t
Apart-remove p [] x ys t d = Apart-second p x ys t d
Apart-remove p (w ∷ ws) x ys t d =
    (d.0, NotIn-remove p ws x ys d.1, d.2, Apart-remove w ws x ys t d.3)

-- Another first node.
pub Apart-front : (a p : ℕ) (xs : List ℕ) (t : ℕ) → Apart p xs t → NotIn a xs → a ≢ t → Apart a xs t
Apart-front a p [] t d out ne = ne
Apart-front a p (x ∷ xs) t d out ne = (out.0, out.1, ne, d.3)

pub Apart-tail : (p : ℕ) (xs : List ℕ) (t : ℕ) → Apart p xs t → NotIn t xs
Apart-tail p [] t d = tt
Apart-tail p (x ∷ xs) t d = ((λ e. Apart-ends x xs t d.3 (sym e)), Apart-tail x xs t d.3)
