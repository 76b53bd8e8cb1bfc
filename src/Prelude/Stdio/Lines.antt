-- ===== src/Prelude/Stdio/Lines.antt =====
-- `fgets` on a text whose next line is known.
use native.Mathlib.Nat.{zero-add, suc-add, add-zero}
use mcgill_ecse_427_operatin.Prelude.Tests.{◌==◌}
use Prim.Native.Nat.{ℕ, zero, suc, ◌+◌, ◌-◌, ◌<◌}
use mathlib.Core.Path.{◌≡◌, refl, ap}
use mathlib.Core.Bool.{true, false}
use mathlib.Core.Option.{none, some}
use mathlib.Core.List.{[], ◌∷◌, ◌++◌}
use native.Mathlib.Omega.{arith}
use mcgill_ecse_427_operatin.Prelude.Text.{CString}
use mcgill_ecse_427_operatin.Prelude.Stdio.{
  Stream, newline, less_one, drop, length, remaining, read_line, line_result, fgets,
}

abbrev pub NoNewline : CString → Type 0
NoNewline [] = Unit {0}
NoNewline (c ∷ w) = ((c == newline) ≡ false) × NoNewline w

-- A line and its newline.
abbrev pub line_of : CString → CString
line_of w = w ++ newline ∷ []

-- A stream at `n` bytes further on.
abbrev pub advance : ℕ → Stream → Stream
advance n f = record f { position = f.position + n }

read_line-line :
    (room : ℕ) (w rest : CString)
    → NoNewline w
    → length w < room
    → read_line room (w ++ (newline ∷ rest)) ≡ (line_of w, false)
unfolding read_line
read_line-line zero w rest p h = absurd (omega arith)
read_line-line (suc room) [] rest p h = refl
read_line-line (suc room) (c ∷ w) rest p h = rw (p.0, read_line-line room w rest p.1 (omega arith))

-- The last line of a text, without a newline.
read_line-last :
    (room : ℕ) (w : CString) → NoNewline w → length w < room → read_line room w ≡ (w, true)
unfolding read_line
read_line-last zero w p h = absurd (omega arith)
read_line-last (suc room) [] p h = refl
read_line-last (suc room) (c ∷ w) p h = rw (p.0, read_line-last room w p.1 (omega arith))

line_result-line : (w : CString) → line_result (line_of w) ≡ some (line_of w)
line_result-line [] = refl
line_result-line (c ∷ w) = refl

drop-nil : (n : ℕ) → drop n [] ≡ []
drop-nil zero = refl
drop-nil (suc n) = refl

drop-add : (n k : ℕ) (s : CString) → drop (n + k) s ≡ drop k (drop n s)
drop-add zero k s = rw zero-add
drop-add (suc n) k [] = rw (drop-nil (suc n + k), drop-nil k)
drop-add (suc n) k (c ∷ s) = rw suc-add (drop-add n k s)

drop-line : (w rest : CString) → drop (length (line_of w)) (w ++ (newline ∷ rest)) ≡ rest
drop-line [] rest = refl
drop-line (c ∷ w) rest = drop-line w rest

module _ (size : ℕ) (f : Stream) (w : CString) (p : NoNewline w) (h : length w + 1 < size) where
  pub fgets-line :
      (rest : CString)
      → remaining f ≡ w ++ (newline ∷ rest)
      → fgets size f ≡ (some (line_of w), advance (length (line_of w)) f)
  unfolding fgets
  fgets-line rest e = rw (e, read_line-line (size - 1) w rest p (omega arith), line_result-line w)

  pub remaining-line :
      (rest : CString)
      → remaining f ≡ w ++ (newline ∷ rest)
      → remaining (advance (length (line_of w)) f) ≡ rest
  remaining-line rest e =
      rw (drop-add f.position (length (line_of w)) f.content, e) (drop-line w rest)

-- At the end there is no line, and the indicator is set.
pub fgets-end :
    (room : ℕ) (f : Stream)
    → remaining f ≡ []
    → fgets (suc (suc room)) f ≡ (none, record f { at_eof = true })
unfolding fgets read_line
fgets-end room f e =
    rw (less_one room, e)
      (ap (λ n. (none, record f { position = n; at_eof = true })) (add-zero f.position))
