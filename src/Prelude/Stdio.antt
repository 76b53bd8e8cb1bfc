-- ===== src/Prelude/Stdio.antt =====
-- The part of <stdio.h> that the shells read scripts with: a stream is the file's bytes, the
-- position of the next one and the end-of-file indicator.
pub mod Lines
use Prim.Native.Nat.{ℕ, zero, suc, ◌+◌, ◌-◌, ◌≤◌}
use mathlib.Core.Path.{◌≡◌, refl, ap}
use mathlib.Core.Logic.{◌≢◌, inl, inr}
use mathlib.Core.Bool.{Bool, true, false}
use mathlib.Core.Option.{Option, none, some}
use mathlib.Core.List.{List, [], ◌∷◌, ◌++◌}
use native.Mathlib.Omega.{arith}
use mcgill_ecse_427_operatin.Prelude.Tests.{◌==◌, leb, if◌then◌else◌, Bool-cases}
use mcgill_ecse_427_operatin.Prelude.Text.{CString}

pub record Stream : Type 0 where
  pub content : CString
  pub position : ℕ
  pub at_eof : Bool

-- `fopen(path, "r")` of a file with these bytes.
abbrev pub open_stream : CString → Stream
open_stream bytes = record { content = bytes; position = 0; at_eof = false }

abbrev pub drop : ℕ → CString → CString
drop zero s = s
drop (suc n) [] = []
drop (suc n) (c ∷ s) = drop n s

abbrev pub length : {A : Type 0} → List A → ℕ
length [] = 0
length (x ∷ xs) = suc (length xs)

pub length-append : (s t : CString) → length (s ++ t) ≡ length s + length t
length-append [] t = omega arith
length-append (c ∷ s) t = omega (arith, length-append s t)

pub append_assoc : (s t u : CString) → (s ++ t) ++ u ≡ s ++ (t ++ u)
append_assoc [] t u = refl
append_assoc (c ∷ s) t u = ap (λ v. c ∷ v) (append_assoc s t u)

-- The bytes not yet read.
abbrev pub remaining : Stream → CString
remaining f = drop f.position f.content

abbrev pub newline : ℕ
newline = 10

-- A line of at most `room` bytes, its newline included, and whether the end was met.
unfoldable pub read_line : ℕ → CString → CString × Bool
read_line zero s = ([], false)
read_line (suc room) [] = ([], true)
read_line (suc room) (c ∷ s) =
    let rest = read_line room s in if c == newline then (c ∷ [], false) else (c ∷ rest.0, rest.1)

abbrev pub line_result : CString → Option CString
line_result [] = none
line_result (c ∷ s) = some (c ∷ s)

-- `fgets(line, size, f)`: no line where the end is met before any byte.
unfoldable pub fgets : ℕ → Stream → Option CString × Stream
unfolding read_line
fgets size f =
    let r = read_line (size - 1) (remaining f) in
    (
      line_result r.0,
      record f { position = f.position + length r.0; at_eof = if r.1 then true else f.at_eof },
    )

unfoldable pub seek_back : ℕ → Stream → Stream
seek_back back f =
    if leb back f.position then record f { position = f.position - back; at_eof = false } else f

-- What a line and the bytes behind it make up.
read_line-drop :
    (room : ℕ) (s : CString) → (read_line room s).0 ++ drop (length (read_line room s).0) s ≡ s
unfolding read_line
read_line-drop zero s = refl
read_line-drop (suc room) [] = refl
read_line-drop (suc room) (c ∷ s) = ground (arith, read_line-drop room s)

length-read_line : (room : ℕ) (s : CString) → length (read_line room s).0 ≤ room
unfolding read_line
length-read_line zero s = omega arith
length-read_line (suc room) [] = omega arith
length-read_line (suc room) (c ∷ s) = ground (arith, length-read_line room s)

-- A read into a buffer with room for a byte finds no line exactly at the end, and then sets the
-- indicator; otherwise it moves on.
pub data Read (f : Stream) (r : Option CString × Stream) : Type 0 where
  at_end : remaining f ≡ [] → r.0 ≡ none → r.1.at_eof ≡ true → Read f r
  a_line :
      (c : ℕ) (l : CString)
      → remaining f ≢ []
      → r.0 ≡ some (c ∷ l)
      → r.1.position ≡ f.position + length (c ∷ l)
      → Read f r

pub less_one : (n : ℕ) → suc (suc n) - 1 ≡ suc n
less_one n = omega arith

Read-of : (n : ℕ) (f : Stream) (s : CString) → remaining f ≡ s → Read f (fgets (suc (suc n)) f)
unfolding fgets
Read-of n f [] e = rw (less_one n, e) (at_end e refl refl)
Read-of n f (c ∷ s) e =
    rw (less_one n, e)
      (elim (Bool-cases (c == newline)) [
        | inl nl ↦ rw nl (a_line c [] (λ e'. cc (e, e')) refl refl)
        | inr no_nl ↦ rw no_nl (a_line c (read_line n s).0 (λ e'. cc (e, e')) refl refl)
      ])

pub fgets-Read : (size : ℕ) (f : Stream) → 2 ≤ size → Read f (fgets size f)
fgets-Read zero f h = absurd (omega arith)
fgets-Read (suc zero) f h = absurd (omega arith)
fgets-Read (suc (suc n)) f h = Read-of n f (remaining f) refl
