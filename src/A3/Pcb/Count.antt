-- ===== src/A3/Pcb/Count.antt =====
-- The number of lines of a script, and the number of its pages.
use mcgill_ecse_427_operatin.Prelude.{
  ℕ, ◌+◌, ◌*◌, ◌≤◌, ◌<◌, ◌≡◌, ◌≢◌, refl, false, List, [], ◌∷◌, ◌++◌, CString, ◌==◌, arith,
}
use mcgill_ecse_427_operatin.Prelude.Stdio.{newline, length}
use mcgill_ecse_427_operatin.Prelude.Stdio.Lines.{NoNewline}
use mcgill_ecse_427_operatin.A3.Pcb.{count_from, count_lines, page_table_size_of, new_pcb}

-- A line with at least one byte.
abbrev IsLine : CString → Type 0
IsLine w = (w ≢ []) × NoNewline w

abbrev AllLines : List CString → Type 0
AllLines [] = Unit {0}
AllLines (w ∷ ws) = IsLine w × AllLines ws

-- The lines with a newline behind each, and what is behind the last newline.
abbrev pub script_text : List CString → CString → CString
script_text [] w = w
script_text (v ∷ vs) w = v ++ (newline ∷ script_text vs w)

-- Behind a byte of the line.
count_from-inside :
    (k : ℕ) (w s : CString)
    → (k == newline) ≡ false
    → NoNewline w
    → count_from k (w ++ (newline ∷ s)) ≡ count_from newline s + 1
unfolding count_from
count_from-inside k [] s e p = rw e
count_from-inside k (c ∷ w) s e p = rw (p.0, count_from-inside c w s p.0 p.1)

count_from-line :
    (k : ℕ) (w s : CString)
    → IsLine w
    → count_from k (w ++ (newline ∷ s)) ≡ count_from newline s + 1
unfolding count_from
count_from-line k [] s p = absurd (p.0 refl)
count_from-line k (c ∷ w) s p = rw (p.1.0, count_from-inside c w s p.1.0 p.1.1)

count_from-rest : (k : ℕ) (w : CString) → NoNewline w → count_from k w ≡ 0
unfolding count_from
count_from-rest k [] p = refl
count_from-rest k (c ∷ w) p = rw (p.0, count_from-rest c w p.1)

count_from-lines :
    (ws : List CString) (w : CString)
    → AllLines ws
    → NoNewline w
    → count_from newline (script_text ws w) ≡ length ws
count_from-lines [] w a p = count_from-rest newline w p
count_from-lines (v ∷ ws) w a p =
    omega (arith, count_from-line newline v (script_text ws w) a.0, count_from-lines ws w a.1 p)

-- For lines with at least one byte and a newline behind each, and a rest without a newline, the
-- count is the number of lines and one more, also where the rest is empty.
pub count_lines-lines :
    (ws : List CString) (w : CString)
    → AllLines ws
    → NoNewline w
    → count_lines (script_text ws w) ≡ length ws + 1
unfolding count_lines
count_lines-lines ws w a p = rw (count_from-lines ws w a p)

page_places : (n : ℕ) → (n ≤ 3 * page_table_size_of n) × (3 * page_table_size_of n < n + 3)
unfolding page_table_size_of
page_places n = ground arith

-- For a script of lines with at least one byte and a newline behind each, and a rest without a
-- newline: the size of a new block is the number of the lines and one more, also where the rest is
-- empty, and its pages have at least as many places as that, and fewer than three places more.
pub page_table_size-lines :
    (frame_store_size var_store_size pid : ℕ) (ws : List CString) (w : CString)
    → AllLines ws
    → NoNewline w
    → let b = new_pcb frame_store_size var_store_size pid (script_text ws w) in
      (b.size ≡ length ws + 1)
      × (length ws + 1 ≤ 3 * b.page_table_size)
      × (3 * b.page_table_size < length ws + 4)
page_table_size-lines frame_store_size var_store_size pid ws w a p =
    let e = count_lines-lines ws w a p in
    let places = page_places (count_lines (script_text ws w)) in
    (e, rw (← e) places.0, omega (arith, e, places.1))
