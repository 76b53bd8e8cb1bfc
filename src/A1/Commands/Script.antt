-- ===== src/A1/Commands/Script.antt =====
-- `run` of a1 on a script whose lines are known.
use mcgill_ecse_427_operatin.Prelude.{
  ℕ, zero, suc, ◌+◌, ◌≤◌, ◌<◌, ◌≡◌, refl, ap, ◌∙◌, fun_ext, true, false, Option, some, List, [],
  ◌∷◌, ◌++◌, CString, arith,
}
use mcgill_ecse_427_operatin.Prelude.Int.{ℤ}
use mcgill_ecse_427_operatin.Prelude.Stdio.{
  Stream, newline, remaining, length, length-append, fgets, open_stream, at_end, a_line, fgets-Read,
}
use mcgill_ecse_427_operatin.Prelude.Stdio.Lines.{
  NoNewline, line_of, advance, fgets-line, remaining-line,
}
use mcgill_ecse_427_operatin.A1.Machine.{
  Host, Machine, Run, ok, exited, crashed, out_of_fuel, Cmd, ◌>>=◌, and_then, pure,
}
use mcgill_ecse_427_operatin.A1.Commands.{line_room, text_of, run_loop, run}

-- A script of lines that fit the buffer.
abbrev AreLines : List CString → Type 0
AreLines [] = Unit {0}
AreLines (w ∷ ws) = NoNewline w × (length w + 1 < line_room) × AreLines ws

-- The script's bytes: each line with its newline.
abbrev script_bytes : List CString → CString
script_bytes [] = []
script_bytes (w ∷ ws) = w ++ (newline ∷ script_bytes ws)

-- The lines one after another, and then an empty one; the code is that of the empty one.
abbrev pub parse_all : {W : Type 0} → (CString → Cmd W ℤ) → List CString → Cmd W ℤ
parse_all parse [] = parse []
parse_all parse (w ∷ ws) = parse (line_of w) >>= λ _. parse_all parse ws

bind-pure : {W : Type 0} (c : Cmd W ℤ) → (c >>= λ code. pure code) ≡ c
bind-pure {W} c = fun_ext (λ m. go (c m))
  where
    go : (r : Run W ℤ) → and_then r (λ code. pure code) ≡ r
    go (ok a m) = refl
    go (exited n m) = refl
    go crashed = refl
    go out_of_fuel = refl

module _ {W : Type 0} (h : Host W) (parse : CString → Cmd W ℤ) where
  run_loop-last :
      (fuel : ℕ) (line : CString) (f : Stream)
      → f.at_eof ≡ true
      → run_loop h parse (suc fuel) line f ≡ parse line
  unfolding run_loop
  run_loop-last fuel line f e = rw e (bind-pure (parse line))

  run_loop-next :
      (fuel : ℕ) (line : CString) (f : Stream)
      → f.at_eof ≡ false
      → run_loop h parse (suc fuel) line f ≡ (
          parse line >>= λ _.
          run_loop h parse fuel (text_of (fgets line_room f).0) (fgets line_room f).1)
  unfolding run_loop
  run_loop-next fuel line f e = rw e

  -- After a line, the lines that are left are parsed and then an empty one.
  run_loop-lines :
      (fuel : ℕ) (line : CString) (ws : List CString) (f : Stream)
      → f.at_eof ≡ false
      → remaining f ≡ script_bytes ws
      → AreLines ws
      → length ws + 1 < fuel
      → run_loop h parse fuel line f ≡ (parse line >>= λ _. parse_all parse ws)
  run_loop-lines zero line ws f e r lines k = absurd (omega arith)
  run_loop-lines (suc zero) line ws f e r lines k = absurd (omega arith)
  run_loop-lines (suc (suc fuel)) line [] f e r lines k =
      elim (fgets-Read line_room f (omega arith)) [
        | a_line c l text got moved ↦ absurd (text r)
        | at_end empty nothing flag ↦
            run_loop-next (suc fuel) line f e
            ∙ ap (λ (c : Cmd W ℤ). parse line >>= λ _. c)
                (ap (λ o. run_loop h parse (suc fuel) (text_of o) (fgets line_room f).1) nothing
                  ∙ run_loop-last fuel [] (fgets line_room f).1 flag)
      ]
  run_loop-lines (suc (suc fuel)) line (w ∷ ws) f e r lines k =
      run_loop-next (suc fuel) line f e
      ∙ ap (λ (c : Cmd W ℤ). parse line >>= λ _. c)
          (ap (λ (o : Option CString × Stream). run_loop h parse (suc fuel) (text_of o.0) o.1)
              (fgets-line line_room f w lines.0 lines.1 (script_bytes ws) r)
            ∙ run_loop-lines (suc fuel) (line_of w) ws (advance (length (line_of w)) f) e
                (remaining-line line_room f w lines.0 lines.1 (script_bytes ws) r) lines.2
                (omega arith))

  length-script_bytes : (ws : List CString) → length ws ≤ length (script_bytes ws)
  length-script_bytes [] = omega arith
  length-script_bytes (w ∷ ws) =
      omega (arith, length-append w (newline ∷ script_bytes ws), length-script_bytes ws)

  -- `run` of a script of at least one line, all of which end in a newline and fit the buffer of 999
  -- bytes: the lines are parsed one after another, and then an empty line, whose code is the result.
  -- It holds for every parser, and the model's bound on the rounds is enough.
  pub run-lines :
      (script w : CString) (ws : List CString) (m : Machine W)
      → h.read_file script m.world ≡ some (script_bytes (w ∷ ws))
      → AreLines (w ∷ ws)
      → run h parse script m ≡ parse_all parse (w ∷ ws) m
  unfolding run
  run-lines script w ws m found lines =
      let f = open_stream (script_bytes (w ∷ ws)) in
      rw (found, fgets-line line_room f w lines.0 lines.1 (script_bytes ws) refl)
        (ap (λ (c : Cmd W ℤ). c m)
          (run_loop-lines _ (line_of w) ws (advance (length (line_of w)) f) refl
            (remaining-line line_room f w lines.0 lines.1 (script_bytes ws) refl) lines.2
            (omega (arith, length-append w (newline ∷ script_bytes ws), length-script_bytes ws))))
