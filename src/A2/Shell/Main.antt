-- ===== src/A2/Shell/Main.antt =====
-- a2/shell.c, `main`.
use mcgill_ecse_427_operatin.Prelude.{
  ℕ, Bool, ltb, if◌then◌else◌, List, [], ◌∷◌, ◌++◌, CString, codes,
}
use mcgill_ecse_427_operatin.Prelude.Decimal.{decimal}
use mcgill_ecse_427_operatin.Prelude.Int.{minus_one, ◌==ℤ◌}
use mcgill_ecse_427_operatin.Prelude.Stdio.{length}
use mcgill_ecse_427_operatin.A2.Memory.{mem_init}
use mcgill_ecse_427_operatin.A2.Machine.{
  Host, exited, Cmd, ◌>>=◌, ◌>>◌, pure, modify, put, on_world,
}
use mcgill_ecse_427_operatin.A2.Shell.{parse_input}

module _ {W : Type 0} (threshold varmemsize : ℕ) (h : Host W) where
  module _ (fuel steps depth : ℕ) where
    -- A line that is not empty is parsed; -1 of the parser ends the program.
    abbrev run_line : CString → Cmd W (Unit {0}) → Cmd W (Unit {0})
    run_line line next =
        if ltb 0 (length line)
        then parse_input threshold varmemsize h fuel steps depth line
          >>= (λ code. if code ==ℤ minus_one then (λ m. exited 99 m) else next)
        else next

    -- The main loop on the lines that `fgets` leaves in the buffer, each with whether standard input is
    -- a terminal then; a line is empty at the end of the input.
    unfoldable main_loop : List (Bool × CString) → Cmd W (Unit {0})
    main_loop [] = pure tt
    main_loop ((tty, line) ∷ input) = do
      if tty then put (codes "$ ") else pure tt
      run_line line (main_loop input)

  abbrev banner : CString
  banner =
      codes "Shell v2.0\nFrame Store Size = "
      ++ (decimal threshold
          ++ (codes "; Variable Store Size = " ++ (decimal varmemsize ++ codes "\n")))

  unfoldable main : ℕ → ℕ → ℕ → List (Bool × CString) → Cmd W (Unit {0})
  main fuel steps depth input = do
    on_world (h.system (codes "rm -rf ./backing_store"))
    on_world (h.system (codes "mkdir ./backing_store"))
    put banner
    modify (λ m. record m {
      pager = record m.pager { memory = mem_init threshold varmemsize m.pager.memory };
    })
    main_loop fuel steps depth input
