-- ===== src/A1/Shell/Main.antt =====
-- a1/shell.c, `main`.
use mcgill_ecse_427_operatin.Prelude.{ℕ, Bool, if◌then◌else◌, List, [], ◌∷◌, CString, codes}
use mcgill_ecse_427_operatin.Prelude.Int.{minus_one, ◌==ℤ◌}
use mcgill_ecse_427_operatin.A1.Memory.{mem_init}
use mcgill_ecse_427_operatin.A1.Machine.{Host, exited, Cmd, ◌>>=◌, ◌>>◌, pure, modify, put}
use mcgill_ecse_427_operatin.A1.Commands.{help}
use mcgill_ecse_427_operatin.A1.Shell.{parse_input}

module _ {W : Type 0} (h : Host W) where
  -- The main loop on the lines that `fgets` leaves in the buffer, each with whether standard input is a
  -- terminal then; a line is empty at the end of the input. -1 of the parser ends the program.
  unfoldable pub main_loop : ℕ → List (Bool × CString) → Cmd W (Unit {0})
  main_loop depth [] = pure tt
  main_loop depth ((tty, line) ∷ input) = do
    if tty then put (codes "$ ") else pure tt
    code ← parse_input h depth line
    if code ==ℤ minus_one then (λ m. exited 99 m) else main_loop depth input

  unfoldable pub main : ℕ → List (Bool × CString) → Cmd W (Unit {0})
  main depth input = do
    put (codes "Shell v1.0\n")
    help
    modify (λ m. record m { memory = mem_init m.memory })
    main_loop depth input
