-- ===== src/A3/Shell/Main.antt =====
-- a3/shell.c, `main`.
use mcgill_ecse_427_operatin.Prelude.{
  ℕ, Bool, false, ◌&&◌, ◌==◌, if◌then◌else◌, List, [], ◌∷◌, ◌++◌, CString, codes, str_eq,
}
use mcgill_ecse_427_operatin.Prelude.Decimal.{decimal}
use mcgill_ecse_427_operatin.Prelude.Int.{minus_one, ◌==ℤ◌}
use mcgill_ecse_427_operatin.Prelude.Stdio.{length}
use mcgill_ecse_427_operatin.A3.Memory.{mem_init}
use mcgill_ecse_427_operatin.A3.Host.{Host}
use mcgill_ecse_427_operatin.A3.Machine.{Cmd, ◌>>=◌, ◌>>◌, pure, exit, modify, put, on_world}
use mcgill_ecse_427_operatin.A3.Kernel.{kernel_setup}
use mcgill_ecse_427_operatin.A3.Shell.{parse_input}

module _ {W : Type 0} (frame_store_size var_store_size : ℕ) (h : Host W) (cwd : CString) where
  module _ (fuel stray : ℕ) where
    -- The main loop on the lines that `fgets` reads, each with whether standard input is a terminal then.
    unfoldable pub main_loop : ℕ → ℕ → List (Bool × CString) → Cmd W (Unit {0})
    main_loop steps depth [] = pure tt
    main_loop steps depth ((tty, line) ∷ input) = do
      if tty then put (codes "$ ") else pure tt
      code ← parse_input frame_store_size var_store_size h cwd fuel stray steps depth line
      if code ==ℤ minus_one then exit 99 else main_loop steps depth input

  abbrev banner : CString
  banner =
      codes "Shell v2.1\nFrame Store Size = "
      ++ (decimal frame_store_size
          ++ (codes "; Variable Store Size = " ++ (decimal var_store_size ++ codes "\n")))

  -- What `main` does before its loop. `ide_init` and `filesys_init` open the disk.
  unfoldable pub start_up : Bool → CString → Cmd W (Unit {0})
  start_up format hd = do
    on_world (h.system (codes "rm -rf backing_store"))
    on_world (h.system (codes "mkdir backing_store"))
    put banner
    modify (λ m. record m { memory = mem_init frame_store_size var_store_size m.memory })
    kernel_setup
    on_world (h.ide_init hd)
    on_world (h.filesys_init format)
    pure tt

  -- `main` on its arguments behind the program's name.
  unfoldable pub main : ℕ → ℕ → ℕ → ℕ → List CString → List (Bool × CString) → Cmd W ℕ
  main fuel stray steps depth [] input = do
    put (
        codes
          "Error: myshell must be called with the hard drive as argument. E.g., ./myshell myhd.dsk\n")
    pure 1
  main fuel stray steps depth (hd ∷ []) input = do
    start_up false hd
    main_loop fuel stray steps depth input
    pure 0
  main fuel stray steps depth (hd ∷ flag ∷ argv) input = do
    start_up (str_eq flag (codes "-f") && length argv == 0) hd
    main_loop fuel stray steps depth input
    pure 0
