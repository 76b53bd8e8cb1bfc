-- ===== src/A1/Commands.antt =====
-- a1/interpreter.c, the commands but for `if`.
pub mod Script
use mcgill_ecse_427_operatin.Prelude.{
  ℕ, zero, suc, ◌+◌, Bool, true, false, ◌==◌, if◌then◌else◌, Option, none, some, [], ◌∷◌, ◌++◌,
  CString, codes, str_eq,
}
use mcgill_ecse_427_operatin.Prelude.Int.{ℤ, pos}
use mcgill_ecse_427_operatin.Prelude.Stdio.{Stream, open_stream, fgets, length}
use mcgill_ecse_427_operatin.Prelude.Words.{first_byte, tail_text}
use mcgill_ecse_427_operatin.A1.Memory.{mem_set_value, mem_get_value, missing_text}
use mcgill_ecse_427_operatin.A1.Machine.{
  Host, ok, exited, crashed, out_of_fuel, Cmd, ◌>>=◌, ◌>>◌, pure, crash, modify, gets, put,
  on_world,
}

-- `help_string`, with the two quotation marks in UTF-8.
abbrev pub help_text : CString
help_text =
    codes
      "COMMAND\t\t\tDESCRIPTION\n help\t\t\tDisplays all the commands\n quit\t\t\tExits / terminates the shell with "
    ++ (226 ∷ 128 ∷ 156 ∷ [])
    ++ codes "Bye!"
    ++ (226 ∷ 128 ∷ 157 ∷ [])
    ++ codes
        "\n set VAR STRING\t\tAssigns a value to shell memory\n print VAR\t\tDisplays the STRING assigned to VAR\n run SCRIPT.TXT\t\tExecutes the file SCRIPT.TXT\n "

-- The value of a variable, empty for the text that stands for a missing one.
abbrev pub or_empty : CString → CString
or_empty v = if str_eq v missing_text then [] else v

-- The bytes are printed up to the end of the file, or to a byte 255, which a signed `char` takes
-- for EOF.
abbrev until_255 : CString → CString
until_255 [] = []
until_255 (c ∷ s) = if c == 255 then [] else c ∷ until_255 s

abbrev pub line_room : ℕ
line_room = 999

abbrev pub text_of : Option CString → CString
text_of none = []
text_of (some l) = l

abbrev map_text : (CString → CString) → Option CString → Option CString
map_text f none = none
map_text f (some s) = some (f s)

module _ {W : Type 0} where
  unfoldable pub badcommand : Cmd W ℤ
  badcommand = do put (codes "Unknown Command\n"); pure (pos 1)

  unfoldable pub badcommand_incorrect_usage : CString → Cmd W ℤ
  badcommand_incorrect_usage command = do
    put (codes "Bad command: " ++ (command ++ codes "\n"))
    pure (pos 2)

  unfoldable pub badcommand_file_does_not_exist : Cmd W ℤ
  badcommand_file_does_not_exist = do put (codes "Bad command: File not found\n"); pure (pos 3)

  abbrev pub help : Cmd W ℤ
  help = do put (help_text ++ codes "\n"); pure (pos 0)

  unfoldable pub quit : Cmd W ℤ
  quit = do put (codes "Bye!\n"); λ m. exited 0 m

  unfoldable pub set : CString → CString → Cmd W ℤ
  set var value = do
    modify (λ m. record m { memory = mem_set_value var value m.memory })
    pure (pos 0)

  unfoldable pub print : CString → Cmd W ℤ
  print var = do v ← gets (λ m. mem_get_value var m.memory); put (v ++ codes "\n"); pure (pos 0)

  unfoldable pub echo : CString → Cmd W ℤ
  echo token =
      if first_byte token == b'$'
      then (do
        v ← gets (λ m. mem_get_value (tail_text token) m.memory)
        put (or_empty v ++ codes "\n")
        pure (pos 0))
      else (do put (token ++ codes "\n"); pure (pos 0))

  abbrev succeeded : CString → Bool → Cmd W ℤ
  succeeded command true = pure (pos 0)
  succeeded command false = badcommand_incorrect_usage command

  module _ (h : Host W) where
    abbrev pub my_ls : Cmd W ℤ
    my_ls = on_world (h.system (codes "ls"))

    unfoldable pub my_mkdir : CString → Cmd W ℤ
    my_mkdir dirname = do done ← on_world (h.mkdir dirname); succeeded (codes "my_mkdir") done

    unfoldable pub my_touch : CString → Cmd W ℤ
    my_touch filename = do done ← on_world (h.create filename); succeeded (codes "my_touch") done

    unfoldable pub my_cd : CString → Cmd W ℤ
    my_cd dirname = do done ← on_world (h.chdir dirname); succeeded (codes "my_cd") done

    abbrev show_file : Option CString → Cmd W ℤ
    show_file none = badcommand_incorrect_usage (codes "my_cat")
    show_file (some bytes) = do put bytes; pure (pos 0)

    unfoldable pub my_cat : CString → Cmd W ℤ
    my_cat filename m = show_file (map_text until_255 (h.read_file filename m.world)) m

    module _ (parse : CString → Cmd W ℤ) where
      -- The loop of `run`: `line` is parsed, the buffer is cleared, and unless the end was met the next
      -- line is read; a read that finds none leaves the buffer empty.
      unfoldable pub run_loop : ℕ → CString → Stream → Cmd W ℤ
      run_loop zero line f = λ m. out_of_fuel
      run_loop (suc fuel) line f = do
        code ← parse line
        let read = fgets line_room f
        let rest = run_loop fuel (text_of read.0) read.1
        if f.at_eof then pure code else rest

      -- The first read must find a line: the buffer holds none before it.
      abbrev run_first : ℕ → Option CString × Stream → Cmd W ℤ
      run_first fuel (none, f) = crash
      run_first fuel (some line, f) = run_loop fuel line f

      -- A line or the end is met in each round, so one round more than the bytes is enough.
      abbrev run_opened : Option CString → Cmd W ℤ
      run_opened none = badcommand_file_does_not_exist
      run_opened (some bytes) = run_first (length bytes + 2) (fgets line_room (open_stream bytes))

      unfoldable pub run : CString → Cmd W ℤ
      run script m = run_opened (h.read_file script m.world) m
