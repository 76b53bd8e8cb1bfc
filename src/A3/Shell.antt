-- ===== src/A3/Shell.antt =====
-- a3/interpreter.c, the dispatch, and `parseInput` of a3/shell.c. The text that `strtok` keeps between its calls is the
-- machine's `cursor`: a script's line is parsed while the line of its `run` is not over, and takes it.
pub mod Main
pub mod Words
pub mod Sections
use mcgill_ecse_427_operatin.Prelude.{
  ℕ, zero, suc, Bool, false, ◌&&◌, ◌||◌, ltb, ◌==◌, if◌then◌else◌, Option, none, some, List, [],
  ◌∷◌, ◌++◌, map, CString, codes, str_eq,
}
use mcgill_ecse_427_operatin.Prelude.Decimal.{decimal}
use mcgill_ecse_427_operatin.Prelude.Int.{ℤ, pos, minus_one, ◌==ℤ◌}
use mcgill_ecse_427_operatin.Prelude.Stdio.{length}
use mcgill_ecse_427_operatin.Prelude.Words.{strip}
use mcgill_ecse_427_operatin.A3.Memory.{mem_init}
use mcgill_ecse_427_operatin.A3.Host.{Host}
use mcgill_ecse_427_operatin.A3.Machine.{
  out_of_fuel, Cmd, ◌>>=◌, ◌>>◌, pure, crash, exit, modify, put, on_world,
}
use mcgill_ecse_427_operatin.A3.Kernel.{kernel_setup}
use mcgill_ecse_427_operatin.A3.FileTools.Defragment.{defragment}
use mcgill_ecse_427_operatin.A3.FileTools.Recover.{recover}
use mcgill_ecse_427_operatin.A3.Commands.{
  too_many_tokens, too_few_tokens, bad_command, handle_error, help, quit, set_command, print, echo,
  resetmem, run_command, exec_command,
}
use mcgill_ecse_427_operatin.A3.Commands.Files.{
  atoi, ls, cat, rm, create, write, find_file_command, read, copy_in_command, copy_out_command,
  size_command, seek, freespace, fragmentation_command,
}

abbrev max_user_input : ℕ
max_user_input = 1000

abbrev pub max_words : ℕ
max_words = 100

-- A word of a token and the text from the space behind it.
unfoldable pub read_word : CString → CString × CString
read_word [] = ([], [])
read_word (c ∷ s) =
    let rest = read_word s in if c == b' ' then ([], c ∷ s) else (c ∷ rest.0, rest.1)

unfoldable pub skip_spaces : CString → CString
skip_spaces [] = []
skip_spaces (c ∷ s) = let rest = skip_spaces s in if c == b' ' then rest else c ∷ s

abbrev rest_of : CString → CString
rest_of [] = []
rest_of (c ∷ s) = s

-- The loop over the words; each round takes at least a byte, so the length of the text is enough.
unfoldable pub words_loop : ℕ → CString → List CString
words_loop rounds [] = []
words_loop zero (c ∷ s) = []
words_loop (suc rounds) (c ∷ s) =
    let word = read_word (c ∷ s) in word.0 ∷ words_loop rounds (rest_of word.1)

unfoldable pub words_of : CString → List CString
words_of token = let text = skip_spaces token in words_loop (length text) text

abbrev pub semicolon : ℕ
semicolon = b';'

-- A token and the text behind the `;` that ends it.
unfoldable pub until_semicolon : CString → CString × CString
until_semicolon [] = ([], [])
until_semicolon (c ∷ s) =
    let rest = until_semicolon s in if c == semicolon then ([], s) else (c ∷ rest.0, rest.1)

-- `strtok` with the delimiter `;`: the next token that is not empty, and what it keeps.
unfoldable pub strtok : CString → (Option CString) × CString
strtok [] = (none, [])
strtok (c ∷ s) =
    let rest = strtok s in
    let token = until_semicolon s in if c == semicolon then rest else (some (c ∷ token.0), token.1)

module _ {W : Type 0} (frame_store_size var_store_size : ℕ) (h : Host W) (cwd : CString) where
  abbrev too_many : Cmd W ℤ
  too_many = handle_error too_many_tokens

  abbrev too_few : Cmd W ℤ
  too_few = handle_error too_few_tokens

  -- The first and the second word behind the name; a word that was not given cannot be read.
  abbrev with_one : List CString → (CString → Cmd W ℤ) → Cmd W ℤ
  with_one [] k = crash
  with_one (a ∷ argv) k = k a

  abbrev with_more : List CString → (CString → List CString → Cmd W ℤ) → Cmd W ℤ
  with_more [] k = crash
  with_more (a ∷ argv) k = k a argv

  abbrev with_two : List CString → (CString → CString → Cmd W ℤ) → Cmd W ℤ
  with_two (a ∷ b ∷ argv) k = k a b
  with_two (a ∷ []) k = crash
  with_two [] k = crash

  -- Exactly the one, or the two, words that a command on files takes.
  abbrev exactly_one : List CString → (CString → Cmd W ℤ) → Cmd W ℤ
  exactly_one argv k = if length argv == 1 then with_one argv k else too_many

  abbrev exactly_two : List CString → (CString → CString → Cmd W ℤ) → Cmd W ℤ
  exactly_two argv k = if length argv == 2 then with_two argv k else too_many

  abbrev no_more : List CString → Cmd W ℤ → Cmd W ℤ
  no_more argv k = if length argv == 0 then k else too_many

  -- `fuel` bounds the loops over a directory, and `stray` is the sector of a directory entry that was
  -- never written.
  module _ (fuel stray : ℕ) where
    unfoldable pub file_dispatch : CString → List CString → Cmd W ℤ
    file_dispatch c argv =
        if str_eq c (codes "ls")
        then no_more argv (ls h)
        else if str_eq c (codes "cat")
        then exactly_one argv (cat h)
        else if str_eq c (codes "rm")
        then exactly_one argv (rm h)
        else if str_eq c (codes "create")
        then exactly_two argv (create h)
        else if str_eq c (codes "write")
        then (if ltb (length argv) 2 then too_few else with_more argv (write h))
        else if str_eq c (codes "find_file")
        then (if ltb (length argv) 1 then too_few else find_file_command h fuel argv)
        else if str_eq c (codes "read")
        then exactly_two argv (read h)
        else if str_eq c (codes "copy_in")
        then exactly_one argv (copy_in_command h)
        else if str_eq c (codes "copy_out")
        then exactly_one argv (copy_out_command h)
        else if str_eq c (codes "size")
        then exactly_one argv (size_command h)
        else if str_eq c (codes "seek")
        then exactly_two argv (seek h)
        else if str_eq c (codes "freespace")
        then no_more argv (freespace h)
        else if str_eq c (codes "fragmentation_degree")
        then no_more argv (fragmentation_command h fuel stray)
        else if str_eq c (codes "defragment")
        then no_more argv (do defragment h fuel stray; pure (pos 0))
        else if str_eq c (codes "recover")
        then exactly_one argv (λ flag. do recover h fuel (atoi flag); pure (pos 0))
        else handle_error bad_command

    module _ (parse : CString → Cmd W ℤ) where
      -- The command named `c` on the words behind it; `parse` is `parseInput` for the lines of scripts.
      unfoldable pub dispatch : CString → List CString → Cmd W ℤ
      dispatch c argv =
          if str_eq c (codes "help")
          then no_more argv help
          else if str_eq c (codes "quit") || str_eq c (codes "exit")
          then no_more argv (quit h cwd)
          else if str_eq c (codes "set")
          then (if ltb (length argv) 2
              then too_few
              else with_more argv (set_command frame_store_size var_store_size))
          else if str_eq c (codes "print")
          then (if length argv == 0
              then too_few
              else exactly_one argv (print frame_store_size var_store_size))
          else if str_eq c (codes "run")
          then (if length argv == 0
              then too_few
              else exactly_one argv (run_command frame_store_size var_store_size h cwd parse fuel))
          else if str_eq c (codes "echo")
          then (if ltb 1 (length argv)
              then too_many
              else with_one argv (echo frame_store_size var_store_size))
          else if str_eq c (codes "exec")
          then (if length argv == 0
              then too_few
              else if ltb 4 (length argv)
              then too_many
              else exec_command frame_store_size var_store_size h cwd parse fuel argv)
          else if str_eq c (codes "resetmem")
          then resetmem frame_store_size var_store_size
          else file_dispatch c argv

      abbrev dispatch_words : List CString → Cmd W ℤ
      dispatch_words [] = too_few
      dispatch_words (c ∷ argv) = dispatch c argv

      unfoldable pub interpreter : List CString → Cmd W ℤ
      interpreter words = dispatch_words (map strip words)

      -- One section of a line; its words stand in an array of 100, its text in one of 1000.
      unfoldable pub run_section : CString → Cmd W ℤ
      run_section token =
          if ltb (length token) max_user_input
          then if ltb max_words (length (words_of token))
            then crash
            else interpreter (words_of token)
          else crash

      -- `strtok(NULL, ";")`.
      unfoldable pub next_token : Cmd W (Option CString)
      next_token m = let r = strtok m.cursor in pure r.0 (record m { cursor = r.1 })

      abbrev unless_quit : ℤ → Cmd W ℤ → Cmd W ℤ
      unless_quit code next = if code ==ℤ minus_one then pure code else next

      -- The loop over the sections, a round for each. The next one is taken before -1 ends the loop.
      unfoldable pub run_sections : ℕ → ℤ → Option CString → Cmd W ℤ
      run_sections steps code none = pure code
      run_sections zero code (some token) = λ m. out_of_fuel
      run_sections (suc steps) code (some token) = do
        ret ← run_section token
        next ← next_token
        unless_quit ret (run_sections steps ret next)

      unfoldable pub parse_with : ℕ → CString → Cmd W ℤ
      parse_with steps ui = do
        modify (λ m. record m { cursor = ui })
        first ← next_token
        run_sections steps (pos 0) first

    -- `parseInput`. The lines of a script are parsed one level down: `depth` bounds the levels, `fuel` the
    -- rounds of the scheduler too, and `steps` the sections of a line.
    unfoldable pub parse_input : ℕ → ℕ → CString → Cmd W ℤ
    parse_input steps zero ui = λ m. out_of_fuel
    parse_input steps (suc depth) ui = parse_with (parse_input steps depth) steps ui
