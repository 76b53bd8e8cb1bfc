-- ===== src/A1/Shell.antt =====
-- a1/interpreter.c, the dispatch, and `parseInput` of a1/shell.c.
pub mod Main
pub mod Tokens
pub mod EndToEnd
pub mod Session
use mcgill_ecse_427_operatin.Prelude.{
  ℕ, zero, suc, ◌+◌, Bool, true, not, ◌==◌, ◌&&◌, ◌||◌, ltb, if◌then◌else◌, Option, none, some,
  List, [], ◌∷◌, CString, codes, str_eq, map,
}
use mcgill_ecse_427_operatin.Prelude.Int.{ℤ}
use mcgill_ecse_427_operatin.Prelude.Stdio.{length}
use mcgill_ecse_427_operatin.Prelude.Words.{strip, join_words}
use mcgill_ecse_427_operatin.A1.Machine.{Host, out_of_fuel, Cmd, crash}
use mcgill_ecse_427_operatin.A1.Commands.{
  badcommand, badcommand_incorrect_usage, help, quit, set, print, echo, my_ls, my_mkdir, my_touch,
  my_cd, my_cat, run,
}
use mcgill_ecse_427_operatin.A1.Condition.{if_command}

abbrev pub max_args_size : ℕ
max_args_size = 20

module _ {W : Type 0} (h : Host W) (parse : CString → Cmd W ℤ) where
  -- A command with exactly one argument, or the message that it is used badly.
  abbrev one_arg : Cmd W ℤ → (CString → Cmd W ℤ) → List CString → Cmd W ℤ
  one_arg wrong k (a ∷ []) = k a
  one_arg wrong k _ = wrong

  abbrev no_args : Cmd W ℤ → Cmd W ℤ → List CString → Cmd W ℤ
  no_args wrong k [] = k
  no_args wrong k (a ∷ args) = wrong

  -- `set` with a name and one to five words.
  abbrev set_args : List CString → Cmd W ℤ
  set_args (var ∷ w ∷ ws) =
      if ltb 4 (length ws)
      then badcommand_incorrect_usage (codes "set")
      else set var (join_words (w ∷ ws))
  set_args _ = badcommand_incorrect_usage (codes "set")

  -- The command `c` with the arguments `args`.
  unfoldable pub dispatch : CString → List CString → Cmd W ℤ
  dispatch c args =
      if str_eq c (codes "help")
      then no_args badcommand help args
      else if str_eq c (codes "quit")
      then no_args badcommand quit args
      else if str_eq c (codes "set")
      then set_args args
      else if str_eq c (codes "print")
      then one_arg badcommand print args
      else if str_eq c (codes "run")
      then one_arg badcommand (run h parse) args
      else if str_eq c (codes "echo")
      then one_arg (badcommand_incorrect_usage (codes "echo")) echo args
      else if str_eq c (codes "my_ls")
      then no_args (badcommand_incorrect_usage (codes "my_ls")) (my_ls h) args
      else if str_eq c (codes "my_mkdir")
      then one_arg (badcommand_incorrect_usage (codes "my_mkdir")) (my_mkdir h) args
      else if str_eq c (codes "my_touch")
      then one_arg (badcommand_incorrect_usage (codes "my_touch")) (my_touch h) args
      else if str_eq c (codes "my_cd")
      then one_arg (badcommand_incorrect_usage (codes "my_cd")) (my_cd h) args
      else if str_eq c (codes "my_cat")
      then one_arg (badcommand_incorrect_usage (codes "my_cat")) (my_cat h) args
      else if str_eq c (codes "if")
      then if_command parse args
      else badcommand

  abbrev dispatch_words : List CString → Cmd W ℤ
  dispatch_words [] = badcommand
  dispatch_words (c ∷ args) = dispatch c args

  unfoldable pub interpreter : List CString → Cmd W ℤ
  interpreter words =
      if ltb (length words) 1 || ltb max_args_size (length words)
      then badcommand
      else dispatch_words (map strip words)

abbrev pub max_input : ℕ
max_input = 1000

unfoldable pub skip_spaces : ℕ → CString → ℕ × CString
skip_spaces a [] = (a, [])
skip_spaces a (c ∷ s) =
    let rest = skip_spaces (a + 1) s in if c == b' ' && ltb a max_input then rest else (a, c ∷ s)

abbrev pub is_stop : ℕ → Bool
is_stop c = c == b';' || c == 10 || c == b' '

-- A word, the place behind it and the text from there.
unfoldable pub read_word : ℕ → CString → CString × ℕ × CString
read_word a [] = ([], a, [])
read_word a (c ∷ s) =
    let rest = read_word (a + 1) s in
    if not (is_stop c) && ltb a max_input then (c ∷ rest.0, rest.1, rest.2) else ([], a, c ∷ s)

-- Nothing is left of the line at the place `a`.
abbrev pub line_over : ℕ → CString → Bool
line_over a [] = true
line_over a (c ∷ s) = not (ltb a max_input) || c == 10

abbrev pub word_size : ℕ
word_size = 200

abbrev pub max_words : ℕ
max_words = 100

abbrev cons_word : CString → Option (List CString) → Option (List CString)
cons_word w none = none
cons_word w (some ws) = some (w ∷ ws)

-- The words of the text, each with the stop byte behind it taken off; `none` if one does not fit the
-- array of 200 bytes. A text of `n` bytes has at most `n` rounds.
unfoldable pub split_words : ℕ → ℕ → CString → Option (List CString)
split_words zero a s = some []
split_words (suc fuel) a s =
    let word = read_word a s in
    let rest : Option (List CString) = elim word.2 [
      | [] ↦ some []
      | c ∷ s' ↦ split_words fuel (word.1 + 1) s'
    ] in
    if line_over a s
    then some []
    else if not (ltb (length word.0) word_size)
    then none
    else cons_word word.0 rest

abbrev call_on : {W : Type 0} → (List CString → Cmd W ℤ) → Option (List CString) → Cmd W ℤ
call_on k none = crash
call_on k (some words) = if ltb max_words (length words) then crash else k words

-- `parseInput`. A script or an `if` runs its commands by the parser again: `depth` bounds the levels.
unfoldable pub parse_input : {W : Type 0} (h : Host W) → ℕ → CString → Cmd W ℤ
parse_input h zero ui = λ m. out_of_fuel
parse_input h (suc depth) ui =
    let start = skip_spaces 0 ui in
    call_on (interpreter h (parse_input h depth)) (split_words (length ui) start.0 start.1)
