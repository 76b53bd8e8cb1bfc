-- ===== src/A2/Shell.antt =====
-- a2/interpreter.c, the dispatch, and `parseInput` of a2/shell.c. The array `words` keeps the words of
-- earlier commands of the line behind those of the last; an entry that was never written is null.
pub mod Main
pub mod Separator
pub mod Tokens
use mcgill_ecse_427_operatin.Prelude.{
  ℕ, zero, suc, ◌+◌, ◌-◌, Bool, true, false, not, ◌&&◌, ◌||◌, ltb, leb, ◌==◌, if◌then◌else◌, Option,
  none, some, List, [], ◌∷◌, CString, codes, str_eq, Array, update, map_range,
}
use mcgill_ecse_427_operatin.Prelude.Int.{ℤ, minus_one, ◌==ℤ◌}
use mcgill_ecse_427_operatin.Prelude.Stdio.{length}
use mcgill_ecse_427_operatin.Prelude.Words.{strip, join_words}
use mcgill_ecse_427_operatin.A2.Machine.{Host, crashed, out_of_fuel, Cmd, ◌>>=◌, pure}
use mcgill_ecse_427_operatin.A2.Schedule.{schedule_by_policy}
use mcgill_ecse_427_operatin.A2.Commands.{
  handle_error, too_few_tokens, too_many_tokens, bad_command, help, quit, set, print, echo, my_ls,
  my_mkdir, my_touch, my_cd, run, exec, resetmem,
}

abbrev pub Words : Type 0
Words = Array (Option CString)

abbrev strip_arg : Option CString → Option CString
strip_arg none = none
strip_arg (some w) = some (strip w)

-- The first `n` words lose what follows a carriage return or newline.
abbrev strip_args : ℕ → Words → Words
strip_args n words = map_range 0 n strip_arg words

abbrev with_word : Option CString → List CString → List CString
with_word none ws = ws
with_word (some w) ws = w ∷ ws

-- The words from `i` on for `n`; all of them are there when the interpreter is called.
abbrev args_from : Words → ℕ → ℕ → List CString
args_from words i zero = []
args_from words i (suc n) = with_word (words i) (args_from words (i + 1) n)

-- A use of a word: a null pointer cannot be read.
abbrev on_arg : {W : Type 0} → Option CString → (CString → Cmd W ℤ) → Cmd W ℤ
on_arg none k = λ m. crashed
on_arg (some w) k = k w

abbrev pub max_args_size : ℕ
max_args_size = 7

-- The array after a call of `interpreter` on `n` words, which strips them in place.
abbrev kept_args : ℕ → Words → Words
kept_args n words = if ltb n 1 || ltb max_args_size n then words else strip_args n words

abbrev pub max_input : ℕ
max_input = 1000

-- `for (; ui[a] == ' ' && a < 1000; a++);`, on the text from `a` on.
unfoldable pub skip_spaces : ℕ → CString → ℕ × CString
skip_spaces a [] = (a, [])
skip_spaces a (c ∷ s) =
    let rest = skip_spaces (a + 1) s in if c == b' ' && ltb a max_input then rest else (a, c ∷ s)

-- `while (ui[a] == ' ') a++;`.
unfoldable pub skip_all_spaces : ℕ → CString → ℕ × CString
skip_all_spaces a [] = (a, [])
skip_all_spaces a (c ∷ s) =
    let rest = skip_all_spaces (a + 1) s in if c == b' ' then rest else (a, c ∷ s)

abbrev pub is_stop : ℕ → Bool
is_stop c = c == b';' || c == 10 || c == b' '

-- A word, the place behind it and the text from there.
unfoldable pub read_word : ℕ → CString → CString × ℕ × CString
read_word a [] = ([], a, [])
read_word a (c ∷ s) =
    let rest = read_word (a + 1) s in
    if not (is_stop c) && ltb a max_input then (c ∷ rest.0, rest.1, rest.2) else ([], a, c ∷ s)

module _ {W : Type 0} (threshold varmemsize : ℕ) (h : Host W) (fuel : ℕ)
    (schedule : CString → Cmd W ℤ) where
  abbrev too_many : Cmd W ℤ
  too_many = handle_error too_many_tokens

  abbrev too_few : Cmd W ℤ
  too_few = handle_error too_few_tokens

  -- `exec` with one, two or three names; with four it falls through to the last line.
  abbrev exec_args : Words → ℕ → Cmd W ℤ
  exec_args words n =
      let go = exec threshold varmemsize h fuel schedule in
      if leb n 1
      then too_few
      else if ltb 5 n
      then too_many
      else if n == 2
      then on_arg (words 1) (λ f. go f none none)
      else if n == 3
      then on_arg (words 1) (λ f. go f (words 2) none)
      else if n == 4
      then on_arg (words 1) (λ f. go f (words 2) (words 3))
      else handle_error bad_command

  -- The command named `c`, with `n` words in all.
  unfoldable pub dispatch : CString → Words → ℕ → Cmd W ℤ
  dispatch c words n =
      if str_eq c (codes "help")
      then (if ltb 1 n then too_many else help)
      else if str_eq c (codes "quit") || str_eq c (codes "exit")
      then (if ltb 1 n then too_many else quit h)
      else if str_eq c (codes "set")
      then (if ltb n 3
          then too_few
          else on_arg (words 1)
              (λ var. set threshold varmemsize var (join_words (args_from words 2 (n - 2)))))
      else if str_eq c (codes "print")
      then (if ltb n 2
          then too_few
          else if ltb 2 n
          then too_many
          else on_arg (words 1) (print threshold varmemsize))
      else if str_eq c (codes "run")
      then (if ltb n 2
          then too_few
          else if ltb 2 n
          then too_many
          else on_arg (words 1) (run threshold varmemsize h fuel schedule))
      else if str_eq c (codes "echo")
      then (if ltb 2 n then too_many else on_arg (words 1) (echo threshold varmemsize))
      else if str_eq c (codes "my_ls")
      then (if ltb 1 n then too_many else my_ls threshold varmemsize h)
      else if str_eq c (codes "my_mkdir")
      then (if ltb 2 n then too_many else on_arg (words 1) (my_mkdir threshold varmemsize h))
      else if str_eq c (codes "my_touch")
      then (if ltb 2 n then too_many else on_arg (words 1) (my_touch threshold varmemsize h))
      else if str_eq c (codes "my_cd")
      then (if ltb 2 n then too_many else on_arg (words 1) (my_cd threshold varmemsize h))
      else if str_eq c (codes "exec")
      then exec_args words n
      else if str_eq c (codes "resetmem")
      then (if ltb 1 n then too_many else resetmem threshold varmemsize)
      else handle_error bad_command

  -- The words are stripped once their number is in range.
  unfoldable pub interpreter : Words → ℕ → Cmd W ℤ
  interpreter words n =
      if ltb n 1
      then too_few
      else if ltb max_args_size n
      then too_many
      else (let words' = strip_args n words in on_arg (words' 0) (λ c. dispatch c words' n))

  -- The two arrays of `parseInput` hold words below 200 bytes and fewer than 101 of them.
  abbrev pub word_size : ℕ
  word_size = 200

  abbrev pub max_words : ℕ
  max_words = 100

  -- The text behind a `;`.
  abbrev after_semicolon : ℕ → CString → Option (ℕ × CString)
  after_semicolon a [] = none
  after_semicolon a (c ∷ s) = if c == b';' then some (skip_spaces (a + 1) s) else none

  abbrev rest_of : CString → CString
  rest_of [] = []
  rest_of (c ∷ s) = s

  -- Nothing is left of the line at the place `a`.
  abbrev pub line_over : ℕ → CString → Bool
  line_over a [] = true
  line_over a (c ∷ s) = not (ltb a max_input) || c == 10

  abbrev is_empty : CString → Bool
  is_empty [] = true
  is_empty (c ∷ s) = false

  -- The main loop at the place `a`, where `s` is the text from there and `w` words were read.
  unfoldable pub parse_loop : ℕ → ℕ → CString → Words → ℕ → Cmd W ℤ
  parse_loop zero a s words w m = out_of_fuel
  parse_loop (suc steps) a s words w m =
      let here = skip_all_spaces a s in
      let word = read_word here.0 here.1 in
      let words' = update words w (some word.0) in
      let again = parse_loop steps word.1 word.2 words w m in
      let more = parse_loop steps (word.1 + 1) (rest_of word.2) words' (w + 1) m in
      if line_over a s
      then interpreter words w m
      else if is_empty here.1
      then interpreter words w m
      else if not (ltb (length word.0) word_size)
      then crashed
      else if is_empty word.0
      then again
      else if not (ltb w max_words)
      then crashed
      else elim (after_semicolon word.1 word.2) [
        | none ↦ more
        | some (a', s') ↦
            (do
              code ← interpreter words' (w + 1)
              let next = parse_loop steps a' s' (kept_args (w + 1) words') 0
              if code ==ℤ minus_one then pure code else next)
              m
      ]

  unfoldable pub parse_with : ℕ → CString → Cmd W ℤ
  parse_with steps ui =
      let start = skip_spaces 0 ui in parse_loop steps start.0 start.1 (λ _. none) 0

-- `parseInput`. A script runs its lines by the parser again, one level down: `depth` bounds the levels,
-- `steps` the rounds of one line and `fuel` those of the scheduler.
unfoldable pub parse_input :
    {W : Type 0} (threshold varmemsize : ℕ) (h : Host W) (fuel steps : ℕ) → ℕ → CString → Cmd W ℤ
parse_input threshold varmemsize h fuel steps zero ui = λ m. out_of_fuel
parse_input threshold varmemsize h fuel steps (suc depth) ui =
    parse_with threshold varmemsize h fuel
      (schedule_by_policy threshold varmemsize (parse_input threshold varmemsize h fuel steps depth)
        fuel)
      steps ui
