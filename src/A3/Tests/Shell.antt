-- ===== src/A3/Tests/Shell.antt =====
-- The theorems on the shell of a3 at concrete inputs.
use mcgill_ecse_427_operatin.Prelude.{
  true, ◌||◌, arith, true, ◌||◌, arith, ◌≡◌, refl, [], ◌∷◌, ◌++◌, CString, codes, List,
}
use mcgill_ecse_427_operatin.Prelude.Text.{str_eq}
use mcgill_ecse_427_operatin.Prelude.Int.{ℤ, pos}
use mcgill_ecse_427_operatin.Prelude.Words.{join_words, strip}
use mcgill_ecse_427_operatin.A3.Memory.{reset_var_zone}
use mcgill_ecse_427_operatin.A3.Machine.{Machine, ok, Cmd, pure}
use mcgill_ecse_427_operatin.Prelude.Scan.{scan}
use mcgill_ecse_427_operatin.VarStore.Slots.{none_text, find_var, has_var}
use mcgill_ecse_427_operatin.A3.Memory.Store.{stores}
use mcgill_ecse_427_operatin.A3.Commands.Values.{AllAlnum, set_command-echo}
use mcgill_ecse_427_operatin.A3.Commands.{resetmem, echo, set_command, is_alpha_num_str}
use mcgill_ecse_427_operatin.A3.Shell.{
  parse_with, words_of, skip_spaces, read_word, words_loop, run_section, run_sections, next_token,
  strtok, until_semicolon, interpreter, dispatch,
}
use mcgill_ecse_427_operatin.A3.Shell.Words.{split_spaces, words_of-split_spaces}
use mcgill_ecse_427_operatin.A3.Shell.Sections.{
  AllSections, line_text, run_each, IsPlain, parse_with-each,
}
use mcgill_ecse_427_operatin.A3.Tests.Host.{World, no_disk, start}

words_of-split_spaces_example :
    words_of (codes " set x  1") ≡ split_spaces (skip_spaces (codes " set x  1"))
words_of-split_spaces_example = words_of-split_spaces (codes " set x  1")

abbrev nothing : CString → Cmd World ℤ
nothing line = pure (pos 0)

reset_IsPlain : IsPlain 6 4 no_disk (codes "/home") 9 0 nothing (codes "resetmem")
unfolding run_section words_of skip_spaces read_word words_loop interpreter dispatch str_eq strip
    resetmem
reset_IsPlain m = (pos 0, _, refl, refl, refl)

unknown_IsPlain : IsPlain 6 4 no_disk (codes "/home") 9 0 nothing (codes "help x")
unfolding run_section words_of skip_spaces read_word words_loop interpreter dispatch str_eq strip
unknown_IsPlain m = (pos 4, _, refl, refl, refl)

abbrev sections : List CString
sections = codes "resetmem" ∷ codes "help x" ∷ []

sections-AllSections : AllSections sections
sections-AllSections = (
  ((λ e. cc e), (refl, (refl, (refl, (refl, (refl, (refl, (refl, (refl, tt))))))))),
  (((λ e. cc e), (refl, (refl, (refl, (refl, (refl, (refl, tt))))))), tt),
)

parse_with-each_example :
    parse_with 6 4 no_disk (codes "/home") 9 0 nothing 2 (line_text sections) start
    ≡ run_each 6 4 no_disk (codes "/home") 9 0 nothing sections (pos 0) start
parse_with-each_example =
    parse_with-each 6 4 no_disk (codes "/home") 9 0 nothing sections start sections-AllSections
      (reset_IsPlain, (unknown_IsPlain, tt))

abbrev after_reset : Machine World
after_reset = record start { memory = reset_var_zone 6 4 start.memory }

parse_reset :
    parse_with 6 4 no_disk (codes "/home") 9 0 nothing 1 (codes ";resetmem;;") start
    ≡ ok (pos 0) after_reset
unfolding parse_with run_sections next_token strtok until_semicolon run_section words_of skip_spaces
    read_word words_loop interpreter dispatch str_eq strip resetmem
parse_reset = refl

abbrev values : List CString
values = codes "a1" ∷ codes "b" ∷ []

room : (stores 6 4 (codes "x") start.memory || stores 6 4 none_text start.memory) ≡ true
unfolding scan str_eq find_var has_var
room = refl

values-AllAlnum : AllAlnum values
unfolding is_alpha_num_str
values-AllAlnum = (refl, (refl, tt))

set_command-echo_example :
    (m' : Machine World) × (set_command 6 4 (codes "x") values start ≡ ok (pos 0) m')
    × (echo 6 4 (codes "$x") m'
        ≡ ok (pos 0) (record m' { output = m'.output ++ (join_words values ++ codes "\n") }))
unfolding is_alpha_num_str join_words
set_command-echo_example =
    set_command-echo 6 4 (codes "x") (codes "a1") (codes "b" ∷ []) start refl values-AllAlnum
      (omega arith) room
