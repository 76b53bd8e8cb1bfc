-- ===== src/A1/Condition.antt =====
-- a1/interpreter.c, the command `if identifier1 op identifier2 then command1 else command2 fi`. The
-- words come as a list; a read behind the last one, where the array was never written, is a crash.
pub mod Split
use mcgill_ecse_427_operatin.Prelude.{
  Bool, not, ◌==◌, ◌||◌, if◌then◌else◌, Option, none, some, List, [], ◌∷◌, ◌++◌, CString, codes,
  str_eq,
}
use mcgill_ecse_427_operatin.Prelude.Int.{ℤ, pos}
use mcgill_ecse_427_operatin.Prelude.Words.{first_byte, tail_text}
use mcgill_ecse_427_operatin.A1.Memory.{mem_get_value}
use mcgill_ecse_427_operatin.A1.Machine.{ok, Cmd, ◌>>=◌, ◌>>◌, pure, crash, put}
use mcgill_ecse_427_operatin.A1.Commands.{badcommand_incorrect_usage, or_empty}

-- `else`, `fi` or a newline ends the first command.
abbrev pub ends_first : CString → Bool
ends_first w = str_eq w (codes "else") || str_eq w (codes "fi") || str_eq w (codes "\n")

abbrev pub ends_second : CString → Bool
ends_second w = str_eq w (codes "fi") || str_eq w (codes "\n")

-- The words up to one that ends the command are put behind it with spaces; the result has that word
-- and those behind it. The loop reads a word before it compares the index with the number of words.
unfoldable pub collect : (CString → Bool) → CString → List CString → Option (CString × List CString)
collect ends command [] = none
collect ends command (w ∷ ws) =
    let rest = collect ends (command ++ (codes " " ++ w)) ws in
    if ends w then some (command, w ∷ ws) else rest

abbrev second_of : Option (CString × List CString) → Option CString
second_of none = none
second_of (some (command, rest)) = some command

-- The command behind `else`, whose first word is taken as it is.
abbrev else_command : List CString → Option CString
else_command [] = none
else_command (w ∷ ws) = second_of (collect ends_second w ws)

-- The second command, from the word that ended the first; it is empty without `else`.
abbrev second_command : List CString → Option CString
second_command [] = none
second_command (w ∷ ws) = if str_eq w (codes "else") then else_command ws else some []

abbrev with_second : CString → Option CString → Option (CString × CString)
with_second c none = none
with_second c (some d) = some (c, d)

abbrev split_found : Option (CString × List CString) → Option (CString × CString)
split_found none = none
split_found (some (c, ws)) = with_second c (second_command ws)

-- The two commands of the words behind `then`.
unfoldable pub split_commands : CString → List CString → Option (CString × CString)
unfolding collect
split_commands first ws = split_found (collect ends_first first ws)

abbrev pub compare_words : CString → CString → CString → Option Bool
compare_words a op b =
    if str_eq op (codes "==")
    then some (str_eq a b)
    else if str_eq op (codes "!=")
    then some (not (str_eq a b))
    else none

module _ {W : Type 0} where
  -- The value of an identifier: that of a variable behind `$`, and otherwise the word.
  unfoldable pub identifier : CString → Cmd W CString
  identifier w m =
      ok (if first_byte w == b'$' then or_empty (mem_get_value (tail_text w) m.memory) else w) m

  abbrev empty_clause : Cmd W ℤ
  empty_clause = do put (codes "Empty if clause\n"); pure (pos 2)

  module _ (parse : CString → Cmd W ℤ) where
    abbrev pub run_clause : CString → Cmd W ℤ
    run_clause command = if str_eq command [] then empty_clause else parse command

    abbrev run_split : Bool → Option (CString × CString) → Cmd W ℤ
    run_split condition none = crash
    run_split condition (some (c, d)) = run_clause (if condition then c else d)

    abbrev run_compared : CString → CString → List CString → Option Bool → Cmd W ℤ
    run_compared then_word first ws none =
        badcommand_incorrect_usage (codes "invalid operator in if-conditional")
    run_compared then_word first ws (some condition) =
        if not (str_eq then_word (codes "then"))
        then badcommand_incorrect_usage (codes "cannot find 'then' in if-conditional")
        else if ends_first first
        then empty_clause
        else run_split condition (split_commands first ws)

    -- The words behind `if`.
    unfoldable pub if_command : List CString → Cmd W ℤ
    if_command (a ∷ op ∷ b ∷ then_word ∷ first ∷ ws) = do
      x ← identifier a
      y ← identifier b
      run_compared then_word first ws (compare_words x op y)
    if_command _ = badcommand_incorrect_usage (codes "too few arguments in if-conditional")
