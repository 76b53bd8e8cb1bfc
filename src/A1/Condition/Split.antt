-- ===== src/A1/Condition/Split.antt =====
-- The words of an `if` behind `then`: where the two commands start and end.
use mcgill_ecse_427_operatin.Prelude.{
  ℕ, ◌≡◌, ◌≢◌, refl, arith, ◌==◌, ==_iff, str_eq_iff, str_eq_refl, Array, not, Bool, true, false,
  none, some, List, [], ◌∷◌, ◌++◌, CString, codes, if◌then◌else◌,
}
use mcgill_ecse_427_operatin.Prelude.Text.{str_eq}
use mcgill_ecse_427_operatin.Prelude.Words.{first_byte}
use mcgill_ecse_427_operatin.A1.Memory.{Slot, mem_get_value, missing_text}
use mcgill_ecse_427_operatin.Prelude.Int.{ℤ}
use mcgill_ecse_427_operatin.A1.Machine.{Machine, Cmd, crashed, ok}
use mcgill_ecse_427_operatin.A1.Condition.{
  ends_first, ends_second, collect, split_commands, if_command, identifier, run_clause,
  compare_words,
}

-- The command that the loop puts together: each word with a space in front.
abbrev pub with_words : CString → List CString → CString
with_words command [] = command
with_words command (w ∷ ws) = with_words (command ++ (codes " " ++ w)) ws

-- No word of the list ends a command.
abbrev NoneEnds : (CString → Bool) → List CString → Type 0
NoneEnds ends [] = Unit {0}
NoneEnds ends (w ∷ ws) = (ends w ≡ false) × NoneEnds ends ws

collect-at :
    (ends : CString → Bool) (command : CString) (ws : List CString) (e : CString)
    (rest : List CString)
    → NoneEnds ends ws
    → ends e ≡ true
    → collect ends command (ws ++ (e ∷ rest)) ≡ some (with_words command ws, e ∷ rest)
unfolding collect
collect-at ends command [] e rest clean h = rw h
collect-at ends command (w ∷ ws) e rest clean h = rw clean.0 (collect-at ends _ ws e rest clean.1 h)

collect-never :
    (ends : CString → Bool) (command : CString) (ws : List CString)
    → NoneEnds ends ws
    → collect ends command ws ≡ none
unfolding collect
collect-never ends command [] clean = refl
collect-never ends command (w ∷ ws) clean = rw clean.0 (collect-never ends _ ws clean.1)

-- The words up to `else` and those from there to `fi` become the two commands.
split_commands-else :
    (first second : CString) (ws vs rest : List CString)
    → NoneEnds ends_first ws
    → NoneEnds ends_second vs
    → split_commands first (ws ++ (codes "else" ∷ (second ∷ (vs ++ (codes "fi" ∷ rest)))))
      ≡ some (with_words first ws, with_words second vs)
unfolding split_commands str_eq
split_commands-else first second ws vs rest clean clean' = rw (
  collect-at ends_first first ws (codes "else") (second ∷ (vs ++ (codes "fi" ∷ rest))) clean refl,
  collect-at ends_second second vs (codes "fi") rest clean' refl,
)

-- Without an end there is no command to run.
split_commands-never :
    (first : CString) (ws : List CString) → NoneEnds ends_first ws → split_commands first ws ≡ none
unfolding split_commands str_eq
split_commands-never first ws clean = rw (collect-never ends_first first ws clean)

-- The text that an identifier stands for: a word for itself, `$name` for the variable's value, or for
-- the empty text if there is no such variable.
pub data Operand (memory : Array Slot) : CString → CString → Type 0 where
  plain : (w : CString) → first_byte w ≢ b'$' → Operand memory w w
  variable :
      (name : CString)
      → mem_get_value name memory ≢ missing_text
      → Operand memory (b'$' ∷ name) (mem_get_value name memory)
  unset :
      (name : CString) → mem_get_value name memory ≡ missing_text → Operand memory (b'$' ∷ name) []

-- Whether the condition `x op y` holds, for the two operators.
pub data Holds (x op y : CString) : Bool → Type 0 where
  equal : op ≡ codes "==" → x ≡ y → Holds x op y true
  unequal : op ≡ codes "==" → x ≢ y → Holds x op y false
  different : op ≡ codes "!=" → x ≢ y → Holds x op y true
  same : op ≡ codes "!=" → x ≡ y → Holds x op y false

str_eq-ne : (s t : CString) → s ≢ t → str_eq s t ≡ false
str_eq-ne s t ne = ground (arith, str_eq_iff s t)

not_dollar : (n : ℕ) → n ≢ b'$' → (n == b'$') ≡ false
not_dollar n ne = ground (arith, ==_iff n b'$')

identifier-Operand :
    {W : Type 0} (m : Machine W) (w x : CString) → Operand m.memory w x → identifier w m ≡ ok x m
unfolding identifier
identifier-Operand m w x (plain v ne) = rw (not_dollar (first_byte v) ne) refl
identifier-Operand m w x (variable name ne) = rw (str_eq-ne _ _ ne) refl
identifier-Operand m w x (unset name e) = rw (e, str_eq_refl missing_text) refl

compare_equal : (x y : CString) → compare_words x (codes "==") y ≡ some (str_eq x y)
compare_equal x y = rw (str_eq_refl (codes "==")) refl

compare_different : (x y : CString) → compare_words x (codes "!=") y ≡ some (not (str_eq x y))
compare_different x y =
    rw (str_eq-ne (codes "!=") (codes "==") (λ e. cc e), str_eq_refl (codes "!=")) refl

compare_words-Holds :
    (x op y : CString) (condition : Bool)
    → Holds x op y condition
    → compare_words x op y ≡ some condition
compare_words-Holds x op y condition (equal o e) =
    rw (o, compare_equal x y, (str_eq_iff x y).1 e) refl
compare_words-Holds x op y condition (unequal o ne) =
    rw (o, compare_equal x y, str_eq-ne x y ne) refl
compare_words-Holds x op y condition (different o ne) =
    rw (o, compare_different x y, str_eq-ne x y ne) refl
compare_words-Holds x op y condition (same o e) =
    rw (o, compare_different x y, (str_eq_iff x y).1 e) refl

module _ {W : Type 0} (parse : CString → Cmd W ℤ) (a op b first : CString) (m : Machine W)
    (x y : CString) (condition : Bool) (left : Operand m.memory a x) (right : Operand m.memory b y)
    (known : Holds x op y condition) (starts : ends_first first ≡ false) where
  -- A whole `if a op b then first ws else second vs fi`, where `a` and `b` stand for the texts `x`
  -- and `y` (a word for itself, `$name` for the variable's value, or for the empty text without that
  -- variable), and `op` is `==` or `!=`, with a first command that does not start with an end word
  -- and no end word inside the commands: it runs the first command where `x op y` holds, as equality
  -- of texts or as its negation, and the second where it does not.
  pub if_command-else :
      (second : CString) (ws vs rest : List CString)
      → NoneEnds ends_first ws
      → NoneEnds ends_second vs
      → if_command parse
          (a
            ∷ (op
                ∷ (b
                    ∷ (codes "then"
                        ∷ (first
                            ∷ (ws ++ (codes "else" ∷ (second ∷ (vs ++ (codes "fi" ∷ rest))))))))))
          m
        ≡ run_clause parse (if condition then with_words first ws else with_words second vs) m
  unfolding if_command str_eq
  if_command-else second ws vs rest clean clean' = rw (
    identifier-Operand m a x left,
    identifier-Operand m b y right,
    compare_words-Holds x op y condition known,
    starts,
    split_commands-else first second ws vs rest clean clean',
  )

  -- An `if` with a known operator and a first command that does not start with an end word, but no
  -- `else`, `fi` or newline behind it, reads behind the last word.
  if_command-no_end :
      (ws : List CString)
      → NoneEnds ends_first ws
      → if_command parse (a ∷ (op ∷ (b ∷ (codes "then" ∷ (first ∷ ws))))) m ≡ crashed
  unfolding if_command str_eq
  if_command-no_end ws clean = rw (
    identifier-Operand m a x left,
    identifier-Operand m b y right,
    compare_words-Holds x op y condition known,
    starts,
    split_commands-never first ws clean,
  )
