-- ===== src/A1/Shell/Tokens.antt =====
-- The words of a line: what `parseInput` of a1/shell.c cuts a line into.
use mcgill_ecse_427_operatin.Prelude.{
  ℕ, zero, suc, ◌+◌, ◌≤◌, ◌<◌, ◌≡◌, refl, true, false, some, List, [], ◌∷◌, ◌++◌, CString, arith,
}
use mcgill_ecse_427_operatin.Prelude.Stdio.{length, length-append}
use mcgill_ecse_427_operatin.A1.Shell.{
  max_input, is_stop, read_word, line_over, word_size, split_words,
}

-- A word holds no `;`, newline or space.
abbrev pub IsWord : CString → Type 0
IsWord [] = Unit {0}
IsWord (c ∷ w) = (is_stop c ≡ false) × IsWord w

read_word-at :
    (a : ℕ) (w : CString) (c : ℕ) (rest : CString)
    → IsWord w
    → is_stop c ≡ true
    → a + length w ≤ max_input
    → read_word a (w ++ (c ∷ rest)) ≡ (w, a + length w, c ∷ rest)
unfolding read_word
read_word-at a [] c rest is h k = ground arith
read_word-at a (b ∷ w) c rest is h k = ground (arith, is.0, read_word-at (a + 1) w c rest is.1 h)

-- The words with a space between two of them, and a newline behind the last.
abbrev pub line_text : CString → List CString → CString
line_text w [] = w ++ (10 ∷ [])
line_text w (v ∷ ws) = w ++ (b' ' ∷ line_text v ws)

-- Nonempty words that fit the array for one word.
abbrev pub AreWords : List CString → Type 0
AreWords [] = Unit {0}
AreWords (w ∷ ws) = IsWord w × (0 < length w) × (length w < word_size) × AreWords ws

-- The line is over before a word only where its text starts with a newline.
line_over-word :
    (a : ℕ) (w : CString) (rest : CString)
    → IsWord w
    → 0 < length w
    → a < max_input
    → line_over a (w ++ rest) ≡ false
line_over-word a [] rest is h k = absurd (omega arith)
line_over-word a (c ∷ w) rest is h k = ground (arith, is.0)

-- A line of words is cut into these words.
pub split_words-line :
    (fuel a : ℕ) (w : CString) (ws : List CString)
    → AreWords (w ∷ ws)
    → a + length (line_text w ws) ≤ max_input
    → length (w ∷ ws) < fuel
    → split_words fuel a (line_text w ws) ≡ some (w ∷ ws)
unfolding split_words
split_words-line zero a w ws is k k' = absurd (omega arith)
split_words-line (suc zero) a w ws is k k' = absurd (omega arith)
split_words-line (suc (suc fuel)) a w [] is k k' =
    let size = length-append w (10 ∷ []) in
    ground (
      arith,
      read_word-at a w 10 [] is.0 refl (omega arith),
      line_over-word a w (10 ∷ []) is.0 is.1 (omega arith),
      is.2,
    )
split_words-line (suc (suc fuel)) a w (v ∷ ws) is k k' =
    let size = length-append w (b' ' ∷ line_text v ws) in
    ground (
      arith,
      read_word-at a w (b' ') (line_text v ws) is.0 refl (omega arith),
      line_over-word a w (b' ' ∷ line_text v ws) is.0 is.1 (omega arith),
      is.2,
      split_words-line (suc fuel) (a + length w + 1) v ws is.3 (omega arith) (omega arith),
    )
