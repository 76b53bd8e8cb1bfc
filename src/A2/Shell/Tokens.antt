-- ===== src/A2/Shell/Tokens.antt =====
-- The words of a line: what `parseInput` of a2/shell.c calls the interpreter with.
use mcgill_ecse_427_operatin.Prelude.{
  ℕ, zero, suc, ◌+◌, ◌≤◌, ◌<◌, ◌≡◌, ◌==◌, refl, ap, ◌∙◌, true, false, none, some, List, [], ◌∷◌,
  ◌++◌, CString, arith, lt→ltb, update,
}
use mcgill_ecse_427_operatin.Prelude.Int.{ℤ}
use mcgill_ecse_427_operatin.Prelude.Stdio.{length, length-append}
use mcgill_ecse_427_operatin.A2.Machine.{Host, Machine, Cmd}
use mcgill_ecse_427_operatin.A2.Shell.{
  Words, max_input, is_stop, skip_spaces, skip_all_spaces, read_word, line_over, parse_loop,
  parse_with, interpreter,
}

-- A word holds no `;`, newline or space.
abbrev pub IsWord : CString → Type 0
IsWord [] = Unit {0}
IsWord (c ∷ w) = (is_stop c ≡ false) × IsWord w

-- Nonempty words that fit the array for one word.
abbrev pub AreWords : List CString → Type 0
AreWords [] = Unit {0}
AreWords (w ∷ ws) = IsWord w × (0 < length w) × (length w < 200) × AreWords ws

-- The words with a space between two of them, and a newline behind the last.
abbrev pub line_text : CString → List CString → CString
line_text w [] = w ++ (10 ∷ [])
line_text w (v ∷ ws) = w ++ (b' ' ∷ line_text v ws)

-- The array after the words were written from the index `n` on.
abbrev pub written : Words → ℕ → List CString → Words
written words n [] = words
written words n (w ∷ ws) = written (update words n (some w)) (n + 1) ws

read_word-at :
    (a : ℕ) (w : CString) (c : ℕ) (rest : CString)
    → IsWord w
    → is_stop c ≡ true
    → a + length w ≤ max_input
    → read_word a (w ++ (c ∷ rest)) ≡ (w, a + length w, c ∷ rest)
unfolding read_word
read_word-at a [] c rest is h k = ground arith
read_word-at a (b ∷ w) c rest is h k = ground (arith, is.0, read_word-at (a + 1) w c rest is.1 h)

no_blank :
    (a : ℕ) (w rest : CString)
    → IsWord w
    → 0 < length w
    → skip_all_spaces a (w ++ rest) ≡ (a, w ++ rest)
unfolding skip_all_spaces
no_blank a [] rest is h = absurd (omega arith)
no_blank a (c ∷ w) rest is h = ground (arith, is.0)

module _ {W : Type 0} (threshold varmemsize : ℕ) (h : Host W) (fuel : ℕ)
    (schedule : CString → Cmd W ℤ) where
  not_over :
      (a : ℕ) (w rest : CString)
      → IsWord w
      → 0 < length w
      → a < max_input
      → line_over threshold varmemsize h fuel schedule a (w ++ rest) ≡ false
  not_over a [] rest is more room = absurd (omega arith)
  not_over a (c ∷ w) rest is more room = ground (arith, is.0)

  -- One round on a word that a space or a newline follows.
  parse_loop-word :
      (steps a : ℕ) (w : CString) (c : ℕ) (rest : CString) (words : Words) (n : ℕ) (m : Machine W)
      → IsWord w
      → 0 < length w
      → length w < 200
      → is_stop c ≡ true
      → (c == b';') ≡ false
      → a + length w < max_input
      → n < 100
      → parse_loop threshold varmemsize h fuel schedule (suc steps) a (w ++ (c ∷ rest)) words n m
        ≡ parse_loop threshold varmemsize h fuel schedule steps
            (a + length w + 1)
            rest
            (update words n (some w))
            (n + 1)
            m
  unfolding parse_loop
  parse_loop-word steps a [] c rest words n m is more short stop not_end room few =
      absurd (omega arith)
  parse_loop-word steps a (b ∷ w) c rest words n m is more short stop not_end room few = simp (
    not_over a (b ∷ w) (c ∷ rest) is more (omega arith),
    no_blank a (b ∷ w) (c ∷ rest) is more,
    read_word-at a (b ∷ w) c rest is stop (omega arith),
    lt→ltb (length (b ∷ w)) 200 short,
    lt→ltb n 100 few,
    not_end,
  )

  -- The loop on a line of words, behind `n` words that were read before.
  parse_loop-line :
      (steps a : ℕ) (w : CString) (ws : List CString) (words : Words) (n : ℕ) (m : Machine W)
      → AreWords (w ∷ ws)
      → a + length (line_text w ws) ≤ max_input
      → n + length (w ∷ ws) ≤ 100
      → length (w ∷ ws) < steps
      → parse_loop threshold varmemsize h fuel schedule steps a (line_text w ws) words n m
        ≡ interpreter threshold varmemsize h fuel schedule
            (written words n (w ∷ ws))
            (n + length (w ∷ ws))
            m
  unfolding parse_loop
  parse_loop-line zero a w ws words n m is k few enough = absurd (omega arith)
  parse_loop-line (suc zero) a w ws words n m is k few enough = absurd (omega arith)
  parse_loop-line (suc (suc steps)) a w [] words n m is k few enough =
      let size = length-append w (10 ∷ []) in
      parse_loop-word (suc steps) a w 10 [] words n m is.0 is.1 is.2 refl refl (omega arith)
        (omega arith)
  parse_loop-line (suc (suc steps)) a w (v ∷ ws) words n m is k few enough =
      let size = length-append w (b' ' ∷ line_text v ws) in
      parse_loop-word (suc steps) a w (b' ') (line_text v ws) words n m is.0 is.1 is.2 refl refl
        (omega arith) (omega arith)
      ∙ parse_loop-line (suc steps) (a + length w + 1) v ws (update words n (some w)) (n + 1) m is.3
          (omega arith) (omega arith) (omega arith)
      ∙ ap
          (λ k.
            interpreter threshold varmemsize h fuel schedule (written words n (w ∷ (v ∷ ws))) k m)
          (omega arith)

  start_at :
      (w rest : CString) → IsWord w → 0 < length w → skip_spaces 0 (w ++ rest) ≡ (0, w ++ rest)
  unfolding skip_spaces
  start_at [] rest is more = absurd (omega arith)
  start_at (c ∷ w) rest is more = ground (arith, is.0)

  start_line :
      (w : CString) (ws : List CString)
      → AreWords (w ∷ ws)
      → skip_spaces 0 (line_text w ws) ≡ (0, line_text w ws)
  start_line w [] is = start_at w _ is.0 is.1
  start_line w (v ∷ ws) is = start_at w _ is.0 is.1

  -- A line of at most 100 words with single spaces between them, each word of 1 to 199 bytes without
  -- `;`, newline or space, and the line within the 1000 places of the input, calls the interpreter
  -- once, on these words in order; one round more than the words is enough.
  pub parse_with-line :
      (steps : ℕ) (w : CString) (ws : List CString) (m : Machine W)
      → AreWords (w ∷ ws)
      → length (line_text w ws) ≤ max_input
      → length (w ∷ ws) ≤ 100
      → length (w ∷ ws) < steps
      → parse_with threshold varmemsize h fuel schedule steps (line_text w ws) m
        ≡ interpreter threshold varmemsize h fuel schedule
            (written (λ _. none) 0 (w ∷ ws))
            (length (w ∷ ws))
            m
  unfolding parse_with
  parse_with-line steps w ws m is k few enough = rw (start_line w ws is) (
      parse_loop-line steps 0 w ws (λ _. none) 0 m is (omega arith) (omega arith) enough
      ∙ ap
          (λ k.
            interpreter threshold varmemsize h fuel schedule (written (λ _. none) 0 (w ∷ ws)) k m)
          (omega arith))
