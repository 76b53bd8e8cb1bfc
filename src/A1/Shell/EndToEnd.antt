-- ===== src/A1/Shell/EndToEnd.antt =====
-- Whole lines of the shell of a1, from the text to the effect.
use mcgill_ecse_427_operatin.Prelude.{
  ℕ, suc, ◌+◌, ◌≤◌, ◌<◌, ◌≡◌, ap, ◌∙◌, true, false, List, [], ◌∷◌, ◌++◌, CString, codes, arith, ltb,
  ◌||◌,
}
use mcgill_ecse_427_operatin.Prelude.Text.{str_eq}
use mcgill_ecse_427_operatin.Prelude.Int.{pos}
use mcgill_ecse_427_operatin.Prelude.Stdio.{length, length-append}
use mcgill_ecse_427_operatin.Prelude.Words.{strip, join_words}
use mcgill_ecse_427_operatin.VarStore.Slots.{none_text}
use mcgill_ecse_427_operatin.A1.Memory.{mem_set_value, mem_get_value}
use mcgill_ecse_427_operatin.A1.Memory.Store.{stores, mem_set_value-lookup}
use mcgill_ecse_427_operatin.A1.Machine.{Host, Machine, ok, ◌>>=◌}
use mcgill_ecse_427_operatin.A1.Commands.{set, print}
use mcgill_ecse_427_operatin.A1.Shell.{
  max_input, max_words, skip_spaces, interpreter, dispatch, parse_input,
}
use mcgill_ecse_427_operatin.A1.Shell.Tokens.{IsWord, AreWords, line_text, split_words-line}

skip_spaces-word :
    (w rest : CString) → IsWord w → 0 < length w → skip_spaces 0 (w ++ rest) ≡ (0, w ++ rest)
unfolding skip_spaces
skip_spaces-word [] rest is h = absurd (omega arith)
skip_spaces-word (c ∷ w) rest is h = ground (arith, is.0)

skip_spaces-line :
    (w : CString) (ws : List CString)
    → AreWords (w ∷ ws)
    → skip_spaces 0 (line_text w ws) ≡ (0, line_text w ws)
skip_spaces-line w [] is = skip_spaces-word w _ is.0 is.1
skip_spaces-line w (v ∷ ws) is = skip_spaces-word w _ is.0 is.1

words-length :
    (w : CString) (ws : List CString)
    → AreWords (w ∷ ws)
    → length (w ∷ ws) < length (line_text w ws)
words-length w [] is = omega (arith, length-append w (10 ∷ []), is.1)
words-length w (v ∷ ws) is =
    omega (arith, length-append w (b' ' ∷ line_text v ws), is.1, words-length v ws is.3)

few : (n : ℕ) → n ≤ 100 → ltb max_words n ≡ false
few n h = ground arith

module _ {W : Type 0} (h : Host W) where
  -- A line of at most 100 words with single spaces between them, each word of 1 to 199 bytes without
  -- `;`, newline or space, and the line within the 1000 places of the input, calls the interpreter
  -- on these words.
  parse_input-line :
      (depth : ℕ) (w : CString) (ws : List CString) (m : Machine W)
      → AreWords (w ∷ ws)
      → length (line_text w ws) ≤ max_input
      → length (w ∷ ws) ≤ 100
      → parse_input h (suc depth) (line_text w ws) m
        ≡ interpreter h (parse_input h depth) (w ∷ ws) m
  unfolding parse_input
  parse_input-line depth w ws m is k k' = rw (skip_spaces-line w ws is) (
      rw (
        split_words-line (length (line_text w ws)) 0 w ws is (omega arith) (words-length w ws is),
        few (length (w ∷ ws)) k',
      ))

  -- No carriage return: the word is kept whole.
  abbrev pub IsPlain : CString → Type 0
  IsPlain w = strip w ≡ w

  pub set_line :
      (x v : CString) (m : Machine W) (depth : ℕ)
      → AreWords (x ∷ (v ∷ []))
      → IsPlain x
      → IsPlain v
      → length x + length v + 6 ≤ max_input
      → parse_input h (suc depth) (line_text (codes "set") (x ∷ (v ∷ []))) m
        ≡ ok (pos 0) (record m { memory = mem_set_value x v m.memory })
  unfolding interpreter dispatch set join_words strip str_eq
  set_line x v m depth is px pv k =
      let size = length-append x (b' ' ∷ (v ++ (10 ∷ []))) in
      let size' = length-append v (10 ∷ []) in
      parse_input-line depth (codes "set") (x ∷ (v ∷ [])) m
        (ground arith, omega arith, omega arith, is) (omega arith) (omega arith)
      ∙ rw (px, pv)

  pub print_line :
      (x : CString) (m : Machine W) (depth : ℕ)
      → AreWords (x ∷ [])
      → IsPlain x
      → length x + 7 ≤ max_input
      → parse_input h (suc depth) (line_text (codes "print") (x ∷ [])) m
        ≡ ok (pos 0) (record m { output = m.output ++ (mem_get_value x m.memory ++ codes "\n") })
  unfolding interpreter dispatch print strip str_eq
  print_line x m depth is px k =
      let size = length-append x (10 ∷ []) in
      parse_input-line depth (codes "print") (x ∷ []) m (ground arith, omega arith, omega arith, is)
        (omega arith) (omega arith)
      ∙ rw px

  -- The line `set x v` and then the line `print x`, of words without a carriage return that fit the
  -- line: both return 0 and the text `v` is printed, if `x` is a variable already or a slot is free.
  set-print :
      (x v : CString) (m : Machine W) (depth : ℕ)
      → AreWords (x ∷ (v ∷ []))
      → IsPlain x
      → IsPlain v
      → length x + length v + 6 ≤ max_input
      → (stores x m.memory || stores none_text m.memory) ≡ true
      → (parse_input h (suc depth) (line_text (codes "set") (x ∷ (v ∷ []))) >>= λ code.
            parse_input h (suc depth) (line_text (codes "print") (x ∷ [])))
          m
        ≡ ok (pos 0) (record m {
          memory = mem_set_value x v m.memory;
          output = m.output ++ (v ++ codes "\n");
        })
  set-print x v m depth is px pv k room =
      let m1 : Machine W = record m { memory = mem_set_value x v m.memory } in
      rw (set_line x v m depth is px pv k) (
        print_line x m1 depth (is.0, is.1, is.2, tt) px (omega (arith, is.3.1))
        ∙ ap (λ t. ok (pos 0) (record m1 { output = m.output ++ (t ++ codes "\n") }))
            ((mem_set_value-lookup x v m.memory).0 ∙ rw room))
