-- ===== src/A3/Commands/Files/Buffer.antt =====
-- The buffer that `write` and `find_file` fill with the words of a line.
use mcgill_ecse_427_operatin.Prelude.{
  ℕ, ◌+◌, ◌-◌, ◌≡◌, refl, sym, ap, List, [], ◌∷◌, ◌++◌, CString, arith,
}
use mcgill_ecse_427_operatin.Prelude.Stdio.{length, length-append, append_assoc}
use mcgill_ecse_427_operatin.Prelude.Words.{join_words}
use mcgill_ecse_427_operatin.A3.Commands.Files.{
  spaced, end_last, zeros, total_length, words_size, words_buffer,
}

spaced-join : (w : CString) (ws : List CString) → spaced (w ∷ ws) ≡ join_words (w ∷ ws) ++ (32 ∷ [])
unfolding spaced join_words
spaced-join w [] = refl
spaced-join w (v ∷ ws) =
    rw (spaced-join v ws) (sym (append_assoc w (32 ∷ join_words (v ∷ ws)) (32 ∷ [])))

end_last-append : (s : CString) (c : ℕ) → end_last (s ++ (c ∷ [])) ≡ s ++ (0 ∷ [])
unfolding end_last
end_last-append [] c = refl
end_last-append (d ∷ []) c = refl
end_last-append (d ∷ e ∷ s) c = ap (λ t. d ∷ t) (end_last-append (e ∷ s) c)

length-spaced : (ws : List CString) → length (spaced ws) ≡ total_length ws + length ws
unfolding spaced total_length
length-spaced [] = omega arith
length-spaced (w ∷ ws) = omega (arith, length-append w (32 ∷ spaced ws), length-spaced ws)

left_one : (a b : ℕ) → a ≡ b + 1 → a - b ≡ 1
left_one a b h = omega arith

one_zero : (ws : List CString) → zeros (words_size ws - length (spaced ws)) ≡ 0 ∷ []
unfolding zeros
one_zero ws =
    ap zeros (left_one (words_size ws) (length (spaced ws)) (omega (arith, length-spaced ws)))

words_buffer-bytes :
    (w : CString) (ws : List CString) → words_buffer (w ∷ ws) ≡ join_words (w ∷ ws) ++ (0 ∷ 0 ∷ [])
unfolding words_buffer
words_buffer-bytes w ws =
    rw (one_zero (w ∷ ws), spaced-join w ws, end_last-append (join_words (w ∷ ws)) 32)
      (append_assoc (join_words (w ∷ ws)) (0 ∷ []) (0 ∷ []))

length-words_buffer :
    (w : CString) (ws : List CString) → length (words_buffer (w ∷ ws)) ≡ words_size (w ∷ ws)
length-words_buffer w ws =
    let l1 = length-spaced (w ∷ ws) in
    let l2 = ap length (spaced-join w ws) in
    let l3 = length-append (join_words (w ∷ ws)) (32 ∷ []) in
    let l4 = length-append (join_words (w ∷ ws)) (0 ∷ 0 ∷ []) in
    rw (words_buffer-bytes w ws) (omega (arith, l1, l2, l3, l4))

-- For at least one word the buffer that `write` and `find_file` fill holds the words with single
-- spaces between them and then two zero bytes, and has exactly the size that was computed for it.
words_buffer-join :
    (w : CString) (ws : List CString)
    → (words_buffer (w ∷ ws) ≡ join_words (w ∷ ws) ++ (0 ∷ 0 ∷ []))
      × (length (words_buffer (w ∷ ws)) ≡ words_size (w ∷ ws))
words_buffer-join w ws = (words_buffer-bytes w ws, length-words_buffer w ws)
