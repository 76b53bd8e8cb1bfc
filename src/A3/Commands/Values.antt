-- ===== src/A3/Commands/Values.antt =====
-- `set` and then `echo` of a variable.
use mcgill_ecse_427_operatin.Prelude.{
  ℕ, ◌+◌, ◌<◌, ◌≡◌, refl, ap, ◌∙◌, true, ◌||◌, lt→ltb, List, [], ◌∷◌, ◌++◌, CString, codes, arith,
}
use mcgill_ecse_427_operatin.Prelude.Int.{pos}
use mcgill_ecse_427_operatin.Prelude.Stdio.{length, length-append, append_assoc}
use mcgill_ecse_427_operatin.Prelude.Words.{join_words}
use mcgill_ecse_427_operatin.VarStore.Slots.{none_text}
use mcgill_ecse_427_operatin.A3.Memory.{Caller, mem_set_value}
use mcgill_ecse_427_operatin.A3.Memory.Store.{stores, mem_set_value-reads}
use mcgill_ecse_427_operatin.A3.Machine.{Machine, ok}
use mcgill_ecse_427_operatin.A3.Commands.{
  is_alpha_num_str, all_alnum, all_suffixes, set, set_values, set_command, echo,
}

abbrev pub AllAlnum : List CString → Type 0
AllAlnum [] = Unit {0}
AllAlnum (w ∷ ws) = (is_alpha_num_str w ≡ true) × AllAlnum ws

suffixes-alnum : (s : CString) → all_alnum s ≡ true → all_suffixes s ≡ true
unfolding all_suffixes is_alpha_num_str
suffixes-alnum [] e = refl
suffixes-alnum (c ∷ s) e = ground (arith, e, suffixes-alnum s)

suffixes-name : (s : CString) → is_alpha_num_str s ≡ true → all_suffixes s ≡ true
unfolding is_alpha_num_str
suffixes-name [] e = absurd (cc e)
suffixes-name (c ∷ s) e = suffixes-alnum (c ∷ s) e

module _ {W : Type 0} (frame_store_size var_store_size : ℕ) where
  set_values-join :
      (var buffer w : CString) (ws : List CString)
      → AllAlnum (w ∷ ws)
      → length buffer + length (join_words (w ∷ ws)) < 505
      → set_values {W = W} frame_store_size var_store_size var buffer (w ∷ ws)
        ≡ set frame_store_size var_store_size var (buffer ++ join_words (w ∷ ws))
  unfolding set_values join_words
  set_values-join var buffer w [] a fits =
      rw (a.0, lt→ltb (length (buffer ++ w)) 505 (omega (arith, length-append buffer w)))
  set_values-join var buffer w (v ∷ vs) a fits =
      let filled = buffer ++ (w ++ codes " ") in
      let rest = join_words (v ∷ vs) in
      let l1 = length-append buffer (w ++ codes " ") in
      let l2 = length-append w (codes " ") in
      let l3 = length-append w (32 ∷ rest) in
      rw (a.0, lt→ltb (length filled) 505 (omega (arith, l1, l2, l3)))
        (set_values-join var filled v vs a.1 (omega (arith, l1, l2, l3))
          ∙ ap (set frame_store_size var_store_size var) (
              append_assoc buffer (w ++ codes " ") rest
              ∙ ap (λ t. buffer ++ t) (append_assoc w (codes " ") rest)))

  -- For an alphanumeric name and at least one alphanumeric value, whose text with single spaces is
  -- shorter than 505 bytes, where the name is a variable already or a slot is free: `set` returns 0,
  -- and `echo` of the name behind `$` then prints that text and a newline and returns 0.
  pub set_command-echo :
      (x w : CString) (ws : List CString) (m : Machine W)
      → is_alpha_num_str x ≡ true
      → AllAlnum (w ∷ ws)
      → length (join_words (w ∷ ws)) < 505
      → (stores frame_store_size var_store_size x m.memory
          || stores frame_store_size var_store_size none_text m.memory)
        ≡ true
      → (m' : Machine W) × (set_command frame_store_size var_store_size x (w ∷ ws) m
          ≡ ok (pos 0) m')
        × (echo frame_store_size var_store_size (b'$' ∷ x) m'
            ≡ ok (pos 0) (record m' { output = m'.output ++ (join_words (w ∷ ws) ++ codes "\n") }))
  unfolding set_command set echo
  set_command-echo x w ws m name values fits room =
      let value = join_words (w ∷ ws) in
      let reads =
        (mem_set_value-reads frame_store_size var_store_size x value Caller.echo m.memory).0 in
      (
        record m { memory = mem_set_value frame_store_size var_store_size x value m.memory },
        rw (name, set_values-join x [] w ws values (omega (arith, fits))),
        rw (suffixes-name x name, reads, room) refl,
      )
