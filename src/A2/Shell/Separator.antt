-- ===== src/A2/Shell/Separator.antt =====
-- A `;` with no word in front of it.
use mcgill_ecse_427_operatin.Prelude.{ℕ, zero, suc, ◌<◌, ◌≡◌, refl, false, ◌∷◌, CString, arith}
use mcgill_ecse_427_operatin.Prelude.Int.{ℤ}
use mcgill_ecse_427_operatin.A2.Machine.{Host, Machine, out_of_fuel, Cmd}
use mcgill_ecse_427_operatin.A2.Shell.{
  Words, max_input, skip_all_spaces, read_word, line_over, parse_loop,
}

module _ {W : Type 0} (threshold varmemsize : ℕ) (h : Host W) (fuel : ℕ)
    (schedule : CString → Cmd W ℤ) where
  at_separator :
      (steps a : ℕ) (s : CString) (words : Words) (w : ℕ) (m : Machine W)
      → a < max_input
      → parse_loop threshold varmemsize h fuel schedule steps a (b';' ∷ s) words w m ≡ out_of_fuel
  unfolding parse_loop skip_all_spaces read_word
  at_separator zero a s words w m k = refl
  at_separator (suc steps) a s words w m k = ground (arith, at_separator steps a s words w m k)

  -- Where a text that is not over starts with `;` behind its spaces, within the first 1000 places,
  -- the loop makes no progress: however many rounds it is given, they are used up.
  pub parse_loop-stuck :
      (steps a b : ℕ) (s rest : CString) (words : Words) (w : ℕ) (m : Machine W)
      → line_over threshold varmemsize h fuel schedule a s ≡ false
      → skip_all_spaces a s ≡ (b, b';' ∷ rest)
      → b < max_input
      → parse_loop threshold varmemsize h fuel schedule steps a s words w m ≡ out_of_fuel
  unfolding parse_loop read_word
  parse_loop-stuck zero a b s rest words w m over skip k = refl
  parse_loop-stuck (suc steps) a b s rest words w m over skip k =
      ground (arith, over, skip, at_separator steps b rest words w m k)
