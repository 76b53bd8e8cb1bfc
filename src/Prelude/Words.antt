-- ===== src/Prelude/Words.antt =====
-- Operations on the words of a command line that the three interpreters share.
use Prim.Native.Nat.{ℕ}
use mathlib.Core.Path.{◌≡◌, refl}
use mathlib.Core.Bool.{Bool, false, ◌||◌}
use mathlib.Core.List.{List, [], ◌∷◌, ◌++◌}
use native.Mathlib.Omega.{arith}
use mcgill_ecse_427_operatin.Prelude.Tests.{◌==◌, if◌then◌else◌}
use mcgill_ecse_427_operatin.Prelude.Text.{CString}

-- `s[strcspn(s, "\r\n")] = 0`: the text up to the first carriage return or newline.
unfoldable pub strip : CString → CString
strip [] = []
strip (c ∷ s) = let rest = strip s in if c == 13 || c == 10 then [] else c ∷ rest

strip_idem : (s : CString) → strip (strip s) ≡ strip s
unfolding strip
strip_idem [] = refl
strip_idem (c ∷ s) = ground (arith, strip_idem s)

-- The first byte, which is the terminating zero for the empty text.
abbrev pub first_byte : CString → ℕ
first_byte [] = 0
first_byte (c ∷ s) = c

-- The text behind its first byte.
abbrev pub tail_text : CString → CString
tail_text [] = []
tail_text (c ∷ s) = s

-- `strchr(s, c) != NULL` for a byte that is not zero.
unfoldable pub has_byte : ℕ → CString → Bool
has_byte c [] = false
has_byte c (b ∷ s) = (b == c) || has_byte c s

-- Words with one space between two of them.
unfoldable pub join_words : List CString → CString
join_words [] = []
join_words (w ∷ []) = w
join_words (w ∷ v ∷ ws) = w ++ (32 ∷ join_words (v ∷ ws))
