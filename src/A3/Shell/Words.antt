-- ===== src/A3/Shell/Words.antt =====
-- The words of a section.
use mcgill_ecse_427_operatin.Prelude.{
  ℕ, zero, suc, ◌≤◌, ◌≡◌, ◌≢◌, refl, ap, ◌∙◌, inl, inr, false, Bool-cases, ◌==◌, if◌then◌else◌,
  List, [], ◌∷◌, ◌++◌, CString, arith,
}
use mcgill_ecse_427_operatin.Prelude.Stdio.{length}
use mcgill_ecse_427_operatin.Prelude.Words.{join_words}
use mcgill_ecse_427_operatin.A3.Shell.{read_word, skip_spaces, rest_of, words_loop, words_of}

abbrev glue : ℕ → List CString → List CString
glue c [] = (c ∷ []) ∷ []
glue c (w ∷ ws) = (c ∷ w) ∷ ws

-- The text cut at every space; behind a last space nothing is left.
unfoldable pub split_spaces : CString → List CString
split_spaces [] = []
split_spaces (c ∷ s) = let rest = split_spaces s in if c == b' ' then [] ∷ rest else glue c rest

split_spaces-word :
    (c : ℕ) (s : CString)
    → split_spaces (c ∷ s) ≡ (read_word (c ∷ s)).0 ∷ split_spaces (rest_of (read_word (c ∷ s)).1)
unfolding split_spaces read_word
split_spaces-word c [] = ground arith
split_spaces-word c (d ∷ s) = elim (Bool-cases (c == b' ')) [
  | inl e ↦ rw e refl
  | inr e ↦ rw e (ap (glue c) (split_spaces-word d s))
]

length-rest_of : (c : ℕ) (s : CString) → length (rest_of (read_word (c ∷ s)).1) ≤ length s
unfolding read_word
length-rest_of c [] = ground arith
length-rest_of c (d ∷ s) = ground (arith, length-rest_of d s)

words_loop-split_spaces :
    (rounds : ℕ) (s : CString) → length s ≤ rounds → words_loop rounds s ≡ split_spaces s
unfolding words_loop split_spaces
words_loop-split_spaces rounds [] h = refl
words_loop-split_spaces zero (c ∷ s) h = absurd (omega arith)
words_loop-split_spaces (suc rounds) (c ∷ s) h = rw (
  split_spaces-word c s,
  words_loop-split_spaces rounds (rest_of (read_word (c ∷ s)).1)
      (omega (arith, length-rest_of c s)),
)

-- On every text the two loops, with as many rounds as the text has bytes behind its leading spaces,
-- give the split of the text at each of its spaces, in which nothing is left behind a last space.
pub words_of-split_spaces : (token : CString) → words_of token ≡ split_spaces (skip_spaces token)
unfolding words_of
words_of-split_spaces token =
    words_loop-split_spaces (length (skip_spaces token)) (skip_spaces token) (omega arith)

abbrev NoSpace : CString → Type 0
NoSpace [] = Unit {0}
NoSpace (c ∷ s) = ((c == b' ') ≡ false) × NoSpace s

abbrev AllWords : List CString → Type 0
AllWords [] = Unit {0}
AllWords (w ∷ ws) = (w ≢ []) × NoSpace w × AllWords ws

abbrev pub spaces : ℕ → CString
spaces zero = []
spaces (suc n) = b' ' ∷ spaces n

-- A word in front of a text that is over or goes on behind a space.
split_spaces-last :
    (c : ℕ) (w : CString) → ((c == b' ') ≡ false) × NoSpace w → split_spaces (c ∷ w) ≡ (c ∷ w) ∷ []
unfolding split_spaces
split_spaces-last c [] p = rw p.0
split_spaces-last c (d ∷ w) p = rw (p.0, split_spaces-last d w p.1)

split_spaces-more :
    (c : ℕ) (w s : CString)
    → ((c == b' ') ≡ false) × NoSpace w
    → split_spaces (c ∷ (w ++ (b' ' ∷ s))) ≡ (c ∷ w) ∷ split_spaces s
unfolding split_spaces
split_spaces-more c [] s p = rw p.0
split_spaces-more c (d ∷ w) s p = rw (p.0, split_spaces-more d w s p.1)

split_spaces-join : (ws : List CString) → AllWords ws → split_spaces (join_words ws) ≡ ws
unfolding split_spaces join_words
split_spaces-join [] a = refl
split_spaces-join ([] ∷ ws) a = absurd (a.0 refl)
split_spaces-join ((c ∷ w) ∷ []) a = split_spaces-last c w a.1
split_spaces-join ((c ∷ w) ∷ v ∷ ws) a =
    split_spaces-more c w (join_words (v ∷ ws)) a.1
    ∙ ap (λ vs. (c ∷ w) ∷ vs) (split_spaces-join (v ∷ ws) a.2)

skip_spaces-spaces : (n : ℕ) (s : CString) → skip_spaces (spaces n ++ s) ≡ skip_spaces s
unfolding skip_spaces
skip_spaces-spaces zero s = refl
skip_spaces-spaces (suc n) s = skip_spaces-spaces n s

skip_spaces-join : (ws : List CString) → AllWords ws → skip_spaces (join_words ws) ≡ join_words ws
unfolding skip_spaces join_words
skip_spaces-join [] a = refl
skip_spaces-join ([] ∷ ws) a = absurd (a.0 refl)
skip_spaces-join ((c ∷ w) ∷ []) a = rw a.1.0
skip_spaces-join ((c ∷ w) ∷ v ∷ ws) a = rw a.1.0

-- For words with at least one byte and no space, joined with single spaces behind any number of
-- leading spaces, the words of the text are the given ones in order.
words_of-join :
    (n : ℕ) (ws : List CString) → AllWords ws → words_of (spaces n ++ join_words ws) ≡ ws
words_of-join n ws a =
    rw
      (
        words_of-split_spaces (spaces n ++ join_words ws),
        skip_spaces-spaces n (join_words ws),
        skip_spaces-join ws a,
      )
      (split_spaces-join ws a)
