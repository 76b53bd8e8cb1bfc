-- ===== src/Prelude/Decimal.antt =====
-- `sprintf(s, "%d", n)` of a number that is not negative.
use Prim.Native.Nat.{ℕ, zero, suc, ◌+◌, ◌/◌, ◌%◌}
use mathlib.Core.List.{[], ◌∷◌, ◌++◌}
use mcgill_ecse_427_operatin.Prelude.Tests.{ltb, if◌then◌else◌}
use mcgill_ecse_427_operatin.Prelude.Text.{CString}

-- A number below `10 ^ fuel` is printed in full; `n` itself is enough fuel beyond one digit.
unfoldable pub decimal_digits : ℕ → ℕ → CString
decimal_digits zero n = []
decimal_digits (suc fuel) n =
    let more = decimal_digits fuel (n / 10) ++ ((48 + n % 10) ∷ []) in
    if ltb n 10 then (48 + n) ∷ [] else more

abbrev pub decimal : ℕ → CString
decimal n = decimal_digits (n + 1) n
