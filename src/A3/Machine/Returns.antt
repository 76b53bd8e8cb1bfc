-- ===== src/A3/Machine/Returns.antt =====
-- Runs that return, and what holds then.
use mcgill_ecse_427_operatin.Prelude.{◌≡◌}
use mcgill_ecse_427_operatin.A3.Machine.{
  Machine, Run, ok, exited, crashed, out_of_fuel, Cmd, and_then,
}

-- The run returns, and its value and machine are in the relation.
abbrev pub Returns : {W A : Type 0} → (A → Machine W → Type 0) → Run W A → Type 0
Returns Q (ok a m) = Q a m
Returns Q (exited n m) = ⊥
Returns Q crashed = ⊥
Returns Q out_of_fuel = ⊥

pub Returns-and_then :
    {W A B : Type 0} (P : A → Machine W → Type 0) (Q : B → Machine W → Type 0) (k : A → Cmd W B)
    (r : Run W A)
    → Returns P r
    → ((a : A) (m : Machine W) → P a m → Returns Q (k a m))
    → Returns Q (and_then r k)
Returns-and_then P Q k (ok a m) p next = next a m p
Returns-and_then P Q k (exited n m) p next = p
Returns-and_then P Q k crashed p next = p
Returns-and_then P Q k out_of_fuel p next = p

-- A run whose rest uses up its fuel in every case.
pub and_then-out_of_fuel :
    {W A B : Type 0} (P : A → Machine W → Type 0) (k : A → Cmd W B) (r : Run W A)
    → Returns P r
    → ((a : A) (m : Machine W) → P a m → k a m ≡ out_of_fuel)
    → and_then r k ≡ out_of_fuel
and_then-out_of_fuel P k (ok a m) p next = next a m p
and_then-out_of_fuel P k (exited n m) p next = absurd p
and_then-out_of_fuel P k crashed p next = absurd p
and_then-out_of_fuel P k out_of_fuel p next = absurd p

-- If the run returns, its value and machine are in the relation.
abbrev pub Always : {W A : Type 0} → (A → Machine W → Type 0) → Run W A → Type 0
Always Q (ok a m) = Q a m
Always Q (exited n m) = Unit {0}
Always Q crashed = Unit {0}
Always Q out_of_fuel = Unit {0}

pub Always-and_then :
    {W A B : Type 0} (Q : B → Machine W → Type 0) (k : A → Cmd W B) (r : Run W A)
    → ((a : A) (m : Machine W) → Always Q (k a m))
    → Always Q (and_then r k)
Always-and_then Q k (ok a m) next = next a m
Always-and_then Q k (exited n m) next = tt
Always-and_then Q k crashed next = tt
Always-and_then Q k out_of_fuel next = tt
