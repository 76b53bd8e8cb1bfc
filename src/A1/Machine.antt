-- ===== src/A1/Machine.antt =====
-- The state of the shell of a1, and runs that change it.
use mcgill_ecse_427_operatin.Prelude.{ℕ, Bool, Option, CString, Array, ◌++◌}
use mcgill_ecse_427_operatin.Prelude.Int.{ℤ}
use mcgill_ecse_427_operatin.A1.Memory.{Slot}

-- The operating system as the program calls it: the bytes of a file that can be opened for reading,
-- `system`, whether `mkdir` and `fopen(path, "w")` succeed, and whether `chdir` does.
pub record Host (W : Type 0) : Type 0 where
  pub read_file : CString → W → Option CString
  pub system : CString → W → ℤ × W
  pub mkdir : CString → W → Bool × W
  pub create : CString → W → Bool × W
  pub chdir : CString → W → Bool × W

pub record Machine (W : Type 0) : Type 0 where
  pub world : W
  pub memory : Array Slot
  pub output : CString

-- How a run ends: by returning, by `exit`, by a read of a word that was never written, or, for
-- scripts that run themselves, without fuel.
pub data Run (W A : Type 0) : Type 0 where
  ok : A → Machine W → Run W A
  exited : ℕ → Machine W → Run W A
  crashed : Run W A
  out_of_fuel : Run W A

abbrev pub Cmd : Type 0 → Type 0 → Type 0
Cmd W A = Machine W → Run W A

module _ {W A B : Type 0} where
  abbrev pub and_then : Run W A → (A → Cmd W B) → Run W B
  and_then (ok a m) k = k a m
  and_then (exited n m) k = exited n m
  and_then crashed k = crashed
  and_then out_of_fuel k = out_of_fuel

  infixl 5 ◌>>=◌ ◌>>◌
  abbrev pub ◌>>=◌ : Cmd W A → (A → Cmd W B) → Cmd W B
  c >>= k = λ m. and_then (c m) k

  abbrev pub ◌>>◌ : Cmd W A → Cmd W B → Cmd W B
  c >> d = c >>= λ _. d

module _ {W : Type 0} where
  abbrev pub pure : {A : Type 0} → A → Cmd W A
  pure a m = ok a m

  abbrev pub crash : {A : Type 0} → Cmd W A
  crash m = crashed

  abbrev pub modify : (Machine W → Machine W) → Cmd W (Unit {0})
  modify f m = ok tt (f m)

  abbrev pub gets : {A : Type 0} → (Machine W → A) → Cmd W A
  gets f m = ok (f m) m

  -- `printf`.
  abbrev pub put : CString → Cmd W (Unit {0})
  put s m = ok tt (record m { output = m.output ++ s })

  abbrev pub on_world : {A : Type 0} → (W → A × W) → Cmd W A
  on_world f m = let r = f m.world in ok r.0 (record m { world = r.1 })
