-- ===== src/A2/Machine.antt =====
-- The state that the functions of a2 share, and runs that change it: the memory with the ready queue,
-- the counters and flags of kernel.c and pcb.c, and the world behind the C library.
use mcgill_ecse_427_operatin.Prelude.{ℕ, Bool, Option, ◌++◌, CString}
use mcgill_ecse_427_operatin.Prelude.Int.{ℤ}
use mcgill_ecse_427_operatin.A2.Paging.{Pager}

-- The operating system as the programs call it: `fopen(path, "r")` as the bytes of the file, `system`,
-- `stat` with S_ISDIR, and `chdir`. It is a parameter of everything that calls it.
pub record Host (W : Type 0) : Type 0 where
  pub read_file : CString → W → Option CString
  pub system : CString → W → ℤ × W
  pub is_directory : CString → W → Bool
  pub chdir : CString → W → ℤ × W

pub record Machine (W : Type 0) : Type 0 where
  pub world : W
  pub pager : Pager
  pub pid_counter : ℕ
  pub in_background : Bool
  pub active : Bool

-- How a run ends: by returning, by `exit`, by a use of a null pointer or of a slot outside the array,
-- or, for the loops that need not end, without fuel.
pub data Run (W A : Type 0) : Type 0 where
  ok : A → Machine W → Run W A
  exited : ℕ → Machine W → Run W A
  crashed : Run W A
  out_of_fuel : Run W A

abbrev pub Cmd : Type 0 → Type 0 → Type 0
Cmd W A = Machine W → Run W A

module _ {W A B : Type 0} where
  abbrev pub and_then : Run W A → (A → Cmd W B) → Run W B
  and_then (ok a m) k = k a m
  and_then (exited n m) k = exited n m
  and_then crashed k = crashed
  and_then out_of_fuel k = out_of_fuel

  infixl 5 ◌>>=◌ ◌>>◌
  abbrev pub ◌>>=◌ : Cmd W A → (A → Cmd W B) → Cmd W B
  c >>= k = λ m. and_then (c m) k

  abbrev pub ◌>>◌ : Cmd W A → Cmd W B → Cmd W B
  c >> d = c >>= λ _. d

module _ {W : Type 0} where
  abbrev pub pure : {A : Type 0} → A → Cmd W A
  pure a m = ok a m

  abbrev pub modify : (Machine W → Machine W) → Cmd W (Unit {0})
  modify f m = ok tt (f m)

  abbrev pub gets : {A : Type 0} → (Machine W → A) → Cmd W A
  gets f m = ok (f m) m

  -- `printf`.
  abbrev pub put : CString → Cmd W (Unit {0})
  put s m = ok tt (record m { pager = record m.pager { output = m.pager.output ++ s } })

  abbrev pub set_background : Bool → Cmd W (Unit {0})
  set_background b m = ok tt (record m { in_background = b })

  abbrev pub on_world : {A : Type 0} → (W → A × W) → Cmd W A
  on_world f m = let r = f m.world in ok r.0 (record m { world = r.1 })
