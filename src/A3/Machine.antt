-- ===== src/A3/Machine.antt =====
-- The state that the functions of a3 share, and runs that change it.
pub mod Returns
use mcgill_ecse_427_operatin.Prelude.{ℕ, Option, none, some, List, CString, Array, update, ◌++◌}
use mcgill_ecse_427_operatin.A3.Memory.{Slot}
use mcgill_ecse_427_operatin.A3.Pcb.{Pcb}

-- Blocks stand at addresses, and a block that was freed is `none`. A page is named by its block's
-- address and its number there, which is how its pointer came about. The three lists of kernel.c are
-- lists of what their nodes point to; A3/LinkedList has their nodes. `cursor` is what `strtok` keeps
-- between its calls: the text behind the last token.
pub record Machine (W : Type 0) : Type 0 where
  pub world : W
  pub memory : Array Slot
  pub output : CString
  pub pcbs : Array (Option Pcb)
  pub made : ℕ
  pub queue : List ℕ
  pub lru_cache : List (ℕ × ℕ)
  pub all_pcb : List ℕ
  pub pid_counter : ℕ
  pub new_name_count : ℕ
  pub cursor : CString

-- How a run ends: by returning, by `exit`, by a use of a null, freed or unwritten pointer or of an
-- index outside its array, or, for the loops that need not end, without fuel.
pub data Run (W A : Type 0) : Type 0 where
  ok : A → Machine W → Run W A
  exited : ℕ → Machine W → Run W A
  crashed : Run W A
  out_of_fuel : Run W A

abbrev pub Cmd : Type 0 → Type 0 → Type 0
Cmd W A = Machine W → Run W A

module _ {W A B : Type 0} where
  abbrev pub and_then : Run W A → (A → Cmd W B) → Run W B
  and_then (ok a m) k = k a m
  and_then (exited n m) k = exited n m
  and_then crashed k = crashed
  and_then out_of_fuel k = out_of_fuel

  infixl 5 ◌>>=◌ ◌>>◌
  abbrev pub ◌>>=◌ : Cmd W A → (A → Cmd W B) → Cmd W B
  c >>= k = λ m. and_then (c m) k

  abbrev pub ◌>>◌ : Cmd W A → Cmd W B → Cmd W B
  c >> d = c >>= λ _. d

module _ {W : Type 0} where
  abbrev pub pure : {A : Type 0} → A → Cmd W A
  pure a m = ok a m

  abbrev pub crash : {A : Type 0} → Cmd W A
  crash m = crashed

  abbrev pub exit : {A : Type 0} → ℕ → Cmd W A
  exit n m = exited n m

  abbrev pub modify : (Machine W → Machine W) → Cmd W (Unit {0})
  modify f m = ok tt (f m)

  abbrev pub gets : {A : Type 0} → (Machine W → A) → Cmd W A
  gets f m = ok (f m) m

  -- `printf`.
  abbrev pub put : CString → Cmd W (Unit {0})
  put s m = ok tt (record m { output = m.output ++ s })

  abbrev pub on_world : {A : Type 0} → (W → A × W) → Cmd W A
  on_world f m = let r = f m.world in ok r.0 (record m { world = r.1 })

  abbrev pub found : {A : Type 0} → Option A → Cmd W A
  found none = crash
  found (some a) = pure a

  -- A block read through its pointer, and a write to it.
  abbrev pub read_pcb : ℕ → Cmd W Pcb
  read_pcb p m = found (m.pcbs p) m

  abbrev pub write_pcb : ℕ → Pcb → Cmd W (Unit {0})
  write_pcb p block m = ok tt (record m { pcbs = update m.pcbs p (some block) })
