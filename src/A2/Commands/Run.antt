-- ===== src/A2/Commands/Run.antt =====
-- `run` and `exec` of a2/interpreter.c: inside a script, and on a script that cannot be opened.
use mcgill_ecse_427_operatin.Prelude.{
  ℕ, ◌≡◌, refl, ◌∙◌, true, Option, none, some, CString, codes, Bool-cases, inl, inr, if◌then◌else◌,
}
use mcgill_ecse_427_operatin.Prelude.Text.{str_eq}
use mcgill_ecse_427_operatin.Prelude.Int.{ℤ, pos, ◌==ℤ◌}
use mcgill_ecse_427_operatin.A2.Machine.{Host, Machine, Run, ok, Cmd, ◌>>=◌, ◌>>◌, and_then, pure}
use mcgill_ecse_427_operatin.A2.Kernel.{process_initialize}
use mcgill_ecse_427_operatin.A2.Kernel.Initialize.{
  copied, Initialized, missing, no_copy, queued, copies_out, process_initialize-Initialized,
}
use mcgill_ecse_427_operatin.A2.Schedule.{schedule_by_policy}
use mcgill_ecse_427_operatin.A2.Commands.{run, exec, handle_error, handle_code, file_does_not_exist}

module _ {W : Type 0} (h : Host W) (threshold varmemsize : ℕ) where
  -- Called while a script runs, the scheduler returns at once.
  schedule-nested :
      (parse : CString → Cmd W ℤ) (fuel : ℕ) (m : Machine W)
      → m.in_background ≡ true
      → schedule_by_policy threshold varmemsize parse fuel (codes "FCFS") m ≡ ok (pos 0) m
  unfolding schedule_by_policy str_eq
  schedule-nested parse fuel m e = elim (Bool-cases m.active) [ inl a ↦ rw a | inr a ↦ rw (a, e) ]

  after_loading :
      (parse : CString → Cmd W ℤ) (fuel : ℕ) (rounds : ℕ) (script : CString) (m : Machine W)
      (r : Run W ℤ)
      → m.in_background ≡ true
      → Initialized h rounds script m r
      → and_then r (λ code.
        if code ==ℤ pos 11
        then handle_code code
        else (do schedule_by_policy threshold varmemsize parse fuel (codes "FCFS"); pure code))
        ≡ r
  after_loading parse fuel rounds script m r e (missing none_there) =
      rw (schedule-nested parse fuel m e)
  after_loading parse fuel rounds script m r e (no_copy text name found fresh none_there) =
      rw (schedule-nested parse fuel (record m { world = copied h script name m.world }) e)
  after_loading parse fuel rounds script m r e (queued text name bytes m' found fresh there q) =
      rw (schedule-nested parse fuel m' (q.same_background ∙ e))
  after_loading parse fuel rounds script m r e (copies_out text found taken) = refl

  -- A `run` inside a script that is running, for which the background flag is set, does not start
  -- the scheduler again: on any script it does what `process_initialize` does, errors and the
  -- machine after it included.
  pub run-nested :
      (parse : CString → Cmd W ℤ) (fuel rounds : ℕ) (script : CString) (m : Machine W)
      → m.in_background ≡ true
      → run threshold varmemsize h fuel
          (schedule_by_policy threshold varmemsize parse rounds)
          script
          m
        ≡ process_initialize h threshold varmemsize fuel script m
  unfolding run
  run-nested parse fuel rounds script m e =
      after_loading parse rounds fuel script m _ e
        (process_initialize-Initialized h threshold varmemsize fuel script m)

  process_initialize-missing :
      (fuel : ℕ) (script : CString) (m : Machine W)
      → h.read_file script m.world ≡ none
      → process_initialize h threshold varmemsize fuel script m ≡ ok (pos 1) m
  unfolding process_initialize
  process_initialize-missing fuel script m e = rw e

  -- For a script that cannot be opened, as the first of two or three, `exec` prints the error and
  -- returns its code; `run` of it prints none: it calls the scheduler and then returns the code 1.
  missing_script :
      (schedule : CString → Cmd W ℤ) (fuel : ℕ) (script second : CString) (third : Option CString)
      (m : Machine W)
      → h.read_file script m.world ≡ none
      → (exec threshold varmemsize h fuel schedule script (some second) third m
          ≡ handle_error file_does_not_exist m)
        × (run threshold varmemsize h fuel schedule script m
            ≡ (schedule (codes "FCFS") >>= λ _. pure (pos 1)) m)
  unfolding run exec
  missing_script schedule fuel script second third m e = (
    rw (process_initialize-missing fuel script m e),
    rw (process_initialize-missing fuel script m e),
  )
