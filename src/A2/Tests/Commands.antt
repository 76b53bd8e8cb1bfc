-- ===== src/A2/Tests/Commands.antt =====
-- The theorems on the kernel, the commands and the parser of a2 at concrete inputs.
use mcgill_ecse_427_operatin.A2.Tests.{full_pager, process0, empty_table, one_line, pager0}
use mcgill_ecse_427_operatin.Prelude.{
  ◌≡◌, ◌≢◌, refl, true, false, none, some, [], ◌∷◌, Bool, ◌&&◌, CString, codes, if◌then◌else◌,
  arith,
}
use mcgill_ecse_427_operatin.Prelude.Text.{str_eq}
use mcgill_ecse_427_operatin.Prelude.Int.{ℤ, pos, minus_one}
use mcgill_ecse_427_operatin.A2.Pcb.{make_pcb}
use mcgill_ecse_427_operatin.VarStore.Slots.{none_text}
use mcgill_ecse_427_operatin.A2.Machine.{Host, Machine, ok, crashed, out_of_fuel, Cmd}
use mcgill_ecse_427_operatin.A2.Kernel.{process_initialize}
use mcgill_ecse_427_operatin.A2.Commands.{run}
use mcgill_ecse_427_operatin.A2.Commands.Run.{run-nested}
use mcgill_ecse_427_operatin.A2.Schedule.{schedule_by_policy, execute_process}
use mcgill_ecse_427_operatin.A2.Schedule.Lines.{
  advanced, stamped, nothing, one_more, execute_process-lines,
}
use mcgill_ecse_427_operatin.A2.Schedule.Unloaded.{execute_process-unloaded}
use mcgill_ecse_427_operatin.A2.Shell.{Words, skip_all_spaces, interpreter, parse_loop, parse_with}
use mcgill_ecse_427_operatin.A2.Shell.Separator.{parse_loop-stuck}
use mcgill_ecse_427_operatin.A2.Shell.Tokens.{AreWords, line_text, written, parse_with-line}

-- One readable script, `a`; a copy of it is not made, so its name in the backing store is not taken.
abbrev host : Host (Unit {0})
host = record {
  read_file = λ path w. if str_eq path (codes "a") then some (codes "help\n") else none;
  system = λ command w. (pos 0, w);
  is_directory = λ path w. false;
  chdir = λ path w. (minus_one, w);
}

abbrev machine0 : Machine (Unit {0})
machine0 = record {
  world = tt;
  pager = pager0;
  pid_counter = 4;
  in_background = true;
  active = false;
}

abbrev parse0 : CString → Cmd (Unit {0}) ℤ
parse0 line m = ok (pos 0) m

abbrev schedule0 : CString → Cmd (Unit {0}) ℤ
schedule0 policy m = ok (pos 0) m

abbrev nowhere : Words
nowhere i = none

b_missing : host.read_file (codes "b") tt ≡ none
unfolding str_eq
b_missing = refl

print_words : AreWords (codes "print" ∷ (codes "x" ∷ []))
print_words = (
  (refl, (refl, (refl, (refl, (refl, tt))))),
  omega arith,
  omega arith,
  ((refl, tt), omega arith, omega arith, tt),
)

blank_skipped : skip_all_spaces 5 (codes " ;help\n") ≡ (6, codes ";help\n")
unfolding skip_all_spaces
blank_skipped = refl

-- The script `a` can be read, and its copy once a command was run; the world is whether it was.
abbrev copying : Host Bool
copying = record {
  read_file = λ path w.
      if str_eq path (codes "a")
      then some (codes "help\n")
      else if w && str_eq path (codes "./backing_store/a")
      then some (codes "help\n")
      else none;
  system = λ command w. (pos 0, true);
  is_directory = λ path w. false;
  chdir = λ path w. (minus_one, w);
}

abbrev machine_copying : Machine Bool
machine_copying = record {
  world = false;
  pager = full_pager;
  pid_counter = 4;
  in_background = false;
  active = false;
}

abbrev machine_running : Machine Bool
machine_running = record machine_copying { in_background = true }

abbrev parse_copying : CString → Cmd Bool ℤ
parse_copying line m = ok (pos 0) m

run-nested_example :
    run 6 4 copying 3 (schedule_by_policy 6 4 parse_copying 9) (codes "a") machine_running
    ≡ process_initialize copying 6 4 3 (codes "a") machine_running
run-nested_example = run-nested copying 6 4 parse_copying 3 9 (codes "a") machine_running refl

execute_process-unloaded_example :
    execute_process 6 4 parse0 1 (make_pcb 4 empty_table one_line (codes "a")).0 2 machine0
    ≡ crashed
execute_process-unloaded_example =
    execute_process-unloaded 6 4 parse0 0 1 4 empty_table one_line (codes "a") machine0 refl

parse_with-line_example :
    parse_with 6 4 host 3 schedule0 3 (line_text (codes "print") (codes "x" ∷ [])) machine0
    ≡ interpreter 6 4 host 3 schedule0
        (written nowhere 0 (codes "print" ∷ (codes "x" ∷ [])))
        2
        machine0
parse_with-line_example =
    parse_with-line 6 4 host 3 schedule0 3 (codes "print") (codes "x" ∷ []) machine0 print_words
      (omega arith) (omega arith) (omega arith)

parse_loop-stuck_example :
    parse_loop 6 4 host 3 schedule0 50 5 (codes " ;help\n") nowhere 1 machine0 ≡ out_of_fuel
parse_loop-stuck_example =
    parse_loop-stuck 6 4 host 3 schedule0 50 5 6 (codes " ;help\n") (codes "help\n") nowhere 1
      machine0 refl blank_skipped (omega arith)

-- The process's first page is in frame 1.
abbrev machine1 : Machine (Unit {0})
machine1 = record machine0 { pager = full_pager }

help_named : codes "help\n" ≢ none_text
help_named e = cc

execute_process-lines_example :
    execute_process 6 4 parse0 1 process0 2 machine1
    ≡ ok
        (false, advanced 3 2 process0)
        (stamped 6 4 parse0 4 (stamped 6 4 parse0 3 (record machine1 { in_background = true })))
execute_process-lines_example =
    execute_process-lines 6 4 parse0 0 process0 1 (codes "help\n" ∷ (codes "help\n" ∷ [])) machine1
      (stamped 6 4 parse0 4 (stamped 6 4 parse0 3 (record machine1 { in_background = true }))) refl
      refl (omega arith) (omega arith)
      (one_more 3 (codes "help\n") _ machine1 (record machine1 { in_background = true }) _ (pos 0)
        refl help_named refl
        (one_more 4 (codes "help\n") [] _
          (record (stamped 6 4 parse0 3 (record machine1 { in_background = true })) {
            in_background = true;
          })
          _ (pos 0) refl help_named refl (nothing 5 _)))
