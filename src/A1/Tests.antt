-- ===== src/A1/Tests.antt =====
-- The theorems on a1 at concrete inputs.
use mcgill_ecse_427_operatin.Prelude.{
  ◌≡◌, ◌≢◌, refl, true, false, none, some, [], ◌∷◌, ◌++◌, CString, codes, Array, if◌then◌else◌,
  arith,
}
use mcgill_ecse_427_operatin.Prelude.Text.{str_eq}
use mcgill_ecse_427_operatin.Prelude.Words.{strip}
use mcgill_ecse_427_operatin.Prelude.Int.{ℤ, pos}
use mcgill_ecse_427_operatin.VarStore.Slots.{set_value, get_value, find_var}
use mcgill_ecse_427_operatin.Prelude.Scan.{scan}
use mcgill_ecse_427_operatin.A1.Memory.{
  Slot, free_slot, missing_text, mem_get_value, mem_init, mem_set_value,
}
use mcgill_ecse_427_operatin.A1.Machine.{Host, Machine, ok, Cmd}
use mcgill_ecse_427_operatin.A1.Commands.{run}
use mcgill_ecse_427_operatin.A1.Commands.Script.{parse_all, run-lines}
use mcgill_ecse_427_operatin.A1.Condition.{ends_first, ends_second, if_command, run_clause}
use mcgill_ecse_427_operatin.A1.Condition.Split.{variable, plain, same, with_words, if_command-else}
use mcgill_ecse_427_operatin.A1.Shell.Main.{main}
use mcgill_ecse_427_operatin.A1.Shell.Tokens.{AreWords, line_text}
use mcgill_ecse_427_operatin.A1.Shell.Session.{prompted, greeted, main-set-print}

abbrev memory0 : Array Slot
memory0 i = free_slot

abbrev host : Host (Unit {0})
host = record {
  read_file = λ path w. if str_eq path (codes "a") then some (codes "help\nquit\n") else none;
  system = λ command w. (pos 0, w);
  mkdir = λ path w. (true, w);
  create = λ path w. (true, w);
  chdir = λ path w. (false, w);
}

abbrev machine0 : Machine (Unit {0})
machine0 = record { world = tt; memory = memory0; output = [] }

abbrev parse0 : CString → Cmd (Unit {0}) ℤ
parse0 line m = ok (pos 0) m

print_words : AreWords (codes "print" ∷ (codes "x" ∷ []))
print_words = (
  (refl, (refl, (refl, (refl, (refl, tt))))),
  omega arith,
  omega arith,
  ((refl, tt), omega arith, omega arith, tt),
)

print_starts : ends_first (codes "print") ≡ false
unfolding str_eq
print_starts = refl

x_inside : ends_first (codes "x") ≡ false
unfolding str_eq
x_inside = refl

y_inside : ends_second (codes "y") ≡ false
unfolding str_eq
y_inside = refl

x_plain : strip (codes "x") ≡ codes "x"
unfolding strip
x_plain = refl

five_plain : strip (codes "5") ≡ codes "5"
unfolding strip
five_plain = refl

script_found : host.read_file (codes "a") tt ≡ some (codes "help\nquit\n")
unfolding str_eq
script_found = refl

run-lines_example :
    run host parse0 (codes "a") machine0
    ≡ parse_all parse0 (codes "help" ∷ (codes "quit" ∷ [])) machine0
run-lines_example =
    run-lines host parse0 (codes "a") (codes "help") (codes "quit" ∷ []) machine0 script_found (
      (refl, (refl, (refl, (refl, tt)))),
      omega arith,
      ((refl, (refl, (refl, (refl, tt)))), omega arith, tt),
    )

-- A memory with the variable `v` of the value `a`.
abbrev memory_v : Array Slot
memory_v = mem_set_value (codes "v") (codes "a") memory0

machine_v-lookup : mem_get_value (codes "v") memory_v ≡ codes "a"
unfolding mem_set_value mem_get_value set_value get_value find_var scan str_eq
machine_v-lookup = refl

abbrev machine_v : Machine (Unit {0})
machine_v = record machine0 { memory = memory_v }

v_here : mem_get_value (codes "v") memory_v ≢ missing_text
v_here e = cc (machine_v-lookup, e)

-- if $v != a then print x else echo y fi
if_command-else_example :
    if_command parse0
      (codes "$v"
        ∷ (codes "!="
            ∷ (codes "a"
                ∷ (codes "then"
                    ∷ (codes "print"
                        ∷ ((codes "x" ∷ [])
                            ++ (codes "else"
                                ∷ (codes "echo" ∷ ((codes "y" ∷ []) ++ (codes "fi" ∷ []))))))))))
      machine_v
    ≡ run_clause parse0
        (if false
          then with_words (codes "print") (codes "x" ∷ [])
          else with_words (codes "echo") (codes "y" ∷ []))
        machine_v
if_command-else_example =
    if_command-else parse0 (codes "$v") (codes "!=") (codes "a") (codes "print") machine_v
      (mem_get_value (codes "v") memory_v) (codes "a") false (variable (codes "v") v_here)
      (plain (codes "a") (λ e. absurd (omega (arith, e)))) (same refl machine_v-lookup) print_starts
      (codes "echo") (codes "x" ∷ []) (codes "y" ∷ []) [] (x_inside, tt) (y_inside, tt)

main-set-print_example :
    main host 1
      ((true, line_text (codes "set") (codes "x" ∷ (codes "5" ∷ [])))
        ∷ ((false, line_text (codes "print") (codes "x" ∷ [])) ∷ []))
      machine0
    ≡ ok tt (record machine0 {
      memory = mem_set_value (codes "x") (codes "5") (mem_init memory0);
      output = prompted false (prompted true (greeted [])) ++ (codes "5" ++ codes "\n");
    })
main-set-print_example =
    main-set-print host (codes "x") (codes "5") machine0 0 true false
      ((refl, tt), omega arith, omega arith, ((refl, tt), omega arith, omega arith, tt)) x_plain
      five_plain (omega arith)
