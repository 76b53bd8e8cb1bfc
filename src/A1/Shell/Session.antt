-- ===== src/A1/Shell/Session.antt =====
-- The program of a1 from its start.
use mcgill_ecse_427_operatin.Prelude.{
  ℕ, suc, ◌+◌, ◌≤◌, is_some, map_range-inside, str_eq_refl, ◌≡◌, refl, ap, ◌∙◌, Bool, true, false,
  ◌||◌, List, [], ◌∷◌, ◌++◌, CString, codes, Array, arith,
}
use mcgill_ecse_427_operatin.Prelude.Scan.{scan}
use mcgill_ecse_427_operatin.Prelude.Int.{pos}
use mcgill_ecse_427_operatin.Prelude.Stdio.{length}
use mcgill_ecse_427_operatin.VarStore.Slots.{none_text, holds, has_var, find_var}
use mcgill_ecse_427_operatin.A1.Memory.{
  Slot, slot_ops, free_slot, memory_size, mem_init, mem_set_value, mem_get_value,
}
use mcgill_ecse_427_operatin.A1.Memory.Store.{stores, mem_set_value-lookup}
use mcgill_ecse_427_operatin.A1.Machine.{Host, Machine, ok}
use mcgill_ecse_427_operatin.A1.Commands.{help_text}
use mcgill_ecse_427_operatin.A1.Shell.{max_input, parse_input}
use mcgill_ecse_427_operatin.A1.Shell.Tokens.{AreWords, line_text}
use mcgill_ecse_427_operatin.A1.Shell.EndToEnd.{IsPlain, set_line, print_line}
use mcgill_ecse_427_operatin.A1.Shell.Main.{main_loop, main}

-- The output with a prompt behind it if standard input is a terminal.
abbrev pub prompted : Bool → CString → CString
prompted true out = out ++ codes "$ "
prompted false out = out

-- The output with what the program prints at its start.
abbrev pub greeted : CString → CString
greeted out = (out ++ codes "Shell v1.0\n") ++ (help_text ++ codes "\n")

scan-here : (test : ℕ → Bool) (lo n : ℕ) → test lo ≡ true → is_some (scan test lo (suc n)) ≡ true
unfolding scan
scan-here test lo n e = rw e refl

free_first : (m : Array Slot) → holds slot_ops 0 memory_size none_text (mem_init m) 0 ≡ true
free_first m =
    rw (map_range-inside 0 memory_size (λ _. free_slot) m 0 (omega arith) (omega arith))
      (str_eq_refl none_text)

free_slots : (m : Array Slot) → stores none_text (mem_init m) ≡ true
unfolding has_var find_var
free_slots m = scan-here (holds slot_ops 0 memory_size none_text (mem_init m)) 0 999 (free_first m)

or_true : (b : Bool) → (b || true) ≡ true
or_true true = refl
or_true false = refl

room :
    (x : CString) (m : Array Slot) → (stores x (mem_init m) || stores none_text (mem_init m)) ≡ true
room x m = rw (free_slots m) (or_true (stores x (mem_init m)))

module _ {W : Type 0} (h : Host W) where
  main_loop-line :
      (depth : ℕ) (tty : Bool) (line : CString) (input : List (Bool × CString)) (m m' : Machine W)
      → parse_input h depth line (record m { output = prompted tty m.output }) ≡ ok (pos 0) m'
      → main_loop h depth ((tty, line) ∷ input) m ≡ main_loop h depth input m'
  unfolding main_loop
  main_loop-line depth true line input m m' e = rw e refl
  main_loop-line depth false line input m m' e = rw e refl

  -- `main` of a1 on the lines `set x v` and `print x`, of words without a carriage return that fit
  -- the line, from any contents of the memory: it prints the greeting, a prompt before each line
  -- that is read from a terminal, and the text `v`; the memory after it is the initial one with `x`
  -- set to `v`, and the program has not ended.
  pub main-set-print :
      (x v : CString) (m : Machine W) (depth : ℕ) (tty tty' : Bool)
      → AreWords (x ∷ (v ∷ []))
      → IsPlain h x
      → IsPlain h v
      → length x + length v + 6 ≤ max_input
      → main h
          (suc depth)
          ((tty, line_text (codes "set") (x ∷ (v ∷ [])))
            ∷ ((tty', line_text (codes "print") (x ∷ [])) ∷ []))
          m
        ≡ ok tt (record m {
          memory = mem_set_value x v (mem_init m.memory);
          output = prompted tty' (prompted tty (greeted m.output)) ++ (v ++ codes "\n");
        })
  unfolding main main_loop
  main-set-print x v m depth tty tty' is px pv k =
      let m0 : Machine W = record m { memory = mem_init m.memory; output = greeted m.output } in
      let m1 : Machine W = record m0 {
        memory = mem_set_value x v m0.memory;
        output = prompted tty m0.output;
      } in
      let m2 : Machine W = record m1 { output = prompted tty' m1.output } in
      main_loop-line (suc depth) tty _ ((tty', line_text (codes "print") (x ∷ [])) ∷ []) m0 m1
        (set_line h x v (record m0 { output = prompted tty m0.output }) depth is px pv k)
      ∙ main_loop-line (suc depth) tty' _ [] m1
          (record m2 { output = m2.output ++ (mem_get_value x m2.memory ++ codes "\n") })
          (print_line h x m2 depth (is.0, is.1, is.2, tt) px (omega (arith, is.3.1)))
      ∙ ap (λ t. ok tt (record m2 { output = m2.output ++ (t ++ codes "\n") }))
          ((mem_set_value-lookup x v m0.memory).0 ∙ rw (room x m.memory))
