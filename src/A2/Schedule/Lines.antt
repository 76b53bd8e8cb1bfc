-- ===== src/A2/Schedule/Lines.antt =====
-- The lines that a process runs inside a page.
use mcgill_ecse_427_operatin.Prelude.{
  ℕ, zero, suc, ◌+◌, ◌*◌, ◌%◌, ◌<◌, ◌≤◌, Bool, List, [], ◌∷◌, ap, lt→ltb, update, ==_iff, ◌==◌, ◌≡◌,
  ◌≢◌, refl, sym, ◌∙◌, true, false, ◌&&◌, not, Bool-cases, inl, inr, CString, arith, str_eq,
  str_eq_iff,
}
use native.Mathlib.Nat.{add-zero}
use mcgill_ecse_427_operatin.Prelude.Stdio.{length}
use mcgill_ecse_427_operatin.Prelude.Int.{ℤ, pos, minus_one, ◌+ℤ◌, ◌==ℤ◌, ==ℤ_iff, divides}
use mcgill_ecse_427_operatin.VarStore.Slots.{none_text}
use mcgill_ecse_427_operatin.A2.Memory.{frame_size, line, mem_get_value_at_line, increment_lastused}
use mcgill_ecse_427_operatin.A2.Pcb.{Pcb}
use mcgill_ecse_427_operatin.A2.Kernel.{page_start}
use mcgill_ecse_427_operatin.A2.Machine.{Machine, ok, Cmd}
use mcgill_ecse_427_operatin.A2.Schedule.Unloaded.{find_page-start}
use mcgill_ecse_427_operatin.A2.Schedule.{execute_process, fetch, next_line, past, run_lines}

-- The counter is inside the page `n`, at its start or behind one of its lines but the last.
abbrev InPage : Pcb → ℕ → Type 0
InPage p n = (divides frame_size p.pc && not (p.pc ==ℤ page_start p.page_table n)) ≡ false

different : (text : CString) → text ≢ none_text → str_eq text none_text ≡ false
different text ne = ground (arith, str_eq_iff text none_text)

-- The counter is at one of the three slots from `f * 3`, where the first page starts.
InPage-slot :
    (p : Pcb) (f i : ℕ)
    → page_start p.page_table 0 ≡ pos (f * frame_size)
    → p.pc ≡ pos i
    → f * frame_size ≤ i
    → i < f * frame_size + frame_size
    → InPage p 0
InPage-slot p f i start at low high = elim (Bool-cases (i % frame_size == 0)) [
  | inr e ↦ rw (at, add-zero, e) refl
  | inl e ↦
      let here : i ≡ f * frame_size = omega (arith, (==_iff (i % frame_size) 0).0 e) in
      rw (at, start, here, (==ℤ_iff (pos (f * frame_size)) (pos (f * frame_size))).1 refl)
        (and_false (divides frame_size (pos (f * frame_size))))
]
  where
    and_false : (b : Bool) → (b && false) ≡ false
    and_false true = refl
    and_false false = refl

-- The block when `n` lines from the slot `i` were run.
abbrev pub advanced : ℕ → ℕ → Pcb → Pcb
advanced i zero p = p
advanced i (suc n) p = record p { pc = pos (i + suc n); priority = false }

advanced-step : (i n : ℕ) (p : Pcb) → advanced (i + 1) n (advanced i 1 p) ≡ advanced i (suc n) p
advanced-step i zero p = refl
advanced-step i (suc n) p =
    ap (λ k. record p { pc = pos k; priority = false })
      (let e : i + 1 + suc n ≡ i + suc (suc n) = omega arith in e)

module _ {W : Type 0} (threshold varmemsize : ℕ) where
  stay :
      (p : Pcb) (n : ℕ) (m : Machine W)
      → InPage p n
      → next_line threshold varmemsize p n m ≡ ok (fetch p n) m
  unfolding next_line
  stay p n m here = rw here

  fetched :
      (p : Pcb) (i : ℕ) (m : Machine W)
      → p.pc ≡ pos i
      → i < varmemsize + threshold
      → mem_get_value_at_line threshold varmemsize p.pc m.pager.memory
        ≡ line (m.pager.memory.slots i).value
  unfolding mem_get_value_at_line
  fetched p i m e h = rw e (ground (arith, h))

  module _ (parse : CString → Cmd W ℤ) where
    -- The machine after a command: the clock is a step further, and stamps the slot `i` alone.
    abbrev pub stamped : ℕ → Machine W → Machine W
    stamped i m = record m {
      pager = record m.pager {
        memory = record {
          timer = m.pager.memory.timer + 1;
          slots =
              update m.pager.memory.slots i
                (record (m.pager.memory.slots i) { last_used = m.pager.memory.timer + 1 });
        };
      };
      in_background = false;
    }

    -- From the slot `i` the texts are run: each stands in its slot when its turn comes, is no padding,
    -- and its command returns on the machine with the background flag set.
    pub data RunsLines : ℕ → List CString → Machine W → Machine W → Type 0 where
      nothing : (i : ℕ) (m : Machine W) → RunsLines i [] m m
      one_more :
          (i : ℕ) (text : CString) (texts : List CString) (m m1 m' : Machine W) (code : ℤ)
          → (m.pager.memory.slots i).value ≡ text
          → text ≢ none_text
          → parse text (record m { in_background = true }) ≡ ok code m1
          → RunsLines (i + 1) texts (stamped i m1) m'
          → RunsLines i (text ∷ texts) m m'

    used_line :
        (p : Pcb) (i : ℕ)
        → p.pc ≡ pos i
        → ((past threshold varmemsize parse p).pc +ℤ minus_one) ≡ pos i
    used_line p i e = rw e (ground arith)

    past-advanced :
        (p : Pcb) (i : ℕ) → p.pc ≡ pos i → past threshold varmemsize parse p ≡ advanced i 1 p
    past-advanced p i e =
        ap (λ pc. record p { pc = pc +ℤ pos 1; priority = false }) e
        ∙ ap (λ pc. record p { pc = pc; priority = false })
            (let next : (pos i +ℤ pos 1) ≡ pos (i + 1) = ground arith in next)

    run_lines-one :
        (quanta : ℕ) (p : Pcb) (i : ℕ) (text : CString) (m m1 : Machine W) (code : ℤ)
        → InPage p 0
        → p.pc ≡ pos i
        → i < threshold
        → (m.pager.memory.slots i).value ≡ text
        → text ≢ none_text
        → parse text (record m { in_background = true }) ≡ ok code m1
        → run_lines threshold varmemsize parse (suc quanta) p 0 m
          ≡ run_lines threshold varmemsize parse quanta (advanced i 1 p) 0 (stamped i m1)
    unfolding run_lines increment_lastused
    run_lines-one quanta p i text m m1 code here at inside held named ran =
        rw (run_lines, stay p 0 m here)
          (rw
            (
              fetched p i m at (omega arith),
              held,
              different text named,
              ran,
              used_line p i at,
              lt→ltb i threshold inside,
              past-advanced p i at,
            )
            refl)

    run_lines-page :
        (texts : List CString) (p : Pcb) (f i : ℕ) (m m' : Machine W)
        → page_start p.page_table 0 ≡ pos (f * frame_size)
        → p.pc ≡ pos i
        → f * frame_size ≤ i
        → i + length texts ≤ f * frame_size + frame_size
        → f * frame_size + frame_size ≤ threshold
        → RunsLines i texts m m'
        → run_lines threshold varmemsize parse (length texts) p 0 m
          ≡ ok (false, advanced i (length texts) p) m'
    unfolding run_lines
    run_lines-page [] p f i m m' start at low high inside (nothing j n) = refl
    run_lines-page (text ∷ texts) p f i m m' start at low high inside
          (one_more j t ts n m1 n' code held named ran rest) =
        run_lines-one (length texts) p i text m m1 code
          (InPage-slot p f i start at low (omega arith)) at (omega arith) held named ran
        ∙ run_lines-page texts (advanced i 1 p) f (i + 1) (stamped i m1) m' start refl (omega arith)
            (omega arith) inside rest
        ∙ ap (λ q. ok (false, q) m') (advanced-step i (length texts) p)

    -- A process whose counter is at the start of its first page, which is a frame of the store, with
    -- a quantum of as many lines as are given, at most three: where each line stands in its slot
    -- when its turn comes, is not "none", and its command returns when it is parsed with the
    -- background flag set, `execute_process` gives the lines to the parser in order, steps the clock
    -- after each command and stamps the line's slot, and no other, with it, clears the flag, and
    -- returns that the process has not ended, with the counter behind the last line.
    pub execute_process-lines :
        (rounds : ℕ) (p : Pcb) (f : ℕ) (texts : List CString) (m m' : Machine W)
        → page_start p.page_table 0 ≡ pos (f * frame_size)
        → p.pc ≡ pos (f * frame_size)
        → length texts ≤ frame_size
        → f * frame_size + frame_size ≤ threshold
        → RunsLines (f * frame_size) texts m m'
        → execute_process threshold varmemsize parse (suc rounds) p (length texts) m
          ≡ ok (false, advanced (f * frame_size) (length texts) p) m'
    unfolding execute_process
    execute_process-lines rounds p f texts m m' start at few inside runs =
        let here : (p.pc ==ℤ page_start p.page_table 0) ≡ true =
          (==ℤ_iff p.pc _).1 (at ∙ sym start) in
        rw (execute_process, find_page-start threshold varmemsize rounds p m here)
          (run_lines-page texts p f (f * frame_size) m m' start at (omega arith) (omega arith)
            inside runs)
