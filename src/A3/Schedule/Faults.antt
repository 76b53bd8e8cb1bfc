-- ===== src/A3/Schedule/Faults.antt =====
-- A line of a process: what `run_proc` does with the code that its command returns.
use mcgill_ecse_427_operatin.Prelude.{
  ℕ, ◌+◌, ◌-◌, ◌≡◌, ◌≢◌, refl, sym, ap, ◌∙◌, inl, inr, ◌==◌, ==_iff, Bool-cases, arith, Option,
  true, false, some, List, [], ◌∷◌, ◌++◌, CString, Array, update, update_self,
}
use mcgill_ecse_427_operatin.Prelude.Decimal.{decimal}
use mcgill_ecse_427_operatin.Prelude.Int.{ℤ, pos, ◌==ℤ◌}
use mcgill_ecse_427_operatin.A3.Memory.{Slot, mem_get_value_at, frame_alloc}
use mcgill_ecse_427_operatin.A3.Pcb.{Pcb}
use mcgill_ecse_427_operatin.A3.Pcb.Loading.{NextThree, IsLoaded, load_page-three}
use mcgill_ecse_427_operatin.A3.Machine.{Machine, ok, Cmd}
use mcgill_ecse_427_operatin.A3.Kernel.{load_at, lookup_page, page_fault}
use mcgill_ecse_427_operatin.A3.Kernel.Recency.{AllMiss, is_touched, touch_page-front}
use mcgill_ecse_427_operatin.A3.Schedule.{run_line, cpu_run, run_proc}

-- The block after a line of page `i` was run.
abbrev pub stepped : ℕ → Pcb → Pcb
stepped i b = record b {
  program_counter = update b.program_counter i (b.program_counter i + 1);
  size = b.size - 1;
}

-- The pages of the entries are in blocks that are there, and start at another slot than `start`.
abbrev AllElsewhere : Array (Option Pcb) → ℕ → List (ℕ × ℕ) → Type 0
AllElsewhere pcbs start [] = Unit {0}
AllElsewhere pcbs start (e ∷ es) =
    ((q : Pcb) × (pcbs e.0 ≡ some q) × ((q.page_table e.1).index 0 ≢ start))
    × AllElsewhere pcbs start es

-- A step of a block leaves its pages.
lookup-stepped :
    (p i : ℕ) (pcbs : Array (Option Pcb)) (b : Pcb) (k n : ℕ)
    → pcbs p ≡ some b
    → lookup_page (update pcbs p (some (stepped i b)) k) n ≡ lookup_page (pcbs k) n
lookup-stepped p i pcbs b k n at_p = elim (Bool-cases (p == k)) [
  | inl e ↦ rw e (sym (ap (λ o. lookup_page o n) (ap pcbs (sym ((==_iff p k).0 e)) ∙ at_p)))
  | inr e ↦ rw e refl
]

other_start : (a b : ℕ) → b ≢ a → (a == b) ≡ false
other_start a b ne = ground (arith, ==_iff a b)

module _ {W : Type 0} (frame_store_size var_store_size : ℕ) (parse : CString → Cmd W ℤ)
    (p i j : ℕ) where
  -- Line `j` of page `i` is loaded and its command returns `code`; then the machine is `m'` and the
  -- block `b'`.
  pub record RunsLine (m : Machine W) (code : ℤ) (m' : Machine W) (b' : Pcb) : Type 0 where
    pub block : Pcb
    pub at_p : m.pcbs p ≡ some block
    pub loaded : (block.page_table i).valid_bit j ≡ true
    pub parsed : parse (mem_get_value_at ((block.page_table i).index j) m.memory) m ≡ ok code m'
    pub after : m'.pcbs p ≡ some b'

  -- The machine with the block's step.
  abbrev pub counted : Machine W → Pcb → Machine W
  counted m b = record m { pcbs = update m.pcbs p (some (stepped i b)) }

  cpu_run-line :
      (m : Machine W) (code : ℤ) (m' : Machine W) (b' : Pcb)
      → RunsLine m code m' b'
      → cpu_run frame_store_size var_store_size parse p i j m ≡ ok code (counted m' b')
  unfolding cpu_run run_line
  cpu_run-line m code m' b' r = rw (r.at_p, r.loaded, r.parsed, r.after)

  AllMiss-Elsewhere :
      (m' : Machine W) (b' : Pcb) (front : List (ℕ × ℕ))
      → m'.pcbs p ≡ some b'
      → AllElsewhere m'.pcbs ((b'.page_table i).index 0) front
      → AllMiss (is_touched p i (stepped i b') (counted m' b')) front
  AllMiss-Elsewhere m' b' [] at_p away = tt
  AllMiss-Elsewhere m' b' (e ∷ es) at_p ((q, at_e, ne), away) = (
    rw (lookup-stepped p i m'.pcbs b' e.0 e.1 at_p, at_e)
        (ap some (other_start ((b'.page_table i).index 0) ((q.page_table e.1).index 0) ne)),
    AllMiss-Elsewhere m' b' es at_p away,
  )

  -- For a loaded line of page `i` whose command returns another code than 1 and leaves the block,
  -- with the page in the cache and only pages before it there whose first line stands in another
  -- slot: `run_proc` returns 0, the page's counter has one line more and the block one line less to
  -- run, and the page is in front of the cache with the others in their order.
  pub run_proc-line :
      (m : Machine W) (code : ℤ) (m' : Machine W) (b' : Pcb) (front back : List (ℕ × ℕ))
      → RunsLine m code m' b'
      → (code ==ℤ pos 1) ≡ false
      → m'.lru_cache ≡ front ++ ((p, i) ∷ back)
      → AllElsewhere m'.pcbs ((b'.page_table i).index 0) front
      → run_proc frame_store_size var_store_size parse p i j m
        ≡ ok (pos 0) (record (counted m' b') { lru_cache = (p, i) ∷ (front ++ back) })
  unfolding run_proc
  run_proc-line m code m' b' front back r other cache away =
      let start = (b'.page_table i).index 0 in
      rw (
        cpu_run-line m code m' b' r,
        other,
        touch_page-front p i (stepped i b') (counted m' b') front back (p, i)
            (update_self m'.pcbs p (some (stepped i b'))) cache
            (AllMiss-Elsewhere m' b' front r.after away)
            (rw (update_self m'.pcbs p (some (stepped i b')))
              (ap some ((==_iff start start).1 refl))),
      )

  -- For a loaded line whose command returns 1 and leaves the block, where three more lines of the
  -- script are left to read, each ended by a newline and short enough for the line buffer, and a
  -- frame is free: `run_proc` returns 1, the page of the line then has the next three lines of the
  -- script in a new frame while the counter of the page is only a line further, and the block is put
  -- behind the ready queue.
  pub run_proc-one :
      (m : Machine W) (m' : Machine W) (b' : Pcb) (start : ℕ) (m0 : Array Slot)
      (a b c rest : CString)
      → RunsLine m (pos 1) m' b'
      → frame_alloc frame_store_size var_store_size (decimal b'.pid) m'.memory ≡ some (start, m0)
      → NextThree b'.source_file a b c rest
      → (q : Pcb) × (done : Machine W) × (run_proc frame_store_size var_store_size parse p i j m
          ≡ ok (pos 1) done)
        × (done.pcbs p ≡ some q)
        × IsLoaded frame_store_size var_store_size (stepped i b') i start a b c q done.memory
        × (done.queue ≡ m'.queue ++ (p ∷ []))
  unfolding run_proc page_fault load_at
  run_proc-one m m' b' start m0 a b c rest r alloc next =
      let l =
        load_page-three frame_store_size var_store_size (stepped i b') i m'.memory m0 start a b c
          rest alloc next in
      let done : Machine W = record m' {
        memory = l.1;
        pcbs = update (counted m' b').pcbs p (some l.0);
        lru_cache = (p, i) ∷ m'.lru_cache;
        queue = m'.queue ++ (p ∷ []);
      } in
      (
        l.0,
        done,
        rw (cpu_run-line m (pos 1) m' b' r, update_self m'.pcbs p (some (stepped i b')), l.2) refl,
        update_self (counted m' b').pcbs p (some l.0),
        l.3,
        refl,
      )
