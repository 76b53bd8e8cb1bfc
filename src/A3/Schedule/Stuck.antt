-- ===== src/A3/Schedule/Stuck.antt =====
-- A process whose next line was not loaded and whose script has ended: each turn is a page fault that
-- loads nothing.
use mcgill_ecse_427_operatin.Prelude.{
  update_self, subst, sym, ==_iff, ◌∙◌, ℕ, zero, suc, ◌≡◌, refl, ap, inl, inr, Bool, true, false,
  Option, some, List, [], ◌∷◌, ◌++◌, CString, Array, update,
}
use mcgill_ecse_427_operatin.Prelude.Int.{ℤ, pos}
use mcgill_ecse_427_operatin.A3.Pcb.{Pcb, pcb_done, page_evict, place_page}
use mcgill_ecse_427_operatin.A3.Machine.{Machine, out_of_fuel, Cmd, and_then}
use mcgill_ecse_427_operatin.A3.Machine.Returns.{Returns, Returns-and_then, and_then-out_of_fuel}
use mcgill_ecse_427_operatin.A3.Kernel.{
  load_at, evict_victim, evict_entry, victim_of, make_room, page_fault, split_last, keep_before,
  find_owner, take_out,
}
use mcgill_ecse_427_operatin.A3.Schedule.{
  queue_done, run_next, run_proc, cpu_run, turn, run_proc_rr,
}
use mcgill_ecse_427_operatin.A3.Schedule.Starved.{
  IsStarved, reloaded, load_page-end, IsStarved-update, page_evict-Emptied, size_cases,
  first_open-done,
}

abbrev AllOf : ℕ → List (ℕ × ℕ) → Type 0
AllOf p [] = Unit {0}
AllOf p (e ∷ es) = (e.0 ≡ p) × AllOf p es

-- The block is the only one, and the cache has pages of it only.
pub record IsStuck {W : Type 0} (p i : ℕ) (m : Machine W) : Type 0 where
  pub block : Pcb
  pub at_p : m.pcbs p ≡ some block
  pub starved : IsStarved i block
  pub cache : AllOf p m.lru_cache
  pub all : m.all_pcb ≡ p ∷ []

split_last-AllOf :
    (p : ℕ) (e : ℕ × ℕ) (es : List (ℕ × ℕ))
    → AllOf p (e ∷ es)
    → (front : List (ℕ × ℕ)) × (k : ℕ) × (split_last (e ∷ es) ≡ some (front, (p, k)))
      × AllOf p front
unfolding split_last
split_last-AllOf p e [] a = ([], e.1, ap (λ (x : ℕ). some ([], (x, e.1))) a.0, tt)
split_last-AllOf p e (f ∷ fs) a =
    let rest = split_last-AllOf p f fs a.1 in
    (e ∷ rest.0, rest.1, ap (keep_before e) rest.2, (a.0, rest.3))

find_owner-only :
    (pcbs : Array (Option Pcb)) (p pid : ℕ) (b : Pcb)
    → pcbs p ≡ some b
    → pid ≡ b.pid
    → find_owner pcbs pid (p ∷ []) ≡ some p
unfolding take_out
find_owner-only pcbs p pid b e same = rw (e, same, (==_iff b.pid b.pid).1 refl)

module _ {W : Type 0} (frame_store_size var_store_size p i : ℕ) where
  -- The machine is stuck with this cache and these blocks in the ready queue.
  abbrev Stays : List ℕ → List (ℕ × ℕ) → Machine W → Type 0
  Stays queue cache m = IsStuck p i m × (m.queue ≡ queue) × (m.lru_cache ≡ cache)

  load_at-IsStuck :
      (m : Machine W)
      → IsStuck p i m
      → Returns
          (λ (loaded : Bool). Stays m.queue m.lru_cache)
          (load_at frame_store_size var_store_size p i m)
  unfolding load_at
  load_at-IsStuck m s =
      rw s.at_p
        (elim (load_page-end frame_store_size var_store_size i s.block m.memory s.starved.ended) [
          | inl full ↦ rw full (s, refl, refl)
          | inr (start, m', e) ↦ rw e (
            record {
              block = reloaded i start s.block;
              at_p = update_self m.pcbs p (some (reloaded i start s.block));
              starved =
                  IsStarved-update i i s.block (place_page start (s.block.page_table i)) _ s.starved
                    (refl, refl, λ j h. refl) s.starved.ended;
              cache = s.cache;
              all = s.all;
            },
            refl,
            refl,
          )
        ])

  with_lists :
      (m : Machine W) (queue : List ℕ) (cache : List (ℕ × ℕ))
      → IsStuck p i m
      → AllOf p cache
      → IsStuck p i (record m { queue = queue; lru_cache = cache })
  with_lists m queue cache s a = record {
    block = s.block;
    at_p = s.at_p;
    starved = s.starved;
    cache = a;
    all = s.all;
  }

  evict_entry-IsStuck :
      (m : Machine W) (k : ℕ)
      → IsStuck p i m
      → Returns (λ _ (m' : Machine W). IsStuck p i m' × (m'.queue ≡ m.queue)) (evict_entry (p, k) m)
  unfolding evict_entry
  evict_entry-IsStuck m k s =
      let page = s.block.page_table k in
      let evicted = page_evict page m.memory in
      rw
        (
          s.at_p,
          s.all,
          find_owner-only m.pcbs p page.page_pid s.block s.at_p (s.starved.pids k),
          s.starved.indices k,
          s.at_p,
        )
        (
          record {
            block = record s.block { page_table = update s.block.page_table k evicted.2 };
            at_p = update_self m.pcbs p _;
            starved =
                IsStarved-update i k s.block evicted.2 s.block.source_file s.starved
                  (page_evict-Emptied page m.memory) s.starved.ended;
            cache = s.cache;
            all = refl;
          },
          refl,
        )

  evict_victim-IsStuck :
      (m : Machine W) (e : ℕ × ℕ) (es : List (ℕ × ℕ))
      → IsStuck p i m
      → m.lru_cache ≡ e ∷ es
      → Returns (λ _ (m' : Machine W). IsStuck p i m' × (m'.queue ≡ m.queue)) (evict_victim m)
  unfolding evict_victim
  evict_victim-IsStuck m e es s ce =
      let last = split_last-AllOf p e es (subst (AllOf p) ce s.cache) in
      let m' : Machine W = record m { lru_cache = last.0 } in
      subst
        (λ r.
          Returns (λ _ (m' : Machine W). IsStuck p i m' × (m'.queue ≡ m.queue))
            (and_then r evict_entry))
        (sym (ap (victim_of m) (ap split_last ce ∙ last.2)))
        (evict_entry-IsStuck m' last.1 (with_lists m m.queue last.0 s last.3))

  -- After the fault the block is behind the queue, and its page in front of the cache.
  abbrev pub Faulted : List ℕ → ℤ → Machine W → Type 0
  Faulted queue ret m =
      (ret ≡ pos 1)
      × IsStuck p i m
      × (m.queue ≡ queue ++ (p ∷ []))
      × ((es : List (ℕ × ℕ)) × (m.lru_cache ≡ (p, i) ∷ es))

  make_room-IsStuck :
      (loaded : Bool) (m : Machine W) (e : ℕ × ℕ) (es : List (ℕ × ℕ))
      → IsStuck p i m
      → m.lru_cache ≡ e ∷ es
      → Returns
          (λ _ (m' : Machine W). IsStuck p i m' × (m'.queue ≡ m.queue))
          (make_room frame_store_size var_store_size p i loaded m)
  make_room-IsStuck true m e es s ce = (s, refl)
  make_room-IsStuck false m e es s ce =
      let Kept : Unit {0} → Machine W → Type 0 = λ _ m'. IsStuck p i m' × (m'.queue ≡ m.queue) in
      Returns-and_then Kept Kept _ (evict_victim m) (evict_victim-IsStuck m e es s ce) (λ _ m1 k1.
        Returns-and_then (λ (loaded : Bool). Stays m1.queue m1.lru_cache) Kept _
          (load_at frame_store_size var_store_size p i m1) (load_at-IsStuck m1 k1.0)
          (λ _ m2 k2. (k2.0, k2.1 ∙ k1.1)))

  page_fault-Faulted :
      (m : Machine W) (e : ℕ × ℕ) (es : List (ℕ × ℕ))
      → IsStuck p i m
      → m.lru_cache ≡ e ∷ es
      → Returns (Faulted m.queue) (page_fault frame_store_size var_store_size p i m)
  unfolding page_fault
  page_fault-Faulted m e es s ce =
      let Kept : Unit {0} → Machine W → Type 0 = λ _ m'. IsStuck p i m' × (m'.queue ≡ m.queue) in
      Returns-and_then (λ (loaded : Bool). Stays m.queue m.lru_cache) (Faulted m.queue) _
        (load_at frame_store_size var_store_size p i m) (load_at-IsStuck m s)
        (λ loaded m1 k1.
          Returns-and_then (λ _ (m' : Machine W). IsStuck p i m' × (m'.queue ≡ m1.queue))
            (Faulted m.queue) _ (make_room frame_store_size var_store_size p i loaded m1)
            (make_room-IsStuck loaded m1 e es k1.0 (k1.2 ∙ ce))
            (λ _ m2 k2. (
              refl,
              with_lists m2 (m2.queue ++ (p ∷ [])) ((p, i) ∷ m2.lru_cache) k2.0 (refl, k2.0.cache),
              ap (λ q. q ++ (p ∷ [])) (k2.1 ∙ k1.1),
              (m2.lru_cache, refl),
            )))

  module _ (parse : CString → Cmd W ℤ) where
    pub run_next-Faulted :
        (m : Machine W) (e : ℕ × ℕ) (es : List (ℕ × ℕ))
        → IsStuck p i m
        → m.lru_cache ≡ e ∷ es
        → Returns (Faulted m.queue) (run_next frame_store_size var_store_size parse p m)
    unfolding run_next run_proc cpu_run
    run_next-Faulted m e es s ce =
        rw (s.at_p, s.starved.next, s.at_p, s.starved.unloaded) (page_fault-Faulted m e es s ce)

    turn-Faulted :
        (m : Machine W) (e : ℕ × ℕ) (es : List (ℕ × ℕ))
        → IsStuck p i m
        → m.lru_cache ≡ e ∷ es
        → Returns (λ _. Faulted m.queue (pos 1)) (turn frame_store_size var_store_size parse p m)
    unfolding turn
    turn-Faulted m e es s ce =
        let faulted = run_next-Faulted m e es s ce in
        elim (size_cases s.block.size s.starved.left) [
          | inl more ↦
              rw (s.at_p, more)
                (Returns-and_then (Faulted m.queue) (λ _. Faulted m.queue (pos 1)) _
                  (run_next frame_store_size var_store_size parse p m) faulted
                  (λ ret m1 f. rw f.0 (refl, f.1, f.2, f.3)))
          | inr (one, no_more) ↦
              rw (s.at_p, no_more, one)
                (Returns-and_then (Faulted m.queue) (λ _. Faulted m.queue (pos 1)) _
                  (run_next frame_store_size var_store_size parse p m) faulted
                  (λ ret m1 f. (refl, f.1, f.2, f.3)))
        ]

    -- Where the one process, alone in the ready queue, has a line left to run that was not loaded,
    -- its script has no byte left, its pages have its id and their own numbers, and the cache is not
    -- empty and has pages of it only, the round-robin scheduler never returns: each turn is a page
    -- fault that loads nothing and puts the block back, with an eviction where there is no frame. It
    -- holds for every parser and any fuel.
    pub run_proc_rr-stuck :
        (fuel : ℕ) (m : Machine W) (e : ℕ × ℕ) (es : List (ℕ × ℕ))
        → IsStuck p i m
        → m.queue ≡ p ∷ []
        → m.lru_cache ≡ e ∷ es
        → run_proc_rr frame_store_size var_store_size parse fuel m ≡ out_of_fuel
    unfolding run_proc_rr queue_done pcb_done
    run_proc_rr-stuck zero m e es s qe ce = refl
    run_proc_rr-stuck (suc fuel) m e es s qe ce =
        let b = s.block in
        let not_done = first_open-done b.program_counter 0 b.page_table_size i s.starved.next in
        let m' : Machine W = record m { queue = [] } in
        rw (qe, s.at_p, not_done)
          (and_then-out_of_fuel (λ (_ : Unit {0}). Faulted [] (pos 1)) _
            (turn frame_store_size var_store_size parse p m')
            (turn-Faulted m' e es (with_lists m [] m.lru_cache s s.cache) ce)
            (λ _ m1 f. run_proc_rr-stuck fuel m1 (p, i) f.3.0 f.1 f.2 f.3.1))
