-- ===== src/A3/Kernel.antt =====
-- a3/kernel.c: new processes, page faults and what they do to the lists of the kernel, and the end of
-- processes with `free_PCB` of a3/pcb.c. The schedulers are in A3/Schedule.
pub mod Recency
use mcgill_ecse_427_operatin.Prelude.{
  ℕ, zero, suc, ◌+◌, Bool, true, false, ltb, ◌==◌, if◌then◌else◌, Option, none, some, List, [], ◌∷◌,
  ◌++◌, CString, codes, Array, update,
}
use mcgill_ecse_427_operatin.Prelude.Decimal.{decimal}
use mcgill_ecse_427_operatin.Prelude.Int.{ℤ, pos}
use mcgill_ecse_427_operatin.A3.Memory.{Slot, Listing, clear_frame, print_shell_memory}
use mcgill_ecse_427_operatin.A3.Pcb.{
  Page, Pcb, page_equal, load_page, page_limit, page_evict, pcb_init,
}
use mcgill_ecse_427_operatin.A3.Machine.{
  Machine, Run, ok, Cmd, ◌>>=◌, ◌>>◌, pure, exit, modify, gets, put, found, read_pcb, write_pcb,
}

abbrev entry_text : ℕ × Slot → CString
entry_text (i, s) =
    codes "\nline "
    ++ (decimal i
        ++ (codes ": key: " ++ (s.var ++ (codes "\t\tvalue: " ++ (s.value ++ codes "\n")))))

abbrev entries_text : List (ℕ × Slot) → CString
entries_text [] = []
entries_text (e ∷ es) = entry_text e ++ entries_text es

-- The text of `printShellMemory`.
abbrev listing_text : Listing → CString
listing_text l =
    entries_text l.lines
    ++ (codes "\n\t"
        ++ (decimal l.total
            ++ (codes " lines in total, "
                ++ (decimal l.in_use
                    ++ (codes " lines in use, " ++ (decimal l.free ++ codes " lines free\n\n"))))))

abbrev keep_first : {A : Type 0} → A → Option (A × List A) → Option (A × List A)
keep_first x none = none
keep_first x (some (y, ys)) = some (y, x ∷ ys)

abbrev taken : {A : Type 0} → A → List A → Option Bool → Option (A × List A) → Option (A × List A)
taken x xs none rest = none
taken x xs (some b) rest = if b then some (x, xs) else keep_first x rest

-- The first entry of the list that passes, and the list without it; `none` where no entry passes, or
-- one cannot be read before that (A3/LinkedList/Search has both on the nodes).
unfoldable pub take_out : {A : Type 0} → (A → Option Bool) → List A → Option (A × List A)
take_out test [] = none
take_out test (x ∷ xs) = taken x xs (test x) (take_out test xs)

abbrev pub keep_before : {A : Type 0} → A → Option (List A × A) → Option (List A × A)
keep_before x none = some ([], x)
keep_before x (some (xs, y)) = some (x ∷ xs, y)

-- A list as its front and its last entry.
unfoldable pub split_last : {A : Type 0} → List A → Option (List A × A)
split_last [] = none
split_last (x ∷ xs) = keep_before x (split_last xs)

abbrev pub lookup_page : Option Pcb → ℕ → Option Page
lookup_page none i = none
lookup_page (some b) i = some (b.page_table i)

abbrev same_page : Page → Option Page → Option Bool
same_page target none = none
same_page target (some page) = some (page_equal target page)

abbrev same_pid : ℕ → Option Pcb → Option Bool
same_pid pid none = none
same_pid pid (some b) = some (b.pid == pid)

abbrev first_of : {A : Type 0} → Option (A × List A) → Option A
first_of none = none
first_of (some (x, xs)) = some x

-- The block that a page belongs to: the loop over ALL_PCB stops at no end of that list, so without
-- such a block it reads what was never written.
abbrev pub find_owner : Array (Option Pcb) → ℕ → List ℕ → Option ℕ
find_owner pcbs pid all = first_of (take_out (λ p. same_pid pid (pcbs p)) all)

abbrev clear_checked : ℕ → ℕ → Option (Array Slot) → Option (Array Slot)
clear_checked size start none = none
clear_checked size start (some m) =
    if ltb (start + 2) size then some (clear_frame start m) else none

-- `free_PCB` clears three slots at the position of each line, for `n` pages from `i`; a position behind
-- the memory, such as the 1000 of a page that was never loaded, is an index outside the array.
unfoldable pub clear_pages : ℕ → Array Page → ℕ → ℕ → Option (Array Slot) → Option (Array Slot)
clear_pages size pages i zero m = m
clear_pages size pages i (suc n) m =
    let at = (pages i).index in
    clear_pages size pages (i + 1) n
      (clear_checked size (at 2) (clear_checked size (at 1) (clear_checked size (at 0) m)))

-- The pages below `n` come to the front of the cache, one after another.
abbrev cached : ℕ → ℕ → List (ℕ × ℕ) → List (ℕ × ℕ)
cached p zero lru = lru
cached p (suc n) lru = (p, n) ∷ cached p n lru

module _ {W : Type 0} where
  abbrev pub kernel_setup : Cmd W (Unit {0})
  kernel_setup = modify (λ m. record m { queue = []; lru_cache = []; all_pcb = [] })

  abbrev pub add_queue : ℕ → Cmd W (Unit {0})
  add_queue p = modify (λ m. record m { queue = m.queue ++ (p ∷ []) })

  -- `pop_head` of the ready queue and `pop_tail` of the cache, which end the program on an empty list.
  abbrev pop_failed : {A : Type 0} → CString → Cmd W A
  pop_failed end = do
    put (codes "Trying to pop " ++ (end ++ codes " element from an empty linked list\n"))
    exit 99

  abbrev head_of : Machine W → List ℕ → Run W ℕ
  head_of m [] = pop_failed (codes "head") m
  head_of m (p ∷ q) = ok p (record m { queue = q })

  abbrev pub pop_queue : Cmd W ℕ
  pop_queue m = head_of m m.queue

  abbrev pub victim_of : Machine W → Option (List (ℕ × ℕ) × (ℕ × ℕ)) → Run W (ℕ × ℕ)
  victim_of m none = pop_failed (codes "tail") m
  victim_of m (some (front, page)) = ok page (record m { lru_cache = front })

  abbrev pop_victim : Cmd W (ℕ × ℕ)
  pop_victim m = victim_of m (split_last m.lru_cache)

  -- `PAGE_evict` on page `k` of the block `p`.
  abbrev evict_from : ℕ → ℕ → Cmd W (Unit {0})
  evict_from p k = do
    b ← read_pcb p
    memory ← gets (λ m. m.memory)
    let r = page_evict (b.page_table k) memory
    put r.0
    modify (λ m. record m { memory = r.1 })
    write_pcb p (record b { page_table = update b.page_table k r.2 })

  -- The owner of a page is found by the process id, and the page is evicted.
  unfoldable pub evict_entry : ℕ × ℕ → Cmd W (Unit {0})
  evict_entry victim = do
    b ← read_pcb victim.0
    let page : Page = b.page_table victim.1
    owner ← gets (λ m. find_owner m.pcbs page.page_pid m.all_pcb)
    p ← found owner
    evict_from p page.page_index

  -- The page at the cache's end is taken off and evicted.
  unfoldable pub evict_victim : Cmd W (Unit {0})
  evict_victim = do victim ← pop_victim; evict_entry victim

  -- `remove_elem` by the first position of the pages, and `add_head`: the page comes to the front.
  unfoldable pub touch_page : ℕ → ℕ → Cmd W (Unit {0})
  touch_page p i = do
    b ← read_pcb p
    r ← gets (λ m.
        take_out (λ (e : ℕ × ℕ). same_page (b.page_table i) (lookup_page (m.pcbs e.0) e.1))
          m.lru_cache)
    e ← found r
    modify (λ m. record m { lru_cache = e.0 ∷ e.1 })

  module _ (frame_store_size var_store_size : ℕ) where
    abbrev store_loaded : ℕ → Option (Pcb × Array Slot) → Cmd W Bool
    store_loaded p none = pure false
    store_loaded p (some (b, memory)) = do
      modify (λ m. record m { memory = memory })
      write_pcb p b
      pure true

    -- `load_PAGE` through the block's pointer.
    unfoldable pub load_at : ℕ → ℕ → Cmd W Bool
    load_at p i = do
      b ← read_pcb p
      memory ← gets (λ m. m.memory)
      store_loaded p (load_page frame_store_size var_store_size b i memory)

    -- Without a frame a page is evicted; the code of the second load is not looked at.
    abbrev pub make_room : ℕ → ℕ → Bool → Cmd W (Unit {0})
    make_room p i loaded = if loaded then pure tt else (do evict_victim; load_at p i; pure tt)

    abbrev put_back : ℕ → ℕ → Cmd W ℤ
    put_back p i = do
      modify (λ m. record m { lru_cache = (p, i) ∷ m.lru_cache })
      add_queue p
      pure (pos 1)

    -- What `run_proc` does on a page fault.
    unfoldable pub page_fault : ℕ → ℕ → Cmd W ℤ
    page_fault p i = do loaded ← load_at p i; make_room p i loaded; put_back p i

    unfoldable pub free_pcb : ℕ → Cmd W (Unit {0})
    free_pcb p = do
      b ← read_pcb p
      cleared ← gets (λ m.
          clear_pages (frame_store_size + var_store_size) b.page_table 0 b.page_table_size
            (some m.memory))
      memory ← found cleared
      modify (λ m. record m { memory = memory; pcbs = update m.pcbs p none })

    unfoldable pub free_all : List ℕ → Cmd W (Unit {0})
    free_all [] = pure tt
    free_all (p ∷ ps) = do free_pcb p; free_all ps

    abbrev init_failed : Array Slot → Cmd W ℕ
    init_failed memory = do
      put (
          listing_text (print_shell_memory frame_store_size var_store_size memory)
          ++ codes "frame_alloc failed\n")
      exit 99

    abbrev add_proc : (Option Pcb) × Array Slot → Cmd W ℕ
    add_proc (none, memory) m = init_failed memory m
    add_proc (some b, memory) m = ok 0 (record m {
      memory = memory;
      pcbs = update m.pcbs m.made (some b);
      made = m.made + 1;
      all_pcb = m.all_pcb ++ (m.made ∷ []);
      queue = m.queue ++ (m.made ∷ []);
      lru_cache = cached m.made (page_limit frame_store_size var_store_size b) m.lru_cache;
    })

    abbrev not_found : CString → Cmd W ℕ
    not_found script = do put (codes "File not found: " ++ (script ++ codes "\n")); exit 99

    -- `new_proc` on what `fopen` found, and always with the code 0 where it returns.
    unfoldable pub new_proc : CString → Option CString → Cmd W ℕ
    new_proc script none = not_found script
    new_proc script (some bytes) = do
      pid ← gets (λ m. m.pid_counter)
      modify (λ m. record m { pid_counter = m.pid_counter + 1 })
      memory ← gets (λ m. m.memory)
      add_proc (pcb_init frame_store_size var_store_size pid bytes memory)
