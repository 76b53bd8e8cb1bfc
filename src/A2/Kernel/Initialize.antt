-- ===== src/A2/Kernel/Initialize.antt =====
-- How a call of `process_initialize` of a2/kernel.c ends, and what it changes.
use mcgill_ecse_427_operatin.Prelude.{
  ℕ, zero, suc, ◌+◌, ◌≤◌, ◌<◌, ◌≡◌, refl, ◌⊎◌, inl, inr, true, false, Option, none, some, List,
  ◌++◌, CString, codes, Bool-cases, is_some, arith,
}
use mcgill_ecse_427_operatin.Prelude.Int.{ℤ, pos, ◌*ℤ◌}
use mcgill_ecse_427_operatin.Prelude.Decimal.{decimal}
use mcgill_ecse_427_operatin.Prelude.Stdio.{open_stream}
use mcgill_ecse_427_operatin.A2.Memory.{frame_size}
use mcgill_ecse_427_operatin.A2.Pcb.{Pcb, make_pcb}
use mcgill_ecse_427_operatin.A2.Paging.{load_page_into_frame_store}
use mcgill_ecse_427_operatin.A2.Machine.{Host, Machine, Run, ok, out_of_fuel, Cmd, and_then}
use mcgill_ecse_427_operatin.A2.Kernel.{
  add_to_tail, process_initialize, copy_and_start, start_copy, copy_name, backing_store, fresh_name,
  empty_table,
}
use mcgill_ecse_427_operatin.A2.Kernel.Kept.{KeptBlocks, KeptBlocks-trans, load-Kept}

-- The block of a process that was just loaded.
pub record IsNew (filename : CString) (pid : ℕ) (p : Pcb) : Type 0 where
  pub named : p.filename ≡ filename
  pub numbered : p.pid ≡ pid
  pub at_start : p.pc ≡ p.page_table 0 *ℤ frame_size
  pub early : p.priority ≡ false
  pub unscored : p.job_length_score ≡ 0

-- The machine after a process was queued: the new block stands behind the blocks of before.
pub record Queued {W : Type 0} (filename : CString) (world : W) (m m' : Machine W) : Type 0 where
  pub waiting : List Pcb
  pub new_block : Pcb
  pub queue : m'.pager.queue ≡ add_to_tail waiting new_block
  pub kept : KeptBlocks m.pager.queue waiting
  pub is_new : IsNew filename m.pid_counter new_block
  pub world_copied : m'.world ≡ world
  pub next_pid : m'.pid_counter ≡ m.pid_counter + 1
  pub same_background : m'.in_background ≡ m.in_background
  pub same_active : m'.active ≡ m.active

module _ {W : Type 0} (h : Host W) where
  -- A name for a copy: that of the script in the backing store or this with a number, and not taken.
  pub record IsFresh (filename name : CString) (w : W) : Type 0 where
    pub numbered :
        (name ≡ backing_store ++ filename)
        ⊎ ((i : ℕ) × (name ≡ (backing_store ++ filename) ++ decimal i))
    pub not_taken : h.read_file name w ≡ none

  -- The world after the shell command that copies the script.
  abbrev pub copied : CString → CString → W → W
  copied filename name w = (h.system (codes "cp " ++ (filename ++ (codes " " ++ name))) w).1

  -- How a call of `process_initialize` ends, and when.
  pub data Initialized (fuel : ℕ) (filename : CString) (m : Machine W) : Run W ℤ → Type 0 where
    missing : h.read_file filename m.world ≡ none → Initialized fuel filename m (ok (pos 1) m)
    no_copy :
        (script name : CString)
        → h.read_file filename m.world ≡ some script
        → IsFresh filename name m.world
        → h.read_file name (copied filename name m.world) ≡ none
        → Initialized fuel filename m
            (ok (pos 1) (record m { world = copied filename name m.world }))
    queued :
        (script name bytes : CString) (m' : Machine W)
        → h.read_file filename m.world ≡ some script
        → IsFresh filename name m.world
        → h.read_file name (copied filename name m.world) ≡ some bytes
        → Queued filename (copied filename name m.world) m m'
        → Initialized fuel filename m (ok (pos 0) m')
    copies_out :
        (script : CString)
        → h.read_file filename m.world ≡ some script
        → ((i : ℕ)
            → 1 ≤ i
            → i < 1 + fuel
            → is_some (h.read_file ((backing_store ++ filename) ++ decimal i) m.world) ≡ true)
        → Initialized fuel filename m out_of_fuel

is_none : {A : Type 0} (o : Option A) → is_some o ≡ false → o ≡ none
is_none none e = refl
is_none (some a) e = cc

last_cases : (j n : ℕ) → j < n + 1 → (j < n) ⊎ (j ≡ n)
last_cases j n h = ground arith

module _ {W : Type 0} (h : Host W) (threshold varmemsize : ℕ) where
  start_copy-Initialized :
      (fuel : ℕ) (filename script name : CString) (m : Machine W) (bytes : Option CString)
      → h.read_file filename m.world ≡ some script
      → IsFresh h filename name m.world
      → h.read_file name (copied h filename name m.world) ≡ bytes
      → Initialized h fuel filename m (
          start_copy h threshold varmemsize filename bytes
            (record m { world = copied h filename name m.world }))
  unfolding make_pcb
  start_copy-Initialized fuel filename script name m none found fresh e =
      no_copy script name found fresh e
  start_copy-Initialized fuel filename script name m (some bytes) found fresh e =
      let load = load_page_into_frame_store threshold varmemsize in
      let a = load (open_stream bytes) filename empty_table 0 m.pager in
      let b = load a.3 filename a.2 1 a.1 in
      let made = (make_pcb m.pid_counter b.2 b.3 filename).0 in
      let m' : Machine W = record m {
        world = copied h filename name m.world;
        pager = record b.1 { queue = add_to_tail b.1.queue made };
        pid_counter = m.pid_counter + 1;
      } in
      queued script name bytes m' found fresh e (record {
        waiting = b.1.queue;
        new_block = made;
        queue = refl;
        kept =
            KeptBlocks-trans m.pager.queue a.1.queue b.1.queue
              (load-Kept threshold varmemsize (open_stream bytes) filename empty_table 0 m.pager)
              (load-Kept threshold varmemsize a.3 filename a.2 1 a.1);
        is_new = record {
          named = refl;
          numbered = refl;
          at_start = refl;
          early = refl;
          unscored = refl;
        };
        world_copied = refl;
        next_pid = refl;
        same_background = refl;
        same_active = refl;
      })

  -- Looking for a name changes nothing; it finds one that is not taken, or the numbers run out.
  data Named (filename : CString) (fuel : ℕ) (m : Machine W) : Run W CString → Type 0 where
    named : (name : CString) → IsFresh h filename name m.world → Named filename fuel m (ok name m)
    not_named :
        ((i : ℕ)
          → 1 ≤ i
          → i < 1 + fuel
          → is_some (h.read_file ((backing_store ++ filename) ++ decimal i) m.world) ≡ true)
        → Named filename fuel m out_of_fuel

  -- The names from the number `i` on are taken, so with the rest all are.
  fresh_name-Named :
      (filename : CString) (all fuel i : ℕ) (m : Machine W)
      → i + fuel ≡ 1 + all
      → ((j : ℕ)
          → 1 ≤ j
          → j < i
          → is_some (h.read_file ((backing_store ++ filename) ++ decimal j) m.world) ≡ true)
      → Named filename all m
          (fresh_name h threshold varmemsize fuel (backing_store ++ filename) i m)
  unfolding fresh_name
  fresh_name-Named filename all zero i m e taken = not_named (λ j a b. taken j a (omega arith))
  fresh_name-Named filename all (suc fuel) i m e taken =
      let here = (backing_store ++ filename) ++ decimal i in
      elim (Bool-cases (is_some (h.read_file here m.world))) [
        | inl t ↦ rw t (
            fresh_name-Named filename all fuel (i + 1) m (omega arith) (λ j a b.
              elim (last_cases j i b) [ inl below ↦ taken j a below | inr same ↦ rw same t ]))
        | inr t ↦ rw t (
            named here (record {
              numbered = inr (i, refl);
              not_taken = is_none (h.read_file here m.world) t;
            }))
      ]

  copy_name-Named :
      (filename : CString) (fuel : ℕ) (m : Machine W)
      → Named filename fuel m (copy_name h threshold varmemsize fuel (backing_store ++ filename) m)
  copy_name-Named filename fuel m =
      let here = backing_store ++ filename in
      elim (Bool-cases (is_some (h.read_file here m.world))) [
        | inl e ↦
            rw e (fresh_name-Named filename fuel fuel 1 m refl (λ j a b. absurd (omega arith)))
        | inr e ↦ rw e (
            named here
              (record { numbered = inl refl; not_taken = is_none (h.read_file here m.world) e }))
      ]

  with_name :
      (fuel : ℕ) (filename script : CString) (m : Machine W) (r : Run W CString)
      (k : CString → Cmd W ℤ)
      → h.read_file filename m.world ≡ some script
      → Named filename fuel m r
      → ((name : CString)
          → IsFresh h filename name m.world
          → Initialized h fuel filename m (k name m))
      → Initialized h fuel filename m (and_then r k)
  with_name fuel filename script m r k found (named name fresh) rest = rest name fresh
  with_name fuel filename script m r k found (not_named taken) rest = copies_out script found taken

  copy_and_start-Initialized :
      (fuel : ℕ) (filename : CString) (script : Option CString) (m : Machine W)
      → h.read_file filename m.world ≡ script
      → Initialized h fuel filename m (copy_and_start h threshold varmemsize fuel filename script m)
  copy_and_start-Initialized fuel filename none m found = missing found
  copy_and_start-Initialized fuel filename (some script) m found =
      with_name fuel filename script m _ _ found (copy_name-Named filename fuel m) (λ name fresh.
        start_copy-Initialized fuel filename script name m
          (h.read_file name (copied h filename name m.world)) found fresh refl)

  pub process_initialize-Initialized :
      (fuel : ℕ) (filename : CString) (m : Machine W)
      → Initialized h fuel filename m (process_initialize h threshold varmemsize fuel filename m)
  unfolding process_initialize
  process_initialize-Initialized fuel filename m =
      copy_and_start-Initialized fuel filename (h.read_file filename m.world) m refl
