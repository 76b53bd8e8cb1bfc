-- ===== src/A2/Paging/Rounds.antt =====
-- The rounds of the loading loop, one by one.
use mcgill_ecse_427_operatin.Prelude.{
  ℕ, zero, suc, ◌+◌, ◌-◌, ◌/◌, ◌%◌, ◌≤◌, ◌<◌, ◌≡◌, refl, ap, ◌∙◌, true, false, some, CString, Array,
  update, arith, lt→ltb,
}
use mcgill_ecse_427_operatin.Prelude.Int.{pos}
use mcgill_ecse_427_operatin.Prelude.Stdio.{Stream, fgets}
use mcgill_ecse_427_operatin.VarStore.Slots.{none_text}
use mcgill_ecse_427_operatin.A2.Memory.{Slot, frame_size}
use mcgill_ecse_427_operatin.A2.Pcb.{page_table_size}
use mcgill_ecse_427_operatin.A2.Paging.{Loading, store_line, pad, load_loop}

-- A slot with a line of the script.
abbrev pub line_slot : CString → CString → ℕ → Slot
line_slot filename text timer = record { var = filename; value = text; last_used = timer }

-- A slot behind the end of the script.
abbrev pub padding_slot : CString → Slot
padding_slot filename = record { var = filename; value = none_text; last_used = 0 }

module _ (threshold varmemsize : ℕ) (filename : CString) (timer page_num i : ℕ) where
  -- A round that reads.
  pub load_loop-round :
      (fuel j : ℕ) (s : Loading)
      → s.file.at_eof ≡ false
      → j < threshold
      → i ≤ j
      → j < i + frame_size
      → (let read = fgets (varmemsize + threshold) s.file in
          load_loop threshold varmemsize (suc fuel) filename timer page_num i j s
          ≡ load_loop threshold varmemsize fuel filename timer page_num i
              (j + 1)
              (store_line filename timer page_num i j s read.0 read.1))
  unfolding load_loop
  load_loop-round fuel j s e h h' h'' = ground arith

  -- The round that finds the page complete.
  pub load_loop_complete :
      (fuel j : ℕ) (s : Loading)
      → s.file.at_eof ≡ false
      → j ≡ i + frame_size
      → load_loop threshold varmemsize fuel filename timer page_num i j s ≡ s
  unfolding load_loop
  load_loop_complete zero j s e h = refl
  load_loop_complete (suc fuel) j s e h = ground arith

  pad-two :
      (m : Array Slot)
      → pad frame_size filename i (i + 1) m
        ≡ update (update m (i + 1) (padding_slot filename)) (i + 1 + 1) (padding_slot filename)
  unfolding pad
  pad-two m =
      let one : (i + 1 - i) % frame_size ≡ 1 = omega arith in
      let two : (i + 1 + 1 - i) % frame_size ≡ 2 = omega arith in
      let three : (i + 1 + 1 + 1 - i) % frame_size ≡ 0 = omega arith in rw (one, two, three)

  pub pad-one :
      (m : Array Slot)
      → pad frame_size filename i (i + 1 + 1) m ≡ update m (i + 1 + 1) (padding_slot filename)
  unfolding pad
  pad-one m =
      let two : (i + 1 + 1 - i) % frame_size ≡ 2 = omega arith in
      let three : (i + 1 + 1 + 1 - i) % frame_size ≡ 0 = omega arith in rw (two, three)

  -- The round that finds the end: the rest of the page is padded.
  pub load_loop-pads :
      (fuel j : ℕ) (s : Loading)
      → s.file.at_eof ≡ true
      → j ≤ threshold
      → load_loop threshold varmemsize (suc fuel) filename timer page_num i j s
        ≡ record s { slots = pad frame_size filename i j s.slots }
  unfolding load_loop
  load_loop-pads fuel j s e h = ground arith

  -- What one read line does to the variables, by its place in the page.
  store_line-first :
      (s : Loading) (text : CString) (f : Stream)
      → page_num < page_table_size
      → store_line filename timer page_num i i s (some text) f ≡ record {
        slots = update s.slots i (line_slot filename text timer);
        file = f;
        page_table = update s.page_table page_num (pos (i / frame_size));
        error_code = 0;
        report = s.report;
      }
  store_line-first s text f h =
      let here : (i - i) % frame_size ≡ 0 = omega arith in
      rw (here, lt→ltb page_num page_table_size h)

  store_line-later :
      (j : ℕ) (s : Loading) (text : CString) (f : Stream)
      → i < j
      → j < i + frame_size
      → s.error_code ≡ 0
      → store_line filename timer page_num i j s (some text) f
        ≡ record s { slots = update s.slots j (line_slot filename text timer); file = f }
  store_line-later j s text f h h' e = ground arith

  -- A round that reads the page's first line, and one that reads a later line.
  pub first_line :
      (fuel : ℕ) (s : Loading) (text : CString) (f : Stream)
      → s.file.at_eof ≡ false
      → i < threshold
      → page_num < page_table_size
      → fgets (varmemsize + threshold) s.file ≡ (some text, f)
      → load_loop threshold varmemsize (suc fuel) filename timer page_num i i s
        ≡ load_loop threshold varmemsize fuel filename timer page_num i (i + 1) (record {
          slots = update s.slots i (line_slot filename text timer);
          file = f;
          page_table = update s.page_table page_num (pos (i / frame_size));
          error_code = 0;
          report = s.report;
        })
  first_line fuel s text f more h small e =
      load_loop-round fuel i s more h (omega arith) (omega arith)
      ∙ ap (load_loop threshold varmemsize fuel filename timer page_num i (i + 1))
          (rw e (store_line-first s text f small))

  pub later_line :
      (fuel j : ℕ) (s : Loading) (text : CString) (f : Stream)
      → s.file.at_eof ≡ false
      → i < j
      → j < i + frame_size
      → j < threshold
      → s.error_code ≡ 0
      → fgets (varmemsize + threshold) s.file ≡ (some text, f)
      → load_loop threshold varmemsize (suc fuel) filename timer page_num i j s
        ≡ load_loop threshold varmemsize fuel filename timer page_num i
            (j + 1)
            (record s { slots = update s.slots j (line_slot filename text timer); file = f })
  later_line fuel j s text f more h h' h'' zero_code e =
      load_loop-round fuel j s more h'' (omega arith) h'
      ∙ ap (load_loop threshold varmemsize fuel filename timer page_num i (j + 1))
          (rw e (store_line-later j s text f h h' zero_code))
