-- ===== src/A2/Paging/Page.antt =====
-- A page of three lines, and the outcome of loading a page.
use mcgill_ecse_427_operatin.Prelude.{
  ℕ, ◌+◌, ◌/◌, ◌≤◌, ◌<◌, ◌≡◌, refl, ◌∙◌, false, [], ◌∷◌, ◌++◌, CString, Array, update, arith,
}
use mcgill_ecse_427_operatin.Prelude.Int.{ℤ, pos}
use mcgill_ecse_427_operatin.Prelude.Stdio.{Stream, newline, remaining, length}
use mcgill_ecse_427_operatin.Prelude.Stdio.Lines.{
  NoNewline, line_of, advance, fgets-line, remaining-line,
}
use mcgill_ecse_427_operatin.A2.Memory.{frame_size}
use mcgill_ecse_427_operatin.A2.Pcb.{page_table_size}
use mcgill_ecse_427_operatin.A2.Paging.{Pager, Loading, load_at, no_space}
use mcgill_ecse_427_operatin.A2.Paging.Rounds.{
  line_slot, load_loop_complete, first_line, later_line,
}

-- The next three lines of the script, each short enough for the line buffer.
pub record ThreeLines (size : ℕ) (fp : Stream) (a b c rest : CString) : Type 0 where
  pub more : fp.at_eof ≡ false
  pub text : remaining fp ≡ a ++ (newline ∷ (b ++ (newline ∷ (c ++ (newline ∷ rest)))))
  pub first : NoNewline a × (length a + 1 < size)
  pub second : NoNewline b × (length b + 1 < size)
  pub third : NoNewline c × (length c + 1 < size)

module _ (threshold varmemsize : ℕ) (filename : CString) (page_num i : ℕ) (t : Array ℤ)
    (fp : Stream) (p : Pager) (small : page_num < page_table_size) where
  abbrev pub start : Loading
  start = record {
    slots = p.memory.slots;
    file = fp;
    page_table = t;
    error_code = no_space;
    report = [];
  }

  -- A page of three lines, each ended by a newline and short enough for the line buffer, with a page
  -- number inside the table and three slots inside the frame store, is loaded whole: its lines stand
  -- in the three slots in order with the time of the load, the page table takes the frame, the code
  -- is 0, nothing is reported, and the stream stands behind the third line.
  pub load_at-page :
      (a b c rest : CString)
      → ThreeLines (varmemsize + threshold) fp a b c rest
      → i + frame_size ≤ threshold
      → load_at threshold varmemsize filename page_num i t fp p ≡ record {
        slots =
            update
              (update
                (update p.memory.slots i (line_slot filename (line_of a) p.memory.timer))
                (i + 1)
                (line_slot filename (line_of b) p.memory.timer))
              (i + 1 + 1)
              (line_slot filename (line_of c) p.memory.timer);
        file =
            advance
              (length (line_of c))
              (advance (length (line_of b)) (advance (length (line_of a)) fp));
        page_table = update t page_num (pos (i / frame_size));
        error_code = 0;
        report = [];
      }
  unfolding load_at
  load_at-page a b c rest l h =
      let size = varmemsize + threshold in
      let f1 = advance (length (line_of a)) fp in
      let f2 = advance (length (line_of b)) f1 in
      let e1 = fgets-line size fp a l.first.0 l.first.1 _ l.text in
      let r1 = remaining-line size fp a l.first.0 l.first.1 _ l.text in
      let e2 = fgets-line size f1 b l.second.0 l.second.1 _ r1 in
      let r2 = remaining-line size f1 b l.second.0 l.second.1 _ r1 in
      let e3 = fgets-line size f2 c l.third.0 l.third.1 _ r2 in
      let timer = p.memory.timer in
      let s0 = start in
      let s1 : Loading = record {
        slots = update p.memory.slots i (line_slot filename (line_of a) timer);
        file = f1;
        page_table = update t page_num (pos (i / frame_size));
        error_code = 0;
        report = [];
      } in
      let s2 : Loading = record s1 {
        slots = update s1.slots (i + 1) (line_slot filename (line_of b) timer);
        file = f2;
      } in
      let s3 : Loading = record s2 {
        slots = update s2.slots (i + 1 + 1) (line_slot filename (line_of c) timer);
        file = advance (length (line_of c)) f2;
      } in
      first_line threshold varmemsize filename timer page_num i 3 s0 (line_of a) f1 l.more
        (omega arith) small e1
      ∙ later_line threshold varmemsize filename timer page_num i 2 (i + 1) s1 (line_of b) f2 l.more
          (omega arith) (omega arith) (omega arith) refl e2
      ∙ later_line threshold varmemsize filename timer page_num i 1 (i + 1 + 1) s2 (line_of c) _
          l.more (omega arith) (omega arith) (omega arith) refl e3
      ∙ load_loop_complete threshold varmemsize filename timer page_num i 1 (i + 1 + 1 + 1) s3
          l.more (omega arith)
