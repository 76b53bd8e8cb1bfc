-- ===== src/A3/Pcb/Loading.antt =====
-- `load_PAGE` on a page of three lines.
use mcgill_ecse_427_operatin.Prelude.{
  [], ℕ, suc, ◌+◌, ◌<◌, ◌≡◌, ◌≢◌, refl, ap, ◌∙◌, true, Option, none, some, ◌∷◌, ◌++◌, CString,
  Array, arith,
}
use mcgill_ecse_427_operatin.Prelude.Decimal.{decimal}
use mcgill_ecse_427_operatin.Prelude.Stdio.{Stream, newline, remaining, length, fgets}
use mcgill_ecse_427_operatin.Prelude.Stdio.Lines.{
  NoNewline, line_of, advance, fgets-line, fgets-end, remaining-line,
}
use mcgill_ecse_427_operatin.A3.Memory.{Slot, frame_alloc, mem_set_value_at}
use mcgill_ecse_427_operatin.A3.Pcb.{
  Pcb, Load, line_room, put_line, load_lines, load_page, with_load, place_page,
}

-- The next three lines of a stream, each ended by a newline and short enough for the line buffer.
pub record NextThree (f : Stream) (a b c rest : CString) : Type 0 where
  pub text : remaining f ≡ a ++ (newline ∷ (b ++ (newline ∷ (c ++ (newline ∷ rest)))))
  pub first : NoNewline a × (length a + 1 < line_room)
  pub second : NoNewline b × (length b + 1 < line_room)
  pub third : NoNewline c × (length c + 1 < line_room)

abbrev pub behind : CString → Stream → Stream
behind w f = advance (length (line_of w)) f

-- Three lines put one after another.
abbrev put_three : CString → CString → CString → CString → Load → Load
put_three pid_str a b c l =
    let f1 = behind a l.file in
    let f2 = behind b f1 in
    put_line pid_str 2 (line_of c) (behind c f2)
      (put_line pid_str 1 (line_of b) f2 (put_line pid_str 0 (line_of a) f1 l))

pub load_lines-step :
    (n j : ℕ) (pid_str line : CString) (f : Stream) (l : Load)
    → fgets line_room l.file ≡ (some line, f)
    → load_lines (suc n) j pid_str l ≡ load_lines n (j + 1) pid_str (put_line pid_str j line f l)
unfolding load_lines
load_lines-step n j pid_str line f l e =
    ap
      (λ (r : Option CString × Stream). elim r.0 [
        | none ↦ record l { file = r.1 }
        | some text ↦ load_lines n (j + 1) pid_str (put_line pid_str j text r.1 l)
      ])
      e

-- The loop stops where the script has ended.
pub load_lines-end :
    (n j : ℕ) (pid_str : CString) (l : Load)
    → remaining l.file ≡ []
    → load_lines (suc n) j pid_str l ≡ record l { file = record l.file { at_eof = true } }
unfolding load_lines
load_lines-end n j pid_str l e =
    ap
      (λ (r : Option CString × Stream). elim r.0 [
        | none ↦ record l { file = r.1 }
        | some text ↦ load_lines n (j + 1) pid_str (put_line pid_str j text r.1 l)
      ])
      (fgets-end 997 l.file e)

load_lines-three :
    (pid_str : CString) (l : Load) (a b c rest : CString)
    → NextThree l.file a b c rest
    → load_lines 3 0 pid_str l ≡ put_three pid_str a b c l
unfolding load_lines
load_lines-three pid_str l a b c rest n =
    let f1 = behind a l.file in
    let f2 = behind b f1 in
    let e1 = fgets-line line_room l.file a n.first.0 n.first.1 _ n.text in
    let r1 = remaining-line line_room l.file a n.first.0 n.first.1 _ n.text in
    let e2 = fgets-line line_room f1 b n.second.0 n.second.1 _ r1 in
    let r2 = remaining-line line_room f1 b n.second.0 n.second.1 _ r1 in
    let e3 = fgets-line line_room f2 c n.third.0 n.third.1 _ r2 in
    let l1 = put_line pid_str 0 (line_of a) f1 l in
    let l2 = put_line pid_str 1 (line_of b) f2 l1 in
    load_lines-step 2 0 pid_str (line_of a) f1 l e1
    ∙ load_lines-step 1 1 pid_str (line_of b) f2 l1 e2
    ∙ load_lines-step 0 2 pid_str (line_of c) (behind c f2) l2 e3

module _ (frame_store_size var_store_size : ℕ) where
  -- What is known of a block and a memory with a page of these lines at the position `start`.
  pub record IsLoaded (p : Pcb) (page_index start : ℕ) (a b c : CString) (q : Pcb) (m' : Array Slot)
      : Type 0 where
    pub positions : (j : ℕ) → j < 3 → (q.page_table page_index).index j ≡ start + j
    pub valid : (j : ℕ) → j < 3 → (q.page_table page_index).valid_bit j ≡ true
    pub first : m' start ≡ record { var = decimal p.pid; value = line_of a }
    pub second : m' (start + 1) ≡ record { var = decimal p.pid; value = line_of b }
    pub third : m' (start + 2) ≡ record { var = decimal p.pid; value = line_of c }
    pub stream : q.source_file ≡ behind c (behind b (behind a p.source_file))
    pub others : (k : ℕ) → page_index ≢ k → q.page_table k ≡ p.page_table k
    pub rest : (q.size ≡ p.size) × (q.program_counter ≡ p.program_counter)

  -- Where `frame_alloc` finds a frame and the script goes on with three lines, each ended by a
  -- newline and short enough for the line buffer, `load_page` succeeds: the lines stand in the three
  -- slots of the frame in order under the process's id, the page has their positions and is valid
  -- throughout, the stream is behind them, and the other pages, the counters and the size are as
  -- before.
  pub load_page-three :
      (p : Pcb) (page_index : ℕ) (m m0 : Array Slot) (start : ℕ) (a b c rest : CString)
      → frame_alloc frame_store_size var_store_size (decimal p.pid) m ≡ some (start, m0)
      → NextThree p.source_file a b c rest
      → (q : Pcb) × (m' : Array Slot) × (load_page frame_store_size var_store_size p page_index m
          ≡ some (q, m'))
        × IsLoaded p page_index start a b c q m'
  unfolding load_page mem_set_value_at
  load_page-three p page_index m m0 start a b c rest e n =
      let l : Load = record {
        page = place_page start (p.page_table page_index);
        memory = m0;
        file = p.source_file;
      } in
      let done = put_three (decimal p.pid) a b c l in
      let r = with_load page_index p done in
      (
        r.0,
        r.1,
        rw (e, load_lines-three (decimal p.pid) l a b c rest n),
        record {
          positions = λ j h. ground arith;
          valid = λ j h. ground arith;
          first = ground arith;
          second = ground arith;
          third = ground arith;
          stream = refl;
          others = λ k h. ground arith;
          rest = (refl, refl);
        },
      )
