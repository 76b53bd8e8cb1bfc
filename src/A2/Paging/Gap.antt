-- ===== src/A2/Paging/Gap.antt =====
-- The end of a script inside a page: a read that finds no line skips its slot, which stays free.
use mcgill_ecse_427_operatin.Prelude.{
  ℕ, ◌+◌, ◌/◌, ◌%◌, ◌≤◌, ◌<◌, ◌≡◌, ◌≢◌, ap, ◌∙◌, true, false, [], ◌∷◌, ◌++◌, CString, Array, update,
  scan-first, IsFirst, arith, str_eq_iff,
}
use mcgill_ecse_427_operatin.Prelude.Int.{ℤ, pos}
use mcgill_ecse_427_operatin.Prelude.Stdio.{
  Stream, newline, remaining, length, fgets, at_end, a_line, fgets-Read,
}
use mcgill_ecse_427_operatin.Prelude.Stdio.Lines.{
  NoNewline, line_of, advance, fgets-line, remaining-line,
}
use mcgill_ecse_427_operatin.VarStore.Slots.{none_text}
use mcgill_ecse_427_operatin.A2.Memory.{Slot, frame_size, is_free}
use mcgill_ecse_427_operatin.A2.Pcb.{page_table_size}
use mcgill_ecse_427_operatin.A2.Paging.{
  Pager, Loading, store_line, load_loop, load_at, load_page_into_frame_store, finish,
}
use mcgill_ecse_427_operatin.A2.Paging.Rounds.{
  line_slot, padding_slot, load_loop-round, load_loop-pads, pad-one, first_line,
}
use mcgill_ecse_427_operatin.A2.Paging.Page.{start}
use mcgill_ecse_427_operatin.A2.Paging.Outcome.{
  has_text, has_text-more, load_at-Outcome, Outcome-text,
}

-- What is left of the script is one line, which ends in a newline.
pub record OneLine (size : ℕ) (fp : Stream) (w : CString) : Type 0 where
  pub more : fp.at_eof ≡ false
  pub text : remaining fp ≡ w ++ (newline ∷ [])
  pub fits : NoNewline w × (length w + 1 < size)

module _ (threshold varmemsize : ℕ) (filename : CString) (page_num i : ℕ) (t : Array ℤ)
    (fp : Stream) (p : Pager) (small : page_num < page_table_size) where
  -- The line takes the first slot, padding the third, and the second slot is left out.
  load_at-OneLine :
      (w : CString)
      → OneLine (varmemsize + threshold) fp w
      → i + frame_size ≤ threshold
      → 2 ≤ varmemsize + threshold
      → (load_at threshold varmemsize filename page_num i t fp p).slots
        ≡ update
            (update p.memory.slots i (line_slot filename (line_of w) p.memory.timer))
            (i + 1 + 1)
            (padding_slot filename)
  unfolding load_at
  load_at-OneLine w l h h' =
      let size = varmemsize + threshold in
      let timer = p.memory.timer in
      let s0 = start threshold varmemsize filename page_num i t fp p small in
      let f1 = advance (length (line_of w)) fp in
      let e1 = fgets-line size fp w l.fits.0 l.fits.1 _ l.text in
      let r1 = remaining-line size fp w l.fits.0 l.fits.1 _ l.text in
      let s1 : Loading = record {
        slots = update p.memory.slots i (line_slot filename (line_of w) timer);
        file = f1;
        page_table = update t page_num (pos (i / frame_size));
        error_code = 0;
        report = [];
      } in
      elim (fgets-Read size f1 h') [
        | a_line c k text got moved ↦ absurd (text r1)
        | at_end empty nothing flag ↦
            let s2 : Loading = record s1 { file = (fgets size f1).1 } in
            ap (λ (s : Loading). s.slots)
              (first_line threshold varmemsize filename timer page_num i 3 s0 (line_of w) f1 l.more
                  (omega arith) small e1
                ∙ load_loop-round threshold varmemsize filename timer page_num i 2 (i + 1) s1 l.more
                    (omega arith) (omega arith) (omega arith)
                ∙ ap
                    (λ r.
                      load_loop threshold varmemsize 2 filename timer page_num i (i + 1 + 1)
                        (store_line filename timer page_num i (i + 1) s1 r (fgets size f1).1))
                    nothing
                ∙ load_loop-pads threshold varmemsize filename timer page_num i 1 (i + 1 + 1) s2
                    flag (omega arith)
                ∙ ap (λ (m : Array Slot). record s2 { slots = m })
                    (pad-one threshold varmemsize filename timer page_num i s1.slots))
      ]

line_of-ne-nil : (w : CString) → line_of w ≢ []
line_of-ne-nil [] e = cc
line_of-ne-nil (c ∷ w) e = cc

same_frame : (i : ℕ) → i % frame_size ≡ 0 → (i + 1) / frame_size ≡ i / frame_size
same_frame i h = omega arith

-- A free slot at the start of frame `i / 3`, with its neighbour free too, is where the next page goes.
pub record NextHole (threshold : ℕ) (p : Pager) (i : ℕ) : Type 0 where
  pub aligned : i % frame_size ≡ 0
  pub inside : i + frame_size ≤ threshold
  pub hole : IsFirst (is_free p.memory.slots) 0 threshold i
  pub neighbour : is_free p.memory.slots (i + 1) ≡ true

module _ (threshold varmemsize : ℕ) where
  -- The loader at a known hole.
  load_page-at :
      (filename : CString) (n i : ℕ) (t : Array ℤ) (fp : Stream) (p : Pager)
      → IsFirst (is_free p.memory.slots) 0 threshold i
      → load_page_into_frame_store threshold varmemsize fp filename t n p
        ≡ finish threshold varmemsize p (load_at threshold varmemsize filename n i t fp p)
  unfolding load_page_into_frame_store
  load_page-at filename n i t fp p f = rw (scan-first _ 0 threshold i f)

  -- After the load of a one-line script the neighbour of its slot is the next hole.
  skipped_hole :
      (filename w : CString) (n i : ℕ) (t : Array ℤ) (fp : Stream) (p : Pager)
      → n < page_table_size
      → filename ≢ none_text
      → OneLine (varmemsize + threshold) fp w
      → NextHole threshold p i
      → IsFirst
          (is_free (load_at threshold varmemsize filename n i t fp p).slots)
          0
          threshold
          (i + 1)
  skipped_hole filename w n i t fp p small named l h =
      rw
        (load_at-OneLine threshold varmemsize filename n i t fp p small w l h.inside
          (omega (arith, h.inside, l.fits)))
        (record {
          lower = omega arith;
          upper = omega (arith, h.inside);
          hit = ground (arith, h.neighbour);
          before = λ j a b. ground (arith, h.hole.before j, str_eq_iff filename none_text);
        })

  -- A script not named "none" whose rest is one line ended by a newline that fits the buffer, loaded
  -- where the next hole is the start of a frame with its second slot free, and any script with text
  -- left loaded next: both loads return 0 and both page tables name the same frame, so the second
  -- process starts in the first one's page.
  pub OneLine-shares_frame :
      (first second w : CString) (i : ℕ) (t u : Array ℤ) (fp gp : Stream) (p : Pager)
      → first ≢ none_text
      → OneLine (varmemsize + threshold) fp w
      → has_text gp ≡ true
      → NextHole threshold p i
      → (let a = load_page_into_frame_store threshold varmemsize fp first t 0 p in
          let b = load_page_into_frame_store threshold varmemsize gp second u 0 a.1 in
          (a.0 ≡ 0) × (b.0 ≡ 0) × (a.2 0 ≡ pos (i / frame_size)) × (b.2 0 ≡ pos (i / frame_size)))
  OneLine-shares_frame first second w i t u fp gp p named l text h =
      let size_ok : 2 ≤ varmemsize + threshold = omega (arith, h.inside) in
      let la = load_at threshold varmemsize first 0 i t fp p in
      let pa = (finish threshold varmemsize p la).1 in
      let oa =
        load_at-Outcome threshold varmemsize first 0 i t fp p (omega arith)
          (omega (arith, h.inside)) size_ok in
      let hole = skipped_hole first w 0 i t fp p (omega arith) named l h in
      let ob =
        load_at-Outcome threshold varmemsize second 0 (i + 1) u gp pa (omega arith)
          (omega (arith, h.inside)) size_ok in
      let ra = Outcome-text oa (has_text-more fp (line_of w) l.more l.text (line_of-ne-nil w)) in
      let rb = Outcome-text ob text in
      rw (load_page-at first 0 i t fp p h.hole, load_page-at second 0 (i + 1) u gp pa hole)
        (ra.0, rb.0, ra.1, rb.1 ∙ ap pos (same_frame i h.aligned))
