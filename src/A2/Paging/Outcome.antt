-- ===== src/A2/Paging/Outcome.antt =====
-- What the loader returns: the code 0 and a new entry of the page table if there was text left, and
-- the code 21 with the page table as it was if not. `handle_page_fault` of a2/kernel.c reads the code.
use mcgill_ecse_427_operatin.Prelude.{
  ℕ, ◌+◌, ◌/◌, ◌≤◌, ◌<◌, ◌≡◌, ◌≢◌, refl, ap, ◌∙◌, inl, inr, Bool, true, false, if◌then◌else◌,
  Option, some, [], ◌∷◌, CString, Array, update, update_self, arith, Bool-cases, ◌&&◌, not,
}
use mcgill_ecse_427_operatin.Prelude.Int.{ℤ, pos}
use mcgill_ecse_427_operatin.Prelude.Stdio.{
  Stream, remaining, fgets, Read, at_end, a_line, fgets-Read,
}
use mcgill_ecse_427_operatin.A2.Memory.{frame_size}
use mcgill_ecse_427_operatin.A2.Pcb.{page_table_size}
use mcgill_ecse_427_operatin.A2.Paging.{Pager, Loading, store_line, load_loop, load_at, no_space}
use mcgill_ecse_427_operatin.A2.Paging.Load.{load_loop-no_error, load_loop-page_table}
use mcgill_ecse_427_operatin.A2.Paging.Rounds.{
  line_slot, load_loop-round, load_loop-pads, first_line,
}
use mcgill_ecse_427_operatin.A2.Paging.Page.{start}

abbrev is_nil : CString → Bool
is_nil [] = true
is_nil (c ∷ s) = false

-- Some byte is left to read.
abbrev pub has_text : Stream → Bool
has_text f = not f.at_eof && not (is_nil (remaining f))

has_text-end : (f : Stream) → remaining f ≡ [] → has_text f ≡ false
has_text-end f e = ground arith

pub has_text-more :
    (f : Stream) (s : CString) → f.at_eof ≡ false → remaining f ≡ s → s ≢ [] → has_text f ≡ true
has_text-more f [] more e ne = absurd (ne refl)
has_text-more f (c ∷ s) more e ne = ground arith

has_text-eof : (f : Stream) → f.at_eof ≡ true → has_text f ≡ false
has_text-eof f e = ground arith

pair_eq : (r : Option CString × Stream) {l : CString} → r.0 ≡ some l → r ≡ (some l, r.1)
pair_eq (a, b) e = rw e

-- What a load of page `n` into the frame that starts at slot `i` returns.
pub record Outcome (fp : Stream) (n i : ℕ) (t : Array ℤ) (code : ℕ) (t' : Array ℤ) : Type 0 where
  pub result : code ≡ (if has_text fp then 0 else no_space)
  pub entry : t' ≡ (if has_text fp then update t n (pos (i / frame_size)) else t)

pub Outcome-text :
    {fp : Stream} {n i code : ℕ} {t t' : Array ℤ}
    → Outcome fp n i t code t'
    → has_text fp ≡ true
    → (code ≡ 0) × (t' n ≡ pos (i / frame_size))
Outcome-text {n} {i} {t} o h = (
  o.result ∙ ap (λ b. if b then 0 else no_space) h,
  ap (λ (a : Array ℤ). a n)
        (o.entry ∙ ap (λ b. if b then update t n (pos (i / frame_size)) else t) h)
      ∙ update_self t n (pos (i / frame_size)),
)

module _ (threshold varmemsize : ℕ) (filename : CString) (page_num i : ℕ) (t : Array ℤ)
    (fp : Stream) (p : Pager) (small : page_num < page_table_size) where
  abbrev timer : ℕ
  timer = p.memory.timer

  abbrev s0 : Loading
  s0 = start threshold varmemsize filename page_num i t fp p small

  ended_now :
      fp.at_eof ≡ true
      → i < threshold
      → (let l = load_at threshold varmemsize filename page_num i t fp p in
          Outcome fp page_num i t l.error_code l.page_table)
  unfolding load_at
  ended_now e h =
      let none_left = has_text-eof fp e in
      rw (load_loop-pads threshold varmemsize filename timer page_num i 3 i s0 e (omega arith))
        (record { result = simp none_left; entry = simp none_left })

  not_ended :
      fp.at_eof ≡ false
      → i < threshold
      → Read fp (fgets (varmemsize + threshold) fp)
      → (let l = load_at threshold varmemsize filename page_num i t fp p in
          Outcome fp page_num i t l.error_code l.page_table)
  unfolding load_at
  not_ended e h (at_end empty nothing flag) =
      let none_left = has_text-end fp empty in
      let f = (fgets (varmemsize + threshold) fp).1 in
      let s1 : Loading = record s0 { file = f } in
      let run =
        load_loop-round threshold varmemsize filename timer page_num i 3 i s0 e h (omega arith)
          (omega arith)
        ∙ ap
            (λ r.
              load_loop threshold varmemsize 3 filename timer page_num i (i + 1)
                (store_line filename timer page_num i i s0 r f))
            nothing
        ∙ load_loop-pads threshold varmemsize filename timer page_num i 2 (i + 1) s1 flag
            (omega arith) in
      rw run (record { result = simp none_left; entry = simp none_left })
  not_ended e h (a_line c l text got moved) =
      let some_left = has_text-more fp (remaining fp) e refl text in
      let read = fgets (varmemsize + threshold) fp in
      let s1 : Loading = record {
        slots = update p.memory.slots i (line_slot filename (c ∷ l) timer);
        file = read.1;
        page_table = update t page_num (pos (i / frame_size));
        error_code = 0;
        report = [];
      } in
      rw
        (first_line threshold varmemsize filename timer page_num i 3 s0 (c ∷ l) read.1 e h small
          (pair_eq read got))
        (record {
          result =
              simp some_left (
                load_loop-no_error threshold varmemsize filename timer page_num i 3 (i + 1) s1
                  refl);
          entry = simp some_left (
              load_loop-page_table threshold varmemsize filename timer page_num i 3 (i + 1) s1
                (omega arith) (omega arith));
        })

  -- For a page number inside the table and a page that starts in the frame store, with a line buffer
  -- of at least two bytes, the loader returns 0 and enters the frame in the page table if some byte
  -- of the script is left to read, and returns 21 with the page table as it was if not.
  pub load_at-Outcome :
      i < threshold
      → 2 ≤ varmemsize + threshold
      → (let l = load_at threshold varmemsize filename page_num i t fp p in
          Outcome fp page_num i t l.error_code l.page_table)
  load_at-Outcome h h' = elim (Bool-cases fp.at_eof) [
    | inl e ↦ ended_now e h
    | inr e ↦ not_ended e h (fgets-Read (varmemsize + threshold) fp h')
  ]
