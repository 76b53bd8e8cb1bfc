-- ===== src/A2/Paging/Load.antt =====
-- The loop of `load_page_into_frame_store` on one page.
use native.Mathlib.Nat.{suc-add}
use mcgill_ecse_427_operatin.Prelude.{
  ℕ, zero, suc, ◌+◌, ◌≤◌, ◌<◌, ◌≡◌, ◌≢◌, ◌⊎◌, refl, true, Option, none, some, CString, Array,
  update, update_ne, arith,
}
use mcgill_ecse_427_operatin.Prelude.Stdio.{Stream, fgets}
use mcgill_ecse_427_operatin.VarStore.Slots.{none_text}
use mcgill_ecse_427_operatin.A2.Memory.{Slot, frame_size}
use mcgill_ecse_427_operatin.A2.Paging.{Loading, store_line, pad, load_loop}

module _ (filename : CString) (i l : ℕ) (out : (l < i) ⊎ (i + frame_size ≤ l)) where
  pad-outside :
      (fuel j : ℕ) (m : Array Slot) → i ≤ j → j ≤ i + frame_size → pad fuel filename i j m l ≡ m l
  unfolding pad
  pad-outside zero j m h h' = refl
  pad-outside (suc fuel) j m h h' = ground (
    arith,
    pad-outside fuel (j + 1)
        (update m j (record { var = filename; value = none_text; last_used = 0 })),
  )

module _ (threshold varmemsize : ℕ) (filename : CString) (timer page_num i : ℕ) where
  store_line-outside :
      (j l : ℕ) (s : Loading) (r : Option CString) (f : Stream)
      → j ≢ l
      → (store_line filename timer page_num i j s r f).slots l ≡ s.slots l
  store_line-outside j l s none f ne = refl
  store_line-outside j l s (some text) f ne = update_ne s.slots j _ l ne

  store_line-no_error :
      (j : ℕ) (s : Loading) (r : Option CString) (f : Stream)
      → s.error_code ≡ 0
      → (store_line filename timer page_num i j s r f).error_code ≡ 0
  store_line-no_error j s none f e = e
  store_line-no_error j s (some text) f e = refl

  store_line-page_table :
      (j : ℕ) (s : Loading) (r : Option CString) (f : Stream)
      → i < j
      → j < i + frame_size
      → (store_line filename timer page_num i j s r f).page_table ≡ s.page_table
  store_line-page_table j s none f h h' = refl
  store_line-page_table j s (some text) f h h' = ground arith

  -- From any round of a page that starts at slot `i`, with any fuel, the loading loop and its
  -- padding leave every slot outside the three from `i` as it was.
  load_loop-outside :
      (l : ℕ)
      → (l < i) ⊎ (i + frame_size ≤ l)
      → (fuel j : ℕ) (s : Loading) → i ≤ j
      → j ≤ i + frame_size
      → (load_loop threshold varmemsize fuel filename timer page_num i j s).slots l ≡ s.slots l
  unfolding load_loop
  load_loop-outside l out zero j s h h' = refl
  load_loop-outside l out (suc fuel) j s h h' =
      let read = fgets (varmemsize + threshold) s.file in
      let s' = store_line filename timer page_num i j s read.0 read.1 in
      ground (
        arith,
        pad-outside filename i l out frame_size j s.slots h h',
        store_line-outside j l s read.0 read.1,
        load_loop-outside l out fuel (j + 1) s',
      )

  -- From slot `j` of a page that starts at `i`, with `j` at most `i + 3`, the loop has left after at
  -- most `i + 3 - j` rounds and one more: with fuel above that, more fuel changes nothing.
  pub load_loop-enough :
      (extra fuel j : ℕ) (s : Loading)
      → i ≤ j
      → j ≤ i + frame_size
      → i + frame_size < j + fuel
      → load_loop threshold varmemsize (fuel + extra) filename timer page_num i j s
        ≡ load_loop threshold varmemsize fuel filename timer page_num i j s
  unfolding load_loop
  load_loop-enough extra zero j s h h' k = absurd (omega arith)
  load_loop-enough extra (suc fuel) j s h h' k =
      let read = fgets (varmemsize + threshold) s.file in
      rw suc-add (
        ground (
          arith,
          load_loop-enough extra fuel (j + 1)
              (store_line filename timer page_num i j s read.0 read.1),
        ))

  -- A line that was read clears the error code for good.
  pub load_loop-no_error :
      (fuel j : ℕ) (s : Loading)
      → s.error_code ≡ 0
      → (load_loop threshold varmemsize fuel filename timer page_num i j s).error_code ≡ 0
  unfolding load_loop
  load_loop-no_error zero j s e = e
  load_loop-no_error (suc fuel) j s e =
      let read = fgets (varmemsize + threshold) s.file in
      let s' = store_line filename timer page_num i j s read.0 read.1 in
      ground (arith, store_line-no_error j s read.0 read.1, load_loop-no_error fuel (j + 1) s')

  -- After a read at the end the loop pads and leaves.
  load_loop-ended :
      (fuel j : ℕ) (s : Loading)
      → s.file.at_eof ≡ true
      → (load_loop threshold varmemsize fuel filename timer page_num i j s).error_code
        ≡ s.error_code
  unfolding load_loop
  load_loop-ended zero j s e = refl
  load_loop-ended (suc fuel) j s e = ground arith

  -- Behind the first line of a page the page table stays.
  pub load_loop-page_table :
      (fuel j : ℕ) (s : Loading)
      → i < j
      → j ≤ i + frame_size
      → (load_loop threshold varmemsize fuel filename timer page_num i j s).page_table
        ≡ s.page_table
  unfolding load_loop
  load_loop-page_table zero j s h h' = refl
  load_loop-page_table (suc fuel) j s h h' =
      let read = fgets (varmemsize + threshold) s.file in
      let s' = store_line filename timer page_num i j s read.0 read.1 in
      ground (arith, store_line-page_table j s read.0 read.1, load_loop-page_table fuel (j + 1) s')
