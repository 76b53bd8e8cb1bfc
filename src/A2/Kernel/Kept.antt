-- ===== src/A2/Kernel/Kept.antt =====
-- What the loading of a page leaves of the processes that wait in the ready queue.
use mcgill_ecse_427_operatin.Prelude.{
  ℕ, ◌≡◌, refl, ap, ◌∙◌, ◌⊎◌, inl, inr, ◌==◌, Bool-cases, List, [], ◌∷◌, CString, Array, update,
  scan-cases,
}
use mcgill_ecse_427_operatin.Prelude.Int.{ℤ, minus_one}
use mcgill_ecse_427_operatin.Prelude.Stdio.{Stream}
use mcgill_ecse_427_operatin.A2.Memory.{is_free}
use mcgill_ecse_427_operatin.A2.Pcb.{Pcb, page_table_size}
use mcgill_ecse_427_operatin.A2.Paging.{
  Pager, forget_in_queue, names_frame, pick_victim_frame, load_evicting, load_page_into_frame_store,
}

-- Each entry of the page table is as it was or -1, and all else of the block is as it was.
abbrev KeptBlock : Pcb → Pcb → Type 0
KeptBlock p q =
    (q ≡ record p { page_table = q.page_table })
    × ((k : ℕ) → (q.page_table k ≡ p.page_table k) ⊎ (q.page_table k ≡ minus_one))

-- The same blocks in the same order, each kept.
abbrev pub KeptBlocks : List Pcb → List Pcb → Type 0
KeptBlocks [] [] = Unit {0}
KeptBlocks [] (q ∷ qs) = ⊥
KeptBlocks (p ∷ ps) [] = ⊥
KeptBlocks (p ∷ ps) (q ∷ qs) = KeptBlock p q × KeptBlocks ps qs

KeptBlocks-refl : (ps : List Pcb) → KeptBlocks ps ps
KeptBlocks-refl [] = tt
KeptBlocks-refl (p ∷ ps) = ((refl, λ k. inl refl), KeptBlocks-refl ps)

KeptBlock-trans : (p q r : Pcb) → KeptBlock p q → KeptBlock q r → KeptBlock p r
KeptBlock-trans p q r a b = (
  b.0 ∙ ap (λ (x : Pcb). record x { page_table = r.page_table }) a.0,
  λ k. elim (b.1 k) [
    | inl e ↦ elim (a.1 k) [ inl e' ↦ inl (e ∙ e') | inr e' ↦ inr (e ∙ e') ]
    | inr e ↦ inr e
  ],
)

pub KeptBlocks-trans :
    (ps qs rs : List Pcb) → KeptBlocks ps qs → KeptBlocks qs rs → KeptBlocks ps rs
KeptBlocks-trans [] [] [] a b = tt
KeptBlocks-trans [] [] (r ∷ rs) a b = absurd b
KeptBlocks-trans [] (q ∷ qs) rs a b = absurd a
KeptBlocks-trans (p ∷ ps) [] rs a b = absurd a
KeptBlocks-trans (p ∷ ps) (q ∷ qs) [] a b = absurd b
KeptBlocks-trans (p ∷ ps) (q ∷ qs) (r ∷ rs) a b =
    (KeptBlock-trans p q r a.0 b.0, KeptBlocks-trans ps qs rs a.1 b.1)

forgotten :
    (t : Array ℤ) (i k : ℕ) → (update t i minus_one k ≡ t k) ⊎ (update t i minus_one k ≡ minus_one)
forgotten t i k = elim (Bool-cases (i == k)) [ inl e ↦ inr (rw e refl) | inr e ↦ inl (rw e refl) ]

forget_in_queue-Kept : (v : ℕ) (ps : List Pcb) → KeptBlocks ps (forget_in_queue v ps)
unfolding forget_in_queue
forget_in_queue-Kept v [] = tt
forget_in_queue-Kept v (p ∷ ps) = elim (scan-cases (names_frame v p.page_table) 0 page_table_size) [
  | inl (e, miss) ↦ rw e ((refl, λ k. inl refl), forget_in_queue-Kept v ps)
  | inr (i, e, f) ↦ rw e ((refl, forgotten p.page_table i), KeptBlocks-refl ps)
]

module _ (threshold varmemsize : ℕ) where
  -- Loading a page keeps the waiting processes, also where it evicts a frame.
  pub load-Kept :
      (fp : Stream) (filename : CString) (t : Array ℤ) (n : ℕ) (p : Pager)
      → KeptBlocks p.queue
          (load_page_into_frame_store threshold varmemsize fp filename t n p).1.queue
  unfolding load_page_into_frame_store load_evicting pick_victim_frame
  load-Kept fp filename t n p = elim (scan-cases (is_free p.memory.slots) 0 threshold) [
    | inr (i, e, f) ↦ rw e (KeptBlocks-refl p.queue)
    | inl (e, miss) ↦ elim (Bool-cases fp.at_eof) [
      | inl ended ↦ rw (e, ended) (KeptBlocks-refl p.queue)
      | inr more ↦ rw (e, more) (forget_in_queue-Kept _ p.queue)
    ]
  ]
