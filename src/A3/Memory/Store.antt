-- ===== src/A3/Memory/Store.antt =====
-- The variable store of a3 as a map, beside the frame store.
use mcgill_ecse_427_operatin.Prelude.{
  ℕ, ◌<◌, ◌≡◌, ◌≢◌, ap, ◌||◌, Bool, inl, inr, if◌then◌else◌, CString, Array, Bool-cases,
}
use mcgill_ecse_427_operatin.VarStore.Slots.{none_text, has_var}
use mcgill_ecse_427_operatin.VarStore.Laws.{get-set_self, get-set_ne, set_value-outside}
use mcgill_ecse_427_operatin.A3.Memory.{
  Slot, Caller, missing_text, or_text, slot_ops, mem_set_value, mem_get_value,
}

module _ (frame_store_size var_store_size : ℕ) where
  -- Some slot of the variable store is named `k`.
  abbrev pub stores : CString → Array Slot → Bool
  stores k m = has_var slot_ops frame_store_size var_store_size k m

  -- After `set k v` the variable `k` reads as `v` if it was there or a slot was free, and for
  -- `print` and `echo` as their own text for a missing one if not; every other variable but the one
  -- named "none" reads as before, and the frame store is untouched.
  pub mem_set_value-reads :
      (k v : CString) (caller : Caller) (m : Array Slot)
      → (let m' = mem_set_value frame_store_size var_store_size k v m in
          (mem_get_value frame_store_size var_store_size k caller m'
            ≡ (if stores k m || stores none_text m then v else missing_text caller))
          × ((j : CString)
              → j ≢ k
              → j ≢ none_text
              → mem_get_value frame_store_size var_store_size j caller m'
                ≡ mem_get_value frame_store_size var_store_size j caller m)
          × ((i : ℕ) → i < frame_store_size → m' i ≡ m i))
  unfolding mem_set_value mem_get_value
  mem_set_value-reads k v caller m = (
    (elim (Bool-cases (stores k m || stores none_text m)) [
      | inl e ↦ rw (get-set_self slot_ops frame_store_size var_store_size k v m, e)
      | inr e ↦ rw (get-set_self slot_ops frame_store_size var_store_size k v m, e)
    ]),
    (λ j ne ne'.
        ap (λ o. or_text o (missing_text caller))
          (get-set_ne slot_ops frame_store_size var_store_size j k v m ne ne')),
    (λ i h. set_value-outside slot_ops frame_store_size var_store_size k v m i (inl h)),
  )
