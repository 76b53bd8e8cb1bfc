-- ===== src/A1/Memory/Store.antt =====
-- The 1000 slots of a1 as a map.
use mcgill_ecse_427_operatin.Prelude.{
  ◌≡◌, ◌≢◌, ap, ◌||◌, Bool, if◌then◌else◌, CString, Array, Bool-cases, inl, inr,
}
use mcgill_ecse_427_operatin.VarStore.Slots.{none_text, has_var}
use mcgill_ecse_427_operatin.VarStore.Laws.{get-set_self, get-set_ne}
use mcgill_ecse_427_operatin.A1.Memory.{
  Slot, slot_ops, memory_size, mem_set_value, mem_get_value, missing_text, or_text,
}

-- Some slot is named `k`.
abbrev pub stores : CString → Array Slot → Bool
stores k m = has_var slot_ops 0 memory_size k m

-- After `set k v` the variable `k` reads as `v` if it was there or a slot was free, and as missing
-- if not; every other variable but the one named "none" reads as before.
pub mem_set_value-lookup :
    (k v : CString) (m : Array Slot)
    → (let m' = mem_set_value k v m in
        (mem_get_value k m' ≡ (if stores k m || stores none_text m then v else missing_text))
        × ((j : CString) → j ≢ k → j ≢ none_text → mem_get_value j m' ≡ mem_get_value j m))
unfolding mem_set_value mem_get_value
mem_set_value-lookup k v m = (
  elim (Bool-cases (stores k m || stores none_text m)) [
    | inl e ↦ rw (get-set_self slot_ops 0 memory_size k v m, e)
    | inr e ↦ rw (get-set_self slot_ops 0 memory_size k v m, e)
  ],
  (λ j ne ne'. ap (λ o. or_text o missing_text) (get-set_ne slot_ops 0 memory_size j k v m ne ne')),
)
