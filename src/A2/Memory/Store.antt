-- ===== src/A2/Memory/Store.antt =====
-- The variable store of a2 as a map, and its separation from the frame store.
use mcgill_ecse_427_operatin.Prelude.{
  ℕ, ◌+◌, ◌≤◌, ◌<◌, ◌≡◌, ◌≢◌, refl, ap, ◌||◌, Bool, none, some, inl, if◌then◌else◌, CString, arith,
  map_range-inside, map_range-outside,
}
use mcgill_ecse_427_operatin.VarStore.Slots.{none_text, has_var}
use mcgill_ecse_427_operatin.VarStore.Laws.{
  get-set_self, get-set_ne, set_value-outside, get_value-free,
}
use mcgill_ecse_427_operatin.VarStore.Distinct.{Distinct, set_value-Distinct}
use mcgill_ecse_427_operatin.A2.Memory.{
  Slot, slot_ops, ShellMemory, mem_init, variable_store_mem_init, mem_set_value, mem_get_value,
}

module _ (threshold varmemsize : ℕ) where
  -- Some slot of the variable store is named `k`.
  abbrev pub stores : CString → ShellMemory → Bool
  stores k m = has_var slot_ops threshold varmemsize k m.slots

  -- After `set k v` the variable `k` has the value `v` if it was there or a slot was free, and is
  -- missing if not; every other variable but the one named "none" reads as before; the frame store
  -- and the clock are untouched.
  pub mem_set_value-map :
      (k v : CString) (m : ShellMemory)
      → (let m' = mem_set_value threshold varmemsize k v m in
          (mem_get_value threshold varmemsize k m'
            ≡ (if stores k m || stores none_text m then some v else none))
          × ((j : CString)
              → j ≢ k
              → j ≢ none_text
              → mem_get_value threshold varmemsize j m' ≡ mem_get_value threshold varmemsize j m)
          × ((i : ℕ) → i < threshold → m'.slots i ≡ m.slots i)
          × (m'.timer ≡ m.timer))
  unfolding mem_set_value mem_get_value
  mem_set_value-map k v m = (
    get-set_self slot_ops threshold varmemsize k v m.slots,
    (λ j ne ne'. get-set_ne slot_ops threshold varmemsize j k v m.slots ne ne'),
    (λ i h. set_value-outside slot_ops threshold varmemsize k v m.slots i (inl h)),
    refl,
  )

  -- No variable ever has two slots.
  abbrev pub IsDistinct : ShellMemory → Type 0
  IsDistinct m = Distinct slot_ops threshold varmemsize m.slots

  -- If no two used slots of the variable store have one name, then so it is after a variable was
  -- set.
  pub mem_set_value-IsDistinct :
      (k v : CString) (m : ShellMemory)
      → IsDistinct m
      → IsDistinct (mem_set_value threshold varmemsize k v m)
  unfolding mem_set_value
  mem_set_value-IsDistinct k v m d = set_value-Distinct slot_ops threshold varmemsize k v m.slots d

  -- After `resetmem` every variable but the one named "none" is missing, and the frame store is as
  -- it was.
  variable_store_mem_init-empty :
      (k : CString) (m : ShellMemory)
      → k ≢ none_text
      → (let m' = variable_store_mem_init threshold varmemsize m in
          (mem_get_value threshold varmemsize k m' ≡ none)
          × ((i : ℕ) → i < threshold → m'.slots i ≡ m.slots i))
  unfolding variable_store_mem_init mem_get_value
  variable_store_mem_init-empty k m ne =
      let reset = λ (s : Slot). slot_ops.put_entry none_text none_text s in
      (
        get_value-free slot_ops threshold varmemsize k _ ne (λ l a b.
            ap (λ (s : Slot). s.var) (map_range-inside threshold varmemsize reset m.slots l a b)),
        (λ i h. map_range-outside threshold varmemsize reset m.slots i (inl h)),
      )

  -- After `mem_init` every variable but the one named "none" is missing, and no two used slots of
  -- the variable store have one name.
  mem_init-empty :
      (k : CString) (m : ShellMemory)
      → k ≢ none_text
      → (let m' = mem_init threshold varmemsize m in
          (mem_get_value threshold varmemsize k m' ≡ none) × IsDistinct m')
  unfolding mem_init mem_get_value
  mem_init-empty k m ne =
      let reset =
        λ (s : Slot). record s { var = none_text; value = none_text; last_used = m.timer } in
      let all_free = λ (l : ℕ) (a : threshold ≤ l) (b : l < threshold + varmemsize).
        ap (λ (s : Slot). s.var)
          (map_range-inside 0 (varmemsize + threshold) reset m.slots l (omega arith)
            (omega arith)) in
      (
        get_value-free slot_ops threshold varmemsize k _ ne all_free,
        (λ a b la ua lb ub same named. absurd (named (all_free a la ua))),
      )
