-- ===== src/A2/Memory.antt =====
-- a2/shellmemory.c: the array `shellmemory`, its slots below THRESHOLD for frames of three lines and
-- the next VARMEMSIZE for variables, and the clock of the replacement policy. The build sets both
-- sizes. The loader and the replacement policy are in A2/Paging.
pub mod Store
use mcgill_ecse_427_operatin.Prelude.{
  ℕ, zero, suc, ◌+◌, ◌-◌, refl, Bool, ltb, Option, CString, str_eq, Array, update, map_range,
  count_range, if◌then◌else◌, List, [], ◌∷◌,
}
use mcgill_ecse_427_operatin.Prelude.Int.{ℤ, pos, negsuc}
use mcgill_ecse_427_operatin.VarStore.Slots.{SlotOps, none_text, set_value, get_value}

pub record Slot : Type 0 where
  pub var : CString
  pub value : CString
  pub last_used : ℕ

abbrev pub slot_ops : SlotOps Slot
slot_ops = record {
  var = λ s. s.var;
  value = λ s. s.value;
  put_value = λ v s. record s { value = v };
  put_entry = λ k v s. record s { var = k; value = v };
  var-put_value = λ v s. refl;
  value-put_value = λ v s. refl;
  var-put_entry = λ k v s. refl;
  value-put_entry = λ k v s. refl;
}

pub record ShellMemory : Type 0 where
  pub slots : Array Slot
  pub timer : ℕ

abbrev pub frame_size : ℕ
frame_size = 3

-- `strcmp(shellmemory[i].var, "none") == 0`.
abbrev pub is_free : Array Slot → ℕ → Bool
is_free m i = str_eq (m i).var none_text

-- A slot that an eviction or `mem_free_lines_between` leaves.
abbrev pub evicted_slot : Slot
evicted_slot = record { var = none_text; value = none_text; last_used = 0 }

-- Lines `start` to `last`, both included, that lie in the array.
abbrev mem_free_lines_between : ℕ → ℕ → ℕ → Array Slot → Array Slot
mem_free_lines_between size start last m =
    map_range start ((if ltb last size then last + 1 else size) - start) (λ _. evicted_slot) m

unfoldable pub increment_lastused : ℕ → ℤ → ShellMemory → ShellMemory
increment_lastused threshold (negsuc n) m = record m { timer = m.timer + 1 }
increment_lastused threshold (pos n) m = record m {
  timer = m.timer + 1;
  slots =
      if ltb n threshold
      then update m.slots n (record (m.slots n) { last_used = m.timer + 1 })
      else m.slots;
}

-- What `mem_get_value_at_line` returns: a null pointer, a line, or the read of the slot behind the
-- last one that its guard lets through.
pub data Fetched : Type 0 where
  null out_of_bounds : Fetched
  line : CString → Fetched

-- What `printShellMemory` prints: the used entries with their positions, and three totals.
pub record Listing : Type 0 where
  pub lines : List (ℕ × Slot)
  pub total : ℕ
  pub in_use : ℕ
  pub free : ℕ

abbrev used_lines : Array Slot → ℕ → ℕ → List (ℕ × Slot)
used_lines m i zero = []
used_lines m i (suc n) =
    let rest = used_lines m (i + 1) n in if is_free m i then rest else (i, m i) ∷ rest

-- What `printFrameStore` prints: each slot of the frame store.
abbrev print_frame_store : Array Slot → ℕ → ℕ → List (ℕ × Slot)
print_frame_store m i zero = []
print_frame_store m i (suc n) = (i, m i) ∷ print_frame_store m (i + 1) n

module _ (threshold varmemsize : ℕ) where
  unfoldable pub mem_init : ShellMemory → ShellMemory
  mem_init m = record m {
    slots =
        map_range 0 (varmemsize + threshold)
          (λ _. record { var = none_text; value = none_text; last_used = m.timer }) m.slots;
  }

  unfoldable pub variable_store_mem_init : ShellMemory → ShellMemory
  variable_store_mem_init m = record m {
    slots =
        map_range threshold varmemsize (λ s. record s { var = none_text; value = none_text })
          m.slots;
  }

  unfoldable pub mem_set_value : CString → CString → ShellMemory → ShellMemory
  mem_set_value k v m = record m { slots = set_value slot_ops threshold varmemsize k v m.slots }

  unfoldable pub mem_get_value : CString → ShellMemory → Option CString
  mem_get_value k m = get_value slot_ops threshold varmemsize k m.slots

  unfoldable pub mem_get_value_at_line : ℤ → ShellMemory → Fetched
  mem_get_value_at_line (negsuc n) m = null
  mem_get_value_at_line (pos n) m =
      if ltb (varmemsize + threshold) n
      then null
      else if ltb n (varmemsize + threshold)
      then line (m.slots n).value
      else out_of_bounds

  unfoldable pub print_shell_memory : ShellMemory → Listing
  print_shell_memory m =
      let size = varmemsize + threshold in
      let count_empty = count_range (is_free m.slots) 0 size in
      record {
        lines = used_lines m.slots 0 size;
        total = size;
        in_use = size - count_empty;
        free = count_empty;
      }
