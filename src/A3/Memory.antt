-- ===== src/A3/Memory.antt =====
-- a3/shellmemory.c: the array `shellmemory`, its slots below FRAME_STORE_SIZE for frames of three
-- lines and the next VAR_STORE_SIZE for variables. The build sets both sizes.
pub mod Frames
pub mod Store
use mcgill_ecse_427_operatin.Prelude.{
  ℕ, zero, suc, ◌+◌, ◌-◌, refl, Bool, true, false, not, ltb, Option, none, some, CString, codes,
  str_eq, Array, update, scan, map_range, count_range, if◌then◌else◌, List, [], ◌∷◌,
}
use mcgill_ecse_427_operatin.VarStore.Slots.{SlotOps, none_text, set_value, get_value}

pub record Slot : Type 0 where
  pub var : CString
  pub value : CString

abbrev pub slot_ops : SlotOps Slot
slot_ops = record {
  var = λ s. s.var;
  value = λ s. s.value;
  put_value = λ v s. record s { value = v };
  put_entry = λ k v s. record { var = k; value = v };
  var-put_value = λ v s. refl;
  value-put_value = λ v s. refl;
  var-put_entry = λ k v s. refl;
  value-put_entry = λ k v s. refl;
}

abbrev pub free_slot : Slot
free_slot = record { var = none_text; value = none_text }

-- `strcmp(shellmemory[i].var, "none") == 0`.
abbrev pub is_free : Array Slot → ℕ → Bool
is_free m i = str_eq (m i).var none_text

-- The default of `mem_get_value` for its two callers, 'p' (print) and 'e' (echo).
pub data Caller : Type 0 where
  print echo : Caller

abbrev pub missing_text : Caller → CString
missing_text print = codes "Variable does not exist"
missing_text echo = []

abbrev pub or_text : Option CString → CString → CString
or_text none d = d
or_text (some v) d = v

abbrev pub frame_size : ℕ
frame_size = 3

abbrev pub mem_free_at : ℕ → Array Slot → Array Slot
mem_free_at pos m = update m pos free_slot

-- The three slots at a position.
unfoldable pub clear_frame : ℕ → Array Slot → Array Slot
clear_frame start m = map_range start frame_size (λ _. free_slot) m

unfoldable pub mem_set_value_at : ℕ → CString → CString → Array Slot → Array Slot
mem_set_value_at pos pid line m = update m pos (record { var = pid; value = line })

abbrev pub mem_get_value_at : ℕ → Array Slot → CString
mem_get_value_at pos m = (m pos).value

-- What `printShellMemory` prints: the used entries with their positions, and three totals.
pub record Listing : Type 0 where
  pub lines : List (ℕ × Slot)
  pub total : ℕ
  pub in_use : ℕ
  pub free : ℕ

abbrev used_lines : Array Slot → ℕ → ℕ → List (ℕ × Slot)
used_lines m i zero = []
used_lines m i (suc n) =
    let rest = used_lines m (i + 1) n in if is_free m i then rest else (i, m i) ∷ rest

module _ (frame_store_size var_store_size : ℕ) where
  unfoldable pub print_shell_memory : Array Slot → Listing
  print_shell_memory m =
      let size = frame_store_size + var_store_size in
      let count_empty = count_range (is_free m) 0 size in
      record {
        lines = used_lines m 0 size;
        total = size;
        in_use = size - count_empty;
        free = count_empty;
      }

  abbrev pub mem_init : Array Slot → Array Slot
  mem_init m = map_range 0 (frame_store_size + var_store_size) (λ _. free_slot) m

  unfoldable pub mem_set_value : CString → CString → Array Slot → Array Slot
  mem_set_value k v m = set_value slot_ops frame_store_size var_store_size k v m

  unfoldable pub mem_get_value : CString → Caller → Array Slot → CString
  mem_get_value k caller m =
      or_text (get_value slot_ops frame_store_size var_store_size k m) (missing_text caller)

  unfoldable pub reset_var_zone : Array Slot → Array Slot
  reset_var_zone m = map_range frame_store_size var_store_size (λ _. free_slot) m

  -- The inner loop of `frame_alloc`: `j` stops at a slot in use, at `i + 3`, or at the border; it
  -- reached `i + 3` where the result is `true`.
  abbrev fits_from : Array Slot → ℕ → ℕ → Bool
  fits_from m zero j = true
  fits_from m (suc k) j =
      if not (ltb j frame_store_size)
      then false
      else if is_free m j
      then fits_from m k (j + 1)
      else false

  unfoldable pub fits : Array Slot → ℕ → Bool
  fits m i = fits_from m frame_size i

  abbrev pub occupy : CString → ℕ → Array Slot → Array Slot
  occupy pid i m = map_range i frame_size (λ s. record s { var = pid }) m

  abbrev occupied : CString → Array Slot → Option ℕ → Option (ℕ × Array Slot)
  occupied pid m none = none
  occupied pid m (some i) = some (i, occupy pid i m)

  -- The first position with three free slots is marked with the process's id. The result is that
  -- position, where `index` becomes `i, i + 1, i + 2` and the valid bits 0, or `none` for the code 1.
  unfoldable pub frame_alloc : CString → Array Slot → Option (ℕ × Array Slot)
  frame_alloc pid m = occupied pid m (scan (fits m) 0 frame_store_size)
