-- ===== src/A1/Memory.antt =====
-- a1/shellmemory.c: the array `shellmemory` of 1000 slots, all of them for variables.
pub mod Store
use mcgill_ecse_427_operatin.Prelude.{
  ℕ, refl, Option, none, some, CString, codes, Array, map_range, [], ◌∷◌, ◌==◌, if◌then◌else◌,
}
use mcgill_ecse_427_operatin.VarStore.Slots.{SlotOps, none_text, set_value, get_value}

pub record Slot : Type 0 where
  pub var : CString
  pub value : CString

abbrev pub slot_ops : SlotOps Slot
slot_ops = record {
  var = λ s. s.var;
  value = λ s. s.value;
  put_value = λ v s. record s { value = v };
  put_entry = λ k v s. record { var = k; value = v };
  var-put_value = λ v s. refl;
  value-put_value = λ v s. refl;
  var-put_entry = λ k v s. refl;
  value-put_entry = λ k v s. refl;
}

abbrev pub memory_size : ℕ
memory_size = 1000

abbrev pub free_slot : Slot
free_slot = record { var = none_text; value = none_text }

abbrev pub mem_init : Array Slot → Array Slot
mem_init m = map_range 0 memory_size (λ _. free_slot) m

unfoldable pub mem_set_value : CString → CString → Array Slot → Array Slot
mem_set_value k v m = set_value slot_ops 0 memory_size k v m

abbrev pub missing_text : CString
missing_text = codes "Variable does not exist"

abbrev pub or_text : Option CString → CString → CString
or_text none d = d
or_text (some v) d = v

unfoldable pub mem_get_value : CString → Array Slot → CString
mem_get_value k m = or_text (get_value slot_ops 0 memory_size k m) missing_text

-- The bytes behind the first `=`.
abbrev extract : CString → CString
extract [] = []
extract (c ∷ s) = if c == b'=' then s else extract s
