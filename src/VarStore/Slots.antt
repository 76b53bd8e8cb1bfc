-- ===== src/VarStore/Slots.antt =====
-- A slot as the code reads and writes it, and the two operations on a range of slots.
use mcgill_ecse_427_operatin.Prelude.{
  ℕ, ◌≡◌, Bool, Option, none, some, CString, codes, str_eq, Array, update, scan, is_some,
}

-- What the store does with a slot: it reads both fields, writes the value, or writes both.
pub record SlotOps (S : Type 0) : Type 0 where
  pub var : S → CString
  pub value : S → CString
  pub put_value : CString → S → S
  pub put_entry : CString → CString → S → S
  pub var-put_value : (v : CString) (s : S) → var (put_value v s) ≡ var s
  pub value-put_value : (v : CString) (s : S) → value (put_value v s) ≡ v
  pub var-put_entry : (k v : CString) (s : S) → var (put_entry k v s) ≡ k
  pub value-put_entry : (k v : CString) (s : S) → value (put_entry k v s) ≡ v

-- The mark of a free slot.
abbrev pub none_text : CString
none_text = codes "none"

-- The range starts at the index `lo` and has `n` slots.
module _ {S : Type 0} (o : SlotOps S) (lo n : ℕ) where
  -- `strcmp(shellmemory[i].var, k) == 0`.
  abbrev pub holds : CString → Array S → ℕ → Bool
  holds k m i = str_eq (o.var (m i)) k

  unfoldable pub find_var : CString → Array S → Option ℕ
  find_var k m = scan (holds k m) lo n

  abbrev write_found : CString → Array S → Option ℕ → Array S → Array S
  write_found v m none other = other
  write_found v m (some i) other = update m i (o.put_value v (m i))

  abbrev write_free : CString → CString → Array S → Option ℕ → Array S
  write_free k v m none = m
  write_free k v m (some i) = update m i (o.put_entry k v (m i))

  -- Overwrite the value of the first slot named `k`; else take the first free slot; else nothing.
  unfoldable pub set_value : CString → CString → Array S → Array S
  set_value k v m = write_found v m (find_var k m) (write_free k v m (find_var none_text m))

  abbrev read_found : Array S → Option ℕ → Option CString
  read_found m none = none
  read_found m (some i) = some (o.value (m i))

  -- `none` is the case that no slot is named `k`.
  unfoldable pub get_value : CString → Array S → Option CString
  get_value k m = read_found m (find_var k m)

  -- Whether some slot is named `k`.
  unfoldable pub has_var : CString → Array S → Bool
  has_var k m = is_some (find_var k m)
