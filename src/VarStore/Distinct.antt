-- ===== src/VarStore/Distinct.antt =====
-- No two slots of a range bear one name.
use mcgill_ecse_427_operatin.Prelude.{
  ℕ, ◌+◌, ◌≤◌, ◌<◌, ◌≡◌, ◌≢◌, sym, ◌∙◌, arith, CString, str_eq_iff, ==_iff, Array, update, Misses,
}
use mcgill_ecse_427_operatin.VarStore.Slots.{SlotOps, none_text, holds, set_value}
use mcgill_ecse_427_operatin.VarStore.Laws.{overwrote, took_free, full, outcome}

-- Two slots of the range with one name are the same slot, or both are free.
abbrev pub Distinct : {S : Type 0} → SlotOps S → ℕ → ℕ → Array S → Type 0
Distinct o lo n m =
    (a b : ℕ)
    → lo ≤ a
    → a < lo + n
    → lo ≤ b
    → b < lo + n
    → o.var (m a) ≡ o.var (m b)
    → o.var (m a) ≢ none_text
    → a ≡ b

module _ {S : Type 0} (o : SlotOps S) (lo n : ℕ) where
  var_after_value :
      (v : CString) (m : Array S) (i l : ℕ)
      → o.var (update m i (o.put_value v (m i)) l) ≡ o.var (m l)
  var_after_value v m i l = ground (arith, o.var-put_value v (m i), ==_iff i l)

  -- A name that no slot has, in one slot: the others keep theirs.
  one_new :
      (k v : CString) (m : Array S) (i : ℕ)
      → Misses (holds o lo n k m) lo n
      → Distinct o lo n m
      → Distinct o lo n (update m i (o.put_entry k v (m i)))
  one_new k v m i miss d a b la ua lb ub same named = ground (
    arith,
    ==_iff i a,
    ==_iff i b,
    o.var-put_entry k v (m i),
    miss a la ua,
    miss b lb ub,
    str_eq_iff (o.var (m a)) k,
    str_eq_iff (o.var (m b)) k,
    d a b la ua lb ub,
  )

  -- Setting a variable keeps the names of the range distinct.
  pub set_value-Distinct :
      (k v : CString) (m : Array S) → Distinct o lo n m → Distinct o lo n (set_value o lo n k v m)
  set_value-Distinct k v m d = elim (outcome o lo n k v m) [
    | overwrote i e f w ↦ rw w (λ a b la ua lb ub same named.
        d a b la ua lb ub (sym (var_after_value v m i a) ∙ same ∙ var_after_value v m i b)
          (λ e'. named (var_after_value v m i a ∙ e')))
    | took_free i e miss e' f w ↦ rw w (one_new k v m i miss d)
    | full e e' w ↦ rw w d
  ]
