-- ===== src/VarStore/Laws.antt =====
-- The store as a map with a bounded number of keys.
use mcgill_ecse_427_operatin.Prelude.{
  ℕ, ◌+◌, ◌≤◌, ◌<◌, ◌≡◌, ◌≢◌, ap, fun_ext, ◌⊎◌, inl, inr, ◌∙◌, true, false, ◌||◌, none, some, arith,
  if◌then◌else◌, CString, str_eq_iff, str_eq_refl, Array, update, scan, IsFirst, Misses, scan-cases,
  scan-first, scan-Misses, update_self, update_ne, ==_iff,
}
use mcgill_ecse_427_operatin.VarStore.Slots.{
  SlotOps, none_text, holds, find_var, set_value, get_value, has_var,
}

-- The three outcomes of a store operation: the variable is there, it takes a free slot, or neither.
pub data Outcome {S : Type 0} (o : SlotOps S) (lo n : ℕ) (k v : CString) (m : Array S)
    : Type 0 where
  overwrote :
      (i : ℕ)
      → find_var o lo n k m ≡ some i
      → IsFirst (holds o lo n k m) lo n i
      → set_value o lo n k v m ≡ update m i (o.put_value v (m i))
      → Outcome o lo n k v m
  took_free :
      (i : ℕ)
      → find_var o lo n k m ≡ none
      → Misses (holds o lo n k m) lo n
      → find_var o lo n none_text m ≡ some i
      → IsFirst (holds o lo n none_text m) lo n i
      → set_value o lo n k v m ≡ update m i (o.put_entry k v (m i))
      → Outcome o lo n k v m
  full :
      find_var o lo n k m ≡ none
      → find_var o lo n none_text m ≡ none
      → set_value o lo n k v m ≡ m
      → Outcome o lo n k v m

module _ {S : Type 0} (o : SlotOps S) (lo n : ℕ) where
  pub outcome : (k v : CString) (m : Array S) → Outcome o lo n k v m
  unfolding set_value find_var
  outcome k v m = elim (scan-cases (holds o lo n k m) lo n) [
    | inr (i, e, f) ↦ overwrote i e f (rw (e, set_value))
    | inl (e, miss) ↦ elim (scan-cases (holds o lo n none_text m) lo n) [
      | inr (i, e', f) ↦ took_free i e miss e' f (rw (e, e', set_value))
      | inl (e', _) ↦ full e e' (rw (e, e', set_value))
    ]
  ]

  find_var-first :
      (k : CString) (m : Array S) {i : ℕ}
      → IsFirst (holds o lo n k m) lo n i
      → find_var o lo n k m ≡ some i
  unfolding find_var
  find_var-first k m {i} f = scan-first _ lo n i f

  -- Where the names compare alike, the same slot is found.
  find_var-congr :
      (k : CString) (m m' : Array S)
      → ((l : ℕ) → holds o lo n k m' l ≡ holds o lo n k m l)
      → find_var o lo n k m' ≡ find_var o lo n k m
  unfolding find_var
  find_var-congr k m m' h = ap (λ t. scan t lo n) (fun_ext h)

  -- Writing a value keeps every name.
  put_value-holds :
      (j v : CString) (m : Array S) (i l : ℕ)
      → holds o lo n j (update m i (o.put_value v (m i))) l ≡ holds o lo n j m l
  put_value-holds j v m i l = ground (arith, o.var-put_value v (m i), ==_iff i l)

  other_name :
      (j k : CString) (m : Array S) (i : ℕ)
      → j ≢ k
      → holds o lo n k m i ≡ true
      → holds o lo n j m i ≡ false
  other_name j k m i ne hit = ground (arith, str_eq_iff (o.var (m i)) j, str_eq_iff (o.var (m i)) k)

  outside_ne : (i l : ℕ) → (l < lo) ⊎ (lo + n ≤ l) → lo ≤ i → i < lo + n → i ≢ l
  outside_ne i l out h h' e = omega arith

  -- A new name in a free slot is unseen by a search for another name.
  put_entry-holds :
      (j k v : CString) (m : Array S) (i l : ℕ)
      → j ≢ k
      → j ≢ none_text
      → holds o lo n none_text m i ≡ true
      → holds o lo n j (update m i (o.put_entry k v (m i))) l ≡ holds o lo n j m l
  put_entry-holds j k v m i l ne ne' free = ground (
    arith,
    o.var-put_entry k v (m i),
    ==_iff i l,
    str_eq_iff (o.var (m i)) j,
    str_eq_iff (o.var (m i)) none_text,
    str_eq_iff k j,
  )

  -- A free slot that takes a new name becomes the first slot of that name.
  put_entry-IsFirst :
      (k v : CString) (m : Array S) (i : ℕ)
      → Misses (holds o lo n k m) lo n
      → IsFirst (holds o lo n none_text m) lo n i
      → IsFirst (holds o lo n k (update m i (o.put_entry k v (m i)))) lo n i
  put_entry-IsFirst k v m i miss f = record {
    lower = f.lower;
    upper = f.upper;
    hit = rw (update_self m i (o.put_entry k v (m i)), o.var-put_entry k v (m i)) (str_eq_refl k);
    before = λ l h h'.
        rw (update_ne m i (o.put_entry k v (m i)) l (omega arith))
          (miss l h (omega (arith, f.upper)));
  }

  -- A variable that was just set has its value, unless the store had no room for it.
  pub get-set_self :
      (k v : CString) (m : Array S)
      → get_value o lo n k (set_value o lo n k v m)
        ≡ (if has_var o lo n k m || has_var o lo n none_text m then some v else none)
  unfolding get_value has_var
  get-set_self k v m = elim (outcome k v m) [
    | overwrote i e f w ↦
        rw (w, find_var-congr k m _ (put_value-holds k v m i), e)
          (ap some (ap o.value (update_self m i _) ∙ o.value-put_value v (m i)))
    | took_free i e miss e' f w ↦
        rw (w, find_var-first k _ (put_entry-IsFirst k v m i miss f), e, e')
          (ap some (ap o.value (update_self m i _) ∙ o.value-put_entry k v (m i)))
    | full e e' w ↦ rw (w, e, e')
  ]

  -- What a search for another name reads.
  read_other :
      (j : CString) (m : Array S) (i : ℕ) (s : S)
      → ((l : ℕ) → holds o lo n j (update m i s) l ≡ holds o lo n j m l)
      → (holds o lo n j m i ≡ false)
      → get_value o lo n j (update m i s) ≡ get_value o lo n j m
  unfolding get_value find_var
  read_other j m i s same other = elim (scan-cases (holds o lo n j m) lo n) [
    | inl (e, _) ↦ rw (ap (λ t. scan t lo n) (fun_ext same), e)
    | inr (l, e, f) ↦
        rw (ap (λ t. scan t lo n) (fun_ext same), e)
          (ap some (ap o.value (update_ne m i s l (λ eq. cc (f.hit, other, eq)))))
  ]

  -- Setting one variable leaves every other one alone.
  pub get-set_ne :
      (j k v : CString) (m : Array S)
      → j ≢ k
      → j ≢ none_text
      → get_value o lo n j (set_value o lo n k v m) ≡ get_value o lo n j m
  get-set_ne j k v m ne ne' = elim (outcome k v m) [
    | overwrote i e f w ↦
        rw w (read_other j m i _ (put_value-holds j v m i) (other_name j k m i ne f.hit))
    | took_free i e miss e' f w ↦ rw w (
        read_other j m i _ (λ l. put_entry-holds j k v m i l ne ne' f.hit)
          (other_name j none_text m i ne' f.hit))
    | full e e' w ↦ rw w
  ]

  -- No slot outside the range is touched, and no slot that has another name than `k` or "none".
  pub set_value-outside :
      (k v : CString) (m : Array S) (l : ℕ)
      → (l < lo) ⊎ (lo + n ≤ l)
      → set_value o lo n k v m l ≡ m l
  set_value-outside k v m l out = elim (outcome k v m) [
    | overwrote i e f w ↦ rw w (update_ne m i _ l (outside_ne i l out f.lower f.upper))
    | took_free i e miss e' f w ↦ rw w (update_ne m i _ l (outside_ne i l out f.lower f.upper))
    | full e e' w ↦ rw w
  ]

  -- A range whose slots are all free has no other name.
  pub get_value-free :
      (k : CString) (m : Array S)
      → k ≢ none_text
      → ((l : ℕ) → lo ≤ l → l < lo + n → o.var (m l) ≡ none_text)
      → get_value o lo n k m ≡ none
  unfolding get_value find_var
  get_value-free k m ne free = rw (
      scan-Misses (holds o lo n k m) lo n
        (λ l a b. ground (arith, free l a b, str_eq_iff (o.var (m l)) k)))
