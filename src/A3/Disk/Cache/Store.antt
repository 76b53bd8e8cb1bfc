-- ===== src/A3/Disk/Cache/Store.antt =====
-- The buffer cache is a store of sectors: what the file system relies on.
use mcgill_ecse_427_operatin.Prelude.{
  ℕ, ◌<◌, ◌≡◌, ◌∙◌, ap, subst, inl, inr, Bool-cases, ==_iff, ◌==◌, Option, none, some, Array,
  update, arith,
}
use mcgill_ecse_427_operatin.A3.Disk.Block.{Driver}
use mcgill_ecse_427_operatin.A3.Disk.Cache.{
  Cache, buffer_cache_size, buffer_cache_read, buffer_cache_write,
}
use mcgill_ecse_427_operatin.A3.Disk.Cache.View.{IsValid, view}
use mcgill_ecse_427_operatin.A3.Disk.Cache.Transparent.{
  buffer_cache_read-view, buffer_cache_write-view,
}
use mcgill_ecse_427_operatin.A3.Disk.Sectors.{Sectors}

module _ {D B : Type 0} (ops : Driver D B) (rounds : ℕ) (enough : buffer_cache_size < rounds) where
  -- The cache is well formed, for a device of `n` sectors, and reads as the array.
  pub record Stands (c : Cache D B) (n : ℕ) (v : Array B) : Type 0 where
    pub valid : IsValid ops c
    pub size : c.device.size ≡ n
    pub same : (t : ℕ) → view ops c t ≡ v t

  pub write_result : Option (Cache D B) → Option (Unit {0} × Cache D B)
  write_result none = none
  write_result (some c) = some (tt, c)

  pub read-Stands :
      (n s : ℕ) (c : Cache D B) (v : Array B)
      → s < n
      → Stands c n v
      → (c' : Cache D B) × (buffer_cache_read ops rounds s c ≡ some (v s, c')) × Stands c' n v
  read-Stands n s c v h st =
      let (c', e, kept) =
        buffer_cache_read-view ops rounds s c st.valid enough (omega (arith, st.size)) in
      (
        c',
        subst (λ b. buffer_cache_read ops rounds s c ≡ some (b, c')) (st.same s) e,
        record {
          valid = kept.valid;
          size = kept.size ∙ st.size;
          same = λ t. kept.same t ∙ st.same t;
        },
      )

  pub write-Stands :
      (n s : ℕ) (b : B) (c : Cache D B) (v : Array B)
      → s < n
      → Stands c n v
      → (c' : Cache D B) × (write_result (buffer_cache_write ops rounds s b c) ≡ some (tt, c'))
        × Stands c' n (update v s b)
  unfolding write_result
  write-Stands n s b c v h st =
      let (c', e, valid, size, here, other) =
        buffer_cache_write-view ops rounds s b c st.valid enough (omega (arith, st.size)) in
      (
        c',
        ap write_result e,
        record {
          valid = valid;
          size = size ∙ st.size;
          same = λ t. elim (Bool-cases (s == t)) [
            | inl eq ↦ rw eq (subst (λ u. view ops c' u ≡ b) ((==_iff s t).0 eq) here)
            | inr ne ↦ rw ne (other t (λ e. ground (arith, e)) ∙ st.same t)
          ];
        },
      )

  abbrev pub cached_sectors : Sectors (Cache D B) B
  cached_sectors = record {
    read = buffer_cache_read ops rounds;
    write = λ s b c. write_result (buffer_cache_write ops rounds s b c);
    Stands = Stands;
    read-Stands = read-Stands;
    write-Stands = write-Stands;
  }
