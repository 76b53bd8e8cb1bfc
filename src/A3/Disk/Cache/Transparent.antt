-- ===== src/A3/Disk/Cache/Transparent.antt =====
-- Reading and writing through the cache, as if on an array of sectors.
use mcgill_ecse_427_operatin.Prelude.{
  ℕ, ◌<◌, ◌≡◌, ◌≢◌, inl, inr, refl, sym, subst, ◌∙◌, true, false, lt→ltb, some, arith,
}
use mcgill_ecse_427_operatin.A3.Disk.Block.{Driver, count_up, block_read}
use mcgill_ecse_427_operatin.A3.Disk.Cache.{
  Entry, Cache, buffer_cache_size, fill_entry, slot_of, buffer_cache_read, buffer_cache_write,
}
use mcgill_ecse_427_operatin.A3.Disk.Cache.View.{Caches, IsValid, view, lookup-cases}
use mcgill_ecse_427_operatin.A3.Disk.Cache.Exchange.{exchanged}
use mcgill_ecse_427_operatin.A3.Disk.Cache.Steps.{
  Keeps, Keeps-trans, view_cached, stays-IsValid, stays-here, stays-other, stays-Keeps,
  filled-Keeps,
}
use mcgill_ecse_427_operatin.A3.Disk.Cache.Evict.{Keeps-refl, buffer_cache_evict-Slot}

module _ {D B : Type 0} (ops : Driver D B) where
  abbrev filler : Cache D B → ℕ → ℕ → Entry B
  filler c s i = record (c.entries i) {
    occupied = true;
    disk_sector = s;
    buffer = ops.read s c.device.aux;
    dirty = false;
  }

  abbrev filled : Cache D B → ℕ → ℕ → Cache D B
  filled c s i =
      exchanged ops c i (filler c s i) c.clock
        (record c.device { read_cnt = count_up c.device.read_cnt })

  fill_entry-filled :
      (c : Cache D B) (s i : ℕ)
      → (c.entries i).occupied ≡ false
      → s < c.device.size
      → fill_entry ops s i c ≡ some (i, filled c s i)
  unfolding fill_entry block_read
  fill_entry-filled c s i free h = rw (free, lt→ltb _ _ h)

  -- The slot that is found holds the sector, and every sector reads as before.
  slot_of-Caches :
      (rounds s : ℕ) (c : Cache D B)
      → IsValid ops c
      → buffer_cache_size < rounds
      → s < c.device.size
      → (i : ℕ) × (c' : Cache D B) × (slot_of ops rounds s c ≡ some (i, c'))
        × Keeps ops c c'
        × Caches ops c' s i
  unfolding slot_of
  slot_of-Caches rounds s c v k h = elim (lookup-cases ops c s) [
    | inl (i, e, there) ↦ (i, c, rw (slot_of, e), Keeps-refl ops c v, there)
    | inr (e, miss) ↦
        let (i, d, found, slot) = buffer_cache_evict-Slot ops rounds c v k in
        let in_range : s < d.device.size = omega (arith, slot.keeps.size) in
        (
          i,
          filled d s i,
          rw (slot_of, e, found) (fill_entry-filled d s i slot.free in_range),
          Keeps-trans ops c d (filled d s i) slot.keeps (
              filled-Keeps ops d i (filler d s i) d.clock
                (record d.device { read_cnt = count_up d.device.read_cnt }) slot.keeps.valid
                slot.in_cache slot.keeps.valid.clock_bound refl refl slot.free refl
                (slot.uncached s miss) in_range refl),
          (slot.in_cache, ground arith, ground arith),
        )
  ]

  -- On a well-formed cache, with one round more than the cache has entries, reading a sector of the device
  -- gives its bytes; the cache stays well formed, and every sector reads as before.
  pub buffer_cache_read-view :
      (rounds s : ℕ) (c : Cache D B)
      → IsValid ops c
      → buffer_cache_size < rounds
      → s < c.device.size
      → (c' : Cache D B) × (buffer_cache_read ops rounds s c ≡ some (view ops c s, c'))
        × Keeps ops c c'
  unfolding buffer_cache_read
  buffer_cache_read-view rounds s c v k h =
      let (i, d, found, kept, there) = slot_of-Caches rounds s c v k h in
      let e = record (d.entries i) { access = true } in
      let bytes : (d.entries i).buffer ≡ view ops c s =
        sym (view_cached ops d s i kept.valid there) ∙ kept.same s in
      (
        exchanged ops d i e d.clock d.device,
        rw (found, bytes),
        Keeps-trans ops c d (exchanged ops d i e d.clock d.device) kept (
            stays-Keeps ops d i e d.clock d.device kept.valid there.0 kept.valid.clock_bound refl
              there.1 there.1 refl (kept.valid.clean i there.0 there.1) (λ t ne. refl) refl),
      )

  -- On a well-formed cache, with at least 65 rounds for an eviction, writing a sector of the device
  -- succeeds; the cache stays well formed, for a device of the same size, the sector then reads as
  -- what was written, and every other sector reads as before.
  pub buffer_cache_write-view :
      (rounds s : ℕ) (source : B) (c : Cache D B)
      → IsValid ops c
      → buffer_cache_size < rounds
      → s < c.device.size
      → (c' : Cache D B) × (buffer_cache_write ops rounds s source c ≡ some c')
        × IsValid ops c'
        × (c'.device.size ≡ c.device.size)
        × (view ops c' s ≡ source)
        × ((t : ℕ) → s ≢ t → view ops c' t ≡ view ops c t)
  unfolding buffer_cache_write
  buffer_cache_write-view rounds s source c v k h =
      let (i, d, found, kept, there) = slot_of-Caches rounds s c v k h in
      let e = record (d.entries i) { access = true; dirty = true; buffer = source } in
      let c' = exchanged ops d i e d.clock d.device in
      (
        c',
        rw found,
        stays-IsValid ops d i e d.clock d.device kept.valid there.0 kept.valid.clock_bound refl
            there.1 there.1 refl (λ d. cc) (λ t ne. refl),
        kept.size,
        subst (λ t. view ops c' t ≡ source) there.2
            (stays-here ops d i e d.clock d.device kept.valid there.0 kept.valid.clock_bound refl
              there.1 there.1 refl (λ d. cc) (λ t ne. refl)),
        λ t ne.
            stays-other ops d i e d.clock d.device kept.valid there.0 kept.valid.clock_bound refl
              there.1 there.1 refl (λ d. cc) (λ t ne. refl) t (λ same. ne (sym there.2 ∙ same))
            ∙ kept.same t,
      )
