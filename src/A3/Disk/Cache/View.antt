-- ===== src/A3/Disk/Cache/View.antt =====
-- What the cache and the device together hold in each sector, and how one new entry changes it.
use mcgill_ecse_427_operatin.Prelude.{
  ℕ, ◌<◌, ◌≡◌, ◌≢◌, ◌⊎◌, inl, inr, sym, ◌∙◌, true, false, none, some, scan-cases, arith,
}
use mcgill_ecse_427_operatin.A3.Disk.Block.{Driver}
use mcgill_ecse_427_operatin.A3.Disk.Cache.{
  Cache, buffer_cache_size, holds_sector, buffer_cache_lookup,
}

module _ {D B : Type 0} (ops : Driver D B) where
  -- The entry at `i` holds the sector.
  abbrev pub Caches : Cache D B → ℕ → ℕ → Type 0
  Caches c sector i =
      (i < buffer_cache_size)
      × ((c.entries i).occupied ≡ true)
      × ((c.entries i).disk_sector ≡ sector)

  abbrev pub Uncached : Cache D B → ℕ → Type 0
  Uncached c sector =
      (i : ℕ)
      → i < buffer_cache_size
      → (c.entries i).occupied ≡ true
      → (c.entries i).disk_sector ≢ sector

  -- The clock is in range, no sector has two entries, every entry is for a sector of the device, and
  -- what is not dirty is as on the device.
  pub record IsValid (c : Cache D B) : Type 0 where
    pub clock_bound : c.clock < buffer_cache_size
    pub distinct :
        (i j : ℕ)
        → i < buffer_cache_size
        → j < buffer_cache_size
        → (c.entries i).occupied ≡ true
        → (c.entries j).occupied ≡ true
        → (c.entries i).disk_sector ≡ (c.entries j).disk_sector
        → i ≡ j
    pub on_device :
        (i : ℕ)
        → i < buffer_cache_size
        → (c.entries i).occupied ≡ true
        → (c.entries i).disk_sector < c.device.size
    pub clean :
        (i : ℕ)
        → i < buffer_cache_size
        → (c.entries i).occupied ≡ true
        → (c.entries i).dirty ≡ false
        → (c.entries i).buffer ≡ ops.read (c.entries i).disk_sector c.device.aux

  -- The bytes of a sector: those of its entry, or else those on the device.
  unfoldable pub view : Cache D B → ℕ → B
  view c sector = elim (buffer_cache_lookup sector c) [
    | some i ↦ (c.entries i).buffer
    | none ↦ ops.read sector c.device.aux
  ]

  pub lookup-cases :
      (c : Cache D B) (t : ℕ)
      → ((i : ℕ) × (buffer_cache_lookup t c ≡ some i) × Caches c t i)
        ⊎ ((buffer_cache_lookup t c ≡ none) × Uncached c t)
  unfolding buffer_cache_lookup
  lookup-cases c t = elim (scan-cases (holds_sector t c) 0 buffer_cache_size) [
    | inl (e, miss) ↦ inr (e, λ i h o same. ground (arith, miss i))
    | inr (i, e, f) ↦
        inl (i, e, (ground (arith, f.upper), ground (arith, f.hit), ground (arith, f.hit)))
  ]

  -- What the view of a sector is, as a relation.
  abbrev pub Views : Cache D B → ℕ → B → Type 0
  Views c t v =
      ((i : ℕ) × Caches c t i × ((c.entries i).buffer ≡ v))
      ⊎ (Uncached c t × (ops.read t c.device.aux ≡ v))

  pub view-Views : (c : Cache D B) (t : ℕ) → Views c t (view c t)
  unfolding view
  view-Views c t = elim (lookup-cases c t) [
    | inl (i, e, h) ↦ inl (i, h, rw (e, view))
    | inr (e, miss) ↦ inr (miss, rw (e, view))
  ]

  pub Views-view : (c : Cache D B) (t : ℕ) (v : B) → IsValid c → Views c t v → view c t ≡ v
  unfolding view
  Views-view c t v valid (inl (i, h, e)) = elim (lookup-cases c t) [
    | inl (j, found, g) ↦ rw (found, view, valid.distinct j i g.0 h.0 g.1 h.1 (g.2 ∙ sym h.2)) e
    | inr (none_there, miss) ↦ absurd (miss i h.0 h.1 h.2)
  ]
  Views-view c t v valid (inr (miss, e)) = elim (lookup-cases c t) [
    | inl (j, found, g) ↦ absurd (miss j g.0 g.1 g.2)
    | inr (none_there, _) ↦ rw (none_there, view) e
  ]
