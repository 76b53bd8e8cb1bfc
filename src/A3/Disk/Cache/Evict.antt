-- ===== src/A3/Disk/Cache/Evict.antt =====
-- The entry that is found for a sector: the clock finds a free one or frees one, and the cache keeps what it holds.
use mcgill_ecse_427_operatin.Prelude.{
  ℕ, zero, suc, ◌+◌, ◌%◌, ◌<◌, ◌≡◌, inl, inr, refl, sym, ◌∙◌, Bool, true, false, Bool-cases,
  if◌then◌else◌, some, not, lt→ltb, count_range, count_range-drop, count_range-le, arith,
}
use mcgill_ecse_427_operatin.A3.Disk.Block.{Driver, Block, count_up, block_write}
use mcgill_ecse_427_operatin.A3.Disk.Cache.{
  Cache, buffer_cache_size, buffer_cache_flush, evict_slot, second_chance, buffer_cache_evict,
}
use mcgill_ecse_427_operatin.A3.Disk.Cache.View.{Uncached, IsValid}
use mcgill_ecse_427_operatin.A3.Disk.Cache.Exchange.{exchanged}
use mcgill_ecse_427_operatin.A3.Disk.Cache.Steps.{Keeps, Keeps-trans, stays-Keeps, freed-Keeps}

used_branch :
    {A : Type 0} (o a : Bool) (x y z : A)
    → o ≡ true
    → a ≡ true
    → (if not o then x else if a then y else z) ≡ y
used_branch o a x y z was on = rw (was, on)

module _ {D B : Type 0} (ops : Driver D B) where
  pub Keeps-refl : (c : Cache D B) → IsValid ops c → Keeps ops c c
  Keeps-refl c v = record { valid = v; size = refl; same = λ t. refl }

  abbrev written : Cache D B → ℕ → Block D
  written c k = record c.device {
    aux = ops.write (c.entries k).disk_sector (c.entries k).buffer c.device.aux;
    write_cnt = count_up c.device.write_cnt;
  }

  abbrev flushed : Cache D B → ℕ → Cache D B
  flushed c k = exchanged ops c k (record (c.entries k) { dirty = false }) c.clock (written c k)

  -- The same entries are there, for the same sectors, and the clock stands where it stood.
  pub record SameSlots (c c' : Cache D B) : Type 0 where
    pub occupied : (j : ℕ) → (c'.entries j).occupied ≡ (c.entries j).occupied
    pub disk_sector : (j : ℕ) → (c'.entries j).disk_sector ≡ (c.entries j).disk_sector
    pub dirty : (j : ℕ) → (c.entries j).dirty ≡ false → (c'.entries j).dirty ≡ false
    pub clock : c'.clock ≡ c.clock

  pub SameSlots-refl : (c : Cache D B) → SameSlots c c
  SameSlots-refl c = record {
    occupied = λ j. refl;
    disk_sector = λ j. refl;
    dirty = λ j d. d;
    clock = refl;
  }

  flushed-SameSlots : (c : Cache D B) (k : ℕ) → SameSlots c (flushed c k)
  flushed-SameSlots c k = record {
    occupied = λ j. ground arith;
    disk_sector = λ j. ground arith;
    dirty = λ j d. ground arith;
    clock = refl;
  }

  -- Writing an occupied entry back does not fail, and makes it clean.
  pub flush_lem :
      (c : Cache D B) (k : ℕ)
      → IsValid ops c
      → k < buffer_cache_size
      → (c.entries k).occupied ≡ true
      → (c' : Cache D B) × (buffer_cache_flush ops k c ≡ some c')
        × Keeps ops c c'
        × SameSlots c c'
        × ((c'.entries k).dirty ≡ false)
  unfolding buffer_cache_flush block_write
  flush_lem c k v h was = elim (Bool-cases (c.entries k).dirty) [
    | inl dirty ↦ (
      flushed c k,
      rw (was, dirty, lt→ltb _ _ (v.on_device k h was)),
      stays-Keeps ops c k (record (c.entries k) { dirty = false }) c.clock (written c k) v h
          v.clock_bound refl was was refl
          (λ d.
            sym (ops.read-write_self (c.entries k).disk_sector (c.entries k).buffer c.device.aux))
          (λ t ne.
            ops.read-write_ne (c.entries k).disk_sector t (c.entries k).buffer c.device.aux ne)
          refl,
      flushed-SameSlots c k,
      ground arith,
    )
    | inr clean ↦ (c, rw (was, clean), Keeps-refl c v, SameSlots-refl c, clean)
  ]

  -- A free entry of the cache, where a sector that no entry held is still held by none.
  pub record Slot (c : Cache D B) (i : ℕ) (c' : Cache D B) : Type 0 where
    pub keeps : Keeps ops c c'
    pub in_cache : i < buffer_cache_size
    pub free : (c'.entries i).occupied ≡ false
    pub uncached : (t : ℕ) → Uncached ops c t → Uncached ops c' t

  -- The entry under the clock, written back where it is dirty.
  cleaned :
      (c : Cache D B)
      → IsValid ops c
      → (c.entries c.clock).occupied ≡ true
      → (c' : Cache D B) × ((if (c.entries c.clock).dirty
            then buffer_cache_flush ops c.clock c
            else some c)
          ≡ some c')
        × Keeps ops c c'
        × SameSlots c c'
        × ((c'.entries c.clock).dirty ≡ false)
  cleaned c v was = elim (Bool-cases (c.entries c.clock).dirty) [
    | inl dirty ↦ rw dirty (flush_lem c c.clock v v.clock_bound was)
    | inr clean ↦ (c, rw clean, Keeps-refl c v, SameSlots-refl c, clean)
  ]

  abbrev freed : Cache D B → ℕ → Cache D B
  freed c k = exchanged ops c k (record (c.entries k) { occupied = false }) c.clock c.device

  evict_slot-Slot :
      (c : Cache D B)
      → IsValid ops c
      → (c.entries c.clock).occupied ≡ true
      → (i : ℕ) × (c' : Cache D B) × (evict_slot ops c ≡ some (i, c')) × Slot c i c'
  unfolding evict_slot
  evict_slot-Slot c v was =
      let (d, e, keeps, slots, clean) = cleaned c v was in
      let there : (d.entries c.clock).occupied ≡ true = slots.occupied c.clock ∙ was in
      (
        c.clock,
        freed d c.clock,
        rw e,
        record {
          keeps = Keeps-trans ops c d (freed d c.clock) keeps (
              freed-Keeps ops d c.clock (record (d.entries c.clock) { occupied = false }) d.clock
                d.device keeps.valid v.clock_bound keeps.valid.clock_bound refl refl there refl
                (keeps.valid.clean c.clock v.clock_bound there clean));
          in_cache = v.clock_bound;
          free = ground arith;
          uncached = λ t miss j h o. ground (arith, miss j, slots.occupied j, slots.disk_sector j);
        },
      )

  accessed : Cache D B → ℕ
  accessed c = count_range (λ i. (c.entries i).access) 0 buffer_cache_size

  second_chance-Keeps :
      (c : Cache D B)
      → IsValid ops c
      → (c.entries c.clock).occupied ≡ true
      → Keeps ops c (second_chance c)
  second_chance-Keeps c v was =
      stays-Keeps ops c c.clock (record (c.entries c.clock) { access = false })
        ((c.clock + 1) % buffer_cache_size) c.device v v.clock_bound (omega arith) refl was was refl
        (v.clean c.clock v.clock_bound was) (λ t ne. refl) refl

  second_chance-accessed :
      (c : Cache D B)
      → c.clock < buffer_cache_size
      → (c.entries c.clock).access ≡ true
      → accessed c ≡ accessed (second_chance c) + 1
  unfolding accessed
  second_chance-accessed c h on =
      count_range-drop (λ i. (c.entries i).access) (λ i. ((second_chance c).entries i).access) 0
        buffer_cache_size c.clock (omega arith) h on (ground arith) (λ l ne. ground arith)

  -- The loop of the clock ends where it has one round more than entries were used.
  evict-Slot :
      (rounds : ℕ) (c : Cache D B)
      → IsValid ops c
      → accessed c < rounds
      → (i : ℕ) × (c' : Cache D B) × (buffer_cache_evict ops rounds c ≡ some (i, c')) × Slot c i c'
  unfolding buffer_cache_evict
  evict-Slot zero c v h = absurd (omega arith)
  evict-Slot (suc rounds) c v h = elim (Bool-cases (c.entries c.clock).occupied) [
    | inr free ↦ (
      c.clock,
      c,
      rw free,
      record {
        keeps = Keeps-refl c v;
        in_cache = v.clock_bound;
        free = free;
        uncached = λ t miss. miss;
      },
    )
    | inl was ↦ elim (Bool-cases (c.entries c.clock).access) [
      | inr off ↦ rw (was, off) (evict_slot-Slot c v was)
      | inl on ↦
          let kept = second_chance-Keeps c v was in
          let (i, c', e, slot) =
            evict-Slot rounds (second_chance c) kept.valid
              (omega (arith, second_chance-accessed c v.clock_bound on)) in
          (
            i,
            c',
            used_branch (c.entries c.clock).occupied (c.entries c.clock).access (some (c.clock, c))
                  (buffer_cache_evict ops rounds (second_chance c)) (evict_slot ops c) was on
                ∙ e,
            record {
              keeps = Keeps-trans ops c (second_chance c) c' kept slot.keeps;
              in_cache = slot.in_cache;
              free = slot.free;
              uncached = λ t miss. slot.uncached t (λ j hj o. ground (arith, miss j));
            },
          )
    ]
  ]

  -- On a well-formed cache and with at least 65 rounds `buffer_cache_evict` returns a free entry of
  -- the cache; the cache stays well formed, every sector reads as before, and a sector that had no
  -- entry has none.
  pub buffer_cache_evict-Slot :
      (rounds : ℕ) (c : Cache D B)
      → IsValid ops c
      → buffer_cache_size < rounds
      → (i : ℕ) × (c' : Cache D B) × (buffer_cache_evict ops rounds c ≡ some (i, c')) × Slot c i c'
  unfolding accessed
  buffer_cache_evict-Slot rounds c v h =
      evict-Slot rounds c v
        (omega (arith, count_range-le (λ i. (c.entries i).access) 0 buffer_cache_size))
