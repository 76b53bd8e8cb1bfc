-- ===== src/A3/Disk/Cache/Exchange.antt =====
-- One entry of the cache is exchanged: when the cache stays well formed, and what it then holds.
use mcgill_ecse_427_operatin.Prelude.{ℕ, ◌<◌, ◌≡◌, ◌≢◌, ◌⊎◌, inl, inr, true, false, update, arith}
use mcgill_ecse_427_operatin.A3.Disk.Block.{Driver, Block}
use mcgill_ecse_427_operatin.A3.Disk.Cache.{Entry, Cache, buffer_cache_size}
use mcgill_ecse_427_operatin.A3.Disk.Cache.View.{Caches, IsValid, Views}

pub eq-cases : (a b : ℕ) → (a ≡ b) ⊎ (a ≢ b)
eq-cases a b = ground arith

module _ {D B : Type 0} (ops : Driver D B) (c : Cache D B) (k : ℕ) (e : Entry B) (clock : ℕ)
    (device : Block D) where
  abbrev pub exchanged : Cache D B
  exchanged = record { entries = update c.entries k e; clock = clock; device = device }

  -- What the new entry and the device must meet.
  pub record Fits : Type 0 where
    pub clock_bound : clock < buffer_cache_size
    pub same_size : device.size ≡ c.device.size
    pub alone :
        e.occupied ≡ true
        → (j : ℕ) → k ≢ j
        → j < buffer_cache_size
        → (c.entries j).occupied ≡ true
        → (c.entries j).disk_sector ≢ e.disk_sector
    pub on_device : e.occupied ≡ true → e.disk_sector < device.size
    pub clean : e.occupied ≡ true → e.dirty ≡ false → e.buffer ≡ ops.read e.disk_sector device.aux
    pub others :
        (j : ℕ)
        → k ≢ j
        → j < buffer_cache_size
        → (c.entries j).occupied ≡ true
        → ops.read (c.entries j).disk_sector device.aux
          ≡ ops.read (c.entries j).disk_sector c.device.aux

  pub exchanged-IsValid : IsValid ops c → Fits → IsValid ops exchanged
  exchanged-IsValid v f = record {
    clock_bound = f.clock_bound;
    distinct = λ i j hi hj oi oj same. ground (
      arith,
      v.distinct i j,
      λ (o : e.occupied ≡ true). f.alone o i,
      λ (o : e.occupied ≡ true). f.alone o j,
    );
    on_device = λ i hi oi. ground (arith, v.on_device i, f.on_device, f.same_size);
    clean = λ i hi oi cl. ground (arith, v.clean i, f.clean, f.others i);
  }

  -- A sector whose bytes are found in the new entry, in another one, or on the device.
  pub Views-here :
      (v : B)
      → k < buffer_cache_size
      → e.occupied ≡ true
      → e.buffer ≡ v
      → Views ops exchanged e.disk_sector v
  Views-here v h o same = inl (k, (h, ground arith, ground arith), ground arith)

  pub Views-other :
      (t j : ℕ) → k ≢ j → Caches ops c t j → Views ops exchanged t (c.entries j).buffer
  Views-other t j ne h = inl (j, (h.0, ground (arith, h.1), ground (arith, h.2)), ground arith)

  pub Views-device :
      (t : ℕ) (v : B)
      → (e.occupied ≡ true → e.disk_sector ≢ t)
      → ((j : ℕ)
          → k ≢ j
          → j < buffer_cache_size
          → (c.entries j).occupied ≡ true
          → (c.entries j).disk_sector ≢ t)
      → ops.read t device.aux ≡ v
      → Views ops exchanged t v
  Views-device t v here other same = inr (λ j h o at. ground (arith, here, other j), same)
