-- ===== src/A3/Disk/Cache.antt =====
-- a3/fs/cache.c: the buffer cache of 64 sectors, with the clock algorithm.
pub mod View
pub mod Exchange
pub mod Steps
pub mod Evict
pub mod Transparent
pub mod Session
pub mod Store
use mcgill_ecse_427_operatin.Prelude.{
  ℕ, zero, suc, ◌+◌, ◌%◌, Bool, true, false, not, ◌&&◌, ◌==◌, if◌then◌else◌, Option, none, some,
  Array, update, scan, map_range,
}
use mcgill_ecse_427_operatin.A3.Disk.Block.{◌>>=◌, Driver, Block, block_read, block_write}

abbrev pub buffer_cache_size : ℕ
buffer_cache_size = 64

pub record Entry (B : Type 0) : Type 0 where
  pub occupied : Bool
  pub disk_sector : ℕ
  pub buffer : B
  pub dirty : Bool
  pub access : Bool

pub record Cache (D B : Type 0) : Type 0 where
  pub entries : Array (Entry B)
  pub clock : ℕ
  pub device : Block D

module _ {D B : Type 0} where
  abbrev set_entry : ℕ → Entry B → Cache D B → Cache D B
  set_entry i e c = record c { entries = update c.entries i e }

  abbrev pub second_chance : Cache D B → Cache D B
  second_chance c = record (set_entry c.clock (record (c.entries c.clock) { access = false }) c) {
    clock = (c.clock + 1) % buffer_cache_size;
  }

  unfoldable pub buffer_cache_init : Cache D B → Cache D B
  buffer_cache_init c = record c {
    entries =
        map_range 0 buffer_cache_size (λ e. record e { occupied = false; dirty = false }) c.entries;
  }

  abbrev pub holds_sector : ℕ → Cache D B → ℕ → Bool
  holds_sector sector c i = (c.entries i).occupied && ((c.entries i).disk_sector == sector)

  unfoldable pub buffer_cache_lookup : ℕ → Cache D B → Option ℕ
  buffer_cache_lookup sector c = scan (holds_sector sector c) 0 buffer_cache_size

module _ {D B : Type 0} (ops : Driver D B) where
  -- The entry must be occupied, by the assertion.
  unfoldable pub buffer_cache_flush : ℕ → Cache D B → Option (Cache D B)
  buffer_cache_flush i c =
      let e = c.entries i in
      if not e.occupied
      then none
      else if e.dirty
      then (do
        device ← block_write ops e.disk_sector e.buffer c.device
        some (record (set_entry i (record e { dirty = false }) c) { device = device }))
      else some c

  -- `n` rounds of the loop from `i`.
  unfoldable pub close_from : ℕ → ℕ → Cache D B → Option (Cache D B)
  close_from i zero c = some c
  close_from i (suc n) c =
      (if (c.entries i).occupied then buffer_cache_flush i c else some c) >>= close_from (i + 1) n

  abbrev pub buffer_cache_close : Cache D B → Option (Cache D B)
  buffer_cache_close = close_from 0 buffer_cache_size

  -- The entry under the clock is written back if it is dirty, and is free.
  unfoldable pub evict_slot : Cache D B → Option (ℕ × Cache D B)
  evict_slot c = do
    c' ← (if (c.entries c.clock).dirty then buffer_cache_flush c.clock c else some c)
    some (c.clock, set_entry c.clock (record (c'.entries c.clock) { occupied = false }) c')

  -- The `while` loop, within a number of rounds; `none` also where these run out.
  unfoldable pub buffer_cache_evict : ℕ → Cache D B → Option (ℕ × Cache D B)
  buffer_cache_evict zero c = none
  buffer_cache_evict (suc rounds) c =
      let rest = buffer_cache_evict rounds (second_chance c) in
      if not (c.entries c.clock).occupied
      then some (c.clock, c)
      else if (c.entries c.clock).access
      then rest
      else evict_slot c

  -- The assertion that the slot is free, and the sector read into it.
  unfoldable pub fill_entry : ℕ → ℕ → Cache D B → Option (ℕ × Cache D B)
  fill_entry sector i c = if (c.entries i).occupied then none else (do
    (buffer, device) ← block_read ops sector c.device
    let e = record (c.entries i) {
      occupied = true;
      disk_sector = sector;
      buffer = buffer;
      dirty = false;
    }
    some (i, record (set_entry i e c) { device = device }))

  -- The slot of the sector, with the start that reading and writing share.
  unfoldable pub slot_of : ℕ → ℕ → Cache D B → Option (ℕ × Cache D B)
  slot_of rounds sector c = elim (buffer_cache_lookup sector c) [
    | some i ↦ some (i, c)
    | none ↦ do (i, c') ← buffer_cache_evict rounds c; fill_entry sector i c'
  ]

  unfoldable pub buffer_cache_read : ℕ → ℕ → Cache D B → Option (B × Cache D B)
  buffer_cache_read rounds sector c = do
    (i, c') ← slot_of rounds sector c
    some ((c'.entries i).buffer, set_entry i (record (c'.entries i) { access = true }) c')

  unfoldable pub buffer_cache_write : ℕ → ℕ → B → Cache D B → Option (Cache D B)
  buffer_cache_write rounds sector source c = do
    (i, c') ← slot_of rounds sector c
    let e = record (c'.entries i) { access = true; dirty = true; buffer = source }
    some (set_entry i e c')
