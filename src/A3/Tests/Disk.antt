-- ===== src/A3/Tests/Disk.antt =====
-- The theorems on the disk of a3 at concrete inputs: a cache over a device that is an array of sectors, and a
-- file of 70000 bytes, which needs its indirect block.
use mcgill_ecse_427_operatin.Prelude.{
  ℕ, inr, ◌+◌, ◌-◌, ◌<◌, ◌≡◌, ◌≢◌, refl, true, false, ◌==◌, ltb, if◌then◌else◌, none, some, [], ◌∷◌,
  Array, update, update_self, update_ne, arith,
}
use mcgill_ecse_427_operatin.Prelude.Int.{pos}
use mcgill_ecse_427_operatin.A3.Disk.Block.{Driver}
use mcgill_ecse_427_operatin.A3.Disk.Cache.{Cache, buffer_cache_evict, buffer_cache_write}
use mcgill_ecse_427_operatin.A3.Disk.Cache.View.{IsValid, view, Views-view}
use mcgill_ecse_427_operatin.A3.Disk.Cache.Evict.{Slot, buffer_cache_evict-Slot}
use mcgill_ecse_427_operatin.A3.Disk.Cache.Transparent.{buffer_cache_write-view}
use mcgill_ecse_427_operatin.A3.Disk.Cache.Session.{read, write, plain, session, session-plain}
use mcgill_ecse_427_operatin.A3.Disk.Cache.Store.{cached_sectors}
use mcgill_ecse_427_operatin.A3.Disk.Sectors.{Sectors, ◌>>=◌}
use mcgill_ecse_427_operatin.A3.Disk.Inode.{
  Bytes, InodeDisk, Inode, min, slice, bytes_to_sectors, index_to_sector, get_inode_data_sectors,
}
use mcgill_ecse_427_operatin.A3.Disk.Inode.Index.{sector_at, HasIndex}
use mcgill_ecse_427_operatin.A3.Disk.Inode.DataSectors.{get_inode_data_sectors-index_to_sector}
use mcgill_ecse_427_operatin.A3.Disk.Reserve.{FreeMap, zeros, words_block, inode_reserve}
use mcgill_ecse_427_operatin.A3.Disk.Transfer.{
  inode_block, read_loop, inode_read_at, extended, inode_write_at,
}
use mcgill_ecse_427_operatin.A3.Disk.Transfer.Reading.{bytes_from, HasBytes, read_loop-bytes}
use mcgill_ecse_427_operatin.A3.Disk.Transfer.Layout.{HasLayout}
use mcgill_ecse_427_operatin.A3.Disk.Transfer.Writing.{Written}
use mcgill_ecse_427_operatin.A3.Disk.Transfer.RoundTrip.{
  inode_write_at-Written, inode_read_at-inode_write_at,
}
use mcgill_ecse_427_operatin.A3.Disk.Transfer.Extending.{inode_write_at-empty, inode_reserve-full}
use mcgill_ecse_427_operatin.A3.Disk.OpenInodes.{find_open, inode_open, inode_close}
use mcgill_ecse_427_operatin.A3.Disk.OpenInodes.Twice.{inode_close-inode_open}
use mcgill_ecse_427_operatin.A3.Disk.OpenInodes.Stored.{block_word-words_block}

abbrev memory_driver : Driver (Array Bytes) Bytes
memory_driver = record {
  read = λ s d. d s;
  write = λ s b d. update d s b;
  read-write_self = λ s b d. update_self d s b;
  read-write_ne = λ s t b d ne. update_ne d s b t ne;
}

-- Every entry is free.
abbrev cache0 : Cache (Array Bytes) Bytes
cache0 = record {
  entries = λ i. record {
    occupied = false;
    disk_sector = 0;
    buffer = zeros;
    dirty = false;
    access = false;
  };
  clock = 0;
  device = record { aux = λ s i. s; size = 1000; read_cnt = 0; write_cnt = 0 };
}

-- Every entry holds its own sector, and was used.
abbrev cache1 : Cache (Array Bytes) Bytes
cache1 = record cache0 {
  entries = λ i. record {
    occupied = true;
    disk_sector = i;
    buffer = λ j. i;
    dirty = false;
    access = true;
  };
}

cache1-IsValid : IsValid memory_driver cache1
cache1-IsValid = record {
  clock_bound = omega arith;
  distinct = λ i j h h' o o' same. same;
  on_device = λ i h o. omega arith;
  clean = λ i h o d. refl;
}

session-plain_example :
    (c' : Cache (Array Bytes) Bytes) × (session memory_driver 65
        (write 3 zeros ∷ read 3 ∷ read 5 ∷ [])
        cache0
      ≡ some (
        (plain
            (write 3 zeros ∷ read 3 ∷ read 5 ∷ [])
            (λ t. memory_driver.read t cache0.device.aux)).0,
        c',
      ))
    × ((t : ℕ)
        → memory_driver.read t c'.device.aux
          ≡ (plain
                (write 3 zeros ∷ read 3 ∷ read 5 ∷ [])
                (λ t. memory_driver.read t cache0.device.aux)).1
              t)
session-plain_example =
    session-plain memory_driver 65 (write 3 zeros ∷ read 3 ∷ read 5 ∷ []) cache0 (omega arith)
      (omega arith) (omega arith, (omega arith, (omega arith, tt)))

buffer_cache_evict-Slot_example :
    (i : ℕ) × (c' : Cache (Array Bytes) Bytes) × (buffer_cache_evict memory_driver 65 cache1
      ≡ some (i, c'))
    × Slot memory_driver cache1 i c'
buffer_cache_evict-Slot_example =
    buffer_cache_evict-Slot memory_driver 65 cache1 cache1-IsValid (omega arith)

buffer_cache_write-view_example :
    (c' : Cache (Array Bytes) Bytes) × (buffer_cache_write memory_driver 65 100 zeros cache1
      ≡ some c')
    × IsValid memory_driver c'
    × (c'.device.size ≡ cache1.device.size)
    × (view memory_driver c' 100 ≡ zeros)
    × ((t : ℕ) → 100 ≢ t → view memory_driver c' t ≡ view memory_driver cache1 t)
buffer_cache_write-view_example =
    buffer_cache_write-view memory_driver 65 100 zeros cache1 cache1-IsValid (omega arith)
      (omega arith)

-- A store over the cache of a device, and the disk that it stands for: sector 50 has the numbers from 300.
abbrev sectors0 : Sectors (Cache (Array Bytes) Bytes) Bytes
sectors0 = cached_sectors memory_driver 65 (omega arith)

abbrev numbers : Array ℕ
numbers j = if ltb j 128 then 300 + j else 0

abbrev disk0 : Array Bytes
disk0 s = if s == 50 then words_block numbers else zeros

abbrev file0 : InodeDisk
file0 = record {
  direct_blocks = λ i. 100 + i;
  indirect_block = 50;
  doubly_indirect_block = 0;
  is_dir = false;
  length = pos 70000;
  magic = 1229868868;
}

abbrev inode0 : Inode
inode0 = record { sector = 7; open_cnt = 1; removed = false; deny_write_cnt = 0; content = file0 }

-- No sector is free, and none is taken back.
abbrev full_map : FreeMap (Cache (Array Bytes) Bytes)
full_map = record { allocate = λ c. some (none, c); release = λ s c. some (tt, c) }

file0-HasIndex : HasIndex 1000 disk0 file0 137
file0-HasIndex = record {
  indirect = λ h. omega arith;
  doubly = λ h. absurd (omega arith);
  second = λ i h. absurd (omega arith);
}

small_number : (j : ℕ) → numbers j < 4294967296
small_number j = ground arith

file0-sector_at :
    (i : ℕ) → i < 137 → sector_at disk0 file0 i ≡ (if ltb i 123 then 100 + i else 300 + (i - 123))
unfolding sector_at
file0-sector_at i h =
    ground (arith, block_word-words_block numbers (i - 123) (small_number (i - 123)))

file0-HasBytes : HasBytes 1000 disk0 file0 70000
file0-HasBytes = record {
  length = refl;
  bounded = omega arith;
  index = file0-HasIndex;
  on_disk = λ i h. ground (arith, file0-sector_at i);
}

file0-HasLayout : HasLayout 1000 disk0 file0 70000
file0-HasLayout = record {
  bytes = file0-HasBytes;
  distinct = λ i j h h' e. ground (arith, file0-sector_at i, file0-sector_at j);
  not_indirect = λ i h far e. ground (arith, file0-sector_at i);
  not_doubly = λ i h far e. absurd (omega arith);
  not_second = λ i j h far e. absurd (omega arith);
}

-- The cache over the device that holds this disk.
abbrev cache2 : Cache (Array Bytes) Bytes
cache2 = record cache0 { device = record cache0.device { aux = disk0 } }

cache2-IsValid : IsValid memory_driver cache2
cache2-IsValid = record {
  clock_bound = omega arith;
  distinct = λ i j h h' o o' same. cc;
  on_device = λ i h o. cc;
  clean = λ i h o d. cc;
}

cache2-Stands : sectors0.Stands cache2 1000 disk0
cache2-Stands = record {
  valid = cache2-IsValid;
  size = refl;
  same = λ t. Views-view memory_driver cache2 t (disk0 t) cache2-IsValid (inr (λ i h o. cc, refl));
}

get_inode_data_sectors-index_to_sector_example :
    (sectors : Array ℕ) × (c' : Cache (Array Bytes) Bytes) × (get_inode_data_sectors sectors0 file0
        (λ i. 0)
        cache2
      ≡ some (some sectors, c'))
    × sectors0.Stands c' 1000 disk0
    × ((i : ℕ)
        → i < bytes_to_sectors 70000
        → (c'' : Cache (Array Bytes) Bytes) × (index_to_sector sectors0 file0 i c'
            ≡ some (sectors i, c''))
          × sectors0.Stands c'' 1000 disk0)
get_inode_data_sectors-index_to_sector_example =
    get_inode_data_sectors-index_to_sector sectors0 1000 disk0 file0 70000 (λ i. 0) refl
      file0-HasIndex (omega arith) cache2 cache2-Stands

read_loop-bytes_example :
    (c' : Cache (Array Bytes) Bytes) × (read_loop sectors0 2000 file0 1500 69000 cache2
      ≡ some (bytes_from disk0 file0 69000 (min 1500 (70000 - 69000)), c'))
    × sectors0.Stands c' 1000 disk0
read_loop-bytes_example =
    read_loop-bytes sectors0 1000 disk0 file0 70000 file0-HasBytes 2000 1500 69000 (omega arith)
      cache2 cache2-Stands

inode_write_at-Written_example :
    (v' : Array Bytes) × (c' : Cache (Array Bytes) Bytes) × (inode_write_at sectors0 full_map 2000
        inode0
        (λ i. 7)
        1000
        68000
        cache2
      ≡ some ((1000, inode0), c'))
    × sectors0.Stands c' 1000 v'
    × Written sectors0 1000 file0 70000 (λ i. 7) disk0 v' 68000 1000 0
inode_write_at-Written_example =
    inode_write_at-Written sectors0 full_map 1000 (omega arith) inode0 refl disk0 70000 2000 1000
      68000 (λ i. 7) file0-HasLayout (omega arith) (omega arith) (omega arith) cache2 cache2-Stands

inode_read_at-inode_write_at_example :
    (c' c'' : Cache (Array Bytes) Bytes) × (inode_write_at sectors0 full_map 2000 inode0
        (λ i. 7)
        1000
        68000
        cache2
      ≡ some ((1000, inode0), c'))
    × (inode_read_at sectors0 2000 inode0 1000 68000 c' ≡ some (slice (λ i. 7) 0 1000, c''))
inode_read_at-inode_write_at_example =
    inode_read_at-inode_write_at sectors0 full_map 1000 (omega arith) inode0 refl disk0 70000 2000
      1000 68000 (λ i. 7) file0-HasLayout (omega arith) (omega arith) (omega arith) cache2
      cache2-Stands

inode_write_at-empty_example :
    (c' : Cache (Array Bytes) Bytes) × (inode_write_at sectors0 full_map 1 inode0
        (λ i. 7)
        0
        0
        cache2
      ≡ some ((0, record inode0 { content = extended file0 0 }), c'))
    × sectors0.Stands c' 1000 (update disk0 7 (inode_block (extended file0 0)))
inode_write_at-empty_example =
    inode_write_at-empty sectors0 full_map 1000 inode0 0 (λ i. 7) disk0 refl (omega arith) cache2
      cache2-Stands

inode_reserve-full_example :
    (c' : Cache (Array Bytes) Bytes) × (inode_reserve sectors0 full_map
        (record file0 { indirect_block = 0 })
        (pos 70000)
        cache2
      ≡ some ((false, record file0 { indirect_block = 0 }), c'))
    × sectors0.Stands c' 1000 (update disk0 0 zeros)
inode_reserve-full_example =
    inode_reserve-full sectors0 full_map 1000 (λ v c st. (c, refl, st))
      (record file0 { indirect_block = 0 }) 70000 disk0 (omega arith) (λ i h. omega arith) refl
      (omega arith) cache2 cache2-Stands

inode_close-inode_open_example :
    (c' : Cache (Array Bytes) Bytes) × ((do
      (_, opens') ← inode_open sectors0 full_map 7 []
      (_, opens'') ← inode_open sectors0 full_map 7 opens'
      inode_close sectors0 full_map (some 7) opens'')
        cache2
      ≡ some ([], c'))
    × sectors0.Stands c' 1000 disk0
unfolding find_open
inode_close-inode_open_example =
    inode_close-inode_open sectors0 full_map 1000 7 [] disk0 (omega arith) refl cache2 cache2-Stands
