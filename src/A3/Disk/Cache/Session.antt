-- ===== src/A3/Disk/Cache/Session.antt =====
-- A session on the disk, from `buffer_cache_init` to `buffer_cache_close`, against an array of sectors.
use mcgill_ecse_427_operatin.Prelude.{
  ℕ, zero, suc, ◌+◌, ◌<◌, ◌≡◌, inl, inr, refl, sym, ap, subst, ◌∙◌, true, false, Bool-cases, ==_iff,
  ◌==◌, if◌then◌else◌, Option, some, List, [], ◌∷◌, Array, update, map_range-inside, arith,
}
use mcgill_ecse_427_operatin.A3.Disk.Block.{◌>>=◌, Driver}
use mcgill_ecse_427_operatin.A3.Disk.Cache.{
  Cache, buffer_cache_size, buffer_cache_init, buffer_cache_flush, close_from, buffer_cache_close,
  buffer_cache_read, buffer_cache_write,
}
use mcgill_ecse_427_operatin.A3.Disk.Cache.View.{IsValid, view, view-Views, Views-view}
use mcgill_ecse_427_operatin.A3.Disk.Cache.Steps.{Keeps, Keeps-trans}
use mcgill_ecse_427_operatin.A3.Disk.Cache.Evict.{Keeps-refl, SameSlots, SameSlots-refl, flush_lem}
use mcgill_ecse_427_operatin.A3.Disk.Cache.Exchange.{eq-cases}
use mcgill_ecse_427_operatin.A3.Disk.Cache.Transparent.{
  buffer_cache_read-view, buffer_cache_write-view,
}

pub data Call (B : Type 0) : Type 0 where
  read : ℕ → Call B
  write : ℕ → B → Call B

abbrev sector_of : {B : Type 0} → Call B → ℕ
sector_of (read s) = s
sector_of (write s b) = s

abbrev InRange : {B : Type 0} → ℕ → List (Call B) → Type 0
InRange n [] = Unit {0}
InRange n (call ∷ calls) = (sector_of call < n) × InRange n calls

-- What the reads give, and the sectors in the end, on a plain array.
unfoldable pub plain : {B : Type 0} → List (Call B) → Array B → List B × Array B
plain [] sectors = ([], sectors)
plain (read s ∷ calls) sectors = let rest = plain calls sectors in (sectors s ∷ rest.0, rest.1)
plain (write s b ∷ calls) sectors = plain calls (update sectors s b)

module _ {D B : Type 0} (ops : Driver D B) where
  -- The same through the cache.
  unfoldable pub run : ℕ → List (Call B) → Cache D B → Option (List B × Cache D B)
  run rounds [] c = some ([], c)
  run rounds (read s ∷ calls) c = do
    (b, c') ← buffer_cache_read ops rounds s c
    (bs, c'') ← run rounds calls c'
    some (b ∷ bs, c'')
  run rounds (write s b ∷ calls) c = do
    c' ← buffer_cache_write ops rounds s b c
    run rounds calls c'

  abbrev pub session : ℕ → List (Call B) → Cache D B → Option (List B × Cache D B)
  session rounds calls c = do
    (bs, c') ← run rounds calls (buffer_cache_init c)
    c'' ← buffer_cache_close ops c'
    some (bs, c'')

  -- The cache stands for an array.
  Stands : Cache D B → Array B → Type 0
  Stands c sectors = (t : ℕ) → view ops c t ≡ sectors t

  run-plain :
      (rounds : ℕ) (calls : List (Call B)) (c : Cache D B) (sectors : Array B)
      → IsValid ops c
      → buffer_cache_size < rounds
      → InRange c.device.size calls
      → Stands c sectors
      → (c' : Cache D B) × (run rounds calls c ≡ some ((plain calls sectors).0, c'))
        × IsValid ops c'
        × Stands c' (plain calls sectors).1
  unfolding run plain Stands
  run-plain rounds [] c sectors v k r st = (c, refl, v, st)
  run-plain rounds (read s ∷ calls) c sectors v k r st =
      let (d, done, kept) = buffer_cache_read-view ops rounds s c v k r.0 in
      let (c', e, v', st') =
        run-plain rounds calls d sectors kept.valid k
          (subst (λ n. InRange n calls) (sym kept.size) r.1) (λ t. kept.same t ∙ st t) in
      (c', rw (done, e, st s), v', st')
  run-plain rounds (write s b ∷ calls) c sectors v k r st =
      let (d, done, valid, size, here, other) = buffer_cache_write-view ops rounds s b c v k r.0 in
      let (c', e, v', st') =
        run-plain rounds calls d (update sectors s b) valid k
          (subst (λ n. InRange n calls) (sym size) r.1)
          (λ t. elim (Bool-cases (s == t)) [
            | inl eq ↦ rw eq (subst (λ u. view ops d u ≡ b) ((==_iff s t).0 eq) here)
            | inr ne ↦ rw ne (other t (λ same. ground (arith, same)) ∙ st t)
          ]) in
      (c', rw (done, e), v', st')

  flushed_entry :
      (c : Cache D B) (i : ℕ)
      → IsValid ops c
      → i < buffer_cache_size
      → (c' : Cache D B) × ((if (c.entries i).occupied then buffer_cache_flush ops i c else some c)
          ≡ some c')
        × Keeps ops c c'
        × SameSlots ops c c'
        × ((c'.entries i).occupied ≡ true → (c'.entries i).dirty ≡ false)
  flushed_entry c i v h = elim (Bool-cases (c.entries i).occupied) [
    | inl was ↦
        let (c', e, kept, slots, clean) = flush_lem ops c i v h was in
        (c', rw was e, kept, slots, λ o. clean)
    | inr free ↦ (c, rw free, Keeps-refl ops c v, SameSlots-refl ops c, λ o. cc)
  ]

  -- Whether each entry below `n` agrees with the device.
  Cleaned : ℕ → Cache D B → Type 0
  Cleaned n c = (j : ℕ) → j < n → (c.entries j).occupied ≡ true → (c.entries j).dirty ≡ false

  Cleaned-step :
      (i : ℕ) (c c' : Cache D B)
      → SameSlots ops c c'
      → ((c'.entries i).occupied ≡ true → (c'.entries i).dirty ≡ false)
      → Cleaned i c
      → Cleaned (i + 1) c'
  unfolding Cleaned
  Cleaned-step i c c' slots here clean j h o = elim (eq-cases i j) [
    | inl eq ↦ subst (λ l. (c'.entries l).occupied ≡ true → (c'.entries l).dirty ≡ false) eq here o
    | inr ne ↦ slots.dirty j (clean j (omega arith) (sym (slots.occupied j) ∙ o))
  ]

  close_from-Cleaned :
      (i n : ℕ) (c : Cache D B)
      → IsValid ops c
      → i + n ≡ buffer_cache_size
      → Cleaned i c
      → (c' : Cache D B) × (close_from ops i n c ≡ some c')
        × Keeps ops c c'
        × Cleaned buffer_cache_size c'
  unfolding close_from
  close_from-Cleaned i zero c v end clean =
      let last : i ≡ buffer_cache_size = omega arith in
      (c, refl, Keeps-refl ops c v, subst (λ n. Cleaned n c) last clean)
  close_from-Cleaned i (suc n) c v end clean =
      let (d, e, kept, slots, here) = flushed_entry c i v (omega arith) in
      let (c', rest, kept', all) =
        close_from-Cleaned (i + 1) n d kept.valid (omega arith)
          (Cleaned-step i c d slots here clean) in
      (c', rw e rest, Keeps-trans ops c d c' kept kept', all)

  -- Where no entry is dirty, the device holds what the cache stands for.
  Cleaned-view :
      (c : Cache D B) (t : ℕ)
      → IsValid ops c
      → Cleaned buffer_cache_size c
      → ops.read t c.device.aux ≡ view ops c t
  unfolding Cleaned
  Cleaned-view c t v clean = elim (view-Views ops c t) [
    | inl (i, h, same) ↦
        ap (λ s. ops.read s c.device.aux) (sym h.2)
        ∙ sym (v.clean i h.0 h.1 (clean i h.0 h.1))
        ∙ same
    | inr (miss, same) ↦ same
  ]

  -- Closing a well-formed cache does not fail, and the device then has in each sector what was read there
  -- through the cache.
  buffer_cache_close-view :
      (c : Cache D B)
      → IsValid ops c
      → (c' : Cache D B) × (buffer_cache_close ops c ≡ some c')
        × IsValid ops c'
        × ((t : ℕ) → ops.read t c'.device.aux ≡ view ops c t)
  unfolding Cleaned
  buffer_cache_close-view c v =
      let (c', e, kept, clean) =
        close_from-Cleaned 0 buffer_cache_size c v (omega arith) (λ j h o. absurd (omega arith)) in
      (c', e, kept.valid, λ t. Cleaned-view c' t kept.valid clean ∙ kept.same t)

  init-empty :
      (c : Cache D B) (i : ℕ)
      → i < buffer_cache_size
      → ((buffer_cache_init c).entries i).occupied ≡ false
  unfolding buffer_cache_init
  init-empty c i h =
      ap (λ e. e.occupied)
        (map_range-inside 0 buffer_cache_size (λ e. record e { occupied = false; dirty = false })
          c.entries i (omega arith) (omega arith))

  init-IsValid : (c : Cache D B) → c.clock < buffer_cache_size → IsValid ops (buffer_cache_init c)
  init-IsValid c k = record {
    clock_bound = unfold buffer_cache_init in k;
    distinct = λ i j h h' o o' same. cc (init-empty c i h);
    on_device = λ i h o. cc (init-empty c i h);
    clean = λ i h o d. cc (init-empty c i h);
  }

  init-view :
      (c : Cache D B) (t : ℕ)
      → c.clock < buffer_cache_size
      → view ops (buffer_cache_init c) t ≡ ops.read t c.device.aux
  init-view c t k =
      Views-view ops (buffer_cache_init c) t (ops.read t c.device.aux) (init-IsValid c k)
        (inr (λ i h o. cc (init-empty c i h), unfold buffer_cache_init in refl))

  -- For any calls that read and write sectors of the device, between `buffer_cache_init` and
  -- `buffer_cache_close`, with the clock in range and at least 65 rounds for an eviction: there is
  -- no panic, no assertion fails, the reads give what they give on an array with the sectors of the
  -- device, and in the end the device has the sectors of that array.
  pub session-plain :
      (rounds : ℕ) (calls : List (Call B)) (c : Cache D B)
      → c.clock < buffer_cache_size
      → buffer_cache_size < rounds
      → InRange c.device.size calls
      → (c' : Cache D B) × (session rounds calls c
          ≡ some ((plain calls (λ t. ops.read t c.device.aux)).0, c'))
        × ((t : ℕ) → ops.read t c'.device.aux ≡ (plain calls (λ t. ops.read t c.device.aux)).1 t)
  unfolding Stands
  session-plain rounds calls c start k r =
      let (d, done, valid, st) =
        run-plain rounds calls (buffer_cache_init c) (λ t. ops.read t c.device.aux)
          (init-IsValid c start) k (unfold buffer_cache_init in r) (λ t. init-view c t start) in
      let (c', closed, valid', same) = buffer_cache_close-view d valid in
      (c', rw (done, closed), λ t. same t ∙ st t)
