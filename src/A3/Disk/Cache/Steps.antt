-- ===== src/A3/Disk/Cache/Steps.antt =====
-- The three ways in which the cache changes an entry: one that stays for its sector, one that is freed,
-- and one that is filled.
use mcgill_ecse_427_operatin.Prelude.{
  ℕ, ◌<◌, ◌≡◌, ◌≢◌, inl, inr, refl, sym, ap, subst, ◌∙◌, true, false, arith,
}
use mcgill_ecse_427_operatin.A3.Disk.Block.{Driver, Block}
use mcgill_ecse_427_operatin.A3.Disk.Cache.{Entry, Cache, buffer_cache_size}
use mcgill_ecse_427_operatin.A3.Disk.Cache.View.{
  Caches, Uncached, IsValid, Views, view, view-Views, Views-view,
}
use mcgill_ecse_427_operatin.A3.Disk.Cache.Exchange.{
  exchanged, Fits, exchanged-IsValid, Views-here, Views-other, Views-device, eq-cases,
}

module _ {D B : Type 0} (ops : Driver D B) where
  -- The cache is well formed, for a device of the same size, and every sector reads as before.
  pub record Keeps (c c' : Cache D B) : Type 0 where
    pub valid : IsValid ops c'
    pub size : c'.device.size ≡ c.device.size
    pub same : (t : ℕ) → view ops c' t ≡ view ops c t

  pub Keeps-trans : (c c' c'' : Cache D B) → Keeps c c' → Keeps c' c'' → Keeps c c''
  Keeps-trans c c' c'' f g = record {
    valid = g.valid;
    size = g.size ∙ f.size;
    same = λ t. g.same t ∙ f.same t;
  }

  pub view_cached :
      (c : Cache D B) (t i : ℕ)
      → IsValid ops c
      → Caches ops c t i
      → view ops c t ≡ (c.entries i).buffer
  view_cached c t i v h = Views-view ops c t (c.entries i).buffer v (inl (i, h, refl))

  module _ (c : Cache D B) (k : ℕ) (e : Entry B) (clock : ℕ) (device : Block D) (v : IsValid ops c)
      (in_cache : k < buffer_cache_size) (in_range : clock < buffer_cache_size)
      (same_size : device.size ≡ c.device.size) where
    module _ (was : (c.entries k).occupied ≡ true) (is : e.occupied ≡ true)
        (sector : e.disk_sector ≡ (c.entries k).disk_sector)
        (clean : e.dirty ≡ false → e.buffer ≡ ops.read e.disk_sector device.aux)
        (others : (t : ℕ)
          → e.disk_sector ≢ t
          → ops.read t device.aux ≡ ops.read t c.device.aux) where
      apart :
          (j : ℕ)
          → k ≢ j
          → j < buffer_cache_size
          → (c.entries j).occupied ≡ true
          → e.disk_sector ≢ (c.entries j).disk_sector
      apart j ne h o same = ne (v.distinct k j in_cache h was o (sym sector ∙ same))

      stays-Fits : Fits ops c k e clock device
      stays-Fits = record {
        clock_bound = in_range;
        same_size = same_size;
        alone = λ o j ne h oj same. apart j ne h oj (sym same);
        on_device = λ o. ground (arith, v.on_device k, same_size, sector);
        clean = λ o. clean;
        others = λ j ne h o. others (c.entries j).disk_sector (apart j ne h o);
      }

      pub stays-IsValid : IsValid ops (exchanged ops c k e clock device)
      stays-IsValid = exchanged-IsValid ops c k e clock device v stays-Fits

      pub stays-here : view ops (exchanged ops c k e clock device) e.disk_sector ≡ e.buffer
      stays-here =
          Views-view ops (exchanged ops c k e clock device) e.disk_sector e.buffer stays-IsValid
            (Views-here ops c k e clock device e.buffer in_cache is refl)

      pub stays-other :
          (t : ℕ) → e.disk_sector ≢ t → view ops (exchanged ops c k e clock device) t ≡ view ops c t
      stays-other t ne =
          Views-view ops (exchanged ops c k e clock device) t (view ops c t) stays-IsValid
            (elim (view-Views ops c t) [
              | inl (i, h, same) ↦ elim (eq-cases k i) [
                | inl eq ↦ absurd (ne (sector ∙ ap (λ j. (c.entries j).disk_sector) eq ∙ h.2))
                | inr other ↦
                    subst (Views ops (exchanged ops c k e clock device) t) same
                      (Views-other ops c k e clock device t i other h)
              ]
              | inr (miss, same) ↦
                  Views-device ops c k e clock device t (view ops c t) (λ o. ne) (λ j other. miss j)
                    (others t ne ∙ same)
            ])

      pub stays-Keeps : e.buffer ≡ (c.entries k).buffer → Keeps c (exchanged ops c k e clock device)
      stays-Keeps buffer = record {
        valid = stays-IsValid;
        size = same_size;
        same = λ t. elim (eq-cases e.disk_sector t) [
          | inl eq ↦
              subst (λ s. view ops (exchanged ops c k e clock device) s ≡ view ops c s) eq
                (stays-here
                  ∙ buffer
                  ∙ sym (view_cached c e.disk_sector k v (in_cache, was, sym sector)))
          | inr ne ↦ stays-other t ne
        ];
      }

    module _ (aux : device.aux ≡ c.device.aux) where
      -- Only entries that agree with the device are freed.
      pub freed-Keeps :
          (c.entries k).occupied ≡ true
          → e.occupied ≡ false
          → (c.entries k).buffer ≡ ops.read (c.entries k).disk_sector c.device.aux
          → Keeps c (exchanged ops c k e clock device)
      freed-Keeps was free clean =
          let fits : Fits ops c k e clock device = record {
            clock_bound = in_range;
            same_size = same_size;
            alone = λ o. cc;
            on_device = λ o. cc;
            clean = λ o. cc;
            others = λ j ne h o. rw aux;
          } in
          let valid = exchanged-IsValid ops c k e clock device v fits in
          record {
            valid = valid;
            size = same_size;
            same = λ t.
                Views-view ops (exchanged ops c k e clock device) t (view ops c t) valid
                  (elim (view-Views ops c t) [
                    | inl (i, h, same) ↦ elim (eq-cases k i) [
                      | inl eq ↦
                          Views-device ops c k e clock device t (view ops c t) (λ o. cc)
                            (λ j other hj oj at. other (
                              v.distinct k j in_cache hj was oj
                                (ap (λ l. (c.entries l).disk_sector) eq ∙ h.2 ∙ sym at)))
                            (ap (ops.read t) aux
                              ∙ ap (λ s. ops.read s c.device.aux)
                                  (sym h.2 ∙ sym (ap (λ l. (c.entries l).disk_sector) eq))
                              ∙ sym clean
                              ∙ ap (λ l. (c.entries l).buffer) eq
                              ∙ same)
                      | inr other ↦
                          subst (Views ops (exchanged ops c k e clock device) t) same
                            (Views-other ops c k e clock device t i other h)
                    ]
                    | inr (miss, same) ↦
                        Views-device ops c k e clock device t (view ops c t) (λ o. cc)
                          (λ j other. miss j) (ap (ops.read t) aux ∙ same)
                  ]);
          }

      -- A free entry takes a sector that no entry holds.
      module _ (free : (c.entries k).occupied ≡ false) (is : e.occupied ≡ true)
          (miss : Uncached ops c e.disk_sector) (on_device : e.disk_sector < c.device.size)
          (read : e.buffer ≡ ops.read e.disk_sector c.device.aux) where
        filled-Fits : Fits ops c k e clock device
        filled-Fits = record {
          clock_bound = in_range;
          same_size = same_size;
          alone = λ o j ne. miss j;
          on_device = λ o. omega (arith, same_size);
          clean = λ o d. read ∙ sym (ap (ops.read e.disk_sector) aux);
          others = λ j ne h o. ap (ops.read (c.entries j).disk_sector) aux;
        }

        pub filled-Keeps : Keeps c (exchanged ops c k e clock device)
        filled-Keeps =
            let valid = exchanged-IsValid ops c k e clock device v filled-Fits in
            record {
              valid = valid;
              size = same_size;
              same = λ t.
                  Views-view ops (exchanged ops c k e clock device) t (view ops c t) valid
                    (elim (view-Views ops c t) [
                      | inl (i, h, same) ↦
                          subst (Views ops (exchanged ops c k e clock device) t) same (
                            Views-other ops c k e clock device t i
                              (λ eq. ground (arith, h, ap (λ l. (c.entries l).occupied) eq)) h)
                      | inr (gone, same) ↦ elim (eq-cases e.disk_sector t) [
                        | inl eq ↦
                            subst
                              (λ s. Views ops (exchanged ops c k e clock device) s (view ops c t))
                              eq
                              (Views-here ops c k e clock device (view ops c t) in_cache is
                                (read ∙ ap (λ s. ops.read s c.device.aux) eq ∙ same))
                        | inr ne ↦
                            Views-device ops c k e clock device t (view ops c t) (λ o. ne)
                              (λ j other. gone j) (ap (ops.read t) aux ∙ same)
                      ]
                    ]);
            }
