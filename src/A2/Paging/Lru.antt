-- ===== src/A2/Paging/Lru.antt =====
-- The replacement policy of `pick_victim_frame`: the loop compares the first slots of the frames.
use native.Mathlib.Nat.{add-zero}
use mcgill_ecse_427_operatin.Prelude.{
  ℕ, zero, suc, ◌+◌, ◌*◌, ◌≤◌, ◌<◌, ◌≡◌, ◌⊎◌, inl, inr, ltb, if◌then◌else◌, Bool-cases, Array,
  arith, ltb→lt,
}
use mcgill_ecse_427_operatin.A2.Memory.{Slot, frame_size}
use mcgill_ecse_427_operatin.A2.Paging.{lru_from, lru_frame, frame_store_size}

-- The `last_used` of the first slot of a frame, the only one of its three that the loop reads.
abbrev pub stamp : Array Slot → ℕ → ℕ
stamp m f = (m (f * frame_size)).last_used

-- `b` is the first of the least stamps among the frames below `n`.
pub record IsLru (m : Array Slot) (n b : ℕ) : Type 0 where
  pub inside : b < n
  pub least : (f : ℕ) → f < n → stamp m b ≤ stamp m f
  pub first : (f : ℕ) → f < b → stamp m b < stamp m f

last_cases : (f n : ℕ) → f < n + 1 → (f < n) ⊎ (f ≡ n)
last_cases f n h = ground arith

regroup : (n k : ℕ) → n + 1 + k ≡ n + suc k
regroup n k = omega arith

one_add : (k : ℕ) → suc k ≡ 1 + k
one_add k = omega arith

below_one : (f : ℕ) → f < 1 → f ≡ 0
below_one f h = omega arith

module _ (m : Array Slot) where
  -- One round of the loop.
  IsLru-step :
      (n b : ℕ) → IsLru m n b → IsLru m (n + 1) (if ltb (stamp m n) (stamp m b) then n else b)
  IsLru-step n b r = elim (Bool-cases (ltb (stamp m n) (stamp m b))) [
    | inl e ↦ rw e (record {
      inside = omega arith;
      least = λ f h. elim (last_cases f n h) [
        | inl h' ↦ ground (arith, r.least f h')
        | inr e' ↦ rw e' (omega arith)
      ];
      first = λ f h. ground (arith, r.least f h);
    })
    | inr e ↦ rw e (record {
      inside = omega (arith, r.inside);
      least =
          λ f h. elim (last_cases f n h) [ inl h' ↦ r.least f h' | inr e' ↦ rw e' (ground arith) ];
      first = r.first;
    })
  ]

  lru_from-IsLru : (n k b : ℕ) → IsLru m n b → IsLru m (n + k) (lru_from m n k b)
  unfolding lru_from
  lru_from-IsLru n zero b r = rw add-zero r
  lru_from-IsLru n (suc k) b r = rw (← regroup n k) (lru_from-IsLru (n + 1) k _ (IsLru-step n b r))

  first_round : IsLru m 1 0
  first_round = record {
    inside = omega arith;
    least = λ f h. rw (below_one f h) (omega arith);
    first = λ f h. absurd (omega arith);
  }

  lru_from-start : (n : ℕ) → 0 < n → IsLru m n (lru_from m 0 n 0)
  unfolding lru_from
  lru_from-start zero h = absurd (omega arith)
  lru_from-start (suc k) h = elim (Bool-cases (ltb (stamp m 0) (stamp m 0))) [
    | inl e ↦ absurd (omega (arith, ltb→lt _ _ e))
    | inr e ↦ rw (e, one_add k) (lru_from-IsLru 1 k 0 first_round)
  ]

  -- With at least one frame in the store, the victim is a frame of the store, no frame's first slot
  -- has an earlier `last_used` than the victim's first slot, and the first slot of every frame
  -- before it has a later one.
  pub lru_frame-IsLru :
      (threshold varmemsize : ℕ)
      → frame_size ≤ threshold
      → IsLru m (frame_store_size threshold varmemsize) (lru_frame threshold varmemsize m)
  unfolding lru_frame
  lru_frame-IsLru threshold varmemsize h = lru_from-start _ (omega arith)
