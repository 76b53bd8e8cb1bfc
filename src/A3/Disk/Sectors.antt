-- ===== src/A3/Disk/Sectors.antt =====
-- What the file system relies on of a3/fs/cache.c: `buffer_cache_read` and `buffer_cache_write` on sectors that
-- read back what was written. Programs over such a store, and what they do on a plain array of sectors.
use mcgill_ecse_427_operatin.Prelude.{ℕ, ◌<◌, ◌≡◌, refl, Option, none, some, Array, update}

-- A program over a state that may stop: by a panic, by an assertion that fails, or without rounds.
abbrev pub Io : Type 0 → Type 0 → Type 0
Io S A = S → Option (A × S)

abbrev pub pure : {S A : Type 0} → A → Io S A
pure a c = some (a, c)

abbrev pub stop : {S A : Type 0} → Io S A
stop c = none

infixl 5 ◌>>=◌ ◌>>◌
abbrev pub ◌>>=◌ : {S A C : Type 0} → Io S A → (A → Io S C) → Io S C
◌>>=◌ m f c = elim (m c) [ none ↦ none | some (a, c') ↦ f a c' ]

abbrev pub ◌>>◌ : {S C : Type 0} → Io S (Unit {0}) → Io S C → Io S C
m >> k = m >>= λ _. k

-- The store is well formed, has `n` sectors, and reads as the array.
pub record Sectors (S B : Type 0) : Type 1 where
  pub read : ℕ → Io S B
  pub write : ℕ → B → Io S (Unit {0})
  pub Stands : S → ℕ → Array B → Type 0
  pub read-Stands :
      (n s : ℕ) (c : S) (v : Array B)
      → s < n
      → Stands c n v
      → (c' : S) × (read s c ≡ some (v s, c')) × Stands c' n v
  pub write-Stands :
      (n s : ℕ) (b : B) (c : S) (v : Array B)
      → s < n
      → Stands c n v
      → (c' : S) × (write s b c ≡ some (tt, c')) × Stands c' n (update v s b)

module _ {S B : Type 0} (io : Sectors S B) (n : ℕ) where
  -- On every store that stands for the array `v`, the program returns `a`, and the store then stands for `v'`.
  abbrev pub Runs : {A : Type 0} → Io S A → Array B → A → Array B → Type 0
  Runs m v a v' = (c : S) → io.Stands c n v → (c' : S) × (m c ≡ some (a, c')) × io.Stands c' n v'

  pub pure-Runs : {A : Type 0} (a : A) (v : Array B) → Runs (pure a) v a v
  pure-Runs a v c st = (c, refl, st)

  read-Runs : (s : ℕ) (v : Array B) → s < n → Runs (io.read s) v (v s) v
  read-Runs s v h c st = io.read-Stands n s c v h st

  pub write-Runs : (s : ℕ) (b : B) (v : Array B) → s < n → Runs (io.write s b) v tt (update v s b)
  write-Runs s b v h c st = io.write-Stands n s b c v h st

  pub >>=-Runs :
      {A C : Type 0} (m : Io S A) (f : A → Io S C) (v v' v'' : Array B) (a : A) (x : C)
      → Runs m v a v'
      → Runs (f a) v' x v''
      → Runs (m >>= f) v x v''
  >>=-Runs m f v v' v'' a x first then_ c st =
      let (d, e, st') = first c st in
      let (c', e', st'') = then_ d st' in (c', rw (e, ◌>>=◌) e', st'')

  -- A program that starts by reading, and one that starts by writing.
  pub read_then-Runs :
      {C : Type 0} (s : ℕ) (f : B → Io S C) (v v' : Array B) (x : C)
      → s < n
      → Runs (f (v s)) v x v'
      → Runs (io.read s >>= f) v x v'
  read_then-Runs s f v v' x h rest = >>=-Runs (io.read s) f v v v' (v s) x (read-Runs s v h) rest

  pub write_then-Runs :
      {C : Type 0} (s : ℕ) (b : B) (f : Io S C) (v v' : Array B) (x : C)
      → s < n
      → Runs f (update v s b) x v'
      → Runs (io.write s b >> f) v x v'
  write_then-Runs s b f v v' x h rest =
      >>=-Runs (io.write s b) (λ _. f) v (update v s b) v' tt x (write-Runs s b v h) rest
