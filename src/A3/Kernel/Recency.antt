-- ===== src/A3/Kernel/Recency.antt =====
-- The order of the cache under `touch_page`.
use mcgill_ecse_427_operatin.Prelude.{ℕ, ◌≡◌, Bool, true, false, Option, some, List, [], ◌∷◌, ◌++◌}
use mcgill_ecse_427_operatin.A3.Pcb.{Pcb}
use mcgill_ecse_427_operatin.A3.Machine.{Machine, ok}
use mcgill_ecse_427_operatin.A3.Kernel.{take_out, same_page, lookup_page, touch_page}

abbrev pub AllMiss : {A : Type 0} → (A → Option Bool) → List A → Type 0
AllMiss test [] = Unit {0}
AllMiss test (x ∷ xs) = (test x ≡ some false) × AllMiss test xs

take_out-first :
    {A : Type 0} (test : A → Option Bool) (xs : List A) (y : A) (ys : List A)
    → AllMiss test xs
    → test y ≡ some true
    → take_out test (xs ++ (y ∷ ys)) ≡ some (y, xs ++ ys)
unfolding take_out
take_out-first test [] y ys miss hit = rw hit
take_out-first test (x ∷ xs) y ys miss hit = rw (miss.0, take_out-first test xs y ys miss.1 hit)

module _ {W : Type 0} (p i : ℕ) (b : Pcb) where
  -- Whether an entry of the cache is at the position of page `i` of the block.
  abbrev pub is_touched : Machine W → ℕ × ℕ → Option Bool
  is_touched m e = same_page (b.page_table i) (lookup_page (m.pcbs e.0) e.1)

  pub touch_page-front :
      (m : Machine W) (front back : List (ℕ × ℕ)) (e : ℕ × ℕ)
      → m.pcbs p ≡ some b
      → m.lru_cache ≡ front ++ (e ∷ back)
      → AllMiss (is_touched m) front
      → is_touched m e ≡ some true
      → touch_page p i m ≡ ok tt (record m { lru_cache = e ∷ (front ++ back) })
  unfolding touch_page
  touch_page-front m front back e block cache miss hit =
      rw (block, cache, take_out-first (is_touched m) front e back miss hit)
