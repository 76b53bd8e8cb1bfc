-- ===== src/Prelude/Scan.antt =====
-- `for (i = lo; i < lo + n; i++) if (test(i)) return i;`, the search loop that the memories share,
-- and arrays as functions of the index.
use Prim.Native.Nat.{ℕ, zero, suc, ◌+◌, ◌≤◌, ◌<◌}
use mathlib.Core.Path.{◌≡◌, refl, subst}
use mathlib.Core.Logic.{◌≢◌, ◌⊎◌, inl, inr}
use mathlib.Core.Bool.{Bool, true, false}
use mathlib.Core.Option.{Option, none, some}
use native.Mathlib.Omega.{arith}
use mcgill_ecse_427_operatin.Prelude.Tests.{◌==◌, if◌then◌else◌, Bool-cases, ==_iff}

abbrev pub Array {ℓ} : Type ℓ → Type ℓ
Array A = ℕ → A

abbrev pub update {ℓ} : {A : Type ℓ} → Array A → ℕ → A → Array A
update a i v j = if i == j then v else a j

-- `n` rounds from the index `lo`.
unfoldable pub scan : (ℕ → Bool) → ℕ → ℕ → Option ℕ
scan test lo zero = none
scan test lo (suc n) = if test lo then some lo else scan test (lo + 1) n

-- `j` is the first index of the range that passes.
pub record IsFirst (test : ℕ → Bool) (lo n j : ℕ) : Type 0 where
  pub lower : lo ≤ j
  pub upper : j < lo + n
  pub hit : test j ≡ true
  pub before : (l : ℕ) → lo ≤ l → l < j → test l ≡ false

abbrev pub Misses : (ℕ → Bool) → ℕ → ℕ → Type 0
Misses test lo n = (l : ℕ) → lo ≤ l → l < lo + n → test l ≡ false

-- The library's order is not decided by matching, so this splits `lo ≤ l`.
le-cases : (a b : ℕ) → a ≤ b → (a ≡ b) ⊎ (a + 1 ≤ b)
le-cases a b h = ground arith

before_step :
    (test : ℕ → Bool) (lo : ℕ) (Q : ℕ → Type 0)
    → test lo ≡ false
    → ((l : ℕ) → lo + 1 ≤ l → Q l → test l ≡ false)
    → (l : ℕ) → lo ≤ l
    → Q l
    → test l ≡ false
before_step test lo Q miss rest l h q = elim (le-cases lo l h) [
  | inl e ↦ rw e at miss
  | inr more ↦ rest l more q
]

pub scan-cases :
    (test : ℕ → Bool) (lo n : ℕ)
    → ((scan test lo n ≡ none) × Misses test lo n)
      ⊎ ((j : ℕ) × (scan test lo n ≡ some j) × IsFirst test lo n j)
unfolding scan
scan-cases test lo zero = inl (refl, λ l h k. absurd (omega arith))
scan-cases test lo (suc n) = elim (Bool-cases (test lo)) [
  | inl hit ↦ inr (
    lo,
    rw hit,
    record {
      lower = omega arith;
      upper = omega arith;
      hit = hit;
      before = λ l h k. absurd (omega arith);
    },
  )
  | inr miss ↦ elim (scan-cases test (lo + 1) n) [
    | inl (e, m) ↦ inl (
      rw miss e,
      λ l h k. before_step test lo (λ l. l < lo + suc n) miss (λ l h k. m l h (omega arith)) l h k,
    )
    | inr (j, e, f) ↦ inr (
      j,
      rw miss e,
      record {
        lower = omega (arith, f.lower);
        upper = omega (arith, f.upper);
        hit = f.hit;
        before = before_step test lo (λ l. l < j) miss f.before;
      },
    )
  ]
]

lt-cases : (a b : ℕ) → (a ≡ b) ⊎ ((a < b) ⊎ (b < a))
lt-cases a b = ground arith

-- A range has at most one first index.
IsFirst-unique :
    (test : ℕ → Bool) (lo n i j : ℕ) → IsFirst test lo n i → IsFirst test lo n j → i ≡ j
IsFirst-unique test lo n i j f g = elim (lt-cases i j) [
  | inl e ↦ e
  | inr (inl h) ↦ cc (f.hit, g.before i f.lower h)
  | inr (inr h) ↦ cc (g.hit, f.before j g.lower h)
]

pub scan-first : (test : ℕ → Bool) (lo n i : ℕ) → IsFirst test lo n i → scan test lo n ≡ some i
scan-first test lo n i f = elim (scan-cases test lo n) [
  | inl (e, miss) ↦ cc (f.hit, miss i f.lower f.upper)
  | inr (j, e, g) ↦ rw (IsFirst-unique test lo n i j f g) e
]

pub scan-Misses : (test : ℕ → Bool) (lo n : ℕ) → Misses test lo n → scan test lo n ≡ none
scan-Misses test lo n miss = elim (scan-cases test lo n) [
  | inl (e, _) ↦ e
  | inr (j, e, g) ↦ cc (g.hit, miss j g.lower g.upper)
]

module _ {ℓ} {A : Type ℓ} where
  pub update_self : (a : Array A) (i : ℕ) (v : A) → update a i v i ≡ v
  update_self a i v = ground arith

  pub update_ne : (a : Array A) (i : ℕ) (v : A) (j : ℕ) → i ≢ j → update a i v j ≡ a j
  update_ne a i v j h = ground arith

  -- What holds of the new entry and of the old one at an index holds of the entry there.
  pub update-holds :
      (P : ℕ → A → Type 0) (a : Array A) (i : ℕ) (v : A) (j : ℕ)
      → P i v
      → P j (a j)
      → P j (update a i v j)
  update-holds P a i v j new old = elim (Bool-cases (i == j)) [
    | inl e ↦ rw e (subst (λ k. P k v) ((==_iff i j).0 e) new)
    | inr e ↦ rw e old
  ]
