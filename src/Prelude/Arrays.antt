-- ===== src/Prelude/Arrays.antt =====
-- C arrays as functions of the index, counted loops over them, and the counts they stand for.
-- `loop (suc n)` is the state after one more round than `loop n`, so a proof is by induction on the
-- number of rounds done.
use Prim.Native.Nat.{ℕ, zero, suc, ◌+◌, ◌*◌, ◌%◌, ◌≤◌, ◌<◌}
use mathlib.Core.Path.{◌≡◌, refl}
use mathlib.Core.Logic.{◌≢◌, ◌⊎◌, inl, inr}
use mathlib.Core.Bool.{Bool, true, false}
use native.Mathlib.Omega.{arith}
use bulldog.Prelude.Tests.{if◌then◌else◌, ◌==◌, Bool-cases}

-- `f[i] = v`
abbrev pub update {ℓ} : {A : Type ℓ} → (ℕ → A) → ℕ → A → ℕ → A
update f i v j = if i == j then v else f j

-- `for (i = 0; i < n; ++i) s = body(i, s);`
abbrev pub loop {ℓ} : {S : Type ℓ} → ℕ → (ℕ → S → S) → S → S
loop zero body s = s
loop (suc n) body s = body n (loop n body s)

-- `if (b) ++ret;` on a `uint8_t`
abbrev pub tick : Bool → ℕ → ℕ
tick b r = if b then (r + 1) % 256 else r

-- How many `i < n` pass a test: the specification of the counting loops.
abbrev pub bit : Bool → ℕ
bit true = 1
bit false = 0

unfoldable pub count : (ℕ → Bool) → ℕ → ℕ
count t zero = 0
count t (suc n) = bit (t n) + count t n

pub count-le : (t : ℕ → Bool) (n : ℕ) → count t n ≤ n
unfolding count
count-le t zero = omega arith
count-le t (suc n) = ground (arith, count-le t n)

-- A counting loop on a `uint8_t` does not wrap below 256 rounds.
pub loop-tick : (t : ℕ → Bool) (n : ℕ) → n < 256 → loop n (λ i r. tick (t i) r) 0 ≡ count t n
unfolding count
loop-tick t zero h = refl
loop-tick t (suc n) h = ground (arith, loop-tick t n, count-le t n)

pub count_pos : (t : ℕ → Bool) (n i : ℕ) → i < n → t i ≡ true → 0 < count t n
unfolding count
count_pos t zero i h e = elim h [ ]
count_pos t (suc n) i h e = elim (Bool-cases (n == i)) [
  | inl q ↦ ground arith
  | inr q ↦ ground (arith, count_pos t n i)
]

-- A positive count has an index behind it.
pub count_index : (t : ℕ → Bool) (n : ℕ) → 0 < count t n → (i : ℕ) × (i < n) × (t i ≡ true)
unfolding count
count_index t zero h = absurd (omega arith)
count_index t (suc n) h = elim (Bool-cases (t n)) [
  | inl q ↦ (n, omega arith, q)
  | inr q ↦ let (i, l, e) = count_index t n (ground arith) in (i, omega arith, e)
]

pub count_congr : (t u : ℕ → Bool) (n : ℕ) → ((i : ℕ) → i < n → t i ≡ u i) → count t n ≡ count u n
unfolding count
count_congr t u zero h = refl
count_congr t u (suc n) h = ground (arith, h n, count_congr t u n (λ i l. h i (omega arith)))

pub count_mono :
    (t u : ℕ → Bool) (n : ℕ) → ((i : ℕ) → i < n → t i ≡ true → u i ≡ true) → count t n ≤ count u n
unfolding count
count_mono t u zero h = omega arith
count_mono t u (suc n) h = ground (arith, h n, count_mono t u n (λ i l. h i (omega arith)))

-- Two tests that agree but at one index, where the first passes and the second fails.
pub count_drop :
    (t u : ℕ → Bool) (n p : ℕ)
    → p < n
    → t p ≡ true
    → u p ≡ false
    → ((i : ℕ) → i ≢ p → t i ≡ u i)
    → count t n ≡ suc (count u n)
unfolding count
count_drop t u zero p l e f h = elim l [ ]
count_drop t u (suc n) p l e f h = elim (ℕ-cases n p) [
  | inl q ↦ ground (arith, count_congr t u n (λ i k. h i (omega arith)))
  | inr q ↦ ground (arith, h n, count_drop t u n p (omega arith) e f h)
]
  where
    ℕ-cases : (a b : ℕ) → (a ≡ b) ⊎ (a ≢ b)
    ℕ-cases a b = ground arith

pub count_lt : (t : ℕ → Bool) (n p : ℕ) → p < n → t p ≡ false → count t n < n
unfolding count
count_lt t zero p l e = elim l [ ]
count_lt t (suc n) p l e = elim (Bool-cases (n == p)) [
  | inl q ↦ ground (arith, count-le t n)
  | inr q ↦ ground (arith, count_lt t n p)
]

pub update_self {ℓ} : {A : Type ℓ} (f : ℕ → A) (i : ℕ) (v : A) → update f i v i ≡ v
update_self f i v = ground arith

pub update_ne {ℓ} : {A : Type ℓ} (f : ℕ → A) (i : ℕ) (v : A) (j : ℕ) → i ≢ j → update f i v j ≡ f j
update_ne f i v j h = ground arith

pub count_none : (t : ℕ → Bool) (n : ℕ) → ((i : ℕ) → i < n → t i ≡ false) → count t n ≡ 0
unfolding count
count_none t zero h = refl
count_none t (suc n) h = ground (arith, h n, count_none t n (λ i l. h i (omega arith)))

-- The sum of the first `n` entries.
unfoldable pub total : (ℕ → ℕ) → ℕ → ℕ
total f zero = 0
total f (suc n) = f n + total f n

pub total_congr : (f h : ℕ → ℕ) (n : ℕ) → ((i : ℕ) → i < n → f i ≡ h i) → total f n ≡ total h n
unfolding total
total_congr f h zero e = refl
total_congr f h (suc n) e = omega (arith, e n, total_congr f h n (λ i l. e i (omega arith)))

pub total-update : (f : ℕ → ℕ) (i v n : ℕ) → i < n → total (update f i v) n + f i ≡ total f n + v
unfolding total
total-update f i v zero l = elim l [ ]
total-update f i v (suc n) l = elim (Bool-cases (i == n)) [
  | inl e ↦ ground (arith, total_congr (update f i v) f n (λ j k. ground arith))
  | inr e ↦ ground (arith, total-update f i v n)
]

pub total-le : (f : ℕ → ℕ) (m n : ℕ) → ((i : ℕ) → i < n → f i ≤ m) → total f n ≤ m * n
unfolding total
total-le f m zero h = omega arith
total-le f m (suc n) h = omega (arith, h n, total-le f m n (λ i l. h i (omega arith)))

pub total_mono : (f : ℕ → ℕ) (n m : ℕ) → n ≤ m → total f n ≤ total f m
unfolding total
total_mono f n zero l = let z : n ≡ 0 = omega arith in rw z (omega arith)
total_mono f n (suc m) l = elim (Bool-cases (n == suc m)) [
  | inl e ↦ let z : n ≡ suc m = ground arith in rw z (omega arith)
  | inr e ↦ omega (arith, total_mono f n m (ground arith))
]
