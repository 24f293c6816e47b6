-- ===== src/Kernel/Prepare/Counts.antt =====
-- Counts of tests that pass for a first part of the indices, for `PreStack` of
-- modules/engine/src/term_eval_kernel.cpp.
use bulldog.Prelude.{
  ℕ, zero, suc, ◌≤◌, ◌<◌, ◌≡◌, refl, ap, Bool, true, false, ◌==◌, arith, Bool-cases, inl, inr,
  count,
}
use bulldog.Kernel.Rows.{count-suc}

pub count_flat :
    (t : ℕ → Bool) (m n : ℕ)
    → m ≤ n
    → ((i : ℕ) → m ≤ i → i < n → t i ≡ false)
    → count t n ≡ count t m
unfolding count
count_flat t m zero l f = let z : m ≡ 0 = omega arith in omega (arith, ap (count t) z)
count_flat t m (suc n) l f = elim (Bool-cases (m == suc n)) [
  | inl e ↦ let z : m ≡ suc n = ground arith in omega (arith, ap (count t) z)
  | inr e ↦ ground (arith, f n, count_flat t m n (ground arith) (λ i a b. f i a (omega arith)))
]

-- One more, if nothing passes between.
pub count_gap :
    (t : ℕ → Bool) (q r : ℕ)
    → q < r
    → t q ≡ true
    → ((i : ℕ) → q < i → i < r → t i ≡ false)
    → count t r ≡ suc (count t q)
count_gap t q r l e f =
    ground (arith, count-suc t q, count_flat t (suc q) r l (λ i a b. f i (omega arith) b))

count_full : (t : ℕ → Bool) (n : ℕ) → ((i : ℕ) → i < n → t i ≡ true) → count t n ≡ n
unfolding count
count_full t zero f = refl
count_full t (suc n) f = ground (arith, f n, count_full t n (λ i l. f i (omega arith)))

-- A test that passes exactly below `m`.
pub count_prefix :
    (t : ℕ → Bool) (m n : ℕ)
    → m ≤ n
    → ((i : ℕ) → i < m → t i ≡ true)
    → ((i : ℕ) → m ≤ i → i < n → t i ≡ false)
    → count t n ≡ m
count_prefix t m n l f g = omega (arith, count_flat t m n l g, count_full t m f)
