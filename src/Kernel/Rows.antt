-- ===== src/Kernel/Rows.antt =====
-- Counting the ranks in which a card occurs, for the skipping lists of
-- modules/engine/src/term_eval_kernel.cpp. Hands are numbered in the sorted order; `class j` is the
-- place of hand `j`'s rank among all ranks, and `occ j` says whether hand `j` holds the card.
use bulldog.Prelude.{
  ℕ, zero, suc, ◌+◌, ◌≤◌, ◌<◌, ◌≡◌, ◌⊎◌, refl, sym, ap, ◌∙◌, Bool, true, false, ◌||◌, ◌&&◌, ◌==◌,
  arith, Bool-cases, inl, inr, bit, count, count_congr,
}

-- Whether one of the first `n` hands holds the card and has rank `r`.
unfoldable pub seen : (ℕ → Bool) → (ℕ → ℕ) → ℕ → ℕ → Bool
seen occ class zero r = false
seen occ class (suc n) r = seen occ class n r || (occ n && class n == r)

-- `count t r` is the row of rank `r`: how many of the ranks before it pass.
pub count-suc : (t : ℕ → Bool) (n : ℕ) → count t (suc n) ≡ bit (t n) + count t n
unfolding count
count-suc t n = refl

pub count_mono_n : (t : ℕ → Bool) (m n : ℕ) → m ≤ n → count t m ≤ count t n
unfolding count
count_mono_n t m zero l = let z : m ≡ 0 = omega arith in omega (arith, ap (count t) z)
count_mono_n t m (suc n) l = elim (Bool-cases (m == suc n)) [
  | inl e ↦ let z : m ≡ suc n = ground arith in omega (arith, ap (count t) z)
  | inr e ↦ omega (arith, count_mono_n t m n (ground arith))
]

-- A rank that passes has its row below those of all later ones.
pub count_after : (t : ℕ → Bool) (m n : ℕ) → m < n → t m ≡ true → count t m < count t n
count_after t m n l e = omega (arith, step, count_mono_n t (suc m) n l)
  where
    step : count t (suc m) ≡ suc (count t m)
    step = ground (arith, count-suc t m)

-- Each row below the count is that of a rank that passes.
pub count_at :
    (t : ℕ → Bool) (n k : ℕ) → k < count t n → (r : ℕ) × (r < n) × (t r ≡ true) × (count t r ≡ k)
unfolding count
count_at t zero k l = absurd (omega arith)
count_at t (suc n) k l = elim (Bool-cases (t n)) [
  | inl e ↦ elim (Bool-cases (count t n == k)) [
    | inl q ↦ (n, omega arith, e, ground arith)
    | inr q ↦ let (r, a, b, c) = count_at t n k (ground arith) in (r, omega arith, b, c)
  ]
  | inr e ↦ let (r, a, b, c) = count_at t n k (ground arith) in (r, omega arith, b, c)
]

-- Rows are the rows of one rank only.
pub row_inj : (t : ℕ → Bool) (q r : ℕ) → t q ≡ true → t r ≡ true → count t q ≡ count t r → q ≡ r
row_inj t q r a b e = elim (compared q r) [
  | inl l ↦ absurd (omega (arith, count_after t q r l a))
  | inr (inl l) ↦ absurd (omega (arith, count_after t r q l b))
  | inr (inr z) ↦ z
]
  where
    compared : (q r : ℕ) → (q < r) ⊎ ((r < q) ⊎ (q ≡ r))
    compared q r = ground arith

-- A test that is `t` before `r` and passes nothing after it.
pub count_split :
    (t u : ℕ → Bool) (r n : ℕ)
    → r < n
    → ((i : ℕ) → i < r → u i ≡ t i)
    → ((i : ℕ) → r < i → u i ≡ false)
    → count u n ≡ count t r + bit (u r)
unfolding count
count_split t u r zero l a b = absurd (omega arith)
count_split t u r (suc n) l a b = elim (Bool-cases (r == n)) [
  | inl e ↦
      let z : r ≡ n = ground arith in
      omega
        (arith, count_congr u t n (λ i m. a i (omega arith)), ap (λ n. bit (u n)) z, ap (count t) z)
  | inr e ↦ ground (arith, b n, count_split t u r n (ground arith) a b)
]

module _ (occ : ℕ → Bool) (class : ℕ → ℕ) where
  pub seen_sound :
      (n r : ℕ) → seen occ class n r ≡ true → (i : ℕ) × (i < n) × (occ i ≡ true) × (class i ≡ r)
  unfolding seen
  seen_sound zero r e = cc
  seen_sound (suc n) r e = elim (Bool-cases (seen occ class n r)) [
    | inl q ↦ let (i, l, a, b) = seen_sound n r q in (i, omega arith, a, b)
    | inr q ↦ (n, omega arith, ground arith, ground arith)
  ]

  pub seen_complete : (n r i : ℕ) → i < n → occ i ≡ true → class i ≡ r → seen occ class n r ≡ true
  unfolding seen
  seen_complete zero r i l a b = absurd (omega arith)
  seen_complete (suc n) r i l a b = elim (Bool-cases (i == n)) [
    | inl e ↦ let z : i ≡ n = ground arith in ground (arith, ap occ z, ap class z)
    | inr e ↦ ground (arith, seen_complete n r i (ground arith) a b)
  ]

  -- Up to hand `j`, of rank `r`: earlier ranks are seen in full, later ones not at all.
  module _ (n j : ℕ) (l : j < n) (ordered : (i i' : ℕ) → i < i' → i' < n → class i ≤ class i') where
    pub seen_before : (r : ℕ) → r < class j → seen occ class j r ≡ seen occ class n r
    seen_before r u = elim (Bool-cases (seen occ class n r)) [
      | inl e ↦
          let (i, m, a, b) = seen_sound n r e in seen_complete j r i (earlier i m b) a b ∙ sym e
      | inr e ↦ elim (Bool-cases (seen occ class j r)) [
        | inl q ↦
            let (i, m, a, b) = seen_sound j r q in
            absurd (ground (arith, seen_complete n r i (omega arith) a b))
        | inr q ↦ q ∙ sym e
      ]
    ]
      where
        earlier : (i : ℕ) → i < n → class i ≡ r → i < j
        earlier i m b = elim (compared i) [
          | inl w ↦ w
          | inr (inl w) ↦ absurd (omega (arith, ordered j i w m))
          | inr (inr w) ↦ absurd (omega (arith, ap class w))
        ]
          where
            compared : (i : ℕ) → (i < j) ⊎ ((j < i) ⊎ (i ≡ j))
            compared i = ground arith

    pub seen_after : (r : ℕ) → class j < r → seen occ class j r ≡ false
    seen_after r u = elim (Bool-cases (seen occ class j r)) [
      | inl q ↦ let (i, m, a, b) = seen_sound j r q in absurd (omega (arith, ordered i j m l))
      | inr q ↦ q
    ]

    pub seen-count :
        (ranks : ℕ)
        → class j < ranks
        → count (seen occ class j) ranks
          ≡ count (seen occ class n) (class j) + bit (seen occ class j (class j))
    seen-count ranks u =
        count_split (seen occ class n) (seen occ class j) (class j) ranks u seen_before seen_after
