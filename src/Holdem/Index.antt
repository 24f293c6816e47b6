-- ===== src/Holdem/Index.antt =====
-- `ToVectorIndex` and `FromVectorIndex` of modules/core/src/card_util.cpp are inverse to each other.
use mathlib.Core.Path.{ap₂}
use bulldog.Prelude.{
  ℕ, zero, suc, ◌+◌, ◌-◌, ◌*◌, ◌%◌, ◌≤◌, ◌<◌, ◌≡◌, sym, ap, ◌∙◌, ltb, arith, Bool-cases, inl, inr,
  some, true, false, lt→ltb, ltb→lt, ltb→le,
}
use bulldog.Holdem.{
  below, checked_index, to_vector_index, round_sqrt, Hand, cards_of, from_vector_index,
}

square-le : (k : ℕ) → k ≤ k * k
square-le zero = omega arith
square-le (suc k) = omega arith

pub below-suc : (k : ℕ) → below (suc k) ≡ below k + k
below-suc k = omega (arith, square-le k)

-- The number of pairs below `k`, without the division.
pub below-double : (k : ℕ) → below k + below k + k ≡ k * k
below-double zero = omega arith
below-double (suc k) = omega (arith, below-suc k, below-double k)

pub below_mono : (j k : ℕ) → j ≤ k → below j ≤ below k
below_mono j zero l = let z : j ≡ 0 = omega arith in omega (arith, ap below z)
below_mono j (suc k) l = elim (Bool-cases (ltb j (suc k))) [
  | inl e ↦ omega (arith, below-suc k, below_mono j k (ground arith))
  | inr e ↦ let z : j ≡ suc k = ground arith in omega (arith, ap below z)
]

next_square : (m : ℕ) → suc m * m ≡ below (suc m) + below (suc m)
next_square m = omega (arith, below-double (suc m))

round_sqrt-pair : (m k l : ℕ) → k ≤ m → l < k → round_sqrt m ((below k + l) * 2 + 2) ≡ k
unfolding round_sqrt
round_sqrt-pair zero k l u v = absurd (omega arith)
round_sqrt-pair (suc m) k l u v = elim (Bool-cases (ltb k (suc m))) [
  | inl e ↦ rw (not_yet (ground arith)) (round_sqrt-pair m k l (ground arith) v)
  | inr e ↦ let z : k ≡ suc m = ground arith in rw (found z) (sym z)
]
  where
    ge→ltb : {a b : ℕ} → b ≤ a → ltb a b ≡ false
    ge→ltb w = ground arith

    not_yet : k < suc m → ltb (suc m * m) ((below k + l) * 2 + 2) ≡ false
    not_yet w = ge→ltb (omega (arith, next_square m, below_mono (suc k) (suc m) w, below-suc k))

    found : k ≡ suc m → ltb (suc m * m) ((below k + l) * 2 + 2) ≡ true
    found z = lt→ltb _ _ (omega (arith, next_square m, ap below z))

index-lt : (high low : ℕ) → low < high → high < 52 → below high + low < 1326
index-lt high low l u = omega (arith, below-suc high, below_mono (suc high) 52 (omega arith))

check-in : (v : ℕ) → v < 1326 → checked_index (v % 65536) ≡ some v
check-in v l = ground arith

to-eq :
    (high low : ℕ)
    → low < high
    → high < 52
    → (to_vector_index high low ≡ some (below high + low))
      × (to_vector_index low high ≡ some (below high + low))
unfolding to_vector_index
to-eq high low l u = (
  rw (unswapped) (check-in (below high + low) (index-lt high low l u)),
  rw (lt→ltb low high l) (check-in (below high + low) (index-lt high low l u)),
)
  where
    unswapped : ltb high low ≡ false
    unswapped = ground arith

pub cards_of-index :
    (high low : ℕ)
    → low < high
    → high < 52
    → cards_of (below high + low) ≡ record { high = high; low = low }
unfolding cards_of
cards_of-index high low l u =
    let k : round_sqrt 256 ((below high + low) * 2 + 2) ≡ high =
      round_sqrt-pair 256 high low (omega arith) l in
    ap₂ (λ h l. let r : Hand = record { high = h; low = l } in r)
      (ap (λ n. n % 256) k ∙ small high (omega arith))
      (ap (λ n. (below high + low + 256 * below (n % 256) - below (n % 256)) % 256) k
        ∙ ap (λ n. (below high + low + 256 * below n - below n) % 256) (small high (omega arith))
        ∙ wrapped (below high))
  where
    small : (n : ℕ) → n < 256 → n % 256 ≡ n
    small n w = omega arith

    wrapped : (b : ℕ) → (b + low + 256 * b - b) % 256 ≡ low
    wrapped b = omega arith

-- FromVectorIndex gives back the two cards, below 52 and not the same, that ToVectorIndex was called
-- with, in either order, and the index in between is below 1326.
pub from_vector_index-to_vector_index :
    (high low : ℕ)
    → low < high
    → high < 52
    → (v : ℕ) × (to_vector_index high low ≡ some v)
      × (to_vector_index low high ≡ some v)
      × (v < 1326)
      × (from_vector_index v ≡ some (record { high = high; low = low }))
unfolding from_vector_index
from_vector_index-to_vector_index high low l u = (
  below high + low,
  (to-eq high low l u).0,
  (to-eq high low l u).1,
  index-lt high low l u,
  rw (in_range) (ap some (cards_of-index high low l u)),
)
  where
    in_range : ltb 1325 (below high + low) ≡ false
    in_range = ground (arith, index-lt high low l u)

-- Every index is that of a pair.
split_index :
    (n v : ℕ)
    → v < below n
    → (high : ℕ) × (low : ℕ) × (low < high) × (high < n) × (v ≡ below high + low)
split_index zero v l = absurd (omega arith)
split_index (suc n) v l = elim (Bool-cases (ltb v (below n))) [
  | inl e ↦
      let (h, w, a, b, c) = split_index n v (ltb→lt v (below n) e) in (h, w, a, omega arith, c)
  | inr e ↦
      let past : below n ≤ v = ltb→le v (below n) e in
      (n, v - below n, omega (arith, past, below-suc n), omega arith, omega (arith, past))
]

pub hand_at :
    (v : ℕ)
    → v < 1326
    → (high : ℕ) × (low : ℕ) × (low < high)
      × (high < 52)
      × (v ≡ below high + low)
      × (cards_of v ≡ record { high = high; low = low })
hand_at v l =
    let (h, w, a, b, c) = split_index 52 v l in
    (h, w, a, b, c, ap cards_of c ∙ cards_of-index h w a b)

-- Every index below 1326 is that of two different cards below 52, which FromVectorIndex returns and
-- for which ToVectorIndex gives the index back.
pub to_vector_index-from_vector_index :
    (v : ℕ)
    → v < 1326
    → (high : ℕ) × (low : ℕ) × (low < high)
      × (high < 52)
      × (from_vector_index v ≡ some (record { high = high; low = low }))
      × (to_vector_index high low ≡ some v)
unfolding from_vector_index
to_vector_index-from_vector_index v l =
    let (h, w, a, b, c, d) = hand_at v l in
    (h, w, a, b, rw (in_range) (ap some d), (to-eq h w a b).0 ∙ ap some (sym c))
  where
    in_range : ltb 1325 v ≡ false
    in_range = ground arith
