-- ===== src/Kernel/Agree.antt =====
-- The net of a hand in `FastShowdownEval` and its sum in `NaiveShowdownEval`, of
-- modules/engine/src/term_eval_kernel.cpp.
use bulldog.Prelude.{
  ℕ, zero, suc, ◌+◌, ◌≤◌, ◌<◌, ◌≡◌, ◌≢◌, ◌⊎◌, refl, sym, ap, ◌∙◌, Bool, true, false, ◌||◌, ◌==◌,
  ltb, arith, Bool-cases, inl, inr, bit, if◌then◌else◌,
}
use bulldog.Prelude.Int.{
  ℤ, pos, negsuc, ◌+ℤ◌, ◌-ℤ◌, ◌==ℤ◌, +ℤ_zero, pick, sum, sum_congr, sum-+ℤ, sum--ℤ, int_laws,
  parts_of,
}
use bulldog.Kernel.{Kernel, Ranked, ranked_crash}
use bulldog.Kernel.ShowdownEval.{naive_add, naive_sum}
use bulldog.Kernel.Prepared.{IsPrepared, occurs}
use bulldog.Kernel.Weights.{times_held}
use bulldog.Kernel.Signed.{signed, signed_share, signed_same, signed_below, signed_above}

ranked_held :
    (a b : Ranked) (s : Bool)
    → a.low < a.high
    → b.low < b.high
    → (s ≡ true → (a.high ≡ b.high) × (a.low ≡ b.low))
    → (s ≡ false → a.high ≡ b.high → a.low ≢ b.low)
    → bit (b.high == a.high || b.low == a.high) + bit (b.high == a.low || b.low == a.low)
      ≡ (if s then 2 else if ranked_crash a b then 1 else 0)
ranked_held a b s l m e n = elim (Bool-cases s) [
  | inl q ↦ ground (arith, e q)
  | inr q ↦ ground (arith, n q)
]

zero_value : (w : ℤ) → (w ==ℤ pos 0) ≡ true → w ≡ pos 0
zero_value (pos n) e = let z : n ≡ 0 = ground arith in ap pos z
zero_value (negsuc n) e = cc

no_value :
    (r b : Bool) (w v : ℤ)
    → w ≡ pos 0
    → (if r then pos 0 else (if b then w else pos 0 -ℤ w)) ≡ v
    → v ≡ pos 0
no_value true b w v z e = sym e
no_value false true w v z e = sym e ∙ z
no_value false false w v z e = omega (int_laws, parts_of e, parts_of z)

-- The tests of a round: same place, no weight, same rank, a card in common, lower place.
one_round :
    (s z r c b : Bool) (w v a : ℤ)
    → (z ≡ true → w ≡ pos 0)
    → (if r then pos 0 else (if b then w else pos 0 -ℤ w)) ≡ v
    → (if s
        then a
        else if z
        then a
        else if r
        then a
        else if c
        then a
        else a +ℤ (if b then w else pos 0 -ℤ w))
      ≡ a +ℤ (if s then pos 0 else if c then pos 0 else v)
one_round true z r c b w v a f e = sym (+ℤ_zero a)
one_round false z r true b w v a f e = ground (arith, +ℤ_zero a)
one_round false true r false b w v a f e =
    sym (ap (λ v. a +ℤ v) (no_value r b w v (f refl) e) ∙ +ℤ_zero a)
one_round false false true false b w v a f e = sym (ap (λ v. a +ℤ v) (sym e) ∙ +ℤ_zero a)
one_round false false false false b w v a f e = ap (λ v. a +ℤ v) e

module _ {k : Kernel} {num_hands : ℕ} {class start : ℕ → ℕ} (h : IsPrepared k num_hands class start)
    (opp : ℕ → ℤ) where
  -- What the hand at place `i` is worth to that at place `j` if they do not meet.
  abbrev value_against : ℕ → ℕ → ℤ
  value_against j i = signed (class j) (class i) (opp i)

  abbrev open_value : ℕ → ℕ → ℤ
  open_value j i =
      if j == i
      then pos 0
      else if ranked_crash (k.sorted j) (k.sorted i)
      then pos 0
      else value_against j i

  -- The comparison by place in the sorted order.
  compared_value :
      (j i : ℕ)
      → j < num_hands
      → i < num_hands
      → (if (k.sorted j).rank == (k.sorted i).rank
          then pos 0
          else (if ltb i j then opp i else pos 0 -ℤ opp i))
        ≡ value_against j i
  compared_value j i l m = elim (orders (class i) (class j)) [
    | inl e ↦
        let a : ((k.sorted j).rank == (k.sorted i).rank) ≡ false =
          ground (arith, h.less_rank i j m l e) in
        let b : ltb i j ≡ true = before j i l m e in
        rw (a, b) (sym (signed_below (class j) (class i) (opp i) e))
    | inr (inl e) ↦
        let a : ((k.sorted j).rank == (k.sorted i).rank) ≡ true =
          ground (arith, h.same_rank i j m l e) in
        rw a (sym (signed_same (class j) (class i) (opp i) e))
    | inr (inr e) ↦
        let a : ((k.sorted j).rank == (k.sorted i).rank) ≡ false =
          ground (arith, h.less_rank j i l m e) in
        let b : ltb i j ≡ false = ground (arith, before i j m l e) in
        rw (a, b) (sym (signed_above (class j) (class i) (opp i) e))
  ]
    where
      orders : (x y : ℕ) → (x < y) ⊎ ((x ≡ y) ⊎ (y < x))
      orders x y = ground arith

      before : (j i : ℕ) → j < num_hands → i < num_hands → class i < class j → ltb i j ≡ true
      before j i l m e = elim (orders i j) [
        | inl q ↦ ground arith
        | inr (inl q) ↦ absurd (omega (arith, ap class q))
        | inr (inr q) ↦ absurd (omega (arith, h.ordered j i q m))
      ]

  naive_step :
      (j i : ℕ) (a : ℤ)
      → j < num_hands
      → i < num_hands
      → naive_add k opp j i a ≡ a +ℤ open_value j i
  naive_step j i a l m =
      one_round (j == i) (opp i ==ℤ pos 0) ((k.sorted j).rank == (k.sorted i).rank)
        (ranked_crash (k.sorted j) (k.sorted i)) (ltb i j) (opp i) (value_against j i) a
        (zero_value (opp i)) (compared_value j i l m)

  naive_sum-open :
      (n j : ℕ) → j < num_hands → n ≤ num_hands → naive_sum k opp n j ≡ sum (open_value j) n
  unfolding naive_sum sum
  naive_sum-open zero j l u = refl
  naive_sum-open (suc n) j l u =
      naive_step j n (naive_sum k opp n j) l u
      ∙ ap (λ a. a +ℤ open_value j n) (naive_sum-open n j l (omega arith))

  abbrev share_with : ℕ → ℕ → ℕ → ℤ
  share_with c j i = pick (occurs k c i) (value_against j i)

  one_opponent :
      (j i : ℕ)
      → j < num_hands
      → i < num_hands
      → value_against j i -ℤ (share_with (k.sorted j).high j i +ℤ share_with (k.sorted j).low j i)
        ≡ open_value j i
  one_opponent j i l m =
      times_held (occurs k (k.sorted j).high i) (occurs k (k.sorted j).low i) (j == i)
        (ranked_crash (k.sorted j) (k.sorted i)) (value_against j i)
        (ranked_held (k.sorted j) (k.sorted i) (j == i) (h.cards j l).0 (h.cards i m).0
          (λ e.
            let z : j ≡ i = ground arith in
            (ap (λ j. (k.sorted j).high) z, ap (λ j. (k.sorted j).low) z))
          (λ e a b. ground (arith, h.one_each j i l m a b)))
      ∙ ap (λ a. open_value j i -ℤ a) own
      ∙ less_zero (open_value j i)
    where
      own : pick (j == i) (value_against j i) ≡ pos 0
      own = elim (Bool-cases (j == i)) [
        | inl e ↦
            let z : j ≡ i = ground arith in
            rw e (signed_same (class j) (class i) (opp i) (ap class (sym z)))
        | inr e ↦ rw e refl
      ]

      less_zero : (a : ℤ) → a -ℤ pos 0 ≡ a
      less_zero a = omega int_laws

  pub net-naive_sum :
      (j : ℕ)
      → j < num_hands
      → sum (signed_share (λ i. true) class opp num_hands (class j)) num_hands
          -ℤ (sum
                (signed_share (occurs k (k.sorted j).high) class opp num_hands (class j))
                num_hands
              +ℤ sum
                  (signed_share (occurs k (k.sorted j).low) class opp num_hands (class j))
                  num_hands)
        ≡ naive_sum k opp num_hands j
  net-naive_sum j l =
      let high = (k.sorted j).high in
      let low = (k.sorted j).low in
      ap (λ a. sum (value_against j) num_hands -ℤ a)
        (sym (sum-+ℤ (share_with high j) (share_with low j) num_hands))
      ∙ sym (sum--ℤ (value_against j) (λ i. share_with high j i +ℤ share_with low j i) num_hands)
      ∙ sum_congr (λ i. value_against j i -ℤ (share_with high j i +ℤ share_with low j i))
          (open_value j) num_hands (λ i m. one_opponent j i l m)
      ∙ sym (naive_sum-open num_hands j l (omega arith))
