-- ===== src/Kernel/Weights.antt =====
-- The sums of `StackFoldingProb` and of `NaiveFoldEval` in modules/engine/src/term_eval_kernel.cpp.
use mathlib.Core.Path.{ap₂}
use bulldog.Prelude.{
  ℕ, zero, suc, ◌+◌, ◌≤◌, ◌<◌, ◌≡◌, ◌≢◌, refl, sym, ap, ◌∙◌, Bool, true, false, ◌==◌, arith,
  Bool-cases, inl, inr, bit, if◌then◌else◌,
}
use bulldog.Prelude.Int.{
  ℤ, pos, ◌+ℤ◌, ◌-ℤ◌, is_positive, parts_of, int_laws, sum, sum_congr, sum-+ℤ, sum--ℤ, sum_zero,
  pick, add_to_two, +ℤ_zero,
}
use bulldog.Holdem.{below, Hand, cards_of, hands_clash}
use bulldog.Holdem.Index.{hand_at}
use bulldog.Holdem.Clash.{holds}
use bulldog.Kernel.FoldEval.{
  Drift, add_drift, stack_folding_prob, fold_net, naive_fold_add, naive_fold_sum,
}

-- A weight less once for each of two tests that hold.
pub times_held :
    (x y s c : Bool) (w : ℤ)
    → bit x + bit y ≡ (if s then 2 else if c then 1 else 0)
    → w -ℤ (pick x w +ℤ pick y w) ≡ (if s then pos 0 else if c then pos 0 else w) -ℤ pick s w
times_held true true true true w e = omega int_laws
times_held true true true false w e = omega int_laws
times_held true true false true w e = omega int_laws
times_held true true false false w e = omega int_laws
times_held true false true true w e = omega int_laws
times_held true false true false w e = omega int_laws
times_held true false false true w e = omega int_laws
times_held true false false false w e = omega int_laws
times_held false true true true w e = omega int_laws
times_held false true true false w e = omega int_laws
times_held false true false true w e = omega int_laws
times_held false true false false w e = omega int_laws
times_held false false true true w e = omega int_laws
times_held false false true false w e = omega int_laws
times_held false false false true w e = omega int_laws
times_held false false false false w e = omega int_laws

cards_held :
    (a b : Hand) (s : Bool)
    → a.low < a.high
    → b.low < b.high
    → (s ≡ true → (a.high ≡ b.high) × (a.low ≡ b.low))
    → (s ≡ false → a.high ≡ b.high → a.low ≢ b.low)
    → bit (holds b a.high) + bit (holds b a.low)
      ≡ (if s then 2 else if hands_clash a b then 1 else 0)
unfolding hands_clash
cards_held a b s l m e n = elim (Bool-cases s) [
  | inl q ↦ ground (arith, e q)
  | inr q ↦ ground (arith, n q)
]

module _ (opp : ℕ → ℤ) where
  -- A weight that counts.
  abbrev pub weight : ℕ → ℤ
  weight i = pick (is_positive (opp i)) (opp i)

  abbrev share : ℕ → ℕ → ℤ
  share c i = pick (holds (cards_of i) c) (weight i)

  abbrev open_weight : ℕ → ℕ → ℤ
  open_weight v j =
      if v == j then pos 0 else if hands_clash (cards_of v) (cards_of j) then pos 0 else weight j

  add_drift-base : (i : ℕ) (d : Drift) → (add_drift opp i d).base ≡ d.base +ℤ weight i
  add_drift-base i d = elim (Bool-cases (is_positive (opp i))) [
    | inl e ↦ rw e refl
    | inr e ↦ rw e (sym (+ℤ_zero d.base))
  ]

  pick_zero : (b : Bool) → pick b (pos 0) ≡ pos 0
  pick_zero b = ground arith

  add_drift-card :
      (i c : ℕ) (d : Drift)
      → (cards_of i).high ≢ (cards_of i).low
      → (add_drift opp i d).by_card c ≡ d.by_card c +ℤ share c i
  add_drift-card i c d n = elim (Bool-cases (is_positive (opp i))) [
    | inl e ↦ rw e (add_to_two d.by_card (cards_of i).high (cards_of i).low c (opp i) n)
    | inr e ↦ rw e (
        sym (ap (λ a. d.by_card c +ℤ a) (pick_zero (holds (cards_of i) c)) ∙ +ℤ_zero (d.by_card c)))
  ]

  base-sum : (n : ℕ) → (stack_folding_prob opp n).base ≡ sum weight n
  unfolding stack_folding_prob sum
  base-sum zero = refl
  base-sum (suc n) =
      add_drift-base n (stack_folding_prob opp n) ∙ ap (λ a. a +ℤ weight n) (base-sum n)

  cards-differ : (i : ℕ) → i < 1326 → (cards_of i).high ≢ (cards_of i).low
  cards-differ i l = let (h, w, x, _, _, e) = hand_at i l in λ q. ground (arith, e)

  card-sum : (n c : ℕ) → n ≤ 1326 → (stack_folding_prob opp n).by_card c ≡ sum (share c) n
  unfolding stack_folding_prob sum
  card-sum zero c l = refl
  card-sum (suc n) c l =
      add_drift-card n c (stack_folding_prob opp n) (cards-differ n l)
      ∙ ap (λ a. a +ℤ share c n) (card-sum n c (omega arith))

  naive-step : (j v : ℕ) (a : ℤ) → naive_fold_add opp v j a ≡ a +ℤ open_weight v j
  naive-step j v a = elim (Bool-cases (v == j)) [
    | inl e ↦ rw e (sym (+ℤ_zero a))
    | inr e ↦ elim (Bool-cases (hands_clash (cards_of v) (cards_of j))) [
      | inl q ↦ rw (e, q) (sym (+ℤ_zero a))
      | inr q ↦ elim (Bool-cases (is_positive (opp j))) [
        | inl w ↦ rw (e, q, w) refl
        | inr w ↦ rw (e, q, w) (sym (+ℤ_zero a))
      ]
    ]
  ]

  naive-sum : (n v : ℕ) → naive_fold_sum opp n v ≡ sum (open_weight v) n
  unfolding naive_fold_sum sum
  naive-sum zero v = refl
  naive-sum (suc n) v =
      naive-step n v (naive_fold_sum opp n v) ∙ ap (λ a. a +ℤ open_weight v n) (naive-sum n v)

  -- The sum of the weight at one place.
  at-sum : (n v : ℕ) → v < n → sum (λ j. pick (v == j) (weight j)) n ≡ weight v
  unfolding sum
  at-sum zero v l = absurd (omega arith)
  at-sum (suc n) v l = elim (Bool-cases (v == n)) [
    | inl e ↦ rw e (
        ap (λ a. a +ℤ weight n)
          (sum_congr (λ j. pick (v == j) (weight j)) (λ j. pos 0) n (λ j m. ground arith)
            ∙ sum_zero n)
        ∙ zero_+ℤ (weight n)
        ∙ ap weight (sym (same v n e)))
    | inr e ↦ rw e (+ℤ_zero _ ∙ at-sum n v (ground arith))
  ]
    where
      zero_+ℤ : (a : ℤ) → pos 0 +ℤ a ≡ a
      zero_+ℤ a = omega int_laws

      same : (v n : ℕ) → (v == n) ≡ true → v ≡ n
      same v n e = ground arith

  -- One opponent's hand: what the fast sum counts of it, against the naive one.
  one_hand :
      (v j : ℕ)
      → v < 1326
      → j < 1326
      → weight j -ℤ (share (cards_of v).high j +ℤ share (cards_of v).low j)
        ≡ open_weight v j -ℤ pick (v == j) (weight j)
  one_hand v j l m =
      let (h, w, x, _, k, e) = hand_at v l in
      let (h', w', y, _, k', e') = hand_at j m in
      times_held (holds (cards_of j) (cards_of v).high) (holds (cards_of j) (cards_of v).low)
        (v == j) (hands_clash (cards_of v) (cards_of j)) (weight j)
        (cards_held (cards_of v) (cards_of j) (v == j) (ground (arith, e)) (ground (arith, e'))
          (λ q.
            let same : v ≡ j = ground arith in
            (ap (λ v. (cards_of v).high) same, ap (λ v. (cards_of v).low) same))
          (λ q a b. apart h w h' w' (ground (arith, e, e', a)) (ground (arith, e, e', b)) k k' q))
    where
      apart :
          (h w h' w' : ℕ)
          → h ≡ h'
          → w ≡ w'
          → v ≡ below h + w
          → j ≡ below h' + w'
          → (v == j) ≡ false
          → ⊥
      apart h w h' w' a b k k' q =
          let same : v ≡ j = k ∙ ap₂ (λ h w. below h + w) a b ∙ sym k' in ground arith

  sums_agree :
      (n v : ℕ)
      → n ≤ 1326
      → v < n
      → sum weight n -ℤ (sum (share (cards_of v).high) n +ℤ sum (share (cards_of v).low) n)
        ≡ sum (open_weight v) n -ℤ weight v
  sums_agree n v u l =
      let h = (cards_of v).high in
      let w = (cards_of v).low in
      ap (λ a. sum weight n -ℤ a) (sym (sum-+ℤ (share h) (share w) n))
      ∙ sym (sum--ℤ weight (λ j. share h j +ℤ share w j) n)
      ∙ sum_congr (λ j. weight j -ℤ (share h j +ℤ share w j))
          (λ j. open_weight v j -ℤ pick (v == j) (weight j)) n
          (λ j m. one_hand v j (omega arith) (omega arith))
      ∙ sum--ℤ (open_weight v) (λ j. pick (v == j) (weight j)) n
      ∙ ap (λ a. sum (open_weight v) n -ℤ a) (at-sum n v l)

  regroup : (b h l o p w : ℤ) → b -ℤ (h +ℤ l) ≡ o -ℤ p → b -ℤ (h +ℤ l -ℤ w) ≡ o +ℤ (w -ℤ p)
  regroup b h l o p w e = omega (int_laws, parts_of e)

  pub net_of :
      (n v : ℕ)
      → n ≤ 1326
      → v < n
      → fold_net opp (stack_folding_prob opp n) v ≡ naive_fold_sum opp n v +ℤ (opp v -ℤ weight v)
  net_of n v u l =
      ap₂ (λ b c. b -ℤ (c -ℤ opp v)) (base-sum n)
        (ap₂ (λ a b. a +ℤ b) (card-sum n (cards_of v).high u) (card-sum n (cards_of v).low u))
      ∙ regroup (sum weight n) (sum (share (cards_of v).high) n) (sum (share (cards_of v).low) n)
          (sum (open_weight v) n) (weight v) (opp v) (sums_agree n v u l)
      ∙ ap (λ a. a +ℤ (opp v -ℤ weight v)) (sym (naive-sum n v))
