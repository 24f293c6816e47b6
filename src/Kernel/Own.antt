-- ===== src/Kernel/Own.antt =====
-- How a hand with the card changes the card's lists in the first iteration of `StackShowdownProb` in
-- modules/engine/src/term_eval_kernel.cpp.
use bulldog.Prelude.{
  ℕ, suc, ◌+◌, ◌-◌, ◌≤◌, ◌<◌, ◌≡◌, ◌≢◌, refl, sym, ap, ◌∙◌, Bool, true, false, ◌||◌, ◌&&◌, not,
  ◌==◌, Option, some, arith, Bool-cases, inl, inr, bit, update, update_self, update_ne,
}
use bulldog.Prelude.Int.{ℤ, pos, ◌+ℤ◌, add_to, pick, sum, sum_congr, sum_zero}
use bulldog.Kernel.StackEval.{Stack, combo_idx, is_rank, is_new, open_row, add_row, stack_card}
use bulldog.Kernel.Rows.{seen, count_at, seen-count, seen_before, seen_complete}
use bulldog.Kernel.NextHand.{other_row, seen-other, count-own}
use bulldog.Kernel.Stacked.{combo_inj, row, rank_share, card_share, Listed, skipped}

module _ (occ : ℕ → Bool) (class : ℕ → ℕ) (opp : ℕ → ℤ) (num_hands ranks : ℕ)
    (ordered : (i i' : ℕ) → i < i' → i' < num_hands → class i ≤ class i') (c j : ℕ) (s : Stack)
    (l : j < num_hands) (o : occ j ≡ true) (u : class j < ranks) (m : c < 52)
    (h : Listed occ class opp num_hands ranks c j s) where
  abbrev row_of : ℕ → ℕ
  row_of = row occ class opp num_hands ranks

  abbrev share_of : ℕ → ℕ → ℤ
  share_of = rank_share occ class opp num_hands ranks

  steps-row : s.steps c ≡ row_of (class j) + bit (seen occ class j (class j))
  steps-row = h.steps ∙ seen-count occ class num_hands j l ordered ranks u

  -- The card has a row of the rank exactly if a hand before was of the rank.
  is_new-seen : is_new (class j) c s ≡ not (seen occ class j (class j))
  is_new-seen = elim (Bool-cases (seen occ class j (class j))) [
    | inl e ↦
        let at : s.steps c ≡ suc (row_of (class j)) = ground (arith, steps-row) in
        let last : row_of (class j) ≡ s.steps c - 1 = omega (arith, at) in
        new_if (s.steps c) (class j)
          (sym (ap (λ k. s.skipping (combo_idx k c)) last) ∙ h.rows (class j) e)
        ∙ ground (arith, at, e)
    | inr e ↦ elim (Bool-cases (s.steps c == 0)) [
      | inl z ↦ ground (arith, z, e)
      | inr z ↦
          let at : s.steps c ≡ row_of (class j) = ground (arith, steps-row) in
          let (q, a, b, d) =
            count_at (seen occ class num_hands) (class j) (s.steps c - 1) (ground (arith, at, z)) in
          let before : seen occ class j q ≡ true =
            seen_before occ class num_hands j l ordered q a ∙ b in
          new_if (s.steps c) q (sym (ap (λ k. s.skipping (combo_idx k c)) d) ∙ h.rows q before)
          ∙ ground (arith, z, e, a)
    ]
  ]
    where
      new_if :
          (k q : ℕ) {x : Option ℕ}
          → x ≡ some q
          → (k == 0 || not (is_rank (class j) x)) ≡ (k == 0 || not (q == class j))
      new_if k q e = ap (λ x. k == 0 || not (is_rank (class j) x)) e

  not_yet :
      (n : ℕ) → n ≤ j → seen occ class j (class j) ≡ false → sum (share_of (class j)) n ≡ pos 0
  not_yet n v e =
      sum_congr (share_of (class j)) (λ i. pos 0) n (λ i a. none_of i (omega arith)) ∙ sum_zero n
    where
      none_of : (i : ℕ) → i < j → share_of (class j) i ≡ pos 0
      none_of i a = elim (Bool-cases (occ i && class i == class j)) [
        | inl q ↦ absurd (
            ground
              (arith, e, seen_complete occ class j (class j) i a (ground arith) (ground arith)))
        | inr q ↦ rw q refl
      ]

  own_sum : s.card_rank_sum (row_of (class j)) c ≡ sum (share_of (class j)) j
  own_sum = elim (Bool-cases (seen occ class j (class j))) [
    | inl e ↦ h.sums (class j) e
    | inr e ↦
        h.empty (row_of (class j)) (ground (arith, steps-row, e)) ∙ sym (not_yet j (omega arith) e)
  ]

  steps-own : (open_row (class j) c s).steps c ≡ suc (row_of (class j))
  steps-own = elim (Bool-cases (seen occ class j (class j))) [
    | inl e ↦ rw (is_new-seen, e) (ground (arith, steps-row, e))
    | inr e ↦ rw (is_new-seen, e) (ground (arith, steps-row, e))
  ]

  skipping-own : (open_row (class j) c s).skipping (combo_idx (row_of (class j)) c) ≡ some (class j)
  skipping-own = elim (Bool-cases (seen occ class j (class j))) [
    | inl e ↦ rw (is_new-seen, e) (h.rows (class j) e)
    | inr e ↦
        let at : row_of (class j) ≡ s.steps c = ground (arith, steps-row, e) in
        rw (is_new-seen, e, at) (update_self s.skipping (combo_idx (s.steps c) c) (some (class j)))
  ]

  skipping-other :
      (k : ℕ)
      → row_of (class j) ≢ k
      → (open_row (class j) c s).skipping (combo_idx k c) ≡ s.skipping (combo_idx k c)
  skipping-other k d = elim (Bool-cases (seen occ class j (class j))) [
    | inl e ↦ rw (is_new-seen, e) refl
    | inr e ↦
        let at : s.steps c ≡ row_of (class j) = ground (arith, steps-row, e) in
        rw (is_new-seen, e)
          (update_ne s.skipping (combo_idx (s.steps c) c) (some (class j)) (combo_idx k c)
            (λ z. d (sym at ∙ (combo_inj (s.steps c) k c c m m z).0)))
  ]

  same-sums : (open_row (class j) c s).card_rank_sum ≡ s.card_rank_sum
  same-sums = elim (Bool-cases (is_new (class j) c s)) [ inl e ↦ rw e refl | inr e ↦ rw e refl ]

  same-total : (open_row (class j) c s).card_sum ≡ s.card_sum
  same-total = elim (Bool-cases (is_new (class j) c s)) [ inl e ↦ rw e refl | inr e ↦ rw e refl ]

  abbrev opened : Stack
  opened = open_row (class j) c s

  last-row : opened.steps c - 1 ≡ row_of (class j)
  last-row = omega (arith, steps-own)

  sum-own :
      (add_row (opp j) c opened).card_rank_sum (row_of (class j)) c
      ≡ sum (share_of (class j)) (suc j)
  unfolding sum
  sum-own =
      ap (λ f. f (row_of (class j)) c)
        (ap (λ k. update opened.card_rank_sum k (add_to (opened.card_rank_sum k) c (opp j)))
          last-row)
      ∙ ap (λ f. f c)
          (update_self opened.card_rank_sum (row_of (class j))
            (add_to (opened.card_rank_sum (row_of (class j))) c (opp j)))
      ∙ update_self (opened.card_rank_sum (row_of (class j))) c
          (opened.card_rank_sum (row_of (class j)) c +ℤ opp j)
      ∙ ap (λ a. a +ℤ opp j) (ap (λ f. f (row_of (class j)) c) same-sums ∙ own_sum)
      ∙ ap (λ b. sum (share_of (class j)) j +ℤ pick b (opp j)) (sym own)
    where
      own : (occ j && class j == class j) ≡ true
      own = ground (arith, o)

  sum-other :
      (k : ℕ)
      → row_of (class j) ≢ k
      → (add_row (opp j) c opened).card_rank_sum k c ≡ s.card_rank_sum k c
  sum-other k d =
      ap (λ f. f k c)
        (ap (λ k. update opened.card_rank_sum k (add_to (opened.card_rank_sum k) c (opp j)))
          last-row)
      ∙ ap (λ f. f c)
          (update_ne opened.card_rank_sum (row_of (class j))
            (add_to (opened.card_rank_sum (row_of (class j))) c (opp j)) k d)
      ∙ ap (λ f. f k c) same-sums

  pub stack_card-Listed :
      Listed occ class opp num_hands ranks c (suc j) (stack_card (class j) (opp j) c s)
  unfolding stack_card sum
  stack_card-Listed = record {
    steps = steps-own ∙ sym (count-own occ class num_hands ordered j l o ranks u);
    rows = λ q e. elim (Bool-cases (class j == q)) [
      | inl d ↦
          let same : class j ≡ q = ground arith in
          ap (λ q. opened.skipping (combo_idx (row_of q) c)) (sym same)
          ∙ skipping-own
          ∙ ap some same
      | inr d ↦
          let before : seen occ class j q ≡ true =
            sym (seen-other occ class num_hands ordered j l o q d) ∙ e in
          skipping-other (row_of q) (other_row occ class num_hands ordered j l o q d before)
          ∙ h.rows q before
    ];
    cut = λ k a.
        let past : row_of (class j) < k = omega (arith, steps-own) in
        skipping-other k (λ z. omega arith) ∙ h.cut k (ground (arith, steps-row));
    sums = λ q e. elim (Bool-cases (class j == q)) [
      | inl d ↦
          let same : class j ≡ q = ground arith in
          ap (λ q. (add_row (opp j) c opened).card_rank_sum (row_of q) c) (sym same)
          ∙ sum-own
          ∙ ap (λ q. sum (share_of q) (suc j)) same
      | inr d ↦
          let before : seen occ class j q ≡ true =
            sym (seen-other occ class num_hands ordered j l o q d) ∙ e in
          sum-other (row_of q) (other_row occ class num_hands ordered j l o q d before)
          ∙ h.sums q before
          ∙ skipped occ class opp num_hands ranks (occ j && class j == q) j (share_of q)
              (ground arith) refl
    ];
    empty = λ k a.
        let past : row_of (class j) < k = omega (arith, steps-own) in
        sum-other k (λ z. omega arith) ∙ h.empty k (ground (arith, steps-row));
    total =
        update_self opened.card_sum c (opened.card_sum c +ℤ opp j)
        ∙ ap (λ f. f c +ℤ opp j) same-total
        ∙ ap (λ a. a +ℤ opp j) h.total
        ∙ ap (λ b. sum (card_share occ class opp num_hands ranks) j +ℤ pick b (opp j)) (sym o);
  }
