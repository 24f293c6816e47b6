-- ===== src/Kernel/FoldEval.antt =====
-- The evaluation of folds: `FastFoldEval` and `NaiveFoldEval` of modules/engine/src/term_eval_kernel.cpp.
use bulldog.Prelude.{ℕ, ◌==◌, if◌then◌else◌, loop}
use bulldog.Prelude.Int.{ℤ, pos, ◌+ℤ◌, ◌-ℤ◌, ◌*ℤ◌, is_positive, add_to}
use bulldog.Holdem.{all_hands, cards_of, hands_clash}
use bulldog.Kernel.{Kernel, mask_value, set_values}

-- The sum and the sums by card of `StackFoldingProb`.
pub record Drift : Type 0 where
  pub base : ℤ
  pub by_card : ℕ → ℤ

abbrev pub add_drift : (ℕ → ℤ) → ℕ → Drift → Drift
add_drift opp i d =
    if is_positive (opp i)
    then record {
      base = d.base +ℤ opp i;
      by_card = add_to (add_to d.by_card (cards_of i).high (opp i)) (cards_of i).low (opp i);
    }
    else d

-- `StackFoldingProb` over the first `n` hands.
unfoldable pub stack_folding_prob : (ℕ → ℤ) → ℕ → Drift
stack_folding_prob opp n = loop n (add_drift opp) (record { base = pos 0; by_card = λ c. pos 0 })

-- The net of `FastFoldEval` for one hand.
abbrev pub fold_net : (ℕ → ℤ) → Drift → ℕ → ℤ
fold_net opp d v = d.base -ℤ (d.by_card (cards_of v).high +ℤ d.by_card (cards_of v).low -ℤ opp v)

-- One round of the loop of `NaiveFoldEval` over the opponent's hands.
abbrev pub naive_fold_add : (ℕ → ℤ) → ℕ → ℕ → ℤ → ℤ
naive_fold_add opp i j sum =
    if i == j
    then sum
    else if hands_clash (cards_of i) (cards_of j)
    then sum
    else if is_positive (opp j)
    then sum +ℤ opp j
    else sum

unfoldable pub naive_fold_sum : (ℕ → ℤ) → ℕ → ℕ → ℤ
naive_fold_sum opp n i = loop n (naive_fold_add opp i) (pos 0)

module _ (k : Kernel) (num_hands : ℕ) (one : ℕ) where
  -- `FastFoldEval`
  unfoldable pub fast_fold_eval : (ℕ → ℤ) → (ℕ → ℤ) → ℤ → ℕ → ℤ
  fast_fold_eval opp my spent =
      set_values (mask_value one) (λ j. (k.sorted j).v_idx)
        (λ j. fold_net opp (stack_folding_prob opp all_hands) (k.sorted j).v_idx *ℤ spent) num_hands
        my

-- `NaiveFoldEval`
unfoldable pub naive_fold_eval : ℕ → (ℕ → ℤ) → (ℕ → ℤ) → ℤ → ℕ → ℤ
naive_fold_eval one opp my spent =
    set_values (mask_value one) (λ i. i) (λ i. naive_fold_sum opp all_hands i *ℤ spent) all_hands my
