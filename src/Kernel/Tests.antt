-- ===== src/Kernel/Tests.antt =====
-- Runs of the kernel's functions, and instances of the theorems about them.
use bulldog.Prelude.{
  count, some, count-le, ℕ, ◌+◌, ◌<◌, ◌≡◌, refl, arith, false, update, if◌then◌else◌, ◌==◌,
}
use bulldog.Prelude.Int.{ℤ, pos, neg, diff, ◌-ℤ◌, ◌*ℤ◌, ◌==ℤ◌}
use bulldog.Holdem.{all_hands, card_crash}
use bulldog.Kernel.Rows.{seen}
use bulldog.Kernel.Prepared.{occurs}
use bulldog.Kernel.Prepare.{pre_stack, class_of, IsSorted}
use bulldog.Kernel.Prepare.Showdown.{fast_showdown_eval-naive_showdown_eval}
use bulldog.Kernel.{mask_value, Kernel}
use bulldog.Kernel.FoldEval.{naive_fold_sum, fast_fold_eval, naive_fold_eval}
use bulldog.Kernel.ShowdownEval.{fast_showdown_eval, naive_showdown_eval}
use bulldog.Kernel.Fold.{fast_fold_eval-naive_fold_eval, fast_fold_eval-masked}

-- Three hands, of which the first two have the same rank.
abbrev three_hands : Kernel
three_hands = record {
  sorted = λ j.
      if j == 0
      then record { high = 5; low = 2; rank = 10; v_idx = 12 }
      else if j == 1
      then record { high = 6; low = 2; rank = 10; v_idx = 17 }
      else record { high = 6; low = 5; rank = 20; v_idx = 20 };
  board = λ i. 40 + i;
  unique_rank_count = 2;
  rank_first_equal = λ r. if r == 0 then 0 else 2;
  rank_first_losing = λ r. if r == 0 then 2 else 3;
}

abbrev three_indices : ℕ → ℕ
three_indices j = (three_hands.sorted j).v_idx

three_apart : (i j : ℕ) → i < 3 → j < 3 → three_indices i ≡ three_indices j → i ≡ j
three_apart i j l m e = ground arith

-- All hands are equally likely.
abbrev even : ℕ → ℤ
even v = pos 1

fast_fold_eval-naive_fold_eval_example :
    fast_fold_eval three_hands 3 1000 even even (pos 4) 17
    ≡ naive_fold_eval 1000 even even (pos 4) 17
fast_fold_eval-naive_fold_eval_example =
    fast_fold_eval-naive_fold_eval three_hands 3 1000 even even (pos 4) 1 (omega arith) three_apart
      (ground arith) refl

-- The opponent's value of the second hand is masked.
abbrev one_masked : ℕ → ℤ
one_masked = update even 17 (neg 1000)

one_unmasked : (even 17 ==ℤ neg 1000) ≡ false
unfolding diff
one_unmasked = refl

fast_fold_eval-masked_example :
    fast_fold_eval three_hands 3 1000 one_masked even (pos 4) 17
    ≡ (naive_fold_sum one_masked all_hands 17 -ℤ pos 1000) *ℤ pos 4
fast_fold_eval-masked_example =
    fast_fold_eval-masked three_hands 3 1000 one_masked even (pos 4) 1 (omega arith) three_apart
      (ground arith) refl one_unmasked

three_hands-IsSorted : IsSorted three_hands 3 21
unfolding card_crash count seen
three_hands-IsSorted = record {
  some_hand = omega arith;
  cards = λ j l. (ground arith, ground arith);
  off_board = λ j l. (ground arith, ground arith);
  one_each = λ i j l m a b. ground arith;
  indices = three_apart;
  by_rank = λ i j a l. ground arith;
  bounded = λ j l. ground arith;
  ranks = refl;
  few_rows =
      λ c m. omega (arith, count-le (seen (occurs three_hands c) (class_of three_hands 3) 3) 2);
}

fast_showdown_eval-naive_showdown_eval_example :
    (v : ℕ → ℤ) × (fast_showdown_eval
        (pre_stack (λ r. 0) 3 three_hands)
        (mask_value 1000)
        even
        even
        (pos 4)
      ≡ some v)
    × ((x : ℕ)
        → v x ≡ naive_showdown_eval (pre_stack (λ r. 0) 3 three_hands) 3 1000 even even (pos 4) x)
fast_showdown_eval-naive_showdown_eval_example =
    fast_showdown_eval-naive_showdown_eval three_hands 3 21 (λ r. 0) three_hands-IsSorted 1000 even
      even (pos 4) (λ j l. one_unmasked)
