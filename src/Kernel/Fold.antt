-- ===== src/Kernel/Fold.antt =====
-- `FastFoldEval` of modules/engine/src/term_eval_kernel.cpp against `NaiveFoldEval`.
use bulldog.Prelude.{
  ℕ, ◌<◌, ◌≡◌, sym, ap, ◌∙◌, ltb, false, arith, Bool-cases, inl, inr, if◌then◌else◌,
}
use bulldog.Prelude.Int.{
  ℤ, pos, negsuc, pos_part, neg_part, neg, ◌+ℤ◌, ◌-ℤ◌, ◌*ℤ◌, ◌==ℤ◌, diff, is_positive, int_laws,
  pick, +ℤ_zero,
}
use bulldog.Holdem.{all_hands}
use bulldog.Kernel.Weights.{weight, net_of}
use bulldog.Kernel.Values.{set_values-value}
use bulldog.Kernel.{Kernel}
use bulldog.Kernel.FoldEval.{
  stack_folding_prob, fold_net, naive_fold_sum, fast_fold_eval, naive_fold_eval,
}

not_positive : (x : ℕ) → is_positive (neg x) ≡ false
unfolding diff
not_positive x = ground arith

parts : (x : ℕ) → (pos_part (neg x) ≡ 0) × (neg_part (neg x) ≡ x)
unfolding diff
parts x = (ground arith, ground arith)

module _ (k : Kernel) (num_hands one : ℕ) (opp my : ℕ → ℤ) (spent : ℤ) where
  abbrev pub index : ℕ → ℕ
  index j = (k.sorted j).v_idx

  pub fast_fold-value :
      (j : ℕ)
      → j < num_hands
      → ((i i' : ℕ) → i < num_hands → i' < num_hands → index i ≡ index i' → i ≡ i')
      → index j < 1326
      → fast_fold_eval k num_hands one opp my spent (index j) ≡ (
          if my (index j) ==ℤ neg one
          then my (index j)
          else (naive_fold_sum opp all_hands (index j) +ℤ (opp (index j) -ℤ weight opp (index j)))
            *ℤ spent)
  unfolding fast_fold_eval
  fast_fold-value j l d u =
      set_values-value (neg one) index
        (λ j. fold_net opp (stack_folding_prob opp all_hands) (index j) *ℤ spent) num_hands j my l d
      ∙ ap (λ a. if my (index j) ==ℤ neg one then my (index j) else a *ℤ spent)
          (net_of opp all_hands (index j) (omega arith) u)

  pub naive_fold-value :
      (v : ℕ)
      → v < 1326
      → naive_fold_eval one opp my spent v
        ≡ (if my v ==ℤ neg one then my v else naive_fold_sum opp all_hands v *ℤ spent)
  unfolding naive_fold_eval
  naive_fold-value v l =
      set_values-value (neg one) (λ i. i) (λ i. naive_fold_sum opp all_hands i *ℤ spent) all_hands v
        my l (λ i i' a b q. q)

  whole : (a : ℤ) → neg_part a ≡ 0 → a -ℤ pick (is_positive a) a ≡ pos 0
  whole (pos a) e = elim (Bool-cases (ltb 0 a)) [
    | inl q ↦ rw q (omega int_laws)
    | inr q ↦ let z : a ≡ 0 = ground arith in rw q (omega (int_laws, z))
  ]
  whole (negsuc a) e = absurd (omega arith)

  -- For a hand that the kernel has, with an index below FULL_HAND_BELIEF_SIZE and no other hand of the
  -- same index, FastFoldEval leaves what NaiveFoldEval leaves, if the opponent's value of that hand is
  -- not negative.
  pub fast_fold_eval-naive_fold_eval :
      (j : ℕ)
      → j < num_hands
      → ((i i' : ℕ) → i < num_hands → i' < num_hands → index i ≡ index i' → i ≡ i')
      → index j < 1326
      → neg_part (opp (index j)) ≡ 0
      → fast_fold_eval k num_hands one opp my spent (index j)
        ≡ naive_fold_eval one opp my spent (index j)
  fast_fold_eval-naive_fold_eval j l d u n =
      fast_fold-value j l d u
      ∙ ap (λ a. if my (index j) ==ℤ neg one then my (index j) else a *ℤ spent)
          (ap (λ a. naive_fold_sum opp all_hands (index j) +ℤ a) (whole (opp (index j)) n)
            ∙ +ℤ_zero (naive_fold_sum opp all_hands (index j)))
      ∙ sym (naive_fold-value (index j) u)

  -- For a hand of the kernel, with an index below FULL_HAND_BELIEF_SIZE that no other hand has, whose
  -- value the opponent has masked and the player has not, FastFoldEval leaves the
  -- naive sum less 1.0, times the money spent: it takes the mask off the sum though StackFoldingProb
  -- has not added it.
  pub fast_fold_eval-masked :
      (j : ℕ)
      → j < num_hands
      → ((i i' : ℕ) → i < num_hands → i' < num_hands → index i ≡ index i' → i ≡ i')
      → index j < 1326
      → opp (index j) ≡ neg one
      → (my (index j) ==ℤ neg one) ≡ false
      → fast_fold_eval k num_hands one opp my spent (index j)
        ≡ (naive_fold_sum opp all_hands (index j) -ℤ pos one) *ℤ spent
  fast_fold_eval-masked j l d u n m =
      fast_fold-value j l d u
      ∙ ap
          (λ b.
            if b
            then my (index j)
            else (naive_fold_sum opp all_hands (index j) +ℤ (opp (index j) -ℤ weight opp (index j)))
              *ℤ spent)
          m
      ∙ ap (λ a. (naive_fold_sum opp all_hands (index j) +ℤ (a -ℤ pick (is_positive a) a)) *ℤ spent)
          n
      ∙ ap (λ a. a *ℤ spent) (off (naive_fold_sum opp all_hands (index j)) one)
    where
      off : (s : ℤ) (x : ℕ) → s +ℤ (neg x -ℤ pick (is_positive (neg x)) (neg x)) ≡ s -ℤ pos x
      off s x =
          let (none_of, less) = parts x in rw (not_positive x) (omega (int_laws, none_of, less))
