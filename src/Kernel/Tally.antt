-- ===== src/Kernel/Tally.antt =====
-- What `StackShowdownProb` of modules/engine/src/term_eval_kernel.cpp has added up after its first
-- iteration.
use mathlib.Core.Path.{subst, ap₂}
use bulldog.Prelude.{
  ℕ, suc, ◌<◌, ◌≡◌, refl, sym, ◌∙◌, true, false, ◌==◌, ltb, arith, Bool-cases, inl, inr, count_none,
}
use bulldog.Prelude.Int.{
  ℤ, pos, ◌+ℤ◌, +ℤ_zero, pick, sum, sum_congr, sum_zero, sum_extend, sum-+ℤ, int_laws,
}
use bulldog.Kernel.{Kernel}
use bulldog.Kernel.StackEval.{Stack, no_stack, stack_hand, stack_rank, close_rank, stack_ranks}
use bulldog.Kernel.Rows.{seen}
use bulldog.Kernel.Prepared.{IsPrepared, occurs, ranks_loop}
use bulldog.Kernel.Stacked.{SameCard}
use bulldog.Kernel.Places.{later_class, start_le}
use bulldog.Kernel.Lists.{AllListed, class_share, before_share, carried, hand-rest, hand-AllListed}

module _ {k : Kernel} {num_hands : ℕ} {class start : ℕ → ℕ} (h : IsPrepared k num_hands class start)
    (opp : ℕ → ℤ) where
  abbrev Counted : ℕ → Stack → Type 0
  Counted r s = s.opp_sum ≡ sum (before_share h opp r) num_hands

  close-Counted :
      (r : ℕ) (s : Stack)
      → r < k.unique_rank_count
      → AllListed h opp (start (suc r)) s
      → Counted r s
      → Counted (suc r) (close_rank k r s)
  close-Counted r s u a q =
      ap₂ (λ a b. a +ℤ b) q
        (a.ranks r
          ∙ sym (
              sum_extend (class_share h opp r) (start (suc r)) num_hands (start_le h (suc r) u)
                (λ i b c. past (class i) (opp i) (later_class h r i u b c))))
      ∙ sym (sum-+ℤ (before_share h opp r) (class_share h opp r) num_hands)
      ∙ sum_congr (λ i. before_share h opp r i +ℤ class_share h opp r i)
          (before_share h opp (suc r)) num_hands (λ i b. joined (class i) (opp i))
    where
      past : (x : ℕ) (w : ℤ) → r < x → pick (x == r) w ≡ pos 0
      past x w b = let z : (x == r) ≡ false = ground arith in rw z refl

      joined : (x : ℕ) (w : ℤ) → pick (ltb x r) w +ℤ pick (x == r) w ≡ pick (ltb x (suc r)) w
      joined x w = elim (Bool-cases (x == r)) [
        | inl e ↦
            let (a, b) : (ltb x r ≡ false) × (ltb x (suc r) ≡ true) =
              (ground arith, ground arith) in
            rw (e, a, b) (omega int_laws)
        | inr e ↦
            let same : ltb x r ≡ ltb x (suc r) = ground arith in
            rw (e, same) (+ℤ_zero (pick (ltb x (suc r)) w))
      ]

  close-SameCard : (r c : ℕ) (s : Stack) → SameCard c s (close_rank k r s)
  close-SameCard r c s = record {
    steps = refl;
    skipping = λ i. refl;
    card_rank_sum = λ i. refl;
    card_sum = refl;
  }

  none-listed : AllListed h opp 0 no_stack
  unfolding sum seen
  none-listed = record {
    ranks = λ r. refl;
    cards = λ c m. record {
      steps = sym (count_none (seen (occurs k c) class 0) k.unique_rank_count (λ i l. refl));
      rows = λ r e. absurd (ground arith);
      cut = λ i l. refl;
      sums = λ r e. absurd (ground arith);
      empty = λ i l. refl;
      total = refl;
    };
  }

  pub stack_ranks-AllListed :
      AllListed h opp num_hands (stack_ranks k opp k.unique_rank_count)
      × ((stack_ranks k opp k.unique_rank_count).opp_sum ≡ sum opp num_hands)
  unfolding stack_ranks stack_rank
  stack_ranks-AllListed =
      let (a, q) =
        ranks_loop h (AllListed h opp) Counted (stack_hand k opp) (close_rank k)
          (λ r j s u l e q a. (hand-AllListed h opp r j s l e a, (hand-rest h opp r j s).1 ∙ q))
          (λ r s u a q. (
            record {
              ranks = a.ranks;
              cards = λ c m.
                  carried h opp (start (suc r)) c s (close_rank k r s) (close-SameCard r c s)
                    (a.cards c m);
            },
            close-Counted r s u a q,
          ))
          k.unique_rank_count no_stack (omega arith) none-listed
          (sym (
            sum_congr (before_share h opp 0) (λ i. pos 0) num_hands
              (λ i l. none_before (class i) (opp i))
            ∙ sum_zero num_hands)) in
      (
        subst (λ n. AllListed h opp n (stack_ranks k opp k.unique_rank_count)) h.ends a,
        q
            ∙ sum_congr (before_share h opp k.unique_rank_count) opp num_hands
                (λ i l. all_before (class i) (opp i) (h.in_class i l)),
      )
    where
      all_before :
          (x : ℕ) (w : ℤ) → x < k.unique_rank_count → pick (ltb x k.unique_rank_count) w ≡ w
      all_before x w b = let z : ltb x k.unique_rank_count ≡ true = ground arith in rw z refl

      none_before : (x : ℕ) (w : ℤ) → pick (ltb x 0) w ≡ pos 0
      none_before x w = let z : ltb x 0 ≡ false = ground arith in rw z refl
