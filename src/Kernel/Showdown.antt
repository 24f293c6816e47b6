-- ===== src/Kernel/Showdown.antt =====
-- `FastShowdownEval` of modules/engine/src/term_eval_kernel.cpp against `NaiveShowdownEval`.
use bulldog.Prelude.{ℕ, ◌<◌, ◌≡◌, refl, arith, false, some}
use bulldog.Prelude.Int.{ℤ, ◌==ℤ◌, neg}
use bulldog.Kernel.{Kernel, mask_value}
use bulldog.Kernel.StackEval.{combo_idx, stack_ranks}
use bulldog.Kernel.ShowdownEval.{visit_ranks, opp_sorted, fast_showdown_eval, naive_showdown_eval}
use bulldog.Kernel.Prepared.{IsPrepared}
use bulldog.Kernel.Tally.{stack_ranks-AllListed}
use bulldog.Kernel.CardNets.{card_nets-RightNets}
use bulldog.Kernel.Walks.{visit_ranks-naive}

pub fast_showdown_eval-value :
    (k : Kernel) (num_hands : ℕ) (class start : ℕ → ℕ)
    → IsPrepared k num_hands class start
    → (one : ℕ) (opp my : ℕ → ℤ) (spent : ℤ)
    → ((j : ℕ) → j < num_hands → (my (k.sorted j).v_idx ==ℤ mask_value one) ≡ false)
    → (v : ℕ → ℤ) × (fast_showdown_eval k (mask_value one) opp my spent ≡ some v)
      × ((x : ℕ) → v x ≡ naive_showdown_eval k num_hands one opp my spent x)
unfolding fast_showdown_eval naive_showdown_eval
fast_showdown_eval-value k num_hands class start h one opp my spent unmasked =
    let weights = opp_sorted k opp in
    let s = stack_ranks k weights k.unique_rank_count in
    let (a, total) = stack_ranks-AllListed h weights in
    let (net, e, right) = card_nets-RightNets h weights s a 52 (omega arith) in
    (
      (visit_ranks k (neg one) spent s net k.unique_rank_count
          (record { last_skip = λ c. 0; last_net = λ c. net (combo_idx 0 c); belief = my })).belief,
      rw e refl,
      visit_ranks-naive h weights s a total net right (neg one) spent my unmasked,
    )
