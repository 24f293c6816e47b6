-- ===== src/Kernel/ShowdownEval.antt =====
-- The evaluation of showdowns: `FastShowdownEval` and `NaiveShowdownEval` of
-- modules/engine/src/term_eval_kernel.cpp.
use bulldog.Prelude.{Bool, ℕ, ◌+◌, ◌-◌, Option, some, ltb, ◌==◌, if◌then◌else◌, ◌>>=◌, update, loop}
use bulldog.Prelude.Int.{ℤ, pos, ◌+ℤ◌, ◌-ℤ◌, ◌*ℤ◌, ◌==ℤ◌}
use bulldog.Holdem.{holdem_max_cards}
use bulldog.Kernel.{ranked_crash, Kernel, mask_value, set_values}
use bulldog.Kernel.FoldEval.{fast_fold_eval}
use bulldog.Kernel.StackEval.{Stack, combo_idx, is_rank, stack_ranks, rank_net, card_nets}

-- `card_last_skip_idx`, `card_last_net` and the player's values in `FastShowdownEval`.
pub record Walk : Type 0 where
  pub last_skip : ℕ → ℕ
  pub last_net : ℕ → ℤ
  pub belief : ℕ → ℤ

module _ (skipping : ℕ → Option ℕ) (net : ℕ → ℤ) where
  unfoldable pub visit_card : ℕ → ℕ → Walk → Walk
  visit_card r c w = if is_rank r (skipping (combo_idx (w.last_skip c) c)) then w else record w {
    last_skip = update w.last_skip c (w.last_skip c + 1);
    last_net = update w.last_net c (net (combo_idx (w.last_skip c + 1) c));
  }

module _ (k : Kernel) where
  module _ (skipping : ℕ → Option ℕ) (net : ℕ → ℤ) where
    abbrev pub visit_cards : ℕ → ℕ → Walk → Walk
    visit_cards r j w =
        visit_card skipping net r (k.sorted j).low (visit_card skipping net r (k.sorted j).high w)

    -- The second card's visit leaves the net of the first.
    abbrev pub showdown_net : ℤ → ℕ → ℕ → Walk → ℤ
    showdown_net base r j w =
        base
        -ℤ ((visit_card skipping net r (k.sorted j).high w).last_net (k.sorted j).high
            +ℤ (visit_cards r j w).last_net (k.sorted j).low)

    -- A hand of `FastShowdownEval`; masked hands are passed over.
    abbrev pub visit_hand : ℤ → ℤ → ℤ → ℕ → ℕ → Walk → Walk
    visit_hand mask spent base r j w =
        if w.belief (k.sorted j).v_idx ==ℤ mask then w else record (visit_cards r j w) {
          belief = update w.belief (k.sorted j).v_idx (showdown_net base r j w *ℤ spent);
        }

    unfoldable pub visit_rank : ℤ → ℤ → ℤ → ℕ → ℕ → Walk → Walk
    visit_rank mask spent base r n w =
        loop n (λ d. visit_hand mask spent base r (k.rank_first_equal r + d)) w

  unfoldable pub visit_ranks : ℤ → ℤ → Stack → (ℕ → ℤ) → ℕ → Walk → Walk
  visit_ranks mask spent s net n w =
      loop n
        (λ r.
          visit_rank s.skipping net mask spent (rank_net s r) r
            (k.rank_first_losing r - k.rank_first_equal r))
        w

  -- The opponent's values of the sorted hands.
  abbrev pub opp_sorted : (ℕ → ℤ) → ℕ → ℤ
  opp_sorted opp j = opp (k.sorted j).v_idx

  -- `FastShowdownEval`: the player's new values.
  unfoldable pub fast_showdown_eval : ℤ → (ℕ → ℤ) → (ℕ → ℤ) → ℤ → Option (ℕ → ℤ)
  fast_showdown_eval mask opp my spent =
      let s = stack_ranks k (opp_sorted opp) k.unique_rank_count in
      card_nets k s holdem_max_cards >>= λ net. some (
        (visit_ranks mask spent s net k.unique_rank_count
          (record { last_skip = λ c. 0; last_net = λ c. net (combo_idx 0 c); belief = my })).belief)

  -- One round of the loop of `NaiveShowdownEval` over the opponent's hands.
  abbrev pub naive_add : (ℕ → ℤ) → ℕ → ℕ → ℤ → ℤ
  naive_add opp j i sum =
      if j == i
      then sum
      else if opp i ==ℤ pos 0
      then sum
      else if (k.sorted j).rank == (k.sorted i).rank
      then sum
      else if ranked_crash (k.sorted j) (k.sorted i)
      then sum
      else sum +ℤ (if ltb i j then opp i else pos 0 -ℤ opp i)

  unfoldable pub naive_sum : (ℕ → ℤ) → ℕ → ℕ → ℤ
  naive_sum opp n j = loop n (naive_add opp j) (pos 0)

  module _ (num_hands : ℕ) (one : ℕ) where
    -- `NaiveShowdownEval`
    unfoldable pub naive_showdown_eval : (ℕ → ℤ) → (ℕ → ℤ) → ℤ → ℕ → ℤ
    naive_showdown_eval opp my spent =
        set_values (mask_value one) (λ j. (k.sorted j).v_idx)
          (λ j. naive_sum (opp_sorted opp) num_hands j *ℤ spent) num_hands my

    -- `FastTerminalEval`
    unfoldable pub fast_terminal_eval : (ℕ → ℤ) → (ℕ → ℤ) → ℤ → Bool → Option (ℕ → ℤ)
    fast_terminal_eval opp my spent showdown =
        if showdown
        then fast_showdown_eval (mask_value one) opp my spent
        else some (fast_fold_eval k num_hands one opp my spent)
