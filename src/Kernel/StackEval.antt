-- ===== src/Kernel/StackEval.antt =====
-- `StackShowdownProb` of modules/engine/src/term_eval_kernel.cpp.
use bulldog.Prelude.{
  ℕ, zero, suc, ◌+◌, ◌-◌, ◌*◌, Bool, false, ◌||◌, not, Option, none, some, ◌==◌, if◌then◌else◌,
  ◌>>=◌, update, loop,
}
use bulldog.Prelude.Int.{ℤ, pos, ◌+ℤ◌, ◌-ℤ◌, add_to}
use bulldog.Holdem.{holdem_max_cards, holdem_max_board, card_crash}
use bulldog.Kernel.{Kernel}

-- The arrays of `StackShowdownProb`. `steps c` is `card_last_skipping_list_dx[c] + 1`, and the cutoff
-- flag -1 of `card_skipping_rank_list` is `none`.
pub record Stack : Type 0 where
  pub rank_sum : ℕ → ℤ
  pub steps : ℕ → ℕ
  pub skipping : ℕ → Option ℕ
  pub card_rank_sum : ℕ → ℕ → ℤ
  pub card_sum : ℕ → ℤ
  pub opp_sum : ℤ

-- `ComboIdx`
abbrev pub combo_idx : ℕ → ℕ → ℕ
combo_idx rank card = rank * holdem_max_cards + card

abbrev pub is_rank : ℕ → Option ℕ → Bool
is_rank r none = false
is_rank r (some q) = q == r

-- Whether the card's last row is of another rank, or it has no row.
abbrev pub is_new : ℕ → ℕ → Stack → Bool
is_new r c s = s.steps c == 0 || not (is_rank r (s.skipping (combo_idx (s.steps c - 1) c)))

abbrev pub open_row : ℕ → ℕ → Stack → Stack
open_row r c s =
    if is_new r c s
    then record s {
      steps = update s.steps c (s.steps c + 1);
      skipping = update s.skipping (combo_idx (s.steps c) c) (some r);
    }
    else s

-- What a card of a hand adds to.
abbrev pub add_row : ℤ → ℕ → Stack → Stack
add_row w c s = record s {
  card_rank_sum =
      update s.card_rank_sum (s.steps c - 1) (add_to (s.card_rank_sum (s.steps c - 1)) c w);
  card_sum = add_to s.card_sum c w;
}

unfoldable pub stack_card : ℕ → ℤ → ℕ → Stack → Stack
stack_card r w c s = add_row w c (open_row r c s)

abbrev pub no_stack : Stack
no_stack = record {
  rank_sum = λ r. pos 0;
  steps = λ c. 0;
  skipping = λ i. none;
  card_rank_sum = λ k c. pos 0;
  card_sum = λ c. pos 0;
  opp_sum = pos 0;
}

-- `rank_net_win_prob`
unfoldable pub rank_net : Stack → ℕ → ℤ
rank_net s zero = s.rank_sum 0 -ℤ s.opp_sum
rank_net s (suc r) = rank_net s r +ℤ s.rank_sum r +ℤ s.rank_sum (suc r)

-- The rows of one card from row `k` on, on fuel: a row past the array is `none`.
unfoldable pub net_rows : Stack → ℕ → ℕ → ℕ → (ℕ → ℤ) → Option (ℕ → ℤ)
net_rows s c zero k net = none
net_rows s c (suc fuel) k net = elim (s.skipping (combo_idx k c)) [
  | none ↦ some net
  | some r ↦ net_rows s c fuel (k + 1) (
      update net (combo_idx k c) (
        net (combo_idx k c - holdem_max_cards) +ℤ s.card_rank_sum k c +ℤ s.card_rank_sum (k - 1) c))
]

-- The arrays have 46 rows.
abbrev pub card_rows : ℕ
card_rows = 46

abbrev pub first_net : Stack → ℕ → (ℕ → ℤ) → ℕ → ℤ
first_net s c net = update net (combo_idx 0 c) (s.card_rank_sum 0 c -ℤ s.card_sum c)

module _ (k : Kernel) where
  abbrev pub stack_hand : (ℕ → ℤ) → ℕ → ℕ → Stack → Stack
  stack_hand opp r j s =
      stack_card r (opp j) (k.sorted j).low (
        stack_card r (opp j) (k.sorted j).high
          (record s { rank_sum = add_to s.rank_sum r (opp j) }))

  -- The hands of one rank.
  unfoldable pub stack_rank : (ℕ → ℤ) → ℕ → ℕ → Stack → Stack
  stack_rank opp r n s = loop n (λ d. stack_hand opp r (k.rank_first_equal r + d)) s

  abbrev pub close_rank : ℕ → Stack → Stack
  close_rank r s = record s { opp_sum = s.opp_sum +ℤ s.rank_sum r }

  -- The first iteration of `StackShowdownProb`, over the first `n` ranks.
  unfoldable pub stack_ranks : (ℕ → ℤ) → ℕ → Stack
  stack_ranks opp n =
      loop n
        (λ r s. close_rank r (stack_rank opp r (k.rank_first_losing r - k.rank_first_equal r) s))
        no_stack

  -- `card_rank_net` for the first `n` cards.
  unfoldable pub card_nets : Stack → ℕ → Option (ℕ → ℤ)
  card_nets s zero = some (λ i. pos 0)
  card_nets s (suc c) = card_nets s c >>= λ net.
      if card_crash k.board holdem_max_board c
      then some net
      else net_rows s c (card_rows - 1) 1 (first_net s c net)
