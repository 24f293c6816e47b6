-- ===== src/Payoff/Tests.antt =====
-- `valueOfState` on a hand of three players with a side pot, and an instance of the theorem about it.
use bulldog.Prelude.{ℕ, ◌+◌, ◌*◌, ◌<◌, ◌≡◌, refl, false, some, ◌==◌, if◌then◌else◌, arith}
use bulldog.Game.{Game, State}
use bulldog.Betting.{num_folded}
use bulldog.Hand.Tests.{heads_up, blank}
use bulldog.Payoff.{
  unit, Value, value_of_state, entries, index_of, side_pots, next_index, scan_pot, scan_rank,
  rank_of, next_entries, pot_value,
}
use bulldog.Payoff.Pots.{sum_below}
use bulldog.Payoff.Seats.{Showdown}
use bulldog.Payoff.ZeroSum.{value_of_state_balances}

abbrev three : Game
three = record heads_up { num_players = 3 }

-- Player 0 is all in for 200 with the best hand; players 1 and 2 play a side pot.
abbrev all_in : State
all_in = record blank { spent = λ p. if p == 0 then 200 else 500; player_folded = λ p. false }

abbrev seat_ranks : State → ℕ → ℕ
seat_ranks s p = if p == 0 then 30 else 10 + p

-- The first player wins 200 of each of the others, the last 300 more of the second.
best_hand_test :
    value_of_state seat_ranks three all_in 0 ≡ some (record { won = unit * 400; lost = 0 })
unfolding value_of_state num_folded entries index_of side_pots next_index scan_pot scan_rank rank_of
    next_entries pot_value
best_hand_test = refl

side_pot_test :
    value_of_state seat_ranks three all_in 2 ≡ some (record { won = unit * 300; lost = unit * 200 })
unfolding value_of_state num_folded entries index_of side_pots next_index scan_pot scan_rank rank_of
    next_entries pot_value
side_pot_test = refl

all_in-Showdown : Showdown three all_in
unfolding num_folded
all_in-Showdown = record {
  few = ground arith;
  contested = ground arith;
  int32 = λ p l. ground arith;
  stakes = λ p l f. ground arith;
  two = (0, 1);
  two_in = (ground arith, ground arith);
  two_paid = (ground arith, ground arith);
  top = 2;
  top_in = ground arith;
  top_most = λ p l. ground arith;
  top_open = refl;
  top_shows = ground arith;
}

value_of_state_balances_example :
    (v : ℕ → Value) × ((p : ℕ) → p < 3 → value_of_state seat_ranks three all_in p ≡ some (v p))
    × (sum_below (λ p. (v p).won) 3 ≡ sum_below (λ p. (v p).lost) 3)
value_of_state_balances_example = value_of_state_balances seat_ranks three all_in all_in-Showdown
