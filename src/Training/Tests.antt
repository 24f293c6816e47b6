-- ===== src/Training/Tests.antt =====
-- Terminal nodes of two players, and an instance of the theorem about them.
use bulldog.Prelude.{ℕ, ◌+◌, ◌≡◌, refl, false, some, ◌==◌, if◌then◌else◌, arith}
use bulldog.Game.{State}
use bulldog.Hand.Tests.{heads_up, blank}
use bulldog.Payoff.{Value, value_of_state}
use bulldog.Queries.{ℤ, negsuc, diff, pot_stake}
use bulldog.Training.{◌*ℤ◌, is_showdown, get_stake, payoff, payoff_at, eval_term_node}
use bulldog.Training.Pots.{Worth}
use bulldog.Training.Stakes.{HeadsUp, eval_term_node-value_of_state}

-- Player 0 is all in for 200 against 500 and has the weaker hand.
abbrev showdown_node : State
showdown_node = record blank {
  spent = λ p. if p == 0 then 200 else 500;
  player_folded = λ p. false;
}

abbrev ranks : State → ℕ → ℕ
ranks s p = 10 + p

loss_test : eval_term_node (ranks showdown_node) showdown_node 0 ≡ some (negsuc 199)
unfolding eval_term_node is_showdown get_stake payoff payoff_at pot_stake diff ◌*ℤ◌
loss_test = refl

showdown_node-HeadsUp : HeadsUp heads_up showdown_node
showdown_node-HeadsUp = record {
  seats = refl;
  over = refl;
  paid = λ p l. ground arith;
  int32 = λ p l. ground arith;
  one_left = λ f. ground arith;
  first_folds = λ f. ground arith;
  second_folds = λ f. ground arith;
  shown = λ p l f. ground arith;
}

eval_term_node-value_of_state_example :
    (v : Value) × (z : ℤ) × (value_of_state ranks heads_up showdown_node 0 ≡ some v)
    × (eval_term_node (ranks showdown_node) showdown_node 0 ≡ some z)
    × Worth v z
eval_term_node-value_of_state_example =
    eval_term_node-value_of_state ranks heads_up showdown_node showdown_node-HeadsUp 0
      (ground arith)
