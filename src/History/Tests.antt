-- ===== src/History/Tests.antt =====
-- Instances of the theorems about the log of a hand, on a heads-up hand
-- (config/games/holdem.nolimit.2p.game).
use bulldog.Prelude.{ℕ, ◌<◌, ◌≡◌, ◌↔◌, refl, true, false, arith, some}
use bulldog.Game.{State}
use bulldog.Betting.{
  is_valid_action, current_player, next_player, next_player_from, num_folded, num_called,
  num_acting_players,
}
use bulldog.Hand.{place_bet, end_turn, do_action, init_state, min_raise_by}
use bulldog.Hand.Play.{move, Play, start, next}
use bulldog.Hand.Tests.{
  heads_up, blank, call, raise_to, opening, state_of, raised, raised-done, raise-passes,
  heads_up-IsGame, heads_up-CanStart, opening-IsValid,
}
use bulldog.History.{
  step_back_action, state_equal, MatchState, match_states_equal, in_same_match,
  is_prior_state_same_round,
}
use bulldog.History.Same.{Same}
use bulldog.History.StepBack.{step_back_action_undoes}
use bulldog.History.Compare.{state_equal_iff, match_states_equal_iff, SameHand, SameHoles}
use bulldog.History.Later.{
  in_same_match_later, in_same_match_stale, is_prior_state_same_round_later,
}

abbrev flop : State
flop = state_of (do_action heads_up call raised)

flop-done : do_action heads_up call raised ≡ some flop
unfolding init_state do_action current_player next_player next_player_from place_bet end_turn
    num_folded num_called num_acting_players min_raise_by
flop-done = refl

call-passes : is_valid_action heads_up raised false call ≡ some (1, call)
unfolding init_state do_action current_player next_player next_player_from place_bet end_turn
    num_folded num_called num_acting_players is_valid_action
call-passes = refl

raised-Play : Play heads_up opening 1 raised
raised-Play =
    next start (move false (raise_to 300) (raise_to 300) 1 raise-passes (omega arith) raised-done)

flop-Play : Play heads_up raised 1 flop
flop-Play = next start (move false call call 1 call-passes (omega arith) flop-done)

-- One step back from the flop is the state before the call.
step_back_action_undoes_example :
    (t : State) × (step_back_action heads_up flop blank 1
      ≡ some (record { done = true; target = t }))
    × Same heads_up raised t
    × (t.hand_id ≡ flop.hand_id)
    × ((p i : ℕ) → p < 2 → i < 2 → t.hole_cards p i ≡ flop.hole_cards p i)
step_back_action_undoes_example =
    step_back_action_undoes heads_up 1 blank blank heads_up-IsGame heads_up-CanStart raised-Play
      flop-Play (omega arith)

state_equal_iff_example :
    (state_equal heads_up opening raised ≡ true)
    ↔ (SameHand heads_up opening raised × ((p : ℕ) → p < 2 → SameHoles heads_up opening raised p))
state_equal_iff_example = state_equal_iff heads_up opening raised

match_states_equal_iff_example :
    let a : MatchState = record { viewing_player = 1; state = opening } in
    (match_states_equal heads_up a a ≡ true) ↔ (
      (a.viewing_player ≡ a.viewing_player)
      × SameHand heads_up opening opening
      × SameHoles heads_up opening opening 1)
match_states_equal_iff_example =
    match_states_equal_iff heads_up (record { viewing_player = 1; state = opening })
      (record { viewing_player = 1; state = opening })

in_same_match_later_example :
    in_same_match
      (record { viewing_player = 1; state = opening })
      (record { viewing_player = 1; state = raised })
    ≡ true
in_same_match_later_example =
    in_same_match_later heads_up 1 heads_up-IsGame opening-IsValid raised-Play

in_same_match_stale_example :
    in_same_match
      (record { viewing_player = 1; state = flop })
      (record { viewing_player = 1; state = record flop { num_actions = λ r. 0; round = 0 } })
    ≡ true
in_same_match_stale_example =
    in_same_match_stale (record { viewing_player = 1; state = flop }) (λ r. 0) 0

raised-round : raised.round ≡ opening.round
unfolding init_state do_action current_player next_player next_player_from place_bet end_turn
    num_folded num_called num_acting_players
raised-round = refl

is_prior_state_same_round_later_example : is_prior_state_same_round opening raised ≡ some true
is_prior_state_same_round_later_example =
    is_prior_state_same_round_later heads_up 1 blank heads_up-IsGame heads_up-CanStart start
      raised-Play (omega arith) raised-round
