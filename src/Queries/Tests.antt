-- ===== src/Queries/Tests.antt =====
-- Runs of the questions about a game or a hand, and instances of the theorems about them.
use mathlib.Core.Path.{subst}
use bulldog.Prelude.{
  false, suc, sym, ap, ◌∙◌, ℕ, ◌+◌, ◌<◌, ◌≤◌, ◌^◌, ◌≡◌, ◌↔◌, refl, true, some, arith,
}
use bulldog.Game.{Game, State}
use bulldog.Betting.{
  is_valid_action, current_player, next_player, next_player_from, num_folded, num_called,
  num_acting_players,
}
use bulldog.Hand.{init_state, do_action, place_bet, end_turn, min_raise_by}
use bulldog.Hand.Tests.{
  heads_up, opening, call, raised, state_of, raise_to, heads_up-IsGame, opening-IsValid,
  opening-running, opening-player,
}
use bulldog.Queries.{
  pos, pot_net, pot_after_call, x_last_raise, pot, get_raise_base, big_blind, equal,
  game_default_stack_depth, sum_betting_pattern_diff, diff,
}
use bulldog.Queries.Bases.{get_raise_base_after_call, get_raise_base_fits}
use bulldog.Queries.LastRaise.{get_raise_base_last}
use bulldog.Queries.RoundSums.{Acted, Begins, later}
use bulldog.Hand.Play.{Move, move, start, next, Play-IsValid}
use bulldog.Betting.Invariant.{IsValid}
use bulldog.Queries.Same.{SameRound, SameRules, equal_iff, sum_betting_pattern_diff_iff}

-- The amounts of modules/core/test/test_core.cpp before the first action, for blinds of 50 and 100.
opening_bases_test :
    (get_raise_base heads_up opening pot_after_call ≡ some (pos 200))
    × (get_raise_base heads_up opening pot_net ≡ some (pos 150))
    × (get_raise_base heads_up opening x_last_raise ≡ some (pos 100))
unfolding get_raise_base pot diff big_blind init_state current_player next_player next_player_from
opening_bases_test = (refl, refl, refl)

default_depth_test : game_default_stack_depth heads_up ≡ some 200
unfolding game_default_stack_depth big_blind
default_depth_test = refl

abbrev called_hand : State
called_hand = state_of (do_action heads_up call opening)

call-done : do_action heads_up call opening ≡ some called_hand
unfolding init_state do_action current_player next_player next_player_from place_bet end_turn
    num_folded num_called num_acting_players
call-done = refl

call-covered : opening.max_spent ≤ opening.stack_player 0
unfolding init_state
call-covered = omega arith

get_raise_base_after_call_example :
    get_raise_base heads_up opening pot_after_call ≡ some (pos (pot heads_up called_hand))
get_raise_base_after_call_example =
    get_raise_base_after_call heads_up opening 0 0 heads_up-IsGame opening-IsValid opening-running
      opening-player call-covered call-done

opening-small : (p : ℕ) → p < 2 → opening.stack_player p ≤ 195225786
unfolding init_state
opening-small p l = ground arith

get_raise_base_fits_example :
    ((n : ℕ) × (get_raise_base heads_up opening pot_net ≡ some (pos n)) × (n < 2 ^ 31))
    × ((n : ℕ) × (get_raise_base heads_up opening pot_after_call ≡ some (pos n)) × (n < 2 ^ 31))
    × (pot heads_up opening + opening.max_spent < 2 ^ 31)
get_raise_base_fits_example =
    get_raise_base_fits heads_up opening heads_up-IsGame opening-IsValid opening-running
      opening-small

-- Both call, and the second player bets on the flop.
abbrev flop_hand : State
flop_hand = state_of (do_action heads_up call called_hand)

flop-done : do_action heads_up call called_hand ≡ some flop_hand
unfolding init_state do_action current_player next_player next_player_from place_bet end_turn
    num_folded num_called num_acting_players min_raise_by
flop-done = refl

abbrev bet_hand : State
bet_hand = state_of (do_action heads_up (raise_to 300) flop_hand)

bet-done : do_action heads_up (raise_to 300) flop_hand ≡ some bet_hand
unfolding init_state do_action current_player next_player next_player_from place_bet end_turn
    num_folded num_called num_acting_players min_raise_by
bet-done = refl

flop-rounds : (flop_hand.round ≡ 1) × (called_hand.round ≡ 0) × (bet_hand.round ≡ 1)
unfolding init_state do_action current_player next_player next_player_from place_bet end_turn
    num_folded num_called num_acting_players min_raise_by
flop-rounds = (refl, refl, refl)

flop-player : current_player heads_up flop_hand ≡ some 1
unfolding init_state do_action current_player next_player next_player_from place_bet end_turn
    num_folded num_called num_acting_players min_raise_by
flop-player = refl

opening-empty : opening.num_actions opening.round ≡ 0
unfolding init_state
opening-empty = refl

opening-call : Move heads_up opening called_hand
unfolding is_valid_action init_state current_player next_player next_player_from
opening-call = move false call call 1 refl (omega arith) call-done

called-call : Move heads_up called_hand flop_hand
unfolding is_valid_action init_state do_action current_player next_player next_player_from place_bet
    end_turn num_folded num_called num_acting_players
called-call = move false call call 1 refl (omega arith) flop-done

flop-Acted : Acted flop_hand 0 1
unfolding init_state do_action current_player next_player next_player_from place_bet end_turn
    num_folded num_called num_acting_players min_raise_by
flop-Acted = record { entry = 1; logged = omega arith; actor = refl; paying = refl }

flop-Begins : Begins heads_up 1 (flop_hand.spent 1) flop_hand
flop-Begins =
    later opening called_hand flop_hand 1 opening-IsValid opening-empty (next start opening-call)
      called-call (flop-rounds.0 ∙ ap suc (sym flop-rounds.1))
      (subst (λ r. Acted flop_hand r 1) (sym flop-rounds.1) flop-Acted)

flop-IsValid : IsValid heads_up flop_hand
flop-IsValid =
    Play-IsValid heads_up-IsGame opening-IsValid (next (next start opening-call) called-call)

get_raise_base_last_example :
    get_raise_base heads_up bet_hand x_last_raise
    ≡ some (diff (bet_hand.spent 1) (flop_hand.spent 1))
get_raise_base_last_example =
    get_raise_base_last heads_up flop_hand flop_hand 1 (flop_hand.spent 1) 0 300 heads_up-IsGame
      flop-IsValid flop-Begins start refl flop-player bet-done (flop-rounds.2 ∙ sym flop-rounds.0)

-- Games of two rounds with other stacks.
abbrev two_rounds : Game
two_rounds = record heads_up { num_rounds = 2 }

abbrev two_rounds_shorter : Game
two_rounds_shorter = record two_rounds { stack = λ p. 5000 }

two_rounds-rest : (i : ℕ) → 2 ≤ i → i < 4 → SameRound two_rounds two_rounds_shorter i
two_rounds-rest i l m = record { boards = refl; first = refl; raises = refl; sizes = λ e. refl }

equal_iff_example :
    (equal two_rounds two_rounds_shorter ≡ true) ↔ SameRules two_rounds two_rounds_shorter
equal_iff_example = equal_iff two_rounds two_rounds_shorter (omega arith) two_rounds-rest

sum_betting_pattern_diff_iff_example :
    (sum_betting_pattern_diff raised opening ≡ 0)
    ↔ ((r : ℕ) → r ≤ raised.round → raised.num_actions r ≡ opening.num_actions r)
sum_betting_pattern_diff_iff_example = sum_betting_pattern_diff_iff raised opening
