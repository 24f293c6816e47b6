-- ===== src/Text/Tests.antt =====
-- A heads-up hand printed and read (config/games/holdem.nolimit.2p.game), and an instance of the
-- round trip.
use Prim.Native.Char.{code}
use Prim.Native.String.{String}
use bulldog.Prelude.{ℕ, ◌+◌, ◌*◌, ◌≡◌, refl, true, false, arith, some, none, [], ◌∷◌, total}
use bulldog.Game.{State}
use bulldog.Betting.{
  is_valid_action, raise_is_valid, no_limit_range, fit_size, num_raises, num_folded, num_called,
  num_acting_players, current_player, next_player, next_player_from, bc_start,
}
use bulldog.Hand.{place_bet, end_turn, do_action, init_state}
use bulldog.Hand.Play.{move, Play, start, next}
use bulldog.Hand.Tests.{
  heads_up, blank, raise_to, state_of, heads_up-IsGame, heads_up-CanStart, heads_up-FitsArrays,
}
use bulldog.History.{state_equal}
use bulldog.History.Same.{Same}
use bulldog.Text.{Text, print_card, print_cards, print_action}
use bulldog.Text.Print.{
  print_state, print_state_common, print_betting, print_rounds, print_round, print_stack,
  print_stack_from, print_all_hole_cards, print_holes_from, print_board_cards, print_boards_from,
}
use bulldog.Text.Read.{read_state}
use bulldog.Text.State.{dealt_state, Printable}
use bulldog.Text.Decimal.{decimal, print_decimal}
use bulldog.Text.RoundTrip.{read_state-print_state}

-- Player 0 holds 2c 3c and player 1 holds 4d 5d.
abbrev holes : ℕ → ℕ → ℕ
holes p i = p * 9 + i * 4

abbrev dealt : State
dealt = dealt_state heads_up 1 blank holes (λ i. 40 + i)

abbrev raised : State
raised = state_of (do_action heads_up (raise_to 300) dealt)

raised-done : do_action heads_up (raise_to 300) dealt ≡ some raised
unfolding init_state do_action current_player next_player next_player_from place_bet end_turn
    num_folded num_called num_acting_players
raised-done = refl

raise-passes : is_valid_action heads_up dealt false (raise_to 300) ≡ some (1, raise_to 300)
unfolding init_state is_valid_action raise_is_valid no_limit_range fit_size num_raises
    num_acting_players current_player next_player next_player_from
raise-passes = refl

raised-Play : Play heads_up dealt 1 raised
raised-Play =
    next start (move false (raise_to 300) (raise_to 300) 1 raise-passes (omega arith) raised-done)

raised-Printable : Printable heads_up raised
unfolding init_state do_action current_player next_player next_player_from place_bet end_turn
    num_folded num_called num_acting_players total
raised-Printable = record {
  arrays = heads_up-FitsArrays;
  suits = refl;
  hole = omega arith;
  small = ground arith;
  hand_fits = ground arith;
  stacks_fit = λ p l. ground arith;
  holes_dealt = λ p i l k. ground arith;
  boards_dealt = λ i l. ground arith;
  plain = λ r i l k. ground arith;
}

-- The characters of a text.
abbrev codes : String → Text
codes String.[] = []
codes (String.◌∷◌ c s) = code c ∷ codes s

abbrev raised_text : Text
raised_text = codes "STATE:1:20000|20000:r300:2c3c|4d5d"

raised_prints : print_state decimal heads_up raised 100 ≡ some raised_text
unfolding init_state do_action current_player next_player next_player_from place_bet end_turn
    num_folded num_called num_acting_players print_state print_state_common print_betting
    print_rounds print_round print_action print_stack print_stack_from print_all_hole_cards
    print_holes_from print_board_cards print_boards_from print_cards print_card print_decimal
    bc_start
raised_prints = refl

-- A buffer that is too short for the text.
short_buffer : print_state decimal heads_up raised 30 ≡ none
unfolding init_state do_action current_player next_player next_player_from place_bet end_turn
    num_folded num_called num_acting_players print_state print_state_common print_betting
    print_rounds print_round print_action print_stack print_stack_from print_all_hole_cards
    print_holes_from print_board_cards print_boards_from print_cards print_card print_decimal
    bc_start
short_buffer = refl

read_state-print_state_example :
    (r : State) × (read_state decimal heads_up raised_text blank ≡ some (r, []))
    × Same heads_up raised r
    × (state_equal heads_up raised r ≡ true)
read_state-print_state_example =
    read_state-print_state decimal heads_up 1 blank blank holes (λ i. 40 + i) 100 heads_up-IsGame
      heads_up-CanStart raised-Play raised-Printable raised_prints
