-- ===== src/Hand/Tests.antt =====
-- Runs of the betting engine on a heads-up hand (config/games/holdem.nolimit.2p.game),
-- and instances of the theorems about it.
use bulldog.Prelude.{
  ℕ, ◌*◌, ◌≤◌, ◌<◌, ◌≡◌, ◌↔◌, refl, true, false, arith, ◌>>=◌, Option, none, some, count, total,
  ◌==◌, if◌then◌else◌, List, [], ◌∷◌,
}
use bulldog.Game.{
  no_limit_betting, limit_betting, a_fold, a_call, a_raise, max_num_actions, Action, Game, State,
  FitsArrays,
}
use bulldog.Betting.{
  can_act, next_player_from, next_player, current_player, num_raises, raise_is_valid,
  no_limit_range, fit_size, is_valid_action, num_folded, num_called, num_acting_players,
}
use bulldog.Hand.{place_bet, end_turn, do_action, init_state, min_raise_by}
use bulldog.Betting.Turn.{IsNext, next_player-IsNext, next_player_endless}
use bulldog.Betting.Invariant.{IsGame, IsValid}
use bulldog.Betting.Rules.{Legal, LegalSize, RaiseOpen, distance}
use bulldog.Betting.Validity.{is_valid_action_sound, is_valid_action_decides, is_valid_action_fixes}
use bulldog.Hand.Pot.{limit_raise_lowers}
use bulldog.Hand.Step.{do_action-IsValid}
use bulldog.Hand.Start.{CanStart, init_state-IsValid, init_state-blinds}
use bulldog.Hand.Play.{move, Play, start, next, Play-bound, do_action-logs, Logged}

abbrev pub heads_up : Game
heads_up = record {
  stack = λ p. 20000;
  use_state_stack = false;
  blind = λ p. if p == 0 then 50 else 100;
  raise_size = λ r. 0;
  betting_type = no_limit_betting;
  num_players = 2;
  num_rounds = 4;
  first_player = λ r. if r == 0 then 0 else 1;
  max_raises = λ r. 255;
  num_suits = 4;
  num_ranks = 13;
  num_hole_cards = 2;
  num_board_cards = λ r. if r == 0 then 0 else if r == 1 then 3 else 1;
}

-- A state before `initState`, with whatever is in memory.
abbrev pub blank : State
blank = record {
  hand_id = 0;
  max_spent = 7;
  min_no_limit_raise_to = 7;
  spent = λ p. 7;
  stack_player = λ p. 7;
  sum_round_spent = λ r p. 7;
  action = λ r i. record { type = a_raise; size = 7 };
  acting_player = λ r i. 7;
  num_actions = λ r. 7;
  round = 7;
  finished = true;
  player_folded = λ p. true;
  board_cards = λ i. 7;
  hole_cards = λ p i. 7;
}

abbrev pub call : Action
call = record { type = a_call; size = 0 }

abbrev fold : Action
fold = record { type = a_fold; size = 0 }

abbrev pub raise_to : ℕ → Action
raise_to size = record { type = a_raise; size = size }

abbrev pub opening : State
opening = init_state heads_up 1 blank

act : List Action → State → Option State
act [] s = some s
act (a ∷ as') s = do_action heads_up a s >>= act as'

abbrev view : State → List ℕ
view s =
    s.round
    ∷ s.max_spent
    ∷ s.min_no_limit_raise_to
    ∷ s.spent 0
    ∷ s.spent 1
    ∷ (if s.finished then 1 else 0)
    ∷ []

abbrev show : Option State → List ℕ
show none = []
show (some s) = view s

opening-view : view opening ≡ 0 ∷ 100 ∷ 200 ∷ 50 ∷ 100 ∷ 0 ∷ []
unfolding init_state
opening-view = refl

raised-view : show (act (raise_to 300 ∷ []) opening) ≡ 0 ∷ 300 ∷ 500 ∷ 300 ∷ 100 ∷ 0 ∷ []
unfolding act init_state do_action current_player next_player next_player_from place_bet end_turn
    num_folded num_called num_acting_players
raised-view = refl

flop-view : show (act (raise_to 300 ∷ call ∷ []) opening) ≡ 1 ∷ 300 ∷ 400 ∷ 300 ∷ 300 ∷ 0 ∷ []
unfolding act init_state do_action current_player next_player next_player_from place_bet end_turn
    num_folded num_called num_acting_players min_raise_by
flop-view = refl

all_in-view :
    show (act (raise_to 20000 ∷ call ∷ []) opening) ≡ 3 ∷ 20000 ∷ 39900 ∷ 20000 ∷ 20000 ∷ 1 ∷ []
unfolding act init_state do_action current_player next_player next_player_from place_bet end_turn
    num_folded num_called num_acting_players
all_in-view = refl

pub heads_up-IsGame : IsGame heads_up
heads_up-IsGame = omega arith

pub heads_up-FitsArrays : FitsArrays heads_up
unfolding total
heads_up-FitsArrays = omega arith

pub heads_up-CanStart : CanStart heads_up blank
heads_up-CanStart = record {
  blinds = λ p l. ground arith;
  player = 0;
  player_in = omega arith;
  player_has = omega arith;
  level = λ e p q lp lq. refl;
}

pub opening-IsValid : IsValid heads_up opening
opening-IsValid = (init_state-IsValid heads_up 1 blank heads_up-IsGame heads_up-CanStart).0

pub opening-running : opening.finished ≡ false
unfolding init_state
opening-running = refl

pub opening-player : current_player heads_up opening ≡ some 0
unfolding init_state current_player next_player next_player_from
opening-player = refl

raise-open : RaiseOpen heads_up opening
unfolding init_state num_raises count
raise-open = omega arith

-- The state after a raise to 300.
abbrev pub state_of : Option State → State
state_of none = blank
state_of (some s) = s

abbrev pub raised : State
raised = state_of (do_action heads_up (raise_to 300) opening)

pub raised-done : do_action heads_up (raise_to 300) opening ≡ some raised
unfolding init_state do_action current_player next_player next_player_from place_bet end_turn
    num_folded num_called num_acting_players
raised-done = refl

pub raise-passes : is_valid_action heads_up opening false (raise_to 300) ≡ some (1, raise_to 300)
unfolding init_state is_valid_action raise_is_valid no_limit_range fit_size num_raises
    num_acting_players current_player next_player next_player_from
raise-passes = refl

-- A raise of 1 is fixed to the least raise.
small-fixed : is_valid_action heads_up opening true (raise_to 1) ≡ some (1, raise_to 200)
unfolding init_state is_valid_action raise_is_valid no_limit_range fit_size num_raises
    num_acting_players current_player next_player next_player_from
small-fixed = refl

init_state-IsValid_example :
    IsValid heads_up (init_state heads_up 1 blank)
    × ((init_state heads_up 1 blank).finished ≡ false)
init_state-IsValid_example = init_state-IsValid heads_up 1 blank heads_up-IsGame heads_up-CanStart

init_state-blinds_example :
    (opening.spent 1 ≡ 100)
    × (opening.stack_player 1 ≡ 20000)
    × (opening.player_folded 1 ≡ false)
    × (100 ≤ opening.max_spent)
    × ((q : ℕ) × (q < 2) × (heads_up.blind q ≡ opening.max_spent))
init_state-blinds_example = init_state-blinds heads_up 1 blank 1 (omega arith)

do_action-IsValid_example :
    (p : ℕ) × (current_player heads_up opening ≡ some p)
    × (can_act opening p ≡ true)
    × ((a : Action)
        → Legal heads_up opening p a
        → (t : State) × (do_action heads_up a opening ≡ some t) × IsValid heads_up t)
do_action-IsValid_example =
    do_action-IsValid heads_up opening heads_up-IsGame opening-IsValid opening-running

Play-bound_example : 1 ≤ max_num_actions * 4
Play-bound_example =
    Play-bound heads_up-IsGame opening-IsValid (
      next start
        (move false (raise_to 300) (raise_to 300) 1 raise-passes (omega arith) raised-done))

is_valid_action_sound_example : Legal heads_up opening 0 (raise_to 200)
is_valid_action_sound_example =
    is_valid_action_sound opening heads_up-IsGame (opening-IsValid.turn opening-running)
      opening-player opening-running true (raise_to 1) small-fixed (omega arith)

is_valid_action_decides_example : (0 < 1) ↔ Legal heads_up opening 0 (raise_to 300)
is_valid_action_decides_example =
    is_valid_action_decides opening heads_up-IsGame (opening-IsValid.turn opening-running)
      opening-player opening-running (raise_to 300) raise-passes

opening-tops : opening.max_spent < opening.stack_player 0
unfolding init_state
opening-tops = omega arith

is_valid_action_fixes_example :
    (size : ℕ) × (is_valid_action heads_up opening true (raise_to 1) ≡ some (1, raise_to size))
    × LegalSize opening 0 size
    × ((k : ℕ) → LegalSize opening 0 k → distance size 1 ≤ distance k 1)
is_valid_action_fixes_example =
    is_valid_action_fixes opening heads_up-IsGame (opening-IsValid.turn opening-running)
      opening-player opening-running (raise_to 1) refl refl raise-open opening-tops

opening-acts : can_act opening 1 ≡ true
unfolding init_state
opening-acts = refl

next_player-IsNext_example :
    (m : ℕ) × (next_player heads_up opening 0 ≡ some m) × IsNext heads_up opening 0 m
next_player-IsNext_example = next_player-IsNext heads_up opening 0 1 (omega arith) opening-acts

next_player_endless_example : next_player_from 1000 heads_up blank 0 ≡ none
next_player_endless_example = next_player_endless 1000 heads_up blank 0 (omega arith) (λ p l. refl)

do_action-logs_example : Logged opening raised 0 (raise_to 300)
do_action-logs_example = do_action-logs heads_up (raise_to 300) opening 0 opening-player raised-done

-- A limit game that starts with a first player who has less than the big blind.
abbrev limit_game : Game
limit_game = record heads_up {
  use_state_stack = true;
  raise_size = λ r. 100;
  betting_type = limit_betting;
  max_raises = λ r. 4;
}

limit_game-IsGame : IsGame limit_game
limit_game-IsGame = omega arith

abbrev short : State
short = init_state limit_game 1 (record blank { stack_player = λ p. if p == 0 then 70 else 1000 })

short-player : current_player limit_game short ≡ some 0
unfolding init_state current_player next_player next_player_from
short-player = refl

short-running : short.finished ≡ false
unfolding init_state
short-running = refl

short-open : RaiseOpen limit_game short
unfolding init_state num_raises count
short-open = omega arith

short-below : short.stack_player 0 < short.max_spent
unfolding init_state
short-below = omega arith

short-paid : short.spent 1 ≡ short.max_spent
unfolding init_state
short-paid = refl

limit_raise_lowers_example :
    (t : State) × (is_valid_action limit_game short false (raise_to 0) ≡ some (1, raise_to 0))
    × (do_action limit_game (raise_to 0) short ≡ some t)
    × (t.max_spent < t.spent 1)
    × (¬ IsValid limit_game t)
limit_raise_lowers_example =
    limit_raise_lowers limit_game short 0 1 false (raise_to 0) limit_game-IsGame refl refl
      short-running short-player short-open short-below (λ e. omega arith) (omega arith) short-paid
