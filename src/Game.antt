-- ===== src/Game.antt =====
-- The data of modules/core/include/bulldog/game.h: the limits, the game definition `Game`, the hand's
-- `State`, and `Action`.
-- Arrays are functions of the index. The counters of type `uint8_t` keep their wrap-around where they
-- are stepped. Chip counts (`int32_t`) are natural numbers: a hand never holds a negative one.
use bulldog.Prelude.{ℕ, ◌≤◌, Bool, true, false, total}

abbrev pub max_rounds : ℕ
max_rounds = 4

abbrev pub max_players : ℕ
max_players = 10

abbrev pub max_board_cards : ℕ
max_board_cards = 7

abbrev pub max_hole_cards : ℕ
max_hole_cards = 3

abbrev pub max_num_actions : ℕ
max_num_actions = 32

abbrev pub max_suits : ℕ
max_suits = 4

abbrev pub max_ranks : ℕ
max_ranks = 13

abbrev pub undefined_card : ℕ
undefined_card = 60

-- The code with which `isValidAction` lets a fold pass that gains nothing.
abbrev pub premature_fold : ℕ
premature_fold = 5

pub data BettingType : Type 0 where
  limit_betting no_limit_betting : BettingType

pub data ActionType : Type 0 where
  a_fold a_call a_raise a_invalid : ActionType

abbrev pub is_no_limit : BettingType → Bool
is_no_limit limit_betting = false
is_no_limit no_limit_betting = true

abbrev pub is_raise : ActionType → Bool
is_raise a_raise = true
is_raise a_fold = false
is_raise a_call = false
is_raise a_invalid = false

abbrev pub is_invalid : ActionType → Bool
is_invalid a_invalid = true
is_invalid a_fold = false
is_invalid a_call = false
is_invalid a_raise = false

pub record Action : Type 0 where
  pub type : ActionType
  pub size : ℕ

pub record Game : Type 0 where
  pub stack : ℕ → ℕ
  pub use_state_stack : Bool
  pub blind : ℕ → ℕ
  pub raise_size : ℕ → ℕ
  pub betting_type : BettingType
  pub num_players : ℕ
  pub num_rounds : ℕ
  pub first_player : ℕ → ℕ
  pub max_raises : ℕ → ℕ
  pub num_suits : ℕ
  pub num_ranks : ℕ
  pub num_hole_cards : ℕ
  pub num_board_cards : ℕ → ℕ

pub record State : Type 0 where
  pub hand_id : ℕ
  pub max_spent : ℕ
  pub min_no_limit_raise_to : ℕ
  pub spent : ℕ → ℕ
  pub stack_player : ℕ → ℕ
  pub sum_round_spent : ℕ → ℕ → ℕ
  pub action : ℕ → ℕ → Action
  pub acting_player : ℕ → ℕ → ℕ
  pub num_actions : ℕ → ℕ
  pub round : ℕ
  pub finished : Bool
  pub player_folded : ℕ → Bool
  pub board_cards : ℕ → ℕ
  pub hole_cards : ℕ → ℕ → ℕ

-- The game fits the arrays of `State` and of the functions that deal. `readGame` tests all of this but
-- the number of board cards.
pub record FitsArrays (g : Game) : Type 0 where
  pub players : g.num_players ≤ max_players
  pub rounds : g.num_rounds ≤ max_rounds
  pub ranks : g.num_ranks ≤ max_ranks
  pub hole : g.num_hole_cards ≤ max_hole_cards
  pub boards : total g.num_board_cards g.num_rounds ≤ max_board_cards
