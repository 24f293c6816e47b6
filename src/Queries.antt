-- ===== src/Queries.antt =====
-- Questions about a game or a hand: the end of modules/core/src/game.c, from `Equal` on, and
-- `GetTotalPot` of modules/core/src/game_util.cpp.
-- A call of `exit` is `none`. `GetRaiseBase` subtracts in `int32_t`, so its result is an integer.
pub mod Bases
pub mod RoundSums
pub mod LastRaise
pub mod Same
mod Tests
pub use bulldog.Prelude.Int.{ℤ, pos, negsuc}
unfoldable pub use bulldog.Prelude.Int.{diff}
use bulldog.Prelude.{
  ℕ, zero, suc, ◌+◌, ◌-◌, ◌/◌, Bool, true, false, ◌&&◌, ◌||◌, not, Option, none, some, ltb, ◌==◌,
  if◌then◌else◌, ◌>>=◌, loop,
}
use bulldog.Game.{
  BettingType, limit_betting, no_limit_betting, is_no_limit, is_raise, a_call, Game, State,
}
use bulldog.Betting.{current_player}
use bulldog.History.{all_below, type_code}

abbrev pub same_type : BettingType → BettingType → Bool
same_type limit_betting limit_betting = true
same_type no_limit_betting no_limit_betting = true
same_type limit_betting no_limit_betting = false
same_type no_limit_betting limit_betting = false

-- One round of the first loop of `Equal`.
abbrev pub same_round : Game → Game → ℕ → Bool
same_round a b i =
    a.num_board_cards i == b.num_board_cards i
    && a.first_player i == b.first_player i
    && a.max_raises i == b.max_raises i
    && (is_no_limit a.betting_type || a.raise_size i == b.raise_size i)

-- `Equal`
unfoldable pub equal : Game → Game → Bool
equal a b =
    a.num_players == b.num_players
    && same_type a.betting_type b.betting_type
    && a.num_hole_cards == b.num_hole_cards
    && a.num_ranks == b.num_ranks
    && a.num_rounds == b.num_rounds
    && a.num_suits == b.num_suits
    && all_below 4 (same_round a b)
    && all_below b.num_players (λ i. a.blind i == b.blind i)

unfoldable pub compatible_game : Game → Game → Bool
compatible_game a b =
    same_type a.betting_type b.betting_type
    && a.num_players == b.num_players
    && a.num_hole_cards == b.num_hole_cards
    && a.num_rounds == b.num_rounds
    && a.num_ranks == b.num_ranks

unfoldable pub big_blind : Game → ℕ
big_blind g = if ltb (g.blind 1) (g.blind 0) then g.blind 0 else g.blind 1

unfoldable pub big_blind_position : Game → ℕ
big_blind_position g = if ltb (g.blind 1) (g.blind 0) then 0 else 1

-- The division is by 0 without blinds, which C leaves undefined.
unfoldable pub game_default_stack_depth : Game → Option ℕ
game_default_stack_depth g = if g.stack 0 == g.stack 1 then some (g.stack 0 / big_blind g) else none

unfoldable pub state_stack_depth : State → Game → ℕ
state_stack_depth s g =
    (if ltb (s.stack_player 0) (s.stack_player 1) then s.stack_player 0 else s.stack_player 1)
    / big_blind g

unfoldable pub get_total_pot : State → ℕ
get_total_pot s = s.spent 0 + s.spent 1

unfoldable pub pot_stake : State → ℕ
pot_stake s = if ltb (s.spent 0) (s.spent 1) then s.spent 0 else s.spent 1

abbrev pub gap : ℕ → ℕ → ℕ
gap a b = if ltb a b then b - a else a - b

unfoldable pub sum_betting_pattern_diff : State → State → ℕ
sum_betting_pattern_diff a b =
    loop (suc a.round) (λ r sum. sum + gap (a.num_actions r) (b.num_actions r)) 0

pub data RaiseMode : Type 0 where
  pot_net pot_after_call net_or_x x_last_raise : RaiseMode

unfoldable pub pot : Game → State → ℕ
pot g s = loop g.num_players (λ p pot. pot + s.spent p) 0

-- The raiser of the last raise among the first `n` actions of round `r`; `none` if there is none,
-- where the code exits.
unfoldable pub last_raiser : State → ℕ → ℕ → Option ℕ
last_raiser s r zero = none
last_raiser s r (suc n) =
    if is_raise (s.action r n).type then some (s.acting_player r n) else last_raiser s r n

-- What a player has put in in round `r`: the sums of the rounds are running totals.
abbrev pub round_raise_net : State → ℕ → ℕ → ℤ
round_raise_net s r p =
    if ltb 0 r
    then diff (s.sum_round_spent r p) (s.sum_round_spent (r - 1) p)
    else pos (s.sum_round_spent r p)

-- The first round before any raise: no action, or a call by the small blind.
abbrev pub before_raise : State → Bool
before_raise s =
    s.round == 0
    && (s.num_actions 0 == 0
        || (s.num_actions 0 == 1 && type_code (s.action 0 0).type == type_code a_call))

unfoldable pub get_raise_base : Game → State → RaiseMode → Option ℤ
get_raise_base g s pot_net = current_player g s >>= λ p. some (pos (pot g s))
get_raise_base g s pot_after_call =
    current_player g s >>= λ p. some (diff (pot g s + s.max_spent) (s.spent p))
get_raise_base g s x_last_raise =
    if before_raise s
    then some (pos (big_blind g))
    else last_raiser s s.round (s.num_actions s.round) >>= λ p. some (round_raise_net s s.round p)
get_raise_base g s net_or_x = none
