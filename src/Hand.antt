-- ===== src/Hand.antt =====
-- How modules/core/src/game.c changes a hand: its start, `initState`, and the step `doAction`.
-- A failed assertion, and a call that does not return, is `none`.
pub mod Record
pub mod EndTurn
pub mod Place
pub mod Step
pub mod Start
pub mod Play
pub mod Ends
pub mod Pot
pub mod Tests
use bulldog.Prelude.{
  ℕ, zero, suc, ◌+◌, ◌-◌, ◌*◌, ◌%◌, Bool, true, false, ◌&&◌, ◌||◌, not, Option, none, some, ltb,
  leb, ◌==◌, if◌then◌else◌, ◌>>=◌, ◌>>◌, guard, update, loop, tick,
}
use bulldog.Game.{
  max_num_actions, max_board_cards, undefined_card, premature_fold, is_no_limit, is_raise,
  is_invalid, ActionType, a_fold, a_call, a_raise, a_invalid, Action, Game, State,
}
use bulldog.Betting.{current_player, num_folded, num_called, num_acting_players}

-- The entry that `doAction` writes at the end of the round's actions.
abbrev pub log_action : State → ℕ → Action → State
log_action s p a = record s {
  action = update s.action s.round (update (s.action s.round) (s.num_actions s.round) a);
  acting_player =
      update s.acting_player s.round (update (s.acting_player s.round) (s.num_actions s.round) p);
  num_actions = update s.num_actions s.round ((s.num_actions s.round + 1) % 256);
}

-- `spent[p] = sum_round_spent[round][p] = chips`
abbrev pub put_in : State → ℕ → ℕ → State
put_in s p chips = record s {
  spent = update s.spent p chips;
  sum_round_spent = update s.sum_round_spent s.round (update (s.sum_round_spent s.round) p chips);
}

-- The new bet of a raise in a no-limit game.
abbrev pub raise_no_limit : State → ℕ → State
raise_no_limit s size = record s {
  min_no_limit_raise_to =
      if ltb s.min_no_limit_raise_to (size + size - s.max_spent)
      then size + size - s.max_spent
      else s.min_no_limit_raise_to;
  max_spent = size;
}

-- The new bet of a raise in a limit game.
abbrev pub raise_limit : Game → State → ℕ → State
raise_limit g s p = record s {
  max_spent =
      if ltb (s.stack_player p) (s.max_spent + g.raise_size s.round)
      then s.stack_player p
      else s.max_spent + g.raise_size s.round;
}

-- The `switch` of `doAction`, its assertions included.
unfoldable pub place_bet : ActionType → Game → State → ℕ → ℕ → Option State
place_bet a_fold g s p size = some (record s { player_folded = update s.player_folded p true })
place_bet a_call g s p size = some (
    if ltb (s.stack_player p) s.max_spent
    then put_in s p (s.stack_player p)
    else put_in s p s.max_spent)
place_bet a_raise g s p size =
    if is_no_limit g.betting_type
    then guard (ltb s.max_spent size)
      >> guard (leb size (s.stack_player p))
      >> some (let t = raise_no_limit s size in put_in t p t.max_spent)
    else some (let t = raise_limit g s p in put_in t p t.max_spent)
place_bet a_invalid g s p size = none

-- `1` or the largest blind, the least raise of a new round.
unfoldable pub min_raise_by : Game → ℕ
min_raise_by g =
    loop g.num_players (λ p least. if ltb least (g.blind p) then g.blind p else least) 1

-- The ways in which `doAction` moves on: the hand is over, goes to the next round, or goes to the
-- showdown with no more betting.
abbrev pub over : State → State
over s = record s { finished = true }

abbrev pub next_round : Game → State → State
next_round g s = record s {
  round = s.round + 1;
  min_no_limit_raise_to = min_raise_by g + s.max_spent;
}

abbrev pub showdown : Game → State → State
showdown g s = record s { finished = true; round = g.num_rounds - 1 }

-- The end of `doAction`: has the round or the game ended?
unfoldable pub end_turn : Game → State → State
end_turn g s =
    if leb g.num_players (num_folded g s + 1)
    then over s
    else if leb (num_acting_players g s) (num_called s)
    then if ltb 1 (num_acting_players g s)
      then if ltb (s.round + 1) g.num_rounds then next_round g s else over s
      else showdown g s
    else s

-- `doAction`
unfoldable pub do_action : Game → Action → State → Option State
do_action g a s = current_player g s >>= λ p.
    guard (ltb (s.num_actions s.round) max_num_actions)
    >> (place_bet a.type g (log_action s p a) p a.size >>= λ t. some (end_turn g t))

-- One round of `initState`'s loop over the players.
unfoldable pub init_player : Game → ℕ → State → State
init_player g p s = record s {
  spent = update s.spent p (g.blind p);
  sum_round_spent =
      update s.sum_round_spent s.round (update (s.sum_round_spent s.round) p (g.blind p));
  stack_player = if g.use_state_stack then s.stack_player else update s.stack_player p (g.stack p);
  max_spent = if ltb s.max_spent (g.blind p) then g.blind p else s.max_spent;
  player_folded = update s.player_folded p false;
  hole_cards =
      update s.hole_cards p
        (loop g.num_hole_cards (λ c h. update h c undefined_card) (s.hole_cards p));
}

-- `sum_round_spent[r][p] = 0` for the rounds and players of the game.
unfoldable pub clear_round_spent : Game → (ℕ → ℕ → ℕ) → ℕ → ℕ → ℕ
clear_round_spent g =
    loop g.num_rounds (λ r m. update m r (loop g.num_players (λ p h. update h p 0) (m r)))

-- The least first raise of a no-limit game.
abbrev pub first_raise_to : Game → ℕ → ℕ
first_raise_to g max_spent =
    if is_no_limit g.betting_type then if max_spent == 0 then 1 else max_spent * 2 else 0

-- `initState`
unfoldable pub init_state : Game → ℕ → State → State
unfolding init_player clear_round_spent
init_state g hand_id s =
    let start = record s {
      hand_id = hand_id;
      round = 0;
      sum_round_spent = clear_round_spent g s.sum_round_spent;
      max_spent = 0;
    } in
    let t = loop g.num_players (init_player g) start in
    record t {
      min_no_limit_raise_to = first_raise_to g t.max_spent;
      num_actions = loop g.num_rounds (λ r h. update h r 0) t.num_actions;
      board_cards = loop max_board_cards (λ b h. update h b undefined_card) t.board_cards;
      finished = false;
    }
