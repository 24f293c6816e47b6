-- ===== src/Betting.antt =====
-- What modules/core/src/game.c asks of a hand: whose turn it is, the counts over the players, and
-- which raises and actions are valid.
-- A function that may loop for ever, exit or fail an assertion returns an `Option`.
pub mod Turn
pub mod Boards
pub mod Count
pub mod Invariant
pub mod Rules
pub mod Validity
use bulldog.Prelude.{
  ℕ, zero, suc, ◌+◌, ◌-◌, ◌*◌, ◌%◌, Bool, true, false, ◌&&◌, ◌||◌, not, Option, none, some, ltb,
  leb, ◌==◌, if◌then◌else◌, ◌>>=◌, ◌>>◌, guard, update, loop, tick,
}
use bulldog.Game.{
  max_num_actions, max_board_cards, undefined_card, premature_fold, is_no_limit, is_raise,
  is_invalid, ActionType, a_fold, a_call, a_raise, a_invalid, Action, Game, State,
}

-- `bcStart`
unfoldable pub bc_start : Game → ℕ → ℕ
bc_start g r = loop r (λ i total. (total + g.num_board_cards i) % 256) 0

-- `sumBoardCards`
unfoldable pub sum_board_cards : Game → ℕ → ℕ
sum_board_cards g r = loop (suc r) (λ i total. (total + g.num_board_cards i) % 256) 0

-- `spent[p] < stackPlayer[p]`: the player has chips left.
abbrev pub has_chips : State → ℕ → Bool
has_chips s p = ltb (s.spent p) (s.stack_player p)

-- The player has not folded and has chips left.
abbrev pub can_act : State → ℕ → Bool
can_act s p = not (s.player_folded p) && has_chips s p

-- The loop of `nextPlayer` on fuel.
unfoldable pub next_player_from : ℕ → Game → State → ℕ → Option ℕ
next_player_from zero g s n = none
next_player_from (suc fuel) g s n =
    let n' = (n + 1) % g.num_players in
    let more = next_player_from fuel g s n' in if can_act s n' then some n' else more

-- `nextPlayer`. The loop tries each player once in `numPlayers` rounds.
unfoldable pub next_player : Game → State → ℕ → Option ℕ
next_player g s cur = next_player_from g.num_players g s cur

-- `currentPlayer`: the player after the last one to act, or after the seat before `firstPlayer`.
unfoldable pub current_player : Game → State → Option ℕ
current_player g s =
    if s.finished
    then none
    else if s.num_actions s.round == 0
    then next_player g s ((g.first_player s.round + g.num_players - 1) % 256)
    else next_player g s (s.acting_player s.round (s.num_actions s.round - 1))

-- `numRaises`
unfoldable pub num_raises : State → ℕ
num_raises s =
    loop (s.num_actions s.round) (λ i ret. tick (is_raise (s.action s.round i).type) ret) 0

-- `numFolded`
unfoldable pub num_folded : Game → State → ℕ
num_folded g s = loop g.num_players (λ p ret. tick (s.player_folded p) ret) 0

-- The loop of `numCalled`, from action `i` back to the start of the current bet.
unfoldable pub num_called_from : State → ℕ → ℕ → ℕ
num_called_from s zero ret = ret
num_called_from s (suc i) ret = elim ((s.action s.round i).type) [
  | a_raise ↦ tick (has_chips s (s.acting_player s.round i)) ret
  | a_call ↦ num_called_from s i (tick (has_chips s (s.acting_player s.round i)) ret)
  | a_fold ↦ num_called_from s i ret
  | a_invalid ↦ num_called_from s i ret
]

-- `numCalled`
unfoldable pub num_called : State → ℕ
unfolding num_called_from
num_called s = num_called_from s (s.num_actions s.round) 0

-- `numAllIn`
unfoldable pub num_all_in : Game → State → ℕ
num_all_in g s = loop g.num_players (λ p ret. tick (leb (s.stack_player p) (s.spent p)) ret) 0

-- `numActingPlayers`
unfoldable pub num_acting_players : Game → State → ℕ
num_acting_players g s = loop g.num_players (λ p ret. tick (can_act s p) ret) 0

-- The raise sizes that `raiseIsValid` hands back through its pointers.
pub record RaiseRange : Type 0 where
  pub min_size : ℕ
  pub max_size : ℕ

-- The end of `raiseIsValid`, for player `p` of a no-limit game; `none` is its result 0.
unfoldable pub no_limit_range : State → ℕ → Option RaiseRange
no_limit_range s p =
    if ltb (s.stack_player p) s.min_no_limit_raise_to
    then if leb (s.stack_player p) s.max_spent
      then none
      else some (record { min_size = s.stack_player p; max_size = s.stack_player p })
    else some (record { min_size = s.min_no_limit_raise_to; max_size = s.stack_player p })

-- `raiseIsValid`. The inner `none` is its result 0.
unfoldable pub raise_is_valid : Game → State → Option (Option RaiseRange)
raise_is_valid g s =
    if leb (g.max_raises s.round) (num_raises s)
    then some none
    else if ltb max_num_actions (s.num_actions s.round + g.num_players)
    then some none
    else if leb (num_acting_players g s) 1
    then some none
    else if not (is_no_limit g.betting_type)
    then some (some (record { min_size = 0; max_size = 0 }))
    else current_player g s >>= λ p. some (no_limit_range s p)

-- The size test of `isValidAction` for a raise in a no-limit game, with the action that is left.
unfoldable pub fit_size : Bool → RaiseRange → Action → ℕ × Action
fit_size try_fixing range a =
    if ltb a.size range.min_size
    then if try_fixing then (1, record a { size = range.min_size }) else (0, a)
    else if ltb range.max_size a.size
    then if try_fixing then (1, record a { size = range.max_size }) else (0, a)
    else (1, a)

-- The branches of `isValidAction` on the action's type, for player `p`.
unfoldable pub valid_action_of : ActionType → Game → State → ℕ → Bool → Action → Option (ℕ × Action)
valid_action_of a_raise g s p try_fixing a = raise_is_valid g s >>= λ range. some (elim range [
  | none ↦ (0, a)
  | some r ↦ if is_no_limit g.betting_type then fit_size try_fixing r a else (1, a)
])
valid_action_of a_fold g s p try_fixing a =
    if s.spent p == s.max_spent || s.spent p == s.stack_player p
    then some (premature_fold, a)
    else some (1, record a { size = 0 })
valid_action_of a_call g s p try_fixing a = some (1, record a { size = 0 })
valid_action_of a_invalid g s p try_fixing a = some (1, record a { size = 0 })

-- `isValidAction`: its result, and the action as it leaves it.
unfoldable pub is_valid_action : Game → State → Bool → Action → Option (ℕ × Action)
unfolding valid_action_of
is_valid_action g s try_fixing a =
    if s.finished || is_invalid a.type
    then some (0, a)
    else current_player g s >>= λ p. valid_action_of a.type g s p try_fixing a
