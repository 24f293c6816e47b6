-- ===== src/History.antt =====
-- The log of a hand in modules/core/src/game.c: TotalAction, GetLastActionFromState, StepBackAction
-- with StateTableInfoCopy, and the comparisons statesEqualCommon, StateEqual, matchStatesEqual and
-- InSameMatch; of modules/core/src/game_util.cpp: StateBettingEqual, IsPriorStateSameRound and
-- WithEarlyRaiseAction.
pub mod Same
pub mod SameStep
pub mod Log
pub mod Keeps
pub mod Back
pub mod StepBack
pub mod Compare
pub mod Later
pub mod Tests
use bulldog.Prelude.{
  ℕ, zero, suc, ◌+◌, ◌-◌, ◌*◌, Bool, true, false, ◌&&◌, ◌||◌, not, Option, none, some, List, [],
  ◌∷◌, ◌++◌, ltb, leb, ◌==◌, if◌then◌else◌, ◌>>=◌, ◌>>◌, guard, update, loop,
}
use bulldog.Game.{ActionType, a_fold, a_call, a_raise, a_invalid, is_raise, Action, Game, State}
use bulldog.Betting.{sum_board_cards}
use bulldog.Hand.{do_action, init_state}

-- The values of `enum ActionType`.
abbrev pub type_code : ActionType → ℕ
type_code a_fold = 0
type_code a_call = 1
type_code a_raise = 2
type_code a_invalid = 3

-- `for (i = 0; i < n; ++i) if (!t(i)) return 0;`
unfoldable pub all_below : ℕ → (ℕ → Bool) → Bool
all_below zero t = true
all_below (suc n) t = all_below n t && t n

-- `TotalAction`
unfoldable pub total_action : State → ℕ
total_action s = loop (suc s.round) (λ r total. total + s.num_actions r) 0

-- `GetLastActionFromState`, looking back from round `r`.
unfoldable pub last_action_from : State → ℕ → Option Action
last_action_from s zero =
    if s.num_actions 0 == 0 then none else some (s.action 0 (s.num_actions 0 - 1))
last_action_from s (suc r) =
    let earlier = last_action_from s r in
    if s.num_actions (suc r) == 0
    then earlier
    else some (s.action (suc r) (s.num_actions (suc r) - 1))

unfoldable pub last_action : State → Option Action
last_action s = last_action_from s s.round

-- The actions that the two loops of `StepBackAction` run over, in their order: the first `n` of a
-- round, and those of the rounds before `r`.
unfoldable pub round_log : State → ℕ → ℕ → List Action
round_log s r zero = []
round_log s r (suc n) = round_log s r n ++ (s.action r n ∷ [])

unfoldable pub rounds_log : State → ℕ → List Action
rounds_log s zero = []
rounds_log s (suc r) = rounds_log s r ++ round_log s r (s.num_actions r)

abbrev pub log_of : State → List Action
log_of s = rounds_log s (suc s.round)

-- `StateTableInfoCopy`
unfoldable pub table_info_copy : Game → State → State → State
table_info_copy g ref target = record target {
  stack_player = loop g.num_players (λ p f. update f p (ref.stack_player p)) target.stack_player;
  hole_cards =
      loop g.num_players
        (λ p f. update f p (loop g.num_hole_cards (λ i h. update h i (ref.hole_cards p i)) (f p)))
        target.hole_cards;
  hand_id = ref.hand_id;
  board_cards =
      loop (sum_board_cards g ref.round) (λ i f. update f i (ref.board_cards i)) target.board_cards;
}

-- The result of `StepBackAction`, 0 or -1, and the target state as it leaves it.
pub record BackResult : Type 0 where
  pub done : Bool
  pub target : State

-- The loops of `StepBackAction` with `to_do` actions left to do.
unfoldable pub redo : Game → ℕ → List Action → State → Option BackResult
redo g to_do [] t = some (record { done = false; target = t })
redo g to_do (a ∷ l) t = do_action g a t >>= λ u.
    let rest = redo g (to_do - 1) l u in
    if to_do - 1 == 0 then some (record { done = true; target = u }) else rest

-- `StepBackAction`
unfoldable pub step_back_action : Game → State → State → ℕ → Option BackResult
step_back_action g ref target back_steps =
    let fresh = init_state g 0 target in
    let copied = table_info_copy g ref fresh in
    if total_action ref == back_steps
    then some (record { done = true; target = fresh })
    else if ltb (total_action ref) back_steps
    then some (record { done = false; target = copied })
    else redo g (total_action ref - back_steps) (log_of ref) copied

abbrev pub same_action : Action → Action → Bool
same_action a b = type_code a.type == type_code b.type && a.size == b.size

-- `StateBettingEqual`
unfoldable pub state_betting_equal : State → State → Bool
state_betting_equal a b =
    a.round == b.round
    && all_below (suc a.round) (λ r.
      a.num_actions r == b.num_actions r
      && all_below (a.num_actions r) (λ i. same_action (a.action r i) (b.action r i)))

-- `statesEqualCommon`; its loop over the rounds is that of `StateBettingEqual`, written out again.
unfoldable pub states_equal_common : Game → State → State → Bool
states_equal_common g a b =
    a.hand_id == b.hand_id
    && a.round == b.round
    && all_below (suc a.round) (λ r.
      a.num_actions r == b.num_actions r
      && all_below (a.num_actions r) (λ i. same_action (a.action r i) (b.action r i)))
    && all_below (sum_board_cards g a.round) (λ i. a.board_cards i == b.board_cards i)

-- `StateEqual`
unfoldable pub state_equal : Game → State → State → Bool
state_equal g a b =
    states_equal_common g a b
    && all_below g.num_players
        (λ p. all_below g.num_hole_cards (λ i. a.hole_cards p i == b.hole_cards p i))

-- `MatchState`
pub record MatchState : Type 0 where
  pub viewing_player : ℕ
  pub state : State

-- `matchStatesEqual`
unfoldable pub match_states_equal : Game → MatchState → MatchState → Bool
match_states_equal g a b =
    a.viewing_player == b.viewing_player
    && states_equal_common g a.state b.state
    && all_below g.num_hole_cards
        (λ i. a.state.hole_cards a.viewing_player i == b.state.hole_cards a.viewing_player i)

-- `InSameMatch`, `true` for its result 0.
unfoldable pub in_same_match : MatchState → MatchState → Bool
in_same_match a b =
    a.viewing_player == b.viewing_player
    && a.state.hand_id == b.state.hand_id
    && all_below (suc a.state.round) (λ r. all_below (a.state.num_actions r) (λ i.
      type_code (a.state.action r i).type == type_code (b.state.action r i).type
      && (not (is_raise (a.state.action r i).type)
          || (a.state.action r i).size == (b.state.action r i).size)))
    && a.state.hole_cards a.viewing_player 0 == b.state.hole_cards a.viewing_player 0
    && a.state.hole_cards a.viewing_player 1 == b.state.hole_cards a.viewing_player 1

-- `actionToCode`: 0 stands for its -1, and `n + 1` for `n`. It exits on an invalid type.
unfoldable pub action_to_code : Action → Option ℕ
action_to_code a = elim (a.type) [
  | a_fold ↦ some 0
  | a_call ↦ some 1
  | a_raise ↦ some (a.size + 1)
  | a_invalid ↦ none
]

-- The loop of `IsPriorStateSameRound` over the first `n` actions of the round.
unfoldable pub prior_actions : State → State → ℕ → Option Bool
prior_actions old new zero = some true
prior_actions old new (suc n) = prior_actions old new n >>= λ ok.
    if not ok
    then some false
    else (action_to_code (old.action old.round n) >>= λ c.
        action_to_code (new.action old.round n) >>= λ d. some (c == d))

-- `IsPriorStateSameRound`
unfoldable pub is_prior_state_same_round : State → State → Option Bool
is_prior_state_same_round old new =
    if not (old.round == new.round)
    then some false
    else if leb (new.num_actions old.round) (old.num_actions old.round)
    then some false
    else prior_actions old new (old.num_actions old.round)

-- `WithEarlyRaiseAction`
unfoldable pub with_early_raise_action : State → Bool
with_early_raise_action s =
    s.round == 0
    || not (all_below (s.num_actions s.round) (λ a. not (is_raise (s.action s.round a).type)))
