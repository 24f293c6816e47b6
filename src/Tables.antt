-- ===== src/Tables.antt =====
-- The buttons of a poker table: `TableActionToAction` and `IsTableActionPresent` of
-- modules/core/src/table_util.cpp. The arithmetic on `double` is a parameter: `times` is the base of a
-- raise times the multiplier of the button, plus what was spent before, as an `int32_t`. A negative
-- size stands for 0, which is as illegal.
pub mod Present
mod Tests
use bulldog.Prelude.{
  ℕ, ◌-◌, Bool, true, false, ◌&&◌, ◌||◌, not, Option, none, some, ltb, leb, ◌==◌, if◌then◌else◌,
  ◌>>=◌,
}
use bulldog.Game.{is_raise, ActionType, a_fold, a_call, a_raise, Action, Game, State}
use bulldog.Betting.{current_player, RaiseRange, raise_is_valid, is_valid_action}
use bulldog.History.{with_early_raise_action}
use bulldog.Queries.{ℤ, pos, negsuc, RaiseMode, pot_net, x_last_raise, get_raise_base}

pub data TableAction : Type 0 where
  default betsize fold check call min_raise half_pot_raise two_third_pot_raise one_pot_raise :
      TableAction
  two_x_raise three_x_raise four_x_raise allin_raise double_pot : TableAction

abbrev pub to_size : ℤ → ℕ
to_size (pos n) = n
to_size (negsuc n) = 0

abbrev pub already_spent : State → ℕ → ℕ
already_spent s p = if s.round == 0 then 0 else s.sum_round_spent (s.round - 1) p

abbrev pub raise_mode : State → RaiseMode
raise_mode s = if with_early_raise_action s then x_last_raise else pot_net

abbrev pub of_size : ActionType → ℕ → Action
of_size ty size = record { type = ty; size = size }

-- The last three cases of `IsTableActionPresent` for a raise look at these.
abbrev pub is_allin : TableAction → Bool
is_allin allin_raise = true
is_allin _ = false

abbrev pub is_x_raise : TableAction → Bool
is_x_raise two_x_raise = true
is_x_raise three_x_raise = true
is_x_raise four_x_raise = true
is_x_raise _ = false

module _ (times : TableAction → ℤ → ℕ → ℤ) where
  unfoldable pub sized_raise : Game → State → ℕ → TableAction → Option (Option Action)
  sized_raise g s p ta = get_raise_base g s (raise_mode s) >>= λ base.
      some (some (of_size a_raise (to_size (times ta base (already_spent s p)))))

  -- The `switch` of `TableActionToAction` for the acting player; `some none` is its result `false`.
  unfoldable pub action_of : Game → State → ℕ → TableAction → Option (Option Action)
  action_of g s p fold = some (some (of_size a_fold 0))
  action_of g s p check =
      some (if ltb (s.spent p) s.max_spent then none else some (of_size a_call 0))
  action_of g s p call = some (
      if s.spent p == s.max_spent || leb (s.stack_player p) s.max_spent
      then none
      else some (of_size a_call 0))
  action_of g s p half_pot_raise = sized_raise g s p half_pot_raise
  action_of g s p two_third_pot_raise = sized_raise g s p two_third_pot_raise
  action_of g s p one_pot_raise = sized_raise g s p one_pot_raise
  action_of g s p two_x_raise = sized_raise g s p two_x_raise
  action_of g s p three_x_raise = sized_raise g s p three_x_raise
  action_of g s p four_x_raise = sized_raise g s p four_x_raise
  action_of g s p allin_raise = some (
      some (
        if leb (s.stack_player p) s.max_spent
        then of_size a_call 0
        else of_size a_raise (s.stack_player p)))
  action_of g s p default = some none
  action_of g s p betsize = some none
  action_of g s p min_raise = some none
  action_of g s p double_pot = some none

  unfoldable pub table_action_to_action : Game → State → TableAction → Option (Option Action)
  table_action_to_action g s ta = current_player g s >>= λ p. action_of g s p ta

  -- The test of a raise, of which `isValidAction` says whether it is valid.
  abbrev pub raise_present : State → ℕ → TableAction → Action → Bool → Bool
  raise_present s p ta a valid =
      if not (is_allin ta) && a.size == s.stack_player p
      then false
      else if is_x_raise ta
      then valid && with_early_raise_action s
      else valid

  unfoldable pub action_present : Game → State → ℕ → TableAction → Action → Option Bool
  action_present g s p ta a = is_valid_action g s false a >>= λ (c, a').
      some (if is_raise a'.type then raise_present s p ta a' (ltb 0 c) else ltb 0 c)

  -- The buttons that stand for no action.
  unfoldable pub other_present : Game → State → ℕ → TableAction → Option Bool
  other_present g s p betsize = some true
  other_present g s p min_raise = raise_is_valid g s >>= λ range.
      some (elim range [ none ↦ false | some r ↦ ltb r.min_size (s.stack_player p) ])
  other_present g s p _ = some false

  unfoldable pub is_table_action_present : Game → State → TableAction → Option Bool
  is_table_action_present g s ta = current_player g s >>= λ p.
      (table_action_to_action g s ta >>= λ result. elim result [
        | some a ↦ action_present g s p ta a
        | none ↦ other_present g s p ta
      ])
