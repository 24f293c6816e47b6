-- ===== src/Tables/Tests.antt =====
-- Buttons at the start of a hand, and instances of the theorems about them.
use bulldog.Prelude.{ℕ, ◌+◌, ◌*◌, ◌≡◌, refl, true, some}
use bulldog.Betting.{
  current_player, next_player, next_player_from, is_valid_action, raise_is_valid, no_limit_range,
  fit_size, num_raises, num_acting_players,
}
use bulldog.Betting.Rules.{Legal}
use bulldog.Hand.{init_state}
use bulldog.Hand.Tests.{
  heads_up, opening, raise_to, heads_up-IsGame, opening-IsValid, opening-running, opening-player,
}
use bulldog.History.{with_early_raise_action}
use bulldog.Queries.{ℤ, pos, negsuc, get_raise_base, big_blind}
use bulldog.Tables.{
  TableAction, check, call, allin_raise, three_x_raise, sized_raise, action_of,
  table_action_to_action, action_present, is_table_action_present,
}
use bulldog.Tables.Present.{calls, is_table_action_present-Legal, one_button_calls}

-- Three times the base.
abbrev three_times : TableAction → ℤ → ℕ → ℤ
three_times ta (pos n) spent = pos (3 * n + spent)
three_times ta (negsuc n) spent = pos spent

three_x_action :
    table_action_to_action three_times heads_up opening three_x_raise ≡ some (some (raise_to 300))
unfolding table_action_to_action action_of sized_raise get_raise_base big_blind
    with_early_raise_action init_state current_player next_player next_player_from
three_x_action = refl

three_x_present : is_table_action_present three_times heads_up opening three_x_raise ≡ some true
unfolding is_table_action_present action_present table_action_to_action action_of sized_raise
    get_raise_base big_blind with_early_raise_action init_state current_player next_player
    next_player_from is_valid_action raise_is_valid no_limit_range fit_size num_raises
    num_acting_players
three_x_present = refl

is_table_action_present-Legal_example : Legal heads_up opening 0 (raise_to 300)
is_table_action_present-Legal_example =
    is_table_action_present-Legal three_times heads_up opening 0 three_x_raise (raise_to 300)
      heads_up-IsGame opening-IsValid opening-running opening-player three_x_action three_x_present

one_button_calls_example :
    calls (table_action_to_action three_times heads_up opening check)
      + calls (table_action_to_action three_times heads_up opening call)
      + calls (table_action_to_action three_times heads_up opening allin_raise)
    ≡ 1
one_button_calls_example =
    one_button_calls three_times heads_up opening 0 heads_up-IsGame opening-IsValid opening-running
      opening-player
