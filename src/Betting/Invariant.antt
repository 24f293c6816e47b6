-- ===== src/Betting/Invariant.antt =====
-- What holds of a hand between two actions, for the game definitions that `readGame` accepts: the
-- chips, the log of actions and the turn. The operations are those of modules/core/src/game.c.
use bulldog.Prelude.{ℕ, ◌+◌, ◌-◌, ◌≤◌, ◌<◌, ◌≡◌, true, false, count}
use bulldog.Game.{max_rounds, max_players, max_num_actions, is_no_limit, Game, State}
use bulldog.Betting.{can_act, has_chips}
use bulldog.Betting.Count.{calls, Callers, type_at, who_at}

-- The ranges that `readGame` checks.
pub record IsGame (g : Game) : Type 0 where
  pub players_min : 2 ≤ g.num_players
  pub players_max : g.num_players ≤ max_players
  pub rounds_min : 1 ≤ g.num_rounds
  pub rounds_max : g.num_rounds ≤ max_rounds

-- The players still to act who have chips, and those of them who have called.
abbrev pub acting : Game → State → ℕ
acting g s = count (can_act s) g.num_players

abbrev pub called : State → ℕ
called s = calls (type_at s) (who_at s) (has_chips s) (s.num_actions s.round)

abbrev pub folded : Game → State → ℕ
folded g s = count s.player_folded g.num_players

-- Nobody has put in more than the current bet or the own stack, and someone has put in the bet.
-- In a limit game the stacks are equal (an unequal stack can lower the bet there).
pub record ChipsOf (g : Game) (spent stack : ℕ → ℕ) (max_spent : ℕ) : Type 0 where
  pub spent_le_stack : (p : ℕ) → p < g.num_players → spent p ≤ stack p
  pub spent_le_max : (p : ℕ) → p < g.num_players → spent p ≤ max_spent
  pub bettor : ℕ
  pub bettor_in : bettor < g.num_players
  pub bettor_paid : spent bettor ≡ max_spent
  pub level :
      is_no_limit g.betting_type ≡ false
      → (p q : ℕ) → p < g.num_players
      → q < g.num_players
      → stack p ≡ stack q

abbrev pub Chips : Game → State → Type 0
Chips g s = ChipsOf g s.spent s.stack_player s.max_spent

-- The arrays of actions hold the log, and later rounds are empty.
pub record LogOf (g : Game) (num_actions : ℕ → ℕ) (round : ℕ) : Type 0 where
  pub round_in : round < g.num_rounds
  pub fits : (r : ℕ) → r < g.num_rounds → num_actions r ≤ max_num_actions
  pub later_empty : (r : ℕ) → round < r → r < g.num_rounds → num_actions r ≡ 0

abbrev pub Log : Game → State → Type 0
Log g s = LogOf g s.num_actions s.round

-- Who has called the bet has put it in, or is all-in.
abbrev pub Paid : State → ℕ → Type 0
Paid s p = has_chips s p ≡ true → s.spent p ≡ s.max_spent

-- The current round of betting: a raise has to top the bet, everyone who called the bet has put it
-- in or is all-in, and the log has room for those who have still to call.
pub record Turn (g : Game) (s : State) : Type 0 where
  pub raise_tops : is_no_limit g.betting_type ≡ true → s.max_spent < s.min_no_limit_raise_to
  pub matched : Callers (type_at s) (who_at s) (Paid s) (s.num_actions s.round)
  pub room : s.num_actions s.round + (acting g s - called s) ≤ max_num_actions

-- Someone still has to call, and at least two players contest the pot.
pub record Open (g : Game) (s : State) : Type 0 where
  pub waiting : called s < acting g s
  pub contested : folded g s + 1 < g.num_players

pub record IsValid (g : Game) (s : State) : Type 0 where
  pub chips : Chips g s
  pub log : Log g s
  pub turn : s.finished ≡ false → Turn g s
  pub in_play : s.finished ≡ false → Open g s
