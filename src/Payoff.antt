-- ===== src/Payoff.antt =====
-- What a finished hand is worth to a player: `valueOfState` of modules/core/src/game.c, with its loop
-- over the side pots. Amounts are in 2520ths of a chip, so that a share among up to ten winners is
-- exact; what is won and what is lost are kept apart. The rank of a hand is a parameter, a natural
-- number, as `rankHand` returns no negative rank.
pub mod Pots
pub mod Shares
pub mod Balance
pub mod Loop
pub mod Seats
pub mod ZeroSum
pub mod Tests
use bulldog.Prelude.{
  ℕ, zero, suc, ◌+◌, ◌-◌, ◌*◌, ◌/◌, Bool, true, false, Option, none, some, List, [], ◌∷◌, ◌++◌, ltb,
  leb, ◌==◌, if◌then◌else◌, loop, tick, ◌>>=◌, ◌>>◌, guard,
}
use bulldog.Game.{undefined_card, Game, State}
use bulldog.Betting.{num_folded}

abbrev pub unit : ℕ
unit = 2520

abbrev pub int32_max : ℕ
int32_max = 2147483647

-- An entry of the arrays `spent` and `rank`; the rank -1 is `none`.
pub record Entry : Type 0 where
  pub chips : ℕ
  pub rank : Option ℕ

-- Won and lost so far: `value` is their difference.
pub record Value : Type 0 where
  pub won : ℕ
  pub lost : ℕ

-- `size`, `winRank` and `numWinners` of a side pot.
pub record Pot : Type 0 where
  pub size : ℕ
  pub win_rank : ℕ
  pub num_winners : ℕ

abbrev pub has_rank : Option ℕ → ℕ → Bool
has_rank none w = false
has_rank (some r) w = r == w

-- One round of the scan for a side pot.
unfoldable pub scan_rank : Option ℕ → Pot → Pot
scan_rank none pot = pot
scan_rank (some r) pot =
    if ltb pot.win_rank r
    then record pot { win_rank = r; num_winners = 1 }
    else if r == pot.win_rank
    then record pot { num_winners = pot.num_winners + 1 }
    else pot

-- The scan for a side pot. Its assertion `spent[p] > 0` is left out: the list starts with the players
-- who have spent something, and `next_entries` drops those with nothing left.
unfoldable pub scan_pot : List Entry → Pot → Pot
scan_pot [] pot = pot
scan_pot (e ∷ es) pot =
    scan_pot es
      (scan_rank e.rank (record pot { size = if ltb e.chips pot.size then e.chips else pot.size }))

abbrev pub no_pot : Pot
no_pot = record { size = int32_max; win_rank = 0; num_winners = 0 }

-- The list of players for the next pot.
unfoldable pub next_entries : ℕ → List Entry → List Entry
next_entries size [] = []
next_entries size (e ∷ es) =
    if e.chips - size == 0
    then next_entries size es
    else (record e { chips = e.chips - size }) ∷ next_entries size es

abbrev pub later_index : Option ℕ → Option ℕ
later_index none = none
later_index (some j) = some (suc j)

-- `playerIdx` for the next pot; `none` where the player is not in it.
unfoldable pub next_index : ℕ → List Entry → ℕ → Option ℕ
next_index size [] i = none
next_index size (e ∷ es) zero = if e.chips - size == 0 then none else some 0
next_index size (e ∷ es) (suc i) =
    let rest = next_index size es i in if e.chips - size == 0 then rest else later_index rest

abbrev pub count_entries : List Entry → ℕ
count_entries [] = 0
count_entries (e ∷ es) = suc (count_entries es)

abbrev pub rank_at : List Entry → ℕ → Option ℕ
rank_at [] i = none
rank_at (e ∷ es) zero = e.rank
rank_at (e ∷ es) (suc i) = rank_at es i

-- What a side pot adds for a player of the given rank, among `n` players.
unfoldable pub pot_value : Pot → ℕ → Option ℕ → Value → Value
pot_value pot n r v =
    if has_rank r pot.win_rank
    then record v { won = v.won + unit * (pot.size * (n - pot.num_winners)) / pot.num_winners }
    else record v { lost = v.lost + unit * pot.size }

-- The loop over the side pots, on fuel.
unfoldable pub side_pots : ℕ → List Entry → ℕ → Value → Option Value
side_pots zero es i v = none
side_pots (suc fuel) es i v =
    let pot = scan_pot es no_pot in
    let v' = pot_value pot (count_entries es) (rank_at es i) v in
    elim (next_index pot.size es i) [
      | none ↦ some v'
      | some j ↦ side_pots fuel (next_entries pot.size es) j v'
    ]

module _ (rank_hand : State → ℕ → ℕ) (g : Game) (s : State) where
  -- The rank of a player who takes part.
  unfoldable pub rank_of : ℕ → Option ℕ
  rank_of p =
      if s.player_folded p
      then none
      else if s.hole_cards p (g.num_hole_cards - 1) == undefined_card
      then none
      else some (rank_hand s p)

  -- The list of players from player `n - k` on, `k` being the players left to look at.
  unfoldable pub entries : ℕ → ℕ → List Entry
  entries zero p = []
  entries (suc k) p =
      if s.spent p == 0
      then entries k (suc p)
      else (record { chips = s.spent p; rank = rank_of p }) ∷ entries k (suc p)

  -- `playerIdx`: how many of the players before `player` are in the list. `none` if the player of
  -- interest is not in the list (`playerIdx` stays -1 and is used as an index).
  unfoldable pub index_of : ℕ → ℕ → ℕ → Option ℕ
  index_of zero p player = none
  index_of (suc k) p player =
      let rest = index_of k (suc p) player in
      if s.spent p == 0 then rest else if p == player then some 0 else later_index rest

  -- What the others have put in.
  unfoldable pub others_spent : ℕ → ℕ → ℕ
  others_spent zero player = 0
  others_spent (suc n) player = (if n == player then 0 else s.spent n) + others_spent n player

  -- `valueOfState`
  unfoldable pub value_of_state : ℕ → Option Value
  value_of_state player =
      if s.player_folded player
      then some (record { won = 0; lost = unit * s.spent player })
      else if num_folded g s + 1 == g.num_players
      then some (record { won = unit * others_spent g.num_players player; lost = 0 })
      else guard (ltb 1 (count_entries (entries g.num_players 0)))
        >> (index_of g.num_players 0 player >>= λ i.
            side_pots (count_entries (entries g.num_players 0)) (entries g.num_players 0) i
              (record { won = 0; lost = 0 }))
