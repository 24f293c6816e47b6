-- ===== src/Cards/Valid/Deals.antt =====
-- `IsStateCardsValid` of modules/core/src/game_util.cpp on the hands that `dealCards` of
-- modules/core/src/game.c deals.
use mathlib.Core.Path.{subst}
use bulldog.Prelude.{ℕ, suc, ◌+◌, ◌≤◌, ◌<◌, ◌≡◌, true, arith, total, total_mono}
use bulldog.Game.{Game, State, FitsArrays}
use bulldog.Betting.{sum_board_cards}
use bulldog.Betting.Boards.{sum_board_cards-total}
use bulldog.Cards.{deal_cards}
use bulldog.Cards.Dealt.{Slot, hole, board}
use bulldog.Cards.Boards.{InPlay, deal_cards_apart}
use bulldog.Cards.Remaining.Apart.{UpTo}
use bulldog.Cards.Valid.{is_state_cards_valid}
use bulldog.Cards.Valid.Doubles.{is_state_cards_valid_iff}

pub UpTo-mono : (g : Game) (m n : ℕ) → m ≤ n → (x : Slot) → UpTo g m x → UpTo g n x
unfolding InPlay
UpTo-mono g m n l (hole q i) t = t
UpTo-mono g m n l (board c) t = omega (arith, total_mono g.num_board_cards m n l)

board_places :
    (g : Game) (r : ℕ)
    → total g.num_board_cards (suc r) < 256
    → (x : Slot) → InPlay g.num_players g.num_hole_cards (sum_board_cards g r) x
    → UpTo g (suc r) x
board_places g r l x t =
    subst (λ b. InPlay g.num_players g.num_hole_cards b x) (sum_board_cards-total g r l) t

-- In a game that fits the arrays, with at most seven board cards, and with one to four suits and a deck
-- with enough cards for the hands and the board, IsStateCardsValid returns true in every round of a
-- hand that dealCards has dealt.
pub deal_cards-is_state_cards_valid :
    (draw : ℕ → ℕ) (g : Game) (deck : ℕ → ℕ) (s : State)
    → FitsArrays g
    → 1 ≤ g.num_suits
    → g.num_suits ≤ 4
    → s.round < g.num_rounds
    → total (λ p. g.num_hole_cards) g.num_players + total g.num_board_cards g.num_rounds
      ≤ total (λ k. g.num_ranks) g.num_suits
    → is_state_cards_valid g (deal_cards draw g deck s) ≡ true
unfolding deal_cards
deal_cards-is_state_cards_valid draw g deck s fits l u r room =
    (is_state_cards_valid_iff g (deal_cards draw g deck s)).1
      (λ x y t v n e. deal_cards_apart draw g deck s fits l u room x y (to x t) (to y v) e)
  where
    to :
        (x : Slot)
        → InPlay g.num_players g.num_hole_cards (sum_board_cards g s.round) x
        → UpTo g g.num_rounds x
    to x t = UpTo-mono g (suc s.round) g.num_rounds (omega arith) x (
        board_places g s.round
          (omega (
            arith,
            fits.boards,
            total_mono g.num_board_cards (suc s.round) g.num_rounds (omega arith),
          ))
          x t)
