-- ===== src/Cards/Tests.antt =====
-- Runs of the functions that deal and test cards, and instances of the theorems about them.
use bulldog.Prelude.{◌*◌, ◌≡◌, ◌↔◌, refl, arith, total, ◌==◌, if◌then◌else◌, true, false}
use bulldog.Game.{Game, State}
use bulldog.Hand.Tests.{heads_up, blank, heads_up-FitsArrays}
use bulldog.Betting.{sum_board_cards}
use bulldog.Cards.{
  build_deck, push_suit, deal_hand, deal_hands, deal_round, deal_rounds, deal_cards,
}
use bulldog.Cards.Dealt.{Slot, board, card_at}
use bulldog.Cards.Boards.{InPlay, deal_cards_apart}
use bulldog.Cards.Remaining.{
  use_hand, use_hands, use_round, use_rounds, check_used, push_unused_suit, build_unused,
  used_cards, deal_round_if, deal_rounds_left, deal_remaining_cards,
}
use bulldog.Cards.Remaining.Apart.{UpTo, Apart, deal_remaining_cards-Apart}
use bulldog.Cards.Valid.{contains, length, see_hands, see_board, is_state_cards_valid}
use bulldog.Cards.Valid.Doubles.{NoDouble, is_state_cards_valid_iff}
use bulldog.Cards.Valid.Deals.{UpTo-mono, deal_cards-is_state_cards_valid}

-- Three cards of one suit, one for each of two players, as in the game of Kuhn.
abbrev kuhn : Game
kuhn = record heads_up { num_suits = 1; num_ranks = 3; num_rounds = 1; num_hole_cards = 1 }

-- The card of player 0: with one suit the deck is 13, 14, 15 and not 10, 11, 12, since its suit is
-- numbered 3.
kuhn_test : (deal_cards (λ n. 2) kuhn (λ i. 0) blank).hole_cards 0 0 ≡ 15
unfolding deal_cards build_deck push_suit deal_hand deal_hands deal_round deal_rounds
kuhn_test = refl

deal_cards_apart_example : board 4 ≡ board 4
unfolding total InPlay
deal_cards_apart_example =
    deal_cards_apart (λ n. 5 * n) heads_up (λ i. 0) blank heads_up-FitsArrays (ground arith)
      (ground arith) (ground arith) (board 4) (board 4) (ground arith) (ground arith) refl

-- A hand on the flop.
abbrev flop : State
flop = deal_cards (λ n. 5 * n) heads_up (λ i. 0) (record blank { round = 1 })

flop-Apart : Apart heads_up 2 flop
unfolding deal_cards total
flop-Apart x y t v e =
    deal_cards_apart (λ n. 5 * n) heads_up (λ i. 0) (record blank { round = 1 }) heads_up-FitsArrays
      (ground arith) (ground arith) (ground arith) x y (UpTo-mono heads_up 2 4 (ground arith) x t)
      (UpTo-mono heads_up 2 4 (ground arith) y v) e

deal_remaining_cards-Apart_example :
    ((x : Slot)
      → UpTo heads_up 2 x
      → card_at
          (deal_remaining_cards (λ n. 3) heads_up (λ i. 0) (λ i. 0) flop).hole_cards
          (deal_remaining_cards (λ n. 3) heads_up (λ i. 0) (λ i. 0) flop).board_cards
          x
        ≡ card_at flop.hole_cards flop.board_cards x)
    × Apart heads_up 4 (deal_remaining_cards (λ n. 3) heads_up (λ i. 0) (λ i. 0) flop)
unfolding total deal_cards
deal_remaining_cards-Apart_example =
    deal_remaining_cards-Apart (λ n. 3) heads_up (λ i. 0) (λ i. 0) flop heads_up-FitsArrays
      (ground arith) (ground arith) (ground arith) (ground arith) flop-Apart

-- In the game of Kuhn with a board of one card, which is the card that is left.
abbrev kuhn_board : Game
kuhn_board = record kuhn { num_rounds = 2; num_board_cards = λ r. if r == 0 then 0 else 1 }

abbrev kuhn_hand : State
kuhn_hand = record blank { round = 0; hole_cards = λ p i. if p == 0 then 15 else 13 }

deal_remaining_cards_test :
    (deal_remaining_cards (λ n. 7) kuhn_board (λ i. 0) (λ i. 0) kuhn_hand).board_cards 0 ≡ 14
unfolding use_hand use_hands use_round use_rounds check_used push_unused_suit build_unused
    used_cards deal_round_if deal_rounds_left deal_remaining_cards
deal_remaining_cards_test = refl

-- Both players with the same card.
is_state_cards_valid_test :
    is_state_cards_valid kuhn (record blank { round = 0; hole_cards = λ p i. 13 }) ≡ false
unfolding is_state_cards_valid contains length see_hands see_board sum_board_cards
is_state_cards_valid_test = refl

is_state_cards_valid_iff_example :
    (is_state_cards_valid heads_up flop ≡ true)
    ↔ NoDouble flop (InPlay 2 2 (sum_board_cards heads_up 1))
unfolding deal_cards
is_state_cards_valid_iff_example = is_state_cards_valid_iff heads_up flop

deal_cards-is_state_cards_valid_example :
    is_state_cards_valid heads_up
      (deal_cards (λ n. 5 * n) heads_up (λ i. 0) (record blank { round = 3 }))
    ≡ true
unfolding total
deal_cards-is_state_cards_valid_example =
    deal_cards-is_state_cards_valid (λ n. 5 * n) heads_up (λ i. 0) (record blank { round = 3 })
      heads_up-FitsArrays (ground arith) (ground arith) (ground arith) (ground arith)
