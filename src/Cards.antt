-- ===== src/Cards.antt =====
-- Cards and dealing: `makeCard` of modules/core/include/bulldog/game.h, `dealCard` and `dealCards` of
-- modules/core/src/game.c. The random numbers are a parameter: `draw n` is the n-th result of
-- `genrand_int32`. Dealing from an empty deck divides by 0, which C leaves undefined.
-- `boardCards` has MAX_BOARD_CARDS entries, past which C overruns into `holeCards`; the model's array has
-- no end, so the theorems ask that the game fits (FitsArrays).
pub mod Deck
pub mod Dealt
pub mod Boards
pub mod Visit
pub mod Remaining
pub mod Valid
pub mod Tests
use bulldog.Prelude.{ℕ, zero, suc, ◌+◌, ◌-◌, ◌*◌, ◌/◌, ◌%◌, ◌==◌, if◌then◌else◌, update, loop}
use bulldog.Game.{max_suits, max_ranks, Game, State}

abbrev pub make_card : ℕ → ℕ → ℕ → ℕ
make_card rank suit num_suits = rank * num_suits + suit

-- The local variables of `dealCards`, the arrays it fills, and how many numbers have been drawn.
pub record Deal : Type 0 where
  pub deck : ℕ → ℕ
  pub num_cards : ℕ
  pub drawn : ℕ
  pub holes : ℕ → ℕ → ℕ
  pub boards : ℕ → ℕ
  pub next_board : ℕ

-- `deck[numCards] = card; ++numCards;`
abbrev pub push_card : ℕ → Deal → Deal
push_card card d = record d { deck = update d.deck d.num_cards card; num_cards = d.num_cards + 1 }

unfoldable pub push_suit : Game → ℕ → ℕ → Deal → Deal
push_suit g k n d =
    loop n
      (λ j.
        push_card
          (make_card (max_ranks - g.num_ranks + j) (max_suits - g.num_suits + k) g.num_suits))
      d

unfoldable pub build_deck : Game → ℕ → Deal → Deal
build_deck g n d = loop n (λ k. push_suit g k g.num_ranks) (record d { num_cards = 0 })

module _ (draw : ℕ → ℕ) where
  -- `dealCard`: the card that is dealt, and what is left; `--numCards` of the callers is included.
  abbrev pub drawn_index : Deal → ℕ
  drawn_index d = draw d.drawn % d.num_cards

  abbrev pub dealt_card : Deal → ℕ
  dealt_card d = d.deck (drawn_index d)

  abbrev pub take_card : Deal → Deal
  take_card d = record d {
    deck = update d.deck (drawn_index d) (d.deck (d.num_cards - 1));
    num_cards = d.num_cards - 1;
    drawn = d.drawn + 1;
  }

  abbrev pub deal_hole : ℕ → ℕ → Deal → Deal
  deal_hole p i d = record (take_card d) {
    holes = update d.holes p (update (d.holes p) i (dealt_card d));
  }

  abbrev pub deal_board : Deal → Deal
  deal_board d = record (take_card d) {
    boards = update d.boards d.next_board (dealt_card d);
    next_board = d.next_board + 1;
  }

  unfoldable pub deal_hand : ℕ → ℕ → Deal → Deal
  deal_hand p n d = loop n (deal_hole p) d

  unfoldable pub deal_hands : Game → ℕ → Deal → Deal
  deal_hands g n d = loop n (λ p. deal_hand p g.num_hole_cards) d

  unfoldable pub deal_round : ℕ → Deal → Deal
  deal_round n d = loop n (λ i. deal_board) d

  unfoldable pub deal_rounds : Game → ℕ → Deal → Deal
  deal_rounds g n d = loop n (λ r. deal_round (g.num_board_cards r)) d

  -- `dealCards`, from a `deck` array with anything in it.
  unfoldable pub deal_cards : Game → (ℕ → ℕ) → State → State
  deal_cards g deck s =
      let d : Deal = record {
        deck = deck;
        num_cards = 0;
        drawn = 0;
        holes = s.hole_cards;
        boards = s.board_cards;
        next_board = 0;
      } in
      let dealt =
        deal_rounds g g.num_rounds (deal_hands g g.num_players (build_deck g g.num_suits d)) in
      record s { hole_cards = dealt.holes; board_cards = dealt.boards }
