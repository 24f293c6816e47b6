-- ===== src/Cards/Remaining.antt =====
-- `checkUsed` and `dealRemainingCards` of modules/core/src/game.c. As in `dealCards`, `draw` gives the
-- random numbers, and the local arrays hold anything at the start.
pub mod Unused
pub mod Collect
pub mod Left
pub mod Apart
use bulldog.Prelude.{
  ℕ, zero, suc, ◌+◌, ◌-◌, Bool, true, false, ◌||◌, ◌==◌, if◌then◌else◌, ltb, update, loop,
}
use bulldog.Game.{max_suits, max_ranks, Game, State}
use bulldog.Cards.{make_card, Deal, push_card, deal_board}

-- `usedCards`, `numUsed`, and the index `s` into the board.
pub record Used : Type 0 where
  pub cards : ℕ → ℕ
  pub num_used : ℕ
  pub next : ℕ

abbrev pub use_card : ℕ → Used → Used
use_card c u = record u { cards = update u.cards u.num_used c; num_used = u.num_used + 1 }

unfoldable pub use_hand : (ℕ → ℕ → ℕ) → ℕ → ℕ → Used → Used
use_hand holes p n u = loop n (λ i. use_card (holes p i)) u

unfoldable pub use_hands : Game → (ℕ → ℕ → ℕ) → ℕ → Used → Used
use_hands g holes n u = loop n (λ p. use_hand holes p g.num_hole_cards) u

abbrev pub use_board : (ℕ → ℕ) → Used → Used
use_board boards u = record (use_card (boards u.next) u) { next = u.next + 1 }

unfoldable pub use_round : (ℕ → ℕ) → ℕ → Used → Used
use_round boards n u = loop n (λ i. use_board boards) u

unfoldable pub use_rounds : Game → (ℕ → ℕ) → ℕ → Used → Used
use_rounds g boards n u = loop n (λ r. use_round boards (g.num_board_cards r)) u

-- Whether `card` is among the first `n` used cards.
unfoldable pub check_used : (ℕ → ℕ) → ℕ → ℕ → Bool
check_used cards zero card = false
check_used cards (suc n) card = check_used cards n card || (cards n == card)

abbrev pub deck_card : Game → ℕ → ℕ → ℕ
deck_card g j k = make_card (max_ranks - g.num_ranks + j) (max_suits - g.num_suits + k) g.num_suits

abbrev pub push_unused : Game → Used → ℕ → ℕ → Deal → Deal
push_unused g u k j d =
    if check_used u.cards u.num_used (deck_card g j k) then d else push_card (deck_card g j k) d

unfoldable pub push_unused_suit : Game → Used → ℕ → ℕ → Deal → Deal
push_unused_suit g u k n d = loop n (push_unused g u k) d

unfoldable pub build_unused : Game → Used → ℕ → Deal → Deal
build_unused g u n d = loop n (λ k. push_unused_suit g u k g.num_ranks) (record d { num_cards = 0 })

module _ (draw : ℕ → ℕ) where
  -- A place of the board: dealt if its round is still to come, passed over if not.
  abbrev pub deal_if : Bool → Deal → Deal
  deal_if later d = if later then deal_board draw d else record d { next_board = d.next_board + 1 }

  unfoldable pub deal_round_if : Bool → ℕ → Deal → Deal
  deal_round_if later n d = loop n (λ i. deal_if later) d

  unfoldable pub deal_rounds_left : Game → ℕ → ℕ → Deal → Deal
  deal_rounds_left g round n d = loop n (λ r. deal_round_if (ltb round r) (g.num_board_cards r)) d

unfoldable pub used_cards : Game → (ℕ → ℕ) → State → Used
used_cards g used s =
    use_rounds g s.board_cards (suc s.round)
      (use_hands g s.hole_cards g.num_players (record { cards = used; num_used = 0; next = 0 }))

unfoldable pub deal_remaining_cards : (ℕ → ℕ) → Game → (ℕ → ℕ) → (ℕ → ℕ) → State → State
deal_remaining_cards draw g used deck s =
    let d : Deal = record {
      deck = deck;
      num_cards = 0;
      drawn = 0;
      holes = s.hole_cards;
      boards = s.board_cards;
      next_board = 0;
    } in
    let dealt =
      deal_rounds_left draw g s.round g.num_rounds
        (build_unused g (used_cards g used s) g.num_suits d) in
    record s { board_cards = dealt.boards }
