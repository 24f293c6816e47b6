-- ===== src/Cards/Valid.antt =====
-- `IsStateCardsValid` of modules/core/src/game_util.cpp. A `std::set` is a list without doubles; of the
-- set and the vector the code uses the sizes alone, so their order is left open.
use mathlib.Core.Path.{subst}
pub mod Doubles
pub mod Deals
use bulldog.Prelude.{
  ℕ, zero, suc, ◌+◌, ◌≤◌, ◌<◌, ◌≡◌, ◌≢◌, ◌⊎◌, ◌↔◌, refl, sym, ap, ◌∙◌, Bool, true, false, ◌||◌,
  ◌==◌, if◌then◌else◌, arith, Bool-cases, inl, inr, loop, List, [], ◌∷◌,
}
use bulldog.Game.{undefined_card, Game, State}
use bulldog.Betting.{sum_board_cards}
use bulldog.Cards.Dealt.{Slot, hole, board, card_at, InHands}
use bulldog.Cards.Boards.{InPlay}
use bulldog.Cards.Visit.{Adds, board-Adds, visit_hands, no_place}

unfoldable pub contains : ℕ → List ℕ → Bool
contains c [] = false
contains c (x ∷ xs) = (x == c) || contains c xs

unfoldable pub length : List ℕ → ℕ
length [] = 0
length (x ∷ xs) = suc (length xs)

-- `cards_s` and `cards_v`.
pub record Seen : Type 0 where
  pub cards_s : List ℕ
  pub cards_v : List ℕ

abbrev pub insert : ℕ → List ℕ → List ℕ
insert c xs = if contains c xs then xs else c ∷ xs

abbrev pub see_card : ℕ → Seen → Seen
see_card c s =
    if c == undefined_card
    then s
    else record { cards_s = insert c s.cards_s; cards_v = c ∷ s.cards_v }

unfoldable pub see_hands : Game → State → Seen → Seen
see_hands g s seen =
    loop g.num_players (λ p. loop g.num_hole_cards (λ c. see_card (s.hole_cards p c))) seen

unfoldable pub see_board : State → ℕ → Seen → Seen
see_board s n seen = loop n (λ i. see_card (s.board_cards i)) seen

unfoldable pub is_state_cards_valid : Game → State → Bool
is_state_cards_valid g s =
    let seen =
      see_board s (sum_board_cards g s.round)
        (see_hands g s (record { cards_s = []; cards_v = [] })) in
    length seen.cards_s == length seen.cards_v
