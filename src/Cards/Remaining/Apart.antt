-- ===== src/Cards/Remaining/Apart.antt =====
-- What `dealRemainingCards` of modules/core/src/game.c deals.
use mathlib.Core.Path.{subst}
use bulldog.Prelude.{
  ℕ, zero, suc, ◌+◌, ◌≤◌, ◌<◌, ◌≡◌, refl, sym, ap, ◌∙◌, arith, Bool-cases, inl, inr, total,
}
use bulldog.Game.{Game, State, FitsArrays}
use bulldog.Cards.{Deal}
use bulldog.Cards.Dealt.{Slot, hole, board, card_at, card_of, Dealt}
use bulldog.Cards.Boards.{InPlay, In}
use bulldog.Cards.Remaining.{
  Used, deck_card, check_used, push_unused, push_unused_suit, build_unused, deal_rounds_left,
  used_cards, deal_remaining_cards,
}
use bulldog.Cards.Remaining.Unused.{build_unused-Distinct, build_unused-Free, build_unused-room}
use bulldog.Cards.Remaining.Collect.{used_cards-size, used_cards-Covers}
use bulldog.Cards.Remaining.Left.{Left, deal_rounds-Left}

-- The deck leaves the board and the hands.
record SameTable (d e : Deal) : Type 0 where
  holes : e.holes ≡ d.holes
  boards : e.boards ≡ d.boards
  next : e.next_board ≡ d.next_board

push_unused-SameTable :
    (g : Game) (u : Used) (k j : ℕ) (d e : Deal)
    → SameTable d e
    → SameTable d (push_unused g u k j e)
push_unused-SameTable g u k j d e h =
    elim (Bool-cases (check_used u.cards u.num_used (deck_card g j k))) [
      | inl q ↦ rw q h
      | inr q ↦ rw q (record { holes = h.holes; boards = h.boards; next = h.next })
    ]

suit-SameTable :
    (g : Game) (u : Used) (k n : ℕ) (d e : Deal)
    → SameTable d e
    → SameTable d (push_unused_suit g u k n e)
unfolding push_unused_suit
suit-SameTable g u k zero d e h = h
suit-SameTable g u k (suc n) d e h =
    push_unused-SameTable g u k n d (push_unused_suit g u k n e) (suit-SameTable g u k n d e h)

build_unused-SameTable :
    (g : Game) (u : Used) (n : ℕ) (d : Deal) → SameTable d (build_unused g u n d)
unfolding build_unused
build_unused-SameTable g u zero d = record { holes = refl; boards = refl; next = refl }
build_unused-SameTable g u (suc n) d =
    suit-SameTable g u n g.num_ranks d (build_unused g u n d) (build_unused-SameTable g u n d)

-- The places of a hand in which the board is dealt up to round `r`.
abbrev pub UpTo : Game → ℕ → Slot → Type 0
UpTo g n = InPlay g.num_players g.num_hole_cards (total g.num_board_cards n)

-- No card is in two places.
abbrev pub Apart : Game → ℕ → State → Type 0
Apart g n s =
    (x y : Slot)
    → UpTo g n x
    → UpTo g n y
    → card_at s.hole_cards s.board_cards x ≡ card_at s.hole_cards s.board_cards y
    → x ≡ y

-- In a game that fits the arrays, with at most seven board cards, and with one to four suits and a deck
-- with enough cards for the hands and the board,
-- dealRemainingCards completes a hand in a round of the game in which no card is in two places so far:
-- the cards of the players, and those of the board up to that round, stay, and then no card of the
-- whole hand is in two places. This holds whatever the random numbers are and whatever the local
-- arrays hold at first.
pub deal_remaining_cards-Apart :
    (draw : ℕ → ℕ) (g : Game) (used deck : ℕ → ℕ) (s : State)
    → FitsArrays g
    → 1 ≤ g.num_suits
    → g.num_suits ≤ 4
    → s.round < g.num_rounds
    → total (λ p. g.num_hole_cards) g.num_players + total g.num_board_cards g.num_rounds
      ≤ total (λ k. g.num_ranks) g.num_suits
    → Apart g (suc s.round) s
    → ((x : Slot)
        → UpTo g (suc s.round) x
        → card_at
            (deal_remaining_cards draw g used deck s).hole_cards
            (deal_remaining_cards draw g used deck s).board_cards
            x
          ≡ card_at s.hole_cards s.board_cards x)
      × Apart g g.num_rounds (deal_remaining_cards draw g used deck s)
unfolding deal_remaining_cards InPlay
deal_remaining_cards-Apart draw g used deck s fits l u r room apart = (
  (λ x t. at (suc s.round) x t ∙ end.kept x t ∙ same x),
  (λ x y t v e.
      end.full.distinct x y (to x t) (to y v)
        (sym (at g.num_rounds x t) ∙ e ∙ at g.num_rounds y v)),
)
  where
    start : Deal
    start = record {
      deck = deck;
      num_cards = 0;
      drawn = 0;
      holes = s.hole_cards;
      boards = s.board_cards;
      next_board = 0;
    }

    in_use : Used
    in_use = used_cards g used s

    fresh_deck : Deal
    fresh_deck = build_unused g in_use g.num_suits start

    done : Deal
    done = deal_rounds_left draw g s.round g.num_rounds fresh_deck

    table : SameTable start fresh_deck
    table = build_unused-SameTable g in_use g.num_suits start

    same : (x : Slot) → card_of fresh_deck x ≡ card_at s.hole_cards s.board_cards x
    same x =
        ap (λ h. card_at h fresh_deck.boards x) table.holes
        ∙ ap (λ b. card_at s.hole_cards b x) table.boards

    dealt : Dealt (UpTo g (suc s.round)) fresh_deck
    dealt = record {
      deck_distinct = build_unused-Distinct g in_use l u start;
      fresh = λ x t i v e. absurd (
          ground (
            arith,
            sym (used_cards-Covers g used s x t),
            ap (check_used in_use.cards in_use.num_used) (sym (same x) ∙ e),
            build_unused-Free g in_use g.num_suits start i v,
          ));
      distinct = λ x y t v e. apart x y t v (sym (same x) ∙ e ∙ same y);
    }

    end : Left draw g s.round g.num_rounds fresh_deck done
    end =
        deal_rounds-Left draw g s.round g.num_rounds fresh_deck r
          (omega (arith, build_unused-room g in_use start l u, used_cards-size g used s)) table.next
          dealt

    to : (z : Slot) → UpTo g g.num_rounds z → In draw g done.next_board z
    to z w = subst (λ b. InPlay g.num_players g.num_hole_cards b z) (sym end.next) w

    at :
        (n : ℕ) (z : Slot)
        → UpTo g n z
        → card_at
            (deal_remaining_cards draw g used deck s).hole_cards
            (deal_remaining_cards draw g used deck s).board_cards
            z
          ≡ card_of done z
    at n (hole q i) t = sym (end.kept (hole q i) t ∙ same (hole q i))
    at n (board c) t = refl
