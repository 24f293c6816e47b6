-- ===== src/Cards/Boards.antt =====
-- The board cards that `dealCards` of modules/core/src/game.c deals, and with them the whole deal.
use mathlib.Core.Path.{subst}
use bulldog.Prelude.{
  ℕ, zero, suc, ◌+◌, ◌-◌, ◌≤◌, ◌<◌, ◌≡◌, ◌⊎◌, refl, sym, ◌∙◌, ◌==◌, arith, Bool-cases, inl, inr,
  total,
}
use bulldog.Game.{Game, State, FitsArrays}
use bulldog.Cards.{
  Deal, deal_board, deal_hands, deal_round, deal_rounds, deal_cards, build_deck, push_suit,
  deal_hand,
}
use bulldog.Cards.Deck.{build_deck-Distinct, build_deck-size}
use bulldog.Cards.Dealt.{
  Slot, hole, board, card_at, card_of, Dealt, deal-Dealt, forget, InHands, Hands, deal_hands-Hands,
  deal_hands-size,
}

-- The places of a hand: the cards of each player, and the first `b` of the board.
unfoldable pub InPlay : ℕ → ℕ → ℕ → Slot → Type 0
InPlay p h b (hole q i) = (q < p) × (i < h)
InPlay p h b (board c) = c < b

module _ (draw : ℕ → ℕ) (g : Game) where
  abbrev pub In : ℕ → Slot → Type 0
  In = InPlay g.num_players g.num_hole_cards

  deal_board-In :
      (d : Deal)
      → 0 < d.num_cards
      → Dealt (In d.next_board) d
      → Dealt (In (suc d.next_board)) (deal_board draw d)
  unfolding InPlay
  deal_board-In d l h =
      deal-Dealt draw (In d.next_board) (In (suc d.next_board)) (board d.next_board) d
        (deal_board draw d) l refl refl (ground arith) old h
    where
      old :
          (x : Slot)
          → In (suc d.next_board) x
          → (x ≡ board d.next_board)
            ⊎ (In d.next_board x × (card_of (deal_board draw d) x ≡ card_of d x))
      old (hole q i) t = inr (t, refl)
      old (board c) t = elim (Bool-cases (c == d.next_board)) [
        | inl e ↦ inl (ground arith)
        | inr e ↦ inr (ground arith, ground arith)
      ]

  pub deal_round-size : (n : ℕ) (d : Deal) → (deal_round draw n d).num_cards ≡ d.num_cards - n
  unfolding deal_round
  deal_round-size zero d = omega arith
  deal_round-size (suc n) d = omega (arith, deal_round-size n d)

  pub deal_round-next : (n : ℕ) (d : Deal) → (deal_round draw n d).next_board ≡ n + d.next_board
  unfolding deal_round
  deal_round-next zero d = omega arith
  deal_round-next (suc n) d = omega (arith, deal_round-next n d)

  abbrev pub Full : Deal → Type 0
  Full d = Dealt (In d.next_board) d

  step-Full : (d : Deal) → 0 < d.num_cards → Full d → Full (deal_board draw d)
  unfolding InPlay
  step-Full d l h =
      forget (In (suc d.next_board)) (In (d.next_board + 1)) (deal_board draw d) f
        (deal_board-In d l h)
    where
      f : (x : Slot) → In (d.next_board + 1) x → In (suc d.next_board) x
      f (hole q i) t = t
      f (board c) t = omega arith

  pub deal_round-Full : (n : ℕ) (d : Deal) → n ≤ d.num_cards → Full d → Full (deal_round draw n d)
  unfolding deal_round
  deal_round-Full zero d l h = h
  deal_round-Full (suc n) d l h =
      step-Full (deal_round draw n d) (omega (arith, deal_round-size n d))
        (deal_round-Full n d (omega arith) h)

  deal_rounds-size :
      (n : ℕ) (d : Deal)
      → (deal_rounds draw g n d).num_cards ≡ d.num_cards - total g.num_board_cards n
  unfolding deal_rounds total
  deal_rounds-size zero d = omega arith
  deal_rounds-size (suc n) d =
      omega (
        arith,
        deal_round-size (g.num_board_cards n) (deal_rounds draw g n d),
        deal_rounds-size n d,
      )

  deal_rounds-next :
      (n : ℕ) (d : Deal)
      → (deal_rounds draw g n d).next_board ≡ total g.num_board_cards n + d.next_board
  unfolding deal_rounds total
  deal_rounds-next zero d = omega arith
  deal_rounds-next (suc n) d =
      omega (
        arith,
        deal_round-next (g.num_board_cards n) (deal_rounds draw g n d),
        deal_rounds-next n d,
      )

  deal_rounds-Full :
      (n : ℕ) (d : Deal)
      → total g.num_board_cards n ≤ d.num_cards
      → Full d
      → Full (deal_rounds draw g n d)
  unfolding deal_rounds total
  deal_rounds-Full zero d l h = h
  deal_rounds-Full (suc n) d l h =
      deal_round-Full (g.num_board_cards n) (deal_rounds draw g n d)
        (omega (arith, deal_rounds-size n d)) (deal_rounds-Full n d (omega arith) h)

  -- Neither the deck nor the hands touch the board.
  push_suit-next : (k n : ℕ) (d : Deal) → (push_suit g k n d).next_board ≡ d.next_board
  unfolding push_suit
  push_suit-next k zero d = refl
  push_suit-next k (suc n) d = push_suit-next k n d

  build_deck-next : (n : ℕ) (d : Deal) → (build_deck g n d).next_board ≡ d.next_board
  unfolding build_deck
  build_deck-next zero d = refl
  build_deck-next (suc n) d = push_suit-next n g.num_ranks (build_deck g n d) ∙ build_deck-next n d

  deal_hand-next : (p n : ℕ) (d : Deal) → (deal_hand draw p n d).next_board ≡ d.next_board
  unfolding deal_hand
  deal_hand-next p zero d = refl
  deal_hand-next p (suc n) d = deal_hand-next p n d

  deal_hands-next : (n : ℕ) (d : Deal) → (deal_hands draw g n d).next_board ≡ d.next_board
  unfolding deal_hands
  deal_hands-next zero d = refl
  deal_hands-next (suc n) d =
      deal_hand-next n g.num_hole_cards (deal_hands draw g n d) ∙ deal_hands-next n d

  Hands-Full : (d : Deal) → d.next_board ≡ 0 → Hands g g.num_players 0 d → Full d
  unfolding InPlay InHands
  Hands-Full d z h = forget (InHands g.num_hole_cards g.num_players 0) (In d.next_board) d f h
    where
      f : (x : Slot) → In d.next_board x → InHands g.num_hole_cards g.num_players 0 x
      f (hole q i) t = inl t
      f (board c) t = absurd (omega (arith, z))

  new_deck-Hands :
      (d : Deal) → 1 ≤ g.num_suits → g.num_suits ≤ 4 → Hands g 0 0 (build_deck g g.num_suits d)
  unfolding InHands
  new_deck-Hands d l u = record {
    deck_distinct = build_deck-Distinct g l u d;
    fresh = λ x t i v e. none_in x t;
    distinct = λ x y t v e. absurd (none_in x t);
  }
    where
      none_in : (x : Slot) → InHands g.num_hole_cards 0 0 x → ⊥
      none_in (hole q i) t = ground arith
      none_in (board b) t = elim t [ ]

-- If the game fits the arrays, with at most seven board cards, and its deck has one to four suits and
-- enough cards for the hands and the board, then dealCards puts no card in two places, whatever the random numbers are and whatever the arrays hold
-- before: two places of the hand with the same card are the same place.
pub deal_cards_apart :
    (draw : ℕ → ℕ) (g : Game) (deck : ℕ → ℕ) (s : State)
    → FitsArrays g
    → 1 ≤ g.num_suits
    → g.num_suits ≤ 4
    → total (λ p. g.num_hole_cards) g.num_players + total g.num_board_cards g.num_rounds
      ≤ total (λ k. g.num_ranks) g.num_suits
    → (x y : Slot) → InPlay g.num_players g.num_hole_cards (total g.num_board_cards g.num_rounds) x
    → InPlay g.num_players g.num_hole_cards (total g.num_board_cards g.num_rounds) y
    → card_at (deal_cards draw g deck s).hole_cards (deal_cards draw g deck s).board_cards x
      ≡ card_at (deal_cards draw g deck s).hole_cards (deal_cards draw g deck s).board_cards y
    → x ≡ y
unfolding deal_cards
deal_cards_apart draw g deck s fits l u room x y t v e =
    end.distinct x y (to x t) (to y v) (sym (at x) ∙ e ∙ at y)
  where
    fresh_deck : Deal
    fresh_deck = build_deck g g.num_suits (record {
      deck = deck;
      num_cards = 0;
      drawn = 0;
      holes = s.hole_cards;
      boards = s.board_cards;
      next_board = 0;
    })

    handed : Deal
    handed = deal_hands draw g g.num_players fresh_deck

    done : Deal
    done = deal_rounds draw g g.num_rounds handed

    size : fresh_deck.num_cards ≡ total (λ k. g.num_ranks) g.num_suits
    size = build_deck-size g l u g.num_suits _

    none_dealt : handed.next_board ≡ 0
    none_dealt =
        deal_hands-next draw g g.num_players fresh_deck ∙ build_deck-next draw g g.num_suits _

    hands : Hands g g.num_players 0 handed
    hands =
        deal_hands-Hands draw g g.num_players fresh_deck (omega (arith, size, room))
          (new_deck-Hands draw g _ l u)

    end : Full draw g done
    end =
        deal_rounds-Full draw g g.num_rounds handed
          (omega (arith, deal_hands-size draw g g.num_players fresh_deck, size, room))
          (Hands-Full draw g handed none_dealt hands)

    last : done.next_board ≡ total g.num_board_cards g.num_rounds
    last = omega (arith, deal_rounds-next draw g g.num_rounds handed, none_dealt)

    to :
        (z : Slot)
        → InPlay g.num_players g.num_hole_cards (total g.num_board_cards g.num_rounds) z
        → In draw g done.next_board z
    to z w = subst (λ b. InPlay g.num_players g.num_hole_cards b z) (sym last) w

    at :
        (z : Slot)
        → card_at (deal_cards draw g deck s).hole_cards (deal_cards draw g deck s).board_cards z
          ≡ card_of done z
    at (hole q i) = refl
    at (board c) = refl
