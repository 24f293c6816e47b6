-- ===== src/Cards/Remaining/Collect.antt =====
-- The cards that `dealRemainingCards` of modules/core/src/game.c collects: those of all places in play.
use mathlib.Core.Path.{subst}
use bulldog.Prelude.{
  ℕ, zero, suc, ◌+◌, ◌≤◌, ◌≡◌, refl, ap, ◌∙◌, Bool, true, arith, inl, inr, update, total,
}
use bulldog.Game.{Game, State}
use bulldog.Cards.Dealt.{Slot, hole, board, card_at}
use bulldog.Cards.Boards.{InPlay}
use bulldog.Cards.Visit.{Adds, board-Adds, visit_hands, no_place}
use bulldog.Cards.Remaining.{
  Used, use_card, use_hand, use_hands, use_board, use_round, use_rounds, check_used, used_cards,
}

check_used-update :
    (cards : ℕ → ℕ) (m v n c : ℕ) → n ≤ m → check_used (update cards m v) n c ≡ check_used cards n c
unfolding check_used
check_used-update cards m v zero c l = refl
check_used-update cards m v (suc n) c l =
    ground (arith, check_used-update cards m v n c (omega arith))

abbrev pub uses : Used → ℕ → Bool
uses u c = check_used u.cards u.num_used c

use_card-old : (u : Used) (v c : ℕ) → uses u c ≡ true → uses (use_card v u) c ≡ true
unfolding check_used
use_card-old u v c h = ground (arith, check_used-update u.cards u.num_used v u.num_used c)

use_card-new : (u : Used) (v : ℕ) → uses (use_card v u) v ≡ true
unfolding check_used
use_card-new u v = ground arith

module _ (holes : ℕ → ℕ → ℕ) (boards : ℕ → ℕ) where
  -- All places of `T` are in use.
  abbrev pub Covers : (Slot → Type 0) → Used → Type 0
  Covers T u = (x : Slot) → T x → uses u (card_at holes boards x) ≡ true

  Covers-add :
      (z : Slot) (T T' : Slot → Type 0) (u : Used)
      → Adds z T T'
      → Covers T u
      → Covers T' (use_card (card_at holes boards z) u)
  Covers-add z T T' u a h x t = elim (a.only x t) [
    | inl e ↦
        ap (λ y. uses (use_card (card_at holes boards z) u) (card_at holes boards y)) e
        ∙ use_card-new u (card_at holes boards z)
    | inr t' ↦ use_card-old u (card_at holes boards z) (card_at holes boards x) (h x t')
  ]

  use_hands-Covers :
      (g : Game) (u : Used)
      → Covers (InPlay g.num_players g.num_hole_cards 0) (use_hands g holes g.num_players u)
  unfolding use_hands use_hand
  use_hands-Covers g u =
      visit_hands Covers (λ T T' s f h x t. h x ((f x).1 t)) (λ p i. use_card (holes p i))
        (λ p i. Covers-add (hole p i)) g.num_hole_cards g.num_players u
        (λ x t. absurd (no_place g.num_hole_cards x t))

  module _ (p h : ℕ) where
    abbrev pub Collected : Used → Type 0
    Collected u = Covers (InPlay p h u.next) u

    use_board-Collected : (u : Used) → Collected u → Collected (use_board boards u)
    use_board-Collected u k x t =
        Covers-add (board u.next) (InPlay p h u.next) (InPlay p h (suc u.next)) u
          (board-Adds p h u.next) k x (subst (λ b. InPlay p h b x) next t)
      where
        next : u.next + 1 ≡ suc u.next
        next = omega arith

    use_round-Collected : (n : ℕ) (u : Used) → Collected u → Collected (use_round boards n u)
    unfolding use_round
    use_round-Collected zero u k = k
    use_round-Collected (suc n) u k =
        use_board-Collected (use_round boards n u) (use_round-Collected n u k)

    use_rounds-Collected :
        (g : Game) (n : ℕ) (u : Used) → Collected u → Collected (use_rounds g boards n u)
    unfolding use_rounds
    use_rounds-Collected g zero u k = k
    use_rounds-Collected g (suc n) u k =
        use_round-Collected (g.num_board_cards n) (use_rounds g boards n u)
          (use_rounds-Collected g n u k)

use_hand-size :
    (holes : ℕ → ℕ → ℕ) (p n : ℕ) (u : Used)
    → ((use_hand holes p n u).num_used ≡ n + u.num_used) × ((use_hand holes p n u).next ≡ u.next)
unfolding use_hand
use_hand-size holes p zero u = (omega arith, refl)
use_hand-size holes p (suc n) u = let (a, b) = use_hand-size holes p n u in (omega (arith, a), b)

use_hands-size :
    (g : Game) (holes : ℕ → ℕ → ℕ) (n : ℕ) (u : Used)
    → ((use_hands g holes n u).num_used ≡ total (λ p. g.num_hole_cards) n + u.num_used)
      × ((use_hands g holes n u).next ≡ u.next)
unfolding use_hands total
use_hands-size g holes zero u = (omega arith, refl)
use_hands-size g holes (suc n) u =
    let (a, b) = use_hands-size g holes n u in
    let (c, d) = use_hand-size holes n g.num_hole_cards (use_hands g holes n u) in
    (omega (arith, a, c), d ∙ b)

use_round-size :
    (boards : ℕ → ℕ) (n : ℕ) (u : Used)
    → ((use_round boards n u).num_used ≡ n + u.num_used)
      × ((use_round boards n u).next ≡ n + u.next)
unfolding use_round
use_round-size boards zero u = (omega arith, omega arith)
use_round-size boards (suc n) u =
    let (a, b) = use_round-size boards n u in (omega (arith, a), omega (arith, b))

use_rounds-size :
    (g : Game) (boards : ℕ → ℕ) (n : ℕ) (u : Used)
    → ((use_rounds g boards n u).num_used ≡ total g.num_board_cards n + u.num_used)
      × ((use_rounds g boards n u).next ≡ total g.num_board_cards n + u.next)
unfolding use_rounds total
use_rounds-size g boards zero u = (omega arith, omega arith)
use_rounds-size g boards (suc n) u =
    let (a, b) = use_rounds-size g boards n u in
    let (c, d) = use_round-size boards (g.num_board_cards n) (use_rounds g boards n u) in
    (omega (arith, a, c), omega (arith, b, d))

module _ (g : Game) (used : ℕ → ℕ) (s : State) where
  pub used_cards-size :
      (used_cards g used s).num_used
      ≡ total (λ p. g.num_hole_cards) g.num_players + total g.num_board_cards (suc s.round)
  unfolding used_cards
  used_cards-size =
      let start : Used = record { cards = used; num_used = 0; next = 0 } in
      let (a, b) = use_hands-size g s.hole_cards g.num_players start in
      let (c, d) =
        use_rounds-size g s.board_cards (suc s.round)
          (use_hands g s.hole_cards g.num_players start) in
      omega (arith, a, c)

  -- The cards of all hands, and of the board up to the current round, are in use.
  pub used_cards-Covers :
      Covers s.hole_cards s.board_cards
        (InPlay g.num_players g.num_hole_cards (total g.num_board_cards (suc s.round)))
        (used_cards g used s)
  unfolding used_cards
  used_cards-Covers x t =
      let (a, b) = use_hands-size g s.hole_cards g.num_players start in
      let (c, d) = use_rounds-size g s.board_cards (suc s.round) hands in
      use_rounds-Collected s.hole_cards s.board_cards g.num_players g.num_hole_cards g (suc s.round)
        hands
        (λ y w.
          use_hands-Covers s.hole_cards s.board_cards g start y
            (subst (λ b. InPlay g.num_players g.num_hole_cards b y) b w))
        x (subst (λ b. InPlay g.num_players g.num_hole_cards b x) (omega (arith, b, d)) t)
    where
      start : Used
      start = record { cards = used; num_used = 0; next = 0 }

      hands : Used
      hands = use_hands g s.hole_cards g.num_players start
