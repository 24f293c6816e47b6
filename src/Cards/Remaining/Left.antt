-- ===== src/Cards/Remaining/Left.antt =====
-- The rounds that `dealRemainingCards` of modules/core/src/game.c passes over, and those it deals.
use mathlib.Core.Path.{subst}
use bulldog.Prelude.{
  ℕ, zero, suc, ◌+◌, ◌≤◌, ◌<◌, ◌≡◌, ◌≢◌, refl, sym, ap, ◌∙◌, true, false, ◌==◌, arith, Bool-cases,
  inl, inr, lt→ltb, update_ne, total,
}
use bulldog.Game.{Game}
use bulldog.Cards.{Deal, deal_board, deal_round, dealt_card}
use bulldog.Cards.Dealt.{Slot, hole, board, card_of, Dealt}
use bulldog.Cards.Boards.{InPlay, In, Full, deal_round-size, deal_round-next, deal_round-Full}
use bulldog.Cards.Remaining.{deal_round_if, deal_rounds_left}

module _ (draw : ℕ → ℕ) where
  pass_round :
      (n : ℕ) (d : Deal) → deal_round_if draw false n d ≡ record d { next_board = n + d.next_board }
  unfolding deal_round_if
  pass_round zero d = ap (λ b. record d { next_board = b }) (omega arith)
  pass_round (suc n) d =
      ap (λ (e : Deal). record e { next_board = e.next_board + 1 }) (pass_round n d)
      ∙ ap (λ b. record d { next_board = b }) (omega arith)

  true_round : (n : ℕ) (d : Deal) → deal_round_if draw true n d ≡ deal_round draw n d
  unfolding deal_round_if deal_round
  true_round zero d = refl
  true_round (suc n) d = ap (λ e. deal_board draw e) (true_round n d)

  -- Dealing the board leaves the places before it.
  deal_round-kept :
      (g : Game) (p h b n : ℕ) (d : Deal)
      → b ≤ d.next_board
      → (x : Slot) → InPlay p h b x
      → card_of (deal_round draw n d) x ≡ card_of d x
  unfolding deal_round InPlay
  deal_round-kept g p h b zero d l x t = refl
  deal_round-kept g p h b (suc n) d l (hole q i) t = deal_round-kept g p h b n d l (hole q i) t
  deal_round-kept g p h b (suc n) d l (board c) t =
      update_ne (deal_round draw n d).boards (deal_round draw n d).next_board
        (dealt_card draw (deal_round draw n d)) c
        (λ e. omega (arith, e, deal_round-next draw g n d, t))
      ∙ deal_round-kept g p h b n d l (board c) t

  module _ (g : Game) (round : ℕ) where
    pass_rounds :
        (n : ℕ) (d : Deal)
        → n ≤ suc round
        → deal_rounds_left draw g round n d
          ≡ record d { next_board = total g.num_board_cards n + d.next_board }
    unfolding deal_rounds_left total
    pass_rounds zero d l = ap (λ b. record d { next_board = b }) (omega arith)
    pass_rounds (suc n) d l =
        ap (λ b. deal_round_if draw b (g.num_board_cards n) (deal_rounds_left draw g round n d))
          (ground arith)
        ∙ ap (deal_round_if draw false (g.num_board_cards n)) (pass_rounds n d (omega arith))
        ∙ pass_round (g.num_board_cards n)
            (record d { next_board = total g.num_board_cards n + d.next_board })
        ∙ ap (λ b. record d { next_board = b }) (omega arith)

    abbrev pub before : ℕ
    before = total g.num_board_cards (suc round)

    -- The deal after `n` rounds.
    pub record Left (n : ℕ) (d e : Deal) : Type 0 where
      pub full : Full draw g e
      size : e.num_cards + total g.num_board_cards n ≡ d.num_cards + before
      pub next : e.next_board ≡ total g.num_board_cards n
      far : before ≤ e.next_board
      pub kept : (x : Slot) → In draw g before x → card_of e x ≡ card_of d x

    start-Left :
        (d : Deal)
        → d.next_board ≡ 0
        → Dealt (In draw g before) d
        → Left (suc round) d (record d { next_board = before + d.next_board })
    start-Left d z h = record {
      full =
          subst (λ b. Dealt (In draw g b) (record d { next_board = before + d.next_board }))
            (omega (arith, z))
            (record {
              deck_distinct = h.deck_distinct;
              fresh = λ x t. fresh x t;
              distinct = λ x y t u e. h.distinct x y t u (sym (same x) ∙ e ∙ same y);
            });
      size = refl;
      next = omega (arith, z);
      far = omega arith;
      kept = λ x t. same x;
    }
      where
        same :
            (x : Slot) → card_of (record d { next_board = before + d.next_board }) x ≡ card_of d x
        same (hole q i) = refl
        same (board c) = refl

        fresh :
            (x : Slot)
            → In draw g before x
            → (i : ℕ) → i < d.num_cards
            → card_of (record d { next_board = before + d.next_board }) x ≢ d.deck i
        fresh x t i l e = h.fresh x t i l (sym (same x) ∙ e)

    -- A round that is dealt.
    step-Left :
        (n : ℕ) (d e : Deal)
        → total g.num_board_cards (suc n) ≤ d.num_cards + before
        → Left n d e
        → Left (suc n) d (deal_round draw (g.num_board_cards n) e)
    unfolding total
    step-Left n d e l h = record {
      full = deal_round-Full draw g (g.num_board_cards n) e (omega (arith, h.size)) h.full;
      size = omega (arith, h.size, deal_round-size draw g (g.num_board_cards n) e);
      next = omega (arith, h.next, deal_round-next draw g (g.num_board_cards n) e);
      far = omega (arith, h.far, deal_round-next draw g (g.num_board_cards n) e);
      kept = λ x t.
          deal_round-kept g g.num_players g.num_hole_cards before (g.num_board_cards n) e h.far x t
          ∙ h.kept x t;
    }

    less : (n m : ℕ) → total g.num_board_cards (suc n) ≤ m → total g.num_board_cards n ≤ m
    unfolding total
    less n m r = omega arith

    dealt_step :
        (n : ℕ) (d : Deal)
        → round < n
        → deal_rounds_left draw g round (suc n) d
          ≡ deal_round draw (g.num_board_cards n) (deal_rounds_left draw g round n d)
    unfolding deal_rounds_left
    dealt_step n d l =
        ap (λ b. deal_round_if draw b (g.num_board_cards n) (deal_rounds_left draw g round n d))
          (lt→ltb round n l)
        ∙ true_round (g.num_board_cards n) (deal_rounds_left draw g round n d)

    pub deal_rounds-Left :
        (n : ℕ) (d : Deal)
        → round < n
        → total g.num_board_cards n ≤ d.num_cards + before
        → d.next_board ≡ 0
        → Dealt (In draw g before) d
        → Left n d (deal_rounds_left draw g round n d)
    deal_rounds-Left zero d l r z h = absurd (omega arith)
    deal_rounds-Left (suc n) d l r z h = elim (Bool-cases (n == round)) [
      | inl e ↦
          subst (λ m. Left (suc m) d (deal_rounds_left draw g round (suc m) d)) (ground arith)
            (subst (Left (suc round) d) (sym (pass_rounds (suc round) d (omega arith)))
              (start-Left d z h))
      | inr e ↦ subst (Left (suc n) d) (sym (dealt_step n d (ground arith))) (
          step-Left n d (deal_rounds_left draw g round n d) r
            (deal_rounds-Left n d (ground arith) (less n (d.num_cards + before) r) z h))
    ]
