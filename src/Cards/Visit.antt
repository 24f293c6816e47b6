-- ===== src/Cards/Visit.antt =====
-- Loops of modules/core/src/game.c and game_util.cpp that visit each place of a hand once: the players'
-- cards, then the board.
use bulldog.Prelude.{
  ℕ, zero, suc, ◌<◌, ◌≡◌, ◌⊎◌, ◌↔◌, refl, ◌==◌, arith, Bool-cases, inl, inr, loop,
}
use bulldog.Cards.Dealt.{Slot, hole, board, InHands}
use bulldog.Cards.Boards.{InPlay}

-- `T'` has the place `z` on top of those of `T`, which lacks it.
pub record Adds (z : Slot) (T T' : Slot → Type 0) : Type 0 where
  pub new : T z → ⊥
  pub there : T' z
  pub keeps : (x : Slot) → T x → T' x
  pub only : (x : Slot) → T' x → (x ≡ z) ⊎ T x

pub hole-Adds : (h p n : ℕ) → Adds (hole p n) (InHands h p n) (InHands h p (suc n))
unfolding InHands
hole-Adds h p n = record {
  new = λ t. ground (arith, t);
  there = inr (refl, omega arith);
  keeps = λ x t. later x t;
  only = λ x t. back x t;
}
  where
    later : (x : Slot) → InHands h p n x → InHands h p (suc n) x
    later (hole q i) (inl w) = inl w
    later (hole q i) (inr (a, b)) = inr (a, omega arith)
    later (board b) t = elim t [ ]

    back : (x : Slot) → InHands h p (suc n) x → (x ≡ hole p n) ⊎ InHands h p n x
    back (hole q i) (inl w) = inr (inl w)
    back (hole q i) (inr (a, b)) = elim (Bool-cases (i == n)) [
      | inl e ↦ inl (ground arith)
      | inr e ↦ inr (inr (a, ground arith))
    ]
    back (board b) t = elim t [ ]

pub board-Adds : (p h b : ℕ) → Adds (board b) (InPlay p h b) (InPlay p h (suc b))
unfolding InPlay
board-Adds p h b = record {
  new = λ t. omega (arith, t);
  there = omega arith;
  keeps = λ x t. later x t;
  only = λ x t. back x t;
}
  where
    later : (x : Slot) → InPlay p h b x → InPlay p h (suc b) x
    later (hole q i) t = t
    later (board c) t = omega arith

    back : (x : Slot) → InPlay p h (suc b) x → (x ≡ board b) ⊎ InPlay p h b x
    back (hole q i) t = inr t
    back (board c) t = elim (Bool-cases (c == b)) [
      | inl e ↦ inl (ground arith)
      | inr e ↦ inr (ground arith)
    ]

next_player_same : (h p : ℕ) (x : Slot) → InHands h p h x ↔ InHands h (suc p) 0 x
unfolding InHands
next_player_same h p (hole q i) = (forth, λ w. ground (arith, w))
  where
    forth :
        ((q < p) × (i < h)) ⊎ ((q ≡ p) × (i < h))
        → ((q < suc p) × (i < h)) ⊎ ((q ≡ suc p) × (i < 0))
    forth w = ground (arith, w)
next_player_same h p (board b) = ((λ w. w), (λ w. w))

all_players_same : (h p : ℕ) (x : Slot) → InHands h p 0 x ↔ InPlay p h 0 x
unfolding InHands InPlay
all_players_same h p (hole q i) = ((λ w. ground (arith, w)), (λ w. inl w))
all_players_same h p (board b) = ((λ w. elim w [ ]), (λ w. elim w [ ]))

pub no_place : (h : ℕ) (x : Slot) → InHands h 0 0 x → ⊥
unfolding InHands
no_place h (hole q i) t = ground (arith, t)
no_place h (board b) t = t

-- What one step keeps for the place it visits, the loops keep for all places.
module _ {S : Type 0} (Inv : (Slot → Type 0) → S → Type 0)
    (same : (T T' : Slot → Type 0) (s : S) → ((x : Slot) → T x ↔ T' x) → Inv T s → Inv T' s) where
  module _ (add : ℕ → ℕ → S → S)
      (adds : (p i : ℕ) (T T' : Slot → Type 0) (s : S)
        → Adds (hole p i) T T'
        → Inv T s
        → Inv T' (add p i s)) where
    visit_hand :
        (h p n : ℕ) (s : S) → Inv (InHands h p 0) s → Inv (InHands h p n) (loop n (add p) s)
    visit_hand h p zero s k = k
    visit_hand h p (suc n) s k =
        adds p n (InHands h p n) (InHands h p (suc n)) (loop n (add p) s) (hole-Adds h p n)
          (visit_hand h p n s k)

    visit_players :
        (h n : ℕ) (s : S)
        → Inv (InHands h 0 0) s
        → Inv (InHands h n 0) (loop n (λ p. loop h (add p)) s)
    visit_players h zero s k = k
    visit_players h (suc n) s k =
        same (InHands h n h) (InHands h (suc n) 0) (loop (suc n) (λ p. loop h (add p)) s)
          (next_player_same h n)
          (visit_hand h n h (loop n (λ p. loop h (add p)) s) (visit_players h n s k))

    pub visit_hands :
        (h n : ℕ) (s : S)
        → Inv (InHands h 0 0) s
        → Inv (InPlay n h 0) (loop n (λ p. loop h (add p)) s)
    visit_hands h n s k =
        same (InHands h n 0) (InPlay n h 0) (loop n (λ p. loop h (add p)) s) (all_players_same h n)
          (visit_players h n s k)
