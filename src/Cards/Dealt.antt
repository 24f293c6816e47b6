-- ===== src/Cards/Dealt.antt =====
-- The players' cards that `dealCards` of modules/core/src/game.c deals, and the step `dealCard`.
use native.Mathlib.Nat.{mod-lt}
use bulldog.Prelude.{
  ℕ, zero, suc, ◌-◌, ◌≤◌, ◌<◌, ◌≡◌, ◌≢◌, ◌⊎◌, refl, sym, ap, ◌∙◌, ◌==◌, arith, Bool-cases, inl, inr,
  total,
}
use bulldog.Game.{Game}
use bulldog.Cards.{Deal, take_card, drawn_index, dealt_card, deal_hole, deal_hand, deal_hands}
use bulldog.Cards.Deck.{Distinct}

-- A place for a card.
pub data Slot : Type 0 where
  hole : ℕ → ℕ → Slot
  board : ℕ → Slot

abbrev pub card_at : (ℕ → ℕ → ℕ) → (ℕ → ℕ) → Slot → ℕ
card_at holes boards (hole p i) = holes p i
card_at holes boards (board b) = boards b

abbrev pub card_of : Deal → Slot → ℕ
card_of d = card_at d.holes d.boards

-- The places of `T` hold different cards, none of which is left in the deck.
pub record Dealt (T : Slot → Type 0) (d : Deal) : Type 0 where
  pub deck_distinct : Distinct d
  pub fresh : (x : Slot) → T x → (i : ℕ) → i < d.num_cards → card_of d x ≢ d.deck i
  pub distinct : (x y : Slot) → T x → T y → card_of d x ≡ card_of d y → x ≡ y

-- The places dealt so far: all hands before player `p`, and `n` cards of that player.
unfoldable pub InHands : ℕ → ℕ → ℕ → Slot → Type 0
InHands h p n (hole q i) = ((q < p) × (i < h)) ⊎ ((q ≡ p) × (i < n))
InHands h p n (board b) = ⊥

abbrev pub Hands : Game → ℕ → ℕ → Deal → Type 0
Hands g p n = Dealt (InHands g.num_hole_cards p n)

pub forget : (T T' : Slot → Type 0) (d : Deal) → ((x : Slot) → T' x → T x) → Dealt T d → Dealt T' d
forget T T' d f h = record {
  deck_distinct = h.deck_distinct;
  fresh = λ x t. h.fresh x (f x t);
  distinct = λ x y t u. h.distinct x y (f x t) (f y u);
}

module _ (draw : ℕ → ℕ) where
  index-lt : (d : Deal) → 0 < d.num_cards → drawn_index draw d < d.num_cards
  index-lt d l = mod-lt (draw d.drawn) l

  apart :
      (d : Deal)
      → Distinct d
      → (i j : ℕ) → i < d.num_cards
      → j < d.num_cards
      → i ≢ j
      → d.deck i ≢ d.deck j
  apart d h i j u v n e = ground (arith, h i j, h j i, e)

  take-Distinct : (d : Deal) → 0 < d.num_cards → Distinct d → Distinct (take_card draw d)
  take-Distinct d l h i j ij u e = ground (
    arith,
    apart d h i j (omega arith) (omega arith),
    apart d h i (d.num_cards - 1) (omega arith) (omega arith),
    apart d h j (d.num_cards - 1) (omega arith) (omega arith),
    e,
  )

  -- The card that is dealt is gone from the deck.
  take_gone :
      (d : Deal)
      → 0 < d.num_cards
      → Distinct d
      → (i : ℕ) → i < d.num_cards - 1
      → dealt_card draw d ≢ (take_card draw d).deck i
  take_gone d l h i u e = ground (
    arith,
    h i (drawn_index draw d),
    h (drawn_index draw d) i,
    h (drawn_index draw d) (d.num_cards - 1),
    index-lt d l,
  )

  -- One more place gets the card that is dealt.
  pub deal-Dealt :
      (T T' : Slot → Type 0) (z : Slot) (d d' : Deal)
      → 0 < d.num_cards
      → d'.num_cards ≡ d.num_cards - 1
      → d'.deck ≡ (take_card draw d).deck
      → card_of d' z ≡ dealt_card draw d
      → ((x : Slot) → T' x → (x ≡ z) ⊎ (T x × (card_of d' x ≡ card_of d x)))
      → Dealt T d
      → Dealt T' d'
  deal-Dealt T T' z d d' l n k c old h = record {
    deck_distinct = λ i j ij u e.
        take-Distinct d l h.deck_distinct i j ij (omega (arith, u, n)) (sym (at k i) ∙ e ∙ at k j);
    fresh = λ x t i u e. elim (old x t) [
      | inl q ↦
          take_gone d l h.deck_distinct i (omega (arith, u, n))
            (sym c ∙ sym (ap (card_of d') q) ∙ e ∙ at k i)
      | inr (t', q) ↦
          ground (arith, n, sym q ∙ e ∙ at k i, h.fresh x t' i, h.fresh x t' (d.num_cards - 1))
    ];
    distinct = λ x y t u e. elim (old x t) [
      | inl q ↦ elim (old y u) [
        | inl r ↦ q ∙ sym r
        | inr (u', r) ↦ absurd (
            h.fresh y u' (drawn_index draw d) (index-lt d l)
              (sym r ∙ sym e ∙ ap (card_of d') q ∙ c))
      ]
      | inr (t', q) ↦ elim (old y u) [
        | inl r ↦
            absurd
              (h.fresh x t' (drawn_index draw d) (index-lt d l) (sym q ∙ e ∙ ap (card_of d') r ∙ c))
        | inr (u', r) ↦ h.distinct x y t' u' (sym q ∙ e ∙ r)
      ]
    ];
  }
    where
      at : {f h : ℕ → ℕ} → f ≡ h → (i : ℕ) → f i ≡ h i
      at q i = ap (λ f. f i) q

  deal_hole-Hands :
      (g : Game) (p n : ℕ) (d : Deal)
      → 0 < d.num_cards
      → Hands g p n d
      → Hands g p (suc n) (deal_hole draw p n d)
  unfolding InHands
  deal_hole-Hands g p n d l h =
      deal-Dealt (InHands g.num_hole_cards p n) (InHands g.num_hole_cards p (suc n)) (hole p n) d
        (deal_hole draw p n d) l refl refl (ground arith) old h
    where
      old :
          (x : Slot)
          → InHands g.num_hole_cards p (suc n) x
          → (x ≡ hole p n)
            ⊎ (InHands g.num_hole_cards p n x × (card_of (deal_hole draw p n d) x ≡ card_of d x))
      old (hole q i) (inl (a, b)) = inr (inl (a, b), ground arith)
      old (hole q i) (inr (a, b)) = elim (Bool-cases (i == n)) [
        | inl e ↦ inl (ground arith)
        | inr e ↦ inr (inr (a, ground arith), ground arith)
      ]
      old (board b) t = elim t [ ]

  deal_hand-size : (p n : ℕ) (d : Deal) → (deal_hand draw p n d).num_cards ≡ d.num_cards - n
  unfolding deal_hand
  deal_hand-size p zero d = omega arith
  deal_hand-size p (suc n) d = omega (arith, deal_hand-size p n d)

  deal_hand-Hands :
      (g : Game) (p n : ℕ) (d : Deal)
      → n ≤ d.num_cards
      → Hands g p 0 d
      → Hands g p n (deal_hand draw p n d)
  unfolding deal_hand
  deal_hand-Hands g p zero d l h = h
  deal_hand-Hands g p (suc n) d l h =
      deal_hole-Hands g p n (deal_hand draw p n d) (omega (arith, deal_hand-size p n d))
        (deal_hand-Hands g p n d (omega arith) h)

  next_player-Hands :
      (g : Game) (p : ℕ) (d : Deal) → Hands g p g.num_hole_cards d → Hands g (suc p) 0 d
  unfolding InHands
  next_player-Hands g p d h =
      forget (InHands g.num_hole_cards p g.num_hole_cards) (InHands g.num_hole_cards (suc p) 0) d f
        h
    where
      f :
          (x : Slot)
          → InHands g.num_hole_cards (suc p) 0 x
          → InHands g.num_hole_cards p g.num_hole_cards x
      f (hole q i) (inl (a, b)) = elim (Bool-cases (q == p)) [
        | inl e ↦ inr (ground arith, b)
        | inr e ↦ inl (ground arith, b)
      ]
      f (hole q i) (inr (a, b)) = absurd (omega arith)
      f (board b) t = elim t [ ]

  pub deal_hands-size :
      (g : Game) (n : ℕ) (d : Deal)
      → (deal_hands draw g n d).num_cards ≡ d.num_cards - total (λ p. g.num_hole_cards) n
  unfolding deal_hands total
  deal_hands-size g zero d = omega arith
  deal_hands-size g (suc n) d =
      omega
        (arith, deal_hand-size n g.num_hole_cards (deal_hands draw g n d), deal_hands-size g n d)

  pub deal_hands-Hands :
      (g : Game) (n : ℕ) (d : Deal)
      → total (λ p. g.num_hole_cards) n ≤ d.num_cards
      → Hands g 0 0 d
      → Hands g n 0 (deal_hands draw g n d)
  unfolding deal_hands total
  deal_hands-Hands g zero d l h = h
  deal_hands-Hands g (suc n) d l h = next_player-Hands g n (deal_hands draw g (suc n) d) (
      deal_hand-Hands g n g.num_hole_cards (deal_hands draw g n d)
        (omega (arith, deal_hands-size g n d)) (deal_hands-Hands g n d (omega arith) h))
