-- ===== src/Cards/Valid/Doubles.antt =====
-- What `IsStateCardsValid` of modules/core/src/game_util.cpp decides.
use mathlib.Core.Path.{subst}
use bulldog.Prelude.{
  ℕ, zero, suc, ◌<◌, ◌≡◌, ◌≢◌, ◌⊎◌, ◌↔◌, refl, sym, ap, ◌∙◌, true, false, ◌==◌, arith, Bool-cases,
  inl, inr, [], ◌∷◌,
}
use bulldog.Game.{undefined_card, Game, State}
use bulldog.Betting.{sum_board_cards}
use bulldog.Cards.Dealt.{Slot, hole, board, card_at}
use bulldog.Cards.Boards.{InPlay}
use bulldog.Cards.Visit.{Adds, board-Adds, visit_hands, no_place}
use bulldog.Cards.Valid.{
  contains, length, Seen, see_card, see_hands, see_board, is_state_cards_valid,
}

module _ (s : State) where
  abbrev at : Slot → ℕ
  at = card_at s.hole_cards s.board_cards

  -- No card, but for the undefined one, is in two of the places `T`.
  abbrev pub NoDouble : (Slot → Type 0) → Type 0
  NoDouble T = (x y : Slot) → T x → T y → at x ≢ undefined_card → at x ≡ at y → x ≡ y

  -- A card of the places `T` that is in two of them.
  abbrev Double : (Slot → Type 0) → Type 0
  Double T = (x : Slot) × (y : Slot) × T x × T y × (at x ≢ undefined_card) × (at x ≡ at y) × (x ≢ y)

  record SeenIn (T : Slot → Type 0) (seen : Seen) : Type 0 where
    found : (x : Slot) → T x → at x ≢ undefined_card → contains (at x) seen.cards_s ≡ true
    source : (c : ℕ) → contains c seen.cards_s ≡ true → (x : Slot) × T x × (at x ≡ c)
    sizes :
        ((length seen.cards_s ≡ length seen.cards_v) × NoDouble T)
        ⊎ ((length seen.cards_s < length seen.cards_v) × Double T)

  same-SeenIn :
      (T T' : Slot → Type 0) (seen : Seen)
      → ((x : Slot) → T x ↔ T' x)
      → SeenIn T seen
      → SeenIn T' seen
  same-SeenIn T T' seen f h = record {
    found = λ x t. h.found x ((f x).1 t);
    source = λ c e. let (x, t, q) = h.source c e in (x, (f x).0 t, q);
    sizes = elim h.sizes [
      | inl (e, d) ↦ inl (e, λ x y t u. d x y ((f x).1 t) ((f y).1 u))
      | inr (l, (x, y, t, u, n, e, d)) ↦ inr (l, (x, y, (f x).0 t, (f y).0 u, n, e, d))
    ];
  }

  -- What holds of the new place and of the old ones holds of all.
  undefined-SeenIn :
      (z : Slot) (T T' : Slot → Type 0) (seen : Seen)
      → Adds z T T'
      → at z ≡ undefined_card
      → SeenIn T seen
      → SeenIn T' seen
  undefined-SeenIn z T T' seen a q h = record {
    found = λ x t n. h.found x (old x t n) n;
    source = λ c e. let (x, t, r) = h.source c e in (x, a.keeps x t, r);
    sizes = elim h.sizes [
      | inl (e, d) ↦ inl (e, λ x y t u n r. d x y (old x t n) (old y u (λ k. n (r ∙ k))) n r)
      | inr (l, (x, y, t, u, n, e, d)) ↦ inr (l, (x, y, a.keeps x t, a.keeps y u, n, e, d))
    ];
  }
    where
      old : (x : Slot) → T' x → at x ≢ undefined_card → T x
      old x t n = elim (a.only x t) [ inl e ↦ absurd (n (ap at e ∙ q)) | inr t' ↦ t' ]

  seen_again-SeenIn :
      (z : Slot) (T T' : Slot → Type 0) (seen : Seen)
      → Adds z T T'
      → at z ≢ undefined_card
      → contains (at z) seen.cards_s ≡ true
      → SeenIn T seen
      → SeenIn T' (record { cards_s = seen.cards_s; cards_v = at z ∷ seen.cards_v })
  unfolding length
  seen_again-SeenIn z T T' seen a n c h = record {
    found = λ x t m. elim (a.only x t) [
      | inl e ↦ ap (λ y. contains (at y) seen.cards_s) e ∙ c
      | inr t' ↦ h.found x t' m
    ];
    source = λ c e. let (x, t, r) = h.source c e in (x, a.keeps x t, r);
    sizes =
        let (x, t, e) = h.source (at z) c in
        inr (
          shorter,
          (x, z, a.keeps x t, a.there, (λ k. n (sym e ∙ k)), e, (λ k. a.new (subst T k t))),
        );
  }
    where
      shorter : length seen.cards_s < length (at z ∷ seen.cards_v)
      shorter = elim h.sizes [ inl (e, d) ↦ omega (arith, e) | inr (l, d) ↦ omega (arith, l) ]

  first_seen-SeenIn :
      (z : Slot) (T T' : Slot → Type 0) (seen : Seen)
      → Adds z T T'
      → contains (at z) seen.cards_s ≡ false
      → SeenIn T seen
      → SeenIn T' (record { cards_s = at z ∷ seen.cards_s; cards_v = at z ∷ seen.cards_v })
  unfolding length contains
  first_seen-SeenIn z T T' seen a c h = record {
    found = λ x t m. elim (a.only x t) [
      | inl e ↦ ground (arith, ap at e)
      | inr t' ↦ ground (arith, h.found x t' m)
    ];
    source = λ c e. elim (Bool-cases (at z == c)) [
      | inl q ↦ (z, a.there, ground arith)
      | inr q ↦ let (x, t, r) = h.source c (ground arith) in (x, a.keeps x t, r)
    ];
    sizes = elim h.sizes [
      | inl (e, d) ↦ inl (ap suc e, λ x y t u n r. apart d x y (a.only x t) (a.only y u) n r)
      | inr (l, (x, y, t, u, n, e, d)) ↦
          inr (omega (arith, l), (x, y, a.keeps x t, a.keeps y u, n, e, d))
    ];
  }
    where
      unseen : (x : Slot) → T x → at x ≢ undefined_card → at x ≡ at z → ⊥
      unseen x t n e = ground (arith, h.found x t n, ap (λ v. contains v seen.cards_s) e)

      apart :
          NoDouble T
          → (x y : Slot) → (x ≡ z) ⊎ T x
          → (y ≡ z) ⊎ T y
          → at x ≢ undefined_card
          → at x ≡ at y
          → x ≡ y
      apart d x y (inl e) (inl f) n r = e ∙ sym f
      apart d x y (inl e) (inr u) n r = absurd (unseen y u (λ k. n (r ∙ k)) (sym r ∙ ap at e))
      apart d x y (inr t) (inl f) n r = absurd (unseen x t n (r ∙ ap at f))
      apart d x y (inr t) (inr u) n r = d x y t u n r

  see_card-SeenIn :
      (z : Slot) (T T' : Slot → Type 0) (seen : Seen)
      → Adds z T T'
      → SeenIn T seen
      → SeenIn T' (see_card (at z) seen)
  see_card-SeenIn z T T' seen a h = elim (Bool-cases (at z == undefined_card)) [
    | inl e ↦ rw e (undefined-SeenIn z T T' seen a (ground arith) h)
    | inr e ↦ elim (Bool-cases (contains (at z) seen.cards_s)) [
      | inl c ↦ rw (e, c) (seen_again-SeenIn z T T' seen a (ground arith) c h)
      | inr c ↦ rw (e, c) (first_seen-SeenIn z T T' seen a c h)
    ]
  ]

  module _ (g : Game) where
    see_hands-SeenIn :
        SeenIn
          (InPlay g.num_players g.num_hole_cards 0)
          (see_hands g s (record { cards_s = []; cards_v = [] }))
    unfolding see_hands contains length
    see_hands-SeenIn =
        visit_hands SeenIn same-SeenIn (λ p c. see_card (s.hole_cards p c))
          (λ p c. see_card-SeenIn (hole p c)) g.num_hole_cards g.num_players
          (record { cards_s = []; cards_v = [] })
          (record {
            found = λ x t n. absurd (no_place g.num_hole_cards x t);
            source = λ c e. ground (arith, e);
            sizes = inl (refl, λ x y t u n e. absurd (no_place g.num_hole_cards x t));
          })

    see_board-SeenIn :
        (n : ℕ) (seen : Seen)
        → SeenIn (InPlay g.num_players g.num_hole_cards 0) seen
        → SeenIn (InPlay g.num_players g.num_hole_cards n) (see_board s n seen)
    unfolding see_board
    see_board-SeenIn zero seen h = h
    see_board-SeenIn (suc n) seen h =
        see_card-SeenIn (board n) (InPlay g.num_players g.num_hole_cards n)
          (InPlay g.num_players g.num_hole_cards (suc n)) (see_board s n seen)
          (board-Adds g.num_players g.num_hole_cards n) (see_board-SeenIn n seen h)

-- IsStateCardsValid returns true exactly if no card, but for the undefined one, is in two places of the
-- hand: the players' cards, and those of the board up to the current round.
pub is_state_cards_valid_iff :
    (g : Game) (s : State)
    → (is_state_cards_valid g s ≡ true)
      ↔ NoDouble s (InPlay g.num_players g.num_hole_cards (sum_board_cards g s.round))
unfolding is_state_cards_valid
is_state_cards_valid_iff g s = (
  (λ e. elim seen.sizes [ inl (q, d) ↦ d | inr (l, d) ↦ absurd (ground arith) ]),
  (λ d. elim seen.sizes [
    | inl (q, d') ↦ ground arith
    | inr (l, (x, y, t, u, n, e, ne)) ↦ absurd (ne (d x y t u n e))
  ]),
)
  where
    seen : SeenIn s (InPlay g.num_players g.num_hole_cards (sum_board_cards g s.round)) (
        see_board s
          (sum_board_cards g s.round)
          (see_hands g s (record { cards_s = []; cards_v = [] })))
    seen = see_board-SeenIn s g (sum_board_cards g s.round) _ (see_hands-SeenIn s g)
