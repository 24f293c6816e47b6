-- ===== src/Cards/Deck.antt =====
-- The deck that `dealCards` of modules/core/src/game.c builds: its size, and that its cards differ.
use bulldog.Prelude.{
  ℕ, zero, suc, ◌+◌, ◌-◌, ◌≤◌, ◌<◌, ◌≡◌, ◌≢◌, ◌⊎◌, refl, ap, ◌∙◌, ◌==◌, arith, Bool-cases, inl, inr,
  total,
}
use bulldog.Game.{max_suits, max_ranks, Game}
use bulldog.Cards.{make_card, Deal, push_card, push_suit, build_deck}

-- Cards of suits in range differ in rank or suit only when they differ.
pub make_card_eq :
    (n a b c d : ℕ)
    → 1 ≤ n
    → n ≤ 4
    → 4 - n ≤ b
    → b < 4
    → 4 - n ≤ d
    → d < 4
    → make_card a b n ≡ make_card c d n
    → (a ≡ c) × (b ≡ d)
make_card_eq zero a b c d l u lb ub ld ud e = absurd (omega arith)
make_card_eq (suc zero) a b c d l u lb ub ld ud e = (omega arith, omega arith)
make_card_eq (suc (suc zero)) a b c d l u lb ub ld ud e = (omega arith, omega arith)
make_card_eq (suc (suc (suc zero))) a b c d l u lb ub ld ud e = (omega arith, omega arith)
make_card_eq (suc (suc (suc (suc zero)))) a b c d l u lb ub ld ud e = (omega arith, omega arith)
make_card_eq (suc (suc (suc (suc (suc n))))) a b c d l u lb ub ld ud e = absurd (omega arith)

abbrev pub Distinct : Deal → Type 0
Distinct d = (i j : ℕ) → i < j → j < d.num_cards → d.deck i ≢ d.deck j

module _ (g : Game) (some_suit : 1 ≤ g.num_suits) (four : g.num_suits ≤ 4) where
  abbrev pub card : ℕ → ℕ → ℕ
  card a b = make_card (max_ranks - g.num_ranks + a) (max_suits - g.num_suits + b) g.num_suits

  -- Ranks below `j` of suit `k`, or any rank of a suit before it.
  abbrev pub Pushed : ℕ → ℕ → ℕ → Type 0
  Pushed k j c =
      (a : ℕ) × (b : ℕ) × (((b < k) × (a < g.num_ranks)) ⊎ ((b ≡ k) × (a < j))) × (c ≡ card a b)

  pub record Built (k j : ℕ) (d : Deal) : Type 0 where
    pub distinct : Distinct d
    pub pushed : (i : ℕ) → i < d.num_cards → Pushed k j (d.deck i)

  pub push-Built :
      (k j : ℕ) (d : Deal)
      → k < g.num_suits
      → Built k j d
      → Built k (suc j) (push_card (card j k) d)
  push-Built k j d l h = record {
    distinct = λ i m im mn. elim (Bool-cases (m == d.num_cards)) [
      | inl e ↦ let (a, b, w, q) = h.pushed i (ground arith) in λ same. clash a b w (ground (arith))
      | inr e ↦ ground (arith, h.distinct i m)
    ];
    pushed = λ i u. elim (Bool-cases (i == d.num_cards)) [
      | inl e ↦ (j, k, inr (refl, omega arith), ground arith)
      | inr e ↦ let (a, b, w, q) = h.pushed i (ground arith) in (a, b, later a b w, ground arith)
    ];
  }
    where
      later :
          (a b : ℕ)
          → ((b < k) × (a < g.num_ranks)) ⊎ ((b ≡ k) × (a < j))
          → ((b < k) × (a < g.num_ranks)) ⊎ ((b ≡ k) × (a < suc j))
      later a b (inl w) = inl w
      later a b (inr (e, u)) = inr (e, omega arith)

      below : (a b : ℕ) → ((b < k) × (a < g.num_ranks)) ⊎ ((b ≡ k) × (a < j)) → b ≤ k
      below a b w = ground arith

      clash : (a b : ℕ) → ((b < k) × (a < g.num_ranks)) ⊎ ((b ≡ k) × (a < j)) → card a b ≢ card j k
      clash a b w e =
          let (x, y) =
            make_card_eq g.num_suits (max_ranks - g.num_ranks + a) (max_suits - g.num_suits + b)
              (max_ranks - g.num_ranks + j) (max_suits - g.num_suits + k) some_suit four
              (omega arith) (omega (arith, below a b w)) (omega arith) (omega arith) e in
          ground arith

  -- A card that is left out.
  pub skip-Built : (k j : ℕ) (d : Deal) → Built k j d → Built k (suc j) d
  skip-Built k j d h = record {
    distinct = h.distinct;
    pushed = λ i u. let (a, b, w, q) = h.pushed i u in (a, b, ground (arith, w), q);
  }

  push_suit-Built :
      (k n : ℕ) (d : Deal) → k < g.num_suits → Built k 0 d → Built k n (push_suit g k n d)
  unfolding push_suit
  push_suit-Built k zero d l h = h
  push_suit-Built k (suc n) d l h = push-Built k n (push_suit g k n d) l (push_suit-Built k n d l h)

  pub next-Built : (k : ℕ) (d : Deal) → Built k g.num_ranks d → Built (suc k) 0 d
  next-Built k d h = record {
    distinct = h.distinct;
    pushed = λ i u. let (a, b, w, q) = h.pushed i u in (a, b, inl (ground arith), q);
  }

  build_deck-Built : (n : ℕ) (d : Deal) → n ≤ g.num_suits → Built n 0 (build_deck g n d)
  unfolding build_deck
  build_deck-Built zero d l = record {
    distinct = λ i j u v. absurd (omega arith);
    pushed = λ i u. absurd (omega arith);
  }
  build_deck-Built (suc n) d l = next-Built n (build_deck g (suc n) d) (
      push_suit-Built n g.num_ranks (build_deck g n d) (omega arith)
        (build_deck-Built n d (omega arith)))

  pub build_deck-Distinct : (d : Deal) → Distinct (build_deck g g.num_suits d)
  build_deck-Distinct d = (build_deck-Built g.num_suits d (omega arith)).distinct

  push_suit-size : (k n : ℕ) (d : Deal) → (push_suit g k n d).num_cards ≡ n + d.num_cards
  unfolding push_suit
  push_suit-size k zero d = omega arith
  push_suit-size k (suc n) d = omega (arith, push_suit-size k n d)

  pub build_deck-size :
      (n : ℕ) (d : Deal) → (build_deck g n d).num_cards ≡ total (λ k. g.num_ranks) n
  unfolding build_deck total
  build_deck-size zero d = refl
  build_deck-size (suc n) d =
      push_suit-size n g.num_ranks (build_deck g n d)
      ∙ ap (λ m. g.num_ranks + m) (build_deck-size n d)
