-- ===== src/Cards/Remaining/Unused.antt =====
-- The deck that `dealRemainingCards` of modules/core/src/game.c builds: its cards differ, none of them
-- is in use, and it lacks at most one card for each that is.
use bulldog.Prelude.{
  ℕ, zero, suc, ◌+◌, ◌-◌, ◌≤◌, ◌<◌, ◌≡◌, ◌⊎◌, refl, sym, ap, ◌∙◌, Bool, true, false, not, ◌==◌,
  arith, Bool-cases, inl, inr, bit, count, count_index, total, total_congr, ◌||◌,
}
use bulldog.Game.{max_suits, max_ranks, Game}
use bulldog.Cards.{Deal}
use bulldog.Cards.Deck.{make_card_eq, Distinct, Built, push-Built, skip-Built, next-Built}
use bulldog.Cards.Remaining.{
  Used, check_used, deck_card, push_unused, push_unused_suit, build_unused,
}

-- At most one index passes.
count_unique :
    (t : ℕ → Bool) (n : ℕ)
    → ((i j : ℕ) → i < n → j < n → t i ≡ true → t j ≡ true → i ≡ j)
    → count t n ≤ 1
unfolding count
count_unique t zero h = omega arith
count_unique t (suc n) h = elim (Bool-cases (t n)) [
  | inl e ↦ elim (positive (count t n)) [
    | inl z ↦ ground arith
    | inr l ↦
        let (i, u, q) = count_index t n l in
        absurd (omega (arith, h i n (omega arith) (omega arith) q e))
  ]
  | inr e ↦ ground (arith, count_unique t n (λ i j u v. h i j (omega arith) (omega arith)))
]
  where
    positive : (m : ℕ) → (m ≡ 0) ⊎ (0 < m)
    positive m = ground arith

total_index : (f : ℕ → ℕ) (n : ℕ) → 0 < total f n → (i : ℕ) × (i < n) × (0 < f i)
unfolding total
total_index f zero h = absurd (omega arith)
total_index f (suc n) h = elim (split (f n)) [
  | inl z ↦ let (i, l, e) = total_index f n (omega arith) in (i, omega arith, e)
  | inr l ↦ (n, omega arith, l)
]
  where
    split : (m : ℕ) → (m ≡ 0) ⊎ (0 < m)
    split m = ground arith

-- At most one pair of indices passes.
total_unique :
    (t : ℕ → ℕ → Bool) (m n : ℕ)
    → ((k k' j j' : ℕ)
        → k < n
        → k' < n
        → j < m
        → j' < m
        → t k j ≡ true
        → t k' j' ≡ true
        → (k ≡ k') × (j ≡ j'))
    → total (λ k. count (t k) m) n ≤ 1
unfolding total
total_unique t m zero h = omega arith
total_unique t m (suc n) h = elim (split (count (t n) m)) [
  | inl z ↦
      omega
        (arith, z, total_unique t m n (λ k k' j j' a b. h k k' j j' (omega arith) (omega arith)))
  | inr l ↦ elim (split (total (λ k. count (t k) m) n)) [
    | inl z ↦ omega (
      arith,
      z,
      count_unique (t n) m (λ i j u v p q. (h n n i j (omega arith) (omega arith) u v p q).1),
    )
    | inr l' ↦
        let (k, u, w) = total_index (λ k. count (t k) m) n l' in
        let (j, v, q) = count_index (t k) m w in
        let (j', v', q') = count_index (t n) m l in
        absurd (omega (arith, (h k n j j' (omega arith) (omega arith) v v' q q').0))
  ]
]
  where
    split : (m : ℕ) → (m ≡ 0) ⊎ (0 < m)
    split m = ground arith

count_shift :
    (t u v : ℕ → Bool) (n : ℕ)
    → ((i : ℕ) → bit (t i) ≤ bit (u i) + bit (v i))
    → count t n ≤ count u n + count v n
unfolding count
count_shift t u v zero h = omega arith
count_shift t u v (suc n) h = omega (arith, h n, count_shift t u v n h)

total_shift :
    (f h k : ℕ → ℕ) (n : ℕ) → ((i : ℕ) → f i ≤ h i + k i) → total f n ≤ total h n + total k n
unfolding total
total_shift f h k zero e = omega arith
total_shift f h k (suc n) e = omega (arith, e n, total_shift f h k n e)

module _ (g : Game) (u : Used) where
  abbrev is_free : ℕ → ℕ → ℕ → Bool
  is_free m k j = not (check_used u.cards m (deck_card g j k))

  push_unused_suit-size :
      (k n : ℕ) (d : Deal)
      → (push_unused_suit g u k n d).num_cards ≡ count (is_free u.num_used k) n + d.num_cards
  unfolding push_unused_suit count
  push_unused_suit-size k zero d = omega arith
  push_unused_suit-size k (suc n) d = ground (arith, push_unused_suit-size k n d)

  build_unused-size :
      (n : ℕ) (d : Deal)
      → (build_unused g u n d).num_cards ≡ total (λ k. count (is_free u.num_used k) g.num_ranks) n
  unfolding build_unused total
  build_unused-size zero d = refl
  build_unused-size (suc n) d =
      push_unused_suit-size n g.num_ranks (build_unused g u n d)
      ∙ ap (λ m. count (is_free u.num_used n) g.num_ranks + m) (build_unused-size n d)

  -- One more used card takes at most one card from the deck.
  one_more :
      (m : ℕ)
      → 1 ≤ g.num_suits
      → g.num_suits ≤ 4
      → total (λ k. count (is_free m k) g.num_ranks) g.num_suits
        ≤ total (λ k. count (is_free (suc m) k) g.num_ranks) g.num_suits + 1
  unfolding check_used
  one_more m l four = omega (
    arith,
    total_shift (λ k. count (is_free m k) g.num_ranks) (λ k. count (is_free (suc m) k) g.num_ranks)
        (λ k. count (is_it k) g.num_ranks) g.num_suits
        (λ k.
          count_shift (is_free m k) (is_free (suc m) k) (is_it k) g.num_ranks
            (λ j. bits (check_used u.cards m (deck_card g j k)) (is_it k j))),
    total_unique is_it g.num_ranks g.num_suits same,
  )
    where
      is_it : ℕ → ℕ → Bool
      is_it k j = u.cards m == deck_card g j k

      bits : (a b : Bool) → bit (not a) ≤ bit (not (a || b)) + bit b
      bits a b = ground arith

      same :
          (k k' j j' : ℕ)
          → k < g.num_suits
          → k' < g.num_suits
          → j < g.num_ranks
          → j' < g.num_ranks
          → is_it k j ≡ true
          → is_it k' j' ≡ true
          → (k ≡ k') × (j ≡ j')
      same k k' j j' a b c d e f =
          let (x, y) =
            make_card_eq g.num_suits (max_ranks - g.num_ranks + j) (max_suits - g.num_suits + k)
              (max_ranks - g.num_ranks + j') (max_suits - g.num_suits + k') l four (omega arith)
              (omega arith) (omega arith) (omega arith) (ground arith) in
          (omega arith, omega arith)

  room :
      (m : ℕ)
      → 1 ≤ g.num_suits
      → g.num_suits ≤ 4
      → total (λ k. g.num_ranks) g.num_suits
        ≤ m + total (λ k. count (is_free m k) g.num_ranks) g.num_suits
  unfolding check_used count
  room zero l four = ground (
    arith,
    total_congr (λ k. g.num_ranks) (λ k. count (is_free 0 k) g.num_ranks) g.num_suits
        (λ k i. sym (all_free k g.num_ranks)),
  )
    where
      all_free : (k n : ℕ) → count (is_free 0 k) n ≡ n
      all_free k zero = refl
      all_free k (suc n) = omega (arith, all_free k n)
  room (suc m) l four = omega (arith, one_more m l four, room m l four)

  pub build_unused-room :
      (d : Deal)
      → 1 ≤ g.num_suits
      → g.num_suits ≤ 4
      → total (λ k. g.num_ranks) g.num_suits
        ≤ u.num_used + (build_unused g u g.num_suits d).num_cards
  build_unused-room d l four =
      omega (arith, room u.num_used l four, build_unused-size g.num_suits d)

  -- No card of the deck is in use.
  abbrev pub Free : Deal → Type 0
  Free d = (i : ℕ) → i < d.num_cards → check_used u.cards u.num_used (d.deck i) ≡ false

  push_unused-Free : (k j : ℕ) (d : Deal) → Free d → Free (push_unused g u k j d)
  push_unused-Free k j d h i l =
      elim (Bool-cases (check_used u.cards u.num_used (deck_card g j k))) [
        | inl e ↦ ground (arith, h i)
        | inr e ↦ elim (Bool-cases (d.num_cards == i)) [
          | inl q ↦ ground arith
          | inr q ↦ ground (arith, h i)
        ]
      ]

  push_unused_suit-Free : (k n : ℕ) (d : Deal) → Free d → Free (push_unused_suit g u k n d)
  unfolding push_unused_suit
  push_unused_suit-Free k zero d h = h
  push_unused_suit-Free k (suc n) d h =
      push_unused-Free k n (push_unused_suit g u k n d) (push_unused_suit-Free k n d h)

  pub build_unused-Free : (n : ℕ) (d : Deal) → Free (build_unused g u n d)
  unfolding build_unused
  build_unused-Free zero d = λ i l. absurd (omega arith)
  build_unused-Free (suc n) d =
      push_unused_suit-Free n g.num_ranks (build_unused g u n d) (build_unused-Free n d)

module _ (g : Game) (u : Used) (some_suit : 1 ≤ g.num_suits) (four : g.num_suits ≤ 4) where
  push_unused-Built :
      (k j : ℕ) (d : Deal)
      → k < g.num_suits
      → Built g some_suit four k j d
      → Built g some_suit four k (suc j) (push_unused g u k j d)
  push_unused-Built k j d l h =
      elim (Bool-cases (check_used u.cards u.num_used (deck_card g j k))) [
        | inl e ↦ rw e (skip-Built g some_suit four k j d h)
        | inr e ↦ rw e (push-Built g some_suit four k j d l h)
      ]

  push_unused_suit-Built :
      (k n : ℕ) (d : Deal)
      → k < g.num_suits
      → Built g some_suit four k 0 d
      → Built g some_suit four k n (push_unused_suit g u k n d)
  unfolding push_unused_suit
  push_unused_suit-Built k zero d l h = h
  push_unused_suit-Built k (suc n) d l h =
      push_unused-Built k n (push_unused_suit g u k n d) l (push_unused_suit-Built k n d l h)

  build_unused-Built :
      (n : ℕ) (d : Deal) → n ≤ g.num_suits → Built g some_suit four n 0 (build_unused g u n d)
  unfolding build_unused
  build_unused-Built zero d l = record {
    distinct = λ i j u v. absurd (omega arith);
    pushed = λ i u. absurd (omega arith);
  }
  build_unused-Built (suc n) d l = next-Built g some_suit four n (build_unused g u (suc n) d) (
      push_unused_suit-Built n g.num_ranks (build_unused g u n d) (omega arith)
        (build_unused-Built n d (omega arith)))

  pub build_unused-Distinct : (d : Deal) → Distinct (build_unused g u g.num_suits d)
  build_unused-Distinct d = (build_unused-Built g.num_suits d (omega arith)).distinct
