-- ===== src/Kernel/Prepare/Hands.antt =====
-- The hands that `Prepare` of modules/engine/src/term_eval_kernel.cpp has collected and `Sort` has
-- sorted, as `PreStack` needs them.
use mathlib.Core.Path.{subst}
use bulldog.Prelude.{
  ℕ, ◌≤◌, ◌<◌, ◌≡◌, ◌⊎◌, refl, sym, ap, ◌∙◌, Bool, true, false, arith, inl, inr, some, count,
  count_congr,
}
use bulldog.Holdem.{Hand, holdem_max_board, card_crash, hand_crash, from_vector_index}
use bulldog.Holdem.Index.{from_vector_index-to_vector_index}
use bulldog.Cards.Valid.{contains, length}
use bulldog.Kernel.{Ranked, Kernel}
use bulldog.Kernel.StackEval.{card_rows}
use bulldog.Kernel.Rows.{seen, seen_sound, seen_complete}
use bulldog.Kernel.Prepared.{occurs}
use bulldog.Kernel.Prepare.{Filling, prepare_hands, Sorts, rank_high_low_sort, class_of, IsSorted}
use bulldog.Kernel.Prepare.Filled.{Earlier, IsHand, Filled, add_lows-Filled}

-- The index tells the cards.
index_cards :
    (board : ℕ → ℕ) (rank_hand : ℕ → ℕ → ℕ) (bound : ℕ)
    (bounded : (high low : ℕ) → rank_hand high low < bound) (a b : Ranked)
    → IsHand board rank_hand bound bounded a
    → IsHand board rank_hand bound bounded b
    → a.v_idx ≡ b.v_idx
    → (a.high ≡ b.high) × (a.low ≡ b.low)
index_cards board rank_hand bound bounded a b x y e =
    let (v, p, _, _, q) = from_vector_index-to_vector_index a.high a.low x.cards.0 x.cards.1 in
    let (w, p', _, _, q') = from_vector_index-to_vector_index b.high b.low y.cards.0 y.cards.1 in
    let same : v ≡ w = some-inj (sym p ∙ x.index) ∙ e ∙ sym (some-inj (sym p' ∙ y.index)) in
    let hands : some (hand a) ≡ some (hand b) = sym q ∙ ap from_vector_index same ∙ q' in
    (ap (λ h. h.high) (hand-inj hands), ap (λ h. h.low) (hand-inj hands))
  where
    some-inj : {m n : ℕ} → some m ≡ some n → m ≡ n
    some-inj z = cc

    hand-inj : {m n : Hand} → some m ≡ some n → m ≡ n
    hand-inj z = cc

    hand : Ranked → Hand
    hand c = record { high = c.high; low = c.low }

not_both : (a b : Ranked) → a.high ≡ b.high → a.low ≡ b.low → Earlier a b → ⊥
not_both a b h l (inl e) = omega arith
not_both a b h l (inr (e, q)) = omega arith

module _ (board : ℕ → ℕ) (rank_hand : ℕ → ℕ → ℕ) (bound : ℕ)
    (bounded : (high low : ℕ) → rank_hand high low < bound) (t : Filling) (sorted : ℕ → Ranked)
    (f : Filled board rank_hand bound bounded 51 0 t) (s : Sorts t.index t.hands sorted) where
  is_hand : (j : ℕ) → j < t.index → IsHand board rank_hand bound bounded (sorted j)
  is_hand j l =
      subst (IsHand board rank_hand bound bounded) (sym (s.moved j l))
        (f.each (s.place j) (s.place_lt j l))

  same_hand :
      (i j : ℕ)
      → i < t.index
      → j < t.index
      → (sorted i).high ≡ (sorted j).high
      → (sorted i).low ≡ (sorted j).low
      → i ≡ j
  same_hand i j l m a b =
      let h = ap (λ x. x.high) (sym (s.moved i l)) ∙ a ∙ ap (λ x. x.high) (s.moved j m) in
      let w = ap (λ x. x.low) (sym (s.moved i l)) ∙ b ∙ ap (λ x. x.low) (s.moved j m) in
      elim (orders (s.place i) (s.place j)) [
        | inl e ↦ absurd (
            not_both (t.hands (s.place i)) (t.hands (s.place j)) h w
              (f.apart (s.place i) (s.place j) e (s.place_lt j m)))
        | inr (inl e) ↦ absurd (
            not_both (t.hands (s.place j)) (t.hands (s.place i)) (sym h) (sym w)
              (f.apart (s.place j) (s.place i) e (s.place_lt i l)))
        | inr (inr e) ↦ sym (s.origin-place i l) ∙ ap s.origin e ∙ s.origin-place j m
      ]
    where
      orders : (x y : ℕ) → (x < y) ⊎ ((y < x) ⊎ (x ≡ y))
      orders x y = ground arith

  same_ranks :
      (r : ℕ)
      → seen (λ i. true) (λ i. (t.hands i).rank) t.index r
        ≡ seen (λ i. true) (λ i. (sorted i).rank) t.index r
  same_ranks r = both there back
    where
      both : {a b : Bool} → (a ≡ true → b ≡ true) → (b ≡ true → a ≡ true) → a ≡ b
      both x y = ground arith

      there :
          seen (λ i. true) (λ i. (t.hands i).rank) t.index r ≡ true
          → seen (λ i. true) (λ i. (sorted i).rank) t.index r ≡ true
      there e =
          let (i, l, _, q) = seen_sound (λ i. true) (λ i. (t.hands i).rank) t.index r e in
          seen_complete (λ i. true) (λ i. (sorted i).rank) t.index r (s.origin i) (s.origin_lt i l)
            refl
            (ap (λ x. x.rank)
                (s.moved (s.origin i) (s.origin_lt i l) ∙ ap t.hands (s.place-origin i l))
              ∙ q)

      back :
          seen (λ i. true) (λ i. (sorted i).rank) t.index r ≡ true
          → seen (λ i. true) (λ i. (t.hands i).rank) t.index r ≡ true
      back e =
          let (j, l, _, q) = seen_sound (λ i. true) (λ i. (sorted i).rank) t.index r e in
          seen_complete (λ i. true) (λ i. (t.hands i).rank) t.index r (s.place j) (s.place_lt j l)
            refl (ap (λ x. x.rank) (sym (s.moved j l)) ∙ q)

  rank_count : length t.rank_set ≡ count (seen (λ i. true) (λ i. (sorted i).rank) t.index) bound
  rank_count =
      f.set.size
      ∙ count_congr (λ r. contains r t.rank_set) (seen (λ i. true) (λ i. (sorted i).rank) t.index)
          bound (λ r l. f.set.members r ∙ same_ranks r)

  ranks-ordered : (i j : ℕ) → i < j → j < t.index → (sorted i).rank ≤ (sorted j).rank
  ranks-ordered i j a l = in_order (sorted i) (sorted j) (s.in_order i j a l)
    where
      in_order : (a b : Ranked) → rank_high_low_sort b a ≡ false → a.rank ≤ b.rank
      in_order a b e = ground arith

off_board :
    (board : ℕ → ℕ) (high low : ℕ)
    → hand_crash board high low ≡ false
    → (card_crash board holdem_max_board high ≡ false)
      × (card_crash board holdem_max_board low ≡ false)
off_board board high low e = (ground arith, ground arith)

-- Before PreStack, Prepare ends with hands as PreStack needs them, if there is one at all and no card
-- has hands of 46 ranks.
pub prepare_hands-IsSorted :
    (board : ℕ → ℕ) (rank_hand : ℕ → ℕ → ℕ) (bound : ℕ) (blank : ℕ → Ranked)
    (sort : ℕ → (ℕ → Ranked) → ℕ → Ranked) (fresh : ℕ → ℕ)
    → ((high low : ℕ) → rank_hand high low < bound)
    → ((n : ℕ) (hands : ℕ → Ranked) → Sorts n hands (sort n hands))
    → (k : Kernel) × (num_hands : ℕ) × (prepare_hands board rank_hand blank sort fresh ≡ some k)
      × (0 < num_hands
          → ((c : ℕ)
              → c < 52
              → count (seen (occurs k c) (class_of k num_hands) num_hands) k.unique_rank_count
                < card_rows)
          → IsSorted k num_hands bound)
unfolding prepare_hands
prepare_hands-IsSorted board rank_hand bound blank sort fresh bounded sorts =
    let (t, e, f) = add_lows-Filled board rank_hand bound bounded blank 51 (omega arith) in
    let s = sorts t.index t.hands in
    let sorted = sort t.index t.hands in
    let hand = is_hand board rank_hand bound bounded t sorted f s in
    let same = same_hand board rank_hand bound bounded t sorted f s in
    let k : Kernel = record {
      sorted = sorted;
      board = board;
      unique_rank_count = length t.rank_set;
      rank_first_equal = fresh;
      rank_first_losing = fresh;
    } in
    (
      k,
      t.index,
      rw e refl,
      λ some_hand few. record {
        some_hand = some_hand;
        cards = λ j l. (hand j l).cards;
        off_board = λ j l. off_board board (sorted j).high (sorted j).low (hand j l).off_board;
        one_each = same;
        indices = λ i j l m q.
            let (a, b) =
              index_cards board rank_hand bound bounded (sorted i) (sorted j) (hand i l) (hand j m)
                q in
            same i j l m a b;
        by_rank = ranks-ordered board rank_hand bound bounded t sorted f s;
        bounded = λ j l. (hand j l).in_bound;
        ranks = rank_count board rank_hand bound bounded t sorted f s;
        few_rows = few;
      },
    )
