-- ===== src/Kernel/Nets.antt =====
-- The second iteration of `StackShowdownProb` in modules/engine/src/term_eval_kernel.cpp.
use mathlib.Core.Path.{ap₂}
use bulldog.Prelude.{
  ℕ, zero, suc, ◌+◌, ◌-◌, ◌≤◌, ◌<◌, ◌≡◌, ◌≢◌, ◌⊎◌, refl, sym, ap, ◌∙◌, Bool, true, ◌&&◌, ◌==◌, ltb,
  none, some, arith, Bool-cases, inl, inr, ltb→lt, ltb→le, count, update, update_self, update_ne,
}
use bulldog.Prelude.Int.{ℤ, ◌+ℤ◌, ◌-ℤ◌, pick, sum, int_laws}
use bulldog.Holdem.{holdem_max_cards}
use bulldog.Kernel.{Kernel}
use bulldog.Kernel.StackEval.{Stack, combo_idx, rank_net, net_rows, card_rows, first_net}
use bulldog.Kernel.Rows.{seen, seen_sound, count_after, count_at}
use bulldog.Kernel.Prepared.{IsPrepared, occurs}
use bulldog.Kernel.Stacked.{combo_inj}
use bulldog.Kernel.Lists.{AllListed}
use bulldog.Kernel.Signed.{signed_share, signed_sum-first, signed_sum-next}

module _ {k : Kernel} {num_hands : ℕ} {class start : ℕ → ℕ} (h : IsPrepared k num_hands class start)
    (opp : ℕ → ℤ) (s : Stack) (a : AllListed h opp num_hands s) where
  -- The weights of lower ranks less those of higher ones.
  abbrev pub base_net : ℕ → ℤ
  base_net r = sum (signed_share (λ i. true) class opp num_hands r) num_hands

  -- Those of the hands with a card.
  abbrev pub card_net : ℕ → ℕ → ℤ
  card_net c r = sum (signed_share (occurs k c) class opp num_hands r) num_hands

  pub rank_net-base_net : s.opp_sum ≡ sum opp num_hands → (r : ℕ) → rank_net s r ≡ base_net r
  unfolding rank_net
  rank_net-base_net e zero =
      ap₂ (λ a b. a -ℤ b) (a.ranks 0) e
      ∙ signed_sum-first (λ i. true) class opp num_hands 0 (λ q m. omega arith)
  rank_net-base_net e (suc r) =
      ap₂ (λ a b. a +ℤ b) (ap₂ (λ a b. a +ℤ b) (rank_net-base_net e r) (a.ranks r))
        (a.ranks (suc r))
      ∙ signed_sum-next (λ i. true) class opp num_hands r (suc r) (omega arith) (λ q m. near q r)
    where
      near : (q r : ℕ) → (q ≤ r) ⊎ (suc r ≤ q)
      near q r = ground arith

  abbrev pub held : ℕ → ℕ → Bool
  held c = seen (occurs k c) class num_hands

  abbrev pub row_of : ℕ → ℕ → ℕ
  row_of c = count (held c)

  abbrev pub rows_of : ℕ → ℕ
  rows_of c = count (held c) k.unique_rank_count

  -- What is right below row `n`.
  abbrev NetUpTo : ℕ → ℕ → (ℕ → ℤ) → Type 0
  NetUpTo c n net =
      (r : ℕ) → held c r ≡ true → row_of c r < n → net (combo_idx (row_of c r) c) ≡ card_net c r

  abbrev OnlyCard : ℕ → (ℕ → ℤ) → (ℕ → ℤ) → Type 0
  OnlyCard c f g = (i d : ℕ) → d < 52 → c ≢ d → g (combo_idx i d) ≡ f (combo_idx i d)

  module _ (c : ℕ) (m : c < 52) where
    rank_sum-row :
        (r : ℕ)
        → held c r ≡ true
        → s.card_rank_sum (row_of c r) c
          ≡ sum (λ i. pick (occurs k c i && class i == r) (opp i)) num_hands
    rank_sum-row r e = (a.cards c m).sums r e

    first-right : (net : ℕ → ℤ) → NetUpTo c 1 (first_net s c net)
    first-right net r e l =
        let first : row_of c r ≡ 0 = omega arith in
        ap (λ n. first_net s c net (combo_idx n c)) first
        ∙ update_self net (combo_idx 0 c) (s.card_rank_sum 0 c -ℤ s.card_sum c)
        ∙ ap₂ (λ a b. a -ℤ b) (ap (λ n. s.card_rank_sum n c) (sym first) ∙ rank_sum-row r e)
            (a.cards c m).total
        ∙ signed_sum-first (occurs k c) class opp num_hands r (λ q w. least q w)
      where
        least : (q : ℕ) → held c q ≡ true → r ≤ q
        least q w = elim (Bool-cases (ltb q r)) [
          | inl z ↦ absurd (omega (arith, count_after (held c) q r (ltb→lt q r z) w))
          | inr z ↦ ground arith
        ]

    first-only : (net : ℕ → ℤ) → OnlyCard c net (first_net s c net)
    first-only net i d l n =
        update_ne net (combo_idx 0 c) (s.card_rank_sum 0 c -ℤ s.card_sum c) (combo_idx i d)
          (λ z. n (combo_inj 0 i c d m l z).1)

    abbrev next_net : ℕ → (ℕ → ℤ) → ℕ → ℤ
    next_net n net =
        update net (combo_idx n c) (
          net (combo_idx n c - holdem_max_cards)
          +ℤ s.card_rank_sum n c
          +ℤ s.card_rank_sum (n - 1) c)

    next-only : (n : ℕ) (net : ℕ → ℤ) → OnlyCard c net (next_net n net)
    next-only n net i d l e =
        update_ne net (combo_idx n c)
          (net (combo_idx n c - holdem_max_cards)
            +ℤ s.card_rank_sum n c
            +ℤ s.card_rank_sum (n - 1) c)
          (combo_idx i d) (λ z. e (combo_inj n i c d m l z).1)

    -- The rank of the row before.
    row-before :
        (n r : ℕ)
        → held c r ≡ true
        → row_of c r ≡ suc n
        → r < k.unique_rank_count
        → (q : ℕ) × (q < r) × (held c q ≡ true) × (row_of c q ≡ n)
    row-before n r e z u = count_at (held c) r n (omega arith)

    row_value :
        (n r : ℕ) (net : ℕ → ℤ)
        → held c r ≡ true
        → row_of c r ≡ suc n
        → r < k.unique_rank_count
        → NetUpTo c (suc n) net
        → net (combo_idx n c) +ℤ s.card_rank_sum (suc n) c +ℤ s.card_rank_sum n c ≡ card_net c r
    row_value n r net e z u t =
        let (q, b, d, f) = row-before n r e z u in
        swapped (net (combo_idx n c)) (s.card_rank_sum (suc n) c) (s.card_rank_sum n c)
        ∙ ap₂ (λ a b. a +ℤ b)
            (ap₂ (λ a b. a +ℤ b) (ap (λ n. net (combo_idx n c)) (sym f) ∙ t q d (omega arith))
              (ap (λ n. s.card_rank_sum n c) (sym f) ∙ rank_sum-row q d))
            (ap (λ n. s.card_rank_sum n c) (sym z) ∙ rank_sum-row r e)
        ∙ signed_sum-next (occurs k c) class opp num_hands q r b (λ x w. apart q x d f w)
      where
        swapped : (a b c : ℤ) → a +ℤ b +ℤ c ≡ a +ℤ c +ℤ b
        swapped a b c = omega int_laws

        apart : (q x : ℕ) → held c q ≡ true → row_of c q ≡ n → held c x ≡ true → (x ≤ q) ⊎ (r ≤ x)
        apart q x d f w = elim (Bool-cases (ltb q x)) [
          | inl i ↦ elim (Bool-cases (ltb x r)) [
            | inl j ↦ absurd (
                omega (
                  arith,
                  count_after (held c) q x (ltb→lt q x i) d,
                  count_after (held c) x r (ltb→lt x r j) w,
                ))
            | inr j ↦ inr (ground arith)
          ]
          | inr i ↦ inl (ground arith)
        ]

    pub held-rank : (r : ℕ) → held c r ≡ true → r < k.unique_rank_count
    held-rank r e =
        let (i, l, _, q) = seen_sound (occurs k c) class num_hands r e in
        omega (arith, h.in_class i l)

    next-right :
        (n : ℕ) (net : ℕ → ℤ)
        → suc n < rows_of c
        → NetUpTo c (suc n) net
        → NetUpTo c (suc (suc n)) (next_net (suc n) net)
    next-right n net l t r e u = elim (Bool-cases (row_of c r == suc n)) [
      | inl z ↦
          let at : row_of c r ≡ suc n = ground arith in
          let back : combo_idx (suc n) c - holdem_max_cards ≡ combo_idx n c = omega arith in
          let pred : suc n - 1 ≡ n = omega arith in
          ap (λ i. next_net (suc n) net (combo_idx i c)) at
          ∙ update_self net (combo_idx (suc n) c) (
              net (combo_idx (suc n) c - holdem_max_cards)
              +ℤ s.card_rank_sum (suc n) c
              +ℤ s.card_rank_sum (suc n - 1) c)
          ∙ ap₂ (λ i p. net i +ℤ s.card_rank_sum (suc n) c +ℤ s.card_rank_sum p c) back pred
          ∙ row_value n r net e at (held-rank r e) t
      | inr z ↦
          update_ne net (combo_idx (suc n) c)
            (net (combo_idx (suc n) c - holdem_max_cards)
              +ℤ s.card_rank_sum (suc n) c
              +ℤ s.card_rank_sum (suc n - 1) c)
            (combo_idx (row_of c r) c)
            (λ q.
              let same : suc n ≡ row_of c r = (combo_inj (suc n) (row_of c r) c c m m q).0 in
              ground arith)
          ∙ t r e (ground arith)
    ]

    net_rows-more :
        (fuel n q : ℕ) (net : ℕ → ℤ)
        → s.skipping (combo_idx n c) ≡ some q
        → net_rows s c (suc fuel) n net ≡ net_rows s c fuel (n + 1) (next_net n net)
    unfolding net_rows
    net_rows-more fuel n q net e = rw (net_rows, e) refl

    net_rows-done :
        (fuel n : ℕ) (net : ℕ → ℤ)
        → s.skipping (combo_idx n c) ≡ none
        → net_rows s c (suc fuel) n net ≡ some net
    unfolding net_rows
    net_rows-done fuel n net e = rw (net_rows, e) refl

    net_rows-right :
        (fuel n : ℕ) (net : ℕ → ℤ)
        → 0 < fuel
        → rows_of c < suc n + fuel
        → NetUpTo c (suc n) net
        → (net' : ℕ → ℤ) × (net_rows s c fuel (suc n) net ≡ some net')
          × NetUpTo c (rows_of c) net'
          × OnlyCard c net net'
    net_rows-right zero n net f l t = absurd (omega arith)
    net_rows-right (suc fuel) n net f l t = elim (Bool-cases (ltb (suc n) (rows_of c))) [
      | inl z ↦
          let (q, b, d, f) =
            count_at (held c) k.unique_rank_count (suc n) (ltb→lt (suc n) (rows_of c) z) in
          let here : s.skipping (combo_idx (suc n) c) ≡ some q =
            sym (ap (λ n. s.skipping (combo_idx n c)) f) ∙ (a.cards c m).rows q d in
          let (net', e, t', o) =
            net_rows-right fuel (suc n) (next_net (suc n) net) (ground arith) (omega arith)
              (next-right n net (ltb→lt (suc n) (rows_of c) z) t) in
          (
            net',
            net_rows-more fuel (suc n) q net here
                ∙ ap (λ i. net_rows s c fuel i (next_net (suc n) net)) (plus_one n)
                ∙ e,
            t',
            λ i d l n'. o i d l n' ∙ next-only (suc n) net i d l n',
          )
      | inr z ↦
          let past : rows_of c ≤ suc n = ltb→le (suc n) (rows_of c) z in
          (
            net,
            net_rows-done fuel (suc n) net
                ((a.cards c m).cut (suc n) (omega (arith, past, (a.cards c m).steps))),
            λ r e u. t r e (omega (arith, past)),
            λ i d l n'. refl,
          )
    ]
      where
        plus_one : (n : ℕ) → suc n + 1 ≡ suc (suc n)
        plus_one n = omega arith

    pub one_card :
        (net : ℕ → ℤ)
        → rows_of c < card_rows
        → (net' : ℕ → ℤ) × (net_rows s c (card_rows - 1) 1 (first_net s c net) ≡ some net')
          × NetUpTo c (rows_of c) net'
          × OnlyCard c net net'
    one_card net l =
        let (net', e, t, o) =
          net_rows-right 45 0 (first_net s c net) (omega arith) (omega arith) (first-right net) in
        (net', e, t, λ i d l n. o i d l n ∙ first-only net i d l n)
