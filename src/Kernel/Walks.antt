-- ===== src/Kernel/Walks.antt =====
-- The walk of `FastShowdownEval` in modules/engine/src/term_eval_kernel.cpp over all hands, against the
-- loop of `NaiveShowdownEval`.
use mathlib.Core.Path.{subst, ap₂}
use bulldog.Prelude.{
  ℕ, suc, ◌-◌, ◌<◌, ◌≡◌, ◌≢◌, refl, sym, ap, ◌∙◌, true, false, ◌==◌, some, arith, Bool-cases, inl,
  inr, if◌then◌else◌, update, count_none,
}
use bulldog.Prelude.Int.{ℤ, ◌+ℤ◌, ◌-ℤ◌, ◌*ℤ◌, ◌==ℤ◌, sum}
use bulldog.Holdem.{holdem_max_board, card_crash}
use bulldog.Kernel.{Kernel, set_values}
use bulldog.Kernel.StackEval.{Stack, combo_idx, rank_net}
use bulldog.Kernel.ShowdownEval.{
  Walk, visit_card, visit_cards, visit_hand, showdown_net, visit_rank, visit_ranks, naive_sum,
}
use bulldog.Kernel.Rows.{seen}
use bulldog.Kernel.Values.{untouched}
use bulldog.Kernel.Prepared.{IsPrepared, occurs, ranks_loop}
use bulldog.Kernel.Lists.{AllListed}
use bulldog.Kernel.Nets.{card_net, held, row_of, rank_net-base_net}
use bulldog.Kernel.CardNets.{RightNets}
use bulldog.Kernel.NextHand.{own_seen}
use bulldog.Kernel.Visits.{
  SamePlace, visit_card-SamePlace, Placed, Placed-SamePlace, Placed-other, visit_card-Placed,
  visit_card-net,
}
use bulldog.Kernel.Agree.{net-naive_sum}

module _ {k : Kernel} {num_hands : ℕ} {class start : ℕ → ℕ} (h : IsPrepared k num_hands class start)
    (opp : ℕ → ℤ) (s : Stack) (a : AllListed h opp num_hands s)
    (total : s.opp_sum ≡ sum opp num_hands) (net : ℕ → ℤ) (right : RightNets h opp s a 52 net)
    (mask spent : ℤ) (my : ℕ → ℤ)
    (unmasked : (j : ℕ) → j < num_hands → (my (k.sorted j).v_idx ==ℤ mask) ≡ false) where
  abbrev index : ℕ → ℕ
  index j = (k.sorted j).v_idx

  abbrev naive_value : ℕ → ℤ
  naive_value j = naive_sum k opp num_hands j *ℤ spent

  abbrev PlacedCard : ℕ → ℕ → Walk → Type 0
  PlacedCard c j w = Placed s.skipping net (occurs k c) class k.unique_rank_count c j w

  -- After the first `j` hands.
  record Walked (j : ℕ) (w : Walk) : Type 0 where
    places : (c : ℕ) → c < 52 → PlacedCard c j w
    values : (x : ℕ) → w.belief x ≡ set_values mask index naive_value j my x

  rows :
      (c : ℕ) (m : c < 52) (r : ℕ)
      → held h opp s a c r ≡ true
      → s.skipping (combo_idx (row_of h opp s a c r) c) ≡ some r
  rows c m r e = (a.cards c m).rows r e

  not_masked :
      (j : ℕ) (w : Walk) → j < num_hands → Walked j w → (w.belief (index j) ==ℤ mask) ≡ false
  not_masked j w l p =
      ap (λ v. v ==ℤ mask)
        (p.values (index j)
          ∙ untouched mask index naive_value j (index j) my
              (λ i m e. let z : i ≡ j = h.indices i j (omega arith) l e in omega arith))
      ∙ unmasked j l

  abbrev after_high : ℕ → Walk → Walk
  after_high j w = visit_card s.skipping net (class j) (k.sorted j).high w

  own_place :
      (c j : ℕ) (w : Walk) (m : c < 52) (l : j < num_hands)
      → occurs k c j ≡ true
      → PlacedCard c j w
      → PlacedCard c (suc j) (visit_card s.skipping net (class j) c w)
  own_place c j w m l o p =
      visit_card-Placed s.skipping net (occurs k c) class k.unique_rank_count c num_hands h.ordered
        (rows c m) j w l o (h.in_class j l) p

  own_net :
      (c j : ℕ) (w : Walk) (m : c < 52) (l : j < num_hands)
      → occurs k c j ≡ true
      → card_crash k.board holdem_max_board c ≡ false
      → PlacedCard c j w
      → (visit_card s.skipping net (class j) c w).last_net c ≡ card_net h opp s a c (class j)
  own_net c j w m l o b p =
      visit_card-net s.skipping net (occurs k c) class k.unique_rank_count c num_hands h.ordered
        (rows c m) j w l o (h.in_class j l) p
      ∙ right c (class j) m b (own_seen (occurs k c) class num_hands h.ordered j l o)

  moved : (c j : ℕ) (w v : Walk) → SamePlace c w v → PlacedCard c j w → PlacedCard c j v
  moved c j w v = Placed-SamePlace s.skipping net (occurs k c) class k.unique_rank_count c j w v

  passed : (r d c : ℕ) (w : Walk) → d ≢ c → SamePlace c w (visit_card s.skipping net r d w)
  passed r d c w n = visit_card-SamePlace s.skipping net r d c w n

  low_place :
      (j : ℕ) (w : Walk)
      → j < num_hands
      → Walked j w
      → PlacedCard (k.sorted j).low j (after_high j w)
  low_place j w l p =
      let (b, top) = h.cards j l in
      moved (k.sorted j).low j w (after_high j w)
        (passed (class j) (k.sorted j).high (k.sorted j).low w (λ e. omega (arith, e)))
        (p.places (k.sorted j).low (omega arith))

  next_place :
      (j c : ℕ) (w : Walk)
      → j < num_hands
      → c < 52
      → Walked j w
      → PlacedCard c (suc j) (visit_cards k s.skipping net (class j) j w)
  next_place j c w l m p =
      let (b, top) = h.cards j l in
      let last = visit_cards k s.skipping net (class j) j w in
      elim (Bool-cases ((k.sorted j).high == c)) [
        | inl e ↦
            let z : c ≡ (k.sorted j).high = ground arith in
            moved c (suc j) (after_high j w) last
              (passed (class j) (k.sorted j).low c (after_high j w) (λ q. omega (arith, q)))
              (subst (λ x. PlacedCard c (suc j) (visit_card s.skipping net (class j) x w)) z
                (own_place c j w m l (ground arith) (p.places c m)))
        | inr e ↦
            let before : PlacedCard c j (after_high j w) =
              moved c j w (after_high j w)
                (passed (class j) (k.sorted j).high c w (λ q. ground (arith, q))) (p.places c m) in
            elim (Bool-cases ((k.sorted j).low == c)) [
              | inl q ↦
                  let z : c ≡ (k.sorted j).low = ground arith in
                  subst
                    (λ x.
                      PlacedCard c (suc j) (visit_card s.skipping net (class j) x (after_high j w)))
                    z (own_place c j (after_high j w) m l (ground arith) before)
              | inr q ↦
                  moved c (suc j) (after_high j w) last
                    (passed (class j) (k.sorted j).low c (after_high j w) (λ z. ground (arith, z)))
                    (Placed-other s.skipping net (occurs k c) class k.unique_rank_count c j
                      (after_high j w) (ground arith) before)
            ]
      ]

  showdown_value :
      (j : ℕ) (w : Walk)
      → j < num_hands
      → Walked j w
      → showdown_net k s.skipping net (rank_net s (class j)) (class j) j w
        ≡ naive_sum k opp num_hands j
  showdown_value j w l p =
      let (b, top) = h.cards j l in
      let (x, y) = h.off_board j l in
      ap₂ (λ a b. a -ℤ b) (rank_net-base_net h opp s a total (class j))
        (ap₂ (λ a b. a +ℤ b)
          (own_net (k.sorted j).high j w top l (ground arith) x (p.places (k.sorted j).high top))
          (own_net (k.sorted j).low j (after_high j w) (omega arith) l (ground arith) y
            (low_place j w l p)))
      ∙ net-naive_sum h opp j l

  abbrev visit : ℕ → ℕ → Walk → Walk
  visit r j w = visit_hand k s.skipping net mask spent (rank_net s r) r j w

  abbrev naive_until : ℕ → ℕ → ℤ
  naive_until j = set_values mask index naive_value j my

  visit-value :
      (j : ℕ) (w : Walk) (x : ℕ)
      → j < num_hands
      → Walked j w
      → update w.belief
          (index j)
          (showdown_net k s.skipping net (rank_net s (class j)) (class j) j w *ℤ spent)
          x
        ≡ naive_until (suc j) x
  unfolding set_values
  visit-value j w x l p =
      ap₂ (λ v b. if index j == x then v else b) (ap (λ a. a *ℤ spent) (showdown_value j w l p))
        (p.values x)
      ∙ sym (
          ap
            (λ b. (if b then naive_until j else update (naive_until j) (index j) (naive_value j)) x)
            (ap (λ v. v ==ℤ mask) (sym (p.values (index j))) ∙ not_masked j w l p))

  visit_hand-Walked :
      (j : ℕ) (w : Walk) → j < num_hands → Walked j w → Walked (suc j) (visit (class j) j w)
  visit_hand-Walked j w l p = rw (not_masked j w l p) (record {
    places = λ c m.
        moved c (suc j) (visit_cards k s.skipping net (class j) j w)
          (record (visit_cards k s.skipping net (class j) j w) {
            belief =
                update w.belief (index j)
                  (showdown_net k s.skipping net (rank_net s (class j)) (class j) j w *ℤ spent);
          })
          (record { last_skip = refl; last_net = refl }) (next_place j c w l m p);
    values = λ x. visit-value j w x l p;
  })

  abbrev first_walk : Walk
  first_walk = record { last_skip = λ c. 0; last_net = λ c. net (combo_idx 0 c); belief = my }

  first_walk-Walked : Walked 0 first_walk
  unfolding seen set_values
  first_walk-Walked = record {
    places = λ c m. record {
      at_row = sym (
          ap (λ n. n - 1)
            (count_none (seen (occurs k c) class 0) k.unique_rank_count (λ i l. refl)));
      at_net = refl;
    };
    values = λ x. refl;
  }

  pub visit_ranks-naive :
      (x : ℕ)
      → (visit_ranks k mask spent s net k.unique_rank_count first_walk).belief x
        ≡ set_values mask index naive_value num_hands my x
  unfolding visit_ranks visit_rank
  visit_ranks-naive =
      let (p, q) =
        ranks_loop h Walked (λ r w. r ≡ r) visit (λ r w. w)
          (λ r j w u l e q p.
            (subst (λ r. Walked (suc j) (visit r j w)) e (visit_hand-Walked j w l p), refl))
          (λ r w u p q. (p, refl)) k.unique_rank_count first_walk (omega arith) first_walk-Walked
          refl in
      λ x. p.values x ∙ ap (λ n. set_values mask index naive_value n my x) h.ends
