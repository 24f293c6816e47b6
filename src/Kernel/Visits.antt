-- ===== src/Kernel/Visits.antt =====
-- The walk of `FastShowdownEval` in modules/engine/src/term_eval_kernel.cpp over the hands, card by card.
use bulldog.Prelude.{
  ℕ, suc, ◌+◌, ◌-◌, ◌≤◌, ◌<◌, ◌≡◌, ◌≢◌, ◌⊎◌, refl, sym, ap, ◌∙◌, Bool, true, false, ◌==◌, Option,
  some, arith, Bool-cases, inl, inr, bit, update_self, update_ne, count, count_congr,
}
use bulldog.Prelude.Int.{ℤ}
use bulldog.Kernel.StackEval.{combo_idx, is_rank}
use bulldog.Kernel.ShowdownEval.{Walk, visit_card}
use bulldog.Kernel.Rows.{seen, seen-count}
use bulldog.Kernel.NextHand.{own_seen, count-own, row-before}

-- The parts of the walk that belong to card `c` agree.
pub record SamePlace (c : ℕ) (w v : Walk) : Type 0 where
  pub last_skip : v.last_skip c ≡ w.last_skip c
  pub last_net : v.last_net c ≡ w.last_net c

module _ (skipping : ℕ → Option ℕ) (net : ℕ → ℤ) where
  pub visit_card-SamePlace :
      (r c d : ℕ) (w : Walk) → c ≢ d → SamePlace d w (visit_card skipping net r c w)
  unfolding visit_card
  visit_card-SamePlace r c d w n =
      elim (Bool-cases (is_rank r (skipping (combo_idx (w.last_skip c) c)))) [
        | inl e ↦ rw e (record { last_skip = refl; last_net = refl })
        | inr e ↦ rw e (record {
          last_skip = update_ne w.last_skip c (w.last_skip c + 1) d n;
          last_net = update_ne w.last_net c (net (combo_idx (w.last_skip c + 1) c)) d n;
        })
      ]

  pub visit_card-belief : (r c : ℕ) (w : Walk) → (visit_card skipping net r c w).belief ≡ w.belief
  unfolding visit_card
  visit_card-belief r c w = elim (Bool-cases (is_rank r (skipping (combo_idx (w.last_skip c) c)))) [
    | inl e ↦ rw e refl
    | inr e ↦ rw e refl
  ]

  module _ (occ : ℕ → Bool) (class : ℕ → ℕ) (ranks c : ℕ) where
    -- Where the card stands after the first `j` hands.
    pub record Placed (j : ℕ) (w : Walk) : Type 0 where
      pub at_row : w.last_skip c ≡ count (seen occ class j) ranks - 1
      pub at_net : w.last_net c ≡ net (combo_idx (w.last_skip c) c)

    pub Placed-SamePlace : (j : ℕ) (w v : Walk) → SamePlace c w v → Placed j w → Placed j v
    Placed-SamePlace j w v e p = record {
      at_row = e.last_skip ∙ p.at_row;
      at_net = e.last_net ∙ p.at_net ∙ ap (λ i. net (combo_idx i c)) (sym e.last_skip);
    }

    pub Placed-other : (j : ℕ) (w : Walk) → occ j ≡ false → Placed j w → Placed (suc j) w
    unfolding seen
    Placed-other j w o p = record {
      at_row =
          p.at_row
          ∙ ap (λ n. n - 1)
              (count_congr (seen occ class j) (seen occ class (suc j)) ranks (λ r l. ground arith));
      at_net = p.at_net;
    }

    module _ (num_hands : ℕ) (ordered : (i i' : ℕ) → i < i' → i' < num_hands → class i ≤ class i')
        (rows : (r : ℕ)
          → seen occ class num_hands r ≡ true
          → skipping (combo_idx (count (seen occ class num_hands) r) c) ≡ some r)
        (j : ℕ) (w : Walk) (l : j < num_hands) (o : occ j ≡ true) (u : class j < ranks)
        (p : Placed j w) where
      abbrev own_row : ℕ
      own_row = count (seen occ class num_hands) (class j)

      abbrev stays : Bool
      stays = is_rank (class j) (skipping (combo_idx (w.last_skip c) c))

      stays-at : w.last_skip c ≡ own_row → stays ≡ true
      stays-at e =
          ap (λ i. is_rank (class j) (skipping (combo_idx i c))) e
          ∙ ap (is_rank (class j)) (rows (class j) (own_seen occ class num_hands ordered j l o))
          ∙ same (class j)
        where
          same : (r : ℕ) → (r == r) ≡ true
          same r = ground arith

      counted : w.last_skip c ≡ own_row + bit (seen occ class j (class j)) - 1
      counted = p.at_row ∙ ap (λ n. n - 1) (seen-count occ class num_hands j l ordered ranks u)

      -- The card stands on the rank's row, or on the row before.
      near : (w.last_skip c ≡ own_row) ⊎ ((w.last_skip c + 1 ≡ own_row) × (stays ≡ false))
      near = elim (Bool-cases (seen occ class j (class j))) [
        | inl e ↦ inl (ground (arith, counted, e))
        | inr e ↦ elim (Bool-cases (own_row == 0)) [
          | inl z ↦ inl (ground (arith, counted, e, z))
          | inr z ↦
              let here : own_row ≡ suc (own_row - 1) = ground arith in
              let back : w.last_skip c ≡ own_row - 1 = ground (arith, counted, e) in
              let (q, a, b, _, d) =
                row-before occ class num_hands ordered j l o (own_row - 1) here in
              inr (
                omega arith,
                ap (λ i. is_rank (class j) (skipping (combo_idx i c))) (back ∙ sym d)
                    ∙ ap (is_rank (class j)) (rows q b)
                    ∙ apart q a,
              )
        ]
      ]
        where
          apart : (q : ℕ) → q < class j → (q == class j) ≡ false
          apart q a = ground arith

      arrived-row : (visit_card skipping net (class j) c w).last_skip c ≡ own_row
      unfolding visit_card
      arrived-row = elim near [
        | inl e ↦ rw (stays-at e) e
        | inr (e, n) ↦ rw n (update_self w.last_skip c (w.last_skip c + 1) ∙ e)
      ]

      arrived-net :
          (visit_card skipping net (class j) c w).last_net c
          ≡ net (combo_idx ((visit_card skipping net (class j) c w).last_skip c) c)
      unfolding visit_card
      arrived-net = elim near [
        | inl e ↦ rw (stays-at e) p.at_net
        | inr (e, n) ↦ rw n (
            update_self w.last_net c (net (combo_idx (w.last_skip c + 1) c))
            ∙ ap (λ i. net (combo_idx i c)) (sym (update_self w.last_skip c (w.last_skip c + 1))))
      ]

      pub visit_card-Placed : Placed (suc j) (visit_card skipping net (class j) c w)
      visit_card-Placed = record {
        at_row = arrived-row ∙ less_one (count-own occ class num_hands ordered j l o ranks u);
        at_net = arrived-net;
      }
        where
          less_one : {m n : ℕ} → m ≡ suc n → n ≡ m - 1
          less_one e = omega arith

      pub visit_card-net :
          (visit_card skipping net (class j) c w).last_net c ≡ net (combo_idx own_row c)
      visit_card-net = arrived-net ∙ ap (λ i. net (combo_idx i c)) arrived-row
