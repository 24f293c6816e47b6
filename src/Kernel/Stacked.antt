-- ===== src/Kernel/Stacked.antt =====
-- The lists that the first iteration of `StackShowdownProb` in modules/engine/src/term_eval_kernel.cpp
-- builds, card by card.
use bulldog.Prelude.{
  ℕ, suc, ◌+◌, ◌-◌, ◌≤◌, ◌<◌, ◌≡◌, ◌≢◌, refl, sym, ap, ◌∙◌, Bool, true, false, ◌&&◌, ◌==◌, none,
  some, arith, Bool-cases, inl, inr, update_ne, count, count_congr,
}
use bulldog.Prelude.Int.{ℤ, pos, ◌+ℤ◌, +ℤ_zero, pick, sum}
use bulldog.Kernel.StackEval.{Stack, combo_idx, is_new, open_row, add_row, stack_card}
use bulldog.Kernel.Rows.{seen}

pub combo_inj : (a b c d : ℕ) → c < 52 → d < 52 → combo_idx a c ≡ combo_idx b d → (a ≡ b) × (c ≡ d)
combo_inj a b c d l m e = (omega arith, omega arith)

-- The parts of the lists that belong to card `c` agree.
pub record SameCard (c : ℕ) (s t : Stack) : Type 0 where
  pub steps : t.steps c ≡ s.steps c
  pub skipping : (k : ℕ) → t.skipping (combo_idx k c) ≡ s.skipping (combo_idx k c)
  pub card_rank_sum : (k : ℕ) → t.card_rank_sum k c ≡ s.card_rank_sum k c
  pub card_sum : t.card_sum c ≡ s.card_sum c

pub SameCard-trans : (c : ℕ) (s t u : Stack) → SameCard c s t → SameCard c t u → SameCard c s u
SameCard-trans c s t u e h = record {
  steps = h.steps ∙ e.steps;
  skipping = λ k. h.skipping k ∙ e.skipping k;
  card_rank_sum = λ k. h.card_rank_sum k ∙ e.card_rank_sum k;
  card_sum = h.card_sum ∙ e.card_sum;
}

module _ (r : ℕ) (w : ℤ) (c d : ℕ) (l : c < 52) (m : d < 52) (n : c ≢ d) where
  open_row-SameCard : (s : Stack) → SameCard d s (open_row r c s)
  open_row-SameCard s = elim (Bool-cases (is_new r c s)) [
    | inl e ↦ rw e (record {
      steps = update_ne s.steps c (s.steps c + 1) d n;
      skipping = λ k.
          update_ne s.skipping (combo_idx (s.steps c) c) (some r) (combo_idx k d)
            (λ q. n (combo_inj (s.steps c) k c d l m q).1);
      card_rank_sum = λ k. refl;
      card_sum = refl;
    })
    | inr e ↦
        rw e (record {
          steps = refl;
          skipping = λ k. refl;
          card_rank_sum = λ k. refl;
          card_sum = refl;
        })
  ]

  add_row-SameCard : (s : Stack) → SameCard d s (add_row w c s)
  add_row-SameCard s = record {
    steps = refl;
    skipping = λ k. refl;
    card_rank_sum = λ k. elim (Bool-cases (s.steps c - 1 == k)) [
      | inl e ↦
          let z : s.steps c - 1 ≡ k = ground arith in
          rw e (
            update_ne (s.card_rank_sum (s.steps c - 1)) c (s.card_rank_sum (s.steps c - 1) c +ℤ w) d
              n
            ∙ ap (λ k. s.card_rank_sum k d) z)
      | inr e ↦ rw e refl
    ];
    card_sum = update_ne s.card_sum c (s.card_sum c +ℤ w) d n;
  }

  pub stack_card-SameCard : (s : Stack) → SameCard d s (stack_card r w c s)
  unfolding stack_card
  stack_card-SameCard s =
      SameCard-trans d s (open_row r c s) (add_row w c (open_row r c s)) (open_row-SameCard s)
        (add_row-SameCard (open_row r c s))

module _ (occ : ℕ → Bool) (class : ℕ → ℕ) (opp : ℕ → ℤ) (num_hands ranks : ℕ) where
  -- The row of rank `r`.
  abbrev pub row : ℕ → ℕ
  row r = count (seen occ class num_hands) r

  abbrev pub rank_share : ℕ → ℕ → ℤ
  rank_share r i = pick (occ i && class i == r) (opp i)

  abbrev pub card_share : ℕ → ℤ
  card_share i = pick (occ i) (opp i)

  -- The lists of card `c` after the first `j` hands.
  pub record Listed (c j : ℕ) (s : Stack) : Type 0 where
    pub steps : s.steps c ≡ count (seen occ class j) ranks
    pub rows : (r : ℕ) → seen occ class j r ≡ true → s.skipping (combo_idx (row r) c) ≡ some r
    pub cut : (k : ℕ) → s.steps c ≤ k → s.skipping (combo_idx k c) ≡ none
    pub sums :
        (r : ℕ) → seen occ class j r ≡ true → s.card_rank_sum (row r) c ≡ sum (rank_share r) j
    pub empty : (k : ℕ) → s.steps c ≤ k → s.card_rank_sum k c ≡ pos 0
    pub total : s.card_sum c ≡ sum card_share j

  pub Listed-SameCard : (c j : ℕ) (s t : Stack) → SameCard c s t → Listed c j s → Listed c j t
  Listed-SameCard c j s t e h = record {
    steps = e.steps ∙ h.steps;
    rows = λ r q. e.skipping (row r) ∙ h.rows r q;
    cut = λ k l. e.skipping k ∙ h.cut k (omega (arith, e.steps));
    sums = λ r q. e.card_rank_sum (row r) ∙ h.sums r q;
    empty = λ k l. e.card_rank_sum k ∙ h.empty k (omega (arith, e.steps));
    total = e.card_sum ∙ h.total;
  }

  pub skipped :
      (b : Bool) (j : ℕ) (f : ℕ → ℤ) → b ≡ false → f j ≡ pick b (opp j) → sum f j ≡ sum f (suc j)
  unfolding sum
  skipped b j f e v =
      sym (ap (λ a. sum f j +ℤ a) (v ∙ ap (λ b. pick b (opp j)) e) ∙ +ℤ_zero (sum f j))

  -- A hand without the card.
  pub Listed-other : (c j : ℕ) (s : Stack) → occ j ≡ false → Listed c j s → Listed c (suc j) s
  unfolding seen sum
  Listed-other c j s o h = record {
    steps =
        h.steps
        ∙ count_congr (seen occ class j) (seen occ class (suc j)) ranks (λ r l. ground arith);
    rows = λ r q. h.rows r (ground arith);
    cut = h.cut;
    sums = λ r q.
        h.sums r (ground arith)
        ∙ skipped (occ j && class j == r) j (rank_share r) (ground arith) refl;
    empty = h.empty;
    total = h.total ∙ skipped (occ j) j card_share o refl;
  }
