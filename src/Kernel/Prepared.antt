-- ===== src/Kernel/Prepared.antt =====
-- What `TermEvalKernel::Prepare` of modules/engine/src/term_eval_kernel.cpp leaves, and its loops over
-- the ranks and the hands of each.
use mathlib.Core.Path.{subst}
use bulldog.Prelude.{
  ℕ, zero, suc, ◌+◌, ◌-◌, ◌≤◌, ◌<◌, ◌≡◌, sym, Bool, false, ◌||◌, ◌==◌, arith, loop, count,
}
use bulldog.Holdem.{holdem_max_board, card_crash}
use bulldog.Kernel.{Kernel}
use bulldog.Kernel.StackEval.{card_rows}
use bulldog.Kernel.Rows.{seen}

-- Hand `j` holds card `c`.
abbrev pub occurs : Kernel → ℕ → ℕ → Bool
occurs k c j = (k.sorted j).high == c || (k.sorted j).low == c

-- `num_hands` hands that do not meet the board, sorted by rank. `class j` is the place of hand `j`'s
-- rank among the `unique_rank_count` ranks, and `start r` is where the hands of rank `r` start.
pub record IsPrepared (k : Kernel) (num_hands : ℕ) (class start : ℕ → ℕ) : Type 0 where
  pub cards :
      (j : ℕ) → j < num_hands → ((k.sorted j).low < (k.sorted j).high) × ((k.sorted j).high < 52)
  pub off_board :
      (j : ℕ)
      → j < num_hands
      → (card_crash k.board holdem_max_board (k.sorted j).high ≡ false)
        × (card_crash k.board holdem_max_board (k.sorted j).low ≡ false)
  pub one_each :
      (i j : ℕ)
      → i < num_hands
      → j < num_hands
      → (k.sorted i).high ≡ (k.sorted j).high
      → (k.sorted i).low ≡ (k.sorted j).low
      → i ≡ j
  pub indices :
      (i j : ℕ) → i < num_hands → j < num_hands → (k.sorted i).v_idx ≡ (k.sorted j).v_idx → i ≡ j
  pub in_class : (j : ℕ) → j < num_hands → class j < k.unique_rank_count
  pub ordered : (i j : ℕ) → i < j → j < num_hands → class i ≤ class j
  pub same_rank :
      (i j : ℕ)
      → i < num_hands
      → j < num_hands
      → class i ≡ class j
      → (k.sorted i).rank ≡ (k.sorted j).rank
  pub less_rank :
      (i j : ℕ)
      → i < num_hands
      → j < num_hands
      → class i < class j
      → (k.sorted i).rank < (k.sorted j).rank
  pub first_equal : (r : ℕ) → r < k.unique_rank_count → k.rank_first_equal r ≡ start r
  pub first_losing : (r : ℕ) → r < k.unique_rank_count → k.rank_first_losing r ≡ start (suc r)
  pub begins : start 0 ≡ 0
  pub ends : start k.unique_rank_count ≡ num_hands
  pub grows : (r : ℕ) → r < k.unique_rank_count → start r ≤ start (suc r)
  pub within :
      (r j : ℕ)
      → r < k.unique_rank_count
      → start r ≤ j
      → j < start (suc r)
      → (j < num_hands) × (class j ≡ r)
  -- The lists of a card have room for its ranks, and for the cutoff after the last.
  pub few_rows :
      (c : ℕ) → c < 52 → count (seen (occurs k c) class num_hands) k.unique_rank_count < card_rows

-- The loops over all hands of all ranks.
module _ {k : Kernel} {num_hands : ℕ} {class start : ℕ → ℕ} (h : IsPrepared k num_hands class start)
    {S : Type 0} (P : ℕ → S → Type 0) (Q : ℕ → S → Type 0) (hand : ℕ → ℕ → S → S)
    (close : ℕ → S → S)
    (keep : (r j : ℕ) (s : S)
      → r < k.unique_rank_count
      → j < num_hands
      → class j ≡ r
      → Q r s
      → P j s
      → P (suc j) (hand r j s) × Q r (hand r j s))
    (closed : (r : ℕ) (s : S)
      → r < k.unique_rank_count
      → P (start (suc r)) s
      → Q r s
      → P (start (suc r)) (close r s) × Q (suc r) (close r s)) where
  abbrev hands_of : ℕ → ℕ → S → S
  hands_of r n s = loop n (λ d. hand r (k.rank_first_equal r + d)) s

  abbrev width_of : ℕ → ℕ
  width_of r = k.rank_first_losing r - k.rank_first_equal r

  abbrev ranks_of : ℕ → S → S
  ranks_of n s = loop n (λ r s. close r (hands_of r (width_of r) s)) s

  hands_loop :
      (r n : ℕ) (s : S)
      → r < k.unique_rank_count
      → start r + n ≤ start (suc r)
      → P (start r) s
      → Q r s
      → P (start r + n) (hands_of r n s) × Q r (hands_of r n s)
  hands_loop r zero s u l p q = (subst (λ j. P j s) (omega arith) p, q)
  hands_loop r (suc n) s u l p q =
      let (p', q') = hands_loop r n s u (omega arith) p q in
      let (at, is) = h.within r (start r + n) u (omega arith) (omega arith) in
      let (p'', q'') = keep r (start r + n) (hands_of r n s) u at is q' p' in
      let place : start r + n ≡ k.rank_first_equal r + n = omega (arith, h.first_equal r u) in
      (
        subst (λ j. P (start r + suc n) (hand r j (hands_of r n s))) place
            (subst (λ j. P j (hand r (start r + n) (hands_of r n s))) (omega arith) p''),
        subst (λ j. Q r (hand r j (hands_of r n s))) place q'',
      )

  pub ranks_loop :
      (n : ℕ) (s : S)
      → n ≤ k.unique_rank_count
      → P 0 s
      → Q 0 s
      → P (start n) (ranks_of n s) × Q n (ranks_of n s)
  ranks_loop zero s l p q = (subst (λ j. P j s) (sym h.begins) p, q)
  ranks_loop (suc n) s l p q =
      let (p', q') = ranks_loop n s (omega arith) p q in
      let width : start n + width_of n ≡ start (suc n) =
        omega (arith, h.first_equal n l, h.first_losing n l, h.grows n l) in
      let (p'', q'') = hands_loop n (width_of n) (ranks_of n s) l (omega (arith, width)) p' q' in
      closed n (hands_of n (width_of n) (ranks_of n s)) l
        (subst (λ j. P j (hands_of n (width_of n) (ranks_of n s))) width p'') q''
