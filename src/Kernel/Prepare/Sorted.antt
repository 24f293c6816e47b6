-- ===== src/Kernel/Prepare/Sorted.antt =====
-- What `PreStack` of modules/engine/src/term_eval_kernel.cpp leaves, for sorted hands.
use bulldog.Prelude.{
  ℕ, zero, suc, ◌+◌, ◌-◌, ◌≤◌, ◌<◌, ◌≡◌, ◌⊎◌, sym, ap, ◌∙◌, true, false, ◌==◌, ltb, arith,
  Bool-cases, inl, inr, count-le, count_none, count_mono, lt→ltb, ltb→lt,
}
use bulldog.Kernel.{Kernel}
use bulldog.Kernel.Rows.{seen_sound, count_mono_n, count_after, row_inj}
use bulldog.Kernel.Prepared.{IsPrepared}
use bulldog.Kernel.Prepare.{
  see_ranks, losing_ranks, pre_stack, rank_of, class_of, start_of, IsSorted,
}
use bulldog.Kernel.Prepare.Counts.{count_gap, count_prefix, count_flat}
use bulldog.Kernel.Prepare.Firsts.{is_rank_of, own_rank, class_mono, see_ranks-Found}

losing_ranks-next :
    (equal fresh : ℕ → ℕ) (n r : ℕ) → r < n → losing_ranks equal fresh n r ≡ equal (suc r)
unfolding losing_ranks
losing_ranks-next equal fresh zero r l = absurd (omega arith)
losing_ranks-next equal fresh (suc n) r l = elim (Bool-cases (n == r)) [
  | inl e ↦ let z : n + 1 ≡ suc r = ground arith in rw e (ap equal z)
  | inr e ↦ rw e (losing_ranks-next equal fresh n r (ground arith))
]

module _ {k : Kernel} {num_hands bound : ℕ} (h : IsSorted k num_hands bound) where
  abbrev class : ℕ → ℕ
  class = class_of k num_hands

  abbrev start : ℕ → ℕ
  start = start_of k num_hands

  -- The last hand has the last rank.
  last-class : suc (class (num_hands - 1)) ≡ k.unique_rank_count
  last-class = sym (
      h.ranks
      ∙ count_gap (is_rank_of h) (rank_of k (num_hands - 1)) bound
          (h.bounded (num_hands - 1) (omega (arith, h.some_hand)))
          (own_rank h (num_hands - 1) (omega (arith, h.some_hand))) none_higher)
    where
      none_higher : (r : ℕ) → rank_of k (num_hands - 1) < r → r < bound → is_rank_of h r ≡ false
      none_higher r a b = elim (Bool-cases (is_rank_of h r)) [
        | inl e ↦
            let (i, l, _, q) = seen_sound (λ i. true) (rank_of k) num_hands r e in
            elim (Bool-cases (i == num_hands - 1)) [
              | inl z ↦
                  let same : i ≡ num_hands - 1 = ground arith in
                  absurd (omega (arith, ap (rank_of k) same))
              | inr z ↦ absurd (
                  omega (
                    arith,
                    h.by_rank i (num_hands - 1) (ground arith) (omega (arith, h.some_hand)),
                  ))
            ]
        | inr e ↦ e
      ]

  first-start :
      (fresh : ℕ → ℕ) (r : ℕ)
      → r < k.unique_rank_count
      → (see_ranks k.sorted fresh num_hands).first_equal r ≡ start r
  first-start fresh r u =
      let n : suc (num_hands - 1) ≡ num_hands = omega (arith, h.some_hand) in
      ap (λ n. (see_ranks k.sorted fresh n).first_equal r) (sym n)
      ∙ (see_ranks-Found h fresh (num_hands - 1) (omega (arith, h.some_hand))).starts r
          (omega (arith, last-class))

  in_class : (j : ℕ) → j < num_hands → class j < k.unique_rank_count
  in_class j l = omega (
    arith,
    h.ranks,
    count_after (is_rank_of h) (rank_of k j) bound (h.bounded j l) (own_rank h j l),
  )

  start-ends : start k.unique_rank_count ≡ num_hands
  start-ends =
      count_prefix (λ i. ltb (class i) k.unique_rank_count) num_hands num_hands (omega arith)
        (λ i l. lt→ltb (class i) k.unique_rank_count (in_class i l)) (λ i a b. absurd (omega arith))

  losing-start :
      (fresh : ℕ → ℕ) (r : ℕ)
      → r < k.unique_rank_count
      → (pre_stack fresh num_hands k).rank_first_losing r ≡ start (suc r)
  losing-start fresh r u = elim (Bool-cases (k.unique_rank_count - 1 == r)) [
    | inl e ↦
        let z : k.unique_rank_count ≡ suc r = ground arith in rw e (sym start-ends ∙ ap start z)
    | inr e ↦ rw e (
        losing_ranks-next (see_ranks k.sorted fresh num_hands).first_equal fresh
          (k.unique_rank_count - 1) r (ground arith)
        ∙ first-start fresh (suc r) (ground arith))
  ]

  -- Between two starts there are the hands of the rank.
  start-within : (r j : ℕ) → start r ≤ j → j < start (suc r) → (j < num_hands) × (class j ≡ r)
  start-within r j a b =
      let l : j < num_hands = omega (arith, count-le (λ i. ltb (class i) (suc r)) num_hands) in
      (
        l,
        elim (sides (class j)) [
          | inl u ↦ absurd (omega (arith, reaches r j l u))
          | inr (inl u) ↦ absurd (omega (arith, stops (suc r) j l u))
          | inr (inr u) ↦ u
        ],
      )
    where
      sides : (x : ℕ) → (x < r) ⊎ ((r < x) ⊎ (x ≡ r))
      sides x = ground arith

      reaches : (r j : ℕ) → j < num_hands → class j < r → j < start r
      reaches r j l u =
          let t = λ (i : ℕ). ltb (class i) r in
          omega (
            arith,
            count_mono_n t (suc j) num_hands l,
            count_prefix t (suc j) (suc j) (omega arith)
                (λ i m. lt→ltb (class i) r (omega (arith, class_mono h i j (omega arith) l)))
                (λ i m w. absurd (omega arith)),
          )

      past : (x r : ℕ) → r ≤ x → ltb x r ≡ false
      past x r l = ground arith

      stops : (r j : ℕ) → j < num_hands → r ≤ class j → start r ≤ j
      stops r j l u =
          let t = λ (i : ℕ). ltb (class i) r in
          omega (
            arith,
            count_flat t j num_hands (omega arith)
                (λ i a b. past (class i) r (omega (arith, class_mono h j i a b))),
            count-le t j,
          )

  -- PreStack prepares the kernel for hands sorted by rank.
  pub pre_stack-IsPrepared :
      (fresh : ℕ → ℕ)
      → IsPrepared
          (pre_stack fresh num_hands k)
          num_hands
          (class_of k num_hands)
          (start_of k num_hands)
  pre_stack-IsPrepared fresh = record {
    cards = h.cards;
    off_board = h.off_board;
    one_each = h.one_each;
    indices = h.indices;
    in_class = in_class;
    ordered = λ i j a l. class_mono h i j (omega arith) l;
    same_rank = λ i j l m e.
        row_inj (is_rank_of h) (rank_of k i) (rank_of k j) (own_rank h i l) (own_rank h j m) e;
    less_rank = λ i j l m e. elim (Bool-cases (ltb (rank_of k i) (rank_of k j))) [
      | inl q ↦ ltb→lt (rank_of k i) (rank_of k j) q
      | inr q ↦
          absurd
            (omega (arith, count_mono_n (is_rank_of h) (rank_of k j) (rank_of k i) (ground arith)))
    ];
    first_equal = first-start fresh;
    first_losing = losing-start fresh;
    begins = count_none (λ i. ltb (class i) 0) num_hands (λ i l. none_below (class i));
    ends = start-ends;
    grows = λ r u.
        count_mono (λ i. ltb (class i) r) (λ i. ltb (class i) (suc r)) num_hands
          (λ i l e. later (class i) r e);
    within = λ r j u. start-within r j;
    few_rows = h.few_rows;
  }
    where
      none_below : (x : ℕ) → ltb x 0 ≡ false
      none_below x = ground arith

      later : (x r : ℕ) → ltb x r ≡ true → ltb x (suc r) ≡ true
      later x r e = ground arith
