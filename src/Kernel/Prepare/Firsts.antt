-- ===== src/Kernel/Prepare/Firsts.antt =====
-- Where `PreStack` of modules/engine/src/term_eval_kernel.cpp finds that the ranks start.
use bulldog.Prelude.{
  ℕ, zero, suc, ◌+◌, ◌≤◌, ◌<◌, ◌≡◌, ◌≢◌, ◌⊎◌, refl, sym, ap, ◌∙◌, Bool, true, false, ◌==◌, ltb,
  arith, Bool-cases, inl, inr, update, update_self, count, count_none,
}
use bulldog.Kernel.{Kernel}
use bulldog.Kernel.Rows.{seen, seen_sound, seen_complete, count_mono_n}
use bulldog.Kernel.Prepare.{Starts, see_rank, see_ranks, rank_of, class_of, start_of, IsSorted}
use bulldog.Kernel.Prepare.Counts.{count_gap, count_prefix, count_flat}

module _ {k : Kernel} {num_hands bound : ℕ} (h : IsSorted k num_hands bound) where
  abbrev rank : ℕ → ℕ
  rank = rank_of k

  abbrev class : ℕ → ℕ
  class = class_of k num_hands

  abbrev pub is_rank_of : ℕ → Bool
  is_rank_of = seen (λ i. true) (rank_of k) num_hands

  pub own_rank : (j : ℕ) → j < num_hands → is_rank_of (rank_of k j) ≡ true
  own_rank j l = seen_complete (λ i. true) rank num_hands (rank j) j l refl refl

  ranked : (i j : ℕ) → i ≤ j → j < num_hands → rank i ≤ rank j
  ranked i j l m = elim (Bool-cases (i == j)) [
    | inl e ↦ let z : i ≡ j = ground arith in omega (arith, ap rank z)
    | inr e ↦ h.by_rank i j (ground arith) m
  ]

  pub class_mono :
      (i j : ℕ) → i ≤ j → j < num_hands → class_of k num_hands i ≤ class_of k num_hands j
  class_mono i j l m = count_mono_n is_rank_of (rank i) (rank j) (ranked i j l m)

  pub class-first : class_of k num_hands 0 ≡ 0
  unfolding count
  class-first = count_flat is_rank_of 0 (rank 0) (omega arith) (λ r a b. none_lower r b)
    where
      none_lower : (r : ℕ) → r < rank 0 → is_rank_of r ≡ false
      none_lower r b = elim (Bool-cases (is_rank_of r)) [
        | inl e ↦
            let (i, l, _, q) = seen_sound (λ i. true) rank num_hands r e in
            absurd (omega (arith, ranked 0 i (omega arith) l))
        | inr e ↦ e
      ]

  -- The class of the first hand of another rank.
  pub class-suc :
      (i : ℕ)
      → suc i < num_hands
      → rank_of k (suc i) ≢ rank_of k i
      → class_of k num_hands (suc i) ≡ suc (class_of k num_hands i)
  class-suc i l n =
      count_gap is_rank_of (rank i) (rank (suc i)) (omega (arith, h.by_rank i (suc i)))
        (own_rank i (omega arith)) (λ r a b. none_between r a b)
    where
      none_between : (r : ℕ) → rank i < r → r < rank (suc i) → is_rank_of r ≡ false
      none_between r a b = elim (Bool-cases (is_rank_of r)) [
        | inl e ↦
            let (x, m, _, q) = seen_sound (λ i. true) rank num_hands r e in
            elim (side x) [
              | inl u ↦ absurd (omega (arith, ranked x i u (omega arith)))
              | inr u ↦ absurd (omega (arith, ranked (suc i) x u m))
            ]
        | inr e ↦ e
      ]
        where
          side : (x : ℕ) → (x ≤ i) ⊎ (suc i ≤ x)
          side x = ground arith

  start-suc :
      (i : ℕ)
      → suc i < num_hands
      → rank_of k (suc i) ≢ rank_of k i
      → start_of k num_hands (suc (class_of k num_hands i)) ≡ suc i
  start-suc i l n =
      count_prefix (λ x. ltb (class x) (suc (class i))) (suc i) num_hands (omega arith)
        (λ x a. before (class x) (class_mono x i (omega arith) (omega arith)))
        (λ x a b. after (class x) (omega (arith, class_mono (suc i) x a b, class-suc i l n)))
    where
      before : (x : ℕ) → x ≤ class i → ltb x (suc (class i)) ≡ true
      before x a = ground arith

      after : (x : ℕ) → suc (class i) ≤ x → ltb x (suc (class i)) ≡ false
      after x a = ground arith

  -- After hand `j`.
  pub record Found (j : ℕ) (t : Starts) : Type 0 where
    pub last : t.last_seen_rank ≡ rank_of k j
    pub index : t.rank_index ≡ class_of k num_hands j
    pub starts : (r : ℕ) → r ≤ class_of k num_hands j → t.first_equal r ≡ start_of k num_hands r

  first-Found : (fresh : ℕ → ℕ) → Found 0 (see_ranks k.sorted fresh 0)
  unfolding see_ranks
  first-Found fresh = record {
    last = refl;
    index = sym class-first;
    starts = λ r l.
        let z : 0 ≡ r = omega (arith, class-first) in
        ap (update fresh 0 0) (sym z)
        ∙ update_self fresh 0 0
        ∙ sym (start-zero)
        ∙ ap (start_of k num_hands) z;
  }
    where
      start-zero : start_of k num_hands 0 ≡ 0
      start-zero = count_none (λ i. ltb (class i) 0) num_hands (λ i l. none_below (class i))
        where
          none_below : (x : ℕ) → ltb x 0 ≡ false
          none_below x = ground arith

  -- A hand of the rank last seen.
  again-Found :
      (i j : ℕ) (t : Starts)
      → rank_of k j ≡ rank_of k i
      → Found i t
      → Found j (see_rank k.sorted j t)
  again-Found i j t e f =
      let same : ((k.sorted j).rank == t.last_seen_rank) ≡ true = ground (arith, e, f.last) in
      let classes : class j ≡ class i = ap (count is_rank_of) e in
      rw same (record {
        last = f.last ∙ sym e;
        index = f.index ∙ sym classes;
        starts = λ r l. f.starts r (omega (arith, classes));
      })

  new-Found :
      (i : ℕ) (t : Starts)
      → suc i < num_hands
      → rank_of k (suc i) ≢ rank_of k i
      → Found i t
      → Found (suc i) (see_rank k.sorted (suc i) t)
  new-Found i t l n f =
      let other : ((k.sorted (suc i)).rank == t.last_seen_rank) ≡ false =
        ground (arith, n, f.last) in
      let next : t.rank_index + 1 ≡ suc (class i) = omega (arith, f.index) in
      rw other (record {
        last = refl;
        index = next ∙ sym (class-suc i l n);
        starts = λ r u.
            ap (λ x. update t.first_equal x (suc i) r) next
            ∙ elim (Bool-cases (suc (class i) == r)) [
              | inl e ↦
                  let z : suc (class i) ≡ r = ground arith in
                  rw e (sym (start-suc i l n) ∙ ap (start_of k num_hands) z)
              | inr e ↦ rw e (f.starts r (ground (arith, class-suc i l n)))
            ];
      })

  pub see_ranks-Found :
      (fresh : ℕ → ℕ) (i : ℕ) → i < num_hands → Found i (see_ranks k.sorted fresh (suc i))
  unfolding see_ranks
  see_ranks-Found fresh zero l =
      again-Found 0 0 (see_ranks k.sorted fresh 0) refl (first-Found fresh)
  see_ranks-Found fresh (suc i) l =
      let t = see_ranks k.sorted fresh (suc i) in
      let f = see_ranks-Found fresh i (omega arith) in
      elim (Bool-cases (rank (suc i) == rank i)) [
        | inl e ↦ again-Found i (suc i) t (ground arith) f
        | inr e ↦ new-Found i t l (λ q. ground (arith, q)) f
      ]
