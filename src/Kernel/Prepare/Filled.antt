-- ===== src/Kernel/Prepare/Filled.antt =====
-- The hands that `Prepare` of modules/engine/src/term_eval_kernel.cpp collects.
use mathlib.Core.Path.{subst}
use bulldog.Prelude.{
  ℕ, zero, suc, ◌+◌, ◌-◌, ◌≤◌, ◌<◌, ◌≡◌, ◌⊎◌, refl, sym, ap, ◌∙◌, true, false, ◌==◌, arith,
  Bool-cases, inl, inr, [], some, ◌>>=◌, update, update_self, update_ne,
}
use bulldog.Holdem.{holdem_max_cards, hand_crash, to_vector_index}
use bulldog.Holdem.Index.{from_vector_index-to_vector_index}
use bulldog.Cards.Valid.{insert}
use bulldog.Kernel.{Ranked}
use bulldog.Kernel.Prepare.{Filling, add_hand, add_low, add_lows}
use bulldog.Kernel.Prepare.Ranks.{IsRankSet, nil-IsRankSet, insert-IsRankSet, seen_congr}

-- Whether a hand is collected before another.
abbrev pub Earlier : Ranked → Ranked → Type 0
Earlier a b = (a.low < b.low) ⊎ ((a.low ≡ b.low) × (a.high < b.high))

module _ (board : ℕ → ℕ) (rank_hand : ℕ → ℕ → ℕ) (bound : ℕ)
    (bounded : (high low : ℕ) → rank_hand high low < bound) where
  pub record IsHand (a : Ranked) : Type 0 where
    pub cards : (a.low < a.high) × (a.high < 52)
    pub off_board : hand_crash board a.high a.low ≡ false
    pub index : to_vector_index a.high a.low ≡ some a.v_idx
    pub in_bound : a.rank < bound

  abbrev hand_ranks : Filling → ℕ → ℕ
  hand_ranks t i = (t.hands i).rank

  -- All low cards below `low` are done, and `d` high cards with `low`.
  pub record Filled (low d : ℕ) (t : Filling) : Type 0 where
    pub each : (i : ℕ) → i < t.index → IsHand (t.hands i)
    pub apart : (i i' : ℕ) → i < i' → i' < t.index → Earlier (t.hands i) (t.hands i')
    pub before :
        (i : ℕ)
        → i < t.index
        → ((t.hands i).low < low) ⊎ (((t.hands i).low ≡ low) × ((t.hands i).high < low + 1 + d))
    pub set : IsRankSet (λ i. (t.hands i).rank) t.index bound t.rank_set

  skip-Filled :
      (low d low' d' : ℕ) (t : Filling)
      → ((a b : ℕ)
          → (a < low) ⊎ ((a ≡ low) × (b < low + 1 + d))
          → (a < low') ⊎ ((a ≡ low') × (b < low' + 1 + d')))
      → Filled low d t
      → Filled low' d' t
  skip-Filled low d low' d' t w f = record {
    each = f.each;
    apart = f.apart;
    before = λ i l. w (t.hands i).low (t.hands i).high (f.before i l);
    set = f.set;
  }

  abbrev added : Ranked → Filling → Filling
  added x t = record {
    hands = update t.hands t.index x;
    index = t.index + 1;
    rank_set = insert x.rank t.rank_set;
  }

  wider :
      (low d a b : ℕ)
      → (a < low) ⊎ ((a ≡ low) × (b < low + 1 + d))
      → (a < low) ⊎ ((a ≡ low) × (b < low + 1 + suc d))
  wider low d a b (inl l) = inl l
  wider low d a b (inr (e, l)) = inr (e, omega arith)

  added-IsRankSet :
      (x : Ranked) (t : Filling)
      → x.rank < bound
      → IsRankSet (hand_ranks t) t.index bound t.rank_set
      → IsRankSet (hand_ranks (added x t)) (t.index + 1) bound (insert x.rank t.rank_set)
  added-IsRankSet x t l s =
      let own : hand_ranks (added x t) t.index ≡ x.rank =
        ap (λ a. a.rank) (update_self t.hands t.index x) in
      let next : suc t.index ≡ t.index + 1 = omega arith in
      let old : IsRankSet (hand_ranks (added x t)) t.index bound t.rank_set = record {
        members = λ r.
            s.members r
            ∙ seen_congr (λ i. true) (hand_ranks t) (hand_ranks (added x t)) t.index r
                (λ i a. sym (ap (λ a. a.rank) (update_ne t.hands t.index x i (λ e. omega arith))));
        size = s.size;
      } in
      subst (λ m. IsRankSet (hand_ranks (added x t)) m bound (insert x.rank t.rank_set)) next
        (subst (λ c. IsRankSet (hand_ranks (added x t)) (suc t.index) bound (insert c t.rank_set))
          own
          (insert-IsRankSet (hand_ranks (added x t)) t.index bound t.rank_set (omega (arith, own))
            old))

  added-Filled :
      (low d : ℕ) (x : Ranked) (t : Filling)
      → x.low ≡ low
      → x.high ≡ low + 1 + d
      → IsHand x
      → Filled low d t
      → Filled low (suc d) (added x t)
  added-Filled low d x t el eh hx f = record {
    each = λ i l. elim (Bool-cases (t.index == i)) [
      | inl e ↦ rw e hx
      | inr e ↦ rw e (f.each i (ground arith))
    ];
    apart = λ i i' a l. elim (Bool-cases (t.index == i')) [
      | inl e ↦
          let n : (t.index == i) ≡ false = ground arith in rw (e, n) (earlier i (ground arith))
      | inr e ↦
          let n : (t.index == i) ≡ false = ground arith in rw (e, n) (f.apart i i' a (ground arith))
    ];
    before = λ i l. elim (Bool-cases (t.index == i)) [
      | inl e ↦ rw e (inr (el, omega arith))
      | inr e ↦ rw e (wider low d (t.hands i).low (t.hands i).high (f.before i (ground arith)))
    ];
    set = added-IsRankSet x t hx.in_bound f.set;
  }
    where
      earlier : (i : ℕ) → i < t.index → Earlier (t.hands i) x
      earlier i l = elim (f.before i l) [
        | inl a ↦ inl (omega arith)
        | inr (a, b) ↦ inr (a ∙ sym el, omega arith)
      ]

  add_hand-Filled :
      (low d : ℕ) (t : Filling)
      → low + 1 + d < 52
      → Filled low d t
      → (t' : Filling) × (add_hand board rank_hand low (low + 1 + d) t ≡ some t')
        × Filled low (suc d) t'
  add_hand-Filled low d t l f = elim (Bool-cases (hand_crash board (low + 1 + d) low)) [
    | inl e ↦ (t, rw e refl, skip-Filled low d low (suc d) t (wider low d) f)
    | inr e ↦
        let (v, q, _, _, _) = from_vector_index-to_vector_index (low + 1 + d) low (omega arith) l in
        let x : Ranked = record {
          high = low + 1 + d;
          low = low;
          rank = rank_hand (low + 1 + d) low;
          v_idx = v;
        } in
        (
          added x t,
          rw (e, q) refl,
          added-Filled low d x t refl refl
              (record {
                cards = (omega arith, l);
                off_board = e;
                index = q;
                in_bound = bounded (low + 1 + d) low;
              })
              f,
        )
  ]

  add_low-Filled :
      (low n : ℕ) (t : Filling)
      → low + 1 + n ≤ 52
      → Filled low 0 t
      → (t' : Filling) × (add_low board rank_hand low n t ≡ some t') × Filled low n t'
  unfolding add_low
  add_low-Filled low zero t l f = (t, refl, f)
  add_low-Filled low (suc n) t l f =
      let (t', e, f') = add_low-Filled low n t (omega arith) f in
      let (t'', e', f'') = add_hand-Filled low n t' (omega arith) f' in
      (t'', ap (λ o. o >>= λ t. add_hand board rank_hand low (low + 1 + n) t) e ∙ e', f'')

  pub add_lows-Filled :
      (blank : ℕ → Ranked) (n : ℕ)
      → n ≤ 51
      → (t : Filling) × (add_lows board rank_hand blank n ≡ some t) × Filled n 0 t
  unfolding add_lows
  add_lows-Filled blank zero l = (
    record { hands = blank; index = 0; rank_set = [] },
    refl,
    record {
      each = λ i l. absurd (omega arith);
      apart = λ i i' a l. absurd (omega arith);
      before = λ i l. absurd (omega arith);
      set = nil-IsRankSet (λ i. (blank i).rank) bound;
    },
  )
  add_lows-Filled blank (suc n) l =
      let (t, e, f) = add_lows-Filled blank n (omega arith) in
      let (t', e', f') = add_low-Filled n (holdem_max_cards - (n + 1)) t (omega arith) f in
      (
        t',
        ap (λ o. o >>= λ t. add_low board rank_hand n (holdem_max_cards - (n + 1)) t) e ∙ e',
        skip-Filled n (holdem_max_cards - (n + 1)) (suc n) 0 t' (λ a b w. inl (next a b w)) f',
      )
    where
      next :
          (a b : ℕ) → (a < n) ⊎ ((a ≡ n) × (b < n + 1 + (holdem_max_cards - (n + 1)))) → a < suc n
      next a b (inl l) = omega arith
      next a b (inr (e, l)) = omega arith
