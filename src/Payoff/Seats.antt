-- ===== src/Payoff/Seats.antt =====
-- The list of players of `valueOfState` in modules/core/src/game.c, and the place of each in it.
use mathlib.Core.Path.{ap₂, subst}
use native.Mathlib.Nat.{zero-add}
use bulldog.Prelude.{
  ℕ, zero, suc, ◌+◌, ◌-◌, ◌*◌, ◌≤◌, ◌<◌, ◌≡◌, ◌≢◌, refl, sym, ap, ◌∙◌, true, false, Option, none,
  some, List, ◌∷◌, ltb, ◌==◌, if◌then◌else◌, arith, Bool-cases, Option-cases, inl, inr,
}
use bulldog.Game.{undefined_card, Game, State}
use bulldog.Betting.{num_folded}
use bulldog.Payoff.{
  int32_max, Entry, later_index, count_entries, rank_at, rank_of, entries, index_of,
}
use bulldog.Payoff.Pots.{sum_below, sum_congr, at_index, at-later_index}
use bulldog.Payoff.Loop.{chips_at}

module _ (rank_hand : State → ℕ → ℕ) (g : Game) (s : State) where
  abbrev pub listed : ℕ → ℕ → List Entry
  listed = entries rank_hand g s

  abbrev pub index : ℕ → ℕ → ℕ → Option ℕ
  index = index_of rank_hand g s

  -- One player of the list: out with nothing at stake, or first in it.
  index-before : (k p q : ℕ) → q < p → index k p q ≡ none
  unfolding index_of
  index-before zero p q l = refl
  index-before (suc k) p q l = ground (arith, index-before k (suc p) q)

  index_self : (k p : ℕ) → index (suc k) p p ≡ (if s.spent p == 0 then none else some 0)
  unfolding index_of
  index_self k p = ground (arith, index-before k (suc p) p)

  index-later :
      (k p q : ℕ)
      → p < q
      → index (suc k) p q
        ≡ (if s.spent p == 0 then index k (suc p) q else later_index (index k (suc p) q))
  unfolding index_of
  index-later k p q l = ground arith

  self-out : (k p : ℕ) → (s.spent p == 0) ≡ true → index (suc k) p p ≡ none
  self-out k p z = ground (arith, index_self k p)

  self-in : (k p : ℕ) → (s.spent p == 0) ≡ false → index (suc k) p p ≡ some 0
  self-in k p z = ground (arith, index_self k p)

  later-out :
      (k p i : ℕ)
      → (s.spent p == 0) ≡ true
      → index (suc k) p (p + suc i) ≡ index k (suc p) (suc p + i)
  later-out k p i z =
      let shift : p + suc i ≡ suc p + i = omega arith in
      ground (arith, index-later k p (p + suc i), ap (index k (suc p)) shift)

  later-in :
      (k p i : ℕ)
      → (s.spent p == 0) ≡ false
      → index (suc k) p (p + suc i) ≡ later_index (index k (suc p) (suc p + i))
  later-in k p i z =
      let shift : p + suc i ≡ suc p + i = omega arith in
      ground (arith, index-later k p (p + suc i), ap (λ x. later_index (index k (suc p) x)) shift)

  pub listed-out : (k p : ℕ) → (s.spent p == 0) ≡ true → listed (suc k) p ≡ listed k (suc p)
  unfolding entries
  listed-out k p z = rw z

  pub listed-in :
      (k p : ℕ)
      → (s.spent p == 0) ≡ false
      → listed (suc k) p
        ≡ (record { chips = s.spent p; rank = rank_of rank_hand g s p }) ∷ listed k (suc p)
  unfolding entries
  listed-in k p z = rw z

  -- The players with something at stake are those with a place in the list.
  pub sum-players :
      (f : ℕ → ℕ) (k p : ℕ)
      → sum_below (λ i. at_index f (index k p (p + i))) k ≡ sum_below f (count_entries (listed k p))
  unfolding sum_below
  sum-players f zero p = unfold entries in refl
  sum-players f (suc k) p = elim (Bool-cases (s.spent p == 0)) [
    | inl z ↦
        ap₂ ◌+◌ (ap (at_index f) (ap (index (suc k) p) add-zero_eq ∙ self-out k p z)) (
          sum_congr _ (λ i. at_index f (index k (suc p) (suc p + i))) k
            (λ i l. ap (at_index f) (later-out k p i z)))
        ∙ zero-add _
        ∙ sum-players f k (suc p)
        ∙ sym (ap (λ l. sum_below f (count_entries l)) (listed-out k p z))
    | inr z ↦
        ap₂ ◌+◌ (ap (at_index f) (ap (index (suc k) p) add-zero_eq ∙ self-in k p z)) (
          sum_congr _ (λ i. at_index (λ j. f (suc j)) (index k (suc p) (suc p + i))) k
            (λ i l.
              ap (at_index f) (later-in k p i z) ∙ at-later_index f (index k (suc p) (suc p + i))))
        ∙ ap (λ x. f 0 + x) (sum-players (λ j. f (suc j)) k (suc p))
        ∙ sym (ap (λ l. sum_below f (count_entries l)) (listed-in k p z))
  ]
    where
      add-zero_eq : p + 0 ≡ p
      add-zero_eq = omega arith

  -- The entry of a player in the list.
  pub record Listed (k p q j : ℕ) : Type 0 where
    pub in_list : j < count_entries (listed k p)
    pub its_rank : rank_at (listed k p) j ≡ rank_of rank_hand g s q
    pub its_chips : chips_at (listed k p) j ≡ s.spent q

  pub index-Listed : (k p q j : ℕ) → p ≤ q → index k p q ≡ some j → Listed k p q j
  unfolding entries index_of
  index-Listed zero p q j l e = cc
  index-Listed (suc k) p q j l e = elim (Bool-cases (s.spent p == 0)) [
    | inl z ↦ elim (Bool-cases (ltb p q)) [
      | inl b ↦
          let h : Listed k (suc p) q j =
            index-Listed k (suc p) q j (ground arith) (ground (arith, index-later k p q)) in
          record {
            in_list = rw z h.in_list;
            its_rank = rw z h.its_rank;
            its_chips = rw z h.its_chips;
          }
      | inr b ↦ absurd (ground (arith, index-before k (suc p) q))
    ]
    | inr z ↦ elim (Bool-cases (ltb p q)) [
      | inl b ↦ elim (Option-cases (index k (suc p) q)) [
        | inl n ↦ absurd (ground (arith, index-later k p q))
        | inr (i, n) ↦
            let h : Listed k (suc p) q i = index-Listed k (suc p) q i (ground arith) n in
            let ij : j ≡ suc i = ground (arith, index-later k p q) in
            subst (Listed (suc k) p q) (sym ij) (record {
              in_list = rw z (omega (arith, h.in_list));
              its_rank = rw z h.its_rank;
              its_chips = rw z h.its_chips;
            })
      ]
      | inr b ↦
          let pq : p ≡ q = ground arith in
          let ij : 0 ≡ j = ground (arith, index_self k p) in
          subst (Listed (suc k) p q) ij (record {
            in_list = rw z (omega arith);
            its_rank = rw z (ap (rank_of rank_hand g s) pq);
            its_chips = rw z (ap s.spent pq);
          })
    ]
  ]

  pub index-none : (k p q : ℕ) → p ≤ q → q < p + k → index k p q ≡ none → s.spent q ≡ 0
  unfolding index_of
  index-none zero p q l u e = absurd (omega arith)
  index-none (suc k) p q l u e = elim (Bool-cases (ltb p q)) [
    | inl b ↦
        index-none k (suc p) q (ground arith) (omega arith) (ground (arith, index-later k p q))
    | inr b ↦ ground (arith, index_self k p)
  ]

-- A showdown of valid size: some players contest the pot, each of them has put in chips, no product
-- of `int32_t` overflows, and someone who has put in most shows a hand.
pub record Showdown (g : Game) (s : State) : Type 0 where
  pub few : g.num_players ≤ 10
  pub contested : num_folded g s + 1 ≢ g.num_players
  pub int32 : (p : ℕ) → p < g.num_players → 10 * s.spent p ≤ int32_max
  pub stakes : (p : ℕ) → p < g.num_players → s.player_folded p ≡ false → 0 < s.spent p
  pub two : ℕ × ℕ
  pub two_in : (two.0 < two.1) × (two.1 < g.num_players)
  pub two_paid : (0 < s.spent two.0) × (0 < s.spent two.1)
  pub top : ℕ
  pub top_in : top < g.num_players
  pub top_most : (p : ℕ) → p < g.num_players → s.spent p ≤ s.spent top
  pub top_open : s.player_folded top ≡ false
  pub top_shows : s.hole_cards top (g.num_hole_cards - 1) ≢ undefined_card
