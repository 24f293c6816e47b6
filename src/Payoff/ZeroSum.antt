-- ===== src/Payoff/ZeroSum.antt =====
-- `valueOfState` of modules/core/src/game.c over all players of a showdown: it returns for each of
-- them, and the values cancel.
use mathlib.Core.Path.{subst}
use native.Mathlib.Nat.{zero-add}
use bulldog.Prelude.{
  ℕ, zero, suc, ◌+◌, ◌-◌, ◌≤◌, ◌<◌, ◌≡◌, ◌≢◌, sym, ap, ◌∙◌, true, false, Option, none, some, List,
  ◌==◌, arith, Bool-cases, Option-cases, inl, inr,
}
use bulldog.Game.{undefined_card, Game, State}
use bulldog.Payoff.{int32_max, Entry, Value, count_entries, rank_of, entries, value_of_state}
use bulldog.Payoff.Pots.{sum_below, sum_congr, at_index}
use bulldog.Payoff.Shares.{AtMost, HasTop, Shown}
use bulldog.Payoff.Balance.{won_of, lost_of, balance}
use bulldog.Payoff.Loop.{chips_at, side_pots-eq, unshown_loses}
use bulldog.Payoff.Seats.{
  listed, index, listed-out, listed-in, Listed, index-Listed, index-none, sum-players, Showdown,
}

module _ (rank_hand : State → ℕ → ℕ) (g : Game) (s : State) where
  abbrev table : ℕ → ℕ → List Entry
  table = listed rank_hand g s

  table-AtMost : (m k p : ℕ) → ((q : ℕ) → q < p + k → s.spent q ≤ m) → AtMost m (table k p)
  table-AtMost m zero p h = unfold entries in tt
  table-AtMost m (suc k) p h =
      let rest : AtMost m (table k (suc p)) = table-AtMost m k (suc p) (λ q l. h q (omega arith)) in
      elim (Bool-cases (s.spent p == 0)) [
        | inl z ↦ rw (listed-out rank_hand g s k p z) rest
        | inr z ↦ rw (listed-in rank_hand g s k p z) (h p (omega arith), rest)
      ]

  table-HasTop :
      (top k p : ℕ)
      → p ≤ top
      → top < p + k
      → 0 < s.spent top
      → Shown (rank_of rank_hand g s top)
      → HasTop (s.spent top) (table k p)
  table-HasTop top zero p l u paid shown = absurd (omega arith)
  table-HasTop top (suc k) p l u paid shown = elim (Bool-cases (p == top)) [
    | inl e ↦
        let pt : p ≡ top = ground arith in
        rw (listed-in rank_hand g s k p (ground arith))
          (inl (ap s.spent pt, subst (λ q. Shown (rank_of rank_hand g s q)) (sym pt) shown))
    | inr e ↦ elim (Bool-cases (s.spent p == 0)) [
      | inl z ↦
          rw (listed-out rank_hand g s k p z)
            (table-HasTop top k (suc p) (ground arith) (omega arith) paid shown)
      | inr z ↦
          rw (listed-in rank_hand g s k p z)
            (inr (table-HasTop top k (suc p) (ground arith) (omega arith) paid shown))
    ]
  ]

  table-le : (k p : ℕ) → count_entries (table k p) ≤ k
  table-le zero p = unfold entries in (omega arith)
  table-le (suc k) p = elim (Bool-cases (s.spent p == 0)) [
    | inl z ↦ rw (listed-out rank_hand g s k p z) (omega (arith, table-le k (suc p)))
    | inr z ↦ rw (listed-in rank_hand g s k p z) (omega (arith, table-le k (suc p)))
  ]

  table-one : (q k p : ℕ) → p ≤ q → q < p + k → 0 < s.spent q → 1 ≤ count_entries (table k p)
  table-one q zero p l u paid = absurd (omega arith)
  table-one q (suc k) p l u paid = elim (Bool-cases (s.spent p == 0)) [
    | inl z ↦
        rw (listed-out rank_hand g s k p z) (table-one q k (suc p) (past z) (omega arith) paid)
    | inr z ↦ rw (listed-in rank_hand g s k p z) (omega arith)
  ]
    where
      past : (s.spent p == 0) ≡ true → suc p ≤ q
      past z = ground arith

  table-two :
      (q r k p : ℕ)
      → p ≤ q
      → q < r
      → r < p + k
      → 0 < s.spent q
      → 0 < s.spent r
      → 2 ≤ count_entries (table k p)
  table-two q r zero p l m u paid paid' = absurd (omega arith)
  table-two q r (suc k) p l m u paid paid' = elim (Bool-cases (s.spent p == 0)) [
    | inl z ↦
        rw (listed-out rank_hand g s k p z)
          (table-two q r k (suc p) (past z) m (omega arith) paid paid')
    | inr z ↦
        rw (listed-in rank_hand g s k p z)
          (omega (arith, table-one r k (suc p) (omega arith) (omega arith) paid'))
  ]
    where
      past : (s.spent p == 0) ≡ true → suc p ≤ q
      past z = ground arith

  rank_of-folded : (p : ℕ) → s.player_folded p ≡ true → rank_of rank_hand g s p ≡ none
  unfolding rank_of
  rank_of-folded p f = ground arith

  rank_of-Shown :
      (p : ℕ)
      → s.player_folded p ≡ false
      → s.hole_cards p (g.num_hole_cards - 1) ≢ undefined_card
      → Shown (rank_of rank_hand g s p)
  unfolding rank_of
  rank_of-Shown p f n =
      let shut : (s.hole_cards p (g.num_hole_cards - 1) == undefined_card) ≡ false = ground arith in
      rw (f, shut) tt

  -- What all the side pots of a showdown give to player `p`, and take.
  abbrev players : List Entry
  players = table g.num_players 0

  abbrev seat_of : ℕ → Option ℕ
  seat_of = index rank_hand g s g.num_players 0

  abbrev total_won : ℕ → ℕ
  total_won p = at_index (won_of (count_entries players) players) (seat_of p)

  abbrev total_lost : ℕ → ℕ
  total_lost p = at_index (lost_of (count_entries players) players) (seat_of p)

  module _ (sd : Showdown g s) where
    most : AtMost int32_max players
    most = table-AtMost int32_max g.num_players 0 (λ q l. omega (arith, sd.int32 q (omega arith)))

    value-folded :
        (p : ℕ)
        → p < g.num_players
        → s.player_folded p ≡ true
        → value_of_state rank_hand g s p ≡ some (record { won = total_won p; lost = total_lost p })
    unfolding value_of_state
    value-folded p l f = elim (Option-cases (seat_of p)) [
      | inl q ↦
          let z : s.spent p ≡ 0 =
            index-none rank_hand g s g.num_players 0 p (omega arith) (omega arith) q in
          ground (arith)
      | inr (j, q) ↦
          let h : Listed rank_hand g s g.num_players 0 p j =
            index-Listed rank_hand g s g.num_players 0 p j (omega arith) q in
          let (w, k) =
            unshown_loses (count_entries players) players j h.in_list (omega arith) most
              (h.its_rank ∙ rank_of-folded p f) in
          let c : chips_at players j ≡ s.spent p = h.its_chips in ground arith
    ]

    value-open :
        (p : ℕ)
        → p < g.num_players
        → s.player_folded p ≡ false
        → value_of_state rank_hand g s p ≡ some (record { won = total_won p; lost = total_lost p })
    unfolding value_of_state
    value-open p l f = elim (Option-cases (seat_of p)) [
      | inl q ↦ absurd (
          omega (
            arith,
            index-none rank_hand g s g.num_players 0 p (omega arith) (omega arith) q,
            sd.stakes p l f,
          ))
      | inr (j, q) ↦
          let h : Listed rank_hand g s g.num_players 0 p j =
            index-Listed rank_hand g s g.num_players 0 p j (omega arith) q in
          let two : 2 ≤ count_entries players =
            table-two sd.two.0 sd.two.1 g.num_players 0 (omega arith) sd.two_in.0
              (omega (arith, sd.two_in.1)) sd.two_paid.0 sd.two_paid.1 in
          ground (
            arith,
            sd.contested,
            side_pots-eq (count_entries players) players j (record { won = 0; lost = 0 }) h.in_list
                (omega arith) most,
          )
    ]

    value-total :
        (p : ℕ)
        → p < g.num_players
        → value_of_state rank_hand g s p ≡ some (record { won = total_won p; lost = total_lost p })
    value-total p l = elim (Bool-cases (s.player_folded p)) [
      | inl f ↦ value-folded p l f
      | inr f ↦ value-open p l f
    ]

    same_total :
        sum_below (won_of (count_entries players) players) (count_entries players)
        ≡ sum_below (lost_of (count_entries players) players) (count_entries players)
    same_total =
        balance (count_entries players) (s.spent sd.top) players
          (inr (
            table-AtMost (s.spent sd.top) g.num_players 0 (λ q l. sd.top_most q (omega arith)),
            table-HasTop sd.top g.num_players 0 (omega arith) (omega (arith, sd.top_in))
                (sd.stakes sd.top sd.top_in sd.top_open)
                (rank_of-Shown sd.top sd.top_open sd.top_shows),
          ))
          (omega (arith, table-le g.num_players 0, sd.few))

    sum-seats :
        (f : ℕ → ℕ)
        → sum_below (λ p. at_index f (seat_of p)) g.num_players
          ≡ sum_below f (count_entries players)
    sum-seats f =
        sum_congr _ _ g.num_players
          (λ i l. ap (λ x. at_index f (index rank_hand g s g.num_players 0 x)) (sym (zero-add i)))
        ∙ sum-players rank_hand g s f g.num_players 0

-- Take a hand of at most ten players, each with at most a tenth of the largest `int32_t` put in, that
-- two or more players contest, each with chips put in, and in which someone who has put in most has
-- not folded and shows a hand. Then valueOfState returns for every player of the game, whatever ranks
-- the hands have, without an endless loop, and all that the players win is together all that they
-- lose.
pub value_of_state_balances :
    (rank_hand : State → ℕ → ℕ) (g : Game) (s : State)
    → Showdown g s
    → (v : ℕ → Value) × ((p : ℕ) → p < g.num_players → value_of_state rank_hand g s p ≡ some (v p))
      × (sum_below (λ p. (v p).won) g.num_players ≡ sum_below (λ p. (v p).lost) g.num_players)
value_of_state_balances rank_hand g s sd = (
  λ p. record { won = total_won rank_hand g s p; lost = total_lost rank_hand g s p },
  value-total rank_hand g s sd,
  sum-seats rank_hand g s sd _ ∙ same_total rank_hand g s sd ∙ sym (sum-seats rank_hand g s sd _),
)
