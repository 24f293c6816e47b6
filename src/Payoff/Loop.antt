-- ===== src/Payoff/Loop.antt =====
-- The loop over the side pots of `valueOfState` in modules/core/src/game.c returns, and what it
-- returns is what the player wins and loses in all the pots.
use mathlib.Core.Path.{subst}
use bulldog.Prelude.{
  ℕ, zero, suc, ◌+◌, ◌-◌, ◌*◌, ◌≤◌, ◌<◌, ◌≡◌, refl, sym, ap, ◌∙◌, Option, none, some, List, [], ◌∷◌,
  ◌==◌, arith, Bool-cases, Option-cases, inl, inr,
}
use bulldog.Payoff.{
  unit, int32_max, Entry, Value, Pot, scan_pot, no_pot, next_entries, next_index, later_index,
  count_entries, rank_at, pot_value, side_pots,
}
use bulldog.Payoff.Pots.{step, index-out, index-stays, first-out, first-stays}
use bulldog.Payoff.Shares.{gain, loss, pot_value-eq, AtMost}
use bulldog.Payoff.Balance.{won_of, lost_of, pots-shrink, next-AtMost, scan-size-first}

abbrev pub chips_at : List Entry → ℕ → ℕ
chips_at [] i = 0
chips_at (e ∷ es) zero = e.chips
chips_at (e ∷ es) (suc i) = chips_at es i

-- Where a player stands in the next pot: there is a place, with the same rank and the chips left.
record Moves (size : ℕ) (es : List Entry) (i j : ℕ) : Type 0 where
  in_next : j < count_entries (next_entries size es)
  same_rank : rank_at (next_entries size es) j ≡ rank_at es i
  less : chips_at (next_entries size es) j ≡ chips_at es i - size

later-some : (o : Option ℕ) (j : ℕ) → later_index o ≡ some j → (k : ℕ) × (o ≡ some k) × (j ≡ suc k)
later-some none j e = cc
later-some (some k) j e = (k, refl, cc)

next-Moves :
    (size : ℕ) (es : List Entry) (i j : ℕ) → next_index size es i ≡ some j → Moves size es i j
unfolding next_entries
next-Moves size [] i j e = absurd (unfold next_index in cc e)
next-Moves size (e ∷ es) zero j q = elim (Bool-cases (e.chips - size == 0)) [
  | inl o ↦ cc (first-out size e es o)
  | inr o ↦
      let z : 0 ≡ j = cc (first-stays size e es o) in
      subst (Moves size (e ∷ es) 0) z
        (record { in_next = rw o (omega arith); same_rank = rw o; less = rw o })
]
next-Moves size (e ∷ es) (suc i) j q = elim (Bool-cases (e.chips - size == 0)) [
  | inl o ↦
      let m : Moves size es i j = next-Moves size es i j (sym (index-out size e es i o) ∙ q) in
      record { in_next = rw o m.in_next; same_rank = rw o m.same_rank; less = rw o m.less }
  | inr o ↦
      let (k, r, z) = later-some (next_index size es i) j (sym (index-stays size e es i o) ∙ q) in
      let m : Moves size es i k = next-Moves size es i k r in
      subst (Moves size (e ∷ es) (suc i)) (sym z) (record {
        in_next = rw o (omega (arith, m.in_next));
        same_rank = rw o m.same_rank;
        less = rw o m.less;
      })
]

AtMost-lower : (m n : ℕ) (es : List Entry) → m ≤ n → AtMost m es → AtMost n es
AtMost-lower m n [] l h = tt
AtMost-lower m n (e ∷ es) l h = (omega arith, AtMost-lower m n es l h.1)

-- The next pot is smaller, and holds no more chips for anyone.
next-smaller :
    (es : List Entry) (i fuel : ℕ)
    → i < count_entries es
    → count_entries es ≤ suc fuel
    → AtMost int32_max es
    → (count_entries (next_entries (scan_pot es no_pot).size es) ≤ fuel)
      × AtMost int32_max (next_entries (scan_pot es no_pot).size es)
next-smaller [] i fuel l c m = elim l [ ]
next-smaller (e ∷ es) i fuel l c m = (
  omega (arith, pots-shrink e es m),
  AtMost-lower _ int32_max _ (omega arith)
      (next-AtMost int32_max (scan_pot (e ∷ es) no_pot).size (e ∷ es) m),
)

-- With a round for each player the loop returns, and adds up what the pots give and take.
pub side_pots-eq :
    (fuel : ℕ) (es : List Entry) (i : ℕ) (v : Value)
    → i < count_entries es
    → count_entries es ≤ fuel
    → AtMost int32_max es
    → side_pots fuel es i v
      ≡ some (record { won = v.won + won_of fuel es i; lost = v.lost + lost_of fuel es i })
unfolding side_pots won_of lost_of
side_pots-eq zero es i v l c m = absurd (omega arith)
side_pots-eq (suc fuel) es i v l c m =
    elim (Option-cases (next_index (scan_pot es no_pot).size es i)) [
      | inl q ↦
          ground (arith, pot_value-eq (scan_pot es no_pot) (count_entries es) (rank_at es i) v)
      | inr (j, q) ↦
          let mv : Moves (scan_pot es no_pot).size es i j =
            next-Moves (scan_pot es no_pot).size es i j q in
          let (c', m') = next-smaller es i fuel l c m in
          ground (
            arith,
            pot_value-eq (scan_pot es no_pot) (count_entries es) (rank_at es i) v,
            side_pots-eq fuel (next_entries (scan_pot es no_pot).size es) j
                (pot_value (scan_pot es no_pot) (count_entries es) (rank_at es i) v) mv.in_next c'
                m',
          )
    ]

size-at :
    (es : List Entry) (i : ℕ) (pot : Pot)
    → i < count_entries es
    → (scan_pot es pot).size ≤ chips_at es i
unfolding scan_pot
size-at [] i pot l = elim l [ ]
size-at (e ∷ es) zero pot l = scan-size-first e es pot
size-at (e ∷ es) (suc i) pot l = size-at es i (step e pot) (omega arith)

next-none :
    (size : ℕ) (es : List Entry) (i : ℕ)
    → i < count_entries es
    → next_index size es i ≡ none
    → chips_at es i ≤ size
next-none size [] i l q = elim l [ ]
next-none size (e ∷ es) zero l q = elim (Bool-cases (e.chips - size == 0)) [
  | inl o ↦ ground arith
  | inr o ↦ cc (first-stays size e es o)
]
next-none size (e ∷ es) (suc i) l q = elim (Bool-cases (e.chips - size == 0)) [
  | inl o ↦ next-none size es i (omega arith) (sym (index-out size e es i o) ∙ q)
  | inr o ↦ elim (Option-cases (next_index size es i)) [
    | inl z ↦ next-none size es i (omega arith) z
    | inr (k, z) ↦ cc (index-stays size e es i o, ap later_index z)
  ]
]

gain-none :
    (pot : Pot) (n : ℕ) (r : Option ℕ)
    → r ≡ none
    → (gain pot n r ≡ 0) × (loss pot r ≡ unit * pot.size)
unfolding gain loss
gain-none pot n none e = (refl, refl)
gain-none pot n (some k) e = cc

-- A player without a hand to show loses all that was put in, and no more.
pub unshown_loses :
    (fuel : ℕ) (es : List Entry) (i : ℕ)
    → i < count_entries es
    → count_entries es ≤ fuel
    → AtMost int32_max es
    → rank_at es i ≡ none
    → (won_of fuel es i ≡ 0) × (lost_of fuel es i ≡ unit * chips_at es i)
unfolding won_of lost_of
unshown_loses zero es i l c m r = absurd (omega arith)
unshown_loses (suc fuel) es i l c m r = elim (Option-cases (next_index size es i)) [
  | inl q ↦ rw q (
    omega (arith, zeros.0),
    omega (arith, zeros.1, next-none size es i l q, size-at es i no_pot l),
  )
  | inr (j, q) ↦
      let mv : Moves size es i j = next-Moves size es i j q in
      let (c', m') = next-smaller es i fuel l c m in
      let (w, k) =
        unshown_loses fuel (next_entries size es) j mv.in_next c' m' (mv.same_rank ∙ r) in
      rw q (omega (arith, zeros.0, w), omega (arith, zeros.1, k, mv.less, size-at es i no_pot l))
]
  where
    size : ℕ
    size = (scan_pot es no_pot).size

    zeros :
        (gain (scan_pot es no_pot) (count_entries es) (rank_at es i) ≡ 0)
        × (loss (scan_pot es no_pot) (rank_at es i) ≡ unit * size)
    zeros = gain-none (scan_pot es no_pot) (count_entries es) (rank_at es i) r
