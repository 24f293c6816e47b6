-- ===== src/Payoff/Balance.antt =====
-- The loop over the side pots of `valueOfState` in modules/core/src/game.c: it ends, and what all the
-- players together win is what they lose.
use mathlib.Core.Path.{ap₂}
use bulldog.Prelude.{
  ℕ, zero, suc, ◌+◌, ◌-◌, ◌≤◌, ◌<◌, ◌≡◌, ◌⊎◌, refl, sym, ◌∙◌, Option, none, some, List, [], ◌∷◌,
  ltb, ◌==◌, if◌then◌else◌, arith, Bool-cases, inl, inr,
}
use bulldog.Payoff.{
  int32_max, Entry, Pot, scan_rank, scan_pot, no_pot, next_entries, next_index, count_entries,
  rank_at,
}
use bulldog.Payoff.Pots.{sum_below, sum_congr, sum-add, sum-next, at_index, step}
use bulldog.Payoff.Shares.{gain, loss, AtMost, HasTop, pot_balance}

pub rank-size : (r : Option ℕ) (pot : Pot) → (scan_rank r pot).size ≡ pot.size
unfolding scan_rank
rank-size none pot = refl
rank-size (some k) pot = ground arith

-- The size of a pot is attained by someone in it.
data Attains (size : ℕ) : List Entry → Type 0 where
  here : (e : Entry) (es : List Entry) → e.chips ≡ size → Attains size (e ∷ es)
  there : (e : Entry) {es : List Entry} → Attains size es → Attains size (e ∷ es)

scan-size :
    (es : List Entry) (pot : Pot)
    → ((scan_pot es pot).size ≡ pot.size) ⊎ Attains (scan_pot es pot).size es
unfolding scan_pot
scan-size [] pot = inl refl
scan-size (e ∷ es) pot = elim (scan-size es (step e pot)) [
  | inl q ↦ elim (Bool-cases (ltb e.chips pot.size)) [
    | inl t ↦ inr (here e es (sym (q ∙ rank-size e.rank _ ∙ ground arith)))
    | inr t ↦ inl (q ∙ rank-size e.rank _ ∙ ground arith)
  ]
  | inr a ↦ inr (there e a)
]

pub scan-size-le : (es : List Entry) (pot : Pot) → (scan_pot es pot).size ≤ pot.size
unfolding scan_pot
scan-size-le [] pot = omega arith
scan-size-le (e ∷ es) pot = ground (
  arith,
  scan-size-le es (step e pot),
  rank-size e.rank (record pot { size = if ltb e.chips pot.size then e.chips else pot.size }),
)

pub scan-size-first :
    (e : Entry) (es : List Entry) (pot : Pot) → (scan_pot (e ∷ es) pot).size ≤ e.chips
unfolding scan_pot
scan-size-first e es pot = ground (
  arith,
  scan-size-le es (step e pot),
  rank-size e.rank (record pot { size = if ltb e.chips pot.size then e.chips else pot.size }),
)

pub count-next-le :
    (size : ℕ) (es : List Entry) → count_entries (next_entries size es) ≤ count_entries es
unfolding next_entries
count-next-le size [] = omega arith
count-next-le size (e ∷ es) = ground (arith, count-next-le size es)

count-next-lt :
    (size : ℕ) (es : List Entry)
    → Attains size es
    → count_entries (next_entries size es) < count_entries es
unfolding next_entries
count-next-lt size [] a = elim a [ ]
count-next-lt size (e ∷ es) (here _ _ q) = ground (arith, count-next-le size es)
count-next-lt size (e ∷ es) (there _ a) = ground (arith, count-next-lt size es a)

-- Every pot is the last for someone.
pub pots-shrink :
    (e : Entry) (es : List Entry)
    → AtMost int32_max (e ∷ es)
    → count_entries (next_entries (scan_pot (e ∷ es) no_pot).size (e ∷ es)) < suc (count_entries es)
pots-shrink e es m = elim (scan-size (e ∷ es) no_pot) [
  | inl q ↦ count-next-lt _ (e ∷ es) (here e es (omega (arith, scan-size-first e es no_pot)))
  | inr a ↦ count-next-lt _ (e ∷ es) a
]

pub next-AtMost :
    (m size : ℕ) (es : List Entry) → AtMost m es → AtMost (m - size) (next_entries size es)
unfolding next_entries
next-AtMost m size [] h = tt
next-AtMost m size (e ∷ es) h = elim (Bool-cases (e.chips - size == 0)) [
  | inl q ↦ rw q (next-AtMost m size es h.1)
  | inr q ↦ rw q (omega arith, next-AtMost m size es h.1)
]

next-HasTop :
    (m size : ℕ) (es : List Entry)
    → size < m
    → HasTop m es
    → HasTop (m - size) (next_entries size es)
unfolding next_entries
next-HasTop m size [] l t = t
next-HasTop m size (e ∷ es) l t = elim (Bool-cases (e.chips - size == 0)) [
  | inl q ↦ rw q (elim t [ inl z ↦ absurd (ground arith) | inr k ↦ next-HasTop m size es l k ])
  | inr q ↦
      rw q (elim t [ inl z ↦ inl (omega arith, z.1) | inr k ↦ inr (next-HasTop m size es l k) ])
]

next-empty : (m size : ℕ) (es : List Entry) → m ≤ size → AtMost m es → next_entries size es ≡ []
unfolding next_entries
next-empty m size [] l h = refl
next-empty m size (e ∷ es) l h = ground (arith, next-empty m size es l h.1)

-- What the player at place `i` wins and loses in all the pots.
unfoldable pub won_of : ℕ → List Entry → ℕ → ℕ
won_of zero es i = 0
won_of (suc fuel) es i =
    gain (scan_pot es no_pot) (count_entries es) (rank_at es i)
    + at_index (won_of fuel (next_entries (scan_pot es no_pot).size es))
        (next_index (scan_pot es no_pot).size es i)

unfoldable pub lost_of : ℕ → List Entry → ℕ → ℕ
lost_of zero es i = 0
lost_of (suc fuel) es i =
    loss (scan_pot es no_pot) (rank_at es i)
    + at_index (lost_of fuel (next_entries (scan_pot es no_pot).size es))
        (next_index (scan_pot es no_pot).size es i)

-- What is left of a table on which someone who has most at stake shows a hand.
abbrev pub Table : ℕ → List Entry → Type 0
Table m es = (es ≡ []) ⊎ (AtMost m es × HasTop m es)

next-Table :
    (m size : ℕ) (es : List Entry)
    → AtMost m es
    → HasTop m es
    → Table (m - size) (next_entries size es)
next-Table m size es h t = elim (Bool-cases (ltb size m)) [
  | inl l ↦ inr (next-AtMost m size es h, next-HasTop m size es (ground arith) t)
  | inr l ↦ inl (next-empty m size es (ground arith) h)
]

pub balance :
    (fuel m : ℕ) (es : List Entry)
    → Table m es
    → count_entries es ≤ 10
    → sum_below (won_of fuel es) (count_entries es) ≡ sum_below (lost_of fuel es) (count_entries es)
unfolding won_of lost_of
balance zero m es h ten = sum_congr _ _ (count_entries es) (λ i l. refl)
balance (suc fuel) m es (inl q) ten = rw q (unfold sum_below in refl)
balance (suc fuel) m es (inr (h, t)) ten =
    sum-add _ _ (count_entries es)
    ∙ ap₂ ◌+◌ (pot_balance m es t ten) (
        sum-next (won_of fuel (next_entries size es)) size es
        ∙ balance fuel (m - size) (next_entries size es) (next-Table m size es h t)
            (omega (arith, count-next-le size es))
        ∙ sym (sum-next (lost_of fuel (next_entries size es)) size es))
    ∙ sym (sum-add _ _ (count_entries es))
  where
    size : ℕ
    size = (scan_pot es no_pot).size
