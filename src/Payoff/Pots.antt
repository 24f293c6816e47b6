-- ===== src/Payoff/Pots.antt =====
-- The side pots of `valueOfState` in modules/core/src/game.c: what one pot gives and takes, and that
-- all players' shares of it cancel.
use mathlib.Core.Path.{ap₂}
use bulldog.Prelude.{
  ℕ, zero, suc, ◌+◌, ◌-◌, ◌≤◌, ◌<◌, ◌≡◌, refl, sym, ap, ◌∙◌, Bool, true, false, Option, none, some,
  List, [], ◌∷◌, ltb, ◌==◌, if◌then◌else◌, arith, bit, Bool-cases, inl, inr,
}
use bulldog.Payoff.{
  Entry, Pot, has_rank, scan_rank, scan_pot, next_entries, next_index, later_index, count_entries,
}

-- The sum of `f` over the first `n` places.
unfoldable pub sum_below : (ℕ → ℕ) → ℕ → ℕ
sum_below f zero = 0
sum_below f (suc n) = f 0 + sum_below (λ i. f (suc i)) n

-- The value at the place that a player has in the next pot.
abbrev pub at_index : (ℕ → ℕ) → Option ℕ → ℕ
at_index f none = 0
at_index f (some j) = f j

pub at-later_index :
    (f : ℕ → ℕ) (o : Option ℕ) → at_index f (later_index o) ≡ at_index (λ i. f (suc i)) o
at-later_index f none = refl
at-later_index f (some j) = refl

pub sum_congr :
    (f h : ℕ → ℕ) (n : ℕ) → ((i : ℕ) → i < n → f i ≡ h i) → sum_below f n ≡ sum_below h n
unfolding sum_below
sum_congr f h zero e = refl
sum_congr f h (suc n) e =
    omega
      (arith, e 0, sum_congr (λ i. f (suc i)) (λ i. h (suc i)) n (λ i l. e (suc i) (omega arith)))

pub sum-add : (f h : ℕ → ℕ) (n : ℕ) → sum_below (λ i. f i + h i) n ≡ sum_below f n + sum_below h n
unfolding sum_below
sum-add f h zero = refl
sum-add f h (suc n) = omega (arith, sum-add (λ i. f (suc i)) (λ i. h (suc i)) n)

module _ (size : ℕ) (e : Entry) (es : List Entry) where
  abbrev pub out : Bool
  out = e.chips - size == 0

  pub index-out : (i : ℕ) → out ≡ true → next_index size (e ∷ es) (suc i) ≡ next_index size es i
  unfolding next_index
  index-out i q = ground arith

  pub index-stays :
      (i : ℕ) → out ≡ false → next_index size (e ∷ es) (suc i) ≡ later_index (next_index size es i)
  unfolding next_index
  index-stays i q = ground arith

  pub first-out : out ≡ true → next_index size (e ∷ es) 0 ≡ none
  unfolding next_index
  first-out q = ground arith

  pub first-stays : out ≡ false → next_index size (e ∷ es) 0 ≡ some 0
  unfolding next_index
  first-stays q = ground arith

  entries-out : out ≡ true → next_entries size (e ∷ es) ≡ next_entries size es
  unfolding next_entries
  entries-out q = ground arith

  count-stays :
      out ≡ false
      → count_entries (next_entries size (e ∷ es)) ≡ suc (count_entries (next_entries size es))
  unfolding next_entries
  count-stays q = ground arith

-- The players of the next pot are those who move on to a place in it.
pub sum-next :
    (f : ℕ → ℕ) (size : ℕ) (es : List Entry)
    → sum_below (λ i. at_index f (next_index size es i)) (count_entries es)
      ≡ sum_below f (count_entries (next_entries size es))
unfolding sum_below next_entries
sum-next f size [] = refl
sum-next f size (e ∷ es) = elim (Bool-cases (e.chips - size == 0)) [
  | inl q ↦
      ap₂ ◌+◌ (ap (at_index f) (first-out size e es q))
        (sum_congr _ _ (count_entries es) (λ i l. ap (at_index f) (index-out size e es i q)))
      ∙ omega arith
      ∙ sum-next f size es
      ∙ sym (ap (λ l. sum_below f (count_entries l)) (entries-out size e es q))
  | inr q ↦
      ap₂ ◌+◌ (ap (at_index f) (first-stays size e es q)) (
        sum_congr _ (λ i. at_index (λ k. f (suc k)) (next_index size es i)) (count_entries es)
          (λ i l.
            ap (at_index f) (index-stays size e es i q) ∙ at-later_index f (next_index size es i)))
      ∙ ap (λ k. f 0 + k) (sum-next (λ k. f (suc k)) size es)
      ∙ sym (ap (sum_below f) (count-stays size e es q))
]

-- The winners of a pot, counted.
unfoldable pub winners : ℕ → List Entry → ℕ
winners w [] = 0
winners w (e ∷ es) = bit (has_rank e.rank w) + winners w es

-- One entry of the scan.
module _ (r : Option ℕ) (pot : Pot) where
  rank-rises : pot.win_rank ≤ (scan_rank r pot).win_rank
  unfolding scan_rank
  rank-rises = by_rank r
    where
      by_rank : (o : Option ℕ) → pot.win_rank ≤ (scan_rank o pot).win_rank
      by_rank none = omega arith
      by_rank (some k) = ground arith

  rank-le : (w : ℕ) → has_rank r w ≡ true → w ≤ (scan_rank r pot).win_rank
  unfolding scan_rank
  rank-le w = by_rank r
    where
      by_rank : (o : Option ℕ) → has_rank o w ≡ true → w ≤ (scan_rank o pot).win_rank
      by_rank none h = cc
      by_rank (some k) h = ground arith

  rank-counts :
      (scan_rank r pot).num_winners
      ≡ (if (scan_rank r pot).win_rank == pot.win_rank then pot.num_winners else 0)
        + bit (has_rank r (scan_rank r pot).win_rank)
  unfolding scan_rank
  rank-counts = by_rank r
    where
      by_rank :
          (o : Option ℕ)
          → (scan_rank o pot).num_winners
            ≡ (if (scan_rank o pot).win_rank == pot.win_rank then pot.num_winners else 0)
              + bit (has_rank o (scan_rank o pot).win_rank)
      by_rank none = ground arith
      by_rank (some k) = ground arith

-- The state of the scan after one entry.
abbrev pub step : Entry → Pot → Pot
step e pot =
    scan_rank e.rank (record pot { size = if ltb e.chips pot.size then e.chips else pot.size })

pub scan-rises : (es : List Entry) (pot : Pot) → pot.win_rank ≤ (scan_pot es pot).win_rank
unfolding scan_pot
scan-rises [] pot = omega arith
scan-rises (e ∷ es) pot = omega (
  arith,
  rank-rises e.rank (record pot { size = if ltb e.chips pot.size then e.chips else pot.size }),
  scan-rises es (step e pot),
)

join-counts :
    (w p q n k b c : ℕ) (h : Bool)
    → p ≤ q
    → q ≤ w
    → (h ≡ true → w ≤ q)
    → n ≡ (if q == p then k else 0) + b
    → (w ≡ q → b ≡ bit h)
    → (if w == q then n else 0) + c ≡ (if w == p then k else 0) + (bit h + c)
join-counts w p q n k b c h = ground arith

-- The scan counts the entries of the winning rank: those before, and those of the rest.
pub scan-winners :
    (es : List Entry) (pot : Pot)
    → (scan_pot es pot).num_winners
      ≡ (if (scan_pot es pot).win_rank == pot.win_rank then pot.num_winners else 0)
        + winners (scan_pot es pot).win_rank es
unfolding scan_pot winners
scan-winners [] pot = ground arith
scan-winners (e ∷ es) pot =
    scan-winners es (step e pot)
    ∙ join-counts w pot.win_rank (step e pot).win_rank (step e pot).num_winners pot.num_winners
        (bit (has_rank e.rank (step e pot).win_rank)) (winners w es) (has_rank e.rank w)
        (rank-rises e.rank sized) (scan-rises es (step e pot)) (rank-le e.rank sized w)
        (rank-counts e.rank sized) (λ q. ap (λ k. bit (has_rank e.rank k)) (sym q))
  where
    sized : Pot
    sized = record pot { size = if ltb e.chips pot.size then e.chips else pot.size }

    w : ℕ
    w = (scan_pot es (step e pot)).win_rank
