-- ===== src/Payoff/Shares.antt =====
-- What one side pot of `valueOfState` in modules/core/src/game.c gives and takes: the winners' shares
-- add up to what the others lose.
use bulldog.Prelude.{
  ℕ, zero, suc, ◌+◌, ◌-◌, ◌*◌, ◌/◌, ◌≤◌, ◌≡◌, ◌⊎◌, refl, sym, ap, ◌∙◌, Option, none, some, List, [],
  ◌∷◌, if◌then◌else◌, arith, Bool-cases, inl, inr,
}
use bulldog.Payoff.{
  unit, Entry, Value, Pot, has_rank, scan_rank, scan_pot, no_pot, count_entries, rank_at, pot_value,
}
use bulldog.Payoff.Pots.{sum_below, winners, step, scan-winners}

-- The share of a winner among `n` players.
pub share : Pot → ℕ → ℕ
share pot n = unit * (pot.size * (n - pot.num_winners)) / pot.num_winners

unfoldable pub gain : Pot → ℕ → Option ℕ → ℕ
gain pot n r = if has_rank r pot.win_rank then share pot n else 0

unfoldable pub loss : Pot → Option ℕ → ℕ
loss pot r = if has_rank r pot.win_rank then 0 else unit * pot.size

pub pot_value-eq :
    (pot : Pot) (n : ℕ) (r : Option ℕ) (v : Value)
    → pot_value pot n r v ≡ record { won = v.won + gain pot n r; lost = v.lost + loss pot r }
unfolding pot_value gain loss share
pot_value-eq pot n r v = ground arith

sum-gain :
    (pot : Pot) (n : ℕ) (es : List Entry)
    → sum_below (λ i. gain pot n (rank_at es i)) (count_entries es)
      ≡ winners pot.win_rank es * share pot n
unfolding sum_below winners gain
sum-gain pot n [] = omega arith
sum-gain pot n (e ∷ es) = elim (Bool-cases (has_rank e.rank pot.win_rank)) [
  | inl q ↦ rw (q, sum-gain pot n es) (omega arith)
  | inr q ↦ rw (q, sum-gain pot n es) (omega arith)
]

sum-loss :
    (pot : Pot) (es : List Entry)
    → sum_below (λ i. loss pot (rank_at es i)) (count_entries es)
        + winners pot.win_rank es * (unit * pot.size)
      ≡ count_entries es * (unit * pot.size)
unfolding sum_below winners loss
sum-loss pot [] = omega arith
sum-loss pot (e ∷ es) = elim (Bool-cases (has_rank e.rank pot.win_rank)) [
  | inl q ↦ rw q (omega (arith, sum-loss pot es))
  | inr q ↦ rw q (omega (arith, sum-loss pot es))
]

-- Among up to ten winners a share is exact.
exact : (n x : ℕ) → 1 ≤ n → n ≤ 10 → n * (unit * x / n) ≡ unit * x
exact zero x h k = absurd (omega arith)
exact (suc zero) x h k = omega arith
exact (suc (suc zero)) x h k = omega arith
exact (suc (suc (suc zero))) x h k = omega arith
exact (suc (suc (suc (suc zero)))) x h k = omega arith
exact (suc (suc (suc (suc (suc zero))))) x h k = omega arith
exact (suc (suc (suc (suc (suc (suc zero)))))) x h k = omega arith
exact (suc (suc (suc (suc (suc (suc (suc zero))))))) x h k = omega arith
exact (suc (suc (suc (suc (suc (suc (suc (suc zero)))))))) x h k = omega arith
exact (suc (suc (suc (suc (suc (suc (suc (suc (suc zero))))))))) x h k = omega arith
exact (suc (suc (suc (suc (suc (suc (suc (suc (suc (suc zero)))))))))) x h k = omega arith
exact (suc (suc (suc (suc (suc (suc (suc (suc (suc (suc (suc n))))))))))) x h k =
    absurd (omega arith)

-- A player of the given rank has a hand to show.
abbrev pub Shown : Option ℕ → Type 0
Shown none = ⊥
Shown (some r) = Unit

-- Nobody has more than `m`, and someone with a hand to show has that much.
abbrev pub AtMost : ℕ → List Entry → Type 0
AtMost m [] = Unit
AtMost m (e ∷ es) = (e.chips ≤ m) × AtMost m es

abbrev pub HasTop : ℕ → List Entry → Type 0
HasTop m [] = ⊥
HasTop m (e ∷ es) = ((e.chips ≡ m) × Shown e.rank) ⊎ HasTop m es

winners-le : (w : ℕ) (es : List Entry) → winners w es ≤ count_entries es
unfolding winners
winners-le w [] = omega arith
winners-le w (e ∷ es) = ground (arith, winners-le w es)

rank-keeps : (r : Option ℕ) (pot : Pot) → 1 ≤ pot.num_winners → 1 ≤ (scan_rank r pot).num_winners
unfolding scan_rank
rank-keeps none pot h = h
rank-keeps (some k) pot h = ground arith

scan-keeps : (es : List Entry) (pot : Pot) → 1 ≤ pot.num_winners → 1 ≤ (scan_pot es pot).num_winners
unfolding scan_pot
scan-keeps [] pot h = h
scan-keeps (e ∷ es) pot h = scan-keeps es (step e pot) (rank-keeps e.rank _ h)

-- A rank above 0 has a winner behind it.
abbrev Sound : Pot → Type 0
Sound pot = (pot.win_rank ≡ 0) ⊎ (1 ≤ pot.num_winners)

rank-Sound : (r : Option ℕ) (pot : Pot) → Sound pot → Sound (scan_rank r pot)
unfolding scan_rank
rank-Sound none pot h = h
rank-Sound (some k) pot h = ground arith

rank-Shown : (r : Option ℕ) (pot : Pot) → Shown r → Sound pot → 1 ≤ (scan_rank r pot).num_winners
unfolding scan_rank
rank-Shown none pot z h = absurd z
rank-Shown (some k) pot z h = ground arith

scan-shown :
    (m : ℕ) (es : List Entry) (pot : Pot)
    → HasTop m es
    → Sound pot
    → 1 ≤ (scan_pot es pot).num_winners
unfolding scan_pot
scan-shown m [] pot t h = absurd t
scan-shown m (e ∷ es) pot (inl t) h = scan-keeps es (step e pot) (rank-Shown e.rank _ t.1 h)
scan-shown m (e ∷ es) pot (inr t) h = scan-shown m es (step e pot) t (rank-Sound e.rank _ h)

losers-lose :
    (k d n size l : ℕ)
    → k + d ≡ n
    → l + k * (unit * size) ≡ n * (unit * size)
    → unit * (size * d) ≡ l
losers-lose k d n size l e h =
    let h' : l + k * (unit * size) ≡ (k + d) * (unit * size) =
      h ∙ ap (λ x. x * (unit * size)) (sym e) in
    omega arith

-- In a pot in which someone shows a hand, what is won is what is lost.
pub pot_balance :
    (m : ℕ) (es : List Entry)
    → HasTop m es
    → count_entries es ≤ 10
    → let pot = scan_pot es no_pot in
      sum_below (λ i. gain pot (count_entries es) (rank_at es i)) (count_entries es)
      ≡ sum_below (λ i. loss pot (rank_at es i)) (count_entries es)
unfolding share
pot_balance m es t ten =
    sum-gain pot n es
    ∙ ap (λ x. x * share pot n) (sym counted)
    ∙ exact k (pot.size * (n - k)) some_winner (omega (arith, fewer))
    ∙ losers-lose k (n - k) n pot.size _ (omega (arith, fewer)) (
        ap (λ x. sum_below (λ i. loss pot (rank_at es i)) n + x * (unit * pot.size)) counted
        ∙ sum-loss pot es)
  where
    pot : Pot
    pot = scan_pot es no_pot

    n : ℕ
    n = count_entries es

    k : ℕ
    k = pot.num_winners

    counted : k ≡ winners pot.win_rank es
    counted = scan-winners es no_pot ∙ ground arith

    some_winner : 1 ≤ k
    some_winner = scan-shown m es no_pot t (inl refl)

    fewer : k ≤ n
    fewer = omega (arith, counted, winners-le pot.win_rank es)
