-- ===== src/Kernel/Lists.antt =====
-- What a hand adds in the first iteration of `StackShowdownProb` in
-- modules/engine/src/term_eval_kernel.cpp.
use mathlib.Core.Path.{subst, ap₂}
use bulldog.Prelude.{
  ℕ, suc, ◌<◌, ◌≡◌, ◌≢◌, refl, sym, ap, ◌∙◌, true, ◌==◌, ltb, arith, Bool-cases, inl, inr,
}
use bulldog.Prelude.Int.{ℤ, ◌+ℤ◌, +ℤ_zero, add_to, pick, sum}
use bulldog.Kernel.{Kernel}
use bulldog.Kernel.StackEval.{Stack, is_new, stack_card, stack_hand}
use bulldog.Kernel.Prepared.{IsPrepared, occurs}
use bulldog.Kernel.Stacked.{
  SameCard, SameCard-trans, stack_card-SameCard, Listed, Listed-SameCard, Listed-other,
}
use bulldog.Kernel.Own.{stack_card-Listed}

stack_card-rest :
    (r : ℕ) (w : ℤ) (c : ℕ) (s : Stack)
    → ((stack_card r w c s).rank_sum ≡ s.rank_sum) × ((stack_card r w c s).opp_sum ≡ s.opp_sum)
unfolding stack_card
stack_card-rest r w c s = elim (Bool-cases (is_new r c s)) [
  | inl e ↦ rw e (refl, refl)
  | inr e ↦ rw e (refl, refl)
]

module _ {k : Kernel} {num_hands : ℕ} {class start : ℕ → ℕ} (h : IsPrepared k num_hands class start)
    (opp : ℕ → ℤ) where
  abbrev pub class_share : ℕ → ℕ → ℤ
  class_share r i = pick (class i == r) (opp i)

  abbrev pub before_share : ℕ → ℕ → ℤ
  before_share r i = pick (ltb (class i) r) (opp i)

  abbrev pub ListedCard : ℕ → ℕ → Stack → Type 0
  ListedCard c j s = Listed (occurs k c) class opp num_hands k.unique_rank_count c j s

  -- After the first `j` hands.
  pub record AllListed (j : ℕ) (s : Stack) : Type 0 where
    pub ranks : (r : ℕ) → s.rank_sum r ≡ sum (class_share r) j
    pub cards : (c : ℕ) → c < 52 → ListedCard c j s

  abbrev summed : ℕ → Stack → Stack
  summed j s = record s { rank_sum = add_to s.rank_sum (class j) (opp j) }

  abbrev with_high : ℕ → Stack → Stack
  with_high j s = stack_card (class j) (opp j) (k.sorted j).high (summed j s)

  summed-SameCard : (j c : ℕ) (s : Stack) → SameCard c s (summed j s)
  summed-SameCard j c s = record {
    steps = refl;
    skipping = λ i. refl;
    card_rank_sum = λ i. refl;
    card_sum = refl;
  }

  own_card :
      (j c : ℕ) (s : Stack)
      → j < num_hands
      → c < 52
      → occurs k c j ≡ true
      → ListedCard c j s
      → ListedCard c (suc j) (stack_card (class j) (opp j) c s)
  own_card j c s l m o a =
      stack_card-Listed (occurs k c) class opp num_hands k.unique_rank_count h.ordered c j s l o
        (h.in_class j l) m a

  pub carried : (j c : ℕ) (s t : Stack) → SameCard c s t → ListedCard c j s → ListedCard c j t
  carried j c s t = Listed-SameCard (occurs k c) class opp num_hands k.unique_rank_count c j s t

  hand-card :
      (j c : ℕ) (s : Stack)
      → j < num_hands
      → c < 52
      → AllListed j s
      → ListedCard c (suc j) (stack_hand k opp (class j) j s)
  hand-card j c s l m a =
      let (b, top) = h.cards j l in
      let apart : (k.sorted j).low ≢ (k.sorted j).high = λ e. omega (arith, e) in
      elim (Bool-cases ((k.sorted j).high == c)) [
        | inl e ↦
            let z : (k.sorted j).high ≡ c = ground arith in
            carried (suc j) c (with_high j s) (stack_hand k opp (class j) j s)
              (stack_card-SameCard (class j) (opp j) (k.sorted j).low c (omega arith) m
                (λ q. apart (q ∙ sym z)) (with_high j s))
              (subst (λ x. ListedCard c (suc j) (stack_card (class j) (opp j) x (summed j s)))
                (sym z)
                (own_card j c (summed j s) l m (ground arith)
                  (carried j c s (summed j s) (summed-SameCard j c s) (a.cards c m))))
        | inr e ↦
            let before : SameCard c s (with_high j s) =
              SameCard-trans c s (summed j s) (with_high j s) (summed-SameCard j c s) (
                stack_card-SameCard (class j) (opp j) (k.sorted j).high c top m
                  (λ q. ground (arith, q)) (summed j s)) in
            elim (Bool-cases ((k.sorted j).low == c)) [
              | inl q ↦
                  let z : (k.sorted j).low ≡ c = ground arith in
                  subst (λ x. ListedCard c (suc j) (stack_card (class j) (opp j) x (with_high j s)))
                    (sym z)
                    (own_card j c (with_high j s) l m (ground arith)
                      (carried j c s (with_high j s) before (a.cards c m)))
              | inr q ↦
                  carried (suc j) c s (stack_hand k opp (class j) j s)
                    (SameCard-trans c s (with_high j s) (stack_hand k opp (class j) j s) before (
                      stack_card-SameCard (class j) (opp j) (k.sorted j).low c (omega arith) m
                        (λ z. ground (arith, z)) (with_high j s)))
                    (Listed-other (occurs k c) class opp num_hands k.unique_rank_count c j s
                      (ground arith) (a.cards c m))
            ]
      ]

  added : (r q : ℕ) (w : ℤ) (f : ℕ → ℤ) → add_to f r w q ≡ f q +ℤ pick (r == q) w
  added r q w f = elim (Bool-cases (r == q)) [
    | inl e ↦ let z : r ≡ q = ground arith in rw e (ap (λ r. f r +ℤ w) z)
    | inr e ↦ rw e (sym (+ℤ_zero (f q)))
  ]

  pub hand-rest :
      (r j : ℕ) (s : Stack)
      → ((stack_hand k opp r j s).rank_sum ≡ add_to s.rank_sum r (opp j))
        × ((stack_hand k opp r j s).opp_sum ≡ s.opp_sum)
  hand-rest r j s =
      let first : Stack = record s { rank_sum = add_to s.rank_sum r (opp j) } in
      let (a, b) = stack_card-rest r (opp j) (k.sorted j).high first in
      let (d, e) =
        stack_card-rest r (opp j) (k.sorted j).low (stack_card r (opp j) (k.sorted j).high first) in
      (d ∙ a, e ∙ b)

  pub hand-AllListed :
      (r j : ℕ) (s : Stack)
      → j < num_hands
      → class j ≡ r
      → AllListed j s
      → AllListed (suc j) (stack_hand k opp r j s)
  unfolding sum
  hand-AllListed r j s l e a = record {
    ranks = λ q.
        ap (λ f. f q) (hand-rest r j s).0
        ∙ added r q (opp j) s.rank_sum
        ∙ ap₂ (λ x a. a +ℤ pick (x == q) (opp j)) (sym e) (a.ranks q);
    cards =
        λ c m. subst (λ r. ListedCard c (suc j) (stack_hand k opp r j s)) e (hand-card j c s l m a);
  }
