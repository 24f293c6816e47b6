-- ===== src/Kernel/CardNets.antt =====
-- The nets of all cards in `StackShowdownProb` of modules/engine/src/term_eval_kernel.cpp.
use mathlib.Core.Path.{subst}
use bulldog.Prelude.{
  ℕ, zero, suc, ◌-◌, ◌≤◌, ◌<◌, ◌≡◌, refl, ap, ◌∙◌, true, false, ◌==◌, some, arith, Bool-cases, inl,
  inr,
}
use bulldog.Prelude.Int.{ℤ, pos}
use bulldog.Holdem.{holdem_max_board, card_crash}
use bulldog.Kernel.{Kernel}
use bulldog.Kernel.StackEval.{Stack, combo_idx, net_rows, card_rows, first_net, card_nets}
use bulldog.Kernel.Rows.{count_after}
use bulldog.Kernel.Prepared.{IsPrepared}
use bulldog.Kernel.Lists.{AllListed}
use bulldog.Kernel.Nets.{card_net, held, row_of, held-rank, one_card}

module _ {k : Kernel} {num_hands : ℕ} {class start : ℕ → ℕ} (h : IsPrepared k num_hands class start)
    (opp : ℕ → ℤ) (s : Stack) (a : AllListed h opp num_hands s) where
  -- The rows of the first `n` cards that are not on the board.
  abbrev pub RightNets : ℕ → (ℕ → ℤ) → Type 0
  RightNets n net =
      (c r : ℕ)
      → c < n
      → card_crash k.board holdem_max_board c ≡ false
      → held h opp s a c r ≡ true
      → net (combo_idx (row_of h opp s a c r) c) ≡ card_net h opp s a c r

  crashed :
      (n : ℕ) (net : ℕ → ℤ)
      → card_nets k s n ≡ some net
      → card_crash k.board holdem_max_board n ≡ true
      → card_nets k s (suc n) ≡ some net
  unfolding card_nets
  crashed n net e b = rw (e, b) refl

  uncrashed :
      (n : ℕ) (net : ℕ → ℤ)
      → card_nets k s n ≡ some net
      → card_crash k.board holdem_max_board n ≡ false
      → card_nets k s (suc n) ≡ net_rows s n (card_rows - 1) 1 (first_net s n net)
  unfolding card_nets
  uncrashed n net e b = rw (e, b) refl

  pub card_nets-RightNets :
      (n : ℕ) → n ≤ 52 → (net : ℕ → ℤ) × (card_nets k s n ≡ some net) × RightNets n net
  unfolding card_nets
  card_nets-RightNets zero l = ((λ i. pos 0), refl, λ c r u b e. absurd (omega arith))
  card_nets-RightNets (suc n) l =
      let (net, e, t) = card_nets-RightNets n (omega arith) in
      elim (Bool-cases (card_crash k.board holdem_max_board n)) [
        | inl b ↦ (
          net,
          crashed n net e b,
          λ c r u o w. elim (Bool-cases (c == n)) [
            | inl z ↦
                let same : c ≡ n = ground arith in
                absurd (ground (arith, o, b, ap (card_crash k.board holdem_max_board) same))
            | inr z ↦ t c r (ground arith) o w
          ],
        )
        | inr b ↦
            let (net', e', t', only) = one_card h opp s a n l net (h.few_rows n l) in
            (
              net',
              uncrashed n net e b ∙ e',
              λ c r u o w. elim (Bool-cases (c == n)) [
                | inl z ↦
                    let same : n ≡ c = ground arith in
                    subst
                      (λ c.
                        held h opp s a c r ≡ true
                        → net' (combo_idx (row_of h opp s a c r) c) ≡ card_net h opp s a c r)
                      same
                      (λ w. t' r w (
                        count_after (held h opp s a n) r k.unique_rank_count
                          (held-rank h opp s a n l r w) w))
                      w
                | inr z ↦
                    only (row_of h opp s a c r) c (omega arith) (λ q. ground arith)
                    ∙ t c r (ground arith) o w
              ],
            )
      ]
