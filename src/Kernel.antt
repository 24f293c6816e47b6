-- ===== src/Kernel.antt =====
-- The values of all hands at a terminal node of the training tree: `TermEvalKernel` of
-- modules/engine/src/term_eval_kernel.h and term_eval_kernel.cpp, with its fast routines and the naive
-- ones that the tests compare them with.
-- A `double` is a whole number of some unit, of which `one` make 1.0, so that sums are exact: the
-- rounding of `double` is not modelled. The number of hands that do not meet the board,
-- HOLDEM_MAX_HANDS_PERMUTATION_EXCLUDE_BOARD, is the parameter `num_hands`, 1081 in the program.
pub mod FoldEval
pub mod StackEval
pub mod ShowdownEval
pub mod Weights
pub mod Values
pub mod Fold
pub mod Rows
pub mod Prepared
pub mod Stacked
pub mod NextHand
pub mod Own
pub mod Places
pub mod Lists
pub mod Tally
pub mod Signed
pub mod Nets
pub mod CardNets
pub mod Visits
pub mod Agree
pub mod Walks
pub mod Showdown
pub mod Prepare
mod Tests
use bulldog.Prelude.{
  ℕ, zero, suc, ◌+◌, ◌-◌, ◌*◌, Bool, true, false, ◌||◌, not, Option, none, some, ltb, ◌==◌,
  if◌then◌else◌, ◌>>=◌, update, loop,
}
use bulldog.Prelude.Int.{ℤ, pos, neg, ◌+ℤ◌, ◌-ℤ◌, ◌*ℤ◌, ◌==ℤ◌, is_positive, add_to}
use bulldog.Holdem.{
  holdem_max_cards, holdem_max_board, all_hands, card_crash, Hand, cards_of, hands_clash,
}

-- `sHandAndRank`
pub record Ranked : Type 0 where
  pub high : ℕ
  pub low : ℕ
  pub rank : ℕ
  pub v_idx : ℕ

-- `sHandAndRank::CardCrash`
abbrev pub ranked_crash : Ranked → Ranked → Bool
ranked_crash a b =
    if ltb a.high b.low
    then false
    else if ltb b.high a.low
    then false
    else (a.low == b.high || a.high == b.high) || (a.low == b.low || a.high == b.low)

-- The fields of `TermEvalKernel` that `Prepare` sets.
pub record Kernel : Type 0 where
  pub sorted : ℕ → Ranked
  pub board : ℕ → ℕ
  pub unique_rank_count : ℕ
  pub rank_first_equal : ℕ → ℕ
  pub rank_first_losing : ℕ → ℕ

-- `BELIEF_MASK_VALUE`
abbrev pub mask_value : ℕ → ℤ
mask_value one = neg one

-- The loops of `FastFoldEval`, `NaiveFoldEval` and `NaiveShowdownEval` over the player's hands: the
-- hand at place `j` has the index `idx j`, and masked hands are passed over.
unfoldable pub set_values : ℤ → (ℕ → ℕ) → (ℕ → ℤ) → ℕ → (ℕ → ℤ) → ℕ → ℤ
set_values mask idx value n my =
    loop n (λ j b. if b (idx j) ==ℤ mask then b else update b (idx j) (value j)) my
