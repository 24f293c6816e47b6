-- ===== src/Kernel/Prepare.antt =====
-- `TermEvalKernel::Prepare`, `Sort` and `PreStack` of modules/engine/src/term_eval_kernel.cpp. Parameters
-- are RankHand for the board, `rank_hand`, and `std::sort`, `sort`, of which `Sorts` says what it
-- promises; `blank` and `fresh` are what new arrays hold.
pub mod Counts
pub mod Firsts
pub mod Sorted
pub mod Ranks
pub mod Filled
pub mod Hands
pub mod Showdown
use bulldog.Prelude.{
  ℕ, zero, suc, ◌+◌, ◌-◌, ◌≤◌, ◌<◌, ◌≡◌, Bool, true, false, ◌==◌, if◌then◌else◌, update, loop,
  count, ltb, List, [], Option, none, some, ◌>>=◌,
}
use bulldog.Holdem.{holdem_max_board, holdem_max_cards, card_crash, hand_crash, to_vector_index}
use bulldog.Cards.Valid.{insert, contains, length}
use bulldog.Kernel.{Kernel, Ranked}
use bulldog.Kernel.StackEval.{card_rows}
use bulldog.Kernel.Rows.{seen}
use bulldog.Kernel.Prepared.{occurs}

-- The array of hands with `index`, and `rank_set`, a list without doubles.
pub record Filling : Type 0 where
  pub hands : ℕ → Ranked
  pub index : ℕ
  pub rank_set : List ℕ

-- The inner loop of `Prepare`. `rank_hand` is RankHand for the board; `critical` is `none`.
abbrev pub add_hand : (ℕ → ℕ) → (ℕ → ℕ → ℕ) → ℕ → ℕ → Filling → Option Filling
add_hand board rank_hand low high t =
    if hand_crash board high low
    then some t
    else to_vector_index high low >>= λ v. some (record {
      hands =
          update t.hands t.index
            (record { high = high; low = low; rank = rank_hand high low; v_idx = v });
      index = t.index + 1;
      rank_set = insert (rank_hand high low) t.rank_set;
    })

unfoldable pub add_low : (ℕ → ℕ) → (ℕ → ℕ → ℕ) → ℕ → ℕ → Filling → Option Filling
add_low board rank_hand low n t =
    loop n (λ d o. o >>= λ t. add_hand board rank_hand low (low + 1 + d) t) (some t)

-- The outer loop, over the first `n` low cards; `blank` is what the array holds before.
unfoldable pub add_lows : (ℕ → ℕ) → (ℕ → ℕ → ℕ) → (ℕ → Ranked) → ℕ → Option Filling
add_lows board rank_hand blank n =
    loop n (λ low o. o >>= λ t. add_low board rank_hand low (holdem_max_cards - (low + 1)) t)
      (some (record { hands = blank; index = 0; rank_set = [] }))

-- The variables of the first loop, with `rank_first_equal_index_`.
pub record Starts : Type 0 where
  pub last_seen_rank : ℕ
  pub rank_index : ℕ
  pub first_equal : ℕ → ℕ

abbrev pub see_rank : (ℕ → Ranked) → ℕ → Starts → Starts
see_rank sorted i t = if (sorted i).rank == t.last_seen_rank then t else record {
  last_seen_rank = (sorted i).rank;
  rank_index = t.rank_index + 1;
  first_equal = update t.first_equal (t.rank_index + 1) i;
}

-- The first loop; `min_rank` is the rank of the first hand.
unfoldable pub see_ranks : (ℕ → Ranked) → (ℕ → ℕ) → ℕ → Starts
see_ranks sorted fresh n =
    loop n (see_rank sorted)
      (record { last_seen_rank = (sorted 0).rank; rank_index = 0; first_equal = update fresh 0 0 })

-- The second loop.
unfoldable pub losing_ranks : (ℕ → ℕ) → (ℕ → ℕ) → ℕ → ℕ → ℕ
losing_ranks equal fresh n = loop n (λ j f. update f j (equal (j + 1))) fresh

-- `PreStack`
abbrev pub pre_stack : (ℕ → ℕ) → ℕ → Kernel → Kernel
pre_stack fresh num_hands k =
    let equal = (see_ranks k.sorted fresh num_hands).first_equal in
    record k {
      rank_first_equal = equal;
      rank_first_losing =
          update (losing_ranks equal fresh (k.unique_rank_count - 1)) (k.unique_rank_count - 1)
            num_hands;
    }

abbrev pub rank_of : Kernel → ℕ → ℕ
rank_of k j = (k.sorted j).rank

-- How many of the hands' ranks are lower than that of hand `j`.
abbrev pub class_of : Kernel → ℕ → ℕ → ℕ
class_of k num_hands j = count (seen (λ i. true) (rank_of k) num_hands) (rank_of k j)

-- How many hands have one of the first `r` ranks.
abbrev pub start_of : Kernel → ℕ → ℕ → ℕ
start_of k num_hands r = count (λ i. ltb (class_of k num_hands i) r) num_hands

-- What `Prepare` and `Sort` have done before `PreStack`: `num_hands` hands that do not meet the board,
-- ordered by rank, and the number of ranks. Ranks are below `bound`.
pub record IsSorted (k : Kernel) (num_hands bound : ℕ) : Type 0 where
  pub some_hand : 0 < num_hands
  pub cards :
      (j : ℕ) → j < num_hands → ((k.sorted j).low < (k.sorted j).high) × ((k.sorted j).high < 52)
  pub off_board :
      (j : ℕ)
      → j < num_hands
      → (card_crash k.board holdem_max_board (k.sorted j).high ≡ false)
        × (card_crash k.board holdem_max_board (k.sorted j).low ≡ false)
  pub one_each :
      (i j : ℕ)
      → i < num_hands
      → j < num_hands
      → (k.sorted i).high ≡ (k.sorted j).high
      → (k.sorted i).low ≡ (k.sorted j).low
      → i ≡ j
  pub indices :
      (i j : ℕ) → i < num_hands → j < num_hands → (k.sorted i).v_idx ≡ (k.sorted j).v_idx → i ≡ j
  pub by_rank : (i j : ℕ) → i < j → j < num_hands → (k.sorted i).rank ≤ (k.sorted j).rank
  pub bounded : (j : ℕ) → j < num_hands → (k.sorted j).rank < bound
  pub ranks : k.unique_rank_count ≡ count (seen (λ i. true) (rank_of k) num_hands) bound
  -- The lists of a card have room for its ranks, and for the cutoff after the last.
  pub few_rows :
      (c : ℕ)
      → c < 52
      → count (seen (occurs k c) (class_of k num_hands) num_hands) k.unique_rank_count < card_rows

-- `sHandAndRank::RankHighLowSort`
abbrev pub rank_high_low_sort : Ranked → Ranked → Bool
rank_high_low_sort a b =
    if ltb a.rank b.rank
    then true
    else if ltb b.rank a.rank
    then false
    else if ltb b.high a.high
    then true
    else if ltb a.high b.high
    then false
    else if ltb b.low a.low
    then true
    else false

-- What `std::sort` makes of the first `n` hands: they change places, and none is less than one before.
pub record Sorts (n : ℕ) (hands sorted : ℕ → Ranked) : Type 0 where
  pub place : ℕ → ℕ
  pub origin : ℕ → ℕ
  pub place_lt : (j : ℕ) → j < n → place j < n
  pub origin_lt : (i : ℕ) → i < n → origin i < n
  pub moved : (j : ℕ) → j < n → sorted j ≡ hands (place j)
  pub place-origin : (i : ℕ) → i < n → place (origin i) ≡ i
  pub origin-place : (j : ℕ) → j < n → origin (place j) ≡ j
  pub in_order : (i j : ℕ) → i < j → j < n → rank_high_low_sort (sorted j) (sorted i) ≡ false

-- `Prepare` before `PreStack`.
unfoldable pub prepare_hands :
    (ℕ → ℕ) → (ℕ → ℕ → ℕ) → (ℕ → Ranked) → (ℕ → (ℕ → Ranked) → ℕ → Ranked) → (ℕ → ℕ) → Option Kernel
prepare_hands board rank_hand blank sort fresh =
    add_lows board rank_hand blank (holdem_max_cards - 1) >>= λ t. some (record {
      sorted = sort t.index t.hands;
      board = board;
      unique_rank_count = length t.rank_set;
      rank_first_equal = fresh;
      rank_first_losing = fresh;
    })
