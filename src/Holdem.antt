-- ===== src/Holdem.antt =====
-- Hands of two hole cards in Texas hold'em: `Hand_t`, `Board_t` and the vector index of
-- modules/core/include/bulldog/card_util.h and modules/core/src/card_util.cpp.
-- `logger::critical` exits, which is `none`.
pub mod Index
pub mod Clash
mod Tests
use bulldog.Prelude.{
  ℕ, zero, suc, ◌+◌, ◌-◌, ◌*◌, ◌/◌, ◌%◌, Bool, true, false, ◌||◌, Option, none, some, ltb, ◌==◌,
  if◌then◌else◌, ◌>>=◌,
}

abbrev pub holdem_max_cards : ℕ
holdem_max_cards = 52

abbrev pub holdem_max_board : ℕ
holdem_max_board = 5

-- `HOLDEM_MAX_HANDS_PERMUTATION`
abbrev pub all_hands : ℕ
all_hands = 1326

-- `Board_t::CardCrash`, over the first `n` cards of the board.
unfoldable pub card_crash : (ℕ → ℕ) → ℕ → ℕ → Bool
card_crash board zero c = false
card_crash board (suc n) c = card_crash board n c || board n == c

-- `Board_t::HandCrash`
abbrev pub hand_crash : (ℕ → ℕ) → ℕ → ℕ → Bool
hand_crash board high low =
    card_crash board holdem_max_board high || card_crash board holdem_max_board low

-- How many hands have a smaller high card.
abbrev pub below : ℕ → ℕ
below high = (high * high - high) / 2

abbrev pub checked_index : ℕ → Option ℕ
checked_index v = if ltb 1325 v then none else some v

-- `ToVectorIndex`; the index is a `uint16_t`.
unfoldable pub to_vector_index : ℕ → ℕ → Option ℕ
to_vector_index high low =
    if ltb high low
    then checked_index ((below low + high) % 65536)
    else checked_index ((below high + low) % 65536)

-- `round(sqrt(n))` for results up to `k`: the largest `j` with `j * j - j < n`, that is
-- `j - 1/2 < sqrt(n)`. For `n` below 2 ^ 16 the rounding of `double` is too small to change it.
unfoldable pub round_sqrt : ℕ → ℕ → ℕ
round_sqrt zero n = 0
round_sqrt (suc k) n = if ltb (suc k * k) n then suc k else round_sqrt k n

-- A hand with its cards, each a `uint8_t`.
pub record Hand : Type 0 where
  pub high : ℕ
  pub low : ℕ

-- The cards of `FromVectorIndex`. The subtraction is made so that it does not stop at 0.
unfoldable pub cards_of : ℕ → Hand
cards_of v =
    let high = round_sqrt 256 (v * 2 + 2) % 256 in
    record { high = high; low = (v + 256 * below high - below high) % 256 }

-- `FromVectorIndex`
unfoldable pub from_vector_index : ℕ → Option Hand
from_vector_index v = if ltb 1325 v then none else some (cards_of v)

-- The tests of `VectorIdxClash`.
unfoldable pub hands_clash : Hand → Hand → Bool
hands_clash a b =
    if ltb a.high b.low
    then false
    else if ltb b.high a.low
    then false
    else a.high == b.high || a.high == b.low || a.low == b.high || a.low == b.low

-- `VectorIdxClash`
unfoldable pub vector_idx_clash : ℕ → ℕ → Option Bool
vector_idx_clash a b =
    from_vector_index a >>= λ x. from_vector_index b >>= λ y. some (hands_clash x y)

-- `VectorIdxClashCard`
unfoldable pub vector_idx_clash_card : ℕ → ℕ → Option Bool
vector_idx_clash_card v c = from_vector_index v >>= λ x. some (x.high == c || x.low == c)
