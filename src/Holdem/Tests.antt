-- ===== src/Holdem/Tests.antt =====
-- Runs of the functions on hands of two cards, and instances of the theorems about them.
use bulldog.Prelude.{ℕ, ◌<◌, ◌≡◌, ◌↔◌, refl, arith, some, none, true}
use bulldog.Holdem.{
  to_vector_index, round_sqrt, cards_of, from_vector_index, vector_idx_clash, vector_idx_clash_card,
}
use bulldog.Holdem.Index.{from_vector_index-to_vector_index, to_vector_index-from_vector_index}
use bulldog.Holdem.Clash.{Shares, vector_idx_clash_iff}

-- The last pair of cards has the last index.
last_test : to_vector_index 50 51 ≡ some 1325
unfolding to_vector_index
last_test = refl

past_test : from_vector_index 1326 ≡ none
unfolding from_vector_index
past_test = refl

card_test : vector_idx_clash_card 12 2 ≡ some true
unfolding vector_idx_clash_card from_vector_index cards_of round_sqrt
card_test = refl

from_vector_index-to_vector_index_example :
    (v : ℕ) × (to_vector_index 5 2 ≡ some v)
    × (to_vector_index 2 5 ≡ some v)
    × (v < 1326)
    × (from_vector_index v ≡ some (record { high = 5; low = 2 }))
from_vector_index-to_vector_index_example =
    from_vector_index-to_vector_index 5 2 (omega arith) (omega arith)

to_vector_index-from_vector_index_example :
    (high : ℕ) × (low : ℕ) × (low < high)
    × (high < 52)
    × (from_vector_index 12 ≡ some (record { high = high; low = low }))
    × (to_vector_index high low ≡ some 12)
to_vector_index-from_vector_index_example = to_vector_index-from_vector_index 12 (omega arith)

vector_idx_clash_iff_example :
    (vector_idx_clash 12 17 ≡ some true) ↔ Shares (cards_of 12) (cards_of 17)
vector_idx_clash_iff_example = vector_idx_clash_iff 12 17 (omega arith) (omega arith)
