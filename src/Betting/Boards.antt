-- ===== src/Betting/Boards.antt =====
-- The sums of `bcStart` and `sumBoardCards` of modules/core/src/game.c, which count in a `uint8_t`.
use bulldog.Prelude.{ℕ, zero, suc, ◌<◌, ◌≡◌, refl, arith, total}
use bulldog.Game.{Game}
use bulldog.Betting.{bc_start, sum_board_cards}

-- Where a round's cards begin on the board.
pub bc_start-total :
    (g : Game) (n : ℕ) → total g.num_board_cards n < 256 → bc_start g n ≡ total g.num_board_cards n
unfolding bc_start total
bc_start-total g zero l = refl
bc_start-total g (suc n) l = omega (arith, bc_start-total g n (omega arith))

pub sum_board_cards-total :
    (g : Game) (r : ℕ)
    → total g.num_board_cards (suc r) < 256
    → sum_board_cards g r ≡ total g.num_board_cards (suc r)
unfolding sum_board_cards bc_start
sum_board_cards-total g r l = bc_start-total g (suc r) l
