-- ===== src/Training.antt =====
-- What the engine takes a finished hand to be worth in training: the terminal nodes of
-- modules/engine/src/node.cpp, `HandInfo::SetBucketAndPayoff` of modules/engine/src/cfr_worker.h and
-- `ScalarCfrWorker::EvalTermNode` of modules/engine/src/cfr_worker_scalar.cpp.
-- `logger::critical` exits, which is `none`. The ranks of the two hands are an argument.
pub mod Pots
pub mod Stakes
mod Tests
unfoldable pub use bulldog.Prelude.Int.{neg, ◌*ℤ◌}
use bulldog.Prelude.{
  ℕ, zero, suc, ◌*◌, Bool, true, false, not, Option, some, none, ltb, ◌==◌, if◌then◌else◌, ◌>>=◌,
  ◌>>◌, guard,
}
use bulldog.Game.{State}
use bulldog.Queries.{ℤ, pos, negsuc, diff, pot_stake}

-- `Node::IsTerminal`
abbrev pub is_terminal : State → Bool
is_terminal s = s.finished

-- `Node::IsShowdown`
unfoldable pub is_showdown : State → Bool
is_showdown s =
    if not (is_terminal s)
    then false
    else if s.player_folded 0
    then false
    else not (s.player_folded 1)

-- `Node::GetStake`
unfoldable pub get_stake : State → ℕ → Option ℤ
get_stake s my_pos =
    guard (is_terminal s)
    >> some (
        if is_showdown s
        then pos (pot_stake s)
        else if s.player_folded my_pos
        then neg (pot_stake s)
        else pos (pot_stake s))

-- `payoff_[0]`
unfoldable pub payoff : ℕ → ℕ → ℤ
payoff a b = if ltb b a then pos 1 else if a == b then pos 0 else negsuc 0

-- `payoff_[pos]` for the ranks of the two players.
unfoldable pub payoff_at : (ℕ → ℕ) → ℕ → ℤ
payoff_at rank p = if p == 0 then payoff (rank 0) (rank 1) else payoff (rank 0) (rank 1) *ℤ negsuc 0

-- `EvalTermNode`
unfoldable pub eval_term_node : (ℕ → ℕ) → State → ℕ → Option ℤ
eval_term_node rank s p =
    if is_showdown s
    then (get_stake s p >>= λ stake. some (stake *ℤ payoff_at rank p))
    else get_stake s p
