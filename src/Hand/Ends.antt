-- ===== src/Hand/Ends.antt =====
-- A hand always goes on until it is over: `isValidAction`, `doAction` and `initState` of
-- modules/core/src/game.c.
use bulldog.Prelude.{ℕ, ◌≡◌, false, arith, some}
use bulldog.Game.{a_call, Action, Game, State}
use bulldog.Betting.{current_player, is_valid_action}
use bulldog.Betting.Invariant.{IsGame, IsValid}
use bulldog.Hand.Step.{do_action-IsValid}
use bulldog.Hand.Play.{Move, move, Play}

abbrev calling : Action
calling = record { type = a_call; size = 0 }

call-passes :
    (g : Game) (s : State) (p : ℕ)
    → s.finished ≡ false
    → current_player g s ≡ some p
    → is_valid_action g s false calling ≡ some (1, calling)
unfolding is_valid_action
call-passes g s p f e = ground arith

-- A valid hand that is not over can go on: the player to act may call.
pub Move-exists :
    (g : Game) (s : State) → IsGame g → IsValid g s → s.finished ≡ false → (t : State) × Move g s t
Move-exists g s ok v f =
    let (p, e, acts, run) = do_action-IsValid g s ok v f in
    let (t, d, w) = run calling tt in
    (t, move false calling calling 1 (call-passes g s p f e) (omega arith) d)
