-- ===== src/History/Keeps.antt =====
-- What `doAction` of modules/core/src/game.c leaves alone: the hand's number, the cards and the
-- stacks.
use bulldog.Prelude.{ℕ, ◌≡◌, refl, ◌∙◌, arith, some, >>=-eq-some, List, [], ◌∷◌}
use bulldog.Game.{ActionType, a_fold, a_call, a_raise, a_invalid, Action, Game, State}
use bulldog.Hand.{log_action, place_bet, end_turn, do_action}
use bulldog.Hand.Play.{Done, do_action-Done, move, Play, start, next}
use bulldog.History.Log.{replay}

pub record Keeps (s t : State) : Type 0 where
  pub hand : t.hand_id ≡ s.hand_id
  pub holes : t.hole_cards ≡ s.hole_cards
  pub boards : t.board_cards ≡ s.board_cards
  pub stacks : t.stack_player ≡ s.stack_player

pub refl-Keeps : (s : State) → Keeps s s
refl-Keeps s = record { hand = refl; holes = refl; boards = refl; stacks = refl }

pub trans-Keeps : {s t u : State} → Keeps s t → Keeps t u → Keeps s u
trans-Keeps h k = record {
  hand = k.hand ∙ h.hand;
  holes = k.holes ∙ h.holes;
  boards = k.boards ∙ h.boards;
  stacks = k.stacks ∙ h.stacks;
}

place_bet-Keeps :
    (ty : ActionType) (g : Game) (s : State) (p size : ℕ) {t : State}
    → place_bet ty g s p size ≡ some t
    → Keeps s t
unfolding place_bet
place_bet-Keeps a_fold g s p size e = ground arith
place_bet-Keeps a_call g s p size e = ground arith
place_bet-Keeps a_raise g s p size e = ground arith
place_bet-Keeps a_invalid g s p size e = cc

end_turn-Keeps : (g : Game) (s : State) → Keeps s (end_turn g s)
unfolding end_turn
end_turn-Keeps g s = ground arith

pub do_action-Keeps :
    (g : Game) (a : Action) (s : State) {t : State} → do_action g a s ≡ some t → Keeps s t
do_action-Keeps g a s {t} e =
    let d : Done g a s t = do_action-Done g a s e in
    let b = place_bet-Keeps a.type g (log_action s d.player a) d.player a.size d.bet in
    let k = end_turn-Keeps g d.placed in
    rw d.ended (
      trans-Keeps (record { hand = b.hand; holes = b.holes; boards = b.boards; stacks = b.stacks })
        k)

pub replay-Keeps :
    (g : Game) (l : List Action) (s : State) {t : State} → replay g l s ≡ some t → Keeps s t
unfolding replay
replay-Keeps g [] s e = ground arith
replay-Keeps g (a ∷ l) s e =
    let (u, d, r) = >>=-eq-some (do_action g a s) (replay g l) e in
    trans-Keeps (do_action-Keeps g a s d) (replay-Keeps g l u r)

pub Play-Keeps : {g : Game} {s t : State} {n : ℕ} → Play g s n t → Keeps s t
Play-Keeps {g} {s} start = refl-Keeps s
Play-Keeps {g} {s} (next {n} {t} p (move b a a' c e pos d)) =
    trans-Keeps (Play-Keeps p) (do_action-Keeps g a' t d)
