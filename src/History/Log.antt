-- ===== src/History/Log.antt =====
-- How the log that `StepBackAction` of modules/core/src/game.c reads grows with each `doAction`, and
-- that doing its actions again leads to the same hand.
use mathlib.Core.Path.{ap₂}
use mathlib.Core.List.{append-nil, append_assoc}
use bulldog.Prelude.{
  ℕ, zero, suc, ◌+◌, ◌-◌, ◌%◌, ◌≤◌, ◌<◌, ◌≡◌, refl, sym, ◌∙◌, ap, arith, ◌>>=◌, >>=-eq-some, some,
  Option, update, List, [], ◌∷◌, ◌++◌,
}
use bulldog.Game.{
  ActionType, a_fold, a_call, a_raise, a_invalid, max_num_actions, Action, Game, State,
}
use bulldog.Hand.{log_action, place_bet, end_turn, do_action}
use bulldog.Betting.Invariant.{IsGame, IsValid}
use bulldog.Hand.Play.{
  Done, do_action-Done, move, Play, start, next, Play-IsValid, place_bet-num_actions,
  end_turn-num_actions,
}
use bulldog.History.{round_log, rounds_log, log_of}
use bulldog.History.SameStep.{LaterEmpty}

round_log_congr :
    (s t : State) (r n : ℕ)
    → ((i : ℕ) → i < n → s.action r i ≡ t.action r i)
    → round_log s r n ≡ round_log t r n
unfolding round_log
round_log_congr s t r zero h = refl
round_log_congr s t r (suc n) h =
    ap₂ (λ l a. l ++ (a ∷ [])) (round_log_congr s t r n (λ i l. h i (omega arith)))
      (h n (omega arith))

pub rounds_log_congr :
    (s t : State) (k : ℕ)
    → ((r : ℕ) → r < k → s.num_actions r ≡ t.num_actions r)
    → ((r i : ℕ) → r < k → i < s.num_actions r → s.action r i ≡ t.action r i)
    → rounds_log s k ≡ rounds_log t k
unfolding rounds_log
rounds_log_congr s t zero n h = refl
rounds_log_congr s t (suc k) n h =
    ap₂ ◌++◌ (rounds_log_congr s t k (λ r l. n r (omega arith)) (λ r i l. h r i (omega arith))) (
      round_log_congr s t k (s.num_actions k) (λ i l. h k i (omega arith) l)
      ∙ ap (round_log t k) (n k (omega arith)))

-- Rounds with no action add nothing.
rounds_log_empty :
    (s : State) (k m : ℕ)
    → ((r : ℕ) → k ≤ r → r < k + m → s.num_actions r ≡ 0)
    → rounds_log s (k + m) ≡ rounds_log s k
unfolding rounds_log round_log
rounds_log_empty s k zero h = let z : k + 0 ≡ k = omega arith in ap (rounds_log s) z
rounds_log_empty s k (suc m) h =
    let up : k + suc m ≡ suc (k + m) = omega arith in
    ap (rounds_log s) up
    ∙ ap (λ n. rounds_log s (k + m) ++ round_log s (k + m) n)
        (h (k + m) (omega arith) (omega arith))
    ∙ append-nil (rounds_log s (k + m))
    ∙ rounds_log_empty s k m (λ r a b. h r a (omega arith))

place_bet-action :
    (ty : ActionType) (g : Game) (s : State) (p size : ℕ) {t : State}
    → place_bet ty g s p size ≡ some t
    → (t.action ≡ s.action) × (t.round ≡ s.round)
unfolding place_bet
place_bet-action a_fold g s p size e = ground arith
place_bet-action a_call g s p size e = ground arith
place_bet-action a_raise g s p size e = ground arith
place_bet-action a_invalid g s p size e = cc

end_turn-action :
    (g : Game) (s : State)
    → s.round < g.num_rounds
    → ((end_turn g s).action ≡ s.action) × (s.round ≤ (end_turn g s).round)
unfolding end_turn
end_turn-action g s l = ground arith

-- The log of `t` is that of `s` with one entry more.
pub record Grown (s t : State) (a : Action) : Type 0 where
  pub up : s.round ≤ t.round
  pub space : s.num_actions s.round < max_num_actions
  pub num : t.num_actions ≡ update s.num_actions s.round ((s.num_actions s.round + 1) % 256)
  pub act : t.action ≡ update s.action s.round (update (s.action s.round) (s.num_actions s.round) a)

pub do_action-Grown :
    (g : Game) (a : Action) (s : State) {t : State}
    → s.round < g.num_rounds
    → do_action g a s ≡ some t
    → Grown s t a
do_action-Grown g a s {t} lt e =
    let d : Done g a s t = do_action-Done g a s e in
    let (pa, pr) = place_bet-action a.type g (log_action s d.player a) d.player a.size d.bet in
    let (ea, er) = end_turn-action g d.placed (omega (arith, pr)) in
    record {
      up = omega (arith, pr, er, ap (λ (x : State). x.round) d.ended);
      space = d.space;
      num =
          ap (λ (x : State). x.num_actions) d.ended
          ∙ end_turn-num_actions g d.placed
          ∙ place_bet-num_actions a.type g (log_action s d.player a) d.player a.size d.bet;
      act = ap (λ (x : State). x.action) d.ended ∙ ea ∙ pa;
    }

module _ {s t : State} {a : Action} (h : Grown s t a) where
  pub num_at :
      (r : ℕ) → t.num_actions r ≡ update s.num_actions s.round ((s.num_actions s.round + 1) % 256) r
  num_at r = ap (λ f. f r) h.num

  pub act_at :
      (r i : ℕ)
      → t.action r i
        ≡ update s.action s.round (update (s.action s.round) (s.num_actions s.round) a) r i
  act_at r i = ap (λ f. f r i) h.act

  pub num_here : t.num_actions s.round ≡ suc (s.num_actions s.round)
  num_here = ground (arith, num_at s.round, h.space)

  round_grown :
      round_log t s.round (t.num_actions s.round)
      ≡ round_log s s.round (s.num_actions s.round) ++ (a ∷ [])
  unfolding round_log
  round_grown =
      ap (round_log t s.round) num_here
      ∙ ap₂ (λ l b. l ++ (b ∷ []))
          (round_log_congr t s s.round (s.num_actions s.round)
            (λ i l. ground (arith, act_at s.round i)))
          (ground (arith, act_at s.round (s.num_actions s.round)))

  rounds_grown : rounds_log t (suc s.round) ≡ log_of s ++ (a ∷ [])
  unfolding rounds_log
  rounds_grown =
      ap₂ ◌++◌
        (rounds_log_congr t s s.round (λ r l. ground (arith, num_at r))
          (λ r i l k. ground (arith, act_at r i)))
        round_grown
      ∙ sym (
          append_assoc (rounds_log s s.round) (round_log s s.round (s.num_actions s.round))
            (a ∷ []))

  log_grown :
      (n : ℕ)
      → t.round < n
      → ((r : ℕ) → s.round < r → r < n → s.num_actions r ≡ 0)
      → log_of t ≡ log_of s ++ (a ∷ [])
  log_grown n lt empty =
      let split : suc t.round ≡ suc s.round + (t.round - s.round) = omega (arith, h.up) in
      ap (rounds_log t) split
      ∙ rounds_log_empty t (suc s.round) (t.round - s.round)
          (λ r l m. ground (arith, num_at r, empty r, h.up))
      ∙ rounds_grown

-- The log after a step is the log before it, and the action.
pub do_action-log :
    (g : Game) (a : Action) (s : State) {t : State}
    → s.round < g.num_rounds
    → t.round < g.num_rounds
    → LaterEmpty g s
    → do_action g a s ≡ some t
    → log_of t ≡ log_of s ++ (a ∷ [])
do_action-log g a s lt lt' empty e = log_grown (do_action-Grown g a s lt e) g.num_rounds lt' empty

-- The actions of a list, one after the other.
unfoldable pub replay : Game → List Action → State → Option State
replay g [] s = some s
replay g (a ∷ l) s = do_action g a s >>= replay g l

pub replay-append :
    (g : Game) (l : List Action) (a : Action) (s : State) {t u : State}
    → replay g l s ≡ some t
    → do_action g a t ≡ some u
    → replay g (l ++ (a ∷ [])) s ≡ some u
unfolding replay
replay-append g [] a s e d = ground arith
replay-append g (b ∷ l) a s e d =
    let (v, q, r) = >>=-eq-some (do_action g b s) (replay g l) e in rw q (replay-append g l a v r d)

-- Replaying what a play has added to the log leads where the play has led.
pub Play-replay :
    {g : Game} {s t : State} {n : ℕ}
    → IsGame g
    → IsValid g s
    → Play g s n t
    → (l : List Action) × (log_of t ≡ log_of s ++ l) × (replay g l s ≡ some t)
unfolding replay
Play-replay {s = s} ok v start = ([], sym (append-nil (log_of s)), refl)
Play-replay {g} {s} ok v (next {n} {t} {u} p (move b a a' c e pos d)) =
    let (l, q, r) = Play-replay ok v p in
    let w : IsValid g t = Play-IsValid ok v p in
    let w' : IsValid g u = Play-IsValid ok v (next p (move b a a' c e pos d)) in
    (
      l ++ (a' ∷ []),
      do_action-log g a' t w.log.round_in w'.log.round_in w.log.later_empty d
          ∙ ap (λ x. x ++ (a' ∷ [])) q
          ∙ append_assoc (log_of s) l (a' ∷ []),
      replay-append g l a' s r d,
    )
