-- ===== src/Hand/Step.antt =====
-- `doAction` of modules/core/src/game.c as a whole: a legal action is carried out, and leaves a valid
-- hand; so a hand played by the rules never loops for ever, fails an assertion or overruns the log.
use bulldog.Prelude.{
  ℕ, ◌≤◌, ◌<◌, ◌≡◌, refl, true, false, ltb, arith, Bool-cases, inl, inr, some, count_index,
}
use bulldog.Game.{
  ActionType, a_fold, a_call, a_raise, a_invalid, max_num_actions, is_no_limit, Action, Game, State,
}
use bulldog.Betting.{can_act, current_player}
use bulldog.Hand.{log_action, raise_no_limit, raise_limit, place_bet, end_turn, do_action}
use bulldog.Betting.Turn.{current_player-acts}
use bulldog.Betting.Invariant.{IsGame, IsValid}
use bulldog.Hand.EndTurn.{end_turn-IsValid}
use bulldog.Hand.Place.{Placed, ToAct, free, fold-Placed, call-Placed, raise-Placed}
use bulldog.Betting.Rules.{LegalOf, Legal}

module _ {g : Game} {s : State} {p : ℕ} (h : ToAct g s p) (a : Action) where
  open h use {chips, turn, seated, acts}

  -- In a limit game everyone can pay the bet.
  pub bet-le-stack : is_no_limit g.betting_type ≡ false → s.max_spent ≤ s.stack_player p
  bet-le-stack n = omega (
    arith,
    chips.bettor_paid,
    chips.spent_le_stack chips.bettor chips.bettor_in,
    chips.level n chips.bettor p chips.bettor_in seated,
  )

  -- A legal bet is placed: no assertion of `doAction` fails.
  place_bet-Placed :
      (ty : ActionType)
      → a.type ≡ ty
      → LegalOf ty g s p a.size
      → (t : State) × (place_bet ty g (log_action s p a) p a.size ≡ some t) × Placed g t
  unfolding place_bet
  place_bet-Placed a_fold e l = (_, refl, fold-Placed h a e)
  place_bet-Placed a_call e l = elim (Bool-cases (ltb (s.stack_player p) s.max_spent)) [
    | inl c ↦ (
      _,
      simp c,
      call-Placed h a (s.stack_player p) (chips.spent_le_stack p seated) (omega arith)
          (ground arith) (λ k. absurd (omega arith)) e,
    )
    | inr c ↦ (
      _,
      simp c,
      call-Placed h a s.max_spent (chips.spent_le_max p seated) (ground arith) (omega arith)
          (λ k. refl) e,
    )
  ]
  place_bet-Placed a_raise e l = elim (Bool-cases (is_no_limit g.betting_type)) [
    | inl n ↦
        let k = l.1 n in
        (
          _,
          ground arith,
          raise-Placed h a a.size (raise_no_limit s a.size).min_no_limit_raise_to
              (omega (arith, k.tops)) k.covered (λ _. ground (arith, k.tops)) l.0.space e,
        )
    | inr n ↦ (
      _,
      simp n,
      raise-Placed h a (raise_limit g s p).max_spent s.min_no_limit_raise_to
          (ground (arith, bet-le-stack n)) (ground arith) (λ k. cc) l.0.space e,
    )
  ]
  place_bet-Placed a_invalid e l = absurd l

-- The player to act, and what holds then, in a valid hand that is not over.
pub IsValid-ToAct :
    {g : Game} (s : State)
    → IsGame g
    → IsValid g s
    → s.finished ≡ false
    → (p : ℕ) × (current_player g s ≡ some p) × ToAct g s p
IsValid-ToAct {g} s ok v f =
    let o = v.in_play f in
    let (q, q_in, q_acts) = count_index (can_act s) g.num_players (omega (arith, o.waiting)) in
    let (p, e, next) = current_player-acts g s q q_in q_acts f in
    (
      p,
      e,
      record {
        chips = v.chips;
        log = v.log;
        turn = v.turn f;
        waiting = o.waiting;
        running = f;
        seated = next.in_game;
        acts = next.acts;
      },
    )

-- In a valid hand that is not over it is the turn of a player who can act, and every action that the
-- rules allow to that player is carried out by `doAction` and leaves a valid hand.
pub do_action-IsValid :
    (g : Game) (s : State)
    → IsGame g
    → IsValid g s
    → s.finished ≡ false
    → (p : ℕ) × (current_player g s ≡ some p)
      × (can_act s p ≡ true)
      × ((a : Action) → Legal g s p a → (t : State) × (do_action g a s ≡ some t) × IsValid g t)
do_action-IsValid g s ok v f =
    let (p, e, h) = IsValid-ToAct s ok v f in
    (
      p,
      e,
      h.acts,
      λ a l.
          let (t, q, k) = place_bet-Placed h a a.type refl l in
          (
            end_turn g t,
            done p a t e (free h a) q,
            end_turn-IsValid t ok k.chips k.log k.turn k.running,
          ),
    )
  where
    done :
        (p : ℕ) (a : Action) (t : State)
        → current_player g s ≡ some p
        → s.num_actions s.round < max_num_actions
        → place_bet a.type g (log_action s p a) p a.size ≡ some t
        → do_action g a s ≡ some (end_turn g t)
    done p a t e l q = unfold do_action in (ground arith)
