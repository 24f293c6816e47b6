-- ===== src/Hand/Pot.antt =====
-- How a step of `doAction` in modules/core/src/game.c moves chips.
use bulldog.Prelude.{
  ℕ, ◌≤◌, ◌<◌, ◌≡◌, ◌≢◌, refl, ltb, true, update_ne, ◌∙◌, ap, Bool, false, arith, some,
}
use bulldog.Game.{max_num_actions, a_raise, is_no_limit, Action, Game, State}
use bulldog.Betting.{current_player, valid_action_of, is_valid_action}
use bulldog.Hand.{log_action, raise_limit, put_in, place_bet, end_turn, do_action}
use bulldog.Betting.Invariant.{IsGame, IsValid}
use bulldog.Betting.Rules.{RaiseOpen, raise-limit, tests-RaiseOpen}

-- The move of chips from `s` to `t` by player `p`.
pub record Pays (s t : State) (p : ℕ) : Type 0 where
  pub others : (q : ℕ) → p ≢ q → (t.spent q ≡ s.spent q) × (t.player_folded q ≡ s.player_folded q)
  pub grows : s.spent p ≤ t.spent p
  pub bet_grows : s.max_spent ≤ t.max_spent
  pub stacks : t.stack_player ≡ s.stack_player

limit_raise-passes :
    (g : Game) (s : State) (p : ℕ) (b : Bool) (a : Action)
    → IsGame g
    → a.type ≡ a_raise
    → is_no_limit g.betting_type ≡ false
    → s.finished ≡ false
    → current_player g s ≡ some p
    → RaiseOpen g s
    → is_valid_action g s b a ≡ some (1, a)
unfolding is_valid_action valid_action_of
limit_raise-passes g s p b a ok r n f here o =
    ground (arith, raise-limit s ok here (tests-RaiseOpen s ok here o) n)

-- What is left of the raise.
record Lowered (g : Game) (s t : State) (p : ℕ) : Type 0 where
  bet : t.max_spent ≡ s.stack_player p
  others : (q : ℕ) → p ≢ q → t.spent q ≡ s.spent q

end_turn-Lowered : (g : Game) (s t : State) (p : ℕ) → Lowered g s t p → Lowered g s (end_turn g t) p
unfolding end_turn
end_turn-Lowered g s t p h = record {
  bet = ground (arith, h.bet);
  others = λ q n. ground (arith, h.others q n);
}

place_bet-Lowered :
    (g : Game) (s : State) (p : ℕ) (a : Action)
    → is_no_limit g.betting_type ≡ false
    → s.stack_player p < s.max_spent
    → (t : State) × (place_bet a_raise g (log_action s p a) p a.size ≡ some t) × Lowered g s t p
unfolding place_bet
place_bet-Lowered g s p a n short =
    let u : State = raise_limit g (log_action s p a) p in
    (
      put_in u p u.max_spent,
      rw n refl,
      record { bet = ground arith; others = λ q m. update_ne s.spent p u.max_spent q m },
    )

do_action-placed :
    (g : Game) (s : State) (p : ℕ) (a : Action) {t : State}
    → current_player g s ≡ some p
    → s.num_actions s.round < max_num_actions
    → place_bet a.type g (log_action s p a) p a.size ≡ some t
    → do_action g a s ≡ some (end_turn g t)
unfolding do_action
do_action-placed g s p a here space e =
    let room : ltb (s.num_actions s.round) max_num_actions ≡ true = ground arith in
    rw (here, room, e) refl

-- In a limit game in which a raise is open (RaiseOpen) to the player to act, who has a smaller stack
-- than the bet, while another player has put in the whole bet: `isValidAction` lets the raise pass, and
-- `doAction` carries it out and leaves a state in which that other player has put in more than the bet,
-- so that the state is not valid.
pub limit_raise_lowers :
    (g : Game) (s : State) (p q : ℕ) (b : Bool) (a : Action)
    → IsGame g
    → a.type ≡ a_raise
    → is_no_limit g.betting_type ≡ false
    → s.finished ≡ false
    → current_player g s ≡ some p
    → RaiseOpen g s
    → s.stack_player p < s.max_spent
    → p ≢ q
    → q < g.num_players
    → s.spent q ≡ s.max_spent
    → (t : State) × (is_valid_action g s b a ≡ some (1, a))
      × (do_action g a s ≡ some t)
      × (t.max_spent < t.spent q)
      × (¬ IsValid g t)
limit_raise_lowers g s p q b a ok r n f here o short apart seated paid =
    let (u, e, w) = place_bet-Lowered g s p a n short in
    let h = end_turn-Lowered g s u p w in
    let placed : place_bet a.type g (log_action s p a) p a.size ≡ some u =
      ap (λ ty. place_bet ty g (log_action s p a) p a.size) r ∙ e in
    let fell : (end_turn g u).max_spent < (end_turn g u).spent q =
      omega (arith, h.bet, h.others q apart) in
    (
      end_turn g u,
      limit_raise-passes g s p b a ok r n f here o,
      do_action-placed g s p a here (omega (arith, o.space, ok.players_min)) placed,
      fell,
      λ v. omega (arith, fell, v.chips.spent_le_max q seated),
    )
