-- ===== src/Queries/Bases.antt =====
-- What `GetRaiseBase` of modules/core/src/game.c returns: the pot before and after a call, and the
-- last raise.
use mathlib.Core.Path.{subst}
use bulldog.Prelude.{
  ℕ, zero, suc, ◌+◌, ◌-◌, ◌^◌, ◌≤◌, ◌<◌, ◌≡◌, refl, ap, ◌∙◌, false, arith, some, update, loop,
  total, total-update, total-le,
}
use bulldog.Game.{a_call, Game, State}
use bulldog.Betting.{current_player}
use bulldog.Betting.Invariant.{IsGame, IsValid}
use bulldog.Hand.{log_action, place_bet, end_turn, do_action}
use bulldog.Hand.Step.{IsValid-ToAct}
use bulldog.Hand.Play.{do_action-Done}
use bulldog.Queries.{pos, diff, pot_net, pot_after_call, pot, get_raise_base}

pub pot-total : (g : Game) (s : State) → pot g s ≡ total s.spent g.num_players
unfolding pot total
pot-total g s = loop-total g.num_players
  where
    loop-total : (n : ℕ) → loop n (λ p pot. pot + s.spent p) 0 ≡ total s.spent n
    loop-total zero = refl
    loop-total (suc n) = omega (arith, loop-total n)

diff_le : (a b : ℕ) → b ≤ a → diff a b ≡ pos (a - b)
unfolding diff
diff_le a b l = ground arith

after_call :
    (g : Game) (s : State) (p : ℕ)
    → current_player g s ≡ some p
    → s.spent p ≤ pot g s + s.max_spent
    → get_raise_base g s pot_after_call ≡ some (pos (pot g s + s.max_spent - s.spent p))
unfolding get_raise_base
after_call g s p here l = rw here (ap some (diff_le (pot g s + s.max_spent) (s.spent p) l))

-- The chips at the end of a turn are those at the bet.
end_turn-spent : (g : Game) (s : State) → (end_turn g s).spent ≡ s.spent
unfolding end_turn
end_turn-spent g s = ground arith

end_turn-round_spent : (g : Game) (s : State) → (end_turn g s).sum_round_spent ≡ s.sum_round_spent
unfolding end_turn
end_turn-round_spent g s = ground arith

call-spent :
    (g : Game) (s : State) (p size : ℕ) {t : State}
    → s.max_spent ≤ s.stack_player p
    → place_bet a_call g s p size ≡ some t
    → t.spent ≡ update s.spent p s.max_spent
unfolding place_bet
call-spent g s p size l e = ground arith

-- If in a valid hand that is not over the player to act calls and has the chips to cover the bet, then
-- the pot is what GetRaiseBase returned for POT_AFTER_CALL before the call.
pub get_raise_base_after_call :
    (g : Game) (s : State) (p size : ℕ) {t : State}
    → IsGame g
    → IsValid g s
    → s.finished ≡ false
    → current_player g s ≡ some p
    → s.max_spent ≤ s.stack_player p
    → do_action g (record { type = a_call; size = size }) s ≡ some t
    → get_raise_base g s pot_after_call ≡ some (pos (pot g t))
get_raise_base_after_call g s p size {t} ok v f here covers e =
    let d = do_action-Done g (record { type = a_call; size = size }) s e in
    let (q, q_here, h) = IsValid-ToAct s ok v f in
    let q_is : q ≡ p = cc in
    let d_is : d.player ≡ p = cc (d.turn) in
    let seated : p < g.num_players = omega (arith, q_is, h.seated) in
    let bet : place_bet a_call g (log_action s p (record { type = a_call; size = size })) p size
        ≡ some d.placed =
      subst
        (λ k.
          place_bet a_call g (log_action s k (record { type = a_call; size = size })) k size
          ≡ some d.placed)
        d_is d.bet in
    let spent : t.spent ≡ update s.spent p s.max_spent =
      ap (λ (u : State). u.spent) d.ended
      ∙ end_turn-spent g d.placed
      ∙ call-spent g (log_action s p (record { type = a_call; size = size })) p size covers bet in
    let now = pot-total g s in
    let later = pot-total g t ∙ ap (λ f. total f g.num_players) spent in
    let moved = total-update s.spent p s.max_spent g.num_players seated in
    after_call g s p here (omega (arith, v.chips.spent_le_max p seated))
    ∙ ap (λ n. some (pos n)) (omega (arith, now, later, moved))

-- In a valid hand that is not over, in which no stack is above 195225786 chips, GetRaiseBase returns
-- for POT_NET and for POT_AFTER_CALL a value from 0 to 2 ^ 31 - 1, as does the sum of the pot and the
-- bet from which it computes the second.
pub get_raise_base_fits :
    (g : Game) (s : State)
    → IsGame g
    → IsValid g s
    → s.finished ≡ false
    → ((p : ℕ) → p < g.num_players → s.stack_player p ≤ 195225786)
    → ((n : ℕ) × (get_raise_base g s pot_net ≡ some (pos n)) × (n < 2 ^ 31))
      × ((n : ℕ) × (get_raise_base g s pot_after_call ≡ some (pos n)) × (n < 2 ^ 31))
      × (pot g s + s.max_spent < 2 ^ 31)
unfolding get_raise_base
get_raise_base_fits g s ok v f small =
    let (p, here, h) = IsValid-ToAct s ok v f in
    let spent =
      total-le s.spent 195225786 g.num_players
        (λ p l. omega (arith, v.chips.spent_le_stack p l, small p l)) in
    let bet = v.chips.spent_le_stack v.chips.bettor v.chips.bettor_in in
    let top : pot g s + s.max_spent < 2 ^ 31 = omega (
      arith,
      pot-total g s,
      spent,
      bet,
      v.chips.bettor_paid,
      small v.chips.bettor v.chips.bettor_in,
      ok.players_max,
    ) in
    (
      (pot g s, rw here refl, omega (arith, top)),
      (
        pot g s + s.max_spent - s.spent p,
        after_call g s p here (omega (arith, v.chips.spent_le_max p h.seated)),
        omega (arith, top),
      ),
      top,
    )
