-- ===== src/Tables/Present.antt =====
-- The buttons of modules/core/src/table_util.cpp against the rules of betting.
use mathlib.Core.Path.{subst}
use bulldog.Prelude.{
  ℕ, ◌+◌, ◌≤◌, ◌<◌, ◌≡◌, refl, sym, ◌∙◌, true, false, Option, none, some, ltb, if◌then◌else◌,
  >>=-eq-some, arith,
}
use bulldog.Game.{is_raise, ActionType, a_fold, a_call, a_raise, a_invalid, Action, Game, State}
use bulldog.Betting.{can_act, current_player, is_valid_action}
use bulldog.Betting.Invariant.{IsGame, IsValid}
use bulldog.Betting.Rules.{Legal}
use bulldog.Betting.Validity.{is_valid_action_decides}
use bulldog.Hand.Step.{IsValid-ToAct}
use bulldog.Queries.{ℤ}
use bulldog.Tables.{
  TableAction, check, call, allin_raise, action_of, table_action_to_action, raise_present,
  action_present, is_table_action_present,
}

some-inj : {A : Type 0} {a b : A} → some a ≡ some b → a ≡ b
some-inj e = cc

module _ (times : TableAction → ℤ → ℕ → ℤ) (g : Game) (s : State) (p : ℕ) (ta : TableAction)
    (a : Action) where
  present-valid :
      action_present times g s p ta a ≡ some true
      → (c : ℕ) × (a' : Action) × (is_valid_action g s false a ≡ some (c, a')) × (0 < c)
  unfolding action_present
  present-valid e =
      let ((c, a'), v, q) = >>=-eq-some (is_valid_action g s false a) _ e in
      (c, a', v, positive c a' (some-inj q))
    where
      positive :
          (c : ℕ) (a' : Action)
          → (if is_raise a'.type then raise_present times s p ta a' (ltb 0 c) else ltb 0 c) ≡ true
          → 0 < c
      positive c a' q = ground arith

  present-action :
      current_player g s ≡ some p
      → table_action_to_action times g s ta ≡ some (some a)
      → is_table_action_present times g s ta ≡ some true
      → action_present times g s p ta a ≡ some true
  unfolding is_table_action_present
  present-action here e q = sym shown ∙ q
    where
      shown : is_table_action_present times g s ta ≡ action_present times g s p ta a
      shown = rw (here, e) refl

-- In a valid hand that is not over, if a button stands for an action of the player to act and
-- IsTableActionPresent shows it, then that action is legal, whatever the arithmetic on sizes is.
pub is_table_action_present-Legal :
    (times : TableAction → ℤ → ℕ → ℤ) (g : Game) (s : State) (p : ℕ) (ta : TableAction) (a : Action)
    → IsGame g
    → IsValid g s
    → s.finished ≡ false
    → current_player g s ≡ some p
    → table_action_to_action times g s ta ≡ some (some a)
    → is_table_action_present times g s ta ≡ some true
    → Legal g s p a
is_table_action_present-Legal times g s p ta a ok v f here e q =
    let (c, a', w, l) = present-valid times g s p ta a (present-action times g s p ta a here e q) in
    (is_valid_action_decides s ok (v.turn f) here f a w).0 l

-- 1 for a button that stands for a call.
abbrev pub call_bit : ActionType → ℕ
call_bit a_call = 1
call_bit a_fold = 0
call_bit a_raise = 0
call_bit a_invalid = 0

abbrev pub calls : Option (Option Action) → ℕ
calls (some (some a)) = call_bit a.type
calls (some none) = 0
calls none = 0

-- In a valid hand that is not over, exactly one of the buttons for a check, a call and all-in calls the
-- bet for the player to act.
pub one_button_calls :
    (times : TableAction → ℤ → ℕ → ℤ) (g : Game) (s : State) (p : ℕ)
    → IsGame g
    → IsValid g s
    → s.finished ≡ false
    → current_player g s ≡ some p
    → calls (table_action_to_action times g s check)
        + calls (table_action_to_action times g s call)
        + calls (table_action_to_action times g s allin_raise)
      ≡ 1
unfolding table_action_to_action action_of
one_button_calls times g s p ok v f here =
    let (q, q_here, h) = IsValid-ToAct s ok v f in
    let q_is : q ≡ p = cc in
    let acts : can_act s p ≡ true = subst (λ k. can_act s k ≡ true) q_is h.acts in
    let seated : p < g.num_players = subst (λ k. k < g.num_players) q_is h.seated in
    let paid : s.spent p ≤ s.max_spent = v.chips.spent_le_max p seated in
    rw here (ground (arith, acts, paid))
