-- ===== src/History/Same.antt =====
-- Two states that agree on all that the betting of a hand depends on, and the queries of
-- modules/core/src/game.c on them: what else is in the arrays does not matter.
use native.Mathlib.Nat.{mod-lt}
use bulldog.Prelude.{
  ℕ, zero, suc, ◌+◌, ◌-◌, ◌%◌, ◌≤◌, ◌<◌, ◌≡◌, refl, ◌∙◌, ap, Bool, arith, loop, tick, some,
}
use bulldog.Game.{ActionType, a_fold, a_call, a_raise, a_invalid, is_raise, Action, Game, State}
use bulldog.Betting.{
  has_chips, can_act, next_player_from, next_player, current_player, num_raises, num_folded,
  num_called_from, num_called, num_acting_players, raise_is_valid, no_limit_range, valid_action_of,
  is_valid_action,
}

pub record Same (g : Game) (s t : State) : Type 0 where
  pub bet : s.max_spent ≡ t.max_spent
  pub least : s.min_no_limit_raise_to ≡ t.min_no_limit_raise_to
  pub at_round : s.round ≡ t.round
  pub ended : s.finished ≡ t.finished
  pub in_round : s.round < g.num_rounds
  pub chips : (p : ℕ) → p < g.num_players → s.spent p ≡ t.spent p
  pub stacks : (p : ℕ) → p < g.num_players → s.stack_player p ≡ t.stack_player p
  pub folds : (p : ℕ) → p < g.num_players → s.player_folded p ≡ t.player_folded p
  pub lengths : (r : ℕ) → r < g.num_rounds → s.num_actions r ≡ t.num_actions r
  pub entries : (r i : ℕ) → r ≤ s.round → i < s.num_actions r → s.action r i ≡ t.action r i
  pub actors :
      (r i : ℕ) → r ≤ s.round → i < s.num_actions r → s.acting_player r i ≡ t.acting_player r i
  pub seated : (r i : ℕ) → r ≤ s.round → i < s.num_actions r → s.acting_player r i < g.num_players

loop-tick_congr :
    (t u : ℕ → Bool) (n a : ℕ)
    → ((i : ℕ) → i < n → t i ≡ u i)
    → loop n (λ i r. tick (t i) r) a ≡ loop n (λ i r. tick (u i) r) a
loop-tick_congr t u zero a h = refl
loop-tick_congr t u (suc n) a h =
    ground (arith, h n, loop-tick_congr t u n a (λ i l. h i (omega arith)))

module _ {g : Game} {s t : State} (players : 0 < g.num_players) (h : Same g s t) where
  pub can_act-Same : (p : ℕ) → p < g.num_players → can_act s p ≡ can_act t p
  can_act-Same p l = ground (arith, h.chips p, h.stacks p, h.folds p)

  has_chips-Same : (p : ℕ) → p < g.num_players → has_chips s p ≡ has_chips t p
  has_chips-Same p l = ground (arith, h.chips p, h.stacks p)

  pub num_folded-Same : num_folded g s ≡ num_folded g t
  unfolding num_folded
  num_folded-Same = loop-tick_congr s.player_folded t.player_folded g.num_players 0 h.folds

  pub num_acting-Same : num_acting_players g s ≡ num_acting_players g t
  unfolding num_acting_players
  num_acting-Same = loop-tick_congr (can_act s) (can_act t) g.num_players 0 can_act-Same

  pub num_same : s.num_actions s.round ≡ t.num_actions t.round
  num_same = h.lengths s.round h.in_round ∙ ap t.num_actions h.at_round

  type_same : (i : ℕ) → i < s.num_actions s.round → s.action s.round i ≡ t.action t.round i
  type_same i l = h.entries s.round i (omega arith) l ∙ ap (λ r. t.action r i) h.at_round

  who_same :
      (i : ℕ) → i < s.num_actions s.round → s.acting_player s.round i ≡ t.acting_player t.round i
  who_same i l = h.actors s.round i (omega arith) l ∙ ap (λ r. t.acting_player r i) h.at_round

  num_raises-Same : num_raises s ≡ num_raises t
  unfolding num_raises
  num_raises-Same =
      loop-tick_congr _ (λ i. is_raise (t.action t.round i).type) (s.num_actions s.round) 0
        (λ i l. ap (λ (a : Action). is_raise a.type) (type_same i l))
      ∙ ap (λ n. loop n (λ i r. tick (is_raise (t.action t.round i).type) r) 0) num_same

  chips_same :
      (i : ℕ)
      → i < s.num_actions s.round
      → has_chips s (s.acting_player s.round i) ≡ has_chips t (t.acting_player t.round i)
  chips_same i l =
      has_chips-Same (s.acting_player s.round i) (h.seated s.round i (omega arith) l)
      ∙ ap (has_chips t) (who_same i l)

  called_same :
      (i ret : ℕ) → i ≤ s.num_actions s.round → num_called_from s i ret ≡ num_called_from t i ret
  unfolding num_called_from
  called_same zero ret l = refl
  called_same (suc i) ret l =
      let ty : (s.action s.round i).type ≡ (t.action t.round i).type =
        ap (λ (a : Action). a.type) (type_same i (omega arith)) in
      ground (
        arith,
        ty,
        chips_same i (omega arith),
        called_same i ret (omega arith),
        called_same i (tick (has_chips s (s.acting_player s.round i)) ret) (omega arith),
      )

  pub num_called-Same : num_called s ≡ num_called t
  unfolding num_called
  num_called-Same =
      called_same (s.num_actions s.round) 0 (omega arith) ∙ ap (λ n. num_called_from t n 0) num_same

  next_same : (fuel n : ℕ) → next_player_from fuel g s n ≡ next_player_from fuel g t n
  unfolding next_player_from
  next_same zero n = refl
  next_same (suc fuel) n = ground (
    arith,
    can_act-Same ((n + 1) % g.num_players) (mod-lt (n + 1) players),
    next_same fuel ((n + 1) % g.num_players),
  )

  pub current_player-Same : current_player g s ≡ current_player g t
  unfolding current_player next_player
  current_player-Same = ground (
    arith,
    h.ended,
    num_same,
    who_same (s.num_actions s.round - 1),
    ap g.first_player h.at_round,
    next_same g.num_players ((g.first_player s.round + g.num_players - 1) % 256),
    next_same g.num_players (s.acting_player s.round (s.num_actions s.round - 1)),
  )

  -- `raiseIsValid` and `isValidAction`.
  module _ {p : ℕ} (p_in : p < g.num_players) where
    range-Same : no_limit_range s p ≡ no_limit_range t p
    unfolding no_limit_range
    range-Same = ground (arith, h.stacks p, h.least, h.bet)

  raise_is_valid-Same :
      (p : ℕ)
      → p < g.num_players
      → current_player g s ≡ some p
      → raise_is_valid g s ≡ raise_is_valid g t
  unfolding raise_is_valid
  raise_is_valid-Same p l e = ground (
    arith,
    e,
    current_player-Same,
    range-Same l,
    num_raises-Same,
    num_acting-Same,
    num_same,
    ap g.max_raises h.at_round,
  )

  valid_action_of-Same :
      (ty : ActionType) (p : ℕ) (b : Bool) (a : Action)
      → p < g.num_players
      → current_player g s ≡ some p
      → valid_action_of ty g s p b a ≡ valid_action_of ty g t p b a
  unfolding valid_action_of
  valid_action_of-Same a_fold p b a l e = ground (arith, h.chips p, h.stacks p, h.bet)
  valid_action_of-Same a_call p b a l e = refl
  valid_action_of-Same a_raise p b a l e = ground (arith, raise_is_valid-Same p l e)
  valid_action_of-Same a_invalid p b a l e = refl

  pub is_valid_action-Same :
      (p : ℕ) (b : Bool) (a : Action)
      → p < g.num_players
      → current_player g s ≡ some p
      → is_valid_action g s b a ≡ is_valid_action g t b a
  unfolding is_valid_action
  is_valid_action-Same p b a l e =
      ground (arith, h.ended, e, current_player-Same, valid_action_of-Same a.type p b a l e)
