-- ===== src/Betting/Count.antt =====
-- The counts of modules/core/src/game.c over players and actions, as plain counts: the `uint8_t`
-- counters of `numFolded`, `numAllIn`, `numActingPlayers` and `numCalled` do not wrap.
use mathlib.Core.Path.{subst}
use bulldog.Prelude.{
  ℕ, zero, suc, ◌+◌, ◌≤◌, ◌<◌, ◌≡◌, refl, ◌∙◌, Bool, arith, tick, bit, count, loop-tick,
}
use bulldog.Game.{ActionType, a_fold, a_call, a_raise, a_invalid, Game, State}
use bulldog.Betting.{
  can_act, has_chips, num_folded, num_acting_players, num_called_from, num_called,
}

-- How many of the last `i` actions, back to the start of the current bet, are by callers with chips.
unfoldable pub calls : (ℕ → ActionType) → (ℕ → ℕ) → (ℕ → Bool) → ℕ → ℕ
calls ty who chips zero = 0
calls ty who chips (suc i) = elim (ty i) [
  | a_raise ↦ bit (chips (who i))
  | a_call ↦ bit (chips (who i)) + calls ty who chips i
  | a_fold ↦ calls ty who chips i
  | a_invalid ↦ calls ty who chips i
]

-- A property of everyone who called or made the current bet, among the last `i` actions.
abbrev pub CallersStep : ActionType → Type 0 → Type 0 → Type 0
CallersStep a_raise here before = here
CallersStep a_call here before = here × before
CallersStep a_fold here before = before
CallersStep a_invalid here before = before

abbrev pub Callers : (ℕ → ActionType) → (ℕ → ℕ) → (ℕ → Type 0) → ℕ → Type 0
Callers ty who P zero = Unit
Callers ty who P (suc i) = CallersStep (ty i) (P (who i)) (Callers ty who P i)

abbrev pub type_at : State → ℕ → ActionType
type_at s i = (s.action s.round i).type

abbrev pub who_at : State → ℕ → ℕ
who_at s i = s.acting_player s.round i

calls-le : (ty : ℕ → ActionType) (who : ℕ → ℕ) (chips : ℕ → Bool) (i : ℕ) → calls ty who chips i ≤ i
unfolding calls
calls-le ty who chips zero = omega arith
calls-le ty who chips (suc i) = ground (arith, calls-le ty who chips i)

called_from-eq :
    (s : State) (i ret : ℕ)
    → ret + i < 256
    → num_called_from s i ret ≡ ret + calls (type_at s) (who_at s) (has_chips s) i
unfolding num_called_from calls
called_from-eq s zero ret h = omega arith
called_from-eq s (suc i) ret h =
    ground (arith, called_from-eq s i ret, called_from-eq s i (tick (has_chips s (who_at s i)) ret))

pub num_called-eq :
    (s : State)
    → s.num_actions s.round < 256
    → num_called s ≡ calls (type_at s) (who_at s) (has_chips s) (s.num_actions s.round)
unfolding num_called
num_called-eq s h = called_from-eq s (s.num_actions s.round) 0 (omega arith) ∙ omega arith

pub num_folded-eq :
    (g : Game) (s : State)
    → g.num_players < 256
    → num_folded g s ≡ count s.player_folded g.num_players
unfolding num_folded
num_folded-eq g s h = loop-tick s.player_folded g.num_players h

pub num_acting-eq :
    (g : Game) (s : State)
    → g.num_players < 256
    → num_acting_players g s ≡ count (can_act s) g.num_players
unfolding num_acting_players
num_acting-eq g s h = loop-tick (can_act s) g.num_players h

-- The count by the type of the last action.
module _ (ty : ℕ → ActionType) (who : ℕ → ℕ) (chips : ℕ → Bool) (i : ℕ) where
  pub calls-raise : ty i ≡ a_raise → calls ty who chips (suc i) ≡ bit (chips (who i))
  unfolding calls
  calls-raise e = ground arith

  pub calls-call :
      ty i ≡ a_call → calls ty who chips (suc i) ≡ bit (chips (who i)) + calls ty who chips i
  unfolding calls
  calls-call e = ground arith

  pub calls-fold : ty i ≡ a_fold → calls ty who chips (suc i) ≡ calls ty who chips i
  unfolding calls
  calls-fold e = ground arith

-- Who called does not depend on later entries, nor on the chips of anyone else.
pub calls_congr :
    (ty ty' : ℕ → ActionType) (who who' : ℕ → ℕ) (chips chips' : ℕ → Bool) (i : ℕ)
    → ((j : ℕ) → j < i → ty j ≡ ty' j)
    → ((j : ℕ) → j < i → who j ≡ who' j)
    → Callers ty who (λ p. chips p ≡ chips' p) i
    → calls ty who chips i ≡ calls ty' who' chips' i
unfolding calls
calls_congr ty ty' who who' chips chips' zero e f h = refl
calls_congr ty ty' who who' chips chips' (suc i) e f h = ground (
  arith,
  e i,
  f i,
  calls_congr ty ty' who who' chips chips' i (λ j l. e j (omega arith)) (λ j l. f j (omega arith)),
)

step-map :
    (t : ActionType) {A B C D : Type 0} → (A → C) → (B → D) → CallersStep t A B → CallersStep t C D
step-map a_raise f g h = f h
step-map a_call f g h = (f h.0, g h.1)
step-map a_fold f g h = g h
step-map a_invalid f g h = g h

pub Callers-map :
    (ty ty' : ℕ → ActionType) (who who' : ℕ → ℕ) (P Q : ℕ → Type 0) (i : ℕ)
    → ((j : ℕ) → j < i → ty j ≡ ty' j)
    → ((j : ℕ) → j < i → who j ≡ who' j)
    → ((p : ℕ) → P p → Q p)
    → Callers ty who P i
    → Callers ty' who' Q i
Callers-map ty ty' who who' P Q zero e f k h = tt
Callers-map ty ty' who who' P Q (suc i) e f k h =
    subst (λ t. CallersStep t (Q (who' i)) (Callers ty' who' Q i)) (e i (omega arith))
      (step-map (ty i) (λ x. subst Q (f i (omega arith)) (k (who i) x))
        (Callers-map ty ty' who who' P Q i (λ j l. e j (omega arith)) (λ j l. f j (omega arith)) k)
        h)

pub Callers-all :
    (ty : ℕ → ActionType) (who : ℕ → ℕ) (Q : ℕ → Type 0) (i : ℕ)
    → ((p : ℕ) → Q p)
    → Callers ty who Q i
Callers-all ty who Q zero h = tt
Callers-all ty who Q (suc i) h = all-step (ty i) (h (who i)) (Callers-all ty who Q i h)
  where
    all-step : (t : ActionType) {A B : Type 0} → A → B → CallersStep t A B
    all-step a_raise a b = a
    all-step a_call a b = (a, b)
    all-step a_fold a b = b
    all-step a_invalid a b = b
