-- ===== src/Betting/Rules.antt =====
-- The rules of betting, and how `raiseIsValid` and the size test of `isValidAction` of
-- modules/core/src/game.c relate to them. The raises left are by the code's own count, and a raise in a
-- limit game has no rule on its size.
use bulldog.Prelude.{
  ℕ, ◌+◌, ◌-◌, ◌≤◌, ◌<◌, ◌≡◌, ◌⊎◌, Bool, true, false, not, ◌&&◌, leb, ltb, arith, if◌then◌else◌,
  Bool-cases, inl, inr, none, some,
}
use bulldog.Game.{
  ActionType, a_fold, a_call, a_raise, a_invalid, max_num_actions, is_no_limit, Action, Game, State,
}
use bulldog.Betting.{
  num_raises, num_acting_players, current_player, RaiseRange, no_limit_range, raise_is_valid,
  fit_size,
}
use bulldog.Betting.Count.{num_acting-eq}
use bulldog.Betting.Invariant.{IsGame, Turn, acting}

-- When a raise is open to the player to act: raises are left in the round, the log has room for the
-- raise and a call by everyone else, and someone is left to call it.
pub record RaiseOpen (g : Game) (s : State) : Type 0 where
  pub raises_left : num_raises s < g.max_raises s.round
  pub space : s.num_actions s.round + g.num_players ≤ max_num_actions
  pub rivals : 2 ≤ acting g s

-- The sizes of a raise in a no-limit game: it tops the bet, the player can pay it, and it is at least
-- the least raise unless it is all-in.
pub record LegalSize (s : State) (p size : ℕ) : Type 0 where
  pub tops : s.max_spent < size
  pub covered : size ≤ s.stack_player p
  pub enough : (s.min_no_limit_raise_to ≤ size) ⊎ (size ≡ s.stack_player p)

abbrev pub LegalOf : ActionType → Game → State → ℕ → ℕ → Type 0
LegalOf a_fold g s p size = Unit
LegalOf a_call g s p size = Unit
LegalOf a_raise g s p size =
    RaiseOpen g s × (is_no_limit g.betting_type ≡ true → LegalSize s p size)
LegalOf a_invalid g s p size = ⊥

-- What player `p`, who is to act, may do.
abbrev pub Legal : Game → State → ℕ → Action → Type 0
Legal g s p a = LegalOf a.type g s p a.size

-- What `raiseIsValid` tests before it looks at the sizes.
unfoldable pub open_tests : Game → State → Bool
open_tests g s =
    not (leb (g.max_raises s.round) (num_raises s))
    && not (ltb max_num_actions (s.num_actions s.round + g.num_players))
    && not (leb (num_acting_players g s) 1)

module _ {g : Game} (s : State) {p : ℕ} (ok : IsGame g) (here : current_player g s ≡ some p) where
  pub RaiseOpen-tests : open_tests g s ≡ true → RaiseOpen g s
  unfolding open_tests
  RaiseOpen-tests e = ground (arith, num_acting-eq g s)

  pub tests-RaiseOpen : RaiseOpen g s → open_tests g s ≡ true
  unfolding open_tests
  tests-RaiseOpen e = ground (arith, num_acting-eq g s)

  pub raise-closed : open_tests g s ≡ false → raise_is_valid g s ≡ some none
  unfolding open_tests raise_is_valid
  raise-closed e = ground arith

  pub raise-limit :
      open_tests g s ≡ true
      → is_no_limit g.betting_type ≡ false
      → raise_is_valid g s ≡ some (some (record { min_size = 0; max_size = 0 }))
  unfolding open_tests raise_is_valid
  raise-limit e b = ground arith

  pub raise-no_limit :
      open_tests g s ≡ true
      → is_no_limit g.betting_type ≡ true
      → raise_is_valid g s ≡ some (no_limit_range s p)
  unfolding open_tests raise_is_valid
  raise-no_limit e b = ground arith

module _ {g : Game} (s : State) (p : ℕ) (turn : Turn g s) where
  -- The sizes that `raiseIsValid` hands back are those that the rules allow.
  pub range-LegalSize :
      is_no_limit g.betting_type ≡ true
      → (r : RaiseRange) → no_limit_range s p ≡ some r
      → (size : ℕ) → r.min_size ≤ size
      → size ≤ r.max_size
      → LegalSize s p size
  unfolding no_limit_range
  range-LegalSize n r e size lo hi = ground (arith, turn.raise_tops n)

  pub LegalSize-range :
      is_no_limit g.betting_type ≡ true
      → (size : ℕ) → LegalSize s p size
      → (r : RaiseRange) × (no_limit_range s p ≡ some r) × (r.min_size ≤ size) × (size ≤ r.max_size)
  unfolding no_limit_range
  LegalSize-range n size l = elim (Bool-cases (ltb (s.stack_player p) s.min_no_limit_raise_to)) [
    | inl c ↦ (
      record { min_size = s.stack_player p; max_size = s.stack_player p },
      ground arith,
      ground arith,
      ground arith,
    )
    | inr c ↦ (
      record { min_size = s.min_no_limit_raise_to; max_size = s.stack_player p },
      ground arith,
      ground arith,
      ground arith,
    )
  ]

  pub range-nonempty :
      is_no_limit g.betting_type ≡ true
      → (r : RaiseRange) → no_limit_range s p ≡ some r
      → r.min_size ≤ r.max_size
  unfolding no_limit_range
  range-nonempty n r e = ground (arith, turn.raise_tops n)

-- What `fit_size` accepts lies in the range, and has the type of the action given.
pub fit_size-in :
    (b : Bool) (r : RaiseRange) (a : Action)
    → r.min_size ≤ r.max_size
    → 0 < (fit_size b r a).0
    → (r.min_size ≤ (fit_size b r a).1.size)
      × ((fit_size b r a).1.size ≤ r.max_size)
      × ((fit_size b r a).1.type ≡ a.type)
unfolding fit_size
fit_size-in b r a h c = ground arith

pub fit_size-exact :
    (b : Bool) (r : RaiseRange) (a : Action)
    → r.min_size ≤ a.size
    → a.size ≤ r.max_size
    → fit_size b r a ≡ (1, a)
unfolding fit_size
fit_size-exact b r a h c = ground arith

-- The size in the range that is nearest to the one given.
pub clamp : RaiseRange → ℕ → ℕ
clamp r size =
    if ltb size r.min_size then r.min_size else if ltb r.max_size size then r.max_size else size

-- How far two sizes are apart.
abbrev pub distance : ℕ → ℕ → ℕ
distance a b = (a - b) + (b - a)

pub fit_size-clamp :
    (r : RaiseRange) (a : Action)
    → r.min_size ≤ r.max_size
    → fit_size true r a ≡ (1, record a { size = clamp r a.size })
unfolding fit_size clamp
fit_size-clamp r a h = ground arith

pub clamp-lo : (r : RaiseRange) (size : ℕ) → r.min_size ≤ r.max_size → r.min_size ≤ clamp r size
unfolding clamp
clamp-lo r size h = ground arith

pub clamp-hi : (r : RaiseRange) (size : ℕ) → r.min_size ≤ r.max_size → clamp r size ≤ r.max_size
unfolding clamp
clamp-hi r size h = ground arith

pub clamp-nearest :
    (r : RaiseRange) (size k : ℕ)
    → r.min_size ≤ r.max_size
    → r.min_size ≤ k
    → k ≤ r.max_size
    → distance (clamp r size) size ≤ distance k size
unfolding clamp
clamp-nearest r size k h lo hi = ground arith
