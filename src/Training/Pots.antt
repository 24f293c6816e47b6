-- ===== src/Training/Pots.antt =====
-- What two players win and lose in `valueOfState` of modules/core/src/game.c, in chips.
use bulldog.Prelude.{
  ℕ, zero, suc, ◌*◌, ◌≤◌, ◌<◌, ◌≡◌, refl, some, ltb, arith, List, [], ◌∷◌, min, bit,
}
use bulldog.Game.{State}
use bulldog.Payoff.{
  unit, int32_max, Entry, Value, scan_rank, scan_pot, next_entries, next_index, pot_value,
  side_pots,
}
use bulldog.Queries.{ℤ, pos, negsuc, diff, pot_stake}
use bulldog.Training.{neg, ◌*ℤ◌, payoff}

-- What a player of rank `r` wins from one of rank `r'`, who both have `m` in the pot.
abbrev pub result : ℕ → ℕ → ℕ → Value
result m r r' = record { won = unit * m * bit (ltb r' r); lost = unit * m * bit (ltb r r') }

abbrev pub nothing : Value
nothing = record { won = 0; lost = 0 }

abbrev pub entry : ℕ → ℕ → Entry
entry a r = record { chips = a; rank = some r }

-- The pot of two players.
module _ (a b r r' : ℕ) (u : a ≤ int32_max) (u' : b ≤ int32_max) where
  abbrev pub two : List Entry
  two = entry a r ∷ entry b r' ∷ []

  pub first-two : 0 < a → 0 < b → side_pots 2 two 0 nothing ≡ some (result (min a b) r r')
  unfolding side_pots scan_pot scan_rank next_index next_entries pot_value
  first-two l l' = ground arith

  pub second-two : 0 < a → 0 < b → side_pots 2 two 1 nothing ≡ some (result (min a b) r' r)
  unfolding side_pots scan_pot scan_rank next_index next_entries pot_value
  second-two l l' = ground arith

-- The value `v`, in 2520ths of a chip, is `z` chips.
abbrev pub Worth : Value → ℤ → Type 0
Worth v z = diff v.won v.lost ≡ pos unit *ℤ z

pub lost-Worth : (n : ℕ) → Worth (record { won = 0; lost = unit * n }) (neg n)
unfolding ◌*ℤ◌ diff
lost-Worth zero = refl
lost-Worth (suc n) = ground arith

pub won-Worth : (n : ℕ) → Worth (record { won = unit * n; lost = 0 }) (pos n)
unfolding ◌*ℤ◌ diff
won-Worth n = ground arith

pub result-Worth : (m a b : ℕ) → Worth (result m a b) (pos m *ℤ payoff a b)
unfolding ◌*ℤ◌ diff payoff
result-Worth m a b = ground arith

pub other-Worth : (m a b : ℕ) → Worth (result m b a) (pos m *ℤ (payoff a b *ℤ negsuc 0))
unfolding ◌*ℤ◌ diff payoff
other-Worth m a b = ground arith

pub pot_stake-min : (s : State) → pot_stake s ≡ min (s.spent 0) (s.spent 1)
unfolding pot_stake
pot_stake-min s = ground arith
