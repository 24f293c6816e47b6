-- ===== src/Training/Stakes.antt =====
-- The stakes of training against `valueOfState` of modules/core/src/game.c.
use bulldog.Prelude.{
  ℕ, zero, suc, ◌+◌, ◌-◌, ◌*◌, ◌≤◌, ◌<◌, ◌≡◌, ◌≢◌, ◌⊎◌, refl, ap, ◌∙◌, Bool, true, false, some,
  ◌==◌, arith, Bool-cases, inl, inr, List, min, bit, if◌then◌else◌, guard, ◌>>◌, ◌>>=◌,
}
use bulldog.Game.{undefined_card, Game, State}
use bulldog.Betting.{num_folded}
use bulldog.Payoff.{
  unit, int32_max, Entry, Value, side_pots, rank_of, entries, index_of, others_spent,
  value_of_state,
}
use bulldog.Queries.{ℤ, pos, negsuc, pot_stake}
use bulldog.Training.{neg, ◌*ℤ◌, is_showdown, get_stake, payoff, payoff_at, eval_term_node}
use bulldog.Training.Pots.{
  result, nothing, two, first-two, second-two, Worth, lost-Worth, won-Worth, result-Worth,
  other-Worth, pot_stake-min,
}

-- The stake of a terminal node.
get_stake-over :
    (s : State) (p : ℕ) (shows : Bool)
    → s.finished ≡ true
    → is_showdown s ≡ shows
    → get_stake s p
      ≡ some (
          if shows
          then pos (pot_stake s)
          else if s.player_folded p
          then neg (pot_stake s)
          else pos (pot_stake s))
unfolding get_stake
get_stake-over s p shows e e' =
    ap
      (λ b.
        guard b
        >> some (
            if is_showdown s
            then pos (pot_stake s)
            else if s.player_folded p
            then neg (pot_stake s)
            else pos (pot_stake s)))
      e
    ∙ ap
        (λ b. some (
          if b
          then pos (pot_stake s)
          else if s.player_folded p
          then neg (pot_stake s)
          else pos (pot_stake s)))
        e'

eval-fold :
    (rank : ℕ → ℕ) (s : State) (p : ℕ)
    → s.finished ≡ true
    → is_showdown s ≡ false
    → eval_term_node rank s p
      ≡ some (if s.player_folded p then neg (pot_stake s) else pos (pot_stake s))
unfolding eval_term_node
eval-fold rank s p e e' = rw e' (get_stake-over s p false e e')

eval-showdown :
    (rank : ℕ → ℕ) (s : State) (p : ℕ)
    → s.finished ≡ true
    → is_showdown s ≡ true
    → eval_term_node rank s p ≡ some (pos (min (s.spent 0) (s.spent 1)) *ℤ payoff_at rank p)
unfolding eval_term_node
eval-showdown rank s p e e' =
    rw e' (ap (λ o. o >>= λ k. some (k *ℤ payoff_at rank p)) (get_stake-over s p true e e'))
    ∙ ap (λ n. some (pos n *ℤ payoff_at rank p)) (pot_stake-min s)

-- A hand of two players that is over: both have put something in, a player who has folded has not put
-- in more than the other, and without a fold both show their cards.
pub record HeadsUp (g : Game) (s : State) : Type 0 where
  pub seats : g.num_players ≡ 2
  pub over : s.finished ≡ true
  pub paid : (p : ℕ) → p < 2 → 0 < s.spent p
  pub int32 : (p : ℕ) → p < 2 → s.spent p ≤ int32_max
  pub one_left : s.player_folded 0 ≡ true → s.player_folded 1 ≡ false
  pub first_folds : s.player_folded 0 ≡ true → s.spent 0 ≤ s.spent 1
  pub second_folds : s.player_folded 1 ≡ true → s.spent 1 ≤ s.spent 0
  pub shown :
      (p : ℕ)
      → p < 2
      → s.player_folded p ≡ false
      → s.hole_cards p (g.num_hole_cards - 1) ≢ undefined_card

module _ (rank_hand : State → ℕ → ℕ) (g : Game) (s : State) (h : HeadsUp g s) where
  abbrev hands : List Entry
  hands =
      two (s.spent 0) (s.spent 1) (rank_hand s 0) (rank_hand s 1) (h.int32 0 (omega arith))
        (h.int32 1 (omega arith))

  two_hands :
      s.player_folded 0 ≡ false → s.player_folded 1 ≡ false → entries rank_hand g s 2 0 ≡ hands
  unfolding entries rank_of
  two_hands f f' = ground (
    arith,
    h.paid 0 (omega arith),
    h.paid 1 (omega arith),
    h.shown 0 (omega arith) f,
    h.shown 1 (omega arith) f',
  )

  place : (p : ℕ) → p < 2 → index_of rank_hand g s 2 0 p ≡ some p
  unfolding index_of
  place zero l = ground (arith, h.paid 0 (omega arith))
  place (suc zero) l = ground (arith, h.paid 0 (omega arith), h.paid 1 (omega arith))
  place (suc (suc p)) l = absurd (omega arith)

  folds :
      (num_folded g s + 1 == g.num_players)
      ≡ ((bit (s.player_folded 0) + bit (s.player_folded 1)) == 1)
  unfolding num_folded
  folds = rw (h.seats) (ground arith)

  -- Without a fold, the value is that of the side pots.
  opened :
      (p : ℕ)
      → p < 2
      → s.player_folded 0 ≡ false
      → s.player_folded 1 ≡ false
      → value_of_state rank_hand g s p ≡ side_pots 2 hands p nothing
  unfolding value_of_state
  opened p l f f' =
      let here : s.player_folded p ≡ false = seat p l in
      rw
        (
          here,
          folds ∙ none_folds,
          ap (λ n. entries rank_hand g s n 0) h.seats ∙ two_hands f f',
          ap (λ n. index_of rank_hand g s n 0 p) h.seats ∙ place p l,
        )
        refl
    where
      seat : (p : ℕ) → p < 2 → s.player_folded p ≡ false
      seat zero l = f
      seat (suc zero) l = f'
      seat (suc (suc p)) l = absurd (omega arith)

      none_folds : ((bit (s.player_folded 0) + bit (s.player_folded 1)) == 1) ≡ false
      none_folds = rw (f, f') refl

  abbrev Agree : ℕ → Type 0
  Agree p =
      (v : Value) × (z : ℤ) × (value_of_state rank_hand g s p ≡ some v)
      × (eval_term_node (rank_hand s) s p ≡ some z)
      × Worth v z

  loser-Agree :
      (p : ℕ) → s.player_folded p ≡ true → is_showdown s ≡ false → pot_stake s ≡ s.spent p → Agree p
  unfolding value_of_state
  loser-Agree p f hidden m = (
    record { won = 0; lost = unit * s.spent p },
    neg (s.spent p),
    rw f refl,
    eval-fold (rank_hand s) s p h.over hidden ∙ rw f (ap (λ n. some (neg n)) m),
    lost-Worth (s.spent p),
  )

  winner-Agree :
      (p n : ℕ)
      → s.player_folded p ≡ false
      → is_showdown s ≡ false
      → (num_folded g s + 1 == g.num_players) ≡ true
      → others_spent rank_hand g s 2 p ≡ n
      → pot_stake s ≡ n
      → Agree p
  unfolding value_of_state
  winner-Agree p n f hidden folded o m = (
    record { won = unit * n; lost = 0 },
    pos n,
    rw (f, folded)
        (ap (λ k. some (record { won = unit * k; lost = 0 }))
          (ap (λ k. others_spent rank_hand g s k p) h.seats ∙ o)),
    eval-fold (rank_hand s) s p h.over hidden ∙ rw f (ap (λ n. some (pos n)) m),
    won-Worth n,
  )

  shows : s.player_folded 0 ≡ false → s.player_folded 1 ≡ false → is_showdown s ≡ true
  unfolding is_showdown
  shows f f' = ground (arith, h.over)

  showdown-Agree : (p : ℕ) → p < 2 → s.player_folded 0 ≡ false → s.player_folded 1 ≡ false → Agree p
  unfolding payoff_at
  showdown-Agree zero l f f' = (
    result (min (s.spent 0) (s.spent 1)) (rank_hand s 0) (rank_hand s 1),
    pos (min (s.spent 0) (s.spent 1)) *ℤ payoff (rank_hand s 0) (rank_hand s 1),
    opened 0 (omega arith) f f'
        ∙ first-two (s.spent 0) (s.spent 1) (rank_hand s 0) (rank_hand s 1)
            (h.int32 0 (omega arith)) (h.int32 1 (omega arith)) (h.paid 0 (omega arith))
            (h.paid 1 (omega arith)),
    eval-showdown (rank_hand s) s 0 h.over (shows f f'),
    result-Worth (min (s.spent 0) (s.spent 1)) (rank_hand s 0) (rank_hand s 1),
  )
  showdown-Agree (suc zero) l f f' = (
    result (min (s.spent 0) (s.spent 1)) (rank_hand s 1) (rank_hand s 0),
    pos (min (s.spent 0) (s.spent 1)) *ℤ (payoff (rank_hand s 0) (rank_hand s 1) *ℤ negsuc 0),
    opened 1 (omega arith) f f'
        ∙ second-two (s.spent 0) (s.spent 1) (rank_hand s 0) (rank_hand s 1)
            (h.int32 0 (omega arith)) (h.int32 1 (omega arith)) (h.paid 0 (omega arith))
            (h.paid 1 (omega arith)),
    eval-showdown (rank_hand s) s 1 h.over (shows f f'),
    other-Worth (min (s.spent 0) (s.spent 1)) (rank_hand s 0) (rank_hand s 1),
  )
  showdown-Agree (suc (suc p)) l f f' = absurd (omega arith)

  hides : (s.player_folded 0 ≡ true) ⊎ (s.player_folded 1 ≡ true) → is_showdown s ≡ false
  unfolding is_showdown
  hides f = ground (arith, h.over, f)

-- When a hand of two players is over, both have put something in, a player who has folded has not put
-- in more than the other, and without a fold both show their cards, then EvalTermNode returns for each
-- player, on the two ranks that rankHand gives, the value that valueOfState returns.
pub eval_term_node-value_of_state :
    (rank_hand : State → ℕ → ℕ) (g : Game) (s : State)
    → HeadsUp g s
    → (p : ℕ) → p < 2
    → (v : Value) × (z : ℤ) × (value_of_state rank_hand g s p ≡ some v)
      × (eval_term_node (rank_hand s) s p ≡ some z)
      × Worth v z
unfolding others_spent
eval_term_node-value_of_state rank_hand g s h p l = elim (Bool-cases (s.player_folded 0)) [
  | inl f ↦ first p l f
  | inr f ↦ elim (Bool-cases (s.player_folded 1)) [
    | inl f' ↦ second p l f f'
    | inr f' ↦ showdown-Agree rank_hand g s h p l f f'
  ]
]
  where
    first : (p : ℕ) → p < 2 → s.player_folded 0 ≡ true → Agree rank_hand g s h p
    first zero l f =
        loser-Agree rank_hand g s h 0 f (hides rank_hand g s h (inl f))
          (omega (arith, pot_stake-min s, h.first_folds f))
    first (suc zero) l f =
        winner-Agree rank_hand g s h 1 (s.spent 0) (h.one_left f) (hides rank_hand g s h (inl f))
          (folds rank_hand g s h ∙ rw (f, h.one_left f) refl) (omega arith)
          (omega (arith, pot_stake-min s, h.first_folds f))
    first (suc (suc p)) l f = absurd (omega arith)

    second :
        (p : ℕ)
        → p < 2
        → s.player_folded 0 ≡ false
        → s.player_folded 1 ≡ true
        → Agree rank_hand g s h p
    second zero l f f' =
        winner-Agree rank_hand g s h 0 (s.spent 1) f (hides rank_hand g s h (inr f'))
          (folds rank_hand g s h ∙ rw (f, f') refl) (omega arith)
          (omega (arith, pot_stake-min s, h.second_folds f'))
    second (suc zero) l f f' =
        loser-Agree rank_hand g s h 1 f' (hides rank_hand g s h (inr f'))
          (omega (arith, pot_stake-min s, h.second_folds f'))
    second (suc (suc p)) l f f' = absurd (omega arith)
