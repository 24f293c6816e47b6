-- ===== src/Hand/EndTurn.antt =====
-- The end of `doAction` in modules/core/src/game.c: whether the round or the hand ends.
use bulldog.Prelude.{
  ℕ, zero, suc, ◌+◌, ◌-◌, ◌≤◌, ◌<◌, ◌≡◌, refl, true, false, leb, ltb, arith, loop, if◌then◌else◌,
  Bool-cases, inl, inr, count-le,
}
use bulldog.Game.{Game, State}
use bulldog.Betting.{can_act, num_folded, num_acting_players, num_called}
use bulldog.Hand.{min_raise_by, over, next_round, showdown, end_turn}
use bulldog.Betting.Count.{calls, num_called-eq, num_folded-eq, num_acting-eq}
use bulldog.Betting.Invariant.{IsGame, LogOf, Chips, Log, Turn, IsValid, acting, called, folded}

min_raise_by_pos : (g : Game) → 1 ≤ min_raise_by g
unfolding min_raise_by
min_raise_by_pos g = go g.num_players
  where
    go : (n : ℕ) → 1 ≤ loop n (λ p least. if ltb least (g.blind p) then g.blind p else least) 1
    go zero = omega arith
    go (suc n) = ground (arith, go n)

-- `end_turn` is one of five outcomes, by the plain counts.
data Outcome (g : Game) (s : State) (t : State) : Type 0 where
  won : t ≡ over s → Outcome g s t
  played : t ≡ over s → Outcome g s t
  shown : t ≡ showdown g s → Outcome g s t
  advanced :
      s.round + 1 < g.num_rounds
      → 1 < acting g s
      → folded g s + 1 < g.num_players
      → t ≡ next_round g s
      → Outcome g s t
  continues : called s < acting g s → folded g s + 1 < g.num_players → t ≡ s → Outcome g s t

module _ {g : Game} (s : State) (ok : IsGame g) (log : Log g s) where
  -- The tests of `end_turn` as plain counts.
  end_turn-Outcome : Outcome g s (end_turn g s)
  unfolding end_turn
  end_turn-Outcome = elim (Bool-cases (leb g.num_players (num_folded g s + 1))) [
    | inl a ↦ won (simp a)
    | inr a ↦ elim (Bool-cases (leb (num_acting_players g s) (num_called s))) [
      | inl b ↦ elim (Bool-cases (ltb 1 (num_acting_players g s))) [
        | inl c ↦ elim (Bool-cases (ltb (s.round + 1) g.num_rounds)) [
          | inl d ↦
              advanced (ground arith) (ground (arith, acting_eq)) (ground (arith, folded_eq))
                (simp (a, b, c, d))
          | inr d ↦ played (simp (a, b, c, d))
        ]
        | inr c ↦ shown (simp (a, b, c))
      ]
      | inr b ↦
          continues (ground (arith, acting_eq, called_eq)) (ground (arith, folded_eq)) (simp (a, b))
    ]
  ]
    where
      called_eq : num_called s ≡ called s
      called_eq = num_called-eq s (omega (arith, log.fits s.round log.round_in))

      folded_eq : num_folded g s ≡ folded g s
      folded_eq = num_folded-eq g s (omega (arith, ok.players_max))

      acting_eq : num_acting_players g s ≡ acting g s
      acting_eq = num_acting-eq g s (omega (arith, ok.players_max))

Log-advance :
    {g : Game} {n : ℕ → ℕ} {q r : ℕ} → q ≤ r → r < g.num_rounds → LogOf g n q → LogOf g n r
Log-advance le lt log = record {
  round_in = lt;
  fits = log.fits;
  later_empty = λ k l. log.later_empty k (omega arith);
}

-- A hand that is over has only to keep its chips and its log.
finished-IsValid : {g : Game} (s : State) → s.finished ≡ true → Chips g s → Log g s → IsValid g s
finished-IsValid s f c l = record { chips = c; log = l; turn = λ e. cc; in_play = λ e. cc }

-- A new round starts with an empty log.
next_round-IsValid :
    {g : Game} (s : State)
    → IsGame g
    → Chips g s
    → Log g s
    → s.round + 1 < g.num_rounds
    → 1 < acting g s
    → folded g s + 1 < g.num_players
    → IsValid g (next_round g s)
unfolding calls
next_round-IsValid {g} s ok c l lt two more = record {
  chips = c;
  log = Log-advance (omega arith) lt l;
  turn = λ e. record {
    raise_tops = λ n. omega (arith, min_raise_by_pos g);
    matched = rw empty tt;
    room = rw empty (omega (arith, count-le (can_act s) g.num_players, ok.players_max));
  };
  in_play = λ e. record { waiting = rw empty (omega arith); contested = more };
}
  where
    empty : s.num_actions (s.round + 1) ≡ 0
    empty = l.later_empty (s.round + 1) (omega arith) lt

-- After the bet is placed, `end_turn` leaves a valid hand.
pub end_turn-IsValid :
    {g : Game} (s : State)
    → IsGame g
    → Chips g s
    → Log g s
    → Turn g s
    → s.finished ≡ false
    → IsValid g (end_turn g s)
end_turn-IsValid {g} s ok c l t f = elim (end_turn-Outcome s ok l) [
  | won e ↦ rw e (ended s.round (omega arith) l.round_in)
  | played e ↦ rw e (ended s.round (omega arith) l.round_in)
  | shown e ↦
      rw e (ended (g.num_rounds - 1) (omega (arith, l.round_in)) (omega (arith, l.round_in)))
  | advanced lt two more e ↦ rw e (next_round-IsValid s ok c l lt two more)
  | continues w k e ↦ rw e (record {
    chips = c;
    log = l;
    turn = λ _. t;
    in_play = λ _. record { waiting = w; contested = k };
  })
]
  where
    ended :
        (r : ℕ)
        → s.round ≤ r
        → r < g.num_rounds
        → IsValid g (record s { finished = true; round = r })
    ended r le lt = finished-IsValid _ refl c (Log-advance le lt l)
