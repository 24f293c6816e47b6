-- ===== src/History/SameStep.antt =====
-- `doAction` of modules/core/src/game.c on two states that agree on the betting: it does the same to
-- both.
use mathlib.Core.Path.{subst}
use bulldog.Prelude.{
  ℕ, ◌+◌, ◌-◌, ◌≤◌, ◌<◌, ◌≡◌, refl, sym, ◌∙◌, ap, Bool, true, ltb, leb, arith, Bool-cases, inl, inr,
  some, update,
}
use bulldog.Game.{
  ActionType, a_fold, a_call, a_raise, a_invalid, is_no_limit, max_num_actions, Action, Game, State,
}
use bulldog.Betting.{current_player, num_folded, num_called, num_acting_players}
use bulldog.Hand.{
  log_action, put_in, raise_no_limit, raise_limit, place_bet, min_raise_by, end_turn, do_action,
}
use bulldog.Betting.Turn.{current_player_sound}
use bulldog.Hand.Play.{Done, do_action-Done}
use bulldog.History.Same.{
  Same, num_folded-Same, num_acting-Same, num_called-Same, num_same, current_player-Same,
}

-- No actions are logged for the rounds to come.
abbrev pub LaterEmpty : Game → State → Type 0
LaterEmpty g s = (r : ℕ) → s.round < r → r < g.num_rounds → s.num_actions r ≡ 0

module _ {g : Game} {s t : State} (players : 0 < g.num_players) (h : Same g s t) where
  log_action-Same :
      (p : ℕ) (a : Action)
      → p < g.num_players
      → s.num_actions s.round < max_num_actions
      → Same g (log_action s p a) (log_action t p a)
  log_action-Same p a l free = record {
    bet = h.bet;
    least = h.least;
    at_round = h.at_round;
    ended = h.ended;
    in_round = h.in_round;
    chips = h.chips;
    stacks = h.stacks;
    folds = h.folds;
    lengths = λ r k. ground (arith, h.lengths r, h.at_round, num_same players h);
    entries = λ r i k j. ground (arith, h.entries r i, h.at_round, num_same players h);
    actors = λ r i k j. ground (arith, h.actors r i, h.at_round, num_same players h);
    seated = λ r i k j. ground (arith, h.seated r i);
  }

  put_in-Same : (p c c' : ℕ) → c ≡ c' → Same g (put_in s p c) (put_in t p c')
  put_in-Same p c c' e = record {
    bet = h.bet;
    least = h.least;
    at_round = h.at_round;
    ended = h.ended;
    in_round = h.in_round;
    chips = λ q k. ground (arith, h.chips q);
    stacks = h.stacks;
    folds = h.folds;
    lengths = h.lengths;
    entries = h.entries;
    actors = h.actors;
    seated = h.seated;
  }

  fold-Same :
      (p : ℕ)
      → Same g
          (record s { player_folded = update s.player_folded p true })
          (record t { player_folded = update t.player_folded p true })
  fold-Same p = record {
    bet = h.bet;
    least = h.least;
    at_round = h.at_round;
    ended = h.ended;
    in_round = h.in_round;
    chips = h.chips;
    stacks = h.stacks;
    folds = λ q k. ground (arith, h.folds q);
    lengths = h.lengths;
    entries = h.entries;
    actors = h.actors;
    seated = h.seated;
  }

  bet-Same :
      (b b' m m' : ℕ)
      → b ≡ b'
      → m ≡ m'
      → Same g
          (record s { max_spent = b; min_no_limit_raise_to = m })
          (record t { max_spent = b'; min_no_limit_raise_to = m' })
  bet-Same b b' m m' e k = record {
    bet = e;
    least = k;
    at_round = h.at_round;
    ended = h.ended;
    in_round = h.in_round;
    chips = h.chips;
    stacks = h.stacks;
    folds = h.folds;
    lengths = h.lengths;
    entries = h.entries;
    actors = h.actors;
    seated = h.seated;
  }

  -- The round and the end of the hand.
  moved-Same :
      (r r' least least' : ℕ) (f f' : Bool)
      → LaterEmpty g s
      → s.round ≤ r
      → r < g.num_rounds
      → r ≡ r'
      → least ≡ least'
      → f ≡ f'
      → Same g
          (record s { round = r; min_no_limit_raise_to = least; finished = f })
          (record t { round = r'; min_no_limit_raise_to = least'; finished = f' })
  moved-Same r r' least least' f f' empty le lt e k q = record {
    bet = h.bet;
    least = k;
    at_round = e;
    ended = q;
    in_round = lt;
    chips = h.chips;
    stacks = h.stacks;
    folds = h.folds;
    lengths = h.lengths;
    entries = λ n i a b. ground (arith, h.entries n i, empty n);
    actors = λ n i a b. ground (arith, h.actors n i, empty n);
    seated = λ n i a b. ground (arith, h.seated n i, empty n);
  }

  end_turn-Same : LaterEmpty g s → Same g (end_turn g s) (end_turn g t)
  unfolding end_turn
  end_turn-Same empty =
      let folded : num_folded g s ≡ num_folded g t = num_folded-Same players h in
      let acting : num_acting_players g s ≡ num_acting_players g t = num_acting-Same players h in
      let called : num_called s ≡ num_called t = num_called-Same players h in
      rw (sym folded, sym acting, sym called)
        (elim (Bool-cases (leb g.num_players (num_folded g s + 1))) [
          | inl a ↦ simp a (
              moved-Same s.round t.round _ _ true true empty (omega arith) h.in_round h.at_round
                h.least refl)
          | inr a ↦ elim (Bool-cases (leb (num_acting_players g s) (num_called s))) [
            | inl b ↦ elim (Bool-cases (ltb 1 (num_acting_players g s))) [
              | inl c ↦ elim (Bool-cases (ltb (s.round + 1) g.num_rounds)) [
                | inl d ↦
                    let d' = ap (λ x. ltb (x + 1) g.num_rounds) (sym h.at_round) ∙ d in
                    simp (a, b, c, d, d')
                      (moved-Same (s.round + 1) (t.round + 1) _ _ s.finished t.finished empty
                        (omega arith) (ground arith) (ap (λ x. x + 1) h.at_round)
                        (ap (λ x. min_raise_by g + x) h.bet) h.ended)
                | inr d ↦
                    let d' = ap (λ x. ltb (x + 1) g.num_rounds) (sym h.at_round) ∙ d in
                    simp (a, b, c, d, d')
                      (moved-Same s.round t.round _ _ true true empty (omega arith) h.in_round
                        h.at_round h.least refl)
              ]
              | inr c ↦
                  simp (a, b, c)
                    (moved-Same (g.num_rounds - 1) (g.num_rounds - 1) _ _ true true empty
                      (omega (arith, h.in_round)) (omega (arith, h.in_round)) refl h.least refl)
            ]
            | inr b ↦ simp (a, b) h
          ]
        ])

module _ {g : Game} {s t : State} (players : 0 < g.num_players) (h : Same g s t) where
  -- The bet is placed in both.
  abbrev Both : ActionType → ℕ → ℕ → State → Type 0
  Both ty p size u =
      (u' : State) × (place_bet ty g t p size ≡ some u')
      × Same g u u'
      × (u.num_actions ≡ s.num_actions)
      × (u.round ≡ s.round)

  place_bet-Same :
      (ty : ActionType) (p size : ℕ) {u : State}
      → p < g.num_players
      → place_bet ty g s p size ≡ some u
      → Both ty p size u
  unfolding place_bet
  place_bet-Same a_fold p size l e =
      subst (Both a_fold p size) (cc) (_, refl, fold-Same players h p, refl, refl)
  place_bet-Same a_call p size {u} l e = elim (Bool-cases (ltb (s.stack_player p) s.max_spent)) [
    | inl c ↦
        let u_is : put_in s p (s.stack_player p) ≡ u = ground arith in
        subst (Both a_call p size) u_is (
          put_in t p (t.stack_player p),
          ground (arith, h.stacks p, h.bet),
          put_in-Same players h p _ _ (h.stacks p l),
          refl,
          refl,
        )
    | inr c ↦
        let u_is : put_in s p s.max_spent ≡ u = ground arith in
        subst (Both a_call p size) u_is (
          put_in t p t.max_spent,
          ground (arith, h.stacks p, h.bet),
          put_in-Same players h p _ _ h.bet,
          refl,
          refl,
        )
  ]
  place_bet-Same a_raise p size {u} l e = elim (Bool-cases (is_no_limit g.betting_type)) [
    | inl n ↦
        let u_is : put_in (raise_no_limit s size) p size ≡ u = ground arith in
        subst (Both a_raise p size) u_is (
          put_in (raise_no_limit t size) p size,
          ground (arith, h.stacks p, h.bet),
          put_in-Same players (bet-Same players h _ _ _ _ refl (ground (arith, h.bet, h.least))) p
              size size refl,
          refl,
          refl,
        )
    | inr n ↦
        let u_is : put_in (raise_limit g s p) p (raise_limit g s p).max_spent ≡ u = ground arith in
        subst (Both a_raise p size) u_is (
          put_in (raise_limit g t p) p (raise_limit g t p).max_spent,
          ground arith,
          put_in-Same players (bet-Same players h _ _ _ _ limit_bet h.least) p _ _ limit_bet,
          refl,
          refl,
        )
  ]
    where
      limit_bet : (raise_limit g s p).max_spent ≡ (raise_limit g t p).max_spent
      limit_bet = ground (arith, h.stacks p, h.bet, ap g.raise_size h.at_round)
  place_bet-Same a_invalid p size l e = cc

module _ {g : Game} {s t : State} (players : 0 < g.num_players) (h : Same g s t) where
  runs_on :
      (p : ℕ) (a : Action) (v : State)
      → current_player g t ≡ some p
      → t.num_actions t.round < max_num_actions
      → place_bet a.type g (log_action t p a) p a.size ≡ some v
      → do_action g a t ≡ some (end_turn g v)
  unfolding do_action
  runs_on p a v e free q = ground arith

  -- Where `doAction` carries out an action on the one, it does so on the other, and they agree again.
  pub do_action-Same :
      (a : Action) {u : State}
      → LaterEmpty g s
      → do_action g a s ≡ some u
      → (u' : State) × (do_action g a t ≡ some u') × Same g u u'
  do_action-Same a {u} empty e =
      let d : Done g a s u = do_action-Done g a s e in
      let l : d.player < g.num_players = (current_player_sound g s players d.turn).0 in
      let (v, bet, same, num, rnd) =
        place_bet-Same players (log_action-Same players h d.player a l d.space) a.type d.player
          a.size l d.bet in
      (
        end_turn g v,
        runs_on d.player a v (sym (current_player-Same players h) ∙ d.turn)
            (omega (arith, d.space, num_same players h)) bet,
        subst (λ x. Same g x (end_turn g v)) (sym d.ended)
            (end_turn-Same players same (λ r a b. ground (arith, empty r, ap (λ f. f r) num, rnd))),
      )
