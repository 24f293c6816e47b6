-- ===== src/Hand/Start.antt =====
-- The start of a hand: `initState` of modules/core/src/game.c.
use bulldog.Prelude.{
  ℕ, zero, suc, ◌≤◌, ◌<◌, ◌≡◌, ◌⊎◌, refl, sym, ◌∙◌, ap, true, false, ltb, ◌==◌, arith,
  if◌then◌else◌, Bool-cases, inl, inr, update, loop, count_pos, count_none, count-le,
}
use bulldog.Game.{max_board_cards, undefined_card, is_no_limit, Game, State}
use bulldog.Betting.{can_act}
use bulldog.Hand.{init_player, clear_round_spent, first_raise_to, init_state}
use bulldog.Betting.Count.{calls}
use bulldog.Betting.Invariant.{IsGame, Chips, Log, Turn, Open, IsValid}

-- The stack with which a player starts: the game's, or the one that the state already holds.
abbrev pub start_stack : Game → State → ℕ → ℕ
start_stack g s p = if g.use_state_stack then s.stack_player p else g.stack p

-- `for (i = 0; i < n; ++i) f[i] = v;`
pub loop-update {ℓ} :
    {A : Type ℓ} (n : ℕ) (v : A) (f : ℕ → A) (j : ℕ) → j < n → loop n (λ i h. update h i v) f j ≡ v
loop-update zero v f j l = elim l [ ]
loop-update (suc n) v f j l = elim (Bool-cases (n == j)) [
  | inl e ↦ ground arith
  | inr e ↦ ground (arith, loop-update n v f j)
]

-- A game and stacks with which a hand can start: the blinds can be paid, and with them paid someone
-- has chips left. In a limit game the stacks are equal.
pub record CanStart (g : Game) (s : State) : Type 0 where
  pub blinds : (p : ℕ) → p < g.num_players → g.blind p ≤ start_stack g s p
  pub player : ℕ
  pub player_in : player < g.num_players
  pub player_has : g.blind player < start_stack g s player
  pub level :
      is_no_limit g.betting_type ≡ false
      → (p q : ℕ) → p < g.num_players
      → q < g.num_players
      → start_stack g s p ≡ start_stack g s q

-- What the loop of `initState` has done after `n` players.
record Seated (g : Game) (s t : State) (n : ℕ) : Type 0 where
  spent_eq : (p : ℕ) → p < n → t.spent p ≡ g.blind p
  stack_eq : (p : ℕ) → p < n → t.stack_player p ≡ start_stack g s p
  stays : (p : ℕ) → g.use_state_stack ≡ true → t.stack_player p ≡ s.stack_player p
  unfolded : (p : ℕ) → p < n → t.player_folded p ≡ false
  covers : (p : ℕ) → p < n → g.blind p ≤ t.max_spent
  bettor : ℕ
  attained : ((n ≡ 0) × (t.max_spent ≡ 0)) ⊎ ((bettor < n) × (g.blind bettor ≡ t.max_spent))
  first_round : t.round ≡ 0

largest-suc :
    (g : Game) (n m b : ℕ)
    → ((n ≡ 0) × (m ≡ 0)) ⊎ ((b < n) × (g.blind b ≡ m))
    → (c : ℕ) × (c < suc n) × (g.blind c ≡ (if ltb m (g.blind n) then g.blind n else m))
largest-suc g n m b h = elim (Bool-cases (ltb m (g.blind n))) [
  | inl t ↦ (n, omega arith, ground arith)
  | inr t ↦ elim h [
    | inl z ↦ (n, omega arith, ground arith)
    | inr k ↦ (b, omega arith, ground arith)
  ]
]

seat-players :
    (g : Game) (s : State) (start : State)
    → start.stack_player ≡ s.stack_player
    → start.max_spent ≡ 0
    → start.round ≡ 0
    → (n : ℕ) → Seated g s (loop n (init_player g) start) n
unfolding init_player
seat-players g s start e m r zero = record {
  spent_eq = λ p l. elim l [ ];
  stack_eq = λ p l. elim l [ ];
  stays = λ p u. ap (λ f. f p) e;
  unfolded = λ p l. elim l [ ];
  covers = λ p l. elim l [ ];
  bettor = 0;
  attained = inl (refl, m);
  first_round = r;
}
seat-players g s start e m r (suc n) =
    let h : Seated g s (loop n (init_player g) start) n = seat-players g s start e m r n in
    let (b, lt, eq) =
      largest-suc g n (loop n (init_player g) start).max_spent h.bettor h.attained in
    record {
      spent_eq = λ p l. ground (arith, h.spent_eq p);
      stack_eq = λ p l. ground (arith, h.stack_eq p, h.stays p);
      stays = λ p u. ground (arith, h.stays p);
      unfolded = λ p l. ground (arith, h.unfolded p);
      covers = λ p l. ground (arith, h.covers p);
      bettor = b;
      attained = inr (lt, eq);
      first_round = h.first_round;
    }

-- The state with which the loop of `initState` over the players begins, and the one that it leaves.
abbrev cleared : Game → ℕ → State → State
cleared g hand_id s = record s {
  hand_id = hand_id;
  round = 0;
  sum_round_spent = clear_round_spent g s.sum_round_spent;
  max_spent = 0;
}

seated_state : Game → ℕ → State → State
seated_state g hand_id s = loop g.num_players (init_player g) (cleared g hand_id s)

seated_lem :
    (g : Game) (hand_id : ℕ) (s : State) → Seated g s (seated_state g hand_id s) g.num_players
unfolding seated_state
seated_lem g hand_id s = seat-players g s (cleared g hand_id s) refl refl refl g.num_players

-- The end of `initState`, on the state that the loop leaves.
abbrev opened : Game → State → State
opened g t = record t {
  min_no_limit_raise_to = first_raise_to g t.max_spent;
  num_actions = loop g.num_rounds (λ r h. update h r 0) t.num_actions;
  board_cards = loop max_board_cards (λ b h. update h b undefined_card) t.board_cards;
  finished = false;
}

init_state-opened :
    (g : Game) (hand_id : ℕ) (s : State)
    → init_state g hand_id s ≡ opened g (seated_state g hand_id s)
unfolding init_state seated_state
init_state-opened g hand_id s = refl

module _ {g : Game} {s t : State} (ok : IsGame g) (can : CanStart g s)
    (h : Seated g s t g.num_players) where
  opened-Chips : Chips g (opened g t)
  opened-Chips = record {
    spent_le_stack = λ p l. omega (arith, h.spent_eq p l, h.stack_eq p l, can.blinds p l);
    spent_le_max = λ p l. omega (arith, h.spent_eq p l, h.covers p l);
    bettor = h.bettor;
    bettor_in = ground (arith, ok.players_min, h.attained);
    bettor_paid = ground (arith, ok.players_min, h.attained, h.spent_eq h.bettor);
    level = λ n p q lp lq. h.stack_eq p lp ∙ can.level n p q lp lq ∙ sym (h.stack_eq q lq);
  }

  opened-empty : (r : ℕ) → r < g.num_rounds → (opened g t).num_actions r ≡ 0
  opened-empty r l = loop-update g.num_rounds 0 t.num_actions r l

  opened-first : (opened g t).num_actions t.round ≡ 0
  opened-first = opened-empty t.round (omega (arith, h.first_round, ok.rounds_min))

  opened-Log : Log g (opened g t)
  opened-Log = record {
    round_in = omega (arith, h.first_round, ok.rounds_min);
    fits = λ r l. omega (arith, opened-empty r l);
    later_empty = λ r k l. opened-empty r l;
  }

  opened-Turn : Turn g (opened g t)
  unfolding calls
  opened-Turn = record {
    raise_tops = λ n. ground arith;
    matched = rw opened-first tt;
    room =
        rw opened-first
          (omega (arith, count-le (can_act (opened g t)) g.num_players, ok.players_max));
  }

  opened-Open : Open g (opened g t)
  unfolding calls
  opened-Open = record {
    waiting = rw opened-first (
        count_pos (can_act (opened g t)) g.num_players can.player can.player_in (
          ground (
            arith,
            h.unfolded can.player can.player_in,
            h.spent_eq can.player can.player_in,
            h.stack_eq can.player can.player_in,
            can.player_has,
          )));
    contested = omega (arith, count_none t.player_folded g.num_players h.unfolded, ok.players_min);
  }

-- A hand that can start is valid after `initState`, with the first round of betting open.
pub init_state-IsValid :
    (g : Game) (hand_id : ℕ) (s : State)
    → IsGame g
    → CanStart g s
    → IsValid g (init_state g hand_id s) × ((init_state g hand_id s).finished ≡ false)
init_state-IsValid g hand_id s ok can =
    let h : Seated g s (seated_state g hand_id s) g.num_players = seated_lem g hand_id s in
    rw (init_state-opened g hand_id s) (
      record {
        chips = opened-Chips ok can h;
        log = opened-Log ok can h;
        turn = λ _. opened-Turn ok can h;
        in_play = λ _. opened-Open ok can h;
      },
      refl,
    )

-- `initState` posts the blind of each player, gives out the stacks, unfolds the player, and bets exactly
-- the largest blind: as much as each blind, and as much as that of some player.
pub init_state-blinds :
    (g : Game) (hand_id : ℕ) (s : State) (p : ℕ)
    → p < g.num_players
    → let t = init_state g hand_id s in
      (t.spent p ≡ g.blind p)
      × (t.stack_player p ≡ start_stack g s p)
      × (t.player_folded p ≡ false)
      × (g.blind p ≤ t.max_spent)
      × ((q : ℕ) × (q < g.num_players) × (g.blind q ≡ t.max_spent))
init_state-blinds g hand_id s p l =
    let h : Seated g s (seated_state g hand_id s) g.num_players = seated_lem g hand_id s in
    rw (init_state-opened g hand_id s) (
      h.spent_eq p l,
      h.stack_eq p l,
      h.unfolded p l,
      h.covers p l,
      (h.bettor, ground (arith, h.attained), ground (arith, h.attained)),
    )
