-- ===== src/Hand/Place.antt =====
-- The `switch` of `doAction` in modules/core/src/game.c: what a fold, a call and a raise do to the
-- chips, the log and the turn.
use bulldog.Prelude.{
  ℕ, suc, ◌+◌, ◌-◌, ◌≤◌, ◌<◌, ◌≡◌, refl, true, false, ltb, arith, Bool-cases, inl, inr, update,
  update_self, bit, count_drop, count-le, count_lt, count_congr,
}
use bulldog.Game.{a_fold, a_call, a_raise, max_num_actions, is_no_limit, Action, Game, State}
use bulldog.Betting.{can_act, has_chips}
use bulldog.Hand.{log_action, put_in}
use bulldog.Betting.Count.{Callers, Callers-all, Callers-map, type_at, who_at}
use bulldog.Betting.Invariant.{Chips, Log, Paid, Turn, acting, called}
use bulldog.Hand.Record.{
  log-num, log-Callers_raise, log-Callers_call, log-Callers_fold, logged-Log, log-calls_raise,
  log-calls_call, log-calls_fold,
}

-- What holds once the bet is placed, before the end of the turn.
pub record Placed (g : Game) (t : State) : Type 0 where
  pub chips : Chips g t
  pub log : Log g t
  pub turn : Turn g t
  pub running : t.finished ≡ false

-- A hand in which player `p` is to act.
pub record ToAct (g : Game) (s : State) (p : ℕ) : Type 0 where
  pub chips : Chips g s
  pub log : Log g s
  pub turn : Turn g s
  pub waiting : called s < acting g s
  pub running : s.finished ≡ false
  pub seated : p < g.num_players
  pub acts : can_act s p ≡ true

module _ {g : Game} {s : State} {p : ℕ} (h : ToAct g s p) (a : Action) where
  open h use {chips, log, turn, waiting, running, seated, acts}

  -- The log has room for one more action.
  pub free : s.num_actions s.round < max_num_actions
  free = omega (arith, turn.room, waiting)

  abbrev pub folding : State
  folding = record (log_action s p a) { player_folded = update s.player_folded p true }

  fold-acting : acting g s ≡ suc (acting g folding)
  fold-acting =
      count_drop (can_act s) (can_act folding) g.num_players p seated acts (ground arith)
        (λ i ne. ground arith)

  pub fold-Placed : a.type ≡ a_fold → Placed g folding
  fold-Placed e = record {
    chips = chips;
    log = logged-Log s p a free log;
    turn = record {
      raise_tops = turn.raise_tops;
      matched = log-Callers_fold s p a free (Paid folding) (Paid s) (λ q x. x) turn.matched e;
      room = omega (
        arith,
        log-num s p a free,
        fold-acting,
        log-calls_fold s p a free (has_chips s) (has_chips s)
            (Callers-all (type_at s) (who_at s) (λ q. has_chips s q ≡ has_chips s q)
              (s.num_actions s.round) (λ q. refl))
            e,
        turn.room,
        waiting,
      );
    };
    running = running;
  }

  -- Putting in chips up to `k`, without a change of the bet: `k` matches the bet or is all-in.
  module _ (k : ℕ) (more : s.spent p ≤ k) (le_stack : k ≤ s.stack_player p)
      (le_max : k ≤ s.max_spent) (full : k < s.stack_player p → k ≡ s.max_spent) where
    abbrev pub paying : State
    paying = put_in (log_action s p a) p k

    pay-Chips : Chips g paying
    pay-Chips = record {
      spent_le_stack = λ q l. ground (arith, chips.spent_le_stack q);
      spent_le_max = λ q l. ground (arith, chips.spent_le_max q);
      bettor = chips.bettor;
      bettor_in = chips.bettor_in;
      bettor_paid = ground (arith, chips.bettor_paid);
      level = chips.level;
    }

    pay-Paid : (q : ℕ) → Paid s q → Paid paying q
    pay-Paid q h = ground arith

    -- Nobody who has called changes sides: `p` has not, or has nothing more to put in.
    pay-same :
        Callers
          (type_at s)
          (who_at s)
          (λ q. has_chips s q ≡ has_chips paying q)
          (s.num_actions s.round)
    pay-same =
        Callers-map (type_at s) (type_at s) (who_at s) (who_at s) (Paid s)
          (λ q. has_chips s q ≡ has_chips paying q) (s.num_actions s.round) (λ j l. refl)
          (λ j l. refl) (λ q h. ground arith) turn.matched

    pay-room :
        a.type ≡ a_call
        → paying.num_actions s.round + (acting g paying - called paying) ≤ max_num_actions
    pay-room e = elim (Bool-cases (ltb k (s.stack_player p))) [
      | inl c ↦ omega (
        arith,
        log-num s p a free,
        count_congr (can_act s) (can_act paying) g.num_players (λ q l. ground arith),
        log-calls_call s p a free (has_chips paying) (has_chips s) pay-same e,
        bits c,
        turn.room,
        waiting,
      )
      | inr c ↦ omega (
        arith,
        log-num s p a free,
        count_drop (can_act s) (can_act paying) g.num_players p seated acts (ground arith)
            (λ q ne. ground arith),
        log-calls_call s p a free (has_chips paying) (has_chips s) pay-same e,
        turn.room,
        waiting,
      )
    ]
      where
        bits : ltb k (s.stack_player p) ≡ true → bit (has_chips paying p) ≡ 1
        bits c = ground arith

    pub call-Placed : a.type ≡ a_call → Placed g paying
    call-Placed e = record {
      chips = pay-Chips;
      log = logged-Log s p a free log;
      turn = record {
        raise_tops = turn.raise_tops;
        matched =
            log-Callers_call s p a free (Paid paying) (Paid s) pay-Paid turn.matched e
              (λ c. ground arith);
        room = pay-room e;
      };
      running = running;
    }

  -- A new bet of `m`, with `v` as the least raise over it.
  module _ (m v : ℕ) (tops : s.max_spent ≤ m) (has : m ≤ s.stack_player p)
      (least : is_no_limit g.betting_type ≡ true → m < v)
      (space : s.num_actions s.round + g.num_players ≤ max_num_actions) where
    abbrev pub raising : State
    raising = put_in (record (log_action s p a) { max_spent = m; min_no_limit_raise_to = v }) p m

    raise-Chips : Chips g raising
    raise-Chips = record {
      spent_le_stack = λ q l. ground (arith, chips.spent_le_stack q);
      spent_le_max = λ q l. ground (arith, chips.spent_le_max q);
      bettor = p;
      bettor_in = seated;
      bettor_paid = update_self s.spent p m;
      level = chips.level;
    }

    raise-room :
        a.type ≡ a_raise
        → raising.num_actions s.round + (acting g raising - called raising) ≤ max_num_actions
    raise-room e = elim (Bool-cases (ltb m (s.stack_player p))) [
      | inl c ↦ omega (
        arith,
        log-num s p a free,
        log-calls_raise s p a free (has_chips raising) e,
        bits c,
        count-le (can_act raising) g.num_players,
        space,
      )
      | inr c ↦ omega (
        arith,
        log-num s p a free,
        count_lt (can_act raising) g.num_players p seated (ground arith),
        space,
      )
    ]
      where
        bits : ltb m (s.stack_player p) ≡ true → bit (has_chips raising p) ≡ 1
        bits c = ground arith

    pub raise-Placed : a.type ≡ a_raise → Placed g raising
    raise-Placed e = record {
      chips = raise-Chips;
      log = logged-Log s p a free log;
      turn = record {
        raise_tops = least;
        matched = log-Callers_raise s p a free (Paid raising) e (λ c. update_self s.spent p m);
        room = raise-room e;
      };
      running = running;
    }
