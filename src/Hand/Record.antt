-- ===== src/Hand/Record.antt =====
-- The entry that `doAction` of modules/core/src/game.c writes to the log, and how it changes the
-- counts of callers.
use mathlib.Core.Path.{ap₂, subst}
use bulldog.Prelude.{
  ℕ, suc, ◌+◌, ◌%◌, ◌<◌, ◌≡◌, sym, ◌∙◌, ap, Bool, arith, update, update_self, update_ne, bit,
}
use bulldog.Game.{a_fold, a_call, a_raise, max_num_actions, Action, Game, State}
use bulldog.Hand.{log_action}
use bulldog.Betting.Count.{
  calls, calls-raise, calls-call, calls-fold, calls_congr, CallersStep, Callers, Callers-map,
  type_at, who_at,
}
use bulldog.Betting.Invariant.{LogOf, Log}

module _ (s : State) (p : ℕ) (a : Action) (free : s.num_actions s.round < max_num_actions) where
  -- The number of actions of the round before the entry is written.
  abbrev old : ℕ
  old = s.num_actions s.round

  abbrev logged : State
  logged = log_action s p a

  pub log-num : logged.num_actions s.round ≡ suc old
  log-num = update_self s.num_actions s.round ((old + 1) % 256) ∙ omega arith

  entry : (j : ℕ) → logged.action s.round j ≡ update (s.action s.round) old a j
  entry j = ap (λ h. h j) (update_self s.action s.round (update (s.action s.round) old a))

  actor : (j : ℕ) → logged.acting_player s.round j ≡ update (s.acting_player s.round) old p j
  actor j =
      ap (λ h. h j) (update_self s.acting_player s.round (update (s.acting_player s.round) old p))

  pub log-type : type_at logged old ≡ a.type
  log-type = ap (λ (x : Action). x.type) (entry old ∙ update_self (s.action s.round) old a)

  pub log-who : who_at logged old ≡ p
  log-who = actor old ∙ update_self (s.acting_player s.round) old p

  pub log-type_before : (j : ℕ) → j < old → type_at s j ≡ type_at logged j
  log-type_before j l =
      ap (λ (x : Action). x.type)
        (sym (entry j ∙ update_ne (s.action s.round) old a j (omega arith)))

  pub log-who_before : (j : ℕ) → j < old → who_at s j ≡ who_at logged j
  log-who_before j l = sym (actor j ∙ update_ne (s.acting_player s.round) old p j (omega arith))

  -- What holds of the callers afterwards, by the type of the action.
  module _ (Q : ℕ → Type 0) where
    after :
        CallersStep a.type (Q p) (Callers (type_at logged) (who_at logged) Q old)
        → Callers (type_at logged) (who_at logged) Q (logged.num_actions s.round)
    after x = rw (log-num, log-type, log-who) x

    pub log-Callers_raise :
        a.type ≡ a_raise
        → Q p
        → Callers (type_at logged) (who_at logged) Q (logged.num_actions s.round)
    log-Callers_raise e x = after (
        subst (λ t. CallersStep t (Q p) (Callers (type_at logged) (who_at logged) Q old)) (sym e) x)

    module _ (P : ℕ → Type 0) (k : (q : ℕ) → P q → Q q)
        (h : Callers (type_at s) (who_at s) P old) where
      before : Callers (type_at logged) (who_at logged) Q old
      before =
          Callers-map (type_at s) (type_at logged) (who_at s) (who_at logged) P Q old
            log-type_before log-who_before k h

      pub log-Callers_call :
          a.type ≡ a_call
          → Q p
          → Callers (type_at logged) (who_at logged) Q (logged.num_actions s.round)
      log-Callers_call e x = after (
          subst (λ t. CallersStep t (Q p) (Callers (type_at logged) (who_at logged) Q old)) (sym e)
            (x, before))

      pub log-Callers_fold :
          a.type ≡ a_fold → Callers (type_at logged) (who_at logged) Q (logged.num_actions s.round)
      log-Callers_fold e = after (
          subst (λ t. CallersStep t (Q p) (Callers (type_at logged) (who_at logged) Q old)) (sym e)
            before)

  pub logged-Log : {g : Game} → Log g s → LogOf g logged.num_actions s.round
  logged-Log l = record {
    round_in = l.round_in;
    fits = λ r h. ground (arith, l.fits r);
    later_empty = λ r k h. ground (arith, l.later_empty r);
  }

  -- The count of callers afterwards. `now` may differ from `was` only where nobody has called.
  module _ (now : ℕ → Bool) where
    pub log-calls_raise :
        a.type ≡ a_raise
        → calls (type_at logged) (who_at logged) now (logged.num_actions s.round) ≡ bit (now p)
    log-calls_raise e = rw log-num (
        calls-raise (type_at logged) (who_at logged) now old (log-type ∙ e)
        ∙ ap (λ q. bit (now q)) log-who)

    module _ (was : ℕ → Bool) (same : Callers (type_at s) (who_at s) (λ q. was q ≡ now q) old) where
      calls-before :
          calls (type_at s) (who_at s) was old ≡ calls (type_at logged) (who_at logged) now old
      calls-before =
          calls_congr (type_at s) (type_at logged) (who_at s) (who_at logged) was now old
            log-type_before log-who_before same

      pub log-calls_call :
          a.type ≡ a_call
          → calls (type_at logged) (who_at logged) now (logged.num_actions s.round)
            ≡ bit (now p) + calls (type_at s) (who_at s) was old
      log-calls_call e = rw log-num (
          calls-call (type_at logged) (who_at logged) now old (log-type ∙ e)
          ∙ ap₂ (λ q k. bit (now q) + k) log-who (sym calls-before))

      pub log-calls_fold :
          a.type ≡ a_fold
          → calls (type_at logged) (who_at logged) now (logged.num_actions s.round)
            ≡ calls (type_at s) (who_at s) was old
      log-calls_fold e =
          rw log-num
            (calls-fold (type_at logged) (who_at logged) now old (log-type ∙ e) ∙ sym calls-before)
