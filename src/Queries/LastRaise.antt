-- ===== src/Queries/LastRaise.antt =====
-- What `GetRaiseBase` of modules/core/src/game.c returns for X_LAST_RAISE after a raise.
use mathlib.Core.Path.{subst, ap₂}
use bulldog.Prelude.{
  ℕ, suc, ◌-◌, ◌<◌, ◌≡◌, refl, sym, ap, ◌∙◌, true, false, ◌==◌, ltb, if◌then◌else◌, arith,
  Bool-cases, inl, inr, some, ◌>>=◌,
}
use bulldog.Game.{
  max_num_actions, a_call, a_raise, is_no_limit, is_raise, ActionType, a_fold, a_invalid, Game,
  State,
}
use bulldog.Betting.{current_player}
use bulldog.Hand.{log_action, place_bet, end_turn, do_action}
use bulldog.History.{type_code}
use bulldog.Betting.Invariant.{IsGame, IsValid}
use bulldog.Hand.Play.{do_action-Done, Play}
use bulldog.Queries.RoundSums.{Begins, first, later, later-sum, Play-before}
use bulldog.Queries.{
  ℤ, pos, diff, x_last_raise, last_raiser, round_raise_net, before_raise, get_raise_base,
}

-- The log after a raise by `p`, with the bet placed.
record Raised (s t : State) (p : ℕ) : Type 0 where
  counts : t.num_actions s.round ≡ suc (s.num_actions s.round)
  raise : is_raise (t.action s.round (s.num_actions s.round)).type ≡ true
  raiser : t.acting_player s.round (s.num_actions s.round) ≡ p
  paid : t.sum_round_spent s.round p ≡ t.spent p
  before : (r : ℕ) → r < s.round → t.sum_round_spent r p ≡ s.sum_round_spent r p

place_bet-Raised :
    (g : Game) (s : State) (p size : ℕ) {t : State}
    → s.num_actions s.round < max_num_actions
    → place_bet a_raise g (log_action s p (record { type = a_raise; size = size })) p size ≡ some t
    → Raised s t p
unfolding place_bet
place_bet-Raised g s p size space e = elim (Bool-cases (is_no_limit g.betting_type)) [
  | inl n ↦ record {
    counts = ground arith;
    raise = ground arith;
    raiser = ground arith;
    paid = ground arith;
    before = λ r l. ground arith;
  }
  | inr n ↦ record {
    counts = ground arith;
    raise = ground arith;
    raiser = ground arith;
    paid = ground arith;
    before = λ r l. ground arith;
  }
]

end_turn-Raised : (g : Game) (s t : State) (p : ℕ) → Raised s t p → Raised s (end_turn g t) p
unfolding end_turn
end_turn-Raised g s t p h = record {
  counts = ground (arith, h.counts);
  raise = ground (arith, h.raise);
  raiser = ground (arith, h.raiser);
  paid = ground (arith, h.paid);
  before = λ r l. ground (arith, h.before r l);
}

raise-code : (ty : ActionType) → is_raise ty ≡ true → type_code ty ≡ 2
raise-code a_raise e = refl
raise-code a_fold e = cc
raise-code a_call e = cc
raise-code a_invalid e = cc

not_before_raise :
    (t : State) (m : ℕ)
    → t.num_actions t.round ≡ suc m
    → is_raise (t.action t.round m).type ≡ true
    → before_raise t ≡ false
not_before_raise t m c e = elim (Bool-cases (t.round == 0)) [
  | inl q ↦
      let z : t.round ≡ 0 = ground arith in
      let c' : t.num_actions 0 ≡ suc m = ap t.num_actions (sym z) ∙ c in
      elim (Bool-cases (m == 0)) [
        | inl w ↦
            let mz : m ≡ 0 = ground arith in
            let e' : is_raise (t.action 0 0).type ≡ true =
              ap (λ r. is_raise (t.action r 0).type) (sym z)
              ∙ ap (λ i. is_raise (t.action t.round i).type) (sym mz)
              ∙ e in
            ground (arith, c', raise-code (t.action 0 0).type e')
        | inr w ↦ ground (arith, c')
      ]
  | inr q ↦ ground arith
]

last_raiser-raise :
    (t : State) (r m : ℕ)
    → is_raise (t.action r m).type ≡ true
    → last_raiser t r (suc m) ≡ some (t.acting_player r m)
unfolding last_raiser
last_raiser-raise t r m e = rw e refl

raise_base-last :
    (g : Game) (t : State) (m : ℕ)
    → t.num_actions t.round ≡ suc m
    → is_raise (t.action t.round m).type ≡ true
    → get_raise_base g t x_last_raise ≡ some (round_raise_net t t.round (t.acting_player t.round m))
unfolding get_raise_base
raise_base-last g t m c e = rw (not_before_raise t m c e) (
    ap (λ o. o >>= λ p. some (round_raise_net t t.round p))
      (ap (last_raiser t t.round) c ∙ last_raiser-raise t t.round m e))

-- What the code takes off is the sum of the round before.
abbrev put_in_round : State → State → ℕ → ℤ
put_in_round s t p =
    if ltb 0 s.round then diff (t.spent p) (s.sum_round_spent (s.round - 1) p) else pos (t.spent p)

Raised-net : (s t : State) (p : ℕ) → Raised s t p → round_raise_net t s.round p ≡ put_in_round s t p
Raised-net s t p h = elim (Bool-cases (ltb 0 s.round)) [
  | inl e ↦ rw e (ap₂ diff h.paid (h.before (s.round - 1) (ground arith)))
  | inr e ↦ rw e (ap pos h.paid)
]

Raised-base :
    (g : Game) (s t : State) (p : ℕ)
    → t.round ≡ s.round
    → Raised s t p
    → get_raise_base g t x_last_raise ≡ some (put_in_round s t p)
Raised-base g s t p same h =
    let m = s.num_actions s.round in
    raise_base-last g t m (ap t.num_actions same ∙ h.counts)
      (ap (λ r. is_raise (t.action r m).type) same ∙ h.raise)
    ∙ ap some (
        ap (λ r. round_raise_net t r (t.acting_player r m)) same
        ∙ ap (round_raise_net t s.round) h.raiser
        ∙ Raised-net s t p h)

raise_base-sums :
    (g : Game) (s : State) (p size : ℕ) {t : State}
    → current_player g s ≡ some p
    → do_action g (record { type = a_raise; size = size }) s ≡ some t
    → t.round ≡ s.round
    → get_raise_base g t x_last_raise ≡ some (put_in_round s t p)
raise_base-sums g s p size {t} here e same =
    let d = do_action-Done g (record { type = a_raise; size = size }) s e in
    let d_is : d.player ≡ p = cc (d.turn) in
    let raised : Raised s (end_turn g d.placed) d.player =
      end_turn-Raised g s d.placed d.player (place_bet-Raised g s d.player size d.space d.bet) in
    Raised-base g s t p same
      (subst (Raised s t) d_is (subst (λ u. Raised s u d.player) (sym d.ended) raised))

put_in-since :
    (g : Game) (s t u : State) (p c n : ℕ)
    → IsGame g
    → IsValid g u
    → Begins g p c u
    → Play g u n s
    → s.round ≡ u.round
    → put_in_round s t p ≡ diff (t.spent p) c
unfolding diff
put_in-since g s t u p c n ok valid (first u' z) play same =
    let at_first : ltb 0 s.round ≡ false = ground arith in
    let none_less : ltb (t.spent p) 0 ≡ false = ground arith in
    rw (at_first, none_less) (ap pos (omega arith))
put_in-since g s t u p c n ok valid (later h s' u' m v z play' mv up acted) play same =
    let past : ltb 0 s.round ≡ true = ground arith in
    let back : s.round - 1 ≡ s'.round = omega arith in
    rw past (
      ap (diff (t.spent p)) (
        ap (λ r. s.sum_round_spent r p) back
        ∙ (Play-before ok valid play).1 s'.round p (omega arith)
        ∙ later-sum p ok v z play' mv acted))

-- Let a round begin with the valid state `u`, before which player `p` had put in `c` (Begins: 0 before
-- the first round, else what was in at `u`, if the player had called or raised in the round before).
-- After any play in that round and a raise by `p` that does not end the round, GetRaiseBase returns for
-- X_LAST_RAISE what `p` has put in since then.
pub get_raise_base_last :
    (g : Game) (u s : State) (p c n size : ℕ) {t : State}
    → IsGame g
    → IsValid g u
    → Begins g p c u
    → Play g u n s
    → s.round ≡ u.round
    → current_player g s ≡ some p
    → do_action g (record { type = a_raise; size = size }) s ≡ some t
    → t.round ≡ s.round
    → get_raise_base g t x_last_raise ≡ some (diff (t.spent p) c)
get_raise_base_last g u s p c n size {t} ok valid begins play same here e kept =
    raise_base-sums g s p size here e kept
    ∙ ap some (put_in-since g s t u p c n ok valid begins play same)
