-- ===== src/History/Later.antt =====
-- The tests by which an agent relates two states of a hand, `InSameMatch` of modules/core/src/game.c
-- and `IsPriorStateSameRound` of modules/core/src/game_util.cpp, on a state and a later one.
use mathlib.Core.Path.{subst}
use bulldog.Prelude.{
  ℕ, zero, suc, ◌+◌, ◌≤◌, ◌<◌, ◌≡◌, refl, ◌∙◌, ap, true, false, not, ◌&&◌, ◌||◌, ◌==◌, arith,
  Bool-cases, inl, inr, some,
}
use bulldog.Game.{
  ActionType, a_fold, a_call, a_raise, a_invalid, is_raise, is_invalid, Action, Game, State,
}
use bulldog.Hand.{place_bet, log_action, init_state}
use bulldog.Betting.Invariant.{IsGame, IsValid}
use bulldog.Hand.Start.{CanStart, init_state-IsValid}
use bulldog.Hand.Play.{Done, do_action-Done, move, Play, start, next, Play-IsValid}
use bulldog.History.{
  type_code, all_below, MatchState, in_same_match, action_to_code, prior_actions,
  is_prior_state_same_round,
}
use bulldog.History.Log.{Grown, do_action-Grown, num_at, act_at, num_here}
use bulldog.History.Keeps.{Keeps, Play-Keeps}
use bulldog.History.Compare.{all_below_complete}
use bulldog.History.StepBack.{init_empty}

-- The log of `t` contains that of `s`.
pub record Kept (s t : State) : Type 0 where
  pub rounds : s.round ≤ t.round
  pub lengths : (r : ℕ) → s.num_actions r ≤ t.num_actions r
  pub entries : (r i : ℕ) → i < s.num_actions r → t.action r i ≡ s.action r i

Grown-Kept : {s t : State} {a : Action} → Grown s t a → Kept s t
Grown-Kept {s} {t} h = record {
  rounds = h.up;
  lengths = λ r. ground (arith, num_at h r, h.space);
  entries = λ r i l. ground (arith, act_at h r i);
}

refl-Kept : (s : State) → Kept s s
refl-Kept s = record { rounds = omega arith; lengths = λ r. omega arith; entries = λ r i l. refl }

trans-Kept : {s t u : State} → Kept s t → Kept t u → Kept s u
trans-Kept h k = record {
  rounds = omega (arith, h.rounds, k.rounds);
  lengths = λ r. omega (arith, h.lengths r, k.lengths r);
  entries = λ r i l. k.entries r i (omega (arith, h.lengths r)) ∙ h.entries r i l;
}

pub Play-Kept : {g : Game} {s t : State} {n : ℕ} → IsGame g → IsValid g s → Play g s n t → Kept s t
Play-Kept {g} {s} ok v start = refl-Kept s
Play-Kept {g} {s} ok v (next {n} {t} p (move b a a' c e pos d)) =
    trans-Kept (Play-Kept ok v p)
      (Grown-Kept (do_action-Grown g a' t (Play-IsValid ok v p).log.round_in d))

-- InSameMatch recognises every later state of a valid hand, seen by the same player.
pub in_same_match_later :
    (g : Game) (player : ℕ) {s t : State} {n : ℕ}
    → IsGame g
    → IsValid g s
    → Play g s n t
    → in_same_match
        (record { viewing_player = player; state = s })
        (record { viewing_player = player; state = t })
      ≡ true
unfolding in_same_match
in_same_match_later g player {s} {t} ok v p =
    let k : Kept s t = Play-Kept ok v p in
    let h : Keeps s t = Play-Keeps p in
    let log : all_below (suc s.round) (λ r. all_below (s.num_actions r) (λ i.
      type_code (s.action r i).type == type_code (t.action r i).type
      && (not (is_raise (s.action r i).type) || (s.action r i).size == (t.action r i).size)))
        ≡ true =
      all_below_complete (suc s.round) _ (λ r l.
        all_below_complete (s.num_actions r) _
          (λ i j. entry (s.action r i) (t.action r i) (k.entries r i j))) in
    ground (arith, h.hand, log, ap (λ f. f player 0) h.holes, ap (λ f. f player 1) h.holes)
  where
    entry :
        (a b : Action)
        → b ≡ a
        → (type_code a.type == type_code b.type && (not (is_raise a.type) || a.size == b.size))
          ≡ true
    entry a b e = rw e (ground arith)

-- InSameMatch does not look at how many actions the new state has: what the new state's arrays hold
-- past its log passes for actions. So a state passes as an earlier one of the state that has the same
-- arrays and any number of actions, also none.
pub in_same_match_stale :
    (m : MatchState) (num : ℕ → ℕ) (round : ℕ)
    → in_same_match m (record m { state = record m.state { num_actions = num; round = round } })
      ≡ true
unfolding in_same_match
in_same_match_stale m num round =
    let s : State = m.state in
    let log : all_below (suc s.round) (λ r. all_below (s.num_actions r) (λ i.
      type_code (s.action r i).type == type_code (s.action r i).type
      && (not (is_raise (s.action r i).type) || (s.action r i).size == (s.action r i).size)))
        ≡ true =
      all_below_complete (suc s.round) _
        (λ r l. all_below_complete (s.num_actions r) _ (λ i j. ground arith)) in
    ground (arith, log)

-- The number of actions of a round that a play stays in.
Play-in_round :
    {g : Game} {s t : State} {n : ℕ}
    → IsGame g
    → IsValid g s
    → Play g s n t
    → t.round ≡ s.round
    → t.num_actions s.round ≡ n + s.num_actions s.round
Play-in_round ok v start e = omega arith
Play-in_round {g} {s} ok v (next {n} {t} {u} p (move b a a' c e pos d)) q =
    let h : Grown t u a' = do_action-Grown g a' t (Play-IsValid ok v p).log.round_in d in
    let k : Kept s t = Play-Kept ok v p in
    let stays : t.round ≡ s.round = omega (arith, h.up, k.rounds) in
    let here : u.num_actions s.round ≡ suc (t.num_actions s.round) =
      subst (λ r. u.num_actions r ≡ suc (t.num_actions r)) stays (num_here h) in
    omega (arith, here, Play-in_round ok v p stays)

-- Every action of the log is one of the three.
Types : Game → State → Type 0
Types g s =
    (r i : ℕ) → r < g.num_rounds → i < s.num_actions r → is_invalid (s.action r i).type ≡ false

place_bet-type :
    (ty : ActionType) (g : Game) (s : State) (p size : ℕ) {t : State}
    → place_bet ty g s p size ≡ some t
    → is_invalid ty ≡ false
unfolding place_bet
place_bet-type a_fold g s p size e = refl
place_bet-type a_call g s p size e = refl
place_bet-type a_raise g s p size e = refl
place_bet-type a_invalid g s p size e = cc

Play-Types :
    {g : Game} {s t : State} {n : ℕ} → IsGame g → IsValid g s → Types g s → Play g s n t → Types g t
unfolding Types
Play-Types ok v h start = h
Play-Types {g} {s} ok v h (next {n} {t} {u} p (move b a a' c e pos d)) =
    let before : Types g t = Play-Types ok v h p in
    let grown : Grown t u a' = do_action-Grown g a' t (Play-IsValid ok v p).log.round_in d in
    let done : Done g a' t u = do_action-Done g a' t d in
    let kind : is_invalid a'.type ≡ false =
      place_bet-type a'.type g (log_action t done.player a') done.player a'.size done.bet in
    λ r i l k. elim (Bool-cases (t.round == r && t.num_actions r == i)) [
      | inl q ↦
          let last : u.action r i ≡ a' = ground (arith, act_at grown r i) in
          ap (λ (x : Action). is_invalid x.type) last ∙ kind
      | inr q ↦
          let old : u.action r i ≡ t.action r i =
            ground (arith, act_at grown r i, num_at grown r, grown.space) in
          ap (λ (x : Action). is_invalid x.type) old
          ∙ before r i l (ground (arith, num_at grown r, grown.space))
    ]

code_some : (a : Action) → is_invalid a.type ≡ false → (c : ℕ) × (action_to_code a ≡ some c)
unfolding action_to_code
code_some a h = code_of a.type refl h
  where
    code_of :
        (ty : ActionType)
        → a.type ≡ ty
        → is_invalid a.type ≡ false
        → (c : ℕ) × (action_to_code a ≡ some c)
    code_of a_fold e h = (0, rw e refl)
    code_of a_call e h = (1, rw e refl)
    code_of a_raise e h = (a.size + 1, rw e refl)
    code_of a_invalid e h = cc

prior_same :
    (old new : State) (n : ℕ)
    → ((i : ℕ) → i < n → new.action old.round i ≡ old.action old.round i)
    → ((i : ℕ) → i < n → is_invalid (old.action old.round i).type ≡ false)
    → prior_actions old new n ≡ some true
unfolding prior_actions
prior_same old new zero e h = refl
prior_same old new (suc n) e h =
    let (c, q) = code_some (old.action old.round n) (h n (omega arith)) in
    let q' : action_to_code (new.action old.round n) ≡ some c =
      ap action_to_code (e n (omega arith)) ∙ q in
    rw (prior_same old new n (λ i l. e i (omega arith)) (λ i l. h i (omega arith)))
      (rw q (rw q' (ground arith)))

-- In a hand that can start (CanStart) and that initState has started, IsPriorStateSameRound recognises
-- each state as prior to every later one of the same round, and does not exit.
pub is_prior_state_same_round_later :
    (g : Game) (hand_id : ℕ) (memory : State) {s t : State} {n m : ℕ}
    → IsGame g
    → CanStart g memory
    → Play g (init_state g hand_id memory) n s
    → Play g s m t
    → 0 < m
    → t.round ≡ s.round
    → is_prior_state_same_round s t ≡ some true
unfolding is_prior_state_same_round
is_prior_state_same_round_later g hand_id memory {s} {t} ok can p q pos e =
    let v : IsValid g (init_state g hand_id memory) =
      (init_state-IsValid g hand_id memory ok can).0 in
    let w : IsValid g s = Play-IsValid ok v p in
    let k : Kept s t = Play-Kept ok w q in
    let types : Types g s = Play-Types ok v none_logged p in
    ground (
      arith,
      Play-in_round ok w q e,
      prior_same s t (s.num_actions s.round) (λ i l. k.entries s.round i l)
          (λ i l. unfold Types in types s.round i w.log.round_in l),
    )
  where
    none_logged : Types g (init_state g hand_id memory)
    none_logged =
        unfold Types in (λ r i l j. absurd (omega (arith, init_empty g hand_id memory r l)))
