-- ===== src/History/StepBack.antt =====
-- `StepBackAction` of modules/core/src/game.c takes back the last actions of a hand: the theorem.
use mathlib.Core.Path.{subst, ap₂}
use bulldog.Prelude.{
  ℕ, zero, suc, ◌+◌, ◌-◌, ◌<◌, ◌≡◌, refl, sym, ◌∙◌, ap, true, false, ◌==◌, arith, Bool-cases, inl,
  inr, some, update, update_self, loop, [], ◌++◌,
}
use bulldog.Game.{Game, State}
use bulldog.Hand.{init_state, init_player}
use bulldog.Betting.Invariant.{IsGame, IsValid}
use bulldog.Hand.Start.{CanStart, start_stack, init_state-IsValid, init_state-blinds, loop-update}
use bulldog.Hand.Play.{Play, Play-IsValid}
use bulldog.History.{
  total_action, round_log, rounds_log, log_of, table_info_copy, redo, step_back_action,
}
use bulldog.History.Same.{Same}
use bulldog.History.Keeps.{trans-Keeps, refl-Keeps, replay-Keeps, Play-Keeps}
use bulldog.History.Back.{
  length, length-append, total_action-eq, Replayed, Play-Replayed, redo-replay,
}

-- `initState` posts the same blinds whatever the state held.
module _ (g : Game) where
  seat_bet :
      (n : ℕ) (s t : State)
      → s.max_spent ≡ t.max_spent
      → (loop n (init_player g) s).max_spent ≡ (loop n (init_player g) t).max_spent
  unfolding init_player
  seat_bet zero s t e = e
  seat_bet (suc n) s t e = ground (arith, seat_bet n s t e)

  init_bet : (i j : ℕ) (s t : State) → (init_state g i s).max_spent ≡ (init_state g j t).max_spent
  unfolding init_state
  init_bet i j s t = seat_bet g.num_players _ _ refl

  init_least :
      (i j : ℕ) (s t : State)
      → (init_state g i s).min_no_limit_raise_to ≡ (init_state g j t).min_no_limit_raise_to
  unfolding init_state
  init_least i j s t = ground (arith, init_bet i j s t)

  seat_round : (n : ℕ) (s : State) → (loop n (init_player g) s).round ≡ s.round
  unfolding init_player
  seat_round zero s = refl
  seat_round (suc n) s = seat_round n s

  pub init_round : (i : ℕ) (s : State) → (init_state g i s).round ≡ 0
  unfolding init_state
  init_round i s = seat_round g.num_players _

  seat_hand : (n : ℕ) (s : State) → (loop n (init_player g) s).hand_id ≡ s.hand_id
  unfolding init_player
  seat_hand zero s = refl
  seat_hand (suc n) s = seat_hand n s

  pub init_hand : (i : ℕ) (s : State) → (init_state g i s).hand_id ≡ i
  unfolding init_state
  init_hand i s = seat_hand g.num_players _

  pub init_empty :
      (i : ℕ) (s : State) (r : ℕ) → r < g.num_rounds → (init_state g i s).num_actions r ≡ 0
  unfolding init_state
  init_empty i s r l = loop-update g.num_rounds 0 _ r l

  pub init_finished : (i : ℕ) (s : State) → (init_state g i s).finished ≡ false
  unfolding init_state
  init_finished i s = refl

  -- Two starts of a hand agree, once they have the same stacks.
  pub init_state-Same :
      (i j : ℕ) (s t : State) (stack : ℕ → ℕ) (holes : ℕ → ℕ → ℕ) (boards : ℕ → ℕ) (hand : ℕ)
      → 0 < g.num_rounds
      → ((p : ℕ) → p < g.num_players → stack p ≡ start_stack g s p)
      → Same g (init_state g i s) (record (init_state g j t) {
        stack_player = stack;
        hole_cards = holes;
        board_cards = boards;
        hand_id = hand;
      })
  init_state-Same i j s t stack holes boards hand rounds e = record {
    bet = init_bet i j s t;
    least = init_least i j s t;
    at_round = init_round i s ∙ sym (init_round j t);
    ended = init_finished i s ∙ sym (init_finished j t);
    in_round = omega (arith, init_round i s);
    chips = λ p l. (init_state-blinds g i s p l).0 ∙ sym (init_state-blinds g j t p l).0;
    stacks = λ p l. (init_state-blinds g i s p l).1 ∙ sym (e p l);
    folds = λ p l. (init_state-blinds g i s p l).2 ∙ sym (init_state-blinds g j t p l).2;
    lengths = λ r l. init_empty i s r l ∙ sym (init_empty j t r l);
    entries = λ r k a b. absurd (omega (arith, init_round i s, init_empty i s r));
    actors = λ r k a b. absurd (omega (arith, init_round i s, init_empty i s r));
    seated = λ r k a b. absurd (omega (arith, init_round i s, init_empty i s r));
  }

  -- Nothing is in the log of a hand that has just begun.
  pub init_state-log : (i : ℕ) (s : State) → 0 < g.num_rounds → log_of (init_state g i s) ≡ []
  unfolding rounds_log round_log
  init_state-log i s l =
      ap (λ n. rounds_log (init_state g i s) (suc n)) (init_round i s)
      ∙ ap (round_log (init_state g i s) 0) (init_empty i s 0 l)

-- `for (i = 0; i < n; ++i) f[i] = v[i];`
pub loop-copy : (n : ℕ) (v f : ℕ → ℕ) (j : ℕ) → j < n → loop n (λ i h. update h i (v i)) f j ≡ v j
loop-copy zero v f j l = elim l [ ]
loop-copy (suc n) v f j l = elim (Bool-cases (n == j)) [
  | inl e ↦ let nj : n ≡ j = ground arith in ground (arith, ap v nj)
  | inr e ↦ ground (arith, loop-copy n v f j)
]

loop-copy₂ :
    (n m : ℕ) (v f : ℕ → ℕ → ℕ) (p j : ℕ)
    → p < n
    → j < m
    → loop n (λ q h. update h q (loop m (λ i k. update k i (v q i)) (h q))) f p j ≡ v p j
loop-copy₂ zero m v f p j l k = elim l [ ]
loop-copy₂ (suc n) m v f p j l k = elim (Bool-cases (n == p)) [
  | inl e ↦
      let np : n ≡ p = ground arith in
      subst
        (λ q.
          loop (suc n) (λ q h. update h q (loop m (λ i k. update k i (v q i)) (h q))) f q j ≡ v q j)
        np
        (ap (λ (h : ℕ → ℕ). h j)
            (update_self (loop n (λ q h. update h q (loop m (λ i k. update k i (v q i)) (h q))) f) n
              _)
          ∙ loop-copy m (v n) _ j k)
  | inr e ↦ ground (arith, loop-copy₂ n m v f p j)
]

-- Take a hand that can start (CanStart), that `initState` has started and that is played for `n` turns
-- to `u`, and then for `m` turns to `ref`, and let `n` be at least 1. `StepBackAction` with `m` steps
-- back from `ref` then succeeds, whatever the target held before: the target agrees with `u` on the
-- betting, and has the number, the stacks and the players' cards of the hand.
pub step_back_action_undoes :
    (g : Game) (hand_id : ℕ) (s target : State) {u ref : State} {n m : ℕ}
    → IsGame g
    → CanStart g s
    → Play g (init_state g hand_id s) n u
    → Play g u m ref
    → 0 < n
    → (t : State) × (step_back_action g ref target m ≡ some (record { done = true; target = t }))
      × Same g u t
      × (t.hand_id ≡ ref.hand_id)
      × ((p i : ℕ)
          → p < g.num_players
          → i < g.num_hole_cards
          → t.hole_cards p i ≡ ref.hole_cards p i)
unfolding step_back_action table_info_copy
step_back_action_undoes g hand_id s target {u} {ref} {n} {m} ok can p q pos =
    let v : IsValid g (init_state g hand_id s) = (init_state-IsValid g hand_id s ok can).0 in
    let w : IsValid g u = Play-IsValid ok v p in
    let r : Replayed g (init_state g hand_id s) u copied n = Play-Replayed ok v start_same p in
    let r' : Replayed g u ref r.result m = Play-Replayed ok w r.agrees q in
    let log : log_of ref ≡ r.actions ++ r'.actions =
      r'.in_log
      ∙ ap (λ l. l ++ r'.actions)
          (r.in_log ∙ ap (λ l. l ++ r.actions) (init_state-log g hand_id s ok.rounds_min)) in
    let all : total_action ref ≡ n + m =
      total_action-eq ref
      ∙ ap length log
      ∙ length-append r.actions r'.actions
      ∙ ap₂ ◌+◌ r.number r'.number in
    let keeps = trans-Keeps (replay-Keeps g r.actions copied r.replays) (refl-Keeps r.result) in
    (
      r.result,
      counted all
          ∙ ap₂ (λ k l. redo g k l copied) (omega (arith, all, r.number)) log
          ∙ redo-replay g r.actions r'.actions copied r.replays (omega (arith, r.number)),
      r.agrees,
      keeps.hand ∙ copied_hand,
      λ x i a b. ap (λ f. f x i) keeps.holes ∙ copied_holes x i a b,
    )
  where
    copied : State
    copied = table_info_copy g ref (init_state g 0 target)

    copied_hand : copied.hand_id ≡ ref.hand_id
    copied_hand = refl

    copied_holes :
        (x i : ℕ)
        → x < g.num_players
        → i < g.num_hole_cards
        → copied.hole_cards x i ≡ ref.hole_cards x i
    copied_holes x i a b =
        loop-copy₂ g.num_players g.num_hole_cards ref.hole_cards (init_state g 0 target).hole_cards
          x i a b

    kept : ref.stack_player ≡ (init_state g hand_id s).stack_player
    kept = (Play-Keeps q).stacks ∙ (Play-Keeps p).stacks

    stack_is : (x : ℕ) → x < g.num_players → copied.stack_player x ≡ start_stack g s x
    stack_is x l =
        loop-copy g.num_players ref.stack_player (init_state g 0 target).stack_player x l
        ∙ ap (λ f. f x) kept
        ∙ (init_state-blinds g hand_id s x l).1

    start_same : Same g (init_state g hand_id s) copied
    start_same =
        init_state-Same g hand_id 0 s target copied.stack_player copied.hole_cards
          copied.board_cards ref.hand_id ok.rounds_min stack_is

    counted :
        total_action ref ≡ n + m
        → step_back_action g ref target m ≡ redo g (total_action ref - m) (log_of ref) copied
    counted e = ground arith
