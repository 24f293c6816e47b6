-- ===== src/History/Back.antt =====
-- `StepBackAction` of modules/core/src/game.c takes back the last actions of a hand.
use mathlib.Core.List.{append-nil, append_assoc}
use bulldog.Prelude.{
  ℕ, zero, suc, ◌+◌, ◌-◌, ◌<◌, ◌≡◌, refl, sym, ◌∙◌, ap, true, false, ◌==◌, arith, >>=-eq-some, some,
  loop, List, [], ◌∷◌, ◌++◌,
}
use bulldog.Game.{Action, Game, State}
use bulldog.Hand.{do_action}
use bulldog.Betting.Invariant.{IsGame, IsValid}
use bulldog.Hand.Play.{move, Play, start, next, Play-IsValid}
use bulldog.History.{total_action, round_log, rounds_log, log_of, redo}
use bulldog.History.Same.{Same}
use bulldog.History.SameStep.{do_action-Same}
use bulldog.History.Log.{do_action-log, replay, replay-append}

abbrev pub length {ℓ} : {A : Type ℓ} → List A → ℕ
length [] = 0
length (x ∷ xs) = suc (length xs)

pub length-append {ℓ} : {A : Type ℓ} (xs ys : List A) → length (xs ++ ys) ≡ length xs + length ys
length-append [] ys = omega arith
length-append (x ∷ xs) ys = omega (arith, length-append xs ys)

round_log-length : (s : State) (r n : ℕ) → length (round_log s r n) ≡ n
unfolding round_log
round_log-length s r zero = refl
round_log-length s r (suc n) =
    omega (arith, length-append (round_log s r n) (s.action r n ∷ []), round_log-length s r n)

rounds_log-length :
    (s : State) (k : ℕ) → loop k (λ r t. t + s.num_actions r) 0 ≡ length (rounds_log s k)
unfolding rounds_log
rounds_log-length s zero = refl
rounds_log-length s (suc k) = omega (
  arith,
  length-append (rounds_log s k) (round_log s k (s.num_actions k)),
  round_log-length s k (s.num_actions k),
  rounds_log-length s k,
)

-- TotalAction counts the actions of the log.
pub total_action-eq : (s : State) → total_action s ≡ length (log_of s)
unfolding total_action
total_action-eq s = rounds_log-length s (suc s.round)

-- The actions of a play, done on a state that agrees with the one that the play starts in.
pub record Replayed (g : Game) (s t s' : State) (n : ℕ) : Type 0 where
  pub actions : List Action
  pub number : length actions ≡ n
  pub in_log : log_of t ≡ log_of s ++ actions
  pub result : State
  pub replays : replay g actions s' ≡ some result
  pub agrees : Same g t result

pub Play-Replayed :
    {g : Game} {s t s' : State} {n : ℕ}
    → IsGame g
    → IsValid g s
    → Same g s s'
    → Play g s n t
    → Replayed g s t s' n
unfolding replay
Play-Replayed {s = s} {s' = s'} ok v h start = record {
  actions = [];
  number = refl;
  in_log = sym (append-nil (log_of s));
  result = s';
  replays = refl;
  agrees = h;
}
Play-Replayed {g} {s} {s' = s'} ok v h (next {n} {t} {u} p (move b a a' c e pos d)) =
    let q : Replayed g s t s' n = Play-Replayed ok v h p in
    let w : IsValid g t = Play-IsValid ok v p in
    let w' : IsValid g u = Play-IsValid ok v (next p (move b a a' c e pos d)) in
    let (r, run, same) =
      do_action-Same (omega (arith, ok.players_min)) q.agrees a' w.log.later_empty d in
    record {
      actions = q.actions ++ (a' ∷ []);
      number = omega (arith, length-append q.actions (a' ∷ []), q.number);
      in_log =
          do_action-log g a' t w.log.round_in w'.log.round_in w.log.later_empty d
          ∙ ap (λ x. x ++ (a' ∷ [])) q.in_log
          ∙ append_assoc (log_of s) q.actions (a' ∷ []);
      result = r;
      replays = replay-append g q.actions a' s' q.replays run;
      agrees = same;
    }

redo_more :
    (g : Game) (n : ℕ) (a : Action) (l : List Action) (t v : State)
    → do_action g a t ≡ some v
    → redo g (suc (suc n)) (a ∷ l) t ≡ redo g (suc n) l v
unfolding redo
redo_more g n a l t v d =
    let less : suc (suc n) - 1 ≡ suc n = omega arith in
    let more : (suc (suc n) - 1 == 0) ≡ false = ground arith in
    rw d (rw more (ap (λ k. redo g k l v) less))

-- The loop of StepBackAction does as many actions as it is told.
pub redo-replay :
    (g : Game) (l m : List Action) (t : State) {u : State}
    → replay g l t ≡ some u
    → 0 < length l
    → redo g (length l) (l ++ m) t ≡ some (record { done = true; target = u })
unfolding redo replay
redo-replay g [] m t e lt = absurd (omega arith)
redo-replay g (a ∷ []) m t e lt = ground arith
redo-replay g (a ∷ b ∷ l) m t e lt =
    let (v, d, r) = >>=-eq-some (do_action g a t) (replay g (b ∷ l)) e in
    redo_more g (length l) a (b ∷ (l ++ m)) t v d ∙ redo-replay g (b ∷ l) m v r (omega arith)
