-- ===== src/Hand/Play.antt =====
-- Whole hands: sequences of actions that `isValidAction` lets pass and `doAction` carries out
-- (modules/core/src/game.c).
use mathlib.Core.Path.{subst}
use bulldog.Prelude.{
  ℕ, suc, ◌+◌, ◌*◌, ◌%◌, ◌≤◌, ◌<◌, ◌≡◌, ◌≢◌, ◌⊎◌, refl, ◌∙◌, ap, Bool, true, false, ltb, arith,
  ◌>>◌, guard, >>=-eq-some, Bool-cases, inl, inr, Option, none, some, update, total, total-update,
  total-le,
}
use bulldog.Game.{
  ActionType, a_fold, a_call, a_raise, a_invalid, max_num_actions, Action, Game, State,
}
use bulldog.Betting.{current_player, is_valid_action}
use bulldog.Hand.{log_action, place_bet, end_turn, do_action}
use bulldog.Betting.Invariant.{IsGame, IsValid}
use bulldog.Betting.Rules.{Legal}
use bulldog.Betting.Turn.{current_player-finished}
use bulldog.Betting.Validity.{is_valid_action_sound}
use bulldog.Hand.Step.{IsValid-ToAct, do_action-IsValid}

-- One turn: an action passes `isValidAction`, perhaps with its size fixed, and is carried out.
pub data Move (g : Game) (s t : State) : Type 0 where
  move :
      (b : Bool) (a a' : Action) (c : ℕ)
      → is_valid_action g s b a ≡ some (c, a')
      → 0 < c
      → do_action g a' s ≡ some t
      → Move g s t

-- A play of `n` turns.
pub data Play (g : Game) (s : State) : ℕ → State → Type 0 where
  start : Play g s 0 s
  next : {n : ℕ} {t u : State} → Play g s n t → Move g t u → Play g s (suc n) u

-- No action passes `doAction` once the hand is over.
do_action-finished :
    (g : Game) (a : Action) (s : State) → s.finished ≡ true → do_action g a s ≡ none
unfolding do_action
do_action-finished g a s f = rw (current_player-finished g s f)

-- A turn leaves a valid hand.
pub Move-IsValid : {g : Game} {s t : State} → IsGame g → IsValid g s → Move g s t → IsValid g t
Move-IsValid {g} {s} {t} ok v (move b a a' c e pos d) = elim (Bool-cases s.finished) [
  | inl f ↦ cc (do_action-finished g a' s f)
  | inr f ↦
      let (p, q, h) = IsValid-ToAct s ok v f in
      let (p', q', acts, run) = do_action-IsValid g s ok v f in
      let same : p ≡ p' = cc in
      let (u, d', w) =
        run a' (
          subst (λ x. Legal g s x a') same (is_valid_action_sound s ok (v.turn f) q f b a e pos)) in
      subst (IsValid g) (cc) w
]

pub Play-IsValid :
    {g : Game} {s t : State} {n : ℕ} → IsGame g → IsValid g s → Play g s n t → IsValid g t
Play-IsValid ok v start = v
Play-IsValid ok v (next p m) = Move-IsValid ok (Play-IsValid ok v p) m

-- The number of actions in the log.
abbrev pub logged_actions : Game → State → ℕ
logged_actions g s = total s.num_actions g.num_rounds

pub place_bet-num_actions :
    (ty : ActionType) (g : Game) (s : State) (p size : ℕ) {t : State}
    → place_bet ty g s p size ≡ some t
    → t.num_actions ≡ s.num_actions
unfolding place_bet
place_bet-num_actions a_fold g s p size e = ground arith
place_bet-num_actions a_call g s p size e = ground arith
place_bet-num_actions a_raise g s p size e = ground arith
place_bet-num_actions a_invalid g s p size e = cc

pub end_turn-num_actions : (g : Game) (s : State) → (end_turn g s).num_actions ≡ s.num_actions
unfolding end_turn
end_turn-num_actions g s = ground arith

-- What a step of `doAction` consists of.
pub record Done (g : Game) (a : Action) (s t : State) : Type 0 where
  pub player : ℕ
  pub turn : current_player g s ≡ some player
  pub space : s.num_actions s.round < max_num_actions
  pub placed : State
  pub bet : place_bet a.type g (log_action s player a) player a.size ≡ some placed
  pub ended : t ≡ end_turn g placed

guard-eq-some :
    {B : Type 0} (b : Bool) (m : Option B) {x : B}
    → (guard b >> m) ≡ some x
    → (b ≡ true) × (m ≡ some x)
guard-eq-some true m e = (refl, e)
guard-eq-some false m e = cc

pub do_action-Done :
    (g : Game) (a : Action) (s : State) {t : State} → do_action g a s ≡ some t → Done g a s t
unfolding do_action
do_action-Done g a s {t} e =
    let (p, turn, q) = >>=-eq-some (current_player g s) _ e in
    let (space, r) = guard-eq-some (ltb (s.num_actions s.round) max_num_actions) _ q in
    let (u, bet, k) = >>=-eq-some (place_bet a.type g (log_action s p a) p a.size) _ r in
    record { player = p; turn = turn; space = ground arith; placed = u; bet = bet; ended = cc }

-- A step adds one action to the count.
do_action-total :
    (g : Game) (a : Action) (s : State) {t : State}
    → s.round < g.num_rounds
    → do_action g a s ≡ some t
    → logged_actions g t ≡ suc (logged_actions g s)
do_action-total g a s {t} lt e =
    let d : Done g a s t = do_action-Done g a s e in
    let n : t.num_actions ≡ update s.num_actions s.round ((s.num_actions s.round + 1) % 256) =
      ap (λ (x : State). x.num_actions) d.ended
      ∙ end_turn-num_actions g d.placed
      ∙ place_bet-num_actions a.type g (log_action s d.player a) d.player a.size d.bet in
    rw n (
      omega (
        arith,
        d.space,
        total-update s.num_actions s.round ((s.num_actions s.round + 1) % 256) g.num_rounds lt,
      ))

-- The log of `t` is that of `s` and action `a` of player `p` after it.
pub record Logged (s t : State) (p : ℕ) (a : Action) : Type 0 where
  pub longer : t.num_actions s.round ≡ suc (s.num_actions s.round)
  pub entry : t.action s.round (s.num_actions s.round) ≡ a
  pub actor : t.acting_player s.round (s.num_actions s.round) ≡ p
  pub lengths : (r : ℕ) → s.round ≢ r → t.num_actions r ≡ s.num_actions r
  pub kept :
      (r i : ℕ)
      → (s.round ≢ r) ⊎ (s.num_actions s.round ≢ i)
      → (t.action r i ≡ s.action r i) × (t.acting_player r i ≡ s.acting_player r i)

place_bet-entries :
    (ty : ActionType) (g : Game) (s : State) (p size : ℕ) {t : State}
    → place_bet ty g s p size ≡ some t
    → (t.action ≡ s.action) × (t.acting_player ≡ s.acting_player)
unfolding place_bet
place_bet-entries a_fold g s p size e = ground arith
place_bet-entries a_call g s p size e = ground arith
place_bet-entries a_raise g s p size e = ground arith
place_bet-entries a_invalid g s p size e = cc

end_turn-entries :
    (g : Game) (s : State)
    → ((end_turn g s).action ≡ s.action) × ((end_turn g s).acting_player ≡ s.acting_player)
unfolding end_turn
end_turn-entries g s = ground arith

log_action-Logged :
    (s : State) (p : ℕ) (a : Action)
    → s.num_actions s.round < max_num_actions
    → Logged s (log_action s p a) p a
log_action-Logged s p a l = record {
  longer = ground arith;
  entry = ground arith;
  actor = ground arith;
  lengths = λ r n. ground arith;
  kept = λ r i n. (ground (arith, n), ground (arith, n));
}

Logged-entries :
    (s t u : State) (p : ℕ) (a : Action)
    → u.num_actions ≡ t.num_actions
    → u.action ≡ t.action
    → u.acting_player ≡ t.acting_player
    → Logged s t p a
    → Logged s u p a
Logged-entries s t u p a n x y h = record {
  longer = ap (λ f. f s.round) n ∙ h.longer;
  entry = ap (λ f. f s.round (s.num_actions s.round)) x ∙ h.entry;
  actor = ap (λ f. f s.round (s.num_actions s.round)) y ∙ h.actor;
  lengths = λ r z. ap (λ f. f r) n ∙ h.lengths r z;
  kept = λ r i z. (ap (λ f. f r i) x ∙ (h.kept r i z).0, ap (λ f. f r i) y ∙ (h.kept r i z).1);
}

-- A step that is carried out writes the action and its player to the log, at the end of the round's
-- actions, counts it, and leaves the rest of the log as it is.
pub do_action-logs :
    (g : Game) (a : Action) (s : State) (p : ℕ) {t : State}
    → current_player g s ≡ some p
    → do_action g a s ≡ some t
    → Logged s t p a
do_action-logs g a s p {t} here e =
    let d : Done g a s t = do_action-Done g a s e in
    let d_is : d.player ≡ p = cc (d.turn) in
    let (ba, bp) = place_bet-entries a.type g (log_action s d.player a) d.player a.size d.bet in
    let (ea, ep) = end_turn-entries g d.placed in
    subst (λ q. Logged s t q a) d_is
      (Logged-entries s (log_action s d.player a) t d.player a
        (ap (λ (x : State). x.num_actions) d.ended
          ∙ end_turn-num_actions g d.placed
          ∙ place_bet-num_actions a.type g (log_action s d.player a) d.player a.size d.bet)
        (ap (λ (x : State). x.action) d.ended ∙ ea ∙ ba)
        (ap (λ (x : State). x.acting_player) d.ended ∙ ep ∙ bp)
        (log_action-Logged s d.player a d.space))

-- After `n` turns the log has `n` actions more.
Play-logs :
    {g : Game} {s t : State} {n : ℕ}
    → IsGame g
    → IsValid g s
    → Play g s n t
    → logged_actions g t ≡ n + logged_actions g s
Play-logs ok v start = omega arith
Play-logs {g} ok v (next {n} {t} p (move b a a' c e pos d)) =
    omega (arith, do_action-total g a' t (Play-IsValid ok v p).log.round_in d, Play-logs ok v p)

-- Every hand ends: a play from a valid state has at most `32 * numRounds` turns.
pub Play-bound :
    {g : Game} {s t : State} {n : ℕ}
    → IsGame g
    → IsValid g s
    → Play g s n t
    → n ≤ max_num_actions * g.num_rounds
Play-bound {g} {s} {t} {n} ok v p = omega (
  arith,
  Play-logs ok v p,
  total-le t.num_actions max_num_actions g.num_rounds (Play-IsValid ok v p).log.fits,
)
