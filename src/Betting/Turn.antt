-- ===== src/Betting/Turn.antt =====
-- Whose turn it is: `nextPlayer` and `currentPlayer` of modules/core/src/game.c.
use native.Mathlib.Nat.{mod-lt, mod-add-mod, add-mod_right, mod-eq_of_lt}
use bulldog.Prelude.{
  ℕ, zero, suc, ◌+◌, ◌-◌, ◌%◌, ◌<◌, ◌≡◌, true, false, none, some, ◌==◌, arith, sym, ap, ◌∙◌, dec_lt,
  inl, inr, Bool-cases, Option-cases, if◌then◌else◌,
}
use bulldog.Game.{Game, State}
use bulldog.Betting.{can_act, next_player_from, next_player, current_player}

-- The seat `k` places after `n`.
abbrev pub seat : Game → ℕ → ℕ → ℕ
seat g n k = (n + 1 + k) % g.num_players

-- What `nextPlayer` promises of the seat that it returns.
pub record IsNext (g : Game) (s : State) (n m : ℕ) : Type 0 where
  pub in_game : m < g.num_players
  pub acts : can_act s m ≡ true
  pub skipped : ℕ
  pub here : m ≡ seat g n skipped
  pub passed : (j : ℕ) → j < skipped → can_act s (seat g n j) ≡ false

mod-shift : (n k p : ℕ) → ((n + 1) % p + 1 + k) % p ≡ (n + 1 + suc k) % p
mod-shift n k p =
    ap (λ x. x % p) (omega arith) ∙ mod-add-mod (n + 1) p (1 + k) ∙ ap (λ x. x % p) (omega arith)

-- Every seat is reached from `n` in fewer than `p` places.
mod-reach : (n q p : ℕ) → q < p → (j : ℕ) × (j < p) × ((n + 1 + j) % p ≡ q)
mod-reach n q p h = elim (dec_lt q r) [
  | yes l ↦ (
    q + p - r,
    omega arith,
    sym (mod-add-mod (n + 1) p (q + p - r))
        ∙ ap (λ x. x % p) (omega arith)
        ∙ add-mod_right q p
        ∙ mod-eq_of_lt h,
  )
  | no l ↦ (
    q - r,
    omega arith,
    sym (mod-add-mod (n + 1) p (q - r)) ∙ ap (λ x. x % p) (omega arith) ∙ mod-eq_of_lt h,
  )
]
  where
    r : ℕ
    r = (n + 1) % p

    r_lt : r < p
    r_lt = mod-lt (n + 1) (omega arith)

from-stop :
    (fuel : ℕ) (g : Game) (s : State) (n : ℕ)
    → can_act s ((n + 1) % g.num_players) ≡ true
    → next_player_from (suc fuel) g s n ≡ some ((n + 1) % g.num_players)
unfolding next_player_from
from-stop fuel g s n e = rw e

from-pass :
    (fuel : ℕ) (g : Game) (s : State) (n : ℕ)
    → can_act s ((n + 1) % g.num_players) ≡ false
    → next_player_from (suc fuel) g s n ≡ next_player_from fuel g s ((n + 1) % g.num_players)
unfolding next_player_from
from-pass fuel g s n e = rw e

-- The loop stops only at a seat that can act, after passing seats that cannot.
next_player_from-IsNext :
    (fuel : ℕ) (g : Game) (s : State) (n : ℕ) {m : ℕ}
    → 0 < g.num_players
    → next_player_from fuel g s n ≡ some m
    → IsNext g s n m
next_player_from-IsNext zero g s n h e = absurd (unfold next_player_from in cc e)
next_player_from-IsNext (suc fuel) g s n {m} h e = elim (Bool-cases (can_act s n')) [
  | inl t ↦
      let q : n' ≡ m = cc (from-stop fuel g s n t) in
      record {
        in_game = rw (← q) (mod-lt (n + 1) h);
        acts = rw (← q) t;
        skipped = 0;
        here = sym q ∙ ap (λ x. x % g.num_players) (omega arith);
        passed = λ j l. absurd (omega arith);
      }
  | inr f ↦
      let ih : IsNext g s n' m =
        next_player_from-IsNext fuel g s n' h (sym (from-pass fuel g s n f) ∙ e) in
      record {
        in_game = ih.in_game;
        acts = ih.acts;
        skipped = suc ih.skipped;
        here = ih.here ∙ mod-shift n ih.skipped g.num_players;
        passed = passed-suc ih.skipped f ih.passed;
      }
]
  where
    n' : ℕ
    n' = (n + 1) % g.num_players

    passed-suc :
        (k : ℕ)
        → can_act s n' ≡ false
        → ((j : ℕ) → j < k → can_act s (seat g n' j) ≡ false)
        → (j : ℕ) → j < suc k
        → can_act s (seat g n j) ≡ false
    passed-suc k f h zero l = ap (λ x. can_act s (x % g.num_players)) (omega arith) ∙ f
    passed-suc k f h (suc j) l =
        ap (can_act s) (sym (mod-shift n j g.num_players)) ∙ h j (omega arith)

next_player_from-none :
    (fuel : ℕ) (g : Game) (s : State) (n : ℕ)
    → next_player_from fuel g s n ≡ none
    → (j : ℕ) → j < fuel
    → can_act s (seat g n j) ≡ false
next_player_from-none zero g s n e j h = elim h [ ]
next_player_from-none (suc fuel) g s n e j h = elim (Bool-cases (can_act s n')) [
  | inl t ↦ cc (from-stop fuel g s n t)
  | inr f ↦ later f (next_player_from-none fuel g s n' (sym (from-pass fuel g s n f) ∙ e)) j h
]
  where
    n' : ℕ
    n' = (n + 1) % g.num_players

    later :
        can_act s n' ≡ false
        → ((j : ℕ) → j < fuel → can_act s (seat g n' j) ≡ false)
        → (j : ℕ) → j < suc fuel
        → can_act s (seat g n j) ≡ false
    later f h zero l = ap (λ x. can_act s (x % g.num_players)) (omega arith) ∙ f
    later f h (suc j) l = ap (can_act s) (sym (mod-shift n j g.num_players)) ∙ h j (omega arith)

-- If some player of the game can act, `nextPlayer` returns, and the player that it returns is the
-- first after `cur` round the table that can act: it is in the game, it has not folded and has chips
-- left, and every seat passed on the way cannot act.
pub next_player-IsNext :
    (g : Game) (s : State) (cur q : ℕ)
    → q < g.num_players
    → can_act s q ≡ true
    → (m : ℕ) × (next_player g s cur ≡ some m) × IsNext g s cur m
unfolding next_player
next_player-IsNext g s cur q h e = elim (Option-cases (next_player_from g.num_players g s cur)) [
  | inl f ↦
      let (j, l, here) = mod-reach cur q g.num_players h in
      absurd (cc (next_player_from-none g.num_players g s cur f j l, ap (can_act s) here))
  | inr (m, f) ↦ (m, f, next_player_from-IsNext g.num_players g s cur (omega arith) f)
]

-- Whoever `nextPlayer` returns can act.
pub next_player-acts :
    (g : Game) (s : State) (cur : ℕ) {m : ℕ}
    → 0 < g.num_players
    → next_player g s cur ≡ some m
    → IsNext g s cur m
unfolding next_player
next_player-acts g s cur h e = next_player_from-IsNext g.num_players g s cur h e

-- If no player can act, the loop of `nextPlayer` never ends, however long it runs.
pub next_player_endless :
    (fuel : ℕ) (g : Game) (s : State) (cur : ℕ)
    → 0 < g.num_players
    → ((p : ℕ) → p < g.num_players → can_act s p ≡ false)
    → next_player_from fuel g s cur ≡ none
next_player_endless fuel g s cur h f = elim (Option-cases (next_player_from fuel g s cur)) [
  | inl e ↦ e
  | inr (m, e) ↦
      let ok : IsNext g s cur m = next_player_from-IsNext fuel g s cur h e in
      absurd (cc (f m ok.in_game, ok.acts))
]

-- The seat from which `currentPlayer` goes on to the next player.
abbrev pub last_seat : Game → State → ℕ
last_seat g s =
    if s.num_actions s.round == 0
    then (g.first_player s.round + g.num_players - 1) % 256
    else s.acting_player s.round (s.num_actions s.round - 1)

pub current_player-running :
    (g : Game) (s : State)
    → s.finished ≡ false
    → current_player g s ≡ next_player g s (last_seat g s)
unfolding current_player
current_player-running g s f = ground arith

pub current_player-finished : (g : Game) (s : State) → s.finished ≡ true → current_player g s ≡ none
unfolding current_player
current_player-finished g s f = ground arith

-- In a hand that is not over, with a player who can act, `currentPlayer` returns the next player
-- who can act after the last one to act, or at the start of a round after the seat before
-- `firstPlayer`.
pub current_player-acts :
    (g : Game) (s : State) (q : ℕ)
    → q < g.num_players
    → can_act s q ≡ true
    → s.finished ≡ false
    → (p : ℕ) × (current_player g s ≡ some p) × IsNext g s (last_seat g s) p
current_player-acts g s q h e f =
    let (m, r, ok) = next_player-IsNext g s (last_seat g s) q h e in
    (m, current_player-running g s f ∙ r, ok)

-- The converse: the player that `currentPlayer` returns is in the game and can act.
pub current_player_sound :
    (g : Game) (s : State) {p : ℕ}
    → 0 < g.num_players
    → current_player g s ≡ some p
    → (p < g.num_players) × (can_act s p ≡ true) × (s.finished ≡ false)
current_player_sound g s {p} h e = elim (Bool-cases s.finished) [
  | inl f ↦ cc (current_player-finished g s f)
  | inr f ↦
      let ok : IsNext g s (last_seat g s) p =
        next_player-acts g s (last_seat g s) h (sym (current_player-running g s f) ∙ e) in
      (ok.in_game, ok.acts, f)
]
