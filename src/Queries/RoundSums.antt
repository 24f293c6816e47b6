-- ===== src/Queries/RoundSums.antt =====
-- What `sum_round_spent` of a hand in modules/core/src/game.c holds for the players who have called or
-- raised in a round.
use mathlib.Core.Path.{subst}
use bulldog.Prelude.{
  ℕ, suc, ◌≤◌, ◌<◌, ◌≡◌, ◌≢◌, ◌⊎◌, refl, sym, ap, ◌∙◌, Bool, true, false, ◌==◌, arith, Bool-cases,
  inl, inr, some,
}
use bulldog.Game.{ActionType, a_fold, a_call, a_raise, a_invalid, Action, Game, State}
use bulldog.Hand.{log_action, place_bet, end_turn, do_action}
use bulldog.Betting.Invariant.{IsGame, IsValid}
use bulldog.Hand.Play.{
  Done, do_action-Done, Logged, do_action-logs, Move, move, Play, start, next, Play-IsValid,
  Move-IsValid,
}
use bulldog.History.Log.{Grown, do_action-Grown}

abbrev pub is_paying : ActionType → Bool
is_paying a_call = true
is_paying a_raise = true
is_paying a_fold = false
is_paying a_invalid = false

-- Player `q` has called or raised in round `r`.
pub record Acted (s : State) (r q : ℕ) : Type 0 where
  pub entry : ℕ
  pub logged : entry < s.num_actions r
  pub actor : s.acting_player r entry ≡ q
  pub paying : is_paying (s.action r entry).type ≡ true

abbrev pub PaidAt : State → ℕ → Type 0
PaidAt s r = (q : ℕ) → Acted s r q → s.sum_round_spent r q ≡ s.spent q

-- The sums after an action by `p`, in round `r` before it.
record Summed (s t : State) (r p : ℕ) (ty : ActionType) : Type 0 where
  own : is_paying ty ≡ true → t.sum_round_spent r p ≡ t.spent p
  alike :
      (q : ℕ)
      → (t.sum_round_spent r q ≡ t.spent q)
        ⊎ ((t.sum_round_spent r q ≡ s.sum_round_spent r q) × (t.spent q ≡ s.spent q))
  before : (k q : ℕ) → r ≢ k → t.sum_round_spent k q ≡ s.sum_round_spent k q

place_bet-Summed :
    (ty : ActionType) (g : Game) (s : State) (p size : ℕ) (a : Action) {t : State}
    → place_bet ty g (log_action s p a) p size ≡ some t
    → Summed s t s.round p ty
unfolding place_bet
place_bet-Summed a_fold g s p size a e = record {
  own = λ q. cc;
  alike = λ q. inr (ground arith, ground arith);
  before = λ k q n. ground arith;
}
place_bet-Summed a_call g s p size a e = record {
  own = λ q. ground arith;
  alike = λ q. elim (Bool-cases (p == q)) [
    | inl z ↦ inl (ground arith)
    | inr z ↦ inr (ground arith, ground arith)
  ];
  before = λ k q n. ground arith;
}
place_bet-Summed a_raise g s p size a e = record {
  own = λ q. ground arith;
  alike = λ q. elim (Bool-cases (p == q)) [
    | inl z ↦ inl (ground arith)
    | inr z ↦ inr (ground arith, ground arith)
  ];
  before = λ k q n. ground arith;
}
place_bet-Summed a_invalid g s p size a e = cc

end_turn-sums :
    (g : Game) (s : State)
    → ((end_turn g s).sum_round_spent ≡ s.sum_round_spent) × ((end_turn g s).spent ≡ s.spent)
unfolding end_turn
end_turn-sums g s = ground arith

Summed-same :
    (s t u : State) (r p : ℕ) (ty : ActionType)
    → u.sum_round_spent ≡ t.sum_round_spent
    → u.spent ≡ t.spent
    → Summed s t r p ty
    → Summed s u r p ty
Summed-same s t u r p ty x y h = record {
  own = λ e. ap (λ f. f r p) x ∙ h.own e ∙ ap (λ f. f p) (sym y);
  alike = λ q. elim (h.alike q) [
    | inl e ↦ inl (ap (λ f. f r q) x ∙ e ∙ ap (λ f. f q) (sym y))
    | inr (e, z) ↦ inr (ap (λ f. f r q) x ∙ e, ap (λ f. f q) y ∙ z)
  ];
  before = λ k q n. ap (λ f. f k q) x ∙ h.before k q n;
}

do_action-Summed :
    (g : Game) (a : Action) (s : State) {t : State} (d : Done g a s t)
    → Summed s t s.round d.player a.type
do_action-Summed g a s {t} d =
    let (x, y) = end_turn-sums g d.placed in
    Summed-same s d.placed t s.round d.player a.type
      (ap (λ (z : State). z.sum_round_spent) d.ended ∙ x) (ap (λ (z : State). z.spent) d.ended ∙ y)
      (place_bet-Summed a.type g s d.player a.size a d.bet)

-- Whoever has called or raised in the round has the sum of the round up to date, also after a step.
step-PaidAt :
    (g : Game) (a : Action) (s : State) {t : State}
    → do_action g a s ≡ some t
    → PaidAt s s.round
    → PaidAt t s.round
step-PaidAt g a s {t} e paid q acted =
    let d : Done g a s t = do_action-Done g a s e in
    let l : Logged s t d.player a = do_action-logs g a s d.player d.turn e in
    let h = do_action-Summed g a s d in
    elim (Bool-cases (s.num_actions s.round == acted.entry)) [
      | inl z ↦
          let here : s.num_actions s.round ≡ acted.entry = ground arith in
          let by : d.player ≡ q = sym l.actor ∙ ap (t.acting_player s.round) here ∙ acted.actor in
          let pays : is_paying a.type ≡ true =
            ap (λ (x : Action). is_paying x.type) (sym l.entry ∙ ap (t.action s.round) here)
            ∙ acted.paying in
          subst (λ q. t.sum_round_spent s.round q ≡ t.spent q) by (h.own pays)
      | inr z ↦
          let (x, y) = l.kept s.round acted.entry (inr (λ w. ground (arith, w))) in
          let was : Acted s s.round q = record {
            entry = acted.entry;
            logged = ground (arith, acted.logged, l.longer);
            actor = sym y ∙ acted.actor;
            paying = ap (λ (x : Action). is_paying x.type) (sym x) ∙ acted.paying;
          } in
          elim (h.alike q) [ inl w ↦ w | inr (w, v) ↦ w ∙ paid q was ∙ sym v ]
    ]

next-PaidAt :
    (g : Game) (a : Action) (s : State) {t : State}
    → IsValid g s
    → IsValid g t
    → do_action g a s ≡ some t
    → PaidAt s s.round
    → PaidAt t t.round
next-PaidAt g a s {t} v w e paid q acted =
    let gr : Grown s t a = do_action-Grown g a s v.log.round_in e in
    let l = do_action-logs g a s (do_action-Done g a s e).player (do_action-Done g a s e).turn e in
    elim (Bool-cases (s.round == t.round)) [
      | inl z ↦
          let same : s.round ≡ t.round = ground arith in
          subst (PaidAt t) same (step-PaidAt g a s e paid) q acted
      | inr z ↦ absurd (
          ground (
            arith,
            acted.logged,
            l.lengths t.round (λ x. ground (arith, x)),
            v.log.later_empty t.round,
            gr.up,
            w.log.round_in,
          ))
    ]

-- From a state in whose round nobody has acted.
Play-PaidAt :
    {g : Game} {s t : State} {n : ℕ}
    → IsGame g
    → IsValid g s
    → s.num_actions s.round ≡ 0
    → Play g s n t
    → PaidAt t t.round
Play-PaidAt ok v z start = λ q acted. absurd (omega (arith, acted.logged))
Play-PaidAt {g} ok v z (next {n} {t} p (move b a a' c e pos d)) =
    let w = Play-IsValid ok v p in
    next-PaidAt g a' t w (Move-IsValid ok w (move b a a' c e pos d)) d (Play-PaidAt ok v z p)

Move-PaidAt : {g : Game} {s t : State} → Move g s t → PaidAt s s.round → PaidAt t s.round
Move-PaidAt {g} {s} (move b a a' c e pos d) = step-PaidAt g a' s d

-- The sums of rounds before stay.
pub Play-before :
    {g : Game} {s t : State} {n : ℕ}
    → IsGame g
    → IsValid g s
    → Play g s n t
    → (s.round ≤ t.round)
      × ((k q : ℕ) → k < s.round → t.sum_round_spent k q ≡ s.sum_round_spent k q)
Play-before ok v start = (omega arith, λ k q l. refl)
Play-before {g} ok v (next {n} {t} p (move b a a' c e pos d)) =
    let (up, same) = Play-before ok v p in
    let h = do_action-Summed g a' t (do_action-Done g a' t d) in
    let gr = do_action-Grown g a' t (Play-IsValid ok v p).log.round_in d in
    (omega (arith, up, gr.up), λ k q l. h.before k q (λ z. omega (arith, up)) ∙ same k q l)

-- The round that is played from state `u` on, and what player `p` had put in before it: nothing before
-- the first round, and all that the player had put in when the round began, if the player had called
-- or raised in the round before.
pub data Begins (g : Game) (p : ℕ) : ℕ → State → Type 0 where
  first : (u : State) → u.round ≡ 0 → Begins g p 0 u
  later :
      (h s u : State) (n : ℕ)
      → IsValid g h
      → h.num_actions h.round ≡ 0
      → Play g h n s
      → Move g s u
      → u.round ≡ suc s.round
      → Acted u s.round p
      → Begins g p (u.spent p) u

-- The sum at the end of the round before is what had been put in then.
pub later-sum :
    {g : Game} {h s u : State} {n : ℕ} (p : ℕ)
    → IsGame g
    → IsValid g h
    → h.num_actions h.round ≡ 0
    → Play g h n s
    → Move g s u
    → Acted u s.round p
    → u.sum_round_spent s.round p ≡ u.spent p
later-sum p ok v z play m acted = Move-PaidAt m (Play-PaidAt ok v z play) p acted
