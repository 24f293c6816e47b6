-- ===== src/Text/Hand.antt =====
-- The actions of a hand in the order of its log pass `isValidAction` of modules/core/src/game.c
-- again, on every state that agrees with the hand's first.
use mathlib.Core.Path.{subst}
use mathlib.Core.List.{append-nil, append_assoc}
use bulldog.Prelude.{
  ℕ, ◌≤◌, ◌<◌, ◌≡◌, refl, sym, ◌∙◌, ap, false, some, List, [], ◌∷◌, ◌++◌, ◌==◌, arith, Bool-cases,
  inl, inr,
}
use bulldog.Game.{ActionType, a_fold, a_call, a_raise, a_invalid, Action, Game, State}
use bulldog.Betting.{current_player, valid_action_of, is_valid_action}
use bulldog.Hand.{do_action}
use bulldog.Betting.Invariant.{IsGame, IsValid}
use bulldog.Betting.Rules.{Legal}
use bulldog.Betting.Turn.{current_player_sound}
use bulldog.Betting.Validity.{is_valid_action_sound, is_valid_action_complete}
use bulldog.Hand.Play.{Done, do_action-Done, move, Play, start, next, Play-IsValid}
use bulldog.History.{log_of}
use bulldog.History.Same.{Same, is_valid_action-Same}
use bulldog.History.SameStep.{do_action-Same}
use bulldog.History.Log.{Grown, do_action-Grown, do_action-log, num_at, act_at}
use bulldog.History.Later.{Kept, Play-Kept}
use bulldog.Text.Actions.{Plain, Checked}

-- A legal action with the size that it is printed with passes again, and unchanged.
module _ {g : Game} (s : State) (ok : IsGame g) (v : IsValid g s) (running : s.finished ≡ false)
    {p : ℕ} (here : current_player g s ≡ some p) where
  passes_of :
      (ty : ActionType) (a : Action)
      → a.type ≡ ty
      → Plain g a
      → Legal g s p a
      → (c : ℕ) × (is_valid_action g s false a ≡ some (c, a)) × (0 < c)
  unfolding is_valid_action valid_action_of
  passes_of a_fold a e h l =
      let z : a.size ≡ 0 = h.unused (ground arith) in
      elim (Bool-cases (s.spent p == s.max_spent)) [
        | inl q ↦ (5, ground arith, omega arith)
        | inr q ↦ elim (Bool-cases (s.spent p == s.stack_player p)) [
          | inl r ↦ (5, ground arith, omega arith)
          | inr r ↦ (1, ground arith, omega arith)
        ]
      ]
  passes_of a_call a e h l =
      let z : a.size ≡ 0 = h.unused (ground arith) in (1, ground arith, omega arith)
  passes_of a_raise a e h l =
      (1, is_valid_action_complete s ok (v.turn running) here running false a e l, omega arith)
  passes_of a_invalid a e h l = cc (h.kind)

-- The log of a play that starts with nothing logged, done again on a state that agrees.
pub record Rechecked (g : Game) (s t s' : State) : Type 0 where
  pub actions : List Action
  pub in_log : log_of t ≡ log_of s ++ actions
  pub result : State
  pub checks : Checked g actions s' result
  pub agrees : Same g t result

Checked-append :
    (g : Game) (l : List Action) (a : Action) (c : ℕ) (s t u : State)
    → Checked g l s t
    → is_valid_action g t false a ≡ some (c, a)
    → 0 < c
    → do_action g a t ≡ some u
    → Checked g (l ++ (a ∷ [])) s u
Checked-append g [] a c s t u h v pos e =
    subst (λ x. Checked g (a ∷ []) x u) (sym h) (c, u, v, pos, e, refl)
Checked-append g (b ∷ l) a c s t u (k, x, v', pos', e', h) v pos e =
    (k, x, v', pos', e', Checked-append g l a c x t u h v pos e)

-- Every action that a play adds to the log is plain.
abbrev pub PlainSince : Game → State → State → Type 0
PlainSince g s t =
    (r i : ℕ)
    → r < g.num_rounds
    → s.num_actions r ≤ i
    → i < t.num_actions r
    → Plain g (t.action r i)

pub Play-Rechecked :
    {g : Game} {s t s' : State} {n : ℕ}
    → IsGame g
    → IsValid g s
    → Same g s s'
    → PlainSince g s t
    → Play g s n t
    → Rechecked g s t s'
Play-Rechecked {s = s} {s' = s'} ok v h plain start = record {
  actions = [];
  in_log = sym (append-nil (log_of s));
  result = s';
  checks = refl;
  agrees = h;
}
Play-Rechecked {g} {s} {s' = s'} ok v h plain (next {n} {t} {u} p (move b a a' c e pos d)) =
    let w : IsValid g t = Play-IsValid ok v p in
    let w' : IsValid g u = Play-IsValid ok v (next p (move b a a' c e pos d)) in
    let grown : Grown t u a' = do_action-Grown g a' t w.log.round_in d in
    let q : Rechecked g s t s' = Play-Rechecked ok v h (earlier grown) p in
    let done : Done g a' t u = do_action-Done g a' t d in
    let (in_game, acts, running) =
      current_player_sound g t (omega (arith, ok.players_min)) done.turn in
    let legal : Legal g t done.player a' =
      is_valid_action_sound t ok (w.turn running) done.turn running b a e pos in
    let kept : Kept s t = Play-Kept ok v p in
    let (k, passes, k_pos) =
      passes_of t ok w running done.turn a'.type a' refl (last grown kept w.log.round_in) legal in
    let (r, run, same) =
      do_action-Same (omega (arith, ok.players_min)) q.agrees a' w.log.later_empty d in
    let passes' : is_valid_action g q.result false a' ≡ some (k, a') =
      sym (
        is_valid_action-Same (omega (arith, ok.players_min)) q.agrees done.player false a' in_game
          done.turn)
      ∙ passes in
    record {
      actions = q.actions ++ (a' ∷ []);
      in_log =
          do_action-log g a' t w.log.round_in w'.log.round_in w.log.later_empty d
          ∙ ap (λ x. x ++ (a' ∷ [])) q.in_log
          ∙ append_assoc (log_of s) q.actions (a' ∷ []);
      result = r;
      checks = Checked-append g q.actions a' k s' q.result r q.checks passes' k_pos run;
      agrees = same;
    }
  where
    earlier : Grown t u a' → PlainSince g s t
    earlier x r i l m k =
        subst (Plain g) (ground (arith, act_at x r i))
          (plain r i l m (ground (arith, num_at x r, x.space)))

    last : Grown t u a' → Kept s t → t.round < g.num_rounds → Plain g a'
    last x y l = subst (Plain g) (ground (arith, act_at x t.round (t.num_actions t.round))) (
        plain t.round (t.num_actions t.round) l (y.lengths t.round)
          (ground (arith, num_at x t.round, x.space)))
