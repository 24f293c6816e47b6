-- ===== src/Text/Betting.antt =====
-- `readBetting` of modules/core/src/game.c on what `printBetting` writes: it plays the hand again.
use mathlib.Core.Path.{subst, subst₂}
use mathlib.Core.List.{append-nil, append_assoc}
use bulldog.Prelude.{
  ℕ, zero, suc, ◌+◌, ◌-◌, ◌≤◌, ◌<◌, ◌≡◌, sym, ◌∙◌, ap, some, List, [], ◌∷◌, ◌++◌, >>=-eq-some,
  arith,
}
use bulldog.Game.{Action, Game, State}
use bulldog.History.{round_log, rounds_log, log_of}
use bulldog.Text.{Text, text_length, Numbers, print_action}
use bulldog.Text.Print.{print_round, print_rounds, print_betting, put_separator}
use bulldog.Text.Read.{read_betting_from, read_betting}
use bulldog.Text.Actions.{
  Plain, text_length-append, action_text, print_action-text, Spells, stop, slash, spell, Checked,
  clean, read_step, action_split,
}

module _ (numbers : Numbers) (g : Game) where
  reads :
      (fuel : ℕ) {l : List Action} {t : Text} (rest : Text) (s u : State)
      → Spells numbers g l t
      → Checked g l s u
      → text_length (t ++ (b':' ∷ rest)) < fuel
      → read_betting_from numbers fuel g (t ++ (b':' ∷ rest)) s ≡ some (u, rest)
  unfolding read_betting_from
  reads zero rest s u h k lt = absurd (omega arith)
  reads (suc fuel) rest s u stop k lt = ground arith
  reads (suc fuel) rest s u (slash h) k lt = reads fuel rest s u h k (omega arith)
  reads (suc fuel) rest s u (spell a {l} {t} w p h e) (c, v, valid, pos, run, k) lt =
      let (d, q) = action_split numbers g a in
      let shape : w ++ (b':' ∷ rest) ≡ action_text numbers g a ++ (t ++ (b':' ∷ rest)) =
        ap (λ x. x ++ (b':' ∷ rest)) e ∙ append_assoc (action_text numbers g a) t (b':' ∷ rest) in
      let sizes : text_length (w ++ (b':' ∷ rest))
          ≡ suc (text_length d) + text_length (t ++ (b':' ∷ rest)) =
        ap text_length shape
        ∙ text_length-append (action_text numbers g a) (t ++ (b':' ∷ rest))
        ∙ ap (λ x. text_length x + text_length (t ++ (b':' ∷ rest))) q in
      ap (λ x. read_betting_from numbers (suc fuel) g x s) shape
      ∙ read_step numbers g fuel c a (t ++ (b':' ∷ rest)) s v p (clean numbers g rest h) valid pos
          run
      ∙ reads fuel rest v u h k (omega (arith, sizes))

  -- readBetting carries out the actions that a text spells, if each is valid when its turn comes, and
  -- stops behind the colon.
  pub read_betting-Spells :
      {l : List Action} {t : Text} (rest : Text) (s u : State)
      → Spells numbers g l t
      → Checked g l s u
      → read_betting numbers g (t ++ (b':' ∷ rest)) s ≡ some (u, rest)
  unfolding read_betting
  read_betting-Spells {t = t} rest s u h k =
      reads (suc (text_length (t ++ (b':' ∷ rest)))) rest s u h k (omega arith)

  append-Spells :
      {l m : List Action} {t u : Text}
      → Spells numbers g l t
      → Spells numbers g m u
      → Spells numbers g (l ++ m) (t ++ u)
  append-Spells stop k = k
  append-Spells (slash h) k = slash (append-Spells h k)
  append-Spells {u = u} (spell a {l} {t} w p h e) k =
      spell a (w ++ u) p (append-Spells h k)
        (ap (λ x. x ++ u) e ∙ append_assoc (action_text numbers g a) t u)

  one-Spells : (a : Action) → Plain g a → Spells numbers g (a ∷ []) (action_text numbers g a)
  one-Spells a p =
      spell a (action_text numbers g a) p stop (sym (append-nil (action_text numbers g a)))

  -- All actions of the log can be printed.
  abbrev pub PlainLog : State → Type 0
  PlainLog s = (r i : ℕ) → r ≤ s.round → i < s.num_actions r → Plain g (s.action r i)

  module _ (s : State) (plain : PlainLog s) (max_len : ℕ) where
    print_round-Spells :
        (r n : ℕ) {l : List Action} {t t' : Text}
        → r ≤ s.round
        → n ≤ s.num_actions r
        → Spells numbers g l t
        → print_round numbers g s max_len r n t ≡ some t'
        → Spells numbers g (l ++ round_log s r n) t'
    unfolding print_round round_log
    print_round-Spells r zero {l} {t} {t'} le k h e =
        subst₂ (Spells numbers g) (sym (append-nil l)) (cc) h
    print_round-Spells r (suc n) {l} {t} {t'} le k h e =
        let (t1, e1, q1) = >>=-eq-some (print_round numbers g s max_len r n t) _ e in
        let (w, e2, q2) =
          >>=-eq-some (print_action numbers g (s.action r n) (max_len - text_length t1)) _ q1 in
        let w_is : w ≡ action_text numbers g (s.action r n) =
          print_action-text numbers g (s.action r n) (max_len - text_length t1) e2 in
        let t'_is : t1 ++ action_text numbers g (s.action r n) ≡ t' =
          ap (λ x. t1 ++ x) (sym w_is) ∙ cc in
        subst₂ (Spells numbers g) (append_assoc l (round_log s r n) (s.action r n ∷ [])) t'_is (
          append-Spells (print_round-Spells r n le (omega arith) h e1)
            (one-Spells (s.action r n) (plain r n le (omega arith))))

    separator-Spells :
        (r : ℕ) {l : List Action} {t t' : Text}
        → Spells numbers g l t
        → put_separator r b'/' max_len t ≡ some t'
        → Spells numbers g l t'
    separator-Spells zero {l} {t} {t'} h e = subst (Spells numbers g l) (cc) h
    separator-Spells (suc r) {l} {t} {t'} h e =
        subst₂ (Spells numbers g) (append-nil l) (ground arith) (append-Spells h (slash stop))

    print_rounds-Spells :
        (k : ℕ) {t : Text}
        → k ≤ suc s.round
        → print_rounds numbers g s max_len k ≡ some t
        → Spells numbers g (rounds_log s k) t
    unfolding print_rounds rounds_log
    print_rounds-Spells zero {t} le e = subst (Spells numbers g []) (cc) stop
    print_rounds-Spells (suc r) {t} le e =
        let (t1, e1, q1) = >>=-eq-some (print_rounds numbers g s max_len r) _ e in
        let (t2, e2, q2) = >>=-eq-some (put_separator r b'/' max_len t1) _ q1 in
        print_round-Spells r (s.num_actions r) (omega arith) (omega arith)
          (separator-Spells r (print_rounds-Spells r (omega arith) e1) e2) q2

    -- What printBetting writes spells the log.
    pub print_betting-Spells :
        {t : Text} → print_betting numbers g s max_len ≡ some t → Spells numbers g (log_of s) t
    unfolding print_betting
    print_betting-Spells {t} e =
        let (t1, e1, q1) = >>=-eq-some (print_rounds numbers g s max_len (suc s.round)) _ e in
        subst (Spells numbers g (log_of s)) (ground arith)
          (print_rounds-Spells (suc s.round) (omega arith) e1)
