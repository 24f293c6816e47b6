-- ===== src/Text/Stack.antt =====
-- The stacks in the text of a state: `readStack` of modules/core/src/game.c on what `printStack`
-- writes. It takes no stack for a card.
use mathlib.Core.Path.{subst}
use mathlib.Core.List.{append-nil, append_assoc}
use bulldog.Prelude.{
  ℕ, zero, suc, ◌+◌, ◌-◌, ◌≤◌, ◌<◌, ◌≡◌, refl, sym, ◌∙◌, ap, true, false, none, some, [], ◌∷◌, ◌++◌,
  ◌==◌, ◌>>=◌, arith, Bool-cases, Option-cases, inl, inr, update,
}
use bulldog.Game.{Game, State}
use bulldog.Text.{
  Text, head_char, tail_text, is_digit, all_digits, Numbers, find_char, rank_chars, suit_chars,
  to_upper, to_lower, card_of_chars, read_card,
}
use bulldog.Text.Print.{print_stack_from}
use bulldog.Text.Read.{skip_char, strtol, read_stacks_from, read_stack}

no_suit : (y : ℕ) → is_digit y ≡ true → find_char suit_chars (to_lower y) ≡ none
unfolding find_char
no_suit y d = ground arith

card_of_chars-no_suit :
    (n x y : ℕ) → find_char suit_chars (to_lower y) ≡ none → card_of_chars n x y ≡ none
unfolding card_of_chars
card_of_chars-no_suit n x y e = elim (Option-cases (find_char rank_chars (to_upper x))) [
  | inl q ↦ rw q refl
  | inr (r, q) ↦ rw q (rw e refl)
]

read_card-none :
    (g : Game) (x y : ℕ) (rest : Text)
    → card_of_chars g.num_suits x y ≡ none
    → read_card g (x ∷ y ∷ rest) ≡ none
unfolding read_card card_of_chars
read_card-none g x y rest e = ap (λ o. o >>= λ card. some (card, rest)) e

read_card-bar : (g : Game) (rest : Text) → read_card g (b'|' ∷ rest) ≡ none
unfolding read_card
read_card-bar g [] = refl
read_card-bar g (y ∷ rest) = refl

no_suit_bar : find_char suit_chars (to_lower b'|') ≡ none
unfolding find_char
no_suit_bar = refl

-- Digits with a bar behind them are no card.
read_card-digits :
    (g : Game) (t rest : Text) → all_digits t ≡ true → read_card g (t ++ (b'|' ∷ rest)) ≡ none
read_card-digits g [] rest d = read_card-bar g rest
read_card-digits g (x ∷ []) rest d =
    read_card-none g x b'|' rest (card_of_chars-no_suit g.num_suits x b'|' no_suit_bar)
read_card-digits g (x ∷ y ∷ t) rest d =
    read_card-none g x y (t ++ (b'|' ∷ rest))
      (card_of_chars-no_suit g.num_suits x y (no_suit y (ground arith)))

module _ (numbers : Numbers) where
  open numbers use {print, scan, scan-print, print_some, print_digits}

  strtol-print :
      (n : ℕ) (rest : Text)
      → n ≤ 2147483647
      → is_digit (head_char rest) ≡ false
      → strtol numbers (print n ++ rest) ≡ (n, rest)
  unfolding strtol
  strtol-print n rest l d = rw (strtol, scan-print 2147483647 n rest l d) refl

  module _ (g : Game) (s : State)
      (fits : (p : ℕ) → p < g.num_players → s.stack_player p ≤ 2147483647) where
    -- The stacks of `n` players from player `i` on, each behind a bar.
    abbrev more_text : ℕ → ℕ → Text
    more_text zero i = []
    more_text (suc n) i = b'|' ∷ (print (s.stack_player i) ++ more_text n (suc i))

    more_text-snoc :
        (n i : ℕ) → more_text n i ++ (b'|' ∷ print (s.stack_player (i + n))) ≡ more_text (suc n) i
    more_text-snoc zero i =
        let e : i + 0 ≡ i = omega arith in
        ap (λ k. b'|' ∷ print (s.stack_player k)) e
        ∙ ap (λ t. b'|' ∷ t) (sym (append-nil (print (s.stack_player i))))
    more_text-snoc (suc n) i =
        let e : i + suc n ≡ suc i + n = omega arith in
        ap (λ t. b'|' ∷ t)
          (append_assoc (print (s.stack_player i)) (more_text n (suc i))
              (b'|' ∷ print (s.stack_player (i + suc n)))
            ∙ ap (λ t. print (s.stack_player i) ++ t)
                (ap (λ k. more_text n (suc i) ++ (b'|' ∷ print (s.stack_player k))) e
                  ∙ more_text-snoc n (suc i)))

    print_stack_first : print_stack_from numbers g s 1 ≡ print (s.stack_player 0)
    unfolding print_stack_from
    print_stack_first = refl

    print_stack_next :
        (n : ℕ)
        → print_stack_from numbers g s (suc (suc n))
          ≡ (print_stack_from numbers g s (suc n) ++ (b'|' ∷ [])) ++ print (s.stack_player (suc n))
    unfolding print_stack_from
    print_stack_next n = let e : (suc n == 0) ≡ false = ground arith in rw e refl

    print_stack-text :
        (n : ℕ) → print_stack_from numbers g s (suc n) ≡ print (s.stack_player 0) ++ more_text n 1
    print_stack-text zero = print_stack_first ∙ sym (append-nil (print (s.stack_player 0)))
    print_stack-text (suc n) =
        let e : suc n ≡ 1 + n = omega arith in
        print_stack_next n
        ∙ append_assoc (print_stack_from numbers g s (suc n)) (b'|' ∷ [])
            (print (s.stack_player (suc n)))
        ∙ ap (λ t. t ++ (b'|' ∷ print (s.stack_player (suc n)))) (print_stack-text n)
        ∙ append_assoc (print (s.stack_player 0)) (more_text n 1)
            (b'|' ∷ print (s.stack_player (suc n)))
        ∙ ap (λ t. print (s.stack_player 0) ++ t)
            (ap (λ k. more_text n 1 ++ (b'|' ∷ print (s.stack_player k))) e ∙ more_text-snoc n 1)

    more_head :
        (n i : ℕ) (rest : Text) → is_digit (head_char (more_text n i ++ (b':' ∷ rest))) ≡ false
    more_head zero i rest = refl
    more_head (suc n) i rest = refl

    read_stacks_from-text :
        (n i : ℕ) (rest : Text) (stack : ℕ → ℕ)
        → i + n ≤ g.num_players
        → (new : ℕ → ℕ) × (read_stacks_from numbers n i (more_text n i ++ (b':' ∷ rest)) stack
            ≡ (new, b':' ∷ rest))
          × ((p : ℕ) → i ≤ p → p < i + n → new p ≡ s.stack_player p)
          × ((p : ℕ) → p < i → new p ≡ stack p)
    unfolding read_stacks_from
    read_stacks_from-text zero i rest stack le =
        (stack, refl, λ p a b. absurd (omega arith), λ p a. refl)
    read_stacks_from-text (suc n) i rest stack le =
        let (new, e, inside, before) =
          read_stacks_from-text n (suc i) rest (update stack i (s.stack_player i)) (omega arith) in
        let text : (print (s.stack_player i) ++ more_text n (suc i)) ++ (b':' ∷ rest)
            ≡ print (s.stack_player i) ++ (more_text n (suc i) ++ (b':' ∷ rest)) =
          append_assoc (print (s.stack_player i)) (more_text n (suc i)) (b':' ∷ rest) in
        let number : strtol numbers
              ((print (s.stack_player i) ++ more_text n (suc i)) ++ (b':' ∷ rest))
            ≡ (s.stack_player i, more_text n (suc i) ++ (b':' ∷ rest)) =
          ap (strtol numbers) text
          ∙ strtol-print (s.stack_player i) (more_text n (suc i) ++ (b':' ∷ rest))
              (fits i (omega arith)) (more_head n (suc i) rest) in
        (
          new,
          ap (λ (r : ℕ × Text). read_stacks_from numbers n (suc i) r.1 (update stack i r.0)) number
              ∙ e,
          λ p a b. elim (Bool-cases (p == i)) [
            | inl q ↦
                let ip : i ≡ p = ground arith in ground (arith, before p, ap s.stack_player ip)
            | inr q ↦ inside p (ground arith) (omega arith)
          ],
          λ p a. ground (arith, before p),
        )

    -- The stacks with a bar behind the first are no card, at either place where readStack looks for one.
    no_cards :
        (rest : Text) → (head_char (print (s.stack_player 0) ++ (b'|' ∷ rest)) == b':') ≡ false
    no_cards rest =
        let (c, d, shape) = print_some (s.stack_player 0) in
        let digits : all_digits (c ∷ d) ≡ true =
          subst (λ x. all_digits x ≡ true) shape (print_digits (s.stack_player 0)) in
        rw shape (ground arith)

    no_card_behind :
        (rest : Text) → read_card g (tail_text (print (s.stack_player 0) ++ (b'|' ∷ rest))) ≡ none
    no_card_behind rest =
        let (c, d, shape) = print_some (s.stack_player 0) in
        let digits : all_digits (c ∷ d) ≡ true =
          subst (λ x. all_digits x ≡ true) shape (print_digits (s.stack_player 0)) in
        subst (λ x. read_card g (tail_text (x ++ (b'|' ∷ rest))) ≡ none) (sym shape)
          (read_card-digits g d rest (ground arith))

    read_stack-split :
        (t : State) (u : Text)
        → (head_char u == b':') ≡ false
        → read_card g u ≡ none
        → read_card g (tail_text u) ≡ none
        → (first : ℕ) (v : Text) → strtol numbers u ≡ (first, v)
        → (new : ℕ → ℕ) (w : Text)
        → read_stacks_from numbers (g.num_players - 1) 1 v (update t.stack_player 0 first)
          ≡ (new, w)
        → read_stack numbers g u t ≡ (record t { stack_player = new }, skip_char b':' w)
    unfolding read_stack
    read_stack-split t u a b c first v d new w e = rw (read_stack, a, b, c, d, e) refl

    -- What readStack reads are the stacks that printStack has written.
    pub read_stack-text :
        (t : State) (rest : Text) (n : ℕ)
        → g.num_players ≡ suc (suc n)
        → (new : ℕ → ℕ) × (read_stack numbers g
              (print_stack_from numbers g s g.num_players ++ (b':' ∷ rest))
              t
            ≡ (record t { stack_player = new }, rest))
          × ((p : ℕ) → p < g.num_players → new p ≡ s.stack_player p)
    read_stack-text t rest n two =
        let first = s.stack_player 0 in
        let behind = more_text (suc n) 1 ++ (b':' ∷ rest) in
        let count : g.num_players - 1 ≡ suc n = omega arith in
        let text : print_stack_from numbers g s g.num_players ++ (b':' ∷ rest)
            ≡ print first ++ behind =
          ap (λ k. print_stack_from numbers g s k ++ (b':' ∷ rest)) two
          ∙ ap (λ x. x ++ (b':' ∷ rest)) (print_stack-text (suc n))
          ∙ append_assoc (print first) (more_text (suc n) 1) (b':' ∷ rest) in
        let (new, e, inside, before) =
          read_stacks_from-text (suc n) 1 rest (update t.stack_player 0 first) (omega arith) in
        (
          new,
          ap (λ x. read_stack numbers g x t) text
              ∙ read_stack-split t (print first ++ behind) (no_cards _)
                  (read_card-digits g (print first) _ (print_digits first)) (no_card_behind _) first
                  behind (strtol-print first behind (fits 0 (omega arith)) refl) new (b':' ∷ rest)
                  (ap (λ k. read_stacks_from numbers k 1 behind (update t.stack_player 0 first))
                      count
                    ∙ e),
          λ p l. elim (Bool-cases (p == 0)) [
            | inl q ↦ let z : 0 ≡ p = ground arith in ground (arith, before p, ap s.stack_player z)
            | inr q ↦ inside p (ground arith) (omega arith)
          ],
        )
