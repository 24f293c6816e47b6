-- ===== src/Text/Board.antt =====
-- The board in the text of a state: `readBoardCards` of modules/core/src/game.c on what
-- `printBoardCards` writes.
use mathlib.Core.Path.{ap₂}
use bulldog.Prelude.{
  ℕ, zero, suc, ◌+◌, ◌-◌, ◌≤◌, ◌<◌, ◌≡◌, refl, sym, ◌∙◌, ap, true, some, [], ◌++◌, ltb, ◌==◌,
  >>=-eq-some, arith, Bool-cases, inl, inr, total, total_mono,
}
use bulldog.Game.{Game, State}
use bulldog.Betting.{bc_start}
use bulldog.Betting.Boards.{bc_start-total}
use bulldog.Text.{Text, text_length, read_cards, print_cards}
use bulldog.Text.Print.{put_separator, print_boards_from, print_board_cards}
use bulldog.Text.Read.{read_boards_from, write_at}
use bulldog.Text.Cards.{cards_text, print_cards-text, read_cards-text}
use bulldog.Text.Table.{separator, put_separator-text, skip-separator, regroup, end_text-eq}

module _ (g : Game) (s : State) (four : g.num_suits ≡ 4)
    (small : total g.num_board_cards (suc s.round) < 256) where
  -- The cards of the board up to the current round.
  abbrev pub Shown : Type 0
  Shown = (i : ℕ) → i < total g.num_board_cards (suc s.round) → s.board_cards i < 52

  abbrev round_cards : ℕ → ℕ → ℕ
  round_cards r i = s.board_cards (bc_start g r + i)

  abbrev pub boards_text : ℕ → Text
  boards_text zero = []
  boards_text (suc r) =
      (boards_text r ++ separator r b'/')
      ++ cards_text g four (round_cards r) (g.num_board_cards r) 0

  begins : (r : ℕ) → r ≤ suc s.round → bc_start g r ≡ total g.num_board_cards r
  begins r le =
      bc_start-total g r (omega (arith, small, total_mono g.num_board_cards r (suc s.round) le))

  ends : (r : ℕ) → suc r ≤ suc s.round → bc_start g (suc r) ≡ bc_start g r + g.num_board_cards r
  unfolding total
  ends r le = omega (arith, begins r (omega arith), begins (suc r) le)

  round_shown :
      (r i : ℕ) → suc r ≤ suc s.round → i < g.num_board_cards r → Shown → round_cards r i < 52
  round_shown r i le l c = c (bc_start g r + i) (
      omega (
        arith,
        ends r le,
        begins (suc r) le,
        total_mono g.num_board_cards (suc r) (suc s.round) le,
      ))

  print_boards_from-text :
      (max_len k : ℕ) {t : Text}
      → Shown
      → k ≤ suc s.round
      → print_boards_from g s max_len k ≡ some t
      → t ≡ boards_text k
  unfolding print_boards_from
  print_boards_from-text max_len zero c le e = ground arith
  print_boards_from-text max_len (suc r) {t} c le e =
      let (t1, e1, q1) = >>=-eq-some (print_boards_from g s max_len r) _ e in
      let (t2, e2, q2) = >>=-eq-some (put_separator r b'/' max_len t1) _ q1 in
      let (w, e3, q3) =
        >>=-eq-some (print_cards g (g.num_board_cards r) (round_cards r) (max_len - text_length t2))
          _ q2 in
      let t_is : t2 ++ w ≡ t = cc in
      sym t_is
      ∙ ap₂ ◌++◌
          (put_separator-text r b'/' max_len t1 e2
            ∙ ap (λ x. x ++ separator r b'/') (print_boards_from-text max_len r c (omega arith) e1))
          (print_cards-text g four (g.num_board_cards r) (round_cards r) (max_len - text_length t2)
            (λ i l. round_shown r i le l c) e3)

  pub print_board_cards-text :
      (max_len : ℕ) {t : Text}
      → Shown
      → print_board_cards g s max_len ≡ some t
      → t ≡ boards_text (suc s.round)
  unfolding print_board_cards
  print_board_cards-text max_len {t} c e =
      let (t1, e1, q1) = >>=-eq-some (print_boards_from g s max_len (suc s.round)) _ e in
      sym (end_text-eq max_len t1 q1)
      ∙ print_boards_from-text max_len (suc s.round) c (omega arith) e1

  boards_step :
      (r : ℕ) (t rest u : Text) (old b0 cards : ℕ → ℕ)
      → read_boards_from g r t old ≡ some (b0, separator r b'/' ++ rest)
      → read_cards g (g.num_board_cards r) (λ i. b0 (bc_start g r + i)) rest
        ≡ (g.num_board_cards r, cards, u)
      → read_boards_from g (suc r) t old ≡ some (write_at (bc_start g r) b0 cards, u)
  unfolding read_boards_from
  boards_step r t rest u old b0 cards e q =
      let all_cards : (g.num_board_cards r == g.num_board_cards r) ≡ true = ground arith in
      rw e (rw (skip-separator r b'/' rest) (rw q (rw all_cards refl)))

  pub read_boards_from-text :
      (k : ℕ) (rest : Text) (old : ℕ → ℕ)
      → Shown
      → k ≤ suc s.round
      → (new : ℕ → ℕ) × (read_boards_from g k (boards_text k ++ rest) old ≡ some (new, rest))
        × ((i : ℕ) → i < bc_start g k → new i ≡ s.board_cards i)
  unfolding read_boards_from
  read_boards_from-text zero rest old c le =
      (old, refl, λ i l. absurd (unfold bc_start in (omega arith)))
  read_boards_from-text (suc k) rest old c le =
      let ct = cards_text g four (round_cards k) (g.num_board_cards k) 0 in
      let (b0, e, f) =
        read_boards_from-text k (separator k b'/' ++ (ct ++ rest)) old c (omega arith) in
      let (cards, q, same) =
        read_cards-text g four (g.num_board_cards k) (round_cards k) (λ i. b0 (bc_start g k + i))
          rest (λ i l. round_shown k i le l c) in
      (
        write_at (bc_start g k) b0 cards,
        ap (λ t. read_boards_from g (suc k) t old)
              (regroup (boards_text k) (separator k b'/') ct rest)
            ∙ boards_step k (boards_text k ++ (separator k b'/' ++ (ct ++ rest))) (ct ++ rest) rest
                old b0 cards e q,
        λ i l. elim (Bool-cases (ltb i (bc_start g k))) [
          | inl z ↦ ground (arith, f i)
          | inr z ↦
              let place : bc_start g k + (i - bc_start g k) ≡ i = ground arith in
              ground (arith, same (i - bc_start g k), ends k le, ap s.board_cards place)
        ],
      )
