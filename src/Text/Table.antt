-- ===== src/Text/Table.antt =====
-- The players' cards and the board in the text of a state: `readHoleCards` and `readBoardCards` of
-- modules/core/src/game.c on what `printAllHoleCards` and `printBoardCards` write.
use mathlib.Core.Path.{ap₂}
use mathlib.Core.List.{append-nil, append_assoc}
use bulldog.Prelude.{
  ℕ, zero, suc, ◌-◌, ◌≤◌, ◌<◌, ◌≡◌, refl, sym, ◌∙◌, ap, true, false, some, [], ◌∷◌, ◌++◌, ◌==◌,
  if◌then◌else◌, >>=-eq-some, arith, Bool-cases, inl, inr, update,
}
use bulldog.Game.{Game, State}
use bulldog.Text.{Text, text_length, read_cards, print_cards}
use bulldog.Text.Print.{put_separator, end_text, print_holes_from, print_all_hole_cards}
use bulldog.Text.Read.{skip_char, read_holes_from}
use bulldog.Text.Cards.{cards_text, print_cards-text, read_cards-text}

abbrev pub separator : ℕ → ℕ → Text
separator i c = if i == 0 then [] else c ∷ []

pub put_separator-text :
    (i c max_len : ℕ) (t : Text) {t' : Text}
    → put_separator i c max_len t ≡ some t'
    → t' ≡ t ++ separator i c
put_separator-text zero c max_len t e = sym (append-nil t ∙ cc)
put_separator-text (suc i) c max_len t e = ground arith

pub skip-separator :
    (i c : ℕ) (t : Text)
    → (if i == 0 then separator i c ++ t else skip_char c (separator i c ++ t)) ≡ t
skip-separator zero c t = refl
skip-separator (suc i) c t = ground arith

pub end_text-eq : (max_len : ℕ) (t : Text) {t' : Text} → end_text max_len t ≡ some t' → t ≡ t'
end_text-eq max_len t e = ground arith

pub regroup : (a b c d : Text) → ((a ++ b) ++ c) ++ d ≡ a ++ (b ++ (c ++ d))
regroup a b c d = simp append_assoc

module _ (g : Game) (s : State) (four : g.num_suits ≡ 4) where
  abbrev pub Dealt : Type 0
  Dealt = (p i : ℕ) → p < g.num_players → i < g.num_hole_cards → s.hole_cards p i < 52

  abbrev pub holes_text : ℕ → Text
  holes_text zero = []
  holes_text (suc p) =
      (holes_text p ++ separator p b'|') ++ cards_text g four (s.hole_cards p) g.num_hole_cards 0

  print_holes_from-text :
      (max_len k : ℕ) {t : Text}
      → Dealt
      → k ≤ g.num_players
      → print_holes_from g s max_len k ≡ some t
      → t ≡ holes_text k
  unfolding print_holes_from
  print_holes_from-text max_len zero c le e = ground arith
  print_holes_from-text max_len (suc p) {t} c le e =
      let (t1, e1, q1) = >>=-eq-some (print_holes_from g s max_len p) _ e in
      let (t2, e2, q2) = >>=-eq-some (put_separator p b'|' max_len t1) _ q1 in
      let (w, e3, q3) =
        >>=-eq-some (print_cards g g.num_hole_cards (s.hole_cards p) (max_len - text_length t2)) _
          q2 in
      let t_is : t2 ++ w ≡ t = cc in
      sym t_is
      ∙ ap₂ ◌++◌
          (put_separator-text p b'|' max_len t1 e2
            ∙ ap (λ x. x ++ separator p b'|') (print_holes_from-text max_len p c (omega arith) e1))
          (print_cards-text g four g.num_hole_cards (s.hole_cards p) (max_len - text_length t2)
            (λ i l. c p i (omega arith) l) e3)

  pub print_all_hole_cards-text :
      (max_len : ℕ) {t : Text}
      → Dealt
      → print_all_hole_cards g s max_len ≡ some t
      → t ≡ holes_text g.num_players
  unfolding print_all_hole_cards
  print_all_hole_cards-text max_len {t} c e =
      let (t1, e1, q1) = >>=-eq-some (print_holes_from g s max_len g.num_players) _ e in
      sym (end_text-eq max_len t1 q1)
      ∙ print_holes_from-text max_len g.num_players c (omega arith) e1

  holes_step :
      (p : ℕ) (t rest : Text) (old h0 new : ℕ → ℕ → ℕ) (cards : ℕ → ℕ)
      → 1 ≤ g.num_hole_cards
      → read_holes_from g p t old ≡ some (h0, separator p b'|' ++ rest)
      → (r : Text) → read_cards g g.num_hole_cards (h0 p) rest ≡ (g.num_hole_cards, cards, r)
      → read_holes_from g (suc p) t old ≡ some (update h0 p cards, r)
  unfolding read_holes_from
  holes_step p t rest old h0 new cards one e r q =
      let some_cards : (g.num_hole_cards == 0) ≡ false = ground arith in
      let all_cards : (g.num_hole_cards == g.num_hole_cards) ≡ true = ground arith in
      rw e (rw (skip-separator p b'|' rest) (rw q (rw (some_cards, all_cards) refl)))

  pub read_holes_from-text :
      (k : ℕ) (rest : Text) (old : ℕ → ℕ → ℕ)
      → Dealt
      → 1 ≤ g.num_hole_cards
      → k ≤ g.num_players
      → (new : ℕ → ℕ → ℕ) × (read_holes_from g k (holes_text k ++ rest) old ≡ some (new, rest))
        × ((p i : ℕ) → p < k → i < g.num_hole_cards → new p i ≡ s.hole_cards p i)
  unfolding read_holes_from
  read_holes_from-text zero rest old c one le = (old, refl, λ p i l m. absurd (omega arith))
  read_holes_from-text (suc k) rest old c one le =
      let ct = cards_text g four (s.hole_cards k) g.num_hole_cards 0 in
      let (h0, e, f) =
        read_holes_from-text k (separator k b'|' ++ (ct ++ rest)) old c one (omega arith) in
      let (cards, q, same) =
        read_cards-text g four g.num_hole_cards (s.hole_cards k) (h0 k) rest
          (λ i l. c k i (omega arith) l) in
      (
        update h0 k cards,
        ap (λ t. read_holes_from g (suc k) t old)
              (regroup (holes_text k) (separator k b'|') ct rest)
            ∙ holes_step k (holes_text k ++ (separator k b'|' ++ (ct ++ rest))) (ct ++ rest) old h0
                h0 cards one e rest q,
        λ p i l m. elim (Bool-cases (k == p)) [
          | inl z ↦
              let kp : k ≡ p = ground arith in ground (arith, same i, ap (λ x. s.hole_cards x i) kp)
          | inr z ↦ ground (arith, f p i)
        ],
      )
