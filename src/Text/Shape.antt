-- ===== src/Text/Shape.antt =====
-- What `printState` of modules/core/src/game.c writes, part by part.
use mathlib.Core.List.{append_assoc}
use bulldog.Prelude.{
  ℕ, ◌-◌, ◌≡◌, sym, ◌∙◌, ap, Bool, true, false, Option, some, [], ◌∷◌, ◌++◌, ltb, ◌>>◌, >>=-eq-some,
  guard, arith,
}
use bulldog.Game.{Game, State}
use bulldog.Text.{Text, text_length, Numbers}
use bulldog.Text.Print.{
  put_char, end_text, print_all_hole_cards, print_board_cards, print_betting, print_stack,
  print_stack_from, print_state_common, print_state,
}

put_char-eq :
    (c max_len : ℕ) (t : Text) {t' : Text} → put_char c max_len t ≡ some t' → t ++ (c ∷ []) ≡ t'
put_char-eq c max_len t e = ground arith

end_eq : (max_len : ℕ) (t : Text) {t' : Text} → end_text max_len t ≡ some t' → t ≡ t'
end_eq max_len t e = ground arith

guard_eq : (b : Bool) (m : Option Text) {t : Text} → (guard b >> m) ≡ some t → m ≡ some t
guard_eq true m e = e
guard_eq false m e = cc

regroup_parts :
    (i c k b h v : Text)
    → ((((((i ++ c) ++ k) ++ c) ++ b) ++ c) ++ h) ++ v
      ≡ i ++ (c ++ (k ++ (c ++ (b ++ (c ++ (h ++ v))))))
regroup_parts i c k b h v = simp append_assoc

module _ (numbers : Numbers) (g : Game) (s : State) where
  open numbers use {print}

  abbrev pub stacks_text : Text
  stacks_text = print_stack_from numbers g s g.num_players

  -- `STATE:handId:stack:betting:holeCards boardCards`
  abbrev pub state_text : Text → Text → Text → Text
  state_text betting holes boards =
      b'S'
      ∷ b'T'
      ∷ b'A'
      ∷ b'T'
      ∷ b'E'
      ∷ b':'
      ∷ (print s.hand_id
          ++ (b':' ∷ (stacks_text ++ (b':' ∷ (betting ++ (b':' ∷ (holes ++ boards)))))))

  record Common (t : Text) : Type 0 where
    betting : Text
    room : ℕ
    prints : print_betting numbers g s room ≡ some betting
    shape :
        t
        ≡ ((((b':' ∷ (print s.hand_id ++ (b':' ∷ []))) ++ stacks_text) ++ (b':' ∷ [])) ++ betting)
          ++ (b':' ∷ [])

  print_stack-eq :
      (max_len : ℕ) {w : Text} → print_stack numbers g s max_len ≡ some w → w ≡ stacks_text
  unfolding print_stack
  print_stack-eq max_len e = ground arith

  print_state_common-Common :
      (max_len : ℕ) {t : Text} → print_state_common numbers g s max_len ≡ some t → Common t
  unfolding print_state_common
  print_state_common-Common max_len {t} e =
      let h = b':' ∷ (print s.hand_id ++ (b':' ∷ [])) in
      let e1 = guard_eq (ltb (text_length h) max_len) _ e in
      let (w, a1, e2) = >>=-eq-some (print_stack numbers g s (max_len - text_length h)) _ e1 in
      let (t1, a2, e3) = >>=-eq-some (put_char b':' max_len (h ++ w)) _ e2 in
      let (b, a3, e4) = >>=-eq-some (print_betting numbers g s (max_len - text_length t1)) _ e3 in
      record {
        betting = b;
        room = max_len - text_length t1;
        prints = a3;
        shape =
            sym (put_char-eq b':' max_len (t1 ++ b) e4)
            ∙ ap (λ x. (x ++ b) ++ (b':' ∷ [])) (sym (put_char-eq b':' max_len (h ++ w) a2))
            ∙ ap (λ x. (((h ++ x) ++ (b':' ∷ [])) ++ b) ++ (b':' ∷ []))
                (print_stack-eq (max_len - text_length h) a1);
      }

  -- The parts of the text that printState writes.
  pub record Parts (t : Text) : Type 0 where
    pub betting : Text
    pub betting_room : ℕ
    pub prints_betting : print_betting numbers g s betting_room ≡ some betting
    pub holes : Text
    pub holes_room : ℕ
    pub prints_holes : print_all_hole_cards g s holes_room ≡ some holes
    pub boards : Text
    pub boards_room : ℕ
    pub prints_boards : print_board_cards g s boards_room ≡ some boards
    pub shape : t ≡ state_text betting holes boards

  pub print_state-Parts :
      (max_len : ℕ) {t : Text} → print_state numbers g s max_len ≡ some t → Parts t
  unfolding print_state
  print_state-Parts max_len {t} e =
      let (w, a1, e1) = >>=-eq-some (print_state_common numbers g s (max_len - 5)) _ e in
      let t1 = b'S' ∷ b'T' ∷ b'A' ∷ b'T' ∷ b'E' ∷ w in
      let (h, a2, e2) = >>=-eq-some (print_all_hole_cards g s (max_len - text_length t1)) _ e1 in
      let (b, a3, e3) =
        >>=-eq-some (print_board_cards g s (max_len - text_length (t1 ++ h))) _ e2 in
      let c : Common w = print_state_common-Common (max_len - 5) a1 in
      record {
        betting = c.betting;
        betting_room = c.room;
        prints_betting = c.prints;
        holes = h;
        holes_room = max_len - text_length t1;
        prints_holes = a2;
        boards = b;
        boards_room = max_len - text_length (t1 ++ h);
        prints_boards = a3;
        shape =
            sym (end_eq max_len ((t1 ++ h) ++ b) e3)
            ∙ ap (λ x. b'S' ∷ b'T' ∷ b'A' ∷ b'T' ∷ b'E' ∷ ((x ++ h) ++ b)) c.shape
            ∙ ap (λ x. b'S' ∷ b'T' ∷ b'A' ∷ b'T' ∷ b'E' ∷ b':' ∷ x)
                (regroup_parts (print s.hand_id) (b':' ∷ []) stacks_text c.betting h b);
      }
