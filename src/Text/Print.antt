-- ===== src/Text/Print.antt =====
-- How modules/core/src/game.c prints a state: printBetting, printStack, the cards of the players and
-- of the board, printStateCommon, printState and printMatchState.
use bulldog.Prelude.{
  ℕ, zero, suc, ◌+◌, ◌-◌, Bool, ◌&&◌, ◌||◌, not, Option, some, [], ◌∷◌, ◌++◌, ltb, ◌==◌,
  if◌then◌else◌, ◌>>=◌, ◌>>◌, guard,
}
use bulldog.Game.{Game, State}
use bulldog.Betting.{num_folded, bc_start}
use bulldog.History.{MatchState}
use bulldog.Text.{Text, text_length, Numbers, print_action, print_cards}

-- `string[c] = ch; ++c;` behind the test `c >= maxLen`.
abbrev pub put_char : ℕ → ℕ → Text → Option Text
put_char c max_len t = guard (ltb (text_length t) max_len) >> some (t ++ (c ∷ []))

-- `if (i != 0)` a separator.
abbrev pub put_separator : ℕ → ℕ → ℕ → Text → Option Text
put_separator i c max_len t = if i == 0 then some t else put_char c max_len t

-- The end of a text.
abbrev pub end_text : ℕ → Text → Option Text
end_text max_len t = guard (ltb (text_length t) max_len) >> some t

module _ (g : Game) (s : State) (max_len : ℕ) where
  -- `printAllHoleCards`, after `n` players.
  unfoldable pub print_holes_from : ℕ → Option Text
  print_holes_from zero = some []
  print_holes_from (suc p) = print_holes_from p >>= λ t. put_separator p b'|' max_len t >>= λ t.
      print_cards g g.num_hole_cards (s.hole_cards p) (max_len - text_length t) >>= λ w.
      some (t ++ w)

  unfoldable pub print_all_hole_cards : Option Text
  print_all_hole_cards = print_holes_from g.num_players >>= end_text max_len

  -- Whether `printPlayerHoleCards` shows the cards of player `p` to `player`.
  unfoldable pub shows : ℕ → ℕ → Bool
  shows player p =
      p == player
      || (s.finished && not (s.player_folded p) && not (num_folded g s + 1 == g.num_players))

  -- `printPlayerHoleCards`, after `n` players.
  unfoldable pub print_player_from : ℕ → ℕ → Option Text
  print_player_from player zero = some []
  print_player_from player (suc p) = print_player_from player p >>= λ t.
      put_separator p b'|' max_len t >>= λ t.
      (if shows player p
        then print_cards g g.num_hole_cards (s.hole_cards p) (max_len - text_length t)
        else some [])
      >>= λ w. some (t ++ w)

  unfoldable pub print_player_hole_cards : ℕ → Option Text
  print_player_hole_cards player = print_player_from player g.num_players >>= end_text max_len

  -- `printBoardCards`, after `n` rounds.
  unfoldable pub print_boards_from : ℕ → Option Text
  print_boards_from zero = some []
  print_boards_from (suc r) = print_boards_from r >>= λ t. put_separator r b'/' max_len t >>= λ t.
      print_cards g (g.num_board_cards r) (λ i. s.board_cards (bc_start g r + i))
        (max_len - text_length t)
      >>= λ w. some (t ++ w)

  unfoldable pub print_board_cards : Option Text
  print_board_cards = print_boards_from (suc s.round) >>= end_text max_len

module _ (numbers : Numbers) (g : Game) (s : State) where
  open numbers use {print}

  -- `printBetting`: the first `n` actions of round `r` behind `t`, and all rounds before `r`.
  unfoldable pub print_round : ℕ → ℕ → ℕ → Text → Option Text
  print_round max_len r zero t = some t
  print_round max_len r (suc a) t = print_round max_len r a t >>= λ t.
      print_action numbers g (s.action r a) (max_len - text_length t) >>= λ w. some (t ++ w)

  unfoldable pub print_rounds : ℕ → ℕ → Option Text
  print_rounds max_len zero = some []
  print_rounds max_len (suc r) = print_rounds max_len r >>= λ t.
      put_separator r b'/' max_len t >>= λ t. print_round max_len r (s.num_actions r) t

  unfoldable pub print_betting : ℕ → Option Text
  print_betting max_len = print_rounds max_len (suc s.round) >>= end_text max_len

  -- `printStack`, after `n` players. It does not look at the buffer's length past its first test.
  unfoldable pub print_stack_from : ℕ → Text
  print_stack_from zero = []
  print_stack_from (suc i) =
      (if i == 0 then [] else print_stack_from i ++ (b'|' ∷ [])) ++ print (s.stack_player i)

  unfoldable pub print_stack : ℕ → Option Text
  print_stack max_len = guard (not (max_len == 0)) >> some (print_stack_from g.num_players)

  -- `printStateCommon`
  unfoldable pub print_state_common : ℕ → Option Text
  print_state_common max_len =
      let t = b':' ∷ print s.hand_id ++ (b':' ∷ []) in
      guard (ltb (text_length t) max_len)
      >> (print_stack (max_len - text_length t) >>= λ w. put_char b':' max_len (t ++ w) >>= λ t.
          print_betting (max_len - text_length t) >>= λ w. put_char b':' max_len (t ++ w))

  -- The cards behind the betting, and the end: the tail of `printState` and `printMatchState`.
  abbrev pub print_cards_and_end : (ℕ → Option Text) → ℕ → Text → Option Text
  print_cards_and_end holes max_len t = holes (max_len - text_length t) >>= λ w.
      print_board_cards g s (max_len - text_length (t ++ w)) >>= λ v. end_text max_len (t ++ w ++ v)

  -- `printState`
  unfoldable pub print_state : ℕ → Option Text
  print_state max_len =
      let t = b'S' ∷ b'T' ∷ b'A' ∷ b'T' ∷ b'E' ∷ [] in
      print_state_common (max_len - 5) >>= λ w.
      print_cards_and_end (λ len. print_all_hole_cards g s len) max_len (t ++ w)

-- `MATCHSTATE:`
abbrev pub match_header : Text
match_header = b'M' ∷ b'A' ∷ b'T' ∷ b'C' ∷ b'H' ∷ b'S' ∷ b'T' ∷ b'A' ∷ b'T' ∷ b'E' ∷ b':' ∷ []

-- `printMatchState`
unfoldable pub print_match_state : Numbers → Game → MatchState → ℕ → Option Text
print_match_state numbers g m max_len =
    let t = match_header ++ Numbers.print numbers m.viewing_player in
    print_state_common numbers g m.state (max_len - text_length t) >>= λ w.
    print_cards_and_end numbers g m.state
      (λ len. print_player_hole_cards g m.state len m.viewing_player) max_len (t ++ w)
