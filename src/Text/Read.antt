-- ===== src/Text/Read.antt =====
-- How modules/core/src/game.c reads a state: readBetting, readStack, readHoleCards, readBoardCards,
-- readStateCommon, readState and readMatchState, with the variants that take the reader of the
-- betting as an argument. A call that fails returns `none`; the state it leaves then is not modelled.
use bulldog.Prelude.{
  ℕ, zero, suc, ◌+◌, ◌-◌, false, not, Option, none, some, [], ◌∷◌, ltb, ◌==◌, if◌then◌else◌, ◌>>=◌,
  ◌>>◌, guard, update,
}
use bulldog.Game.{Game, State}
use bulldog.Betting.{bc_start, is_valid_action}
use bulldog.Hand.{do_action, init_state}
use bulldog.History.{MatchState}
use bulldog.Text.{
  Text, text_length, head_char, tail_text, Numbers, read_action, read_card, read_cards,
}
use bulldog.Text.Print.{match_header}

-- `if (string[c] == ch) ++c;`
abbrev pub skip_char : ℕ → Text → Text
skip_char c t = if head_char t == c then tail_text t else t

-- `if (string[c] != ch) return -1; ++c;`
abbrev pub expect_char : ℕ → Text → Option Text
expect_char c t = guard (head_char t == c) >> some (tail_text t)

-- `strncmp`: the text behind a prefix.
unfoldable pub expect_text : Text → Text → Option Text
expect_text [] t = some t
expect_text (c ∷ p) [] = none
expect_text (c ∷ p) (d ∷ t) = let rest = expect_text p t in if c == d then rest else none

-- `readHoleCards`, after `n` players.
unfoldable pub read_holes_from : Game → ℕ → Text → (ℕ → ℕ → ℕ) → Option ((ℕ → ℕ → ℕ) × Text)
read_holes_from g zero t holes = some (holes, t)
read_holes_from g (suc p) t holes = read_holes_from g p t holes >>= λ h.
    let t = if p == 0 then h.1 else skip_char b'|' h.1 in
    let r = read_cards g g.num_hole_cards (h.0 p) t in
    if r.0 == 0
    then some (update h.0 p r.1, t)
    else guard (r.0 == g.num_hole_cards) >> some (update h.0 p r.1, r.2)

unfoldable pub read_hole_cards : Game → Text → State → Option (State × Text)
read_hole_cards g t s = read_holes_from g g.num_players (skip_char b':' t) s.hole_cards >>= λ h.
    some (record s { hole_cards = h.0 }, h.1)

-- `readBoardCards`, after `n` rounds. `readCards` writes to `&boardCards[bcStart]`.
abbrev pub write_at : ℕ → (ℕ → ℕ) → (ℕ → ℕ) → ℕ → ℕ
write_at start all part i = if ltb i start then all i else part (i - start)

unfoldable pub read_boards_from : Game → ℕ → Text → (ℕ → ℕ) → Option ((ℕ → ℕ) × Text)
read_boards_from g zero t boards = some (boards, t)
read_boards_from g (suc r) t boards = read_boards_from g r t boards >>= λ b.
    let t = if r == 0 then b.1 else skip_char b'/' b.1 in
    let n = read_cards g (g.num_board_cards r) (λ i. b.0 (bc_start g r + i)) t in
    guard (n.0 == g.num_board_cards r) >> some (write_at (bc_start g r) b.0 n.1, n.2)

unfoldable pub read_board_cards : Game → Text → State → Option (State × Text)
read_board_cards g t s = read_boards_from g (suc s.round) t s.board_cards >>= λ b.
    some (record s { board_cards = b.0 }, b.1)

module _ (numbers : Numbers) where
  open numbers use {scan}

  -- The loop of `readBetting`, on fuel. Each round consumes a character at least.
  unfoldable pub read_betting_from : ℕ → Game → Text → State → Option (State × Text)
  read_betting_from zero g t s = none
  read_betting_from (suc fuel) g [] s = some (s, [])
  read_betting_from (suc fuel) g (c ∷ t) s =
      let skipped = read_betting_from fuel g t s in
      let acted =
        (read_action numbers g (c ∷ t) >>= λ r. is_valid_action g s false r.0 >>= λ v.
        guard (not (v.0 == 0)) >> (do_action g v.1 s >>= λ u. read_betting_from fuel g r.1 u)) in
      if c == b':' then some (s, t) else if c == b'/' then skipped else acted

  -- `readBetting`
  unfoldable pub read_betting : Game → Text → State → Option (State × Text)
  read_betting g t s = read_betting_from (suc (text_length t)) g t s

  -- `strtol`: 0, and nothing consumed, where there is no number.
  unfoldable pub strtol : Text → ℕ × Text
  strtol t = elim (scan 2147483647 t) [ none ↦ (0, t) | some r ↦ r ]

  -- The stacks from player `i` on, `n` of them, each behind a character.
  unfoldable pub read_stacks_from : ℕ → ℕ → Text → (ℕ → ℕ) → (ℕ → ℕ) × Text
  read_stacks_from zero i t stack = (stack, t)
  read_stacks_from (suc n) i t stack =
      let r = strtol (tail_text t) in read_stacks_from n (suc i) r.1 (update stack i r.0)

  -- `readStack`. It takes a text that starts with a card, or with one behind its first character, for
  -- one with no stacks.
  unfoldable pub read_stack : Game → Text → State → State × Text
  read_stack g t s = if head_char t == b':' then (s, tail_text t) else elim (read_card g t) [
    | some r ↦ (s, t)
    | none ↦ elim (read_card g (tail_text t)) [
      | some r ↦ (s, t)
      | none ↦
          let first = strtol t in
          let all =
            read_stacks_from (g.num_players - 1) 1 first.1 (update s.stack_player 0 first.0) in
          (record s { stack_player = all.0 }, skip_char b':' all.1)
    ]
  ]

  -- `readStateCommonPlus`, and `readStateCommon` where `betting` is `readBetting`.
  unfoldable pub read_state_common_plus :
      (Game → Text → State → Option (State × Text)) → Game → Text → State → Option (State × Text)
  read_state_common_plus betting g t s = expect_char b':' t >>= λ t. scan 4294967295 t >>= λ h.
      expect_char b':' h.1 >>= λ t.
      let k = read_stack g t (init_state g h.0 s) in
      betting g k.1 k.0 >>= λ b. read_hole_cards g b.1 b.0 >>= λ c. read_board_cards g c.1 c.0

  unfoldable pub read_state_common : Game → Text → State → Option (State × Text)
  unfolding read_state_common_plus
  read_state_common g t s = read_state_common_plus read_betting g t s

  -- `readState`
  unfoldable pub read_state : Game → Text → State → Option (State × Text)
  read_state g t s =
      expect_text (b'S' ∷ b'T' ∷ b'A' ∷ b'T' ∷ b'E' ∷ []) t >>= λ t. read_state_common g t s

  -- `readMatchStatePlus`, and `readMatchState`.
  unfoldable pub read_match_state_plus :
      (Game → Text → State → Option (State × Text))
      → Game
      → Text
      → MatchState
      → Option (MatchState × Text)
  read_match_state_plus betting g t m = expect_text match_header t >>= λ t. scan 255 t >>= λ p.
      guard (ltb p.0 g.num_players)
      >> (read_state_common_plus betting g p.1 m.state >>= λ r.
          some (record { viewing_player = p.0; state = r.0 }, r.1))

  unfoldable pub read_match_state : Game → Text → MatchState → Option (MatchState × Text)
  unfolding read_match_state_plus
  read_match_state g t m = read_match_state_plus read_betting g t m
