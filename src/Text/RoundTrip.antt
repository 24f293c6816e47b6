-- ===== src/Text/RoundTrip.antt =====
-- The round trip of a hand through text: `readState` after `printState` of modules/core/src/game.c.
use mathlib.Core.Path.{subst, ap₂}
use bulldog.Prelude.{ℕ, suc, ◌-◌, ◌<◌, ◌≡◌, refl, sym, ◌∙◌, ap, true, some, [], ◌∷◌, ◌++◌, arith}
use bulldog.Game.{Game, State}
use bulldog.Hand.{init_state}
use bulldog.Betting.Invariant.{IsGame, IsValid}
use bulldog.Hand.Start.{CanStart, init_state-blinds}
use bulldog.Hand.Play.{Play, Play-IsValid}
use bulldog.History.{log_of, state_equal}
use bulldog.History.Same.{Same}
use bulldog.History.Log.{rounds_log_congr}
use bulldog.History.Keeps.{Keeps, Play-Keeps}
use bulldog.History.StepBack.{init_state-Same, init_state-log, init_hand}
use bulldog.History.Compare.{SameBetting, state_equal_iff}
use bulldog.Text.{Text, Numbers}
use bulldog.Text.Print.{print_state}
use bulldog.Text.Read.{read_state}
use bulldog.Text.Actions.{Spells}
use bulldog.Text.Betting.{print_betting-Spells, read_betting-Spells}
use bulldog.Text.Hand.{Rechecked, Play-Rechecked}
use bulldog.Text.Table.{print_all_hole_cards-text}
use bulldog.Betting.Boards.{bc_start-total, sum_board_cards-total}
use bulldog.Text.Board.{boards_text, print_board_cards-text}
use bulldog.Text.Stack.{read_stack-text}
use bulldog.Text.Shape.{state_text, Parts, print_state-Parts}
use bulldog.Text.State.{
  dealt_state, dealt_state-IsValid, dealt_state-Same, Checked-Keeps, Printable, all_holes,
  read_hole_cards-text, read_board_cards-text, read_state-parts,
}

Same-SameBetting : (g : Game) (s t : State) → Same g s t → SameBetting s t
Same-SameBetting g s t h = record {
  rounds = h.at_round;
  lengths = λ r l. h.lengths r (omega (arith, h.in_round));
  entries = λ r i l k. h.entries r i l k;
}

dealt_state-log :
    (g : Game) (hand_id : ℕ) (s : State) (holes : ℕ → ℕ → ℕ) (boards : ℕ → ℕ)
    → IsGame g
    → log_of (dealt_state g hand_id s holes boards) ≡ []
dealt_state-log g hand_id s holes boards ok =
    rounds_log_congr (dealt_state g hand_id s holes boards) (init_state g hand_id s)
      (suc (init_state g hand_id s).round) (λ r l. refl) (λ r i l k. refl)
    ∙ init_state-log g hand_id s ok.rounds_min

-- Take a hand that can start (CanStart), that initState has started, with the cards dealt, and that is
-- played for any number of turns to `s`. Let `s` be Printable: the game fits the arrays and has four
-- suits and at least one hole card, all numbers fit their types, the cards of the players and of the
-- board so far are real ones, and no action of the log but a no-limit raise has a size, which excludes
-- a premature fold of size 5. Whatever printState writes for `s`, readState reads it to the end, whatever
-- the state held before, and the state that it reads agrees with `s` on the betting and is equal to it
-- by StateEqual.
pub read_state-print_state :
    (numbers : Numbers) (g : Game) (hand_id : ℕ) (start m : State) (holes : ℕ → ℕ → ℕ)
    (boards : ℕ → ℕ) (max_len : ℕ) {s : State} {n : ℕ} {t : Text}
    → IsGame g
    → CanStart g start
    → Play g (dealt_state g hand_id start holes boards) n s
    → Printable g s
    → print_state numbers g s max_len ≡ some t
    → (r : State) × (read_state numbers g t m ≡ some (r, []))
      × Same g s r
      × (state_equal g s r ≡ true)
read_state-print_state numbers g hand_id start m holes boards max_len {s} {n} {t} ok can play p e =
    let parts : Parts numbers g s t = print_state-Parts numbers g s max_len e in
    let holes_is : parts.holes ≡ all_holes g s p g.num_players =
      print_all_hole_cards-text g s p.suits parts.holes_room p.holes_dealt parts.prints_holes in
    let boards_is : parts.boards ≡ boards_text g s p.suits p.small (suc s.round) =
      print_board_cards-text g s p.suits p.small parts.boards_room p.boards_dealt
        parts.prints_boards in
    let tail = all_holes g s p g.num_players ++ boards_text g s p.suits p.small (suc s.round) in
    let (stack, stacks_read, stack_same) =
      read_stack-text numbers g s p.stacks_fit fresh (parts.betting ++ (b':' ∷ tail))
        (g.num_players - 2) (omega (arith, ok.players_min)) in
    let k : State = record fresh { stack_player = stack } in
    let same : Same g first k = dealt_state-Same g hand_id start k holes boards (
      init_state-Same g hand_id s.hand_id start m stack fresh.hole_cards fresh.board_cards
        fresh.hand_id ok.rounds_min
        (λ x l.
          stack_same x l
          ∙ ap (λ f. f x) keeps.stacks
          ∙ (init_state-blinds g hand_id start x l).1)) in
    let c : Rechecked g first s k =
      Play-Rechecked ok valid same (λ r i l a b. p.plain r i l b) play in
    let spells : Spells numbers g c.actions parts.betting =
      subst (λ l. Spells numbers g l parts.betting)
        (c.in_log ∙ ap (λ l. l ++ c.actions) (dealt_state-log g hand_id start holes boards ok))
        (print_betting-Spells numbers g s (λ r i l j. p.plain r i (omega (arith, in_round)) j)
          parts.betting_room parts.prints_betting) in
    let u : State = c.result in
    let kept : Keeps k u = Checked-Keeps g c.actions k u c.checks in
    let (new_holes, holes_read, holes_same) =
      read_hole_cards-text g s p (boards_text g s p.suits p.small (suc s.round)) u
        (omega (arith, ok.players_min)) in
    let u' : State = record u { hole_cards = new_holes } in
    let (new_boards, boards_read, boards_same) =
      read_board_cards-text g s p u' (sym c.agrees.at_round) in
    let r : State = record u' { board_cards = new_boards } in
    let agrees : Same g s r = moved_cards u new_holes new_boards c.agrees in
    (
      r,
      ap (λ x. read_state numbers g x m)
            (parts.shape ∙ ap₂ (state_text numbers g s parts.betting) holes_is boards_is)
          ∙ read_state-parts numbers g s m k u u' r parts.betting (all_holes g s p g.num_players)
              (boards_text g s p.suits p.small (suc s.round)) p.hand_fits stacks_read
              (read_betting-Spells numbers g tail k u spells c.checks) holes_read boards_read,
      agrees,
      (state_equal_iff g s r).1 (
        record {
          hands = sym (kept.hand ∙ init_hand g s.hand_id m);
          betting = Same-SameBetting g s r agrees;
          boards = λ i l. sym (
              boards_same i (
                omega (
                  arith,
                  l,
                  bc_start-total g (suc s.round) p.small,
                  sum_board_cards-total g s.round p.small,
                )));
        },
        λ x l i j. sym (holes_same x i l j),
      ),
    )
  where
    first : State
    first = dealt_state g hand_id start holes boards

    fresh : State
    fresh = init_state g s.hand_id m

    valid : IsValid g first
    valid = dealt_state-IsValid g hand_id start holes boards ok can

    keeps : Keeps first s
    keeps = Play-Keeps play

    in_round : s.round < g.num_rounds
    in_round = (Play-IsValid ok valid play).log.round_in

    moved_cards :
        (u : State) (h : ℕ → ℕ → ℕ) (b : ℕ → ℕ)
        → Same g s u
        → Same g s (record u { hole_cards = h; board_cards = b })
    moved_cards u h b x = record {
      bet = x.bet;
      least = x.least;
      at_round = x.at_round;
      ended = x.ended;
      in_round = x.in_round;
      chips = x.chips;
      stacks = x.stacks;
      folds = x.folds;
      lengths = x.lengths;
      entries = x.entries;
      actors = x.actors;
      seated = x.seated;
    }
