-- ===== src/Text/State.antt =====
-- `readState` of modules/core/src/game.c on what `printState` writes for a hand.
use mathlib.Core.Path.{subst, ap₂}
use mathlib.Core.List.{append-nil}
use bulldog.Prelude.{
  ℕ, zero, suc, ◌-◌, ◌≤◌, ◌<◌, ◌≡◌, refl, sym, ◌∙◌, ap, true, false, not, some, List, [], ◌∷◌, ◌++◌,
  ◌==◌, if◌then◌else◌, ◌>>=◌, arith, total,
}
use bulldog.Game.{Action, Game, State, FitsArrays}
use bulldog.Betting.{bc_start}
use bulldog.Hand.{init_state}
use bulldog.Betting.Invariant.{IsGame, IsValid, Turn, Open}
use bulldog.Hand.Start.{CanStart, init_state-IsValid}
use bulldog.History.{all_below}
use bulldog.History.Same.{Same}
use bulldog.History.Keeps.{Keeps, refl-Keeps, trans-Keeps, do_action-Keeps}
use bulldog.History.Compare.{all_below_sound}
use bulldog.Text.{Text, head_char, tail_text, Numbers}
use bulldog.Text.Read.{
  skip_char, expect_text, read_betting, read_stack, read_holes_from, read_hole_cards,
  read_boards_from, read_board_cards, read_state_common, read_state,
}
use bulldog.Text.Actions.{Plain, Checked}
use bulldog.Text.Cards.{rank_char, cards_text}
use bulldog.Text.Table.{separator, regroup, holes_text, read_holes_from-text}
use bulldog.Text.Board.{boards_text, read_boards_from-text}
use bulldog.Text.Shape.{stacks_text, state_text}

-- A hand as it starts: what initState leaves, with the cards dealt.
abbrev pub dealt_state : Game → ℕ → State → (ℕ → ℕ → ℕ) → (ℕ → ℕ) → State
dealt_state g hand_id s holes boards = record (init_state g hand_id s) {
  hole_cards = holes;
  board_cards = boards;
}

pub dealt_state-IsValid :
    (g : Game) (hand_id : ℕ) (s : State) (holes : ℕ → ℕ → ℕ) (boards : ℕ → ℕ)
    → IsGame g
    → CanStart g s
    → IsValid g (dealt_state g hand_id s holes boards)
dealt_state-IsValid g hand_id s holes boards ok can =
    let v : IsValid g (init_state g hand_id s) = (init_state-IsValid g hand_id s ok can).0 in
    record {
      chips = v.chips;
      log = v.log;
      turn = λ f.
          let t : Turn g (init_state g hand_id s) = v.turn f in
          record { raise_tops = t.raise_tops; matched = t.matched; room = t.room };
      in_play = λ f.
          let o : Open g (init_state g hand_id s) = v.in_play f in
          record { waiting = o.waiting; contested = o.contested };
    }

pub dealt_state-Same :
    (g : Game) (hand_id : ℕ) (s t : State) (holes : ℕ → ℕ → ℕ) (boards : ℕ → ℕ)
    → Same g (init_state g hand_id s) t
    → Same g (dealt_state g hand_id s holes boards) t
dealt_state-Same g hand_id s t holes boards h = record {
  bet = h.bet;
  least = h.least;
  at_round = h.at_round;
  ended = h.ended;
  in_round = h.in_round;
  chips = h.chips;
  stacks = h.stacks;
  folds = h.folds;
  lengths = h.lengths;
  entries = h.entries;
  actors = h.actors;
  seated = h.seated;
}

pub Checked-Keeps : (g : Game) (l : List Action) (s u : State) → Checked g l s u → Keeps s u
Checked-Keeps g [] s u e = subst (Keeps s) e (refl-Keeps s)
Checked-Keeps g (a ∷ l) s u (c, t, valid, pos, run, k) =
    trans-Keeps (do_action-Keeps g a s run) (Checked-Keeps g l t u k)

-- A hand whose state can be printed and read: the game fits the arrays and has four suits, the numbers
-- fit their types, the cards so far have been dealt, and the log has a size only for no-limit raises.
pub record Printable (g : Game) (s : State) : Type 0 where
  pub arrays : FitsArrays g
  pub suits : g.num_suits ≡ 4
  pub hole : 1 ≤ g.num_hole_cards
  pub small : total g.num_board_cards (suc s.round) < 256
  pub hand_fits : s.hand_id ≤ 4294967295
  pub stacks_fit : (p : ℕ) → p < g.num_players → s.stack_player p ≤ 2147483647
  pub holes_dealt : (p i : ℕ) → p < g.num_players → i < g.num_hole_cards → s.hole_cards p i < 52
  pub boards_dealt : (i : ℕ) → i < total g.num_board_cards (suc s.round) → s.board_cards i < 52
  pub plain : (r i : ℕ) → r < g.num_rounds → i < s.num_actions r → Plain g (s.action r i)

no_colon : all_below 52 (λ c. not (rank_char c == b':')) ≡ true
unfolding all_below
no_colon = refl

module _ (g : Game) (s : State) (ok : Printable g s) where
  abbrev pub all_holes : ℕ → Text
  all_holes = holes_text g s ok.suits

  holes_head :
      (p : ℕ) (rest : Text) → head_char (all_holes (suc p) ++ rest) ≡ rank_char (s.hole_cards 0 0)
  holes_head zero rest =
      let one : g.num_hole_cards ≡ suc (g.num_hole_cards - 1) = omega (arith, ok.hole) in
      ap (λ n. head_char (cards_text g ok.suits (s.hole_cards 0) n 0 ++ rest)) one
  holes_head (suc p) rest =
      ap head_char (
        regroup (all_holes (suc p)) (separator (suc p) b'|')
          (cards_text g ok.suits (s.hole_cards (suc p)) g.num_hole_cards 0) rest)
      ∙ holes_head p _

  holes_skip :
      (rest : Text)
      → 1 ≤ g.num_players
      → skip_char b':' (all_holes g.num_players ++ rest) ≡ all_holes g.num_players ++ rest
  holes_skip rest some_player =
      let count : g.num_players ≡ suc (g.num_players - 1) = omega arith in
      let head : head_char (all_holes g.num_players ++ rest) ≡ rank_char (s.hole_cards 0 0) =
        ap (λ n. head_char (all_holes n ++ rest)) count ∙ holes_head (g.num_players - 1) rest in
      let plain : (rank_char (s.hole_cards 0 0) == b':') ≡ false = ground (
        arith,
        all_below_sound 52 (λ c. not (rank_char c == b':')) no_colon (s.hole_cards 0 0)
            (ok.holes_dealt 0 0 (omega arith) (omega (arith, ok.hole))),
      ) in
      let t = all_holes g.num_players ++ rest in
      ap (λ b. if b then tail_text t else t) (ap (λ c. c == b':') head ∙ plain)

  -- The cards are read back, and nothing else changes.
  pub read_hole_cards-text :
      (rest : Text) (t : State)
      → 1 ≤ g.num_players
      → (new : ℕ → ℕ → ℕ) × (read_hole_cards g (all_holes g.num_players ++ rest) t
          ≡ some (record t { hole_cards = new }, rest))
        × ((p i : ℕ) → p < g.num_players → i < g.num_hole_cards → new p i ≡ s.hole_cards p i)
  unfolding read_hole_cards
  read_hole_cards-text rest t some_player =
      let (new, e, same) =
        read_holes_from-text g s ok.suits g.num_players rest t.hole_cards ok.holes_dealt ok.hole
          (omega arith) in
      (
        new,
        ap
              (λ x. read_holes_from g g.num_players x t.hole_cards >>= λ h.
                some (record t { hole_cards = h.0 }, h.1))
              (holes_skip rest some_player)
            ∙ ap (λ o. o >>= λ h. some (record t { hole_cards = h.0 }, h.1)) e,
        same,
      )

  pub read_board_cards-text :
      (t : State)
      → t.round ≡ s.round
      → (new : ℕ → ℕ) × (read_board_cards g (boards_text g s ok.suits ok.small (suc s.round)) t
          ≡ some (record t { board_cards = new }, []))
        × ((i : ℕ) → i < bc_start g (suc s.round) → new i ≡ s.board_cards i)
  unfolding read_board_cards
  read_board_cards-text t e =
      let text = boards_text g s ok.suits ok.small (suc s.round) in
      let (new, q, same) =
        read_boards_from-text g s ok.suits ok.small (suc s.round) [] t.board_cards ok.boards_dealt
          (omega arith) in
      (
        new,
        ap₂
              (λ n x. read_boards_from g (suc n) x t.board_cards >>= λ b.
                some (record t { board_cards = b.0 }, b.1))
              e (sym (append-nil text))
            ∙ ap (λ o. o >>= λ b. some (record t { board_cards = b.0 }, b.1)) q,
        same,
      )

-- readState part by part.
module _ (numbers : Numbers) (g : Game) where
  pub read_state-parts :
      (s m k u c r : State) (betting holes boards : Text)
      → s.hand_id ≤ 4294967295
      → read_stack numbers g
          (stacks_text numbers g s ++ (b':' ∷ (betting ++ (b':' ∷ (holes ++ boards)))))
          (init_state g s.hand_id m)
        ≡ (k, betting ++ (b':' ∷ (holes ++ boards)))
      → read_betting numbers g (betting ++ (b':' ∷ (holes ++ boards))) k ≡ some (u, holes ++ boards)
      → read_hole_cards g (holes ++ boards) u ≡ some (c, boards)
      → read_board_cards g boards c ≡ some (r, [])
      → read_state numbers g (state_text numbers g s betting holes boards) m ≡ some (r, [])
  unfolding read_state read_state_common expect_text
  read_state-parts s m k u c r betting holes boards fits e1 e2 e3 e4 =
      let rest =
        b':' ∷ (stacks_text numbers g s ++ (b':' ∷ (betting ++ (b':' ∷ (holes ++ boards))))) in
      rw (Numbers.scan-print numbers 4294967295 s.hand_id rest fits refl)
        (rw e1 (rw e2 (rw e3 (rw e4 refl))))
