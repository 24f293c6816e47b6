-- ===== src/History/Compare.antt =====
-- What the comparisons of hands in modules/core/src/game.c and game_util.cpp decide.
use bulldog.Prelude.{
  ℕ, zero, suc, ◌≤◌, ◌<◌, ◌≡◌, ◌↔◌, refl, ap, Bool, true, ◌&&◌, ◌==◌, arith, Bool-cases, inl, inr,
}
use bulldog.Game.{ActionType, a_fold, a_call, a_raise, a_invalid, Action, Game, State}
use bulldog.Betting.{sum_board_cards}
use bulldog.History.{
  type_code, all_below, same_action, state_betting_equal, states_equal_common, state_equal,
  MatchState, match_states_equal,
}

pub all_below_sound : (n : ℕ) (t : ℕ → Bool) → all_below n t ≡ true → (i : ℕ) → i < n → t i ≡ true
unfolding all_below
all_below_sound zero t e i l = elim l [ ]
all_below_sound (suc n) t e i l = elim (Bool-cases (n == i)) [
  | inl q ↦ let ni : n ≡ i = ground arith in ground (arith, ap t ni)
  | inr q ↦ ground (arith, all_below_sound n t (ground arith) i (ground arith))
]

pub all_below_complete :
    (n : ℕ) (t : ℕ → Bool) → ((i : ℕ) → i < n → t i ≡ true) → all_below n t ≡ true
unfolding all_below
all_below_complete zero t h = refl
all_below_complete (suc n) t h =
    ground (arith, h n, all_below_complete n t (λ i l. h i (omega arith)))

type_code_inj : (a b : ActionType) → type_code a ≡ type_code b → a ≡ b
type_code_inj a_fold a_fold e = refl
type_code_inj a_fold a_call e = ground arith
type_code_inj a_fold a_raise e = ground arith
type_code_inj a_fold a_invalid e = ground arith
type_code_inj a_call a_fold e = ground arith
type_code_inj a_call a_call e = refl
type_code_inj a_call a_raise e = ground arith
type_code_inj a_call a_invalid e = ground arith
type_code_inj a_raise a_fold e = ground arith
type_code_inj a_raise a_call e = ground arith
type_code_inj a_raise a_raise e = refl
type_code_inj a_raise a_invalid e = ground arith
type_code_inj a_invalid a_fold e = ground arith
type_code_inj a_invalid a_call e = ground arith
type_code_inj a_invalid a_raise e = ground arith
type_code_inj a_invalid a_invalid e = refl

same_action_sound : (a b : Action) → same_action a b ≡ true → a ≡ b
same_action_sound a b e =
    let t : a.type ≡ b.type = type_code_inj a.type b.type (ground arith) in
    let z : a.size ≡ b.size = ground arith in cc

same_action_complete : (a b : Action) → a ≡ b → same_action a b ≡ true
same_action_complete a b e = rw e (ground arith)

-- The same betting.
pub record SameBetting (a b : State) : Type 0 where
  pub rounds : a.round ≡ b.round
  pub lengths : (r : ℕ) → r ≤ a.round → a.num_actions r ≡ b.num_actions r
  pub entries : (r i : ℕ) → r ≤ a.round → i < a.num_actions r → a.action r i ≡ b.action r i

-- The same hand, as far as it has been dealt and played.
pub record SameHand (g : Game) (a b : State) : Type 0 where
  pub hands : a.hand_id ≡ b.hand_id
  pub betting : SameBetting a b
  pub boards : (i : ℕ) → i < sum_board_cards g a.round → a.board_cards i ≡ b.board_cards i

-- The test of one round.
abbrev round_test : State → State → ℕ → Bool
round_test a b r =
    a.num_actions r == b.num_actions r
    && all_below (a.num_actions r) (λ i. same_action (a.action r i) (b.action r i))

betting_sound :
    (a b : State)
    → a.round ≡ b.round
    → all_below (suc a.round) (round_test a b) ≡ true
    → SameBetting a b
betting_sound a b q e = record {
  rounds = q;
  lengths = λ r l. ground (arith, all_below_sound (suc a.round) (round_test a b) e r (omega arith));
  entries = λ r i l k. same_action_sound (a.action r i) (b.action r i) (
      all_below_sound (a.num_actions r) (λ i. same_action (a.action r i) (b.action r i))
        (ground (arith, all_below_sound (suc a.round) (round_test a b) e r (omega arith))) i k);
}

betting_complete : (a b : State) → SameBetting a b → all_below (suc a.round) (round_test a b) ≡ true
betting_complete a b h = all_below_complete (suc a.round) (round_test a b) (λ r l. ground (
  arith,
  h.lengths r,
  all_below_complete (a.num_actions r) (λ i. same_action (a.action r i) (b.action r i))
      (λ i k. same_action_complete (a.action r i) (b.action r i) (h.entries r i (omega arith) k)),
))

-- StateBettingEqual returns true exactly if the betting is the same.
pub state_betting_equal_iff : (a b : State) → (state_betting_equal a b ≡ true) ↔ SameBetting a b
unfolding state_betting_equal
state_betting_equal_iff a b = (
  (λ e. betting_sound a b (ground arith) (ground arith)),
  (λ h. ground (arith, h.rounds, betting_complete a b h)),
)

common_sound : (g : Game) (a b : State) → states_equal_common g a b ≡ true → SameHand g a b
unfolding states_equal_common
common_sound g a b e = record {
  hands = ground arith;
  betting = betting_sound a b (ground arith) (ground arith);
  boards = λ i l. ground (
    arith,
    all_below_sound (sum_board_cards g a.round) (λ i. a.board_cards i == b.board_cards i)
        (ground arith) i l,
  );
}

common_complete : (g : Game) (a b : State) → SameHand g a b → states_equal_common g a b ≡ true
unfolding states_equal_common
common_complete g a b h = ground (
  arith,
  h.hands,
  h.betting.rounds,
  betting_complete a b h.betting,
  all_below_complete (sum_board_cards g a.round) (λ i. a.board_cards i == b.board_cards i)
      (λ i l. ground (arith, h.boards i)),
)

-- The cards of player `p` are the same.
abbrev pub SameHoles : Game → State → State → ℕ → Type 0
SameHoles g a b p = (i : ℕ) → i < g.num_hole_cards → a.hole_cards p i ≡ b.hole_cards p i

abbrev holes_test : Game → State → State → ℕ → Bool
holes_test g a b p = all_below g.num_hole_cards (λ i. a.hole_cards p i == b.hole_cards p i)

holes_sound : (g : Game) (a b : State) (p : ℕ) → holes_test g a b p ≡ true → SameHoles g a b p
holes_sound g a b p e i l =
    ground
      (arith, all_below_sound g.num_hole_cards (λ i. a.hole_cards p i == b.hole_cards p i) e i l)

holes_complete : (g : Game) (a b : State) (p : ℕ) → SameHoles g a b p → holes_test g a b p ≡ true
holes_complete g a b p h =
    all_below_complete g.num_hole_cards (λ i. a.hole_cards p i == b.hole_cards p i)
      (λ i l. ground (arith, h i))

-- StateEqual returns 1 exactly for two states of the same hand with the same betting and board, in
-- which all players hold the same cards.
pub state_equal_iff :
    (g : Game) (a b : State)
    → (state_equal g a b ≡ true)
      ↔ (SameHand g a b × ((p : ℕ) → p < g.num_players → SameHoles g a b p))
unfolding state_equal
state_equal_iff g a b = (
  (λ e. (
    common_sound g a b (ground arith),
    λ p l.
        holes_sound g a b p (all_below_sound g.num_players (holes_test g a b) (ground arith) p l),
  )),
  (λ h. ground (
    arith,
    common_complete g a b h.0,
    all_below_complete g.num_players (holes_test g a b) (λ p l. holes_complete g a b p (h.1 p l)),
  )),
)

-- matchStatesEqual returns 1 exactly if both are the view of the same player of states of the same
-- hand with the same betting and board, in which that player holds the same cards.
pub match_states_equal_iff :
    (g : Game) (a b : MatchState)
    → (match_states_equal g a b ≡ true) ↔ (
        (a.viewing_player ≡ b.viewing_player)
        × SameHand g a.state b.state
        × SameHoles g a.state b.state a.viewing_player)
unfolding match_states_equal
match_states_equal_iff g a b = (
  (λ e. (
    ground arith,
    common_sound g a.state b.state (ground arith),
    holes_sound g a.state b.state a.viewing_player (ground arith),
  )),
  (λ h. ground (
    arith,
    h.0,
    common_complete g a.state b.state h.1,
    holes_complete g a.state b.state a.viewing_player h.2,
  )),
)
