-- ===== src/Queries/Same.antt =====
-- What `Equal`, `CompatibleGame` and `SumBettingPatternDiff` of modules/core/src/game.c decide.
use bulldog.Prelude.{
  ltb, ℕ, zero, suc, ◌+◌, ◌≤◌, ◌<◌, ◌≡◌, ◌↔◌, refl, sym, ap, ◌∙◌, true, false, ◌==◌, arith,
  Bool-cases, inl, inr, loop,
}
use bulldog.Game.{
  max_rounds, BettingType, limit_betting, no_limit_betting, is_no_limit, Game, State,
}
use bulldog.History.Compare.{all_below_sound, all_below_complete}
use bulldog.Queries.{same_type, same_round, equal, gap, sum_betting_pattern_diff}

same_type_sound : (a b : BettingType) → same_type a b ≡ true → a ≡ b
same_type_sound limit_betting limit_betting e = refl
same_type_sound no_limit_betting no_limit_betting e = refl
same_type_sound limit_betting no_limit_betting e = cc
same_type_sound no_limit_betting limit_betting e = cc

same_type_refl : (a : BettingType) → same_type a a ≡ true
same_type_refl limit_betting = refl
same_type_refl no_limit_betting = refl

-- The same numbers of players, hole cards, rounds and ranks, and the same kind of betting.
pub record Compatible (a b : Game) : Type 0 where
  pub betting : a.betting_type ≡ b.betting_type
  pub players : a.num_players ≡ b.num_players
  pub holes : a.num_hole_cards ≡ b.num_hole_cards
  pub rounds : a.num_rounds ≡ b.num_rounds
  pub ranks : a.num_ranks ≡ b.num_ranks

-- The rules of one round.
pub record SameRound (a b : Game) (i : ℕ) : Type 0 where
  pub boards : a.num_board_cards i ≡ b.num_board_cards i
  pub first : a.first_player i ≡ b.first_player i
  pub raises : a.max_raises i ≡ b.max_raises i
  pub sizes : is_no_limit a.betting_type ≡ false → a.raise_size i ≡ b.raise_size i

-- The same rules in all rounds that are played, whatever the stacks.
pub record SameRules (a b : Game) : Type 0 where
  pub compatible : Compatible a b
  pub suits : a.num_suits ≡ b.num_suits
  pub each_round : (i : ℕ) → i < a.num_rounds → SameRound a b i
  pub blinds : (p : ℕ) → p < a.num_players → a.blind p ≡ b.blind p

same_round_sound : (a b : Game) (i : ℕ) → same_round a b i ≡ true → SameRound a b i
same_round_sound a b i e = record {
  boards = ground arith;
  first = ground arith;
  raises = ground arith;
  sizes = λ n. ground arith;
}

same_round_complete : (a b : Game) (i : ℕ) → SameRound a b i → same_round a b i ≡ true
same_round_complete a b i h = ground (arith, h.boards, h.first, h.raises, h.sizes)

-- Equal compares all four entries of the arrays. If the entries past the rounds of the first game, which
-- has at most four, agree, then Equal returns 1 exactly for two games with the same rules: the same
-- numbers of players, hole cards, suits, ranks and rounds, kind of betting and blinds and, in each round
-- of the game, board cards, first player, number of raises and in limit games size of a raise.
pub equal_iff :
    (a b : Game)
    → a.num_rounds ≤ max_rounds
    → ((i : ℕ) → a.num_rounds ≤ i → i < max_rounds → SameRound a b i)
    → (equal a b ≡ true) ↔ SameRules a b
unfolding equal
equal_iff a b few rest = (
  (λ e. record {
    compatible = record {
      betting = same_type_sound a.betting_type b.betting_type (ground arith);
      players = ground arith;
      holes = ground arith;
      rounds = ground arith;
      ranks = ground arith;
    };
    suits = ground arith;
    each_round = λ i l.
        same_round_sound a b i (all_below_sound 4 (same_round a b) (ground arith) i (omega arith));
    blinds = λ p l. ground (
      arith,
      all_below_sound b.num_players (λ i. a.blind i == b.blind i) (ground arith) p (ground arith),
    );
  }),
  (λ h. ground (
    arith,
    ap (same_type a.betting_type) (sym h.compatible.betting) ∙ same_type_refl a.betting_type,
    h.compatible.players,
    h.compatible.holes,
    h.compatible.rounds,
    h.compatible.ranks,
    h.suits,
    all_below_complete 4 (same_round a b) (λ i l. same_round_complete a b i (all_rounds h i l)),
    all_below_complete b.num_players (λ i. a.blind i == b.blind i)
        (λ i l. ground (arith, h.blinds i (omega (arith, h.compatible.players, l)))),
  )),
)
  where
    all_rounds : SameRules a b → (i : ℕ) → i < max_rounds → SameRound a b i
    all_rounds h i l = elim (Bool-cases (ltb i a.num_rounds)) [
      | inl e ↦ h.each_round i (ground arith)
      | inr e ↦ rest i (ground arith) l
    ]

-- SumBettingPatternDiff returns 0 exactly if the two states have the same number of actions in each
-- round up to the first state's.
pub sum_betting_pattern_diff_iff :
    (a b : State)
    → (sum_betting_pattern_diff a b ≡ 0)
      ↔ ((r : ℕ) → r ≤ a.round → a.num_actions r ≡ b.num_actions r)
unfolding sum_betting_pattern_diff
sum_betting_pattern_diff_iff a b = (
  (λ e r l. sound (suc a.round) e r (omega arith)),
  (λ h. complete (suc a.round) (λ r l. h r (omega arith))),
)
  where
    sum : ℕ → ℕ
    sum n = loop n (λ r sum. sum + gap (a.num_actions r) (b.num_actions r)) 0

    sound : (n : ℕ) → sum n ≡ 0 → (r : ℕ) → r < n → a.num_actions r ≡ b.num_actions r
    sound zero e r l = elim l [ ]
    sound (suc n) e r l = elim (Bool-cases (r == n)) [
      | inl q ↦
          let z : r ≡ n = ground arith in
          ap a.num_actions z
          ∙ alike (a.num_actions n) (b.num_actions n) (omega arith)
          ∙ sym (ap b.num_actions z)
      | inr q ↦ sound n (omega arith) r (ground arith)
    ]
      where
        alike : (x y : ℕ) → gap x y ≡ 0 → x ≡ y
        alike x y e = ground arith

    complete : (n : ℕ) → ((r : ℕ) → r < n → a.num_actions r ≡ b.num_actions r) → sum n ≡ 0
    complete zero h = refl
    complete (suc n) h = ground (arith, h n, complete n (λ r l. h r (omega arith)))
