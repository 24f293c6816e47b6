-- ===== src/Text/Cards.antt =====
-- What `printCard` and `printCards` of modules/core/src/game.c write is read back by `readCard` and
-- `readCards`, for a deck of four suits.
use mathlib.Core.Path.{ap₂}
use bulldog.Prelude.{
  ℕ, zero, suc, ◌+◌, ◌-◌, ◌≤◌, ◌<◌, ◌≡◌, refl, sym, ◌∙◌, ap, Bool, true, false, Option, none, some,
  [], ◌∷◌, ◌++◌, ◌==◌, >>=-eq-some, arith, Bool-cases, inl, inr, update,
}
use bulldog.Game.{Game}
use bulldog.History.{all_below}
use bulldog.History.Compare.{all_below_sound}
use bulldog.Text.{
  Text, text_length, rank_chars, suit_chars, char_at, rank_of_card, suit_of_card, card_of_chars,
  read_card, print_card, read_cards_from, read_cards, print_cards_from, print_cards,
}

abbrev pub rank_char : ℕ → ℕ
rank_char card = char_at rank_chars (rank_of_card card 4)

abbrev pub suit_char : ℕ → ℕ
suit_char card = char_at suit_chars (suit_of_card card 4)

abbrev spelled : ℕ → Option ℕ
spelled card = card_of_chars 4 (rank_char card) (suit_char card)

spells_back : ℕ → Bool
spells_back card = elim (spelled card) [ none ↦ false | some d ↦ d == card ]

all_spell_back : all_below 52 spells_back ≡ true
unfolding all_below spells_back card_of_chars
all_spell_back = refl

card_of_chars-chars : (card : ℕ) → card < 52 → spelled card ≡ some card
unfolding spells_back
card_of_chars-chars card l = ground (arith, all_below_sound 52 spells_back all_spell_back card l)

module _ (g : Game) (four : g.num_suits ≡ 4) where
  -- A card is read back, whatever follows it.
  pub read_card-chars :
      (card : ℕ) (rest : Text)
      → card < 52
      → read_card g (rank_char card ∷ suit_char card ∷ rest) ≡ some (card, rest)
  unfolding read_card
  read_card-chars card rest l = rw (four, card_of_chars-chars card l) refl

  print_card-chars :
      (card max_len : ℕ) {t : Text}
      → card < 52
      → print_card g card max_len ≡ some t
      → t ≡ rank_char card ∷ suit_char card ∷ []
  unfolding print_card
  print_card-chars card max_len l e = ground (arith, four)

  -- The text of `n` cards from place `i` on.
  abbrev pub cards_text : (ℕ → ℕ) → ℕ → ℕ → Text
  cards_text v zero i = []
  cards_text v (suc n) i = rank_char (v i) ∷ suit_char (v i) ∷ cards_text v n (suc i)

  cards_text-snoc :
      (v : ℕ → ℕ) (n i : ℕ)
      → cards_text v (suc n) i
        ≡ cards_text v n i ++ (rank_char (v (i + n)) ∷ suit_char (v (i + n)) ∷ [])
  cards_text-snoc v zero i =
      let e : i ≡ i + 0 = omega arith in ap (λ k. rank_char (v k) ∷ suit_char (v k) ∷ []) e
  cards_text-snoc v (suc n) i =
      let e : suc i + n ≡ i + suc n = omega arith in
      ap (λ t. rank_char (v i) ∷ suit_char (v i) ∷ t)
        (cards_text-snoc v n (suc i)
          ∙ ap (λ k. cards_text v n (suc i) ++ (rank_char (v k) ∷ suit_char (v k) ∷ [])) e)

  print_cards_from-text :
      (n : ℕ) (v : ℕ → ℕ) (max_len : ℕ) {t : Text}
      → ((i : ℕ) → i < n → v i < 52)
      → print_cards_from g n v max_len ≡ some t
      → t ≡ cards_text v n 0
  unfolding print_cards_from
  print_cards_from-text zero v max_len c e = ground arith
  print_cards_from-text (suc n) v max_len {t} c e =
      let (t1, e1, q1) = >>=-eq-some (print_cards_from g n v max_len) _ e in
      let (w, e2, q2) = >>=-eq-some (print_card g (v n) (max_len - text_length t1)) _ q1 in
      let t_is : t1 ++ w ≡ t = cc in
      let zn : n ≡ 0 + n = omega arith in
      sym t_is
      ∙ ap₂ ◌++◌ (print_cards_from-text n v max_len (λ i l. c i (omega arith)) e1)
          (print_card-chars (v n) (max_len - text_length t1) (c n (omega arith)) e2)
      ∙ ap (λ k. cards_text v n 0 ++ (rank_char (v k) ∷ suit_char (v k) ∷ [])) zn
      ∙ sym (cards_text-snoc v n 0)

  pub print_cards-text :
      (n : ℕ) (v : ℕ → ℕ) (max_len : ℕ) {t : Text}
      → ((i : ℕ) → i < n → v i < 52)
      → print_cards g n v max_len ≡ some t
      → t ≡ cards_text v n 0
  unfolding print_cards
  print_cards-text zero v max_len c e = ground arith
  print_cards-text (suc n) v max_len c e = print_cards_from-text (suc n) v max_len c (ground arith)

  -- The array after `n` cards have been read from place `i` on.
  record Filled (v old new : ℕ → ℕ) (n i : ℕ) : Type 0 where
    inside : (j : ℕ) → i ≤ j → j < i + n → new j ≡ v j
    before : (j : ℕ) → j < i → new j ≡ old j

  read_cards_step :
      (n i card : ℕ) (old : ℕ → ℕ) (t rest : Text)
      → read_card g t ≡ some (card, rest)
      → read_cards_from g (suc n) i old t ≡ read_cards_from g n (suc i) (update old i card) rest
  unfolding read_cards_from
  read_cards_step n i card old t rest e = rw (e, read_cards_from) refl

  read_cards_from-text :
      (n i : ℕ) (v old : ℕ → ℕ) (rest : Text)
      → ((j : ℕ) → i ≤ j → j < i + n → v j < 52)
      → (new : ℕ → ℕ) × (read_cards_from g n i old (cards_text v n i ++ rest) ≡ (i + n, new, rest))
        × Filled v old new n i
  unfolding read_cards_from
  read_cards_from-text zero i v old rest c = (
    old,
    ap (λ k. (k, old, rest)) (omega arith),
    record { inside = λ j a b. absurd (omega arith); before = λ j a. refl },
  )
  read_cards_from-text (suc n) i v old rest c =
      let (new, e, f) =
        read_cards_from-text n (suc i) v (update old i (v i)) rest
          (λ j a b. c j (omega arith) (omega arith)) in
      let s : suc i + n ≡ i + suc n = omega arith in
      (
        new,
        read_cards_step n i (v i) old _ _ (
              read_card-chars (v i) (cards_text v n (suc i) ++ rest)
                (c i (omega arith) (omega arith)))
            ∙ e
            ∙ ap (λ k. (k, new, rest)) s,
        record {
          inside = λ j a b. elim (Bool-cases (j == i)) [
            | inl q ↦ let ji : i ≡ j = ground arith in ground (arith, f.before j, ap v ji)
            | inr q ↦ f.inside j (ground arith) (omega arith)
          ];
          before = λ j a. ground (arith, f.before j);
        },
      )

  -- readCards reads back the cards that printCards writes, whatever follows them.
  pub read_cards-text :
      (n : ℕ) (v old : ℕ → ℕ) (rest : Text)
      → ((j : ℕ) → j < n → v j < 52)
      → (new : ℕ → ℕ) × (read_cards g n old (cards_text v n 0 ++ rest) ≡ (n, new, rest))
        × ((j : ℕ) → j < n → new j ≡ v j)
  unfolding read_cards
  read_cards-text n v old rest c =
      let (new, e, f) = read_cards_from-text n 0 v old rest (λ j a b. c j (omega arith)) in
      let zn : 0 + n ≡ n = omega arith in
      (new, e ∙ ap (λ k. (k, new, rest)) zn, λ j l. f.inside j (omega arith) (omega arith))
