-- ===== src/Text.antt =====
-- The text of a state in modules/core/src/game.c: characters, cards and actions, printed and read.
-- A text is the list of its characters up to the terminating 0. A function that reads returns the rest
-- of the text behind what it has consumed, and `none` for -1; one that prints returns what it writes
-- into a buffer of `max_len` characters, and `none` for -1. How the C library prints and scans numbers
-- is a parameter, `Numbers`.
pub mod Print
pub mod Read
pub mod Actions
pub mod Betting
pub mod Hand
pub mod Cards
pub mod Table
pub mod Board
pub mod Stack
pub mod Shape
pub mod State
pub mod RoundTrip
pub mod Decimal
pub mod Tests
use bulldog.Prelude.{
  ℕ, zero, suc, ◌+◌, ◌-◌, ◌*◌, ◌/◌, ◌%◌, ◌≤◌, ◌<◌, ◌≡◌, Bool, true, false, ◌&&◌, ◌||◌, not, Option,
  none, some, List, [], ◌∷◌, ◌++◌, ltb, leb, ◌==◌, if◌then◌else◌, ◌>>=◌, ◌>>◌, guard, update,
}
use bulldog.Game.{
  undefined_card, is_no_limit, is_raise, ActionType, a_fold, a_call, a_raise, a_invalid, Action,
  Game,
}
use bulldog.Cards.{make_card}

abbrev pub Text : Type 0
Text = List ℕ

abbrev pub text_length : Text → ℕ
text_length [] = 0
text_length (c ∷ t) = suc (text_length t)

-- `string[0]`, 0 at the end.
abbrev pub head_char : Text → ℕ
head_char [] = 0
head_char (c ∷ t) = c

abbrev pub tail_text : Text → Text
tail_text [] = []
tail_text (c ∷ t) = t

abbrev pub is_digit : ℕ → Bool
is_digit c = leb b'0' c && leb c b'9'

abbrev pub all_digits : Text → Bool
all_digits [] = true
all_digits (c ∷ t) = is_digit c && all_digits t

-- The conversions of `snprintf`, `sscanf` and `strtol`: `print n` for the directive `%d`, and
-- `scan max t` for a number at the start of `t`, read into a type whose largest value is `max`, with
-- the rest of the text. What is printed is one digit or more, and is scanned again up to the first
-- character that is no digit.
pub record Numbers : Type 0 where
  pub print : ℕ → Text
  pub scan : ℕ → Text → Option (ℕ × Text)
  pub print_some : (n : ℕ) → (c : ℕ) × (t : Text) × (print n ≡ c ∷ t)
  pub print_digits : (n : ℕ) → all_digits (print n) ≡ true
  pub scan-print :
      (max n : ℕ) (rest : Text)
      → n ≤ max
      → is_digit (head_char rest) ≡ false
      → scan max (print n ++ rest) ≡ some (n, rest)

-- `charToAction`
unfoldable pub char_to_action : ℕ → ActionType
char_to_action c =
    if c == b'f' || c == b'F'
    then a_fold
    else if c == b'c' || c == b'C' || c == b'k' || c == b'K'
    then a_call
    else if c == b'r' || c == b'R' || c == b'b' || c == b'B'
    then a_raise
    else a_invalid

-- `actionChars`
abbrev pub action_chars : ActionType → ℕ
action_chars a_fold = b'f'
action_chars a_call = b'c'
action_chars a_raise = b'r'
action_chars a_invalid = 0

-- `suitChars` and `rankChars`, with what stands at a place: 0 at their end. Further on they are read out of bounds.
abbrev pub suit_chars : Text
suit_chars = b'c' ∷ b'd' ∷ b'h' ∷ b's' ∷ []

abbrev pub rank_chars : Text
rank_chars =
    b'2' ∷ b'3' ∷ b'4' ∷ b'5' ∷ b'6' ∷ b'7' ∷ b'8' ∷ b'9' ∷ b'T' ∷ b'J' ∷ b'Q' ∷ b'K' ∷ b'A' ∷ []

abbrev pub char_at : Text → ℕ → ℕ
char_at [] i = 0
char_at (c ∷ t) zero = c
char_at (c ∷ t) (suc i) = char_at t i

-- `strchr`, as an index, for a character other than 0.
unfoldable pub find_char : Text → ℕ → Option ℕ
find_char [] c = none
find_char (d ∷ t) c =
    let rest = find_char t c in if d == c then some 0 else (rest >>= λ i. some (suc i))

abbrev pub to_upper : ℕ → ℕ
to_upper c = if leb b'a' c && leb c b'z' then c - 32 else c

abbrev pub to_lower : ℕ → ℕ
to_lower c = if leb b'A' c && leb c b'Z' then c + 32 else c

-- The card that two characters spell.
unfoldable pub card_of_chars : ℕ → ℕ → ℕ → Option ℕ
unfolding find_char
card_of_chars num_suits x y = find_char rank_chars (to_upper x) >>= λ rank.
    find_char suit_chars (to_lower y) >>= λ suit. some (make_card rank suit num_suits)

-- `readCard`
unfoldable pub read_card : Game → Text → Option (ℕ × Text)
unfolding card_of_chars
read_card g [] = none
read_card g (x ∷ []) = none
read_card g (x ∷ y ∷ rest) = card_of_chars g.num_suits x y >>= λ card. some (card, rest)

-- `rankOfCard` and `suitOfCard`
abbrev pub rank_of_card : ℕ → ℕ → ℕ
rank_of_card card num_suits = card / num_suits

abbrev pub suit_of_card : ℕ → ℕ → ℕ
suit_of_card card num_suits = card % num_suits

-- `printCard`
unfoldable pub print_card : Game → ℕ → ℕ → Option Text
print_card g card max_len =
    guard (leb 3 max_len)
    >> (if card == undefined_card
        then some []
        else some (
            char_at rank_chars (rank_of_card card g.num_suits)
            ∷ char_at suit_chars (suit_of_card card g.num_suits)
            ∷ []))

-- The loop of `readCards`: how many cards it has read, the array, and the rest of the text.
unfoldable pub read_cards_from : Game → ℕ → ℕ → (ℕ → ℕ) → Text → ℕ × (ℕ → ℕ) × Text
read_cards_from g zero i cards t = (i, cards, t)
read_cards_from g (suc n) i cards t = elim (read_card g t) [
  | none ↦ (i, cards, t)
  | some r ↦ read_cards_from g n (suc i) (update cards i r.0) r.1
]

-- `readCards`
unfoldable pub read_cards : Game → ℕ → (ℕ → ℕ) → Text → ℕ × (ℕ → ℕ) × Text
read_cards g max_cards cards t = read_cards_from g max_cards 0 cards t

-- The loop of `printCards`, after `n` cards.
unfoldable pub print_cards_from : Game → ℕ → (ℕ → ℕ) → ℕ → Option Text
print_cards_from g zero cards max_len = some []
print_cards_from g (suc n) cards max_len = print_cards_from g n cards max_len >>= λ t.
    print_card g (cards n) (max_len - text_length t) >>= λ w. some (t ++ w)

-- `printCards`
unfoldable pub print_cards : Game → ℕ → (ℕ → ℕ) → ℕ → Option Text
unfolding print_cards_from
print_cards g num_cards cards max_len =
    if num_cards == 0
    then guard (not (max_len == 0)) >> some []
    else print_cards_from g num_cards cards max_len

module _ (numbers : Numbers) where
  open numbers use {print, scan}

  -- `readAction`. Its test for a negative type is never met: `a_invalid` is 3.
  unfoldable pub read_action : Game → Text → Option (Action × Text)
  read_action g t =
      if is_raise (char_to_action (head_char t)) && is_no_limit g.betting_type
      then (scan 2147483647 (tail_text t) >>= λ r.
          some (record { type = char_to_action (head_char t); size = r.0 }, r.1))
      else some (record { type = char_to_action (head_char t); size = 0 }, tail_text t)

  -- `printAction`
  unfoldable pub print_action : Game → Action → ℕ → Option Text
  print_action g a max_len =
      guard (not (max_len == 0))
      >> (let t =
            (if is_no_limit g.betting_type && is_raise a.type
              then action_chars a.type ∷ print a.size
              else action_chars a.type ∷ []) in
          guard (ltb (text_length t) max_len) >> some t)
