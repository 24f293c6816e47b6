-- ===== src/Text/Actions.antt =====
-- What `printAction` and `printBetting` of modules/core/src/game.c write is read back by
-- `readAction` and `readBetting`.
use mathlib.Core.Path.{subst}
use bulldog.Prelude.{
  ℕ, suc, ◌+◌, ◌≤◌, ◌<◌, ◌≡◌, refl, false, ◌&&◌, some, List, [], ◌∷◌, ◌++◌, ◌==◌, if◌then◌else◌,
  arith, Bool-cases, inl, inr,
}
use bulldog.Game.{
  is_no_limit, is_raise, is_invalid, ActionType, a_fold, a_call, a_raise, a_invalid, Action, Game,
  State,
}
use bulldog.Betting.{is_valid_action}
use bulldog.Hand.{do_action}
use bulldog.Text.{
  Text, text_length, head_char, is_digit, Numbers, char_to_action, action_chars, read_action,
  print_action,
}
use bulldog.Text.Read.{read_betting_from}

-- An action with a type that can be printed and the size that it is printed with.
pub record Plain (g : Game) (a : Action) : Type 0 where
  pub kind : is_invalid a.type ≡ false
  pub unused : (is_no_limit g.betting_type && is_raise a.type) ≡ false → a.size ≡ 0
  pub fits : a.size ≤ 2147483647

char_to_action-chars :
    (ty : ActionType) → is_invalid ty ≡ false → char_to_action (action_chars ty) ≡ ty
unfolding char_to_action
char_to_action-chars a_fold h = refl
char_to_action-chars a_call h = refl
char_to_action-chars a_raise h = refl
char_to_action-chars a_invalid h = cc

pub text_length-append : (t u : Text) → text_length (t ++ u) ≡ text_length t + text_length u
text_length-append [] u = omega arith
text_length-append (c ∷ t) u = omega (arith, text_length-append t u)

module _ (numbers : Numbers) (g : Game) where
  open numbers use {print, scan, scan-print}

  abbrev pub action_text : Action → Text
  action_text a =
      if is_no_limit g.betting_type && is_raise a.type
      then action_chars a.type ∷ print a.size
      else action_chars a.type ∷ []

  pub print_action-text :
      (a : Action) (max_len : ℕ) {t : Text}
      → print_action numbers g a max_len ≡ some t
      → t ≡ action_text a
  unfolding print_action
  print_action-text a max_len e = ground arith

  action_head : (a : Action) → head_char (action_text a) ≡ action_chars a.type
  action_head a = ground arith

  -- A printed action is read back, whatever follows it that is no digit.
  pub read_action-text :
      (a : Action) (rest : Text)
      → Plain g a
      → is_digit (head_char rest) ≡ false
      → read_action numbers g (action_text a ++ rest) ≡ some (a, rest)
  unfolding read_action
  read_action-text a rest h d = elim (Bool-cases (is_no_limit g.betting_type && is_raise a.type)) [
    | inl q ↦
        rw (q, char_to_action-chars a.type h.kind)
          (ground (arith, scan-print 2147483647 a.size rest h.fits d))
    | inr q ↦ rw (q, char_to_action-chars a.type h.kind) (ground (arith, h.unused q))
  ]

  -- A text that spells a list of actions, with separators between them.
  pub data Spells : List Action → Text → Type 0 where
    stop : Spells [] []
    slash : {l : List Action} {t : Text} → Spells l t → Spells l (b'/' ∷ t)
    spell :
        (a : Action) {l : List Action} {t : Text} (w : Text)
        → Plain g a
        → Spells l t
        → w ≡ action_text a ++ t
        → Spells (a ∷ l) w

-- Actions that pass `isValidAction` unchanged and are carried out, one after the other.
abbrev pub Checked : Game → List Action → State → State → Type 0
Checked g [] s u = s ≡ u
Checked g (a ∷ l) s u =
    (c : ℕ) × (t : State) × (is_valid_action g s false a ≡ some (c, a))
    × (0 < c)
    × (do_action g a s ≡ some t)
    × Checked g l t u

module _ (numbers : Numbers) (g : Game) where
  chars_plain :
      (ty : ActionType)
      → is_invalid ty ≡ false
      → (is_digit (action_chars ty) ≡ false)
        × ((action_chars ty == b':') ≡ false)
        × ((action_chars ty == b'/') ≡ false)
  chars_plain a_fold h = (refl, refl, refl)
  chars_plain a_call h = (refl, refl, refl)
  chars_plain a_raise h = (refl, refl, refl)
  chars_plain a_invalid h = cc

  -- An action's text is its first character and the digits.
  pub action_split : (a : Action) → (t : Text) × (action_text numbers g a ≡ action_chars a.type ∷ t)
  action_split a = elim (Bool-cases (is_no_limit g.betting_type && is_raise a.type)) [
    | inl q ↦ (Numbers.print numbers a.size, rw q refl)
    | inr q ↦ ([], rw q refl)
  ]

  pub clean :
      {l : List Action} {t : Text} (rest : Text)
      → Spells numbers g l t
      → is_digit (head_char (t ++ (b':' ∷ rest))) ≡ false
  clean rest stop = refl
  clean rest (slash h) = refl
  clean rest (spell a {t = t} w p h e) =
      let (d, q) = action_split a in rw (e, q) ((chars_plain a.type p.kind).0)

  -- One round of the loop of `readBetting` on an action.
  pub read_step :
      (fuel c : ℕ) (a : Action) (rest : Text) (s u : State)
      → Plain g a
      → is_digit (head_char rest) ≡ false
      → is_valid_action g s false a ≡ some (c, a)
      → 0 < c
      → do_action g a s ≡ some u
      → read_betting_from numbers (suc fuel) g (action_text numbers g a ++ rest) s
        ≡ read_betting_from numbers fuel g rest u
  unfolding read_betting_from
  read_step fuel c a rest s u p d v pos e =
      let (t, q) = action_split a in
      let r : read_action numbers g (action_chars a.type ∷ (t ++ rest)) ≡ some (a, rest) =
        subst (λ x. read_action numbers g (x ++ rest) ≡ some (a, rest)) q
          (read_action-text numbers g a rest p d) in
      let (x, y, z) = chars_plain a.type p.kind in rw (q, y, z, r, v) (ground arith)
