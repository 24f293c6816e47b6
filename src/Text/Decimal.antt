-- ===== src/Text/Decimal.antt =====
-- Decimal numbers: a `Numbers`, which shows that what the text of modules/core/src/game.c asks of the
-- C library's conversions can be met.
use bulldog.Prelude.{
  ℕ, zero, suc, ◌+◌, ◌-◌, ◌*◌, ◌/◌, ◌%◌, ◌≤◌, ◌<◌, ◌≡◌, refl, sym, ◌∙◌, ap, true, false, ◌&&◌,
  Option, none, some, [], ◌∷◌, ◌++◌, ltb, leb, if◌then◌else◌, arith, Bool-cases, inl, inr,
}
use bulldog.Text.{Text, head_char, is_digit, all_digits, Numbers}

-- The digits of `n`, on fuel.
unfoldable pub digits : ℕ → ℕ → Text
digits zero n = b'0' ∷ []
digits (suc fuel) n =
    let more = digits fuel (n / 10) in
    if ltb n 10 then (n + b'0') ∷ [] else more ++ ((n % 10 + b'0') ∷ [])

unfoldable pub scan_from : ℕ → Text → ℕ × Text
scan_from acc [] = (acc, [])
scan_from acc (c ∷ t) =
    let more = scan_from (acc * 10 + (c - b'0')) t in if is_digit c then more else (acc, c ∷ t)

unfoldable pub scan_decimal : ℕ → Text → Option (ℕ × Text)
unfolding scan_from
scan_decimal max t =
    let r = scan_from 0 t in if is_digit (head_char t) && leb r.0 max then some r else none

-- What digits stand for.
value : ℕ → Text → ℕ
value acc [] = acc
value acc (c ∷ t) = value (acc * 10 + (c - b'0')) t

value-snoc :
    (acc : ℕ) (t : Text) (c : ℕ) → value acc (t ++ (c ∷ [])) ≡ value acc t * 10 + (c - b'0')
unfolding value
value-snoc acc [] c = refl
value-snoc acc (d ∷ t) c = value-snoc (acc * 10 + (d - b'0')) t c

all_digits-snoc :
    (t : Text) (c : ℕ) → all_digits t ≡ true → is_digit c ≡ true → all_digits (t ++ (c ∷ [])) ≡ true
all_digits-snoc [] c h d = ground arith
all_digits-snoc (x ∷ t) c h d = ground (arith, all_digits-snoc t c)

digits-all : (fuel n : ℕ) → all_digits (digits fuel n) ≡ true
unfolding digits
digits-all zero n = refl
digits-all (suc fuel) n = elim (Bool-cases (ltb n 10)) [
  | inl q ↦ rw q (ground arith)
  | inr q ↦ rw q (
      all_digits-snoc (digits fuel (n / 10)) (n % 10 + b'0') (digits-all fuel (n / 10))
        (ground arith))
]

digits-value : (fuel n : ℕ) → n < fuel → value 0 (digits fuel n) ≡ n
unfolding digits value
digits-value zero n l = elim l [ ]
digits-value (suc fuel) n l = elim (Bool-cases (ltb n 10)) [
  | inl q ↦ rw q (omega arith)
  | inr q ↦
      let smaller : n / 10 < fuel = ground arith in
      rw q (
        value-snoc 0 (digits fuel (n / 10)) (n % 10 + b'0')
        ∙ omega (arith, digits-value fuel (n / 10) smaller))
]

append-some : (t : Text) (c : ℕ) → (d : ℕ) × (u : Text) × (t ++ (c ∷ []) ≡ d ∷ u)
append-some [] c = (c, [], refl)
append-some (x ∷ t) c = (x, t ++ (c ∷ []), refl)

digits-some : (fuel n : ℕ) → (c : ℕ) × (t : Text) × (digits fuel n ≡ c ∷ t)
unfolding digits
digits-some zero n = (b'0', [], refl)
digits-some (suc fuel) n = elim (Bool-cases (ltb n 10)) [
  | inl q ↦ (n + b'0', [], rw q refl)
  | inr q ↦ let (d, u, e) = append-some (digits fuel (n / 10)) (n % 10 + b'0') in (d, u, rw q e)
]

scan_from-digits :
    (acc : ℕ) (t rest : Text)
    → all_digits t ≡ true
    → is_digit (head_char rest) ≡ false
    → scan_from acc (t ++ rest) ≡ (value acc t, rest)
unfolding scan_from value
scan_from-digits acc [] [] d h = refl
scan_from-digits acc [] (c ∷ rest) d h = rw h refl
scan_from-digits acc (c ∷ t) rest d h =
    let first : is_digit c ≡ true = ground arith in
    rw first (scan_from-digits (acc * 10 + (c - b'0')) t rest (ground arith) h)

unfoldable pub print_decimal : ℕ → Text
unfolding digits
print_decimal n = digits (suc n) n

scan_decimal-digits :
    (max n : ℕ) (t rest : Text)
    → n ≤ max
    → all_digits t ≡ true
    → value 0 t ≡ n
    → is_digit (head_char (t ++ rest)) ≡ true
    → is_digit (head_char rest) ≡ false
    → scan_decimal max (t ++ rest) ≡ some (n, rest)
unfolding scan_decimal
scan_decimal-digits max n t rest l d v f h =
    let r : scan_from 0 (t ++ rest) ≡ (n, rest) =
      scan_from-digits 0 t rest d h ∙ ap (λ k. (k, rest)) v in
    let fits : leb n max ≡ true = ground arith in rw (r, f, fits) refl

pub print_decimal-some : (n : ℕ) → (c : ℕ) × (t : Text) × (print_decimal n ≡ c ∷ t)
unfolding print_decimal
print_decimal-some n = digits-some (suc n) n

pub print_decimal-digits : (n : ℕ) → all_digits (print_decimal n) ≡ true
unfolding print_decimal
print_decimal-digits n = digits-all (suc n) n

pub scan_decimal-print_decimal :
    (max n : ℕ) (rest : Text)
    → n ≤ max
    → is_digit (head_char rest) ≡ false
    → scan_decimal max (print_decimal n ++ rest) ≡ some (n, rest)
unfolding print_decimal
scan_decimal-print_decimal max n rest l h =
    let (c, t, e) = digits-some (suc n) n in
    let all : all_digits (c ∷ t) ≡ true = ap all_digits (sym e) ∙ digits-all (suc n) n in
    let first : is_digit (head_char (digits (suc n) n ++ rest)) ≡ true =
      ap (λ x. is_digit (head_char (x ++ rest))) e ∙ ground arith in
    scan_decimal-digits max n (digits (suc n) n) rest l (digits-all (suc n) n)
      (digits-value (suc n) n (omega arith)) first h

abbrev pub decimal : Numbers
decimal = record {
  print = print_decimal;
  scan = scan_decimal;
  print_some = print_decimal-some;
  print_digits = print_decimal-digits;
  scan-print = scan_decimal-print_decimal;
}
