-- ===== src/Prelude/Int.antt =====
-- Signed numbers over the native ones, for `int` and for exact sums of `double`, and sums of them.
use Prim.Native.Nat.{ℕ, zero, suc, ◌+◌, ◌-◌, ◌*◌, ◌<◌, ◌≤◌}
use mathlib.Core.Path.{◌≡◌, refl, sym, ◌∙◌, ap, ap₂}
use mathlib.Core.Bool.{Bool, false, ◌||◌}
use native.Mathlib.Omega.{arith}
use mathlib.Core.Logic.{◌≢◌, inl, inr}
use bulldog.Prelude.Tests.{ltb, if◌then◌else◌, ◌==◌, Bool-cases}
use bulldog.Prelude.Arrays.{update}

-- `negsuc n` is -(n + 1).
pub data ℤ : Type 0 where
  pos negsuc : ℕ → ℤ

abbrev pub pos_part : ℤ → ℕ
pos_part (pos n) = n
pos_part (negsuc n) = 0

abbrev pub neg_part : ℤ → ℕ
neg_part (pos n) = 0
neg_part (negsuc n) = suc n

-- `a - b`
unfoldable pub diff : ℕ → ℕ → ℤ
diff a b = if ltb a b then negsuc (b - a - 1) else pos (a - b)

abbrev pub neg : ℕ → ℤ
neg n = diff 0 n

infixl 65 ◌+ℤ◌ ◌-ℤ◌
infixl 70 ◌*ℤ◌
unfoldable pub ◌+ℤ◌ : ℤ → ℤ → ℤ
unfolding diff
a +ℤ b = diff (pos_part a + pos_part b) (neg_part a + neg_part b)

unfoldable pub ◌-ℤ◌ : ℤ → ℤ → ℤ
unfolding diff
a -ℤ b = diff (pos_part a + neg_part b) (neg_part a + pos_part b)

unfoldable pub ◌*ℤ◌ : ℤ → ℤ → ℤ
pos a *ℤ pos b = pos (a * b)
pos a *ℤ negsuc b = neg (a * suc b)
negsuc a *ℤ pos b = neg (suc a * b)
negsuc a *ℤ negsuc b = pos (suc a * suc b)

infix 50 ◌==ℤ◌
abbrev pub ◌==ℤ◌ : ℤ → ℤ → Bool
pos a ==ℤ pos b = a == b
negsuc a ==ℤ negsuc b = a == b
pos a ==ℤ negsuc b = false
negsuc a ==ℤ pos b = false

-- `a > 0`
abbrev pub is_positive : ℤ → Bool
is_positive (pos n) = ltb 0 n
is_positive (negsuc n) = false

pub +ℤ_parts :
    (a b : ℤ)
    → pos_part (a +ℤ b) + neg_part a + neg_part b ≡ neg_part (a +ℤ b) + pos_part a + pos_part b
unfolding ◌+ℤ◌ diff
+ℤ_parts a b = ground arith

pub -ℤ_parts :
    (a b : ℤ)
    → pos_part (a -ℤ b) + neg_part a + pos_part b ≡ neg_part (a -ℤ b) + pos_part a + neg_part b
unfolding ◌-ℤ◌ diff
-ℤ_parts a b = ground arith

pub eq_of_parts : (a b : ℤ) → pos_part a + neg_part b ≡ pos_part b + neg_part a → a ≡ b
eq_of_parts a b h = ground arith

pub parts_of : {a b : ℤ} → a ≡ b → (pos_part a ≡ pos_part b) × (neg_part a ≡ neg_part b)
parts_of e = (ap pos_part e, ap neg_part e)

pub ruleset int_laws = (arith, +ℤ_parts, -ℤ_parts, eq_of_parts)

-- The sum of the first `n` values.
unfoldable pub sum : (ℕ → ℤ) → ℕ → ℤ
sum f zero = pos 0
sum f (suc n) = sum f n +ℤ f n

pub sum_congr : (f h : ℕ → ℤ) (n : ℕ) → ((i : ℕ) → i < n → f i ≡ h i) → sum f n ≡ sum h n
unfolding sum
sum_congr f h zero e = refl
sum_congr f h (suc n) e =
    ap₂ (λ a b. a +ℤ b) (sum_congr f h n (λ i l. e i (omega arith))) (e n (omega arith))

pub sum-+ℤ : (f h : ℕ → ℤ) (n : ℕ) → sum (λ i. f i +ℤ h i) n ≡ sum f n +ℤ sum h n
unfolding sum
sum-+ℤ f h zero = omega int_laws
sum-+ℤ f h (suc n) = omega (int_laws, parts_of (sum-+ℤ f h n))

pub sum--ℤ : (f h : ℕ → ℤ) (n : ℕ) → sum (λ i. f i -ℤ h i) n ≡ sum f n -ℤ sum h n
unfolding sum
sum--ℤ f h zero = omega int_laws
sum--ℤ f h (suc n) = omega (int_laws, parts_of (sum--ℤ f h n))

pub sum_zero : (n : ℕ) → sum (λ i. pos 0) n ≡ pos 0
unfolding sum
sum_zero zero = refl
sum_zero (suc n) = omega (int_laws, parts_of (sum_zero n))

-- `w` where the test holds.
abbrev pub pick : Bool → ℤ → ℤ
pick b w = if b then w else pos 0

pub +ℤ_zero : (a : ℤ) → a +ℤ pos 0 ≡ a
+ℤ_zero a = omega int_laws

-- Values past which there is only 0.
pub sum_extend :
    (f : ℕ → ℤ) (m n : ℕ) → m ≤ n → ((i : ℕ) → m ≤ i → i < n → f i ≡ pos 0) → sum f n ≡ sum f m
unfolding sum
sum_extend f m zero l z = let e : m ≡ 0 = omega arith in sym (ap (sum f) e)
sum_extend f m (suc n) l z = elim (Bool-cases (m == suc n)) [
  | inl e ↦ let q : m ≡ suc n = ground arith in sym (ap (sum f) q)
  | inr e ↦
      ap (λ a. sum f n +ℤ a) (z n (ground arith) (omega arith))
      ∙ +ℤ_zero (sum f n)
      ∙ sum_extend f m n (ground arith) (λ i a b. z i a (omega arith))
]

-- `f[i] += w`
abbrev pub add_to : (ℕ → ℤ) → ℕ → ℤ → ℕ → ℤ
add_to f i w = update f i (f i +ℤ w)

-- Adding at two places.
pub add_to_two :
    (f : ℕ → ℤ) (i j c : ℕ) (w : ℤ)
    → i ≢ j
    → add_to (add_to f i w) j w c ≡ f c +ℤ pick (i == c || j == c) w
add_to_two f i j c w n = elim (Bool-cases (i == c)) [
  | inl e ↦ ground arith
  | inr e ↦ elim (Bool-cases (j == c)) [
    | inl q ↦ ground arith
    | inr q ↦ ground (arith, +ℤ_zero (f c))
  ]
]
