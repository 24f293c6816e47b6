-- ===== src/Kernel/Signed.antt =====
-- The differences between lower and higher ranks that `StackShowdownProb` of
-- modules/engine/src/term_eval_kernel.cpp computes step by step.
use bulldog.Prelude.{
  ℕ, ◌≤◌, ◌<◌, ◌≡◌, ◌≢◌, ◌⊎◌, refl, sym, ap, ◌∙◌, Bool, true, false, ◌&&◌, ◌==◌, ltb, arith,
  Bool-cases, inl, inr, if◌then◌else◌, lt→ltb,
}
use bulldog.Prelude.Int.{
  ℤ, pos, ◌+ℤ◌, ◌-ℤ◌, pick, sum, sum_congr, sum-+ℤ, sum--ℤ, int_laws, parts_of,
}
use bulldog.Kernel.Rows.{seen, seen_complete}

-- A weight of a rank, against rank `r`.
abbrev pub signed : ℕ → ℕ → ℤ → ℤ
signed r x w = if ltb x r then w else if x == r then pos 0 else pos 0 -ℤ w

pub signed_below : (r x : ℕ) (w : ℤ) → x < r → signed r x w ≡ w
signed_below r x w l = rw (lt→ltb x r l) refl

pub signed_same : (r x : ℕ) (w : ℤ) → x ≡ r → signed r x w ≡ pos 0
signed_same r x w e =
    let (a, b) : (ltb x r ≡ false) × ((x == r) ≡ true) = (ground arith, ground arith) in
    rw (a, b) refl

pub signed_above : (r x : ℕ) (w : ℤ) → r < x → signed r x w ≡ pos 0 -ℤ w
signed_above r x w l =
    let (a, b) : (ltb x r ≡ false) × ((x == r) ≡ false) = (ground arith, ground arith) in
    rw (a, b) refl

pick_yes : (x r : ℕ) (w : ℤ) → x ≡ r → pick (x == r) w ≡ w
pick_yes x r w e = let a : (x == r) ≡ true = ground arith in rw a refl

pick_no : (x r : ℕ) (w : ℤ) → x ≢ r → pick (x == r) w ≡ pos 0
pick_no x r w n = let a : (x == r) ≡ false = ground arith in rw a refl

compared : (x r : ℕ) → (x < r) ⊎ ((x ≡ r) ⊎ (r < x))
compared x r = ground arith

-- At the lowest rank.
signed-first : (r x : ℕ) (w : ℤ) → r ≤ x → pick (x == r) w -ℤ w ≡ signed r x w
signed-first r x w l = elim (compared x r) [
  | inl e ↦ absurd (omega arith)
  | inr (inl e) ↦ omega (int_laws, parts_of (pick_yes x r w e), parts_of (signed_same r x w e))
  | inr (inr e) ↦
      let n : x ≢ r = λ z. omega arith in
      omega (int_laws, parts_of (pick_no x r w n), parts_of (signed_above r x w e))
]

-- From one rank to the next.
signed-next :
    (r r' x : ℕ) (w : ℤ)
    → r < r'
    → (x ≤ r) ⊎ (r' ≤ x)
    → signed r x w +ℤ pick (x == r) w +ℤ pick (x == r') w ≡ signed r' x w
signed-next r r' x w l s = elim (compared x r) [
  | inl e ↦
      let (a, b) : (x ≢ r) × (x ≢ r') = ((λ z. omega arith), (λ z. omega arith)) in
      omega (
        int_laws,
        parts_of (signed_below r x w e),
        parts_of (pick_no x r w a),
        parts_of (pick_no x r' w b),
        parts_of (signed_below r' x w (omega arith)),
      )
  | inr (inl e) ↦
      let b : x ≢ r' = λ z. omega arith in
      omega (
        int_laws,
        parts_of (signed_same r x w e),
        parts_of (pick_yes x r w e),
        parts_of (pick_no x r' w b),
        parts_of (signed_below r' x w (omega arith)),
      )
  | inr (inr e) ↦
      let a : x ≢ r = λ z. omega arith in
      elim (compared x r') [
        | inl q ↦ absurd (omega arith)
        | inr (inl q) ↦ omega (
          int_laws,
          parts_of (signed_above r x w e),
          parts_of (pick_no x r w a),
          parts_of (pick_yes x r' w q),
          parts_of (signed_same r' x w q),
        )
        | inr (inr q) ↦
            let b : x ≢ r' = λ z. omega arith in
            omega (
              int_laws,
              parts_of (signed_above r x w e),
              parts_of (pick_no x r w a),
              parts_of (pick_no x r' w b),
              parts_of (signed_above r' x w q),
            )
      ]
]

-- The sums over the hands that pass a test.
module _ (occ : ℕ → Bool) (class : ℕ → ℕ) (opp : ℕ → ℤ) (n : ℕ) where
  abbrev pub signed_share : ℕ → ℕ → ℤ
  signed_share r i = pick (occ i) (signed r (class i) (opp i))

  abbrev pub equal_share : ℕ → ℕ → ℤ
  equal_share r i = pick (occ i && class i == r) (opp i)

  abbrev pub any_share : ℕ → ℤ
  any_share i = pick (occ i) (opp i)

  abbrev signed_sum : ℕ → ℤ
  signed_sum r = sum (signed_share r) n

  pub signed_sum-first :
      (r : ℕ)
      → ((q : ℕ) → seen occ class n q ≡ true → r ≤ q)
      → sum (equal_share r) n -ℤ sum any_share n ≡ sum (signed_share r) n
  signed_sum-first r least =
      sym (sum--ℤ (equal_share r) any_share n)
      ∙ sum_congr (λ i. equal_share r i -ℤ any_share i) (signed_share r) n
          (λ i l. elim (Bool-cases (occ i)) [
            | inl e ↦ rw e (
                signed-first r (class i) (opp i)
                  (least (class i) (seen_complete occ class n (class i) i l e refl)))
            | inr e ↦ rw e (omega int_laws)
          ])

  pub signed_sum-next :
      (r r' : ℕ)
      → r < r'
      → ((q : ℕ) → seen occ class n q ≡ true → (q ≤ r) ⊎ (r' ≤ q))
      → sum (signed_share r) n +ℤ sum (equal_share r) n +ℤ sum (equal_share r') n
        ≡ sum (signed_share r') n
  signed_sum-next r r' l apart =
      sym (
        sum-+ℤ (λ i. signed_share r i +ℤ equal_share r i) (equal_share r') n
        ∙ ap (λ a. a +ℤ sum (equal_share r') n) (sum-+ℤ (signed_share r) (equal_share r) n))
      ∙ sum_congr (λ i. signed_share r i +ℤ equal_share r i +ℤ equal_share r' i) (signed_share r') n
          (λ i m. elim (Bool-cases (occ i)) [
            | inl e ↦ rw e (
                signed-next r r' (class i) (opp i) l
                  (apart (class i) (seen_complete occ class n (class i) i m e refl)))
            | inr e ↦ rw e (omega int_laws)
          ])
