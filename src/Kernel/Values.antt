-- ===== src/Kernel/Values.antt =====
-- The loops over the player's hands in modules/engine/src/term_eval_kernel.cpp.
use bulldog.Prelude.{
  ℕ, zero, suc, ◌<◌, ◌≡◌, ◌≢◌, refl, sym, ap, ◌∙◌, ◌==◌, arith, Bool-cases, inl, inr, if◌then◌else◌,
  update, update_self, update_ne,
}
use bulldog.Prelude.Int.{ℤ, ◌==ℤ◌}
use bulldog.Kernel.{set_values}

-- What the loops over the player's hands leave of a hand.
module _ (mask : ℤ) (idx : ℕ → ℕ) (value : ℕ → ℤ) where
  abbrev one_value : ℕ → (ℕ → ℤ) → ℕ → ℤ
  one_value j b = if b (idx j) ==ℤ mask then b else update b (idx j) (value j)

  other_value : (j x : ℕ) (b : ℕ → ℤ) → idx j ≢ x → one_value j b x ≡ b x
  other_value j x b n = elim (Bool-cases (b (idx j) ==ℤ mask)) [
    | inl e ↦ rw e refl
    | inr e ↦ rw e (update_ne b (idx j) (value j) x n)
  ]

  own_value :
      (j : ℕ) (b : ℕ → ℤ)
      → one_value j b (idx j) ≡ (if b (idx j) ==ℤ mask then b (idx j) else value j)
  own_value j b = elim (Bool-cases (b (idx j) ==ℤ mask)) [
    | inl e ↦ rw e refl
    | inr e ↦ rw e (update_self b (idx j) (value j))
  ]

  pub untouched :
      (n x : ℕ) (my : ℕ → ℤ)
      → ((i : ℕ) → i < n → idx i ≢ x)
      → set_values mask idx value n my x ≡ my x
  unfolding set_values
  untouched zero x my d = refl
  untouched (suc n) x my d =
      other_value n x (set_values mask idx value n my) (d n (omega arith))
      ∙ untouched n x my (λ i l. d i (omega arith))

  pub set_values-value :
      (n j : ℕ) (my : ℕ → ℤ)
      → j < n
      → ((i i' : ℕ) → i < n → i' < n → idx i ≡ idx i' → i ≡ i')
      → set_values mask idx value n my (idx j)
        ≡ (if my (idx j) ==ℤ mask then my (idx j) else value j)
  unfolding set_values
  set_values-value zero j my l d = absurd (omega arith)
  set_values-value (suc n) j my l d = elim (Bool-cases (j == n)) [
    | inl e ↦
        let same : j ≡ n = ground arith in
        let still : set_values mask idx value n my (idx n) ≡ my (idx n) =
          untouched n (idx n) my (λ i m q. omega (arith, d i n (omega arith) (omega arith) q)) in
        ap (λ x. set_values mask idx value (suc n) my (idx x)) same
        ∙ own_value n (set_values mask idx value n my)
        ∙ ap (λ a. if a ==ℤ mask then a else value n) still
        ∙ ap (λ x. if my (idx x) ==ℤ mask then my (idx x) else value x) (sym same)
    | inr e ↦
        other_value n (idx j) (set_values mask idx value n my)
          (λ q. ground (arith, d n j (omega arith) l q))
        ∙ set_values-value n j my (ground arith) (λ i i' u v. d i i' (omega arith) (omega arith))
  ]
