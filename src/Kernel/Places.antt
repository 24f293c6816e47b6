-- ===== src/Kernel/Places.antt =====
-- Where the hands of a rank stand in the sorted order of modules/engine/src/term_eval_kernel.cpp.
use bulldog.Prelude.{
  ℕ, zero, suc, ◌≤◌, ◌<◌, ◌≡◌, ap, ◌==◌, ltb, arith, Bool-cases, inl, inr, ltb→lt,
}
use bulldog.Kernel.{Kernel}
use bulldog.Kernel.Prepared.{IsPrepared}

module _ {k : Kernel} {num_hands : ℕ} {class start : ℕ → ℕ}
    (h : IsPrepared k num_hands class start) where
  -- The rank of the hand at a place.
  located :
      (m n i : ℕ)
      → n ≤ k.unique_rank_count
      → start m ≤ i
      → i < start n
      → m ≤ n
      → (q : ℕ) × (m ≤ q) × (q < n) × (start q ≤ i) × (i < start (suc q))
  located m zero i u a b l = let e : m ≡ 0 = omega arith in absurd (omega (arith, ap start e))
  located m (suc n) i u a b l = elim (Bool-cases (ltb i (start n))) [
    | inl e ↦ elim (Bool-cases (m == suc n)) [
      | inl q ↦ let z : m ≡ suc n = ground arith in absurd (omega (arith, ap start z))
      | inr q ↦
          let (q, c, d, f, g) =
            located m n i (omega arith) a (ltb→lt i (start n) e) (ground arith) in
          (q, c, omega arith, f, g)
    ]
    | inr e ↦ elim (Bool-cases (m == suc n)) [
      | inl q ↦ let z : m ≡ suc n = ground arith in absurd (omega (arith, ap start z))
      | inr q ↦ (n, ground arith, omega arith, ground arith, b)
    ]
  ]

  pub later_class :
      (r i : ℕ) → r < k.unique_rank_count → start (suc r) ≤ i → i < num_hands → r < class i
  later_class r i u a b =
      let (q, c, d, f, g) =
        located (suc r) k.unique_rank_count i (omega arith) a (omega (arith, h.ends)) u in
      let (_, e) = h.within q i d f g in omega (arith, e)

  start_mono : (m n : ℕ) → m ≤ n → n ≤ k.unique_rank_count → start m ≤ start n
  start_mono m zero l u = let e : m ≡ 0 = omega arith in omega (arith, ap start e)
  start_mono m (suc n) l u = elim (Bool-cases (m == suc n)) [
    | inl e ↦ let z : m ≡ suc n = ground arith in omega (arith, ap start z)
    | inr e ↦ omega (arith, start_mono m n (ground arith) (omega arith), h.grows n u)
  ]

  pub start_le : (r : ℕ) → r ≤ k.unique_rank_count → start r ≤ num_hands
  start_le r u = omega (arith, start_mono r k.unique_rank_count u (omega arith), h.ends)
