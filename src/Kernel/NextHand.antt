-- ===== src/Kernel/NextHand.antt =====
-- How one more hand with a card changes the ranks in which the card is seen, for the skipping lists of
-- modules/engine/src/term_eval_kernel.cpp.
use bulldog.Prelude.{
  ℕ, suc, ◌+◌, ◌≤◌, ◌<◌, ◌≡◌, ◌≢◌, refl, ap, ◌∙◌, Bool, true, false, ◌==◌, arith, bit, count,
}
use bulldog.Kernel.Rows.{
  seen, count_at, count_split, row_inj, seen_sound, seen_before, seen_after, seen_complete,
}

module _ (occ : ℕ → Bool) (class : ℕ → ℕ) (num_hands : ℕ)
    (ordered : (i i' : ℕ) → i < i' → i' < num_hands → class i ≤ class i') (j : ℕ)
    (l : j < num_hands) (o : occ j ≡ true) where
  abbrev row_of : ℕ → ℕ
  row_of = count (seen occ class num_hands)

  pub all_seen : (q : ℕ) → seen occ class j q ≡ true → seen occ class num_hands q ≡ true
  all_seen q e =
      let (i, a, b, d) = seen_sound occ class j q e in
      seen_complete occ class num_hands q i (omega arith) b d

  pub own_seen : seen occ class num_hands (class j) ≡ true
  own_seen = seen_complete occ class num_hands (class j) j l o refl

  pub other_row :
      (q : ℕ) → (class j == q) ≡ false → seen occ class j q ≡ true → row_of (class j) ≢ row_of q
  other_row q d e z =
      let same : class j ≡ q =
        row_inj (seen occ class num_hands) (class j) q own_seen (all_seen q e) z in
      ground arith

  pub seen-other : (q : ℕ) → (class j == q) ≡ false → seen occ class (suc j) q ≡ seen occ class j q
  unfolding seen
  seen-other q d = ground arith

  pub seen-own : seen occ class (suc j) (class j) ≡ true
  seen-own = seen_complete occ class (suc j) (class j) j (omega arith) o refl

  pub count-own :
      (ranks : ℕ) → class j < ranks → count (seen occ class (suc j)) ranks ≡ suc (row_of (class j))
  count-own ranks u =
      count_split (seen occ class num_hands) (seen occ class (suc j)) (class j) ranks u
        (λ q a. seen-other q (ground arith) ∙ seen_before occ class num_hands j l ordered q a)
        (λ q a. seen-other q (ground arith) ∙ seen_after occ class num_hands j l ordered q a)
      ∙ ap (λ b. row_of (class j) + bit b) seen-own
      ∙ plus_one (row_of (class j))
    where
      plus_one : (n : ℕ) → n + 1 ≡ suc n
      plus_one n = omega arith

  -- If the card is new in the rank, the row before is of an earlier rank, where it was seen.
  pub row-before :
      (n : ℕ)
      → row_of (class j) ≡ suc n
      → (q : ℕ) × (q < class j)
        × (seen occ class num_hands q ≡ true)
        × (seen occ class j q ≡ true)
        × (row_of q ≡ n)
  row-before n e =
      let (q, a, b, d) = count_at (seen occ class num_hands) (class j) n (omega arith) in
      (q, a, b, seen_before occ class num_hands j l ordered q a ∙ b, d)
