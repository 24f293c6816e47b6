-- ===== src/Kernel/Prepare/Ranks.antt =====
-- The size of `rank_set` in `Prepare` of modules/engine/src/term_eval_kernel.cpp.
use bulldog.Prelude.{
  ℕ, zero, suc, ◌<◌, ◌≡◌, refl, sym, ap, ◌∙◌, Bool, true, ◌||◌, ◌==◌, arith, Bool-cases, inl, inr,
  List, [], count, count_drop, count_none,
}
use bulldog.Cards.Valid.{contains, length, insert}
use bulldog.Kernel.Rows.{seen}

pub seen_congr :
    (occ : ℕ → Bool) (f g : ℕ → ℕ) (n r : ℕ)
    → ((i : ℕ) → i < n → f i ≡ g i)
    → seen occ f n r ≡ seen occ g n r
unfolding seen
seen_congr occ f g zero r e = refl
seen_congr occ f g (suc n) r e =
    let z : f n ≡ g n = e n (omega arith) in
    ground (arith, seen_congr occ f g n r (λ i l. e i (omega arith)), z)

contains-insert : (c r : ℕ) (xs : List ℕ) → contains r (insert c xs) ≡ (contains r xs || c == r)
unfolding contains
contains-insert c r xs = elim (Bool-cases (contains c xs)) [
  | inl e ↦ rw e (elim (Bool-cases (c == r)) [
    | inl q ↦ let z : c ≡ r = ground arith in ground (arith, e, ap (λ r. contains r xs) z)
    | inr q ↦ ground arith
  ])
  | inr e ↦ rw e (ground arith)
]

insert-size :
    (c bound : ℕ) (xs : List ℕ)
    → c < bound
    → length xs ≡ count (λ r. contains r xs) bound
    → length (insert c xs) ≡ count (λ r. contains r (insert c xs)) bound
unfolding length contains
insert-size c bound xs l h = elim (Bool-cases (contains c xs)) [
  | inl e ↦ rw e h
  | inr e ↦ rw e (
      ap suc h
      ∙ sym (
          count_drop (λ r. c == r || contains r xs) (λ r. contains r xs) bound c l (ground arith) e
            (λ r n. ground arith)))
]

-- The set holds the ranks of the hands, each once.
pub record IsRankSet (rank : ℕ → ℕ) (n bound : ℕ) (xs : List ℕ) : Type 0 where
  pub members : (r : ℕ) → contains r xs ≡ seen (λ i. true) rank n r
  pub size : length xs ≡ count (λ r. contains r xs) bound

pub nil-IsRankSet : (rank : ℕ → ℕ) (bound : ℕ) → IsRankSet rank 0 bound []
unfolding contains seen length
nil-IsRankSet rank bound = record {
  members = λ r. refl;
  size = sym (count_none (λ r. contains r []) bound (λ r l. refl));
}

pub insert-IsRankSet :
    (rank : ℕ → ℕ) (n bound : ℕ) (xs : List ℕ)
    → rank n < bound
    → IsRankSet rank n bound xs
    → IsRankSet rank (suc n) bound (insert (rank n) xs)
unfolding seen
insert-IsRankSet rank n bound xs l h = record {
  members = λ r. contains-insert (rank n) r xs ∙ ap (λ b. b || (rank n == r)) (h.members r);
  size = insert-size (rank n) bound xs l h.size;
}
