-- ===== src/Holdem/Clash.antt =====
-- What `VectorIdxClash` of modules/core/src/card_util.cpp decides.
use bulldog.Prelude.{ℕ, ◌<◌, ◌≡◌, ◌⊎◌, ◌↔◌, sym, ap, ◌∙◌, Bool, true, ◌||◌, ◌==◌, arith, some}
use bulldog.Holdem.{Hand, cards_of, from_vector_index, hands_clash, vector_idx_clash}
use bulldog.Holdem.Index.{hand_at}

-- The hand holds the card.
abbrev pub holds : Hand → ℕ → Bool
holds h c = h.high == c || h.low == c

-- Two hands share a card.
abbrev pub Shares : Hand → Hand → Type 0
Shares a b = (a.high ≡ b.high) ⊎ ((a.high ≡ b.low) ⊎ ((a.low ≡ b.high) ⊎ (a.low ≡ b.low)))

pub hands_clash_iff :
    (a b : Hand) → a.low < a.high → b.low < b.high → (hands_clash a b ≡ true) ↔ Shares a b
unfolding hands_clash
hands_clash_iff a b l m = ((λ e. shared a b l m e), (λ s. ground (arith, s)))
  where
    shared : (a b : Hand) → a.low < a.high → b.low < b.high → hands_clash a b ≡ true → Shares a b
    shared a b l m e = ground arith

-- VectorIdxClash returns true exactly if the two hands, of indices below 1326, share a card.
pub vector_idx_clash_iff :
    (a b : ℕ)
    → a < 1326
    → b < 1326
    → (vector_idx_clash a b ≡ some true) ↔ Shares (cards_of a) (cards_of b)
unfolding vector_idx_clash from_vector_index
vector_idx_clash_iff a b l m =
    let (h, w, x, _, _, e) = hand_at a l in
    let (h', w', y, _, _, e') = hand_at b m in
    let i = hands_clash_iff (cards_of a) (cards_of b) (ground (arith, e)) (ground (arith, e')) in
    ((λ q. i.0 (some-inj (sym (clashes a b l m) ∙ q))), (λ s. clashes a b l m ∙ ap some (i.1 s)))
  where
    clashes :
        (a b : ℕ)
        → a < 1326
        → b < 1326
        → vector_idx_clash a b ≡ some (hands_clash (cards_of a) (cards_of b))
    clashes a b l m = ground arith

    some-inj : {x y : Bool} → some x ≡ some y → x ≡ y
    some-inj q = cc
