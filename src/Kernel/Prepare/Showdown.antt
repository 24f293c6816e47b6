-- ===== src/Kernel/Prepare/Showdown.antt =====
-- The showdown of a kernel that `PreStack` of modules/engine/src/term_eval_kernel.cpp has prepared.
use bulldog.Prelude.{ℕ, ◌<◌, ◌≡◌, false, some}
use bulldog.Prelude.Int.{ℤ, ◌==ℤ◌}
use bulldog.Kernel.{Kernel, mask_value}
use bulldog.Kernel.ShowdownEval.{fast_showdown_eval, naive_showdown_eval}
use bulldog.Kernel.Showdown.{fast_showdown_eval-value}
use bulldog.Kernel.Prepare.{pre_stack, class_of, start_of, IsSorted}
use bulldog.Kernel.Prepare.Sorted.{pre_stack-IsPrepared}

-- With the hands off the board, each once and sorted by rank, where no card has 46 ranks, and after
-- PreStack: if no hand of the player is masked, FastShowdownEval ends and leaves every hand the value
-- that NaiveShowdownEval leaves.
pub fast_showdown_eval-naive_showdown_eval :
    (k : Kernel) (num_hands bound : ℕ) (fresh : ℕ → ℕ)
    → IsSorted k num_hands bound
    → (one : ℕ) (opp my : ℕ → ℤ) (spent : ℤ)
    → ((j : ℕ) → j < num_hands → (my (k.sorted j).v_idx ==ℤ mask_value one) ≡ false)
    → (v : ℕ → ℤ) × (fast_showdown_eval (pre_stack fresh num_hands k) (mask_value one) opp my spent
        ≡ some v)
      × ((x : ℕ)
          → v x ≡ naive_showdown_eval (pre_stack fresh num_hands k) num_hands one opp my spent x)
fast_showdown_eval-naive_showdown_eval k num_hands bound fresh h one opp my spent unmasked =
    fast_showdown_eval-value (pre_stack fresh num_hands k) num_hands (class_of k num_hands)
      (start_of k num_hands) (pre_stack-IsPrepared h fresh) one opp my spent unmasked
