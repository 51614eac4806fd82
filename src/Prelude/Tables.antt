-- ===== src/Prelude/Tables.antt =====
-- Facts about every number below a small bound, by evaluation.
use Prim.Native.Nat.{ℕ, zero, suc, ◌<◌}
use mathlib.Core.Path.{◌≡◌}
use mathlib.Core.Bool.{Bool, true, ◌&&◌}
use native.Mathlib.Omega.{arith}

-- The test holds at 0 and, moved by one, below the predecessor.
unfoldable pub all_below : ℕ → (ℕ → Bool) → Bool
all_below zero test = true
all_below (suc bound) test = test 0 && all_below bound (λ k. test (suc k))

pub all_below_sound :
    (bound : ℕ) (test : ℕ → Bool) (k : ℕ) → all_below bound test ≡ true → k < bound → test k ≡ true
unfolding all_below
all_below_sound zero test k all_true small = absurd (omega arith)
all_below_sound (suc bound) test zero all_true small = ground arith
all_below_sound (suc bound) test (suc k) all_true small =
    all_below_sound bound (λ j. test (suc j)) k (ground arith) (omega arith)
