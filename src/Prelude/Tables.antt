-- ===== src/Prelude/Tables.antt =====
-- Checking a Boolean test at every number below a bound, by evaluation.
use Prim.Native.Nat.{ℕ, zero, suc, ◌<◌}
use mathlib.Core.Path.{◌≡◌}
use mathlib.Core.Bool.{Bool, true, false}
use native.Mathlib.Omega.{arith}
use perfexpert.Prelude.Tests.{if◌then◌else◌}

unfoldable pub holds_below : (ℕ → Bool) → ℕ → Bool
holds_below test zero = true
holds_below test (suc bound) = if test bound then holds_below test bound else false

pub holds_below_lem :
    (test : ℕ → Bool) (bound : ℕ)
    → holds_below test bound ≡ true
    → (i : ℕ) → i < bound
    → test i ≡ true
unfolding holds_below
holds_below_lem test zero all i below = elim below [ ]
holds_below_lem test (suc bound) all i below =
    let before : holds_below test bound ≡ true → i < bound → test i ≡ true =
      λ smaller lower. holds_below_lem test bound smaller i lower in
    ground (arith, before)

-- The same for two numbers.
abbrev pub holds_for_pairs : (ℕ → ℕ → Bool) → (rows columns : ℕ) → Bool
holds_for_pairs test rows columns = holds_below (λ i. holds_below (test i) columns) rows

pub holds_for_pairs_lem :
    (test : ℕ → ℕ → Bool) (rows columns : ℕ)
    → holds_for_pairs test rows columns ≡ true
    → (i j : ℕ) → i < rows
    → j < columns
    → test i j ≡ true
holds_for_pairs_lem test rows columns all i j row column =
    holds_below_lem (test i) columns (holds_below_lem _ rows all i row) j column
