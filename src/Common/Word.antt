-- ===== src/Common/Word.antt =====
-- `u64` and `usize` on a 64-bit target: a value is a number, and each operation states its range.
use Prim.Native.Nat.{ℕ, ◌+◌, ◌-◌, ◌*◌, ◌≤◌, min}
use mathlib.Core.Path.{◌≡◌}
use mathlib.Core.Option.{Option, none, some}
use native.Mathlib.Omega.{arith}
use llmshim.Common.Tests.{leb, if◌then◌else◌}

-- `usize::MAX`, which is also `u64::MAX`.
abbrev pub usize_max : ℕ
usize_max = 18446744073709551615

unfoldable pub checked_add : ℕ → ℕ → Option ℕ
checked_add a b = if leb (a + b) usize_max then some (a + b) else none

unfoldable pub checked_sub : ℕ → ℕ → Option ℕ
checked_sub a b = if leb b a then some (a - b) else none

unfoldable pub checked_mul : ℕ → ℕ → Option ℕ
checked_mul a b = if leb (a * b) usize_max then some (a * b) else none

unfoldable pub saturating_add : ℕ → ℕ → ℕ
saturating_add a b = min (a + b) usize_max

-- Subtraction on ℕ stops at 0, as `saturating_sub` and `saturating_duration_since` do.
abbrev pub saturating_sub : ℕ → ℕ → ℕ
saturating_sub a b = a - b

pub checked_add-eq_some : (a b c : ℕ) → checked_add a b ≡ some c → (c ≡ a + b) × (c ≤ usize_max)
unfolding checked_add
checked_add-eq_some a b c h = ground arith

pub checked_sub-eq_some : (a b c : ℕ) → checked_sub a b ≡ some c → (c + b ≡ a)
unfolding checked_sub
checked_sub-eq_some a b c h = ground arith

unfoldable pub saturating_mul : ℕ → ℕ → ℕ
saturating_mul a b = min (a * b) usize_max
