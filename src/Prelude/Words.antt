-- ===== src/Prelude/Words.antt =====
-- The saturating and checked operations of the 64-bit unsigned integers (`u64`, and `usize` on the
-- platforms the program ships for). A value is a plain number; its range is a hypothesis.
use Prim.Native.Nat.{ℕ, ◌+◌, ◌-◌, ◌≤◌}
use mathlib.Core.Path.{◌≡◌}
use mathlib.Core.Option.{Option, none, some}
use native.Mathlib.Omega.{arith}
use micromux.Prelude.Tests.{leb, if◌then◌else◌}

abbrev pub u64_max : ℕ
u64_max = 18446744073709551615

abbrev pub saturating_add : ℕ → ℕ → ℕ
saturating_add a b = if leb (a + b) u64_max then a + b else u64_max

abbrev pub checked_add : ℕ → ℕ → Option ℕ
checked_add a b = if leb (a + b) u64_max then some (a + b) else none

-- `saturating_sub` is the truncated subtraction of the natural numbers.
abbrev pub saturating_sub : ℕ → ℕ → ℕ
saturating_sub a b = a - b

pub saturating_add_lem : (a b : ℕ) → a + b ≤ u64_max → saturating_add a b ≡ a + b
saturating_add_lem a b h = ground arith
