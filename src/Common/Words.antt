-- ===== src/Common/Words.antt =====
-- Machine integers: the bounds of Rust's types and the checked operations on `u64` and `u32`.
use Prim.Native.Nat.{ℕ}
use mathlib.Core.Bool.{Bool, true, false}
use mathlib.Core.Option.{Option, none, some}
use damon_rs.Common.Tests.{leb, if◌then◌else◌}

abbrev pub u8_max : ℕ
u8_max = 255

abbrev pub u32_max : ℕ
u32_max = 4294967295

abbrev pub i32_max : ℕ
i32_max = 2147483647

abbrev pub u64_max : ℕ
u64_max = 18446744073709551615

-- A value that fits, as `checked_mul`, `checked_add` and `try_from` answer it.
abbrev pub fit : ℕ → ℕ → Option ℕ
fit bound n = if leb n bound then some n else none

-- Rust's `i32`, of which the program asks only the sign and equality: `negsuc n` is -(n + 1).
pub data ℤ : Type 0 where
  pos : ℕ → ℤ
  negsuc : ℕ → ℤ

abbrev pub is_negative : ℤ → Bool
is_negative (pos n) = false
is_negative (negsuc n) = true
