-- ===== src/Config/Pid.antt =====
-- `Pid` of src/config.rs: a process identifier that DAMON's virtual-address operations accept.
use damon_rs.Common.{
  ℕ, ◌≤◌, ◌<◌, ◌≡◌, ◌↔◌, refl, String, arith, ◌||◌, ◌==◌, ltb, i32_max, u32_max, parse_unsigned,
  codes,
}
use damon_rs.Error.{Result, ok, ◌>>=◌, ◌>>◌, ok_or, invalid_if, invalid_configuration}

pub record Pid : Type 0 where
  pub raw : ℕ

unfoldable pub new : ℕ → Result Pid
new raw = do
  invalid_if (raw == 0 || ltb i32_max raw) "pid" "must be between 1 and i32::MAX"
  ok (record { raw = raw })

unfoldable pub from_str : String → Result Pid
unfolding new
from_str value = do
  raw ←
      ok_or (parse_unsigned u32_max (codes value))
        (invalid_configuration "pid" "must be a positive 32-bit decimal process identifier")
  new raw

pub record IsValidPid (pid : Pid) : Type 0 where
  pub positive : 0 < pid.raw
  pub fits : pid.raw ≤ i32_max

pub new-IsValidPid : (n : ℕ) (p : Pid) → (new n ≡ ok p) ↔ ((p.raw ≡ n) × (0 < n) × (n ≤ i32_max))
unfolding new
new-IsValidPid n p = (λ h. ground arith, λ h. ground arith)

-- A text that parses as a process identifier gives a valid one, from 1 to i32::MAX.
pub from_str-IsValidPid : (s : String) (p : Pid) → from_str s ≡ ok p → IsValidPid p
unfolding from_str
from_str-IsValidPid s p h = ground arith

from_str_decimal : from_str "42" ≡ ok (record { raw = 42 })
unfolding from_str parse_unsigned
from_str_decimal = refl
