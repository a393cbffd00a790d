-- ===== src/Config/Duration.antt =====
-- `std::time::Duration` as far as the crate uses it, and the exact conversions to whole
-- microseconds and milliseconds of src/config.rs, src/sysfs/io.rs and
-- src/sysfs/configuration/helpers.rs. A duration is its number of nanoseconds: Rust's seconds and
-- sub-second part, joined.
use damon_rs.Common.{
  ℕ, ◌*◌, ◌/◌, ◌≤◌, ◌≡◌, ◌↔◌, String, arith, ◌==◌, fit, u32_max, u64_max, if◌then◌else◌,
}
use damon_rs.Error.{Result, ok, ◌>>=◌, ok_or, invalid, invalid_configuration}

abbrev pub Duration : Type 0
Duration = ℕ

abbrev pub zero_duration : Duration
zero_duration = 0

abbrev pub as_micros : Duration → ℕ
as_micros d = d / 1000

abbrev pub as_millis : Duration → ℕ
as_millis d = d / 1000000

abbrev pub from_micros : ℕ → Duration
from_micros n = n * 1000

abbrev pub from_millis : ℕ → Duration
from_millis n = n * 1000000

unfoldable pub exact_micros : String → Duration → Result ℕ
exact_micros field duration = do
  micros ←
      ok_or (fit u64_max (as_micros duration))
        (invalid_configuration field "does not fit in 64-bit microseconds")
  if from_micros micros == duration
      then ok micros
      else invalid field "must be exactly representable in whole microseconds"

unfoldable pub exact_millis : String → Duration → Result ℕ
exact_millis field duration = do
  millis ←
      ok_or (fit u64_max (as_millis duration))
        (invalid_configuration field "does not fit in 64-bit milliseconds")
  if from_millis millis == duration
      then ok millis
      else invalid field "must be exactly representable in whole milliseconds"

unfoldable pub exact_refresh_millis : Duration → Result ℕ
unfolding exact_millis
exact_refresh_millis duration = do
  millis ← exact_millis "refresh interval" duration
  ok_or (fit u32_max millis)
      (invalid_configuration "refresh interval" "does not fit the kernel unsigned-int range")

-- `duration_micros` of src/config.rs, which has the text of `exact_micros`.
unfoldable pub duration_micros : String → Duration → Result ℕ
duration_micros field duration = do
  micros ←
      ok_or (fit u64_max (as_micros duration))
        (invalid_configuration field "does not fit in 64-bit microseconds")
  if from_micros micros == duration
      then ok micros
      else invalid field "must be exactly representable in whole microseconds"

-- `duration_millis` of src/sysfs/io.rs
unfoldable pub duration_millis : Duration → Result ℕ
duration_millis duration = do
  milliseconds ←
      ok_or (fit u32_max (as_millis duration))
        (invalid_configuration "refresh interval" "does not fit in the kernel unsigned-int range")
  if from_millis milliseconds == duration
      then ok milliseconds
      else invalid "refresh interval" "must be exactly representable in whole milliseconds"

-- `n` units of `unit` nanoseconds are exactly the duration, and fit the bound.
abbrev pub IsExact : ℕ → ℕ → Duration → ℕ → Type 0
IsExact unit bound d n = (n * unit ≡ d) × (n ≤ bound)

pub exact_micros-IsExact :
    (f : String) (d n : ℕ) → (exact_micros f d ≡ ok n) ↔ IsExact 1000 u64_max d n
unfolding exact_micros
exact_micros-IsExact f d n = (λ h. ground arith, λ h. ground arith)

pub exact_millis-IsExact :
    (f : String) (d n : ℕ) → (exact_millis f d ≡ ok n) ↔ IsExact 1000000 u64_max d n
unfolding exact_millis
exact_millis-IsExact f d n = (λ h. ground arith, λ h. ground arith)

pub duration_micros-IsExact :
    (f : String) (d n : ℕ) → (duration_micros f d ≡ ok n) ↔ IsExact 1000 u64_max d n
unfolding duration_micros
duration_micros-IsExact f d n = (λ h. ground arith, λ h. ground arith)

-- The conversion of a duration gives a number exactly where that many milliseconds are the
-- duration and the number fits u32.
pub exact_refresh_millis-IsExact :
    (d n : ℕ) → (exact_refresh_millis d ≡ ok n) ↔ IsExact 1000000 u32_max d n
unfolding exact_refresh_millis
exact_refresh_millis-IsExact d n = (λ h. ground arith, λ h. ground arith)

-- The two conversions of a refresh interval accept the same durations, with the same result.
pub duration_millis-IsExact : (d n : ℕ) → (duration_millis d ≡ ok n) ↔ IsExact 1000000 u32_max d n
unfolding duration_millis
duration_millis-IsExact d n = (λ h. ground arith, λ h. ground arith)
