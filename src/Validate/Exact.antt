-- ===== src/Validate/Exact.antt =====
-- A conversion of a duration that is made for its check alone, `exact_millis(field, value)?;`.
use damon_rs.Common.{ℕ, ◌*◌, ◌/◌, ◌≤◌, ◌≡◌, ◌↔◌, String, u32_max, u64_max, arith}
use damon_rs.Error.{Result, ◌>>=◌, done}
use damon_rs.Error.Checks.{Passes}
use damon_rs.Config.Duration.{Duration, exact_micros, exact_millis, exact_refresh_millis}

abbrev pub check_exact_micros : String → Duration → Result (Unit {0})
check_exact_micros field duration = exact_micros field duration >>= λ micros. done

abbrev pub check_exact_millis : String → Duration → Result (Unit {0})
check_exact_millis field duration = exact_millis field duration >>= λ millis. done

abbrev pub check_exact_refresh_millis : Duration → Result (Unit {0})
check_exact_refresh_millis duration = exact_refresh_millis duration >>= λ millis. done

-- A whole number of units that fits the bound.
abbrev pub IsWhole : ℕ → ℕ → Duration → Type 0
IsWhole unit bound d = (n : ℕ) × (n * unit ≡ d) × (n ≤ bound)

pub check_exact_micros-IsWhole :
    (f : String) (d : Duration) → Passes (check_exact_micros f d) ↔ IsWhole 1000 u64_max d
unfolding exact_micros
check_exact_micros-IsWhole f d = (λ h. (d / 1000, ground arith, ground arith), λ h. ground arith)

pub check_exact_millis-IsWhole :
    (f : String) (d : Duration) → Passes (check_exact_millis f d) ↔ IsWhole 1000000 u64_max d
unfolding exact_millis
check_exact_millis-IsWhole f d = (λ h. (d / 1000000, ground arith, ground arith), λ h. ground arith)

pub check_exact_refresh_millis-IsWhole :
    (d : Duration) → Passes (check_exact_refresh_millis d) ↔ IsWhole 1000000 u32_max d
unfolding exact_refresh_millis
check_exact_refresh_millis-IsWhole d =
    (λ h. (d / 1000000, ground arith, ground arith), λ h. ground arith)
