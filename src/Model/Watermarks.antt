-- ===== src/Model/Watermarks.antt =====
-- `WatermarksConfig` of src/sysfs/configuration/model/scheme.rs.
use damon_rs.Common.{ℕ, ◌≤◌, ◌<◌, ◌↔◌, refl, ◌||◌, ltb, ◌==◌, arith, u64_max}
use damon_rs.Error.{Result, ◌>>◌, done, invalid_if}
use damon_rs.Error.Checks.{Passes}
use damon_rs.Validate.{validate_token}
use damon_rs.Validate.Text.{IsToken, validate_token-IsToken}
use damon_rs.Validate.Exact.{check_exact_micros, IsWhole, check_exact_micros-IsWhole}
use damon_rs.Config.Duration.{Duration, zero_duration}
use damon_rs.Abi.WatermarkMetric.{WatermarkMetric, disabled, free_memory_rate, unknown, kernel_name}

pub record WatermarksConfig : Type 0 where
  pub metric : WatermarkMetric
  pub interval : Duration
  pub high : ℕ
  pub middle : ℕ
  pub low : ℕ

abbrev pub default : WatermarksConfig
default = record { metric = disabled; interval = zero_duration; high = 0; middle = 0; low = 0 }

unfoldable pub validate_rates : WatermarkMetric → WatermarksConfig → Result (Unit {0})
validate_rates free_memory_rate w = do
  invalid_if (w.interval == zero_duration) "watermark interval"
      "must be non-zero when free-memory watermarks are enabled"
  invalid_if (ltb 1000 w.high || (ltb 1000 w.middle || ltb 1000 w.low)) "free-memory watermarks"
      "values must be at most 1000 parts per thousand"
  invalid_if (ltb w.high w.middle || ltb w.middle w.low) "watermarks"
      "values must be ordered high >= middle >= low"
validate_rates _ w = done

unfoldable pub validate : WatermarksConfig → Result (Unit {0})
unfolding validate_rates
validate w = do
  validate_token "watermark metric" (kernel_name w.metric)
  check_exact_micros "watermark interval" w.interval
  validate_rates w.metric w

-- The rates of an enabled metric are ordered parts per thousand, checked at some interval.
abbrev pub HasRates : WatermarkMetric → WatermarksConfig → Type 0
HasRates free_memory_rate w =
    (0 < w.interval) × (w.low ≤ w.middle) × (w.middle ≤ w.high) × (w.high ≤ 1000)
HasRates _ w = Unit

pub record IsValidWatermarks (w : WatermarksConfig) : Type 0 where
  pub token : IsToken (kernel_name w.metric)
  pub whole : IsWhole 1000 u64_max w.interval
  pub rates : HasRates w.metric w

rates_iff :
    (m : WatermarkMetric) (w : WatermarksConfig) → Passes (validate_rates m w) ↔ HasRates m w
unfolding validate_rates
rates_iff free_memory_rate w = (λ h. ground arith, λ h. ground arith)
rates_iff disabled w = (λ h. tt, λ h. refl)
rates_iff (unknown name) w = (λ h. tt, λ h. refl)

-- The validation accepts exactly the watermarks with a token for a name and an interval of whole
-- microseconds which, for the free-memory metric, have a positive interval and rates with low at
-- most middle, middle at most high and high at most 1000.
pub validate-IsValidWatermarks : (w : WatermarksConfig) → Passes (validate w) ↔ IsValidWatermarks w
unfolding validate
validate-IsValidWatermarks w =
    let token = validate_token-IsToken "watermark metric" (kernel_name w.metric) in
    let whole = check_exact_micros-IsWhole "watermark interval" w.interval in
    let rates = rates_iff w.metric w in
    (
      λ h. record {
        token = token.0 (ground arith);
        whole = whole.0 (ground arith);
        rates = rates.0 (ground arith);
      },
      λ v. ground (arith, token.1 v.token, whole.1 v.whole, rates.1 v.rates),
    )
