-- ===== src/Model/IntervalsGoal.antt =====
-- `IntervalsGoalConfig` of src/sysfs/configuration/model.rs: auto-tuning of the sampling interval.
use damon_rs.Common.{ℕ, ◌*◌, ◌≤◌, ◌≡◌, ◌⊎◌, ◌↔◌, ◌||◌, ltb, ◌==◌, u64_max, if◌then◌else◌, arith}
use damon_rs.Error.{Result, ok, ◌>>=◌, ◌>>◌, done, invalid_if}
use damon_rs.Error.Checks.{Passes}
use damon_rs.Config.Duration.{Duration, zero_duration, as_micros, exact_micros}
use damon_rs.Config.MonitoringIntervals.{MonitoringIntervals, sample}

pub record IntervalsGoalConfig : Type 0 where
  pub access_basis_points : ℕ
  pub aggregation_intervals : ℕ
  pub minimum_sample : Duration
  pub maximum_sample : Duration

abbrev pub default : IntervalsGoalConfig
default = record {
  access_basis_points = 0;
  aggregation_intervals = 0;
  minimum_sample = zero_duration;
  maximum_sample = zero_duration;
}

-- What `values` returns: the fields, with the durations in microseconds.
pub record GoalValues : Type 0 where
  pub access : ℕ
  pub aggregations : ℕ
  pub minimum : ℕ
  pub maximum : ℕ

unfoldable pub values : IntervalsGoalConfig → Result GoalValues
values goal = do
  minimum ← exact_micros "minimum sample interval" goal.minimum_sample
  maximum ← exact_micros "maximum sample interval" goal.maximum_sample
  ok (record {
    access = goal.access_basis_points;
    aggregations = goal.aggregation_intervals;
    minimum = minimum;
    maximum = maximum;
  })

unfoldable pub validate_values : GoalValues → ℕ → Result (Unit {0})
validate_values v sample_us = if v.aggregations == 0 then done else (do
  invalid_if (ltb 10000 v.access) "monitoring intervals goal access rate"
      "must be at most 10000 basis points"
  invalid_if (ltb v.maximum v.minimum) "monitoring intervals goal"
      "minimum sample interval must not exceed maximum"
  invalid_if (ltb sample_us v.minimum || ltb v.maximum sample_us) "monitoring intervals goal"
      "current sample interval must be within the tuning range")

unfoldable pub validate_for : IntervalsGoalConfig → MonitoringIntervals → Result (Unit {0})
unfolding values validate_values
validate_for goal intervals = do v ← values goal; validate_values v (as_micros (sample intervals))

-- The range is in whole microseconds. An enabled goal has a rate in basis points, and the current
-- sampling interval lies in the range.
pub record IsValidIntervalsGoal (goal : IntervalsGoalConfig) (intervals : MonitoringIntervals)
    : Type 0 where
  pub minimum : (n : ℕ) × (n * 1000 ≡ goal.minimum_sample) × (n ≤ u64_max)
  pub maximum : (n : ℕ) × (n * 1000 ≡ goal.maximum_sample) × (n ≤ u64_max)
  pub tuned :
      (goal.aggregation_intervals ≡ 0)
      ⊎ ((goal.access_basis_points ≤ 10000)
          × (goal.minimum_sample ≤ sample intervals)
          × (sample intervals ≤ goal.maximum_sample))

-- The validation accepts exactly the goals whose range is in whole microseconds and which are
-- disabled, or have a rate of at most 10000 and a range that holds the current sampling interval.
pub validate_for-IsValidIntervalsGoal :
    (goal : IntervalsGoalConfig) (intervals : MonitoringIntervals)
    → Passes (validate_for goal intervals) ↔ IsValidIntervalsGoal goal intervals
unfolding validate_for exact_micros
validate_for-IsValidIntervalsGoal goal intervals = (
  λ h. record {
    minimum = (as_micros goal.minimum_sample, ground arith, ground arith);
    maximum = (as_micros goal.maximum_sample, ground arith, ground arith);
    tuned = ground arith;
  },
  λ v. ground arith,
)
