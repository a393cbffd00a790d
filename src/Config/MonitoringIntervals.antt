-- ===== src/Config/MonitoringIntervals.antt =====
-- `MonitoringIntervals` of src/config.rs: the sampling, aggregation and operations-update
-- intervals.
use damon_rs.Common.{ℕ, ◌≤◌, ◌≡◌, ◌↔◌, arith, ltb, u64_max}
use damon_rs.Error.{Result, ok, ◌>>=◌, ◌>>◌, invalid_if}
use damon_rs.Config.Duration.{Duration, from_micros, duration_micros}

pub record MonitoringIntervals : Type 0 where
  pub sample_us : ℕ
  pub aggregation_us : ℕ
  pub update_us : ℕ

unfoldable pub new : Duration → Duration → Duration → Result MonitoringIntervals
new sample aggregation update = do
  sample_us ← duration_micros "sample interval" sample
  aggregation_us ← duration_micros "aggregation interval" aggregation
  update_us ← duration_micros "operations update interval" update
  invalid_if (ltb aggregation_us sample_us) "monitoring intervals"
      "sample interval must not exceed aggregation interval"
  ok (record { sample_us = sample_us; aggregation_us = aggregation_us; update_us = update_us })

abbrev pub sample : MonitoringIntervals → Duration
sample i = from_micros i.sample_us

abbrev pub aggregation : MonitoringIntervals → Duration
aggregation i = from_micros i.aggregation_us

abbrev pub update : MonitoringIntervals → Duration
update i = from_micros i.update_us

abbrev pub default : MonitoringIntervals
default = record { sample_us = 5000; aggregation_us = 100000; update_us = 60000000 }

pub record IsValidIntervals (i : MonitoringIntervals) : Type 0 where
  pub ordered : i.sample_us ≤ i.aggregation_us
  pub sample_fits : i.sample_us ≤ u64_max
  pub aggregation_fits : i.aggregation_us ≤ u64_max
  pub update_fits : i.update_us ≤ u64_max

-- Construction from three durations gives intervals exactly where the intervals are valid, with
-- whole microseconds in u64 and the sampling interval no longer than the aggregation, and their
-- getters return the three durations.
pub new-IsValidIntervals :
    (s a u : Duration) (i : MonitoringIntervals)
    → (new s a u ≡ ok i)
      ↔ (IsValidIntervals i × (sample i ≡ s) × (aggregation i ≡ a) × (update i ≡ u))
unfolding new duration_micros
new-IsValidIntervals s a u i = (λ h. ground arith, λ h. ground arith)

pub default-IsValidIntervals : IsValidIntervals default
default-IsValidIntervals = omega arith
