-- ===== src/Abi/RoundTrip.antt =====
-- The names of all the kernel values that an unknown name may extend.
use damon_rs.Common.{◌≡◌, String}
use damon_rs.Abi.Operation
use damon_rs.Abi.Action
use damon_rs.Abi.ProbeFilterType
use damon_rs.Abi.SchemeFilterType
use damon_rs.Abi.ProbePreparationAction
use damon_rs.Abi.SampleFilterType
use damon_rs.Abi.WatermarkMetric
use damon_rs.Abi.QuotaGoalMetric
use damon_rs.Abi.QuotaGoalTuner

-- A text read as an operation, an action, a filter type, a preparation, a metric or a tuner is
-- written back unchanged, also one that a newer kernel introduced.
pub kernel_name_round_trip :
    (s : String)
    → (Operation.kernel_name (Operation.parse s) ≡ s)
      × (Action.kernel_name (Action.parse s) ≡ s)
      × (ProbeFilterType.kernel_name (ProbeFilterType.parse s) ≡ s)
      × (SchemeFilterType.kernel_name (SchemeFilterType.parse s) ≡ s)
      × (ProbePreparationAction.kernel_name (ProbePreparationAction.parse s) ≡ s)
      × (SampleFilterType.kernel_name (SampleFilterType.parse s) ≡ s)
      × (WatermarkMetric.kernel_name (WatermarkMetric.parse s) ≡ s)
      × (QuotaGoalMetric.kernel_name (QuotaGoalMetric.parse s) ≡ s)
      × (QuotaGoalTuner.kernel_name (QuotaGoalTuner.parse s) ≡ s)
kernel_name_round_trip s = (
  Operation.kernel_name-parse s,
  Action.kernel_name-parse s,
  ProbeFilterType.kernel_name-parse s,
  SchemeFilterType.kernel_name-parse s,
  ProbePreparationAction.kernel_name-parse s,
  SampleFilterType.kernel_name-parse s,
  WatermarkMetric.kernel_name-parse s,
  QuotaGoalMetric.kernel_name-parse s,
  QuotaGoalTuner.kernel_name-parse s,
)
