-- ===== src/Examples/Conversions.antt =====
-- Values, names, regions and files.
use damon_rs.Common.{
  ◌≤◌, u64_max, ℕ, ◌≡◌, ◌⊎◌, ◌↔◌, ◌++◌, [], ◌∷◌, Bool, List, true, some, none, map, arith, refl,
  String, inr,
}
use damon_rs.Error.{Result, ok, err, io, write_zero, interrupted}
use damon_rs.Io.Write.{
  Write, wrote, failed, write_once, write_bytes, record_write, write_all, collect_writes, returned,
}
use damon_rs.Io.Write.Journal.{Journaled, collect_writes-Journaled}
use damon_rs.Config.AddressUnit.{to_bytes, units_from_bytes_exact, to_bytes-units_from_bytes_exact}
use damon_rs.Model.Align.{aligned_end}
use damon_rs.Model.Align.Rounding.{IsRoundedUp, aligned_end-IsRoundedUp}
use damon_rs.Abi.Operation
use damon_rs.Abi.Action
use damon_rs.Abi.ProbeFilterType
use damon_rs.Abi.SchemeFilterType
use damon_rs.Abi.ProbePreparationAction
use damon_rs.Abi.SampleFilterType
use damon_rs.Abi.WatermarkMetric
use damon_rs.Abi.QuotaGoalMetric
use damon_rs.Abi.QuotaGoalTuner
use damon_rs.Abi.RoundTrip.{kernel_name_round_trip}
use damon_rs.Pattern.{equivalent_after_kernel_normalization}
use damon_rs.Pattern.Normalize.{IsNarrowed, equivalent-IsNarrowed}
use damon_rs.Model.Region.{InitialRegionConfig, from_byte_range_covering}
use damon_rs.Model.Region.Covering.{IsLeastCover, from_byte_range_covering-IsLeastCover}
use damon_rs.Region.{RawRegion, RawSnapshot, Region, probe_hits_from_kernel}
use damon_rs.Io.{newline, file, read_configuration_value_equals}
use damon_rs.Io.Content.{concat, read_configuration_value_equals_lem}
use damon_rs.Examples.Data.{pattern, narrow_pattern, unit}

covering_example :
    (r : InitialRegionConfig) × (from_byte_range_covering 5000 9000 unit ≡ ok r)
    × IsLeastCover 5000 9000 unit r
covering_example =
    from_byte_range_covering-IsLeastCover 5000 9000 unit
      (record { positive = omega arith; fits = omega arith }) (omega arith)

width_example :
    (equivalent_after_kernel_normalization pattern narrow_pattern ≡ true)
    ↔ IsNarrowed pattern narrow_pattern
width_example = equivalent-IsNarrowed pattern narrow_pattern

names_example :
    (Operation.kernel_name (Operation.parse "paddr") ≡ "paddr")
    × (Action.kernel_name (Action.parse "paddr") ≡ "paddr")
    × (ProbeFilterType.kernel_name (ProbeFilterType.parse "paddr") ≡ "paddr")
    × (SchemeFilterType.kernel_name (SchemeFilterType.parse "paddr") ≡ "paddr")
    × (ProbePreparationAction.kernel_name (ProbePreparationAction.parse "paddr") ≡ "paddr")
    × (SampleFilterType.kernel_name (SampleFilterType.parse "paddr") ≡ "paddr")
    × (WatermarkMetric.kernel_name (WatermarkMetric.parse "paddr") ≡ "paddr")
    × (QuotaGoalMetric.kernel_name (QuotaGoalMetric.parse "paddr") ≡ "paddr")
    × (QuotaGoalTuner.kernel_name (QuotaGoalTuner.parse "paddr") ≡ "paddr")
names_example = kernel_name_round_trip "paddr"

abbrev probes : List (ℕ × ℕ)
probes = (0, 7) ∷ (2, 0) ∷ (3, 255) ∷ (5, 1) ∷ (9, 2) ∷ []

abbrev raw : RawRegion
unfolding probe_hits_from_kernel
raw = record {
  start = 1;
  end = 3;
  nr_accesses = 2;
  age = 4;
  filter_passed_units = some 2;
  probe_hits = probe_hits_from_kernel probes;
}

abbrev region : Region
region = record { raw = raw; address_unit = unit }

abbrev snapshot : RawSnapshot
snapshot = record {
  regions = raw ∷ [];
  reported_total_units = some 5;
  materialized_total_units = 2;
}

-- The value `12` and a newline, in two reads.
content_example :
    (b : Bool) × (read_configuration_value_equals "path"
        (file (map ok ((49 ∷ []) ∷ (50 ∷ 10 ∷ []) ∷ [])))
        (49 ∷ 50 ∷ [])
      ≡ ok b)
    × ((b ≡ true) ↔ (
        (concat ((49 ∷ []) ∷ (50 ∷ 10 ∷ []) ∷ []) ≡ 49 ∷ 50 ∷ [])
        ⊎ (concat ((49 ∷ []) ∷ (50 ∷ 10 ∷ []) ∷ []) ≡ (49 ∷ 50 ∷ []) ++ newline ∷ [])))
content_example =
    read_configuration_value_equals_lem "path" ((49 ∷ []) ∷ (50 ∷ 10 ∷ []) ∷ []) (49 ∷ 50 ∷ [])
      (ground arith)

-- The second write is interrupted, then short.
abbrev writes : List Write
writes =
    record { path = "a"; value = 49 ∷ []; open_error = none; attempts = wrote 1 ∷ [] }
    ∷ record {
      path = "b";
      value = 50 ∷ 51 ∷ [];
      open_error = none;
      attempts = failed interrupted ∷ wrote 1 ∷ [];
    }
    ∷ []

journal_example :
    (r : Result (Unit {0})) × (paths : List String) × (collect_writes (write_all writes) none
      ≡ returned r paths none)
    × Journaled writes r paths
journal_example = collect_writes-Journaled writes (inr tt, (inr tt, tt))

-- The failed write is not in the journal.
journal_run :
    collect_writes (write_all writes) none
    ≡ returned (err (io "write complete value" "b" write_zero)) ("a" ∷ []) none
unfolding collect_writes write_all write_bytes write_once record_write
journal_run = refl

rounded_example :
    (aligned_end 4096 5000 ≡ ok 8192) ↔ (IsRoundedUp 4096 5000 8192 × (8192 ≤ u64_max))
rounded_example = aligned_end-IsRoundedUp 4096 5000 8192 (omega arith) (omega arith)

to_bytes_example : to_bytes unit 3 ≡ ok 12288
unfolding units_from_bytes_exact
to_bytes_example = to_bytes-units_from_bytes_exact unit 12288 3 (omega arith) refl
