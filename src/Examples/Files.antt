-- ===== src/Examples/Files.antt =====
-- The files of one tried region, with one probe.
use damon_rs.Common.{ℕ, ◌≡◌, ◌↔◌, refl, true, some, List, [], ◌∷◌, str_eq, if◌then◌else◌}
use damon_rs.Error.{Result, ok, err, unsupported_platform}
use damon_rs.Region.{RawSnapshot, probe_hits_from_kernel, raw_region_from_kernel, len_units}
use damon_rs.Region.Tried.{
  Component, name, index, Files, read_if_present, read_hits, read_probes, read_region, read_regions,
  tried_regions,
}
use damon_rs.Region.Tried.Total.{IsRead, tried_regions-IsRead}

abbrev content : List Component → Result ℕ
content (name total ∷ []) = ok 2
content (index region ∷ name field ∷ []) =
    ok (if str_eq field "start" then 1 else if str_eq field "end" then 3 else 2)
content path = err unsupported_platform

abbrev files : Files
files = record {
  path_exists = λ path. ok true;
  path_is_dir = λ path. ok true;
  numeric_directory_indices = λ path. ok (0 ∷ []);
  read_u64 = content;
  read_u32 = content;
  read_u8 = λ path. ok 7;
}

abbrev tried : RawSnapshot
unfolding probe_hits_from_kernel
tried = record {
  regions =
      record {
        start = 1;
        end = 3;
        nr_accesses = 2;
        age = 2;
        filter_passed_units = some 2;
        probe_hits = probe_hits_from_kernel ((0, 7) ∷ []);
      }
      ∷ [];
  reported_total_units = some 2;
  materialized_total_units = 2;
}

tried_run : tried_regions files [] ≡ ok tried
unfolding tried tried_regions read_regions read_region read_probes read_hits read_if_present
    raw_region_from_kernel len_units
tried_run = refl

tried_example : (tried_regions files [] ≡ ok tried) ↔ IsRead files [] tried
tried_example = tried_regions-IsRead files [] tried
