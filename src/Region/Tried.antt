-- ===== src/Region/Tried.antt =====
-- `Scheme::tried_regions` of src/sysfs/scheme/mod.rs: reading the regions that a scheme tried. The
-- files are a parameter: what the functions of src/sysfs/io.rs return for a path.
pub mod Total
use damon_rs.Common.{
  ℕ, ◌+◌, Bool, true, false, Option, none, some, String, List, [], ◌∷◌, ◌++◌, fit, u64_max,
  if◌then◌else◌,
}
use damon_rs.Error.{Result, ok, err, ◌>>=◌, ok_or, snapshot_size_overflow}
use damon_rs.Region.{RawRegion, RawSnapshot, raw_region_from_kernel, len_units}

-- A component of a path, the second kind one that displays a number.
pub data Component : Type 0 where
  name : String → Component
  index : ℕ → Component

pub record Files : Type 0 where
  pub path_exists : List Component → Result Bool
  pub path_is_dir : List Component → Result Bool
  pub numeric_directory_indices : List Component → Result (List ℕ)
  pub read_u64 : List Component → Result ℕ
  pub read_u32 : List Component → Result ℕ
  pub read_u8 : List Component → Result ℕ

unfoldable pub read_if_present : Files → List Component → Result (Option ℕ)
read_if_present files path = do
  present ← files.path_exists path
  if present then (do value ← files.read_u64 path; ok (some value)) else ok none

-- The loop over the probes of a region.
unfoldable pub read_hits : Files → List Component → List ℕ → Result (List (ℕ × ℕ))
read_hits files probes [] = ok []
read_hits files probes (probe ∷ rest) =
    let path = probes ++ index probe ∷ name "hits" ∷ [] in
    let later = read_hits files probes rest in
    do
      present ← files.path_exists path
      if present
          then (do hits ← files.read_u8 path; values ← later; ok ((probe, hits) ∷ values))
          else later

unfoldable pub read_probes : Files → List Component → Result (List (ℕ × ℕ))
read_probes files probes = do
  present ← files.path_is_dir probes
  if present
      then (do indices ← files.numeric_directory_indices probes; read_hits files probes indices)
      else ok []

-- The body of the loop over the regions, up to the sum.
unfoldable pub read_region : Files → List Component → Result RawRegion
unfolding read_if_present read_probes
read_region files path = do
  start ← files.read_u64 (path ++ name "start" ∷ [])
  end ← files.read_u64 (path ++ name "end" ∷ [])
  nr_accesses ← files.read_u32 (path ++ name "nr_accesses" ∷ [])
  age ← files.read_u32 (path ++ name "age" ∷ [])
  filter_passed_units ← read_if_present files (path ++ name "sz_filter_passed" ∷ [])
  probe_hits ← read_probes files (path ++ name "probes" ∷ [])
  raw_region_from_kernel start end nr_accesses age filter_passed_units probe_hits

-- The loop over the regions, with its `computed_total_units`, which a `u64` holds.
unfoldable pub read_regions : Files → List Component → ℕ → List ℕ → Result (List RawRegion × ℕ)
read_regions files base total [] = ok ([], total)
read_regions files base total (i ∷ indices) = do
  region ← read_region files (base ++ index i ∷ [])
  next ← ok_or (fit u64_max (total + len_units region)) snapshot_size_overflow
  rest ← read_regions files base next indices
  ok (region ∷ rest.0, rest.1)

unfoldable pub tried_regions : Files → List Component → Result RawSnapshot
tried_regions files base = do
  reported ← read_if_present files (base ++ name "total_bytes" ∷ [])
  indices ← files.numeric_directory_indices base
  regions ← read_regions files base 0 indices
  ok (record {
    regions = regions.0;
    reported_total_units = reported;
    materialized_total_units = regions.1;
  })
