-- ===== src/Region.antt =====
-- src/region.rs: regions and snapshots, as the kernel reports them and with a byte scale.
pub mod Results
pub mod Tried
use damon_rs.Common.{
  ℕ, suc, ◌+◌, ◌-◌, ◌≡◌, Bool, true, false, Option, none, some, List, [], ◌∷◌, map, zip, take,
  set_elem, length, leb, ltb, ◌==◌, if◌then◌else◌,
}
use damon_rs.Error.{Result, ok, err, ◌>>=◌, invalid_region}
use damon_rs.Config.AddressUnit.{AddressUnit, to_bytes}

-- A probe's index, and the number of its positive samples.
pub record ProbeHit : Type 0 where
  pub index : ℕ
  pub hits : ℕ

pub data ProbeHits : Type 0 where
  -- the two arrays of four, and how many of their elements are used
  inline : (indices hits : List ℕ) → (len : ℕ) → ProbeHits
  heap : (indices hits : List ℕ) → ProbeHits

abbrev pub inline_probe_hits : ℕ
inline_probe_hits = 4

-- The loop that fills one of the arrays, from `offset`.
unfoldable pub fill : List ℕ → ℕ → List ℕ → List ℕ
fill array offset [] = array
fill array offset (value ∷ values) = fill (set_elem array offset value) (suc offset) values

abbrev pub index_of : ℕ × ℕ → ℕ
index_of value = value.0

abbrev pub hits_of : ℕ × ℕ → ℕ
hits_of value = value.1

unfoldable pub probe_hits_from_kernel : List (ℕ × ℕ) → ProbeHits
unfolding fill
probe_hits_from_kernel values =
    let zeros = 0 ∷ 0 ∷ 0 ∷ 0 ∷ [] in
    if leb (length values) inline_probe_hits
    then inline (fill zeros 0 (map index_of values)) (fill zeros 0 (map hits_of values))
        (length values)
    else heap (map index_of values) (map hits_of values)

unfoldable pub indices : ProbeHits → List ℕ
indices (inline index_array hit_array len) = take len index_array
indices (heap index_array hit_array) = index_array

unfoldable pub hits : ProbeHits → List ℕ
hits (inline index_array hit_array len) = take len hit_array
hits (heap index_array hit_array) = hit_array

pub record RawRegion : Type 0 where
  pub start : ℕ
  pub end : ℕ
  pub nr_accesses : ℕ
  pub age : ℕ
  pub filter_passed_units : Option ℕ
  pub probe_hits : ProbeHits

unfoldable pub raw_region_from_kernel : ℕ → ℕ → ℕ → ℕ → Option ℕ → List (ℕ × ℕ) → Result RawRegion
raw_region_from_kernel start end nr_accesses age filter_passed_units probe_hits =
    if ltb end start
    then err (invalid_region start end)
    else ok (record {
      start = start;
      end = end;
      nr_accesses = nr_accesses;
      age = age;
      filter_passed_units = filter_passed_units;
      probe_hits = probe_hits_from_kernel probe_hits;
    })

unfoldable pub len_units : RawRegion → ℕ
len_units region = region.end - region.start

abbrev pub probe_hit : ℕ × ℕ → ProbeHit
probe_hit value = record { index = value.0; hits = value.1 }

unfoldable pub probe_results : RawRegion → List ProbeHit
probe_results region = map probe_hit (zip (indices region.probe_hits) (hits region.probe_hits))

pub data SnapshotCompleteness : Type 0 where
  complete : SnapshotCompleteness
  partial : (reported_units materialized_units : ℕ) → SnapshotCompleteness
  inconsistent : (reported_units materialized_units : ℕ) → SnapshotCompleteness
  unverifiable : SnapshotCompleteness

pub record RawSnapshot : Type 0 where
  pub regions : List RawRegion
  pub reported_total_units : Option ℕ
  pub materialized_total_units : ℕ

unfoldable pub total_units : RawSnapshot → ℕ
total_units snapshot = elim snapshot.reported_total_units [
  | some total ↦ total
  | none ↦ snapshot.materialized_total_units
]

unfoldable pub completeness : RawSnapshot → SnapshotCompleteness
completeness snapshot = elim snapshot.reported_total_units [
  | some reported ↦
      if reported == snapshot.materialized_total_units
      then complete
      else if ltb snapshot.materialized_total_units reported
      then partial reported snapshot.materialized_total_units
      else inconsistent reported snapshot.materialized_total_units
  | none ↦ unverifiable
]

-- A raw region seen through the unit of its snapshot.
pub record Region : Type 0 where
  pub raw : RawRegion
  pub address_unit : AddressUnit

unfoldable pub start_bytes : Region → Result ℕ
unfolding to_bytes
start_bytes region = to_bytes region.address_unit region.raw.start

unfoldable pub end_bytes : Region → Result ℕ
unfolding to_bytes
end_bytes region = to_bytes region.address_unit region.raw.end

unfoldable pub len_bytes : Region → Result ℕ
unfolding to_bytes len_units
len_bytes region = to_bytes region.address_unit (len_units region.raw)
