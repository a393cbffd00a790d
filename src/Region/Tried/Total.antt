-- ===== src/Region/Tried/Total.antt =====
-- What reading the tried regions gives, and when it succeeds.
use damon_rs.Common.{ℕ, ◌+◌, ◌≤◌, ◌≡◌, ◌↔◌, ap, ◌∙◌, refl, List, [], ◌∷◌, ◌++◌, fit, u64_max, arith}
use damon_rs.Error.{ok, ok_or, snapshot_size_overflow}
use damon_rs.Error.Checks.{>>=-ok}
use damon_rs.Region.{RawRegion, RawSnapshot, len_units}
use damon_rs.Region.Tried.{
  Component, name, index, Files, read_if_present, read_region, read_regions, tried_regions,
}

-- Each index reads as the region at its place.
abbrev pub Reads : Files → List Component → List ℕ → List RawRegion → Type 0
Reads files base [] [] = Unit
Reads files base (i ∷ indices) (r ∷ rs) =
    (read_region files (base ++ index i ∷ []) ≡ ok r) × Reads files base indices rs
Reads files base _ _ = ⊥

abbrev pub total_length : List RawRegion → ℕ
total_length [] = 0
total_length (r ∷ rs) = len_units r + total_length rs

read_regions_sound :
    (files : Files) (base : List Component) (t : ℕ) (indices : List ℕ) (rs : List RawRegion) (n : ℕ)
    → t ≤ u64_max
    → read_regions files base t indices ≡ ok (rs, n)
    → Reads files base indices rs × (n ≡ t + total_length rs) × (n ≤ u64_max)
unfolding read_regions
read_regions_sound files base t [] [] n b h = (tt, ground arith, ground arith)
read_regions_sound files base t [] (r ∷ rs) n b h = absurd (ground arith)
read_regions_sound files base t (i ∷ indices) [] n b h =
    let (region, er, h1) = >>=-ok (read_region files (base ++ index i ∷ [])) _ h in
    let (next, en, h2) =
      >>=-ok (ok_or (fit u64_max (t + len_units region)) snapshot_size_overflow) _ h1 in
    let (rest, es, h3) = >>=-ok (read_regions files base next indices) _ h2 in absurd (ground arith)
read_regions_sound files base t (i ∷ indices) (r ∷ rs) n b h =
    let (region, er, h1) = >>=-ok (read_region files (base ++ index i ∷ [])) _ h in
    let (next, en, h2) =
      >>=-ok (ok_or (fit u64_max (t + len_units region)) snapshot_size_overflow) _ h1 in
    let (rest, es, h3) = >>=-ok (read_regions files base next indices) _ h2 in
    let same : rest ≡ (rs, n) = ground arith in
    let first : region ≡ r = ground arith in
    let sum : next ≡ t + len_units region = ground arith in
    let fits : next ≤ u64_max = ground arith in
    let (reads, total, bound) =
      read_regions_sound files base next indices rs n fits (es ∙ ap ok same) in
    ((er ∙ ap ok first, reads), rw (← first) (omega (arith, total, sum)), bound)

read_regions_complete :
    (files : Files) (base : List Component) (t : ℕ) (indices : List ℕ) (rs : List RawRegion)
    → Reads files base indices rs
    → t + total_length rs ≤ u64_max
    → read_regions files base t indices ≡ ok (rs, t + total_length rs)
unfolding read_regions
read_regions_complete files base t [] [] h b = ground arith
read_regions_complete files base t [] (r ∷ rs) h b = elim h [ ]
read_regions_complete files base t (i ∷ indices) [] h b = elim h [ ]
read_regions_complete files base t (i ∷ indices) (r ∷ rs) h b =
    let rest = read_regions_complete files base (t + len_units r) indices rs h.1 (omega arith) in
    let fits : ok_or (fit u64_max (t + len_units r)) snapshot_size_overflow ≡ ok (t + len_units r) =
      ground arith in
    let sum : t + (len_units r + total_length rs) ≡ t + len_units r + total_length rs =
      omega arith in
    rw (read_regions, h.0, fits, rest, sum) refl

-- The regions of the files, in order, with their total length, and the total that the kernel
-- reports where it has one.
abbrev pub IsRead : Files → List Component → RawSnapshot → Type 0
IsRead files base s =
    (read_if_present files (base ++ name "total_bytes" ∷ []) ≡ ok s.reported_total_units)
    × ((indices : List ℕ) × (files.numeric_directory_indices base ≡ ok indices)
        × Reads files base indices s.regions)
    × (s.materialized_total_units ≡ total_length s.regions)
    × (total_length s.regions ≤ u64_max)

-- Whatever the files return, reading the tried regions gives a snapshot exactly where its
-- reported total is the one read, if present, its regions are those read for the listed indices,
-- in order, and its materialized total is the sum of their lengths and fits u64.
pub tried_regions-IsRead :
    (files : Files) (base : List Component) (s : RawSnapshot)
    → (tried_regions files base ≡ ok s) ↔ IsRead files base s
unfolding tried_regions
tried_regions-IsRead files base s = (
  λ h.
      let (reported, er, h1) =
        >>=-ok (read_if_present files (base ++ name "total_bytes" ∷ [])) _ h in
      let (indices, ei, h2) = >>=-ok (files.numeric_directory_indices base) _ h1 in
      let (regions, es, h3) = >>=-ok (read_regions files base 0 indices) _ h2 in
      let one : reported ≡ s.reported_total_units = ground arith in
      let all_regions : regions ≡ (s.regions, s.materialized_total_units) = ground arith in
      let (reads, total, bound) =
        read_regions_sound files base 0 indices s.regions s.materialized_total_units (omega arith)
          (es ∙ ap ok all_regions) in
      (er ∙ ap ok one, (indices, ei, reads), omega (arith, total), omega (arith, total, bound)),
  λ v.
      let (indices, ei, reads) = v.1 in
      let regions =
        read_regions_complete files base 0 indices s.regions reads (omega (arith, v.3)) in
      let zero_added : 0 + total_length s.regions ≡ total_length s.regions = omega arith in
      rw (tried_regions, v.0, ei, regions, zero_added, v.2) refl,
)
