-- ===== src/Model/Placement/ReadBack.antt =====
-- A filter list that was staged, compared with what is read back.
use mathlib.Core.Logic.{if_pos, if_neg}
use damon_rs.Common.{◌≡◌, refl, inl, inr, true, false, List, [], ◌∷◌, ◌++◌, map, arith, Bool-cases}
use damon_rs.Model.Layer.{unified, core, operations}
use damon_rs.Model.Filter.{FilterConfig}
use damon_rs.Model.Placement.{
  split_placement, unified_placement, place, filters_discrete, observed_split,
  canonicalize_filter_placements, semantic_filters_match, split_layers,
}
use damon_rs.Model.Placement.Buckets.{
  read_back, read_from, canonicalize-read_back, select, split_layers-select,
}

match_of_canonical :
    (filters observed : List FilterConfig)
    → canonicalize_filter_placements filters observed ≡ observed
    → semantic_filters_match filters observed ≡ true
unfolding semantic_filters_match
match_of_canonical filters observed e = elim (filters_discrete filters observed) [
  | yes p ↦ rw (if_pos _ p)
  | no p ↦ rw (if_neg _ p, if_pos _ e)
]

-- With no split placement asked for, each filter goes to the unified directory.
unified-read_from :
    (fs : List FilterConfig)
    → observed_split fs ≡ false
    → map (place false) fs ≡ read_from unified fs
unfolding place unified_placement
unified-read_from [] h = refl
unified-read_from (f ∷ fs) h = ground (arith, unified-read_from fs)

not_split : (fs : List FilterConfig) → observed_split (read_from unified fs) ≡ false
not_split [] = refl
not_split (f ∷ fs) = not_split fs

-- Filters of which none asks for a split directory, all staged into the one unified directory of
-- a kernel without split directories and read back, match the filters that were asked for.
pub semantic_filters_match-unified :
    (fs : List FilterConfig)
    → observed_split fs ≡ false
    → semantic_filters_match fs (read_from unified fs) ≡ true
unfolding canonicalize_filter_placements
semantic_filters_match-unified fs h =
    match_of_canonical fs (read_from unified fs) (rw (not_split fs) (unified-read_from fs h))

match_of_eq :
    (filters observed : List FilterConfig)
    → filters ≡ observed
    → semantic_filters_match filters observed ≡ true
unfolding semantic_filters_match
match_of_eq filters observed e = rw (if_pos _ e)

no_split_layer :
    (c o u : List FilterConfig)
    → observed_split (read_from core c ++ (read_from operations o ++ read_from unified u)) ≡ false
    → (c ≡ []) × (o ≡ [])
no_split_layer [] [] u h = (refl, refl)
no_split_layer [] (f ∷ o) u h = cc
no_split_layer (f ∷ c) o u h = cc

all_unified :
    (fs : List FilterConfig)
    → select core fs ≡ []
    → select operations fs ≡ []
    → fs ≡ read_from unified (select unified fs)
unfolding select split_placement
all_unified [] c o = refl
all_unified (f ∷ fs) c o = ground (arith, all_unified fs)

unsplit :
    (fs : List FilterConfig)
    → observed_split (read_back (split_layers fs)) ≡ false
    → semantic_filters_match fs (read_back (split_layers fs)) ≡ true
unsplit fs e =
    let e' = rw (split_layers-select fs) at e in
    let (c, o) = no_split_layer (select core fs) (select operations fs) (select unified fs) e' in
    match_of_eq fs (read_back (split_layers fs))
      (rw (split_layers-select fs, c, o) (all_unified fs c o))

-- Filters that are split over the three directories and read back, in the order core, operations,
-- unified, match the filters that were asked for, whatever their placements.
pub semantic_filters_match-split :
    (fs : List FilterConfig) → semantic_filters_match fs (read_back (split_layers fs)) ≡ true
semantic_filters_match-split fs = elim (Bool-cases (observed_split (read_back (split_layers fs)))) [
  | inl e ↦ match_of_canonical fs _ (canonicalize-read_back fs _ e)
  | inr e ↦ unsplit fs e
]
