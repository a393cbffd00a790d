-- ===== src/Model/Placement.antt =====
-- `canonicalize_filter_placements` and `semantic_filters_match` of
-- src/sysfs/configuration/helpers.rs, and the split of a filter list over directories in
-- `stage_semantic_filters` of src/sysfs/configuration/staging.rs.
pub mod Buckets
pub mod ReadBack
use damon_rs.Common.{
  ite, ℕ_discrete, String-discrete, ℕ, Bool, true, false, ◌&&◌, ◌||◌, Option, none, some, List, [],
  ◌∷◌, ◌++◌, map, any, leb, if◌then◌else◌,
}
use damon_rs.Abi.SchemeFilterType.{handled_by_operations}
use damon_rs.Model.Layer.{FilterPlacement, adaptive, unified, core, operations}
use damon_rs.Model.Filter.{FilterConfig}

-- The placement is one of the two split directories.
abbrev pub is_split : FilterPlacement → Bool
is_split core = true
is_split operations = true
is_split _ = false

abbrev pub by_handler : Option Bool → FilterPlacement
by_handler (some false) = core
by_handler _ = operations

-- The directory of a filter in a split hierarchy.
unfoldable pub split_placement : FilterPlacement → Option Bool → FilterPlacement
split_placement adaptive handled = by_handler handled
split_placement placement handled = placement

unfoldable pub unified_placement : FilterPlacement → FilterPlacement
unified_placement adaptive = unified
unified_placement placement = placement

-- What the loop of `canonicalize_filter_placements` makes of one filter.
unfoldable pub place : Bool → FilterConfig → FilterConfig
unfolding split_placement unified_placement
place split f = record f {
  placement =
      if split
      then split_placement f.placement (handled_by_operations f.filter_type)
      else unified_placement f.placement;
}

unfoldable pub key : FilterConfig → ℕ
key f = elim f.placement [ adaptive ↦ 3 | unified ↦ 2 | core ↦ 0 | operations ↦ 1 ]

insert : FilterConfig → List FilterConfig → List FilterConfig
insert f [] = f ∷ []
insert f (g ∷ gs) = if leb (key f) (key g) then f ∷ g ∷ gs else g ∷ insert f gs

-- The standard library's stable sort by that key.
unfoldable pub sort_by_key : List FilterConfig → List FilterConfig
unfolding insert key
sort_by_key [] = []
sort_by_key (f ∷ fs) = insert f (sort_by_key fs)

abbrev pub observed_split : List FilterConfig → Bool
observed_split = any λ f. is_split f.placement

unfoldable pub canonicalize_filter_placements :
    List FilterConfig → List FilterConfig → List FilterConfig
unfolding place sort_by_key
canonicalize_filter_placements filters observed =
    let placed = map (place (observed_split observed)) filters in
    if observed_split observed then sort_by_key placed else placed

-- `==` on filter lists
pub filters_discrete : Discrete (List FilterConfig)
filters_discrete = hlevel (ℕ_discrete, String-discrete)

unfoldable pub semantic_filters_match : List FilterConfig → List FilterConfig → Bool
semantic_filters_match requested observed =
    ite (filters_discrete requested observed) true (
      ite (filters_discrete (canonicalize_filter_placements requested observed) observed) true
        false)

-- The lists that `stage_semantic_filters` fills in a split hierarchy.
pub record Layers : Type 0 where
  pub core_layer : List FilterConfig
  pub operations_layer : List FilterConfig
  pub unified_layer : List FilterConfig

push_layer : Layers → FilterPlacement → Option Bool → FilterConfig → Layers
push_layer l core handled f = record l { core_layer = l.core_layer ++ f ∷ [] }
push_layer l operations handled f = record l { operations_layer = l.operations_layer ++ f ∷ [] }
push_layer l unified handled f = record l { unified_layer = l.unified_layer ++ f ∷ [] }
push_layer l adaptive (some false) f = record l { core_layer = l.core_layer ++ f ∷ [] }
push_layer l adaptive handled f = record l { operations_layer = l.operations_layer ++ f ∷ [] }

push_layers : Layers → List FilterConfig → Layers
unfolding push_layer
push_layers l [] = l
push_layers l (f ∷ fs) =
    push_layers (push_layer l f.placement (handled_by_operations f.filter_type) f) fs

unfoldable pub split_layers : List FilterConfig → Layers
unfolding push_layers
split_layers = push_layers (record { core_layer = []; operations_layer = []; unified_layer = [] })
